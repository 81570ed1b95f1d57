-- ===== src/Database/Forwards/Runs.antt =====
-- The stored port forwards through any run of writes: every row can be read back.
use egress_manager.Base.{
  ℕ, ◌+◌, if◌then◌else◌, ◌/◌, ◌*◌, ◌==◌, ◌≡◌, refl, subst, sym, Bool, true, false, ◌||◌, not,
  Option, none, some, List, [], ◌∷◌, ltb, length, select, if_rule, Bytes, bytes_eq→eq, All,
  All-append, All-select, arith,
}
use egress_manager.Effect.{ok}
use egress_manager.Database.{is_nil, second}
use egress_manager.Domain.Issue.{Issue}
use egress_manager.Domain.Identifier.{validate_id}
use egress_manager.Domain.Forward.{PortForward, validate_forward}
use egress_manager.Database.Forwards.{
  ForwardRow, Forwards, ForwardJson, is_revision, changed, updated_rows, insert_admitted,
  update_admitted, create_encoded, update_encoded, encode_forward, create_forward, update_forward,
  delete_forward, scan_forward, counted,
}
use egress_manager.Database.Forwards.Exclusive.{port_forward-rows}

-- A write, and what it leaves, whatever it returns.
pub data Write : Type 0 where
  create : PortForward → Option ℕ → Write
  update : PortForward → ℕ → Option ℕ → Write
  delete : Bytes → ℕ → Write

module _ (json : ForwardJson) (fault : ℕ → Bool) where
  unfoldable pub after_write : Write → Forwards → Forwards
  after_write (create f at) store = (create_forward json fault f at store).1
  after_write (update f n at) store = (update_forward json fault f n at store).1
  after_write (delete id n) store = (delete_forward json fault id n store).1

  unfoldable pub after_writes : List Write → Forwards → Forwards
  after_writes [] store = store
  after_writes (w ∷ ws) store = after_writes ws (after_write w store)

module _ (json : ForwardJson) where
  -- The row is read without an error, as a valid port forward with the id, the name and the switch
  -- of the row.
  pub record IsReadable (r : ForwardRow) : Type 0 where
    pub forward : PortForward
    pub reads :
        scan_forward json (some r)
        ≡ ok (record {
          forward = forward;
          revision = r.revision;
          created_at = r.created_at * second;
          updated_at = r.updated_at * second;
        })
    pub valid : validate_forward forward ≡ []
    pub same_id : forward.id ≡ r.id
    pub same_name : forward.name ≡ r.name
    pub same_switch : forward.enabled ≡ r.enabled

  -- What JSON makes of the forward is decoded to it.
  abbrev pub Decodes : PortForward → Type 0
  Decodes f = (d : Bytes) → json.marshal f ≡ some d → json.decode d ≡ some f

  abbrev pub WriteDecodes : Write → Type 0
  WriteDecodes (create f at) = Decodes f
  WriteDecodes (update f n at) = Decodes f
  WriteDecodes (delete id n) = Unit

  nil_lem : (xs : List Issue) → is_nil xs ≡ true → xs ≡ []
  nil_lem [] h = refl
  nil_lem (x ∷ xs) h = absurd (ground arith)

  -- A row that holds what `encodePortForward` made.
  written :
      (f : PortForward) (d : Bytes) (n made at : ℕ)
      → encode_forward json f ≡ some d
      → Decodes f
      → IsReadable (record {
        id = f.id;
        name = f.name;
        definition = d;
        enabled = f.enabled;
        revision = n;
        created_at = made;
        updated_at = at;
      })
  unfolding encode_forward scan_forward
  written f d n made at h back = record {
    forward = f;
    reads = rw (back d marshalled) (rw accepted refl);
    valid = nil_lem (validate_forward f) accepted;
    same_id = refl;
    same_name = refl;
    same_switch = refl;
  }
    where
      accepted : is_nil (validate_forward f) ≡ true
      accepted = ground (arith, h)

      marshalled : json.marshal f ≡ some d
      marshalled = ground (arith, h, accepted)

  changed-IsReadable :
      (f : PortForward) (d : Bytes) (at : ℕ) (r : ForwardRow)
      → encode_forward json f ≡ some d
      → Decodes f
      → f.id ≡ r.id
      → IsReadable (changed f d at r)
  changed-IsReadable f d at r h back same =
      subst
        (λ id. IsReadable (record {
          id = id;
          name = f.name;
          definition = d;
          enabled = f.enabled;
          revision = r.revision + 1;
          created_at = r.created_at;
          updated_at = at;
        }))
        same (written f d (r.revision + 1) r.created_at at h back)

  updated_rows-IsReadable :
      (f : PortForward) (d : Bytes) (n at : ℕ) (rows : List ForwardRow)
      → encode_forward json f ≡ some d
      → Decodes f
      → All IsReadable rows
      → All IsReadable (updated_rows f d n at rows)
  unfolding updated_rows
  updated_rows-IsReadable f d n at [] h back all = tt
  updated_rows-IsReadable f d n at (r ∷ rows) h back all =
      (place (is_revision f.id n r) refl, updated_rows-IsReadable f d n at rows h back all.1)
    where
      place : (b : Bool) → is_revision f.id n r ≡ b → IsReadable (if b then changed f d at r else r)
      place true e =
          changed-IsReadable f d at r h back (sym (bytes_eq→eq r.id f.id (ground (arith, e))))
      place false e = all.0

  module _ (fault : ℕ → Bool) (store : Forwards) (all : All IsReadable store.rows) where
    abbrev Readable : {A : Type 0} → A × Forwards → Type 0
    Readable r = All IsReadable r.1.rows

    create_encoded-IsReadable :
        (o : Option Bytes) (f : PortForward) (at : Option ℕ)
        → encode_forward json f ≡ o
        → Decodes f
        → Readable (create_encoded json fault o f at store)
    create_encoded-IsReadable none f at h back = all
    create_encoded-IsReadable (some d) f none h back = all
    create_encoded-IsReadable (some d) f (some at) h back =
        if_rule Readable (fault store.statements) all (
          if_rule Readable (not (insert_admitted f store.rows)) all (
            All-append IsReadable store.rows _ all
              (written f d 1 (at / second) (at / second) h back, tt)))

    update_encoded-IsReadable :
        (o : Option Bytes) (f : PortForward) (n : ℕ) (at : Option ℕ)
        → encode_forward json f ≡ o
        → Decodes f
        → Readable (update_encoded json fault o f n at store)
    update_encoded-IsReadable none f n at h back = all
    update_encoded-IsReadable (some d) f n none h back = all
    update_encoded-IsReadable (some d) f n (some at) h back = if_rule Readable (ltb n 1) all (
        if_rule Readable (fault store.statements) all (
          if_rule Readable (not (update_admitted f n (at / second) store.rows)) all (
            if_rule Readable (not (length (select (is_revision f.id n) store.rows) == 1)) later (
              subst (All IsReadable)
                (sym (port_forward-rows json fault f.id (record (counted store) { rows = rows })))
                later))))
      where
        rows : List ForwardRow
        rows = updated_rows f d n (at / second) store.rows

        later : All IsReadable rows
        later = updated_rows-IsReadable f d n (at / second) store.rows h back all

    delete_forward-IsReadable :
        (id : Bytes) (n : ℕ) → Readable (delete_forward json fault id n store)
    unfolding delete_forward
    delete_forward-IsReadable id n =
        if_rule Readable (not (is_nil (validate_id id)) || ltb n 1) all (
          if_rule Readable (fault store.statements) all
            (All-select IsReadable (λ r. not (is_revision id n r)) store.rows all))

  -- Any run of writes, with any statements refused, of forwards that JSON decodes as it has encoded
  -- them, leaves a table in which every row can be read, if that was so before: as a forward that
  -- passes validation and has the id, the name and the switch that the row's columns say.
  pub after_writes-IsReadable :
      (fault : ℕ → Bool) (writes : List Write) (store : Forwards)
      → All WriteDecodes writes
      → All IsReadable store.rows
      → All IsReadable (after_writes json fault writes store).rows
  unfolding after_writes after_write create_forward update_forward
  after_writes-IsReadable fault [] store back all = all
  after_writes-IsReadable fault (create f at ∷ ws) store back all =
      after_writes-IsReadable fault ws (create_forward json fault f at store).1 back.1
        (create_encoded-IsReadable fault store all (encode_forward json f) f at refl back.0)
  after_writes-IsReadable fault (update f n at ∷ ws) store back all =
      after_writes-IsReadable fault ws (update_forward json fault f n at store).1 back.1
        (update_encoded-IsReadable fault store all (encode_forward json f) f n at refl back.0)
  after_writes-IsReadable fault (delete id n ∷ ws) store back all =
      after_writes-IsReadable fault ws (delete_forward json fault id n store).1 back.1
        (delete_forward-IsReadable fault store all id n)
