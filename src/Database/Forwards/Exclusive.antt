-- ===== src/Database/Forwards/Exclusive.antt =====
-- Two updates of a stored port forward that name the same revision.
use egress_manager.Base.{
  bytes_eq→eq, ℕ, ◌+◌, ◌/◌, ◌≡◌, refl, subst, sym, Bool, true, false, not, Option, none, some, List,
  [], ◌∷◌, ◌==◌, Bytes, bytes_eq, select, length, All, Pairs, ==→eq, arith, Bool-cases, inl, inr,
}
use egress_manager.Effect.{ok}
use egress_manager.Domain.Forward.{PortForward}
use egress_manager.Database.{second}
use egress_manager.Database.Forwards.{
  StoredForward, ForwardRow, Forwards, ForwardJson, counted, is_stored_as, is_revision,
  find_forward, changed, updated_rows, encode_forward, stored_of, scan_forward, port_forward,
  update_encoded, update_forward, delete_forward,
}

-- No row is left at the revision.
updated_rows-none :
    (f : PortForward) (d : Bytes) (n at : ℕ) (rows : List ForwardRow)
    → length (select (is_revision f.id n) (updated_rows f d n at rows)) ≡ 0
unfolding updated_rows
updated_rows-none f d n at [] = refl
updated_rows-none f d n at (r ∷ rows) =
    let earlier = updated_rows-none f d n at rows in
    elim (Bool-cases (is_revision f.id n r)) [
      | inr off ↦ rw off (rw off earlier)
      | inl on ↦ rw on (rw (moved on) earlier)
    ]
  where
    moved : is_revision f.id n r ≡ true → is_revision f.id n (changed f d at r) ≡ false
    moved on = ground arith

-- An update that finds no row changes none.
pub updated_rows-same :
    (f : PortForward) (d : Bytes) (n at : ℕ) (rows : List ForwardRow)
    → length (select (is_revision f.id n) rows) ≡ 0
    → updated_rows f d n at rows ≡ rows
unfolding updated_rows
updated_rows-same f d n at [] h = refl
updated_rows-same f d n at (r ∷ rows) h = ground (arith, h, updated_rows-same f d n at rows)

select-same :
    (id : Bytes) (n : ℕ) (rows : List ForwardRow)
    → length (select (is_revision id n) rows) ≡ 0
    → select (λ r. not (is_revision id n r)) rows ≡ rows
select-same id n [] h = refl
select-same id n (r ∷ rows) h = ground (arith, h, select-same id n rows)

module _ (json : ForwardJson) where
  scan_forward-ok :
      (r : ForwardRow) (o : Option PortForward) (f : PortForward) (stored : StoredForward)
      → o ≡ some f
      → stored_of json r o ≡ ok stored
      → (stored.forward ≡ f) × (stored.revision ≡ r.revision)
  scan_forward-ok r none f stored k h = absurd (ground arith)
  scan_forward-ok r (some g) f stored k h = (ground arith, ground arith)

-- No two rows have one id.
abbrev pub IsKeyed : List ForwardRow → Type 0
IsKeyed rows = Pairs (λ r q. bytes_eq q.id r.id ≡ false) rows

bytes_eq_other : (a b c : Bytes) → bytes_eq b a ≡ false → bytes_eq a c ≡ true → bytes_eq b c ≡ false
bytes_eq_other a b c other same = subst (λ x. bytes_eq b x ≡ false) (bytes_eq→eq a c same) other

no_other :
    (id : Bytes) (n : ℕ) (r : ForwardRow) (rows : List ForwardRow)
    → All (λ q. bytes_eq q.id r.id ≡ false) rows
    → is_stored_as id r ≡ true
    → length (select (is_revision id n) rows) ≡ 0
no_other id n r [] keyed same = refl
no_other id n r (q ∷ rows) keyed same =
    ground (arith, bytes_eq_other r.id q.id id keyed.0 same, no_other id n r rows keyed.1 same)

-- The row that an update has changed.
record Changed (f : PortForward) (d : Bytes) (n at : ℕ) (rows : List ForwardRow) : Type 0 where
  row : ForwardRow
  at_revision : row.revision ≡ n
  found : find_forward f.id (updated_rows f d n at rows) ≡ some (changed f d at row)

find_forward-Changed :
    (f : PortForward) (d : Bytes) (n at : ℕ) (rows : List ForwardRow)
    → IsKeyed rows
    → length (select (is_revision f.id n) rows) ≡ 1
    → Changed f d n at rows
unfolding find_forward updated_rows
find_forward-Changed f d n at [] keyed h = absurd (ground arith)
find_forward-Changed f d n at (r ∷ rows) keyed h = elim (Bool-cases (is_stored_as f.id r)) [
  | inl same ↦
      let none_else = no_other f.id n r rows keyed.0 same in
      let revision : r.revision == n ≡ true = ground (arith, h, none_else, same) in
      record {
        row = r;
        at_revision = ==→eq r.revision n revision;
        found = ground (arith, same, revision);
      }
  | inr other ↦
      let later = find_forward-Changed f d n at rows keyed.1 (ground (arith, h, other)) in
      record {
        row = later.row;
        at_revision = later.at_revision;
        found = ground (arith, other, later.found);
      }
]

module _ (json : ForwardJson) (fault : ℕ → Bool) where
  pub port_forward-rows :
      (id : Bytes) (store : Forwards) → (port_forward json fault id store).1.rows ≡ store.rows
  unfolding port_forward
  port_forward-rows id store = ground arith

  port_forward-ok :
      (id : Bytes) (store : Forwards) (stored : StoredForward)
      → (port_forward json fault id store).0 ≡ ok stored
      → scan_forward json (find_forward id store.rows) ≡ ok stored
  unfolding port_forward
  port_forward-ok id store stored h = ground arith

  -- What an update that succeeds has done.
  record Made (o : Option Bytes) (f : PortForward) (n : ℕ) (store store' : Forwards)
      (stored : StoredForward) : Type 0 where
    definition : Bytes
    time : ℕ
    encoded : o ≡ some definition
    counted_one : length (select (is_revision f.id n) store.rows) ≡ 1
    rows_after : store'.rows ≡ updated_rows f definition n time store.rows
    read_back :
        scan_forward json (find_forward f.id (updated_rows f definition n time store.rows))
        ≡ ok stored

  update_encoded-Made :
      (o : Option Bytes) (f : PortForward) (n : ℕ) (at : Option ℕ) (store : Forwards)
      (stored : StoredForward)
      → (update_encoded json fault o f n at store).0 ≡ ok stored
      → Made o f n store (update_encoded json fault o f n at store).1 stored
  update_encoded-Made none f n at store stored h = absurd (ground arith)
  update_encoded-Made (some d) f n none store stored h = absurd (ground arith)
  update_encoded-Made (some d) f n (some at) store stored h =
      let rows = updated_rows f d n (at / second) store.rows in
      let store' : Forwards = record (counted store) { rows = rows } in
      let read = port_forward-rows f.id store' in
      let one : length (select (is_revision f.id n) store.rows) == 1 ≡ true = ground (arith, h) in
      record {
        definition = d;
        time = at / second;
        encoded = refl;
        counted_one = ==→eq _ _ one;
        rows_after = ground (arith, h, read);
        read_back = port_forward-ok f.id store' stored (ground (arith, h));
      }

  update_encoded-none :
      (o : Option Bytes) (f : PortForward) (n : ℕ) (at : Option ℕ) (store : Forwards)
      (stored : StoredForward)
      → length (select (is_revision f.id n) store.rows) ≡ 0
      → ((update_encoded json fault o f n at store).1.rows ≡ store.rows)
        × (¬ ((update_encoded json fault o f n at store).0 ≡ ok stored))
  update_encoded-none none f n at store stored h = (refl, λ k. ground arith)
  update_encoded-none (some d) f n none store stored h = (refl, λ k. ground arith)
  update_encoded-none (some d) f n (some at) store stored h = (
    ground (arith, h, updated_rows-same f d n (at / second) store.rows h),
    λ k. ground (arith, h, k),
  )

  delete_forward-none :
      (id : Bytes) (n : ℕ) (store : Forwards)
      → length (select (is_revision id n) store.rows) ≡ 0
      → ((delete_forward json fault id n store).1.rows ≡ store.rows)
        × (¬ ((delete_forward json fault id n store).0 ≡ none))
  unfolding delete_forward
  delete_forward-none id n store h =
      (ground (arith, h, select-same id n store.rows h), λ k. ground (arith, h, k))

  read-Changed :
      (f : PortForward) (d : Bytes) (n at : ℕ) (rows : List ForwardRow) (stored : StoredForward)
      → Changed f d n at rows
      → json.decode d ≡ some f
      → scan_forward json (find_forward f.id (updated_rows f d n at rows)) ≡ ok stored
      → (stored.forward ≡ f) × (stored.revision ≡ n + 1)
  unfolding scan_forward
  read-Changed f d n at rows stored c reads h =
      let seen = subst (λ o. scan_forward json o ≡ ok stored) c.found h in
      let (same, next) =
        scan_forward-ok json (changed f d at c.row) (json.decode d) f stored reads seen in
      (same, omega (arith, next, c.at_revision))

  -- In a table whose rows have different ids, an update that succeeds returns what it was given, at
  -- the next revision, if the JSON that was written is read back; behind it no update and no deletion
  -- of that port forward that names the old revision succeeds, and none changes a row.
  pub update_forward-Exclusive :
      (f g : PortForward) (n : ℕ) (at later : Option ℕ) (store : Forwards)
      (stored other : StoredForward)
      → IsKeyed store.rows
      → ((d : Bytes) → encode_forward json f ≡ some d → json.decode d ≡ some f)
      → g.id ≡ f.id
      → (update_forward json fault f n at store).0 ≡ ok stored
      → let store' = (update_forward json fault f n at store).1 in
        (stored.forward ≡ f)
        × (stored.revision ≡ n + 1)
        × ((update_forward json fault g n later store').1.rows ≡ store'.rows)
        × (¬ ((update_forward json fault g n later store').0 ≡ ok other))
        × ((delete_forward json fault f.id n store').1.rows ≡ store'.rows)
        × (¬ ((delete_forward json fault f.id n store').0 ≡ none))
  unfolding update_forward
  update_forward-Exclusive f g n at later store stored other keyed reads same h =
      let store' = (update_forward json fault f n at store).1 in
      let made = update_encoded-Made (encode_forward json f) f n at store stored h in
      let row =
        find_forward-Changed f made.definition n made.time store.rows keyed made.counted_one in
      let (kept, next) =
        read-Changed f made.definition n made.time store.rows stored row
          (reads made.definition made.encoded) made.read_back in
      let empty : length (select (is_revision f.id n) store'.rows) ≡ 0 =
        subst (λ rows. length (select (is_revision f.id n) rows) ≡ 0) (sym made.rows_after)
          (updated_rows-none f made.definition n made.time store.rows) in
      let empty_g =
        subst (λ id. length (select (is_revision id n) store'.rows) ≡ 0) (sym same) empty in
      let (rows_kept, refused) =
        update_encoded-none (encode_forward json g) g n later store' other empty_g in
      let (rows_left, undeleted) = delete_forward-none f.id n store' empty in
      (kept, next, rows_kept, refused, rows_left, undeleted)
