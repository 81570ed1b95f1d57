-- ===== src/Database/Forwards.antt =====
-- database/forward.go: the stored port forwards, each with the revision that an update or a deletion
-- has to name. The constraints are those of migrations/0003_port_forwards.sql; the ones on lengths and
-- on the revision's sign are left out, since what is written meets them. As in Database, `fault n`
-- refuses the statement numbered `n`. JSON is a library's. A time is `none` if it is the zero time,
-- and a revision 0 stands also for the negative ones.
pub mod Exclusive
pub mod Runs
use egress_manager.Base.{
  ℕ, suc, ◌+◌, ◌*◌, ◌/◌, Bool, true, false, ◌&&◌, ◌||◌, not, Option, none, some, List, [], ◌∷◌,
  ◌++◌, ltb, leb, ◌==◌, if◌then◌else◌, Bytes, bytes_eq, bytes_lt, any, all, select, take, sort_by,
  length,
}
use egress_manager.Effect.{Result, ok, err}
use egress_manager.Domain.Identifier.{validate_id}
use egress_manager.Domain.Forward.{PortForward, validate_forward}
use egress_manager.Database.{
  StoreError, invalid, conflict, statement_failed, not_found, out_of_limits, second, is_nil,
}
use egress_manager.Database.Accounts.{same_name}

pub record StoredForward : Type 0 where
  pub forward : PortForward
  pub revision : ℕ
  pub created_at : ℕ
  pub updated_at : ℕ

-- The times of a row are in seconds.
pub record ForwardRow : Type 0 where
  pub id : Bytes
  pub name : Bytes
  pub definition : Bytes
  pub enabled : Bool
  pub revision : ℕ
  pub created_at : ℕ
  pub updated_at : ℕ

pub record Forwards : Type 0 where
  pub rows : List ForwardRow
  pub statements : ℕ

-- `json.Marshal`, and the strict decoding of one value with nothing behind it.
pub record ForwardJson : Type 0 where
  pub marshal : PortForward → Option Bytes
  pub decode : Bytes → Option PortForward

abbrev pub counted : Forwards → Forwards
counted store = record store { statements = store.statements + 1 }

abbrev pub is_stored_as : Bytes → ForwardRow → Bool
is_stored_as id r = bytes_eq r.id id

-- `WHERE id = ? AND revision = ?`
abbrev pub is_revision : Bytes → ℕ → ForwardRow → Bool
is_revision id n r = is_stored_as id r && r.revision == n

abbrev row_before : ForwardRow → ForwardRow → Bool
row_before r q = bytes_lt r.id q.id

unfoldable pub find_forward : Bytes → List ForwardRow → Option ForwardRow
find_forward id [] = none
find_forward id (r ∷ rs) =
    let rest = find_forward id rs in if is_stored_as id r then some r else rest

abbrev pub changed : PortForward → Bytes → ℕ → ForwardRow → ForwardRow
changed forward definition at r = record r {
  name = forward.name;
  definition = definition;
  enabled = forward.enabled;
  revision = r.revision + 1;
  updated_at = at;
}

-- The rows after the update.
unfoldable pub updated_rows : PortForward → Bytes → ℕ → ℕ → List ForwardRow → List ForwardRow
updated_rows forward definition n at [] = []
updated_rows forward definition n at (r ∷ rs) =
    let rest = updated_rows forward definition n at rs in
    (if is_revision forward.id n r then changed forward definition at r else r) ∷ rest

-- The name is no other row's, and the row is not older than its update.
abbrev pub update_admitted : PortForward → ℕ → ℕ → List ForwardRow → Bool
update_admitted forward n at rows =
    all
      (λ r.
        not (is_revision forward.id n r)
        || (leb r.created_at at
            && not
                (any (λ q. not (is_stored_as forward.id q) && same_name q.name forward.name) rows)))
      rows

abbrev pub insert_admitted : PortForward → List ForwardRow → Bool
insert_admitted forward rows =
    not (any (λ q. is_stored_as forward.id q || same_name q.name forward.name) rows)

module _ (json : ForwardJson) where
  abbrev pub encoded_size : Option Bytes → Option Bytes
  encoded_size none = none
  encoded_size (some definition) = if ltb 65536 (length definition) then none else some definition

  -- `encodePortForward`: `none` is its error.
  unfoldable pub encode_forward : PortForward → Option Bytes
  encode_forward forward =
      if is_nil (validate_forward forward) then encoded_size (json.marshal forward) else none

  abbrev pub stored_of : ForwardRow → Option PortForward → Result StoreError StoredForward
  stored_of r none = err invalid
  stored_of r (some forward) =
      if is_nil (validate_forward forward)
      then ok (record {
        forward = forward;
        revision = r.revision;
        created_at = r.created_at * second;
        updated_at = r.updated_at * second;
      })
      else err invalid

  -- `scanPortForward`
  unfoldable pub scan_forward : Option ForwardRow → Result StoreError StoredForward
  scan_forward none = err not_found
  scan_forward (some r) = stored_of r (json.decode r.definition)

  -- The loop over the rows; the first error ends it.
  unfoldable pub scan_forwards : List ForwardRow → Result StoreError (List StoredForward)
  scan_forwards [] = ok []
  scan_forwards (r ∷ rs) =
      let rest = scan_forwards rs in
      elim (scan_forward (some r)) [
        | err e ↦ err e
        | ok s ↦ elim rest [ err e ↦ err e | ok ss ↦ ok (s ∷ ss) ]
      ]

  module _ (fault : ℕ → Bool) where
    -- `PortForward`
    unfoldable pub port_forward : Bytes → Forwards → Result StoreError StoredForward × Forwards
    port_forward id store =
        if not (is_nil (validate_id id))
        then (err invalid, store)
        else if fault store.statements
        then (err statement_failed, counted store)
        else (scan_forward (find_forward id store.rows), counted store)

    abbrev pub create_encoded :
        Option Bytes
        → PortForward
        → Option ℕ
        → Forwards
        → Result StoreError StoredForward × Forwards
    create_encoded none forward at store = (err invalid, store)
    create_encoded (some definition) forward none store = (err invalid, store)
    create_encoded (some definition) forward (some at) store =
        let row : ForwardRow = record {
          id = forward.id;
          name = forward.name;
          definition = definition;
          enabled = forward.enabled;
          revision = 1;
          created_at = at / second;
          updated_at = at / second;
        } in
        let stored : StoredForward = record {
          forward = forward;
          revision = 1;
          created_at = at / second * second;
          updated_at = at / second * second;
        } in
        if fault store.statements
        then (err statement_failed, counted store)
        else if not (insert_admitted forward store.rows)
        then (err conflict, counted store)
        else (ok stored, record (counted store) { rows = store.rows ++ row ∷ [] })

    -- `CreatePortForward`
    unfoldable pub create_forward :
        PortForward → Option ℕ → Forwards → Result StoreError StoredForward × Forwards
    create_forward forward at store = create_encoded (encode_forward forward) forward at store

    abbrev pub update_encoded :
        Option Bytes
        → PortForward
        → ℕ
        → Option ℕ
        → Forwards
        → Result StoreError StoredForward × Forwards
    update_encoded none forward n at store = (err invalid, store)
    update_encoded (some definition) forward n none store = (err invalid, store)
    update_encoded (some definition) forward n (some at) store =
        let rows = updated_rows forward definition n (at / second) store.rows in
        let store' = record (counted store) { rows = rows } in
        if ltb n 1
        then (err invalid, store)
        else if fault store.statements
        then (err statement_failed, counted store)
        else if not (update_admitted forward n (at / second) store.rows)
        then (err conflict, counted store)
        else if not (length (select (is_revision forward.id n) store.rows) == 1)
        then (err conflict, store')
        else port_forward forward.id store'

    -- `UpdatePortForward`
    unfoldable pub update_forward :
        PortForward → ℕ → Option ℕ → Forwards → Result StoreError StoredForward × Forwards
    update_forward forward n at store = update_encoded (encode_forward forward) forward n at store

    -- `DeletePortForward`: `none` is the nil error.
    unfoldable pub delete_forward : Bytes → ℕ → Forwards → Option StoreError × Forwards
    delete_forward id n store =
        let rows = select (λ r. not (is_revision id n r)) store.rows in
        if not (is_nil (validate_id id)) || ltb n 1
        then (some invalid, store)
        else if fault store.statements
        then (some statement_failed, counted store)
        else (
          if length (select (is_revision id n) store.rows) == 1 then none else some conflict,
          record (counted store) { rows = rows },
        )

    -- `ListPortForwards`
    unfoldable pub list_forwards :
        Bytes → ℕ → Forwards → Result StoreError (List StoredForward) × Forwards
    list_forwards after limit store =
        if not (length after == 0) && not (is_nil (validate_id after))
        then (err invalid, store)
        else if ltb limit 1 || ltb 501 limit
        then (err out_of_limits, store)
        else if fault store.statements
        then (err statement_failed, counted store)
        else (
          scan_forwards
              (take limit (sort_by row_before (select (λ r. bytes_lt after r.id) store.rows))),
          counted store,
        )
