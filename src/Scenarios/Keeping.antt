-- ===== src/Scenarios/Keeping.antt =====
-- A stored port forward, updated twice.
use egress_manager.Database.Forwards.{create_forward}
use egress_manager.Database.Forwards.Runs.{after_write}
use egress_manager.Database.Forwards.{updated_rows}
use egress_manager.Database.Forwards.{encode_forward, find_forward, port_forward, scan_forward}
use egress_manager.Domain.Forward.{
  validate_forward, validate_protocol, validate_protocols, validate_range, validate_ranges,
  validate_remap, validate_sources,
}
use egress_manager.Domain.Issue.{join_errors}
use egress_manager.Domain.Identifier.{is_trimmed, matches_id, validate_display_name, validate_id}
use egress_manager.Base.{◌+◌, ◌*◌, ◌^◌, ◌≡◌, refl, false, true, some, none, [], ◌∷◌, lit}
use egress_manager.Effect.{ok}
use egress_manager.Database.Forwards.{
  ForwardJson, Forwards, StoredForward, update_forward, delete_forward,
}
use egress_manager.Database.Forwards.Exclusive.{update_forward-Exclusive}
use egress_manager.Base.{List, map}
use egress_manager.Base.{All, Bytes, bytes_eq, subst, if◌then◌else◌}
use egress_manager.Domain.Forward.{PortForward}
use egress_manager.Database.Forwards.{ForwardRow}
use egress_manager.Database.Forwards.Runs.{
  Write, create, update, delete, after_writes, IsReadable, after_writes-IsReadable,
}
use egress_manager.Scenarios.Planning.{first_forward}

-- JSON for the one port forward of this file.
abbrev json : ForwardJson
json = record { marshal = λ f. some (lit "{}"); decode = λ d. some first_forward }

abbrev before : Forwards
before = record {
  rows =
      record {
        id = lit "a";
        name = lit "other";
        definition = lit "{}";
        enabled = true;
        revision = 1;
        created_at = 5;
        updated_at = 5;
      }
      ∷ record {
        id = lit "b";
        name = lit "Web";
        definition = lit "{}";
        enabled = false;
        revision = 3;
        created_at = 5;
        updated_at = 7;
      }
      ∷ [];
  statements = 0;
}

abbrev stored : StoredForward
stored = record {
  forward = first_forward;
  revision = 4;
  created_at = 5 * 10 ^ 9;
  updated_at = 9 * 10 ^ 9;
}

abbrev after : Forwards
after = (update_forward json (λ n. false) first_forward 3 (some (9 * 10 ^ 9 + 1)) before).1

saved :
    (update_forward json (λ n. false) first_forward 3 (some (9 * 10 ^ 9 + 1)) before).0 ≡ ok stored
unfolding update_forward encode_forward validate_forward join_errors validate_id matches_id
    validate_display_name is_trimmed validate_protocols validate_protocol validate_ranges
    validate_range validate_remap validate_sources port_forward scan_forward find_forward
    updated_rows
saved = refl

update_forward-Exclusive_example :
    (stored.forward ≡ first_forward)
    × (stored.revision ≡ 4)
    × ((update_forward json (λ n. false) first_forward 3 (some (10 ^ 10)) after).1.rows
        ≡ after.rows)
    × (¬ ((update_forward json (λ n. false) first_forward 3 (some (10 ^ 10)) after).0 ≡ ok stored))
    × ((delete_forward json (λ n. false) (lit "b") 3 after).1.rows ≡ after.rows)
    × (¬ ((delete_forward json (λ n. false) (lit "b") 3 after).0 ≡ none))
update_forward-Exclusive_example =
    update_forward-Exclusive json (λ n. false) first_forward first_forward 3 (some (9 * 10 ^ 9 + 1))
      (some (10 ^ 10)) before stored stored ((refl, tt), (tt, tt)) (λ d h. refl) refl saved

abbrev new_forward : PortForward
new_forward = record first_forward { id = lit "c"; name = lit "new" }

-- The third write is refused, since the row was created later; the fourth, since its name is taken.
abbrev writes : List Write
writes =
    create new_forward (some (10 ^ 10))
    ∷ update first_forward 3 (some (9 * 10 ^ 9))
    ∷ update first_forward 4 (some (4 * 10 ^ 9))
    ∷ update (record first_forward { id = lit "a" }) 1 (some (10 ^ 10))
    ∷ delete (lit "c") 1
    ∷ []

-- What the run leaves: the third row is gone again.
run_left : map (λ r. r.revision) (after_writes json (λ n. false) writes before).rows ≡ (1 ∷ 4 ∷ [])
unfolding after_writes after_write delete_forward validate_id matches_id update_forward
    encode_forward validate_forward join_errors validate_display_name is_trimmed validate_protocols
    validate_protocol validate_ranges validate_range validate_remap validate_sources create_forward
    port_forward updated_rows
run_left = refl

-- JSON that tells the forwards of the writes apart by their ids.
abbrev named_json : ForwardJson
named_json = record {
  marshal = λ f. some f.id;
  decode = λ d.
      if bytes_eq d (lit "c")
      then some new_forward
      else if bytes_eq d (lit "a")
      then some (record first_forward { id = lit "a" })
      else some first_forward;
}

decodes :
    (f : PortForward)
    → named_json.decode f.id ≡ some f
    → (d : Bytes) → some f.id ≡ some d
    → named_json.decode d ≡ some f
decodes f h d same =
    subst (λ o. elim o [ none ↦ Unit | some d ↦ named_json.decode d ≡ some f ]) same h

stored_row : ForwardRow
stored_row = record {
  id = lit "b";
  name = first_forward.name;
  definition = lit "b";
  enabled = first_forward.enabled;
  revision = 3;
  created_at = 5;
  updated_at = 7;
}

stored_row-IsReadable : IsReadable named_json stored_row
unfolding stored_row scan_forward validate_forward join_errors validate_id matches_id
    validate_display_name is_trimmed validate_protocols validate_protocol validate_ranges
    validate_range validate_remap validate_sources
stored_row-IsReadable = record {
  forward = first_forward;
  reads = refl;
  valid = refl;
  same_id = refl;
  same_name = refl;
  same_switch = refl;
}

abbrev kept : Forwards
kept = record { rows = stored_row ∷ []; statements = 0 }

after_writes-IsReadable_example :
    All (IsReadable named_json) (after_writes named_json (λ n. false) writes kept).rows
after_writes-IsReadable_example =
    after_writes-IsReadable named_json (λ n. false) writes kept
      (
        decodes new_forward refl,
        (
          decodes first_forward refl,
          (
            decodes first_forward refl,
            (decodes (record first_forward { id = lit "a" }) refl, (tt, tt)),
          ),
        ),
      )
      (stored_row-IsReadable, tt)
