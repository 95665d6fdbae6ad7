-- ===== src/Store/Identity/Presences.antt =====
-- internal/store/sqlite/identity.go: the sessions of an actor's other runs, and how a newer binding takes
-- their presence; the base of an actor, and the binding of a harness.
use holler.Prelude.{
  if◌then◌else◌, ℕ, String, Bool, ◌&&◌, not, none, some, List, [], ◌∷◌, map, ◌++◌, ◌==◌,
}
use holler.Bus.Result.{Result, ok, reject, continuity_conflict, ◌>>◌}
use holler.Store.Routes.{actor_identity_exists}
use holler.Bus.Types.{Registration}
use holler.Store.Tables.{exists_row, find_row, select_rows, update_rows, order_rows}
use holler.Store.Db.{Db, RegistrationRow, HarnessBindingRow}
use holler.Store.Adoption.{is_null, is_live}
use holler.Store.HostAttention.{is_session, is_present}
use holler.Store.Sessions.{read_registration, live_le}

unfoldable pub run_superseded_for_actor : Db → String → String → Bool
run_superseded_for_actor db actor run_id =
    exists_row
      (λ r. r.actor == actor && r.run_id == run_id && not (is_null r.attention_superseded_at))
      db.registrations

abbrev pub is_other : String → String → ℕ → RegistrationRow → Bool
is_other actor run_id now r = r.actor == actor && not (r.run_id == run_id) && is_live now r

unfoldable pub live_other_presences : String → String → ℕ → List RegistrationRow → List Registration
live_other_presences actor run_id now rs =
    map read_registration (order_rows live_le (select_rows (is_other actor run_id now) rs))

abbrev pub superseded_at : ℕ → RegistrationRow → RegistrationRow
superseded_at now r = record r {
  updated_at = now;
  lease_expires_at = now;
  attention_superseded_at = some now;
}

-- The row of the presence, while it is one.
abbrev pub has_presence : Registration → RegistrationRow → Bool
has_presence p r = is_session p.actor p.run_id p.session_id r && is_present r

unfoldable pub supersede_presences :
    ℕ → List Registration → List RegistrationRow → List RegistrationRow
supersede_presences now [] rs = rs
supersede_presences now (p ∷ ps) rs =
    supersede_presences now ps (update_rows (has_presence p) (superseded_at now) rs)

-- The base of an allocated or a bound actor.
unfoldable pub actor_base : Db → String → String → String
actor_base db actor fallback = elim (find_row (λ a. a.actor == actor) db.allocations) [
  | some a ↦ a.base_actor
  | none ↦ elim (find_row (λ c. c.actor == actor) db.continuity) [
    | some c ↦ c.base_actor
    | none ↦ fallback
  ]
]

-- A handle that is bound to another actor moves only if no table knows that actor.
unfoldable pub rebind_harness : String → String → HarnessBindingRow → Db → Result Db
unfolding actor_identity_exists
rebind_harness handle actor h db = do
  reject (not (h.actor == actor) && actor_identity_exists db h.actor) continuity_conflict
  ok (record db {
    harness_bindings =
        update_rows (λ b. b.handle == handle) (λ b. record b { actor = actor }) db.harness_bindings;
  })

unfoldable pub bind_harness_instance : String → String → String → Db → Result Db
unfolding rebind_harness
bind_harness_instance handle actor run_id db =
    let bound = find_row (λ b. b.handle == handle) db.harness_bindings in
    if handle == "" then ok db else (elim bound [
      | some h ↦ rebind_harness handle actor h db
      | none ↦ ok (record db {
        harness_bindings =
            db.harness_bindings
            ++ (record { handle = handle; actor = actor; run_id = run_id } ∷ []);
      })
    ])
