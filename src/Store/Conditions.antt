-- ===== src/Store/Conditions.antt =====
-- internal/store/sqlite/conditions.go: the conditions that an operator is told of. One is observed, shown
-- under a lease of its presenter, acknowledged or snoozed, and resolved; when it is observed once more it
-- begins a new generation. `json_valid` stands for `json.Valid` of encoding/json.
pub mod Lifecycle
pub mod Presenting
pub mod Exclusive
pub mod Reopening
pub mod Reconciling
use Prim.Native.String.{len}
use holler.Prelude.{
  ℕ, ◌+◌, ◌*◌, String, Bool, true, false, ◌&&◌, ◌||◌, not, Option, none, some, List, [], ◌∷◌, ◌++◌,
  eqb, ltb, leb, ◌==◌, if◌then◌else◌,
}
use holler.Bus.Result.{Result, ok, reject, or_fail, validation, failure, not_found, ◌>>=◌, ◌>>◌}
use holler.Bus.Text.{trim_space}
use holler.Bus.Types.{ConditionObservation}
use holler.Bus.Normalize.{default_text}
use holler.Store.Tables.{find_row, select_rows, update_rows, count_rows, order_rows, take}
use holler.Store.Db.{
  unix_nano, Db, Env, ConditionRow, ConditionState, active_visible, active_snoozed,
  active_acknowledged, resolved,
}
use holler.Store.Adoption.{check_fields}
use holler.Store.Claiming.{has_lapsed}
use holler.Store.Outbox.{second}

abbrev pub is_condition : String → String → ConditionRow → Bool
is_condition kind subject c = c.kind == kind && c.subject == subject

abbrev pub is_visible : ConditionState → Bool
is_visible active_visible = true
is_visible _ = false

abbrev pub is_snoozed : ConditionState → Bool
is_snoozed active_snoozed = true
is_snoozed _ = false

abbrev pub is_acknowledged : ConditionState → Bool
is_acknowledged active_acknowledged = true
is_acknowledged _ = false

abbrev pub is_resolved : ConditionState → Bool
is_resolved resolved = true
is_resolved _ = false

unfoldable pub trim_observation : ConditionObservation → ConditionObservation
trim_observation o = record o {
  kind = trim_space o.kind;
  subject = trim_space o.subject;
  reason_code = trim_space o.reason_code;
  summary = trim_space o.summary;
  details = default_text o.details "{}";
}

abbrev pub observation_fields : ConditionObservation → List (String × String × ℕ)
observation_fields o =
    ("condition.kind", o.kind, 64)
    ∷ ("condition.subject", o.subject, 512)
    ∷ ("condition.reason_code", o.reason_code, 128)
    ∷ ("condition.summary", o.summary, 1024)
    ∷ []

unfoldable pub normalize_observation :
    (String → Bool) → ConditionObservation → Result ConditionObservation
unfolding trim_observation check_fields
normalize_observation json_valid observation = do
  let o = trim_observation observation
  check_fields (observation_fields o)
  reject (ltb 65536 (len o.details) || not (json_valid o.details))
      (validation "condition.details" "must be valid JSON no larger than 64 KiB")
  ok o

abbrev pub first_condition : ℕ → ConditionObservation → ConditionRow
first_condition now o = record {
  kind = o.kind;
  subject = o.subject;
  generation = 1;
  state = active_visible;
  reason_code = o.reason_code;
  summary = o.summary;
  details = o.details;
  first_seen_at = now;
  last_seen_at = now;
  resolved_at = none;
  snoozed_until = none;
  acknowledged_at = none;
  presentation_owner = none;
  presentation_lease_until = none;
}

-- The generation and the state of a condition that is observed again.
unfoldable pub observed_state : ℕ → ℕ → ConditionState → Option ℕ → ℕ × ConditionState
observed_state now generation state snoozed_until =
    if is_resolved state
    then (generation + 1, active_visible)
    else if is_snoozed state && has_lapsed now snoozed_until
    then (generation, active_visible)
    else (generation, state)

abbrev pub keep_if {ℓ} : {A : Type ℓ} → Bool → Option A → Option A
keep_if true o = o
keep_if false o = none

unfoldable pub observed :
    ℕ → ℕ × ConditionState → ConditionObservation → ConditionRow → ConditionRow
observed now next o c = record c {
  generation = next.0;
  state = next.1;
  reason_code = o.reason_code;
  summary = o.summary;
  details = o.details;
  last_seen_at = now;
  resolved_at = none;
  snoozed_until = keep_if (is_snoozed next.1) c.snoozed_until;
  acknowledged_at = keep_if (is_acknowledged next.1) c.acknowledged_at;
  presentation_owner = none;
  presentation_lease_until = none;
}

unfoldable pub observe_rows : ℕ → ConditionObservation → List ConditionRow → List ConditionRow
unfolding observed observed_state
observe_rows now o cs = elim (find_row (is_condition o.kind o.subject) cs) [
  | none ↦ cs ++ (first_condition now o ∷ [])
  | some c ↦
      update_rows (is_condition o.kind o.subject)
        (observed now (observed_state now c.generation c.state c.snoozed_until) o) cs
]

-- `getConditionTx` and `getCondition`: the columns are the fields of `bus.OperatorCondition`.
abbrev pub get_condition : String → String → List ConditionRow → Result ConditionRow
get_condition kind subject cs = or_fail (find_row (is_condition kind subject) cs) not_found

unfoldable pub observe_condition :
    (String → Bool) → Env → ConditionObservation → Db → Result (ConditionRow × Db)
unfolding normalize_observation observe_rows
observe_condition json_valid env observation db = do
  o ← normalize_observation json_valid observation
  let db' = record db { conditions = observe_rows env.now o db.conditions }
  c ← get_condition o.kind o.subject db'.conditions
  ok (c, db')

unfoldable pub resolved_row : ℕ → ConditionRow → ConditionRow
resolved_row now c = record c {
  state = resolved;
  resolved_at = some now;
  last_seen_at = now;
  snoozed_until = none;
  presentation_owner = none;
  presentation_lease_until = none;
}

unfoldable pub resolve_condition : Env → String → String → Db → Result Db
unfolding resolved_row
resolve_condition env kind subject db = do
  reject (trim_space kind == "" || trim_space subject == "")
      (validation "condition" "kind and subject are required")
  ok (record db {
    conditions =
        update_rows
          (λ c. is_condition (trim_space kind) (trim_space subject) c && not (is_resolved c.state))
          (resolved_row env.now) db.conditions;
  })

unfoldable pub resolve_condition_if_reason : Env → String → String → String → Db → Result Db
unfolding resolved_row
resolve_condition_if_reason env kind subject reason db = do
  reject (trim_space kind == "" || trim_space subject == "" || trim_space reason == "")
      (validation "condition" "kind, subject, and reason are required")
  ok (record db {
    conditions =
        update_rows
          (λ c.
            is_condition (trim_space kind) (trim_space subject) c
            && c.reason_code == trim_space reason
            && not (is_resolved c.state))
          (resolved_row env.now) db.conditions;
  })

-- The snooze of a condition has ended.
abbrev pub snooze_over : ℕ → ConditionRow → Bool
snooze_over now c = is_snoozed c.state && has_lapsed now c.snoozed_until

abbrev pub woken : ConditionRow → ConditionRow
woken c = record c { state = active_visible; snoozed_until = none }

abbrev pub state_rank : ConditionState → ℕ
state_rank active_visible = 0
state_rank active_snoozed = 1
state_rank active_acknowledged = 2
state_rank resolved = 3

-- ORDER BY the rank of the state, last_seen_at_ns DESC; SQL leaves the order of others open.
abbrev pub condition_le : ConditionRow → ConditionRow → Bool
condition_le a b =
    ltb (state_rank a.state) (state_rank b.state)
    || (eqb (state_rank a.state) (state_rank b.state) && leb b.last_seen_at a.last_seen_at)

unfoldable pub list_conditions : Env → Bool → ℕ → Db → List ConditionRow × Db
list_conditions env include_resolved limit db =
    let cs = update_rows (snooze_over env.now) woken db.conditions in
    (
      take (if eqb limit 0 || ltb 500 limit then 100 else limit) (
          order_rows condition_le
            (select_rows (λ c. include_resolved || not (is_resolved c.state)) cs)),
      record db { conditions = cs },
    )

-- WHERE condition_kind = ? AND subject = ? AND generation = ?
abbrev pub is_generation : String → String → ℕ → ConditionRow → Bool
is_generation kind subject generation c = is_condition kind subject c && eqb c.generation generation

-- … AND state <> 'resolved'
abbrev pub is_open_generation : String → String → ℕ → ConditionRow → Bool
is_open_generation kind subject generation c =
    is_generation kind subject generation c && not (is_resolved c.state)

unfoldable pub presented : ConditionState → Option ℕ → Option ℕ → ConditionRow → ConditionRow
presented state snooze acknowledged c = record c {
  state = state;
  snoozed_until = snooze;
  acknowledged_at = acknowledged;
  presentation_owner = none;
  presentation_lease_until = none;
}

unfoldable pub change_condition_presentation :
    String → String → ℕ → ConditionState → Option ℕ → Option ℕ → Db → Result (ConditionRow × Db)
unfolding presented
change_condition_presentation kind subject generation state snooze acknowledged db = do
  reject (trim_space kind == "" || trim_space subject == "" || eqb generation 0)
      (validation "condition" "kind, subject, and positive generation are required")
  let test = is_open_generation (trim_space kind) (trim_space subject) generation
  reject (eqb (count_rows test db.conditions) 0) not_found
  let db' = record db {
    conditions = update_rows test (presented state snooze acknowledged) db.conditions;
  }
  c ← get_condition (trim_space kind) (trim_space subject) db'.conditions
  ok (c, db')

unfoldable pub acknowledge_condition : Env → String → String → ℕ → Db → Result (ConditionRow × Db)
unfolding change_condition_presentation
acknowledge_condition env kind subject generation db =
    change_condition_presentation kind subject generation active_acknowledged none (some env.now) db

unfoldable pub snooze_condition : Env → String → String → ℕ → ℕ → Db → Result (ConditionRow × Db)
unfolding change_condition_presentation unix_nano
snooze_condition env kind subject generation until db = do
  reject (leb until env.now) (validation "until" "must be in the future")
  change_condition_presentation kind subject generation active_snoozed (some (unix_nano until)) none
      db

abbrev pub is_owner : String → Option String → Bool
is_owner presenter none = false
is_owner presenter (some p) = p == presenter

-- presentation_owner IS NULL OR presentation_lease_until_ns <= now OR presentation_owner = presenter
abbrev pub may_present : ℕ → String → ConditionRow → Bool
may_present now presenter c =
    (elim c.presentation_owner [ none ↦ true | some p ↦ false ])
    || has_lapsed now c.presentation_lease_until
    || is_owner presenter c.presentation_owner

-- The row that a claim of its presentation takes.
abbrev pub takes_presentation : ℕ → String → String → ℕ → String → ConditionRow → Bool
takes_presentation now kind subject generation presenter c =
    is_generation kind subject generation c && is_visible c.state && may_present now presenter c

abbrev pub presents : ℕ → String → ConditionRow → ConditionRow
presents until presenter c = record c {
  presentation_owner = some presenter;
  presentation_lease_until = some until;
}

unfoldable pub claim_condition_presentation :
    Env → String → String → ℕ → String → ℕ → Db → Result (Bool × Db)
claim_condition_presentation env kind subject generation presenter lease db = do
  let who = trim_space presenter
  reject (kind == "" || subject == "" || eqb generation 0 || who == "")
      (validation "condition presentation" "kind, subject, generation, and presenter are required")
  reject (eqb lease 0 || ltb (300 * second) lease)
      (validation "presentation_lease" "must be between 0 and 5m")
  let test = takes_presentation env.now kind subject generation who
  ok (
    eqb (count_rows test db.conditions) 1,
    record db { conditions = update_rows test (presents (env.now + lease) who) db.conditions },
  )
