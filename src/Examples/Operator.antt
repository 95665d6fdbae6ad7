-- ===== src/Examples/Operator.antt =====
-- Runs of internal/store/sqlite/conditions.go: a condition is observed at time 10, and shown, acknowledged
-- or resolved after that.
use holler.Prelude.{◌≡◌, refl, ℕ, ◌&&◌, ◌==◌, String, Bool, true, false, some, arith}
use holler.Prelude.Tests.{same_text}
use holler.Bus.Text.{trim_space, validate_text_identifier, has_control}
use holler.Bus.Result.{ok, err, not_found}
use holler.Bus.Types.{ConditionObservation}
use holler.Store.Tables.{find_row, exists_row}
use holler.Store.Tables.Keyed.{KeyedBy}
use holler.Store.Db.{Db, ConditionRow, active_visible, empty_db}
use holler.Store.Conditions.{
  observe_condition, list_conditions, resolve_condition, acknowledge_condition,
  claim_condition_presentation, normalize_observation, is_condition, first_condition, is_visible,
}
use holler.Store.Conditions.Lifecycle.{
  here, after, observes, ConditionsSound, ConditionPath-ConditionsSound, same_condition,
}
use holler.Store.Conditions.Presenting.{QuietPath, acknowledged-quiet}
use holler.Store.Conditions.Reconciling.{reconcile_stale_unread_conditions}
use holler.Store.Conditions.Exclusive.{present-exclusive}
use holler.Store.Conditions.Exclusive
use holler.Store.Conditions.Reopening.{observe-reopens}
use holler.Examples.World.{at_time, one_message, from_ok, apart}

abbrev any_text : String → Bool
any_text s = true

abbrev seen_bob : ConditionObservation
seen_bob = record {
  kind = "stale_unread";
  subject = "bob";
  reason_code = "late";
  summary = "1 message";
  details = "{}";
}

abbrev shown : ConditionRow
shown = first_condition 10 seen_bob

unfoldable first_seen : ConditionRow × Db
unfolding observe_condition
first_seen =
    from_ok (shown, empty_db) (observe_condition any_text (at_time 10) seen_bob one_message)

observed_runs :
    observe_condition any_text (at_time 10) seen_bob one_message ≡ ok (first_seen.0, first_seen.1)
unfolding first_seen observe_condition same_text trim_space validate_text_identifier has_control
observed_runs = refl

first_seen-Keyed : KeyedBy same_condition first_seen.1.conditions
unfolding first_seen observe_condition same_text trim_space validate_text_identifier has_control
first_seen-Keyed = (refl, tt)

ConditionPath-ConditionsSound_example : ConditionsSound first_seen.1.conditions
ConditionPath-ConditionsSound_example =
    ConditionPath-ConditionsSound one_message first_seen.1
      (after here (observes any_text (at_time 10) seen_bob first_seen.0 observed_runs)) refl

unfoldable presented_once : Bool × Db
unfolding claim_condition_presentation
presented_once =
    from_ok (false, empty_db)
      (claim_condition_presentation (at_time 20) "stale_unread" "bob" 1 "desk" 100 first_seen.1)

presented_runs :
    claim_condition_presentation (at_time 20) "stale_unread" "bob" 1 "desk" 100 first_seen.1
    ≡ ok (true, presented_once.1)
unfolding presented_once claim_condition_presentation first_seen observe_condition same_text
    trim_space validate_text_identifier has_control
presented_runs = refl

unfoldable presented_twice : Bool × Db
unfolding claim_condition_presentation
presented_twice =
    from_ok (true, empty_db)
      (claim_condition_presentation (at_time 30) "stale_unread" "bob" 1 "phone" 100
        presented_once.1)

presented_twice_runs :
    claim_condition_presentation (at_time 30) "stale_unread" "bob" 1 "phone" 100 presented_once.1
    ≡ ok (presented_twice.0, presented_twice.1)
unfolding presented_twice presented_once claim_condition_presentation first_seen observe_condition
    same_text trim_space validate_text_identifier has_control
presented_twice_runs = refl

present-exclusive_example : presented_twice.0 ≡ false
present-exclusive_example =
    present-exclusive (at_time 20) (at_time 30) "stale_unread" "bob" 1 1 "desk" "phone" 100 100
      first_seen.1 presented_once.1 presented_once.1 (presented_twice.0, presented_twice.1)
      first_seen-Keyed presented_runs (Exclusive.after Exclusive.here (Exclusive.elsewhere refl))
      (omega arith)
      (apart (trim_space "phone") (trim_space "desk") (unfold same_text trim_space in refl))
      presented_twice_runs

unfoldable acknowledged : ConditionRow × Db
unfolding acknowledge_condition
acknowledged =
    from_ok (shown, empty_db)
      (acknowledge_condition (at_time 20) "stale_unread" "bob" 1 first_seen.1)

acknowledged_runs :
    acknowledge_condition (at_time 20) "stale_unread" "bob" 1 first_seen.1
    ≡ ok (acknowledged.0, acknowledged.1)
unfolding acknowledged acknowledge_condition first_seen observe_condition same_text trim_space
    validate_text_identifier has_control
acknowledged_runs = refl

unfoldable observed_after : ConditionRow × Db
unfolding observe_condition
observed_after =
    from_ok (shown, empty_db) (observe_condition any_text (at_time 30) seen_bob acknowledged.1)

observed_after_runs :
    observe_condition any_text (at_time 30) seen_bob acknowledged.1
    ≡ ok (observed_after.0, observed_after.1)
unfolding observed_after acknowledged acknowledge_condition first_seen observe_condition same_text
    trim_space validate_text_identifier has_control
observed_after_runs = refl

unfoldable presented_late : Bool × Db
unfolding claim_condition_presentation
presented_late =
    from_ok (true, empty_db)
      (claim_condition_presentation (at_time 40) (trim_space "stale_unread") (trim_space "bob") 1
        "desk" 100 observed_after.1)

presented_late_runs :
    claim_condition_presentation
      (at_time 40)
      (trim_space "stale_unread")
      (trim_space "bob")
      1
      "desk"
      100
      observed_after.1
    ≡ ok (presented_late.0, presented_late.1)
unfolding presented_late claim_condition_presentation observed_after acknowledged
    acknowledge_condition first_seen observe_condition same_text trim_space validate_text_identifier
    has_control
presented_late_runs = refl

acknowledged-quiet_example : presented_late.0 ≡ false
acknowledged-quiet_example =
    acknowledged-quiet (at_time 20) (at_time 40) "stale_unread" "bob" 1 1 "desk" 100 first_seen.1
      acknowledged.1 observed_after.1 acknowledged.0 (presented_late.0, presented_late.1)
      first_seen-Keyed acknowledged_runs
      (QuietPath.after QuietPath.here (
        holler.Store.Conditions.Presenting.QuietStep.observes any_text (at_time 30) seen_bob
          observed_after.0 observed_after_runs))
      presented_late_runs

unfoldable gone : Db
unfolding resolve_condition
gone = from_ok empty_db (resolve_condition (at_time 20) "stale_unread" "bob" first_seen.1)

gone_runs : resolve_condition (at_time 20) "stale_unread" "bob" first_seen.1 ≡ ok gone
unfolding gone resolve_condition first_seen observe_condition same_text trim_space
    validate_text_identifier has_control
gone_runs = refl

unfoldable reopened : ConditionRow × Db
unfolding observe_condition
reopened = from_ok (shown, empty_db) (observe_condition any_text (at_time 30) seen_bob gone)

reopened_runs : observe_condition any_text (at_time 30) seen_bob gone ≡ ok (reopened.0, reopened.1)
unfolding reopened gone resolve_condition first_seen observe_condition same_text trim_space
    validate_text_identifier has_control
reopened_runs = refl

shown_found :
    find_row (is_condition (trim_space "stale_unread") (trim_space "bob")) first_seen.1.conditions
    ≡ some shown
unfolding first_seen observe_condition same_text trim_space validate_text_identifier has_control
shown_found = refl

seen_normal : normalize_observation any_text seen_bob ≡ ok seen_bob
unfolding normalize_observation same_text trim_space validate_text_identifier has_control
seen_normal = refl

named : ("stale_unread" ≡ trim_space "stale_unread") × ("bob" ≡ trim_space "bob")
unfolding trim_space
named = (refl, refl)

observe-reopens_example :
    (reopened.0.generation ≡ 2)
    × (reopened.0.state ≡ active_visible)
    × (acknowledge_condition (at_time 40) "stale_unread" "bob" 1 reopened.1 ≡ err not_found)
observe-reopens_example =
    observe-reopens any_text (at_time 20) (at_time 30) (at_time 40) "stale_unread" "bob" seen_bob
      seen_bob shown reopened.0 first_seen.1 gone reopened.1 first_seen-Keyed shown_found refl
      gone_runs seen_normal named.0 named.1 reopened_runs

-- The details of a condition as an empty object.
abbrev no_details : String → ℕ → ℕ → ℕ → String
no_details actor count oldest age = "{}"

abbrev one : ℕ → String
one n = "1"

unfoldable reconciled : Db
unfolding reconcile_stale_unread_conditions
reconciled =
    (reconcile_stale_unread_conditions any_text no_details one (at_time 90) (at_time 91) 5
      one_message).0

reconciled_observes :
    exists_row (λ c. c.subject == "bob" && is_visible c.state) reconciled.conditions ≡ true
unfolding reconciled reconcile_stale_unread_conditions same_text trim_space validate_text_identifier
    has_control observe_condition list_conditions
reconciled_observes = refl
