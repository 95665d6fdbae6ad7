-- ===== src/Examples/Presence.antt =====
-- Runs of internal/store/sqlite/registration.go: bob's session of Claude is registered at time 10, a
-- monitor attaches to it at time 20, and it is expired at time 30.
use holler.Prelude.{◌≡◌, ◌≢◌, ◌<◌, refl, Bool, true, false, ◌&&◌, none, some, [], ◌∷◌}
use holler.Prelude.Tests.{same_text}
use holler.Bus.Text.{trim_space, validate_text_identifier, has_control}
use holler.Bus.Result.{Result, ok}
use holler.Bus.Types.{Registration, RegistrationRequest}
use holler.Store.Tables.{exists_row, find_row, count_rows}
use holler.Store.Db.{Db, RegistrationRow, OutboxRow, accepted, empty_db}
use holler.Store.Events.{append_event}
use holler.Store.Messages.{legacy_messages}
use holler.Store.Adoption.{is_live}
use holler.Store.HostAttention.{is_session}
use holler.Store.Sessions.{expire_registration, heartbeat_registrations, read_registration}
use holler.Store.Sessions.Keys.{SessionsKeyed}
use holler.Store.Sessions.Registering.{normalize_registration, register_session}
use holler.Store.Sessions.Monitors.{attach_monitor, is_rival}
use holler.Store.Sessions.Attaching.{attach_monitor-sole}
use holler.Store.Sessions.Renewal.{register_session-renews, next_epoch}
use holler.Store.Sessions.Lifetimes.{
  here, after, beats, registers, SessionPath-SessionsKeyed, expire_registration-final,
}
use holler.Store.Sessions.Rearming.{rearm_accepted_notifications, awaits_claim}
use holler.Store.Sessions.Rearmed.{rearm-bounded, is_known, is_overtried}
use holler.Examples.World.{at_time, one_message, from_ok}

abbrev asked : RegistrationRequest
asked = record {
  actor = "bob";
  run_id = "run-b";
  harness = "claude";
  attention_mode = "hook-long-poll";
  session_id = "s-1";
  delivery_handle = "s-1";
  project_id = "p";
  working_dir = "";
  lease = 100;
  host_attention = none;
}

abbrev no_registration : Registration
no_registration = record {
  actor = "";
  run_id = "";
  harness = "";
  attention_mode = "";
  session_id = "";
  delivery_handle = "";
  project_id = "";
  working_dir = "";
  epoch = 0;
  updated_at = 0;
  lease_expires_at = 0;
  host_attention_admitted = false;
}

asked_runs : normalize_registration asked ≡ ok asked
unfolding normalize_registration same_text trim_space validate_text_identifier has_control
asked_runs = refl

unfoldable registered : Registration × Db
unfolding register_session
registered = from_ok (no_registration, empty_db) (register_session (at_time 10) asked one_message)

registered_runs : register_session (at_time 10) asked one_message ≡ ok (registered.0, registered.1)
unfolding registered register_session same_text trim_space validate_text_identifier has_control
    append_event
registered_runs = refl

register_session-renews_example :
    (registered.0.epoch
      ≡ next_epoch (find_row (is_session "bob" "run-b" "s-1") one_message.registrations))
    × (registered.0.lease_expires_at ≡ 110)
    × ((t : Prim.Native.Nat.ℕ)
        → t < 110
        → exists_row
            (λ x. is_session "bob" "run-b" "s-1" x && is_live t x)
            registered.1.registrations
          ≡ true)
register_session-renews_example =
    register_session-renews (at_time 10) asked asked registered.0 one_message registered.1
      asked_runs refl registered_runs

unfoldable attached : Result Registration × Db
unfolding attach_monitor
attached =
    from_ok (ok no_registration, empty_db)
      (attach_monitor (at_time 20) "bob" "run-b" "s-1" "claude" "hook-long-poll" 50 registered.1)

abbrev attached_answer : Registration
attached_answer = from_ok no_registration attached.0

attached_runs :
    attach_monitor (at_time 20) "bob" "run-b" "s-1" "claude" "hook-long-poll" 50 registered.1
    ≡ ok (ok attached_answer, attached.1)
unfolding attached attach_monitor registered register_session same_text trim_space
    validate_text_identifier has_control append_event
attached_runs = refl

registered-SessionsKeyed : SessionsKeyed registered.1.registrations
unfolding registered register_session same_text trim_space validate_text_identifier has_control
    append_event
registered-SessionsKeyed = (refl, tt)

attach_monitor-sole_example :
    (count_rows (is_rival (trim_space "bob") "claude" "hook-long-poll") attached.1.registrations
      ≡ 1)
    × (own : RegistrationRow) × (find_row
          (is_session (trim_space "bob") (trim_space "run-b") (trim_space "s-1"))
          attached.1.registrations
        ≡ some own)
    × (is_rival (trim_space "bob") "claude" "hook-long-poll" own ≡ true)
    × (own.lease_expires_at ≡ 70)
    × (attached_answer ≡ read_registration own)
attach_monitor-sole_example =
    attach_monitor-sole (at_time 20) "bob" "run-b" "s-1" "claude" "hook-long-poll" 50 registered.1
      attached_answer attached.1 attached_runs registered-SessionsKeyed

unfoldable ended : Db
unfolding expire_registration
ended = from_ok empty_db (expire_registration (at_time 30) "bob" "run-b" "s-1" "gone" registered.1)

ended_runs : expire_registration (at_time 30) "bob" "run-b" "s-1" "gone" registered.1 ≡ ok ended
unfolding ended expire_registration registered register_session same_text trim_space
    validate_text_identifier has_control append_event
ended_runs = refl

unfoldable beaten : Prim.Native.Nat.ℕ × Db
unfolding heartbeat_registrations
beaten = from_ok (0, empty_db) (heartbeat_registrations (at_time 40) "bob" "run-b" 50 ended)

beaten_runs : heartbeat_registrations (at_time 40) "bob" "run-b" 50 ended ≡ ok (beaten.0, beaten.1)
unfolding beaten heartbeat_registrations ended expire_registration registered register_session
    same_text trim_space validate_text_identifier has_control append_event
beaten_runs = refl

abbrev pub own_row : RegistrationRow
own_row = record {
  row_id = 1;
  actor = "bob";
  run_id = "run-b";
  session_id = "s-1";
  harness = "claude";
  attention_mode = "hook-long-poll";
  delivery_handle = "s-1";
  project_id = "p";
  working_dir = "";
  epoch = 1;
  registered_at = 10;
  updated_at = 10;
  lease_expires_at = 110;
  ended_at = none;
  attention_superseded_at = none;
}

own_found :
    find_row
      (is_session (trim_space "bob") (trim_space "run-b") (trim_space "s-1"))
      registered.1.registrations
    ≡ some own_row
unfolding registered register_session same_text trim_space validate_text_identifier has_control
    append_event
own_found = refl

expire_registration-final_example :
    ((t : Prim.Native.Nat.ℕ)
      → exists_row
          (λ r.
            is_session (trim_space "bob") (trim_space "run-b") (trim_space "s-1") r && is_live t r)
          beaten.1.registrations
        ≡ false)
    × ((x : Result Registration × Db)
        → attach_monitor (at_time 50) "bob" "run-b" "s-1" "claude" "hook-long-poll" 50 beaten.1
          ≢ ok x)
expire_registration-final_example =
    expire_registration-final (at_time 30) (at_time 50) "bob" "run-b" "s-1" "gone" "claude"
      "hook-long-poll" 50 registered.1 ended beaten.1 own_row registered-SessionsKeyed own_found
      ended_runs (after here (beats (at_time 40) "bob" "run-b" 50 beaten.0 beaten_runs))

abbrev any_request : RegistrationRequest → Bool
any_request req = true

SessionPath-SessionsKeyed_example : SessionsKeyed registered.1.registrations
SessionPath-SessionsKeyed_example =
    SessionPath-SessionsKeyed any_request one_message registered.1
      (after here (registers (at_time 10) asked asked registered.0 asked_runs refl registered_runs))
      tt

abbrev woken_job : OutboxRow
woken_job = record {
  message_id = "msg-1";
  recipient_actor = "bob";
  state = accepted;
  attempt = 5;
  available_at = 0;
  last_error = none;
  created_at = 5;
  source = "legacy";
}

abbrev one_job : Db
one_job = record one_message { outbox = woken_job ∷ [] }

unfoldable rearmed : Db
unfolding rearm_accepted_notifications
rearmed = from_ok empty_db (rearm_accepted_notifications (at_time 20) "bob" one_job)

rearmed_runs : rearm_accepted_notifications (at_time 20) "bob" one_job ≡ ok rearmed
unfolding rearmed rearm_accepted_notifications same_text trim_space
rearmed_runs = refl

rearm-bounded_example :
    (exists_row
        (λ o. awaits_claim (trim_space "bob") o && is_known (legacy_messages one_job) o)
        rearmed.outbox
      ≡ false)
    × (exists_row is_overtried rearmed.outbox ≡ exists_row is_overtried one_job.outbox)
rearm-bounded_example = rearm-bounded (at_time 20) "bob" one_job rearmed rearmed_runs
