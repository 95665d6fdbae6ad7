-- ===== src/Store/Sessions.antt =====
-- internal/store/sqlite/registration.go: the registered sessions of an actor, which are live while
-- their lease runs, unless they ended or another took over their presence.
pub mod Registering
pub mod Monitors
pub mod Rearming
pub mod Rearmed
pub mod Keys
pub mod Renewal
pub mod Attaching
pub mod Touching
pub mod Upserting
pub mod Lifetimes
use holler.Prelude.{
  ℕ, ◌+◌, ◌*◌, String, Bool, true, false, ◌&&◌, ◌||◌, not, Option, none, some, List, [], ◌∷◌, ◌++◌,
  map, eqb, ltb, leb, ◌==◌, if◌then◌else◌,
}
use holler.Bus.Result.{Result, ok, reject, or_fail, validation, failure, ◌>>=◌, ◌>>◌}
use holler.Bus.Caller.{text, number, event_provenance, unless_empty}
use holler.Bus.Text.{trim_space}
use holler.Bus.Types.{Registration, NotificationAttempt}
use holler.Bus.Normalize.{text_le}
use holler.Store.Tables.{
  exists_row, find_row, select_rows, delete_rows, update_rows, count_rows, first_row, order_rows,
}
use holler.Store.Db.{Db, Env, RegistrationRow, HostBindingRow}
use holler.Store.Events.{append_event}
use holler.Store.Routes.{assert_actor_not_adopted}
use holler.Store.Adoption.{is_null, is_live}
use holler.Store.Claiming.{is_bad_lease}
use holler.Store.HostAttention.{is_session, is_present, binds_session}

-- `scanRegistration`
abbrev pub read_registration : RegistrationRow → Registration
read_registration r = record {
  actor = r.actor;
  run_id = r.run_id;
  harness = r.harness;
  attention_mode = r.attention_mode;
  session_id = r.session_id;
  delivery_handle = r.delivery_handle;
  project_id = r.project_id;
  working_dir = r.working_dir;
  epoch = r.epoch;
  updated_at = r.updated_at;
  lease_expires_at = r.lease_expires_at;
  host_attention_admitted = false;
}

unfoldable pub get_registration :
    String → String → String → List RegistrationRow → Result Registration
get_registration actor run_id session_id rs = do
  r ← or_fail (find_row (is_session actor run_id session_id) rs) (failure "scan registration")
  ok (read_registration r)

-- `scanLiveRegistration`
abbrev pub read_live_registration : List HostBindingRow → RegistrationRow → Registration
read_live_registration hs r = record (read_registration r) {
  host_attention_admitted =
      exists_row (λ h. binds_session r.actor r.run_id r.session_id h && not (is_null h.admitted_at))
        hs;
}

-- ORDER BY registered_at_ns DESC, run_id, session_id
abbrev pub live_le : RegistrationRow → RegistrationRow → Bool
live_le a b =
    ltb b.registered_at a.registered_at
    || (eqb a.registered_at b.registered_at
        && (if a.run_id == b.run_id
            then text_le a.session_id b.session_id
            else text_le a.run_id b.run_id))

unfoldable pub live_registrations : Env → String → Db → Result (List Registration)
live_registrations env actor db = do
  reject (trim_space actor == "") (validation "actor" "is required")
  ok (
      map (read_live_registration db.host_bindings) (
        order_rows live_le
          (select_rows (λ r. r.actor == trim_space actor && is_live env.now r) db.registrations)))

-- ORDER BY registered_at_ns DESC, epoch DESC, rowid DESC
abbrev pub latest_le : RegistrationRow → RegistrationRow → Bool
latest_le a b =
    ltb b.registered_at a.registered_at
    || (eqb a.registered_at b.registered_at
        && (ltb b.epoch a.epoch || (eqb a.epoch b.epoch && leb b.row_id a.row_id)))

abbrev pub is_latest : Option RegistrationRow → RegistrationRow → Bool
is_latest none r = false
is_latest (some l) r = eqb r.row_id l.row_id

-- The row that a heartbeat renews: the run's latest, while it is present.
abbrev pub renews : String → String → List RegistrationRow → RegistrationRow → Bool
renews actor run_id rs r =
    is_latest (first_row latest_le (select_rows (λ x. x.actor == actor && x.run_id == run_id) rs)) r
    && is_present r

abbrev pub renewed : ℕ → ℕ → RegistrationRow → RegistrationRow
renewed now expires r = record r { updated_at = now; lease_expires_at = expires }

unfoldable pub heartbeat_registrations : Env → String → String → ℕ → Db → Result (ℕ × Db)
unfolding assert_actor_not_adopted
heartbeat_registrations env actor run_id lease db = do
  reject (trim_space actor == "" || trim_space run_id == "")
      (validation "registration" "actor and run_id are required")
  reject (is_bad_lease lease) (validation "registration.lease" "must be between 0 and 24h")
  assert_actor_not_adopted db (trim_space actor)
  let test = renews (trim_space actor) (trim_space run_id) db.registrations
  ok (
    count_rows test db.registrations,
    record db {
      registrations = update_rows test (renewed env.now (env.now + lease)) db.registrations;
    },
  )

unfoldable pub record_notification : Env → String → String → NotificationAttempt → Db → Result Db
record_notification env project_id message_id attempt db =
    append_event env project_id "operational" "delivery.notification" message_id attempt.actor
      (some (
        (("session_id", text attempt.session_id)
          ∷ ("harness", text attempt.harness)
          ∷ ("result", text attempt.attempt_result)
          ∷ [])
        ++ event_provenance env.caller attempt.run_id
        ++ unless_empty "detail" attempt.detail))
      db

unfoldable pub record_hydration :
    Env → String → String → String → String → String → ℕ → Db → Result Db
unfolding assert_actor_not_adopted
record_hydration env project_id actor run_id harness session_id unread db = do
  assert_actor_not_adopted db actor
  append_event env project_id "operational" "startup.hydrated" "" actor
      (some (
        event_provenance env.caller run_id
        ++ (("harness", text harness)
            ∷ ("session_id", text session_id)
            ∷ ("unread", number unread)
            ∷ [])))
      db

-- The session's row, once it has ended.
abbrev pub expired : ℕ → RegistrationRow → RegistrationRow
expired now r = record r { updated_at = now; lease_expires_at = now; ended_at = some now }

unfoldable pub end_session : Env → String → String → String → String → String → Db → Result Db
end_session env project_id actor run_id session_id reason db = do
  db' ←
      append_event env project_id "operational" "session.stale" "" actor
        (some (
          ("run_id", text run_id) ∷ ("session_id", text session_id) ∷ ("reason", text reason) ∷ []))
        (record db {
          registrations =
              update_rows (is_session actor run_id session_id) (expired env.now) db.registrations;
          host_bindings = delete_rows (binds_session actor run_id session_id) db.host_bindings;
        })
  ok (record db' {
    attention_clients =
        delete_rows (λ c. c.actor == actor && c.run_id == run_id) db'.attention_clients;
  })

-- A session that is not there, or has ended, is left alone.
unfoldable pub expire_registration : Env → String → String → String → String → Db → Result Db
unfolding end_session
expire_registration env actor run_id session_id reason db = do
  reject (trim_space actor == "" || trim_space run_id == "" || trim_space session_id == "")
      (validation "registration" "actor, run_id, and session_id are required")
  elim (find_row (is_session (trim_space actor) (trim_space run_id) (trim_space session_id))
      db.registrations) [
        | none ↦ ok db
        | some r ↦
            if not (is_null r.ended_at)
            then ok db
            else end_session env r.project_id (trim_space actor) (trim_space run_id)
                (trim_space session_id) reason db
      ]
