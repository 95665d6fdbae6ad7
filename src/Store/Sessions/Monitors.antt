-- ===== src/Store/Sessions/Monitors.antt =====
-- internal/store/sqlite/registration.go: `AttachMonitor`, which renews the session that a monitor of
-- Claude attends to.
use holler.Prelude.{
  ℕ, ◌+◌, String, Bool, ◌&&◌, ◌||◌, not, some, List, eqb, ltb, ◌==◌, if◌then◌else◌,
}
use holler.Bus.Result.{
  Result, ok, err, reject, or_fail, validation, registration_expired, session_ended,
  presence_superseded, ◌>>=◌, ◌>>◌,
}
use holler.Bus.Text.{trim_space}
use holler.Bus.Types.{Registration}
use holler.Store.Tables.{find_row, exists_row, update_rows}
use holler.Store.Db.{Db, Env, RegistrationRow}
use holler.Store.Routes.{assert_actor_not_adopted}
use holler.Store.Adoption.{is_null}
use holler.Store.Claiming.{is_bad_lease}
use holler.Store.HostAttention.{is_session, is_present}
use holler.Store.Sessions.{get_registration, renewed}

-- A session of the actor that is present by the same means.
abbrev pub is_rival : String → String → String → RegistrationRow → Bool
is_rival actor harness mode r =
    r.actor == actor && r.harness == harness && r.attention_mode == mode && is_present r

-- (registered_at_ns > ? OR (registered_at_ns = ? AND rowid > ?))
abbrev pub is_newer : RegistrationRow → RegistrationRow → Bool
is_newer own r =
    ltb own.registered_at r.registered_at
    || (eqb r.registered_at own.registered_at && ltb own.row_id r.row_id)

abbrev pub loses_presence : ℕ → RegistrationRow → RegistrationRow
loses_presence now r = record r { attention_superseded_at = some now }

-- The other sessions that are present by the same means lose their presence.
unfoldable pub supersede_rivals :
    ℕ → String → String → String → String → String → List RegistrationRow → List RegistrationRow
supersede_rivals now actor run_id session_id harness mode =
    update_rows
      (λ r. is_rival actor harness mode r && not (r.run_id == run_id && r.session_id == session_id))
      (loses_presence now)

unfoldable pub renew_session :
    ℕ → ℕ → String → String → String → List RegistrationRow → List RegistrationRow
renew_session now expires actor run_id session_id =
    update_rows (λ r. is_session actor run_id session_id r && is_null r.ended_at)
      (renewed now expires)

-- What is committed, and what the call answers. An older monitor gives up its presence, which is
-- committed, and is told so by an error.
unfoldable pub attach_row :
    Env
    → String
    → String
    → String
    → String
    → String
    → ℕ
    → RegistrationRow
    → Db
    → Result (Result Registration × Db)
unfolding supersede_rivals renew_session get_registration
attach_row env actor run_id session_id harness mode lease own db =
    if exists_row (λ r. is_rival actor harness mode r && is_newer own r) db.registrations
    then ok (
      err presence_superseded,
      record db {
        registrations =
            update_rows (is_session actor run_id session_id) (loses_presence env.now)
              db.registrations;
      },
    )
    else let rs =
        renew_session env.now (env.now + lease) actor run_id session_id
          (supersede_rivals env.now actor run_id session_id harness mode db.registrations) in
      get_registration actor run_id session_id rs >>= λ registration.
      ok (ok registration, record db { registrations = rs })

unfoldable pub attach_selected :
    Env → String → String → String → String → String → ℕ → Db → Result (Result Registration × Db)
unfolding attach_row assert_actor_not_adopted
attach_selected env actor run_id session_id harness mode lease db = do
  assert_actor_not_adopted db actor
  own ←
      or_fail (find_row (is_session actor run_id session_id) db.registrations) registration_expired
  reject (not (is_null own.ended_at)) session_ended
  reject (not (is_null own.attention_superseded_at)) presence_superseded
  reject (not (own.harness == harness) || not (own.attention_mode == mode))
      (validation "monitor" "does not match the registered harness attention adapter")
  attach_row env actor run_id session_id harness mode lease own db

unfoldable pub attach_monitor :
    Env → String → String → String → String → String → ℕ → Db → Result (Result Registration × Db)
unfolding attach_selected
attach_monitor env actor run_id session_id harness mode lease db = do
  reject (trim_space actor == "" || trim_space run_id == "" || trim_space session_id == "")
      (validation "registration" "actor, run_id, and session_id are required")
  reject (not (trim_space harness == "claude") || not (trim_space mode == "hook-long-poll"))
      (validation "monitor" "requires claude hook-long-poll")
  reject (is_bad_lease lease) (validation "registration.lease" "must be between 0 and 24h")
  attach_selected env (trim_space actor) (trim_space run_id) (trim_space session_id)
      (trim_space harness) (trim_space mode) lease db
