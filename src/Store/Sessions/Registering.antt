-- ===== src/Store/Sessions/Registering.antt =====
-- internal/store/sqlite/registration.go: `RegisterSession`.
use holler.Prelude.{
  ℕ, ◌+◌, ◌*◌, String, ◌&&◌, ◌||◌, not, Option, none, some, List, [], ◌∷◌, ◌++◌, eqb, ltb, ◌==◌,
  if◌then◌else◌,
}
use holler.Bus.Result.{Result, ok, err, reject, validation, host_attention_unavailable, ◌>>=◌, ◌>>◌}
use holler.Bus.Caller.{text, number, event_provenance, unless_empty, Payload}
use holler.Bus.Text.{trim_space, validate_text_identifier}
use holler.Bus.Types.{Registration, RegistrationRequest, HostAttentionBinding}
use holler.Bus.Normalize.{check_required, default_text}
use holler.Store.Tables.{exists_row, update_rows}
use holler.Store.Db.{Db, Env, RegistrationRow}
use holler.Store.Events.{append_event}
use holler.Store.Routes.{assert_actor_not_adopted}
use holler.Store.Claiming.{day}
use holler.Store.HostAttention.{is_session, validate_host_attention_binding, bind_host_attention}
use holler.Store.Sessions.{get_registration}

-- The mode of a harness that names none.
unfoldable pub default_attention_mode : String → String
default_attention_mode harness =
    if harness == "codex"
    then "native-queue"
    else if harness == "claude"
    then "hook-long-poll"
    else if harness == "opencode"
    then "native-prompt"
    else ""

unfoldable pub trim_registration : RegistrationRequest → RegistrationRequest
unfolding default_attention_mode
trim_registration request =
    let session = trim_space request.session_id in
    let harness = trim_space request.harness in
    record request {
      actor = trim_space request.actor;
      run_id = trim_space request.run_id;
      harness = harness;
      attention_mode =
          default_text (trim_space request.attention_mode) (default_attention_mode harness);
      session_id = session;
      delivery_handle = default_text (trim_space request.delivery_handle) session;
      project_id = default_text (trim_space request.project_id) "default";
      working_dir = trim_space request.working_dir;
    }

abbrev pub registration_fields : RegistrationRequest → List (String × String)
registration_fields req =
    ("registration.actor", req.actor)
    ∷ ("registration.run_id", req.run_id)
    ∷ ("registration.harness", req.harness)
    ∷ ("registration.session_id", req.session_id)
    ∷ ("registration.delivery_handle", req.delivery_handle)
    ∷ []

-- The modes that go with each harness.
unfoldable pub check_attention_mode : String → String → Result (Unit {0})
check_attention_mode harness mode =
    if harness == "codex"
    then reject (not (mode == "native-queue") && not (mode == "startup-only"))
        (validation "registration.attention_mode" "must be native-queue or startup-only for codex")
    else if harness == "claude"
    then reject
        (not (mode == "hook-long-poll")
          && not (mode == "host-injected")
          && not (mode == "startup-only"))
        (validation "registration.attention_mode"
          "must be hook-long-poll, host-injected, or startup-only for claude")
    else if harness == "opencode"
    then reject (not (mode == "native-prompt") && not (mode == "startup-only")) (
        validation "registration.attention_mode"
          "must be native-prompt or startup-only for opencode")
    else ok tt

-- A host-injected session is bound under its own names.
unfoldable pub check_host_attention : RegistrationRequest → Result RegistrationRequest
unfolding validate_host_attention_binding
check_host_attention req =
    if req.attention_mode == "host-injected"
    then elim req.host_attention [
      | none ↦ err (host_attention_unavailable "process_proof_unavailable")
      | some b ↦
          let bound = record b {
            actor = req.actor;
            run_id = req.run_id;
            session_id = req.session_id;
          } in
          validate_host_attention_binding bound >> ok (record req { host_attention = some bound })
    ]
    else ok req

unfoldable pub normalize_registration : RegistrationRequest → Result RegistrationRequest
unfolding trim_registration check_required check_attention_mode check_host_attention
normalize_registration request = do
  let req = trim_registration request
  reject (eqb req.lease 0 || ltb (7 * day) req.lease)
      (validation "registration.lease" "must be between 0 and 7d")
  check_required (registration_fields req)
  reject
      (not (req.harness == "codex")
        && not (req.harness == "claude")
        && not (req.harness == "opencode")
        && not (req.harness == "test"))
      (validation "registration.harness" "must be codex, claude, opencode, or test")
  validate_text_identifier "registration.working_directory" req.working_dir 4096
  check_attention_mode req.harness req.attention_mode
  check_host_attention req

-- The rowid that SQLite gives the next row: one more than the largest.
unfoldable pub next_row_id : List RegistrationRow → ℕ
next_row_id [] = 1
next_row_id (r ∷ rs) = let rest = next_row_id rs in if ltb r.row_id rest then rest else r.row_id + 1

abbrev pub first_registration : ℕ → ℕ → RegistrationRequest → RegistrationRow
first_registration row_id now req = record {
  row_id = row_id;
  actor = req.actor;
  run_id = req.run_id;
  session_id = req.session_id;
  harness = req.harness;
  attention_mode = req.attention_mode;
  delivery_handle = req.delivery_handle;
  project_id = req.project_id;
  working_dir = req.working_dir;
  epoch = 1;
  registered_at = now;
  updated_at = now;
  lease_expires_at = now + req.lease;
  ended_at = none;
  attention_superseded_at = none;
}

-- DO UPDATE SET: the session is registered again, in the next epoch.
abbrev pub registered_again : ℕ → RegistrationRequest → RegistrationRow → RegistrationRow
registered_again now req r = record r {
  harness = req.harness;
  attention_mode = req.attention_mode;
  delivery_handle = req.delivery_handle;
  project_id = req.project_id;
  working_dir = req.working_dir;
  epoch = r.epoch + 1;
  registered_at = now;
  updated_at = now;
  lease_expires_at = now + req.lease;
  ended_at = none;
  attention_superseded_at = none;
}

unfoldable pub upsert_registration :
    ℕ → RegistrationRequest → List RegistrationRow → List RegistrationRow
unfolding next_row_id
upsert_registration now req rs =
    if exists_row (is_session req.actor req.run_id req.session_id) rs
    then update_rows (is_session req.actor req.run_id req.session_id) (registered_again now req) rs
    else rs ++ (first_registration (next_row_id rs) now req ∷ [])

abbrev pub bind_if_given : ℕ → Option HostAttentionBinding → Db → Result Db
bind_if_given now none db = ok db
bind_if_given now (some b) db = bind_host_attention now b db

abbrev pub registration_payload : Env → RegistrationRequest → ℕ → Payload
registration_payload env req epoch =
    event_provenance env.caller req.run_id
    ++ (("harness", text req.harness)
        ∷ ("attention_mode", text req.attention_mode)
        ∷ ("session_id", text req.session_id)
        ∷ ("epoch", number epoch)
        ∷ [])
    ++ unless_empty "working_directory" req.working_dir

unfoldable pub register_normalized : Env → RegistrationRequest → Db → Result (Registration × Db)
unfolding assert_actor_not_adopted upsert_registration get_registration
register_normalized env req db = do
  assert_actor_not_adopted db req.actor
  db1 ←
      bind_if_given env.now req.host_attention
        (record db { registrations = upsert_registration env.now req db.registrations })
  registration ← get_registration req.actor req.run_id req.session_id db1.registrations
  db2 ←
      append_event env req.project_id "operational" "session.registered" "" req.actor
        (some (registration_payload env req registration.epoch)) db1
  ok (registration, db2)

unfoldable pub register_session : Env → RegistrationRequest → Db → Result (Registration × Db)
unfolding normalize_registration register_normalized
register_session env request db = do
  req ← normalize_registration request
  register_normalized env req db
