-- ===== src/Store/HostAttention.antt =====
-- internal/store/sqlite/host_attention.go, and `bindHostAttentionTx` of registration.go: which process
-- of a harness may be woken through its host.
use holler.Prelude.{
  ℕ, String, Bool, ◌&&◌, ◌||◌, not, none, some, List, [], ◌∷◌, ◌++◌, eqb, leb, ◌==◌, if◌then◌else◌,
}
use holler.Bus.Result.{
  Result, ok, reject, or_fail, not_found, validation, host_attention_unavailable, failure, ◌>>=◌,
  ◌>>◌,
}
use holler.Bus.Text.{trim_space}
use holler.Bus.Types.{HostAttentionBinding}
use holler.Store.Tables.{exists_row, find_row, select_rows, update_rows, count_rows}
use holler.Store.Db.{Db, Env, RegistrationRow, HostBindingRow}
use holler.Store.Adoption.{is_null, is_live}

abbrev pub is_session : String → String → String → RegistrationRow → Bool
is_session actor run_id session_id r =
    r.actor == actor && r.run_id == run_id && r.session_id == session_id

abbrev pub is_process : ℕ → String → HostBindingRow → Bool
is_process pid start h = eqb h.harness_pid pid && h.harness_start == start

abbrev pub binds_session : String → String → String → HostBindingRow → Bool
binds_session actor run_id session_id h =
    h.actor == actor && h.run_id == run_id && h.session_id == session_id

-- ended_at_ns IS NULL AND attention_superseded_at_ns IS NULL
abbrev pub is_present : RegistrationRow → Bool
is_present r = is_null r.ended_at && is_null r.attention_superseded_at

unfoldable pub validate_host_attention_binding : HostAttentionBinding → Result (Unit {0})
validate_host_attention_binding b =
    reject
      (trim_space b.harness_handle == ""
        || leb b.harness.pid 1
        || trim_space b.harness.start_fingerprint == ""
        || leb b.host.pid 1
        || trim_space b.host.start_fingerprint == "")
      (host_attention_unavailable "process_proof_unavailable")

abbrev pub new_host_binding : ℕ → HostAttentionBinding → HostBindingRow
new_host_binding now b = record {
  harness_pid = b.harness.pid;
  harness_start = b.harness.start_fingerprint;
  harness_handle = b.harness_handle;
  host_pid = b.host.pid;
  host_start = b.host.start_fingerprint;
  actor = b.actor;
  run_id = b.run_id;
  session_id = b.session_id;
  admitted_at = none;
  created_at = now;
  updated_at = now;
}

-- UNIQUE (actor, run_id, session_id), for a row of the process that the binding names
abbrev pub check_unbound : HostAttentionBinding → List HostBindingRow → Result (Unit {0})
check_unbound b hs =
    reject
      (exists_row
        (λ h.
          binds_session b.actor b.run_id b.session_id h
          && not (is_process b.harness.pid b.harness.start_fingerprint h))
        hs)
      (failure "bind host attention process")

-- SET attention_superseded_at_ns = now WHERE … the session, while it is present
unfoldable pub supersede_session :
    ℕ → String → String → String → List RegistrationRow → List RegistrationRow
supersede_session now actor run_id session_id =
    update_rows (λ r. is_session actor run_id session_id r && is_present r)
      λ r. record r { attention_superseded_at = some now }

-- The process moves to another session of its run: it has to be admitted again.
unfoldable pub replace_host_binding :
    ℕ → HostAttentionBinding → List HostBindingRow → List HostBindingRow
replace_host_binding now b = update_rows (is_process b.harness.pid b.harness.start_fingerprint) λ h.
    record h {
      harness_handle = b.harness_handle;
      host_pid = b.host.pid;
      host_start = b.host.start_fingerprint;
      actor = b.actor;
      run_id = b.run_id;
      session_id = b.session_id;
      admitted_at = none;
      updated_at = now;
    }

unfoldable pub refresh_host_binding :
    ℕ → HostAttentionBinding → List HostBindingRow → List HostBindingRow
refresh_host_binding now b = update_rows (is_process b.harness.pid b.harness.start_fingerprint) λ h.
    record h {
      harness_handle = b.harness_handle;
      host_pid = b.host.pid;
      host_start = b.host.start_fingerprint;
      updated_at = now;
    }

-- The process was bound before.
unfoldable pub rebind_host_attention : ℕ → HostAttentionBinding → HostBindingRow → Db → Result Db
unfolding supersede_session replace_host_binding refresh_host_binding
rebind_host_attention now b bound db = do
  reject (not (bound.actor == b.actor) || not (bound.run_id == b.run_id))
      (host_attention_unavailable "process_binding_conflict")
  (if bound.session_id == b.session_id
      then ok (record db { host_bindings = refresh_host_binding now b db.host_bindings })
      else check_unbound b db.host_bindings
        >> ok (record db {
          registrations =
              supersede_session now bound.actor bound.run_id bound.session_id db.registrations;
          host_bindings = replace_host_binding now b db.host_bindings;
        }))

unfoldable pub bind_host_attention : ℕ → HostAttentionBinding → Db → Result Db
unfolding rebind_host_attention
bind_host_attention now b db = do
  harness ←
      or_fail (find_row (λ h. h.handle == b.harness_handle) db.harness_bindings)
        (host_attention_unavailable "harness_instance_unbound")
  reject (not (harness.actor == b.actor) || not (harness.run_id == b.run_id))
      (host_attention_unavailable "harness_identity_mismatch")
  elim (find_row (is_process b.harness.pid b.harness.start_fingerprint) db.host_bindings) [
    | none ↦
        check_unbound b db.host_bindings
        >> ok (record db { host_bindings = db.host_bindings ++ (new_host_binding now b ∷ []) })
    | some bound ↦ rebind_host_attention now b bound db
  ]

-- The registration that a binding needs: live, of Claude, and woken by its host.
abbrev pub supports_binding : ℕ → HostBindingRow → RegistrationRow → Bool
supports_binding now h r =
    is_session h.actor h.run_id h.session_id r
    && r.harness == "claude"
    && r.attention_mode == "host-injected"
    && is_live now r

unfoldable pub prune_host_bindings :
    ℕ → List RegistrationRow → List HostBindingRow → List HostBindingRow
prune_host_bindings now rs = select_rows (λ h. exists_row (supports_binding now h) rs)

abbrev pub read_host_binding : HostBindingRow → HostAttentionBinding
read_host_binding h = record {
  harness_handle = h.harness_handle;
  harness = record { pid = h.harness_pid; start_fingerprint = h.harness_start };
  host = record { pid = h.host_pid; start_fingerprint = h.host_start };
  actor = h.actor;
  run_id = h.run_id;
  session_id = h.session_id;
  admitted = not (is_null h.admitted_at);
}

unfoldable pub host_attention_binding : Env → ℕ → String → Db → Result (HostAttentionBinding × Db)
unfolding prune_host_bindings
host_attention_binding env pid start db = do
  reject (leb pid 1) (validation "claude_pid" "must identify an eligible process")
  reject (start == "") (validation "claude_process" "start fingerprint is required")
  let kept = prune_host_bindings env.now db.registrations db.host_bindings
  h ← or_fail (find_row (is_process pid start) kept) not_found
  ok (read_host_binding h, record db { host_bindings = kept })

-- The row that `MarkHostAttentionAdmitted` admits.
abbrev pub is_bound : HostAttentionBinding → HostBindingRow → Bool
is_bound b h =
    is_process b.harness.pid b.harness.start_fingerprint h
    && binds_session b.actor b.run_id b.session_id h

unfoldable pub mark_host_attention_admitted : Env → HostAttentionBinding → Db → Result Db
mark_host_attention_admitted env b db = do
  reject (not (eqb (count_rows (is_bound b) db.host_bindings) 1)) not_found
  ok (record db {
    host_bindings =
        update_rows (is_bound b)
          (λ h. record h { admitted_at = some env.now; updated_at = env.now }) db.host_bindings;
  })
