-- ===== src/Store/Finishing.antt =====
-- internal/store/sqlite/store.go: `finish`, behind `Ack` and `Nack`.
pub mod Inversion
pub mod Tokens
pub mod Fencing
pub mod Extending
use holler.Prelude.{ℕ, String, Bool, true, false, ◌||◌, none, some, ◌++◌, ◌==◌, if◌then◌else◌}
use holler.Bus.Result.{Result, ok, reject, or_fail, not_found, validation, ◌>>=◌, ◌>>◌}
use holler.Bus.Caller.{unless_empty, event_provenance}
use holler.Bus.Text.{trim_space}
use holler.Bus.Types.{DeliveryState, queued, acked, dead_lettered}
use holler.Store.Tables.{find_row, update_rows}
use holler.Store.Db.{Db, Env, DeliveryRow, null_if_empty}
use holler.Store.Events.{append_event}
use holler.Store.Messages.{get_message_by_id}
use holler.Store.Recipients.{effective_delivery_recipient, is_delivery}
use holler.Store.Transition.{finish_delivery_state}
use holler.Store.Claiming.{original_field}

abbrev pub next_state : Bool → Bool → DeliveryState
next_state ack final = if ack then acked else if final then dead_lettered else queued

abbrev pub finish_kind : Bool → Bool → String
finish_kind ack final =
    if ack then "delivery.acked" else if final then "delivery.dead_lettered" else "delivery.nacked"

unfoldable pub finished : ℕ → String → Bool → Bool → String → DeliveryRow → DeliveryRow
finished now token ack final reason d = record d {
  state = next_state ack final;
  lease_token = none;
  lease_expires_at = none;
  terminal_lease_token = if ack || final then some token else none;
  acked_at = if ack then some now else none;
  last_error = null_if_empty reason;
}

-- The part of the transaction that is skipped when the transition was made before.
unfoldable pub finish_row :
    Env → String → String → String → String → Bool → Bool → String → Db → Result Db
unfolding finished
finish_row env actor message_id original token ack final reason db = do
  message ← get_message_by_id db message_id
  let db1 = record db {
    deliveries =
        update_rows (is_delivery message_id original) (finished env.now token ack final reason)
          db.deliveries;
  }
  append_event env message.project_id "operational" (finish_kind ack final) message_id actor
      (some (
        event_provenance env.caller ""
        ++ unless_empty "reason" reason
        ++ original_field actor original))
      db1

-- The transaction of `finish`.
unfoldable pub finish_selected :
    Env → String → String → String → Bool → Bool → String → Db → Result Db
unfolding finish_row
finish_selected env actor message_id token ack final reason db = do
  original ← effective_delivery_recipient db actor message_id
  d ← or_fail (find_row (is_delivery message_id original) db.deliveries) not_found
  already ← finish_delivery_state d.state d.lease_token d.terminal_lease_token token ack final
  (if already then ok db else finish_row env actor message_id original token ack final reason db)

unfoldable pub finish : Env → String → String → String → Bool → Bool → String → Db → Result Db
unfolding finish_selected
finish env actor message_id token ack final reason db = do
  reject (trim_space actor == "" || trim_space message_id == "" || trim_space token == "")
      (validation "delivery" "actor, message_id, and lease_token are required")
  finish_selected env (trim_space actor) (trim_space message_id) (trim_space token) ack final reason
      db

unfoldable pub ack : Env → String → String → String → Db → Result Db
unfolding finish
ack env actor message_id token = finish env actor message_id token true false ""

unfoldable pub nack : Env → String → String → String → String → Bool → Db → Result Db
unfolding finish
nack env actor message_id token reason final = finish env actor message_id token false final reason
