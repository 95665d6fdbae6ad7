-- ===== src/Store/Finishing/Inversion.antt =====
-- internal/store/sqlite/store.go: what a successful `finish` has done.
use holler.Prelude.{
  ℕ, ◌≡◌, refl, ap, ◌∙◌, Bool, true, false, ◌++◌, ◌⊎◌, inl, inr, String, some, arith, Bool-cases,
}
use holler.Bus.Result.{ok, >>=-eq-ok, or_fail-eq-ok, or_fail, not_found}
use holler.Bus.Caller.{unless_empty, event_provenance}
use holler.Store.Tables.{find_row, update_rows}
use holler.Store.Db.{Db, Env, DeliveryRow}
use holler.Store.Messages.{get_message_by_id}
use holler.Store.Recipients.{effective_delivery, effective_delivery_recipient, is_delivery}
use holler.Store.Events.Numbering.{append_event-IsNumbered}
use holler.Store.Events.Frame.{KeepsNumbers, KeepsNumbers-same, append_event-SameTables}
use holler.Store.Transition.{finish_delivery_state}
use holler.Store.Claiming.{original_field}
use holler.Store.Claiming.Inversion.{effective_delivery_recipient_inv}
use holler.Store.Finishing.{finish_selected, finish_row, finish_kind, finished}

-- The effect of a transition that was not made before.
pub record Finished (now : ℕ) (message_id original token : String) (ack final : Bool)
    (reason : String) (db db' : Db) : Type 0 where
  pub deliveries :
      db'.deliveries
      ≡ update_rows
          (is_delivery message_id original)
          (finished now token ack final reason)
          db.deliveries
  pub messages : db'.messages ≡ db.messages
  pub adoptions : db'.adoptions ≡ db.adoptions
  pub outbox : db'.outbox ≡ db.outbox
  pub numbers : KeepsNumbers db db'

module _ (env : Env) (actor message_id token : String) (ack final : Bool) (reason : String) where
  pub finish_row-Finished :
      (original : String) (db db' : Db)
      → finish_row env actor message_id original token ack final reason db ≡ ok db'
      → Finished env.now message_id original token ack final reason db db'
  unfolding finish_row
  finish_row-Finished original db db' h =
      let (m, _, h1) = >>=-eq-ok (get_message_by_id db message_id) _ h in
      let marked : Db = record db {
        deliveries =
            update_rows (is_delivery message_id original) (finished env.now token ack final reason)
              db.deliveries;
      } in
      let payload = some (
        event_provenance env.caller ""
        ++ unless_empty "reason" reason
        ++ original_field actor original) in
      let same =
        append_event-SameTables env m.project_id "operational" (finish_kind ack final) message_id
          actor payload marked db' h1 in
      record {
        deliveries = same.deliveries;
        messages = same.messages;
        adoptions = same.adoptions;
        outbox = same.outbox;
        numbers = λ p s n.
            append_event-IsNumbered env m.project_id "operational" (finish_kind ack final)
              message_id actor payload marked db' p s h1
              (KeepsNumbers-same db marked refl refl p s n);
      }

  -- The delivery `d` and the answer of the transition table that `finish_selected` went by.
  pub finish_selected_inv :
      (db db' : Db)
      → finish_selected env actor message_id token ack final reason db ≡ ok db'
      → (d row : DeliveryRow) × (effective_delivery db actor message_id ≡ some d)
        × (find_row (is_delivery message_id d.recipient_actor) db.deliveries ≡ some row)
        × (((finish_delivery_state row.state row.lease_token row.terminal_lease_token token ack
                  final
                ≡ ok true)
              × (db' ≡ db))
            ⊎ ((finish_delivery_state row.state row.lease_token row.terminal_lease_token token ack
                    final
                  ≡ ok false)
                × Finished env.now message_id d.recipient_actor token ack final reason db db'))
  unfolding finish_selected
  finish_selected_inv db db' h =
      let (original, e1, h1) = >>=-eq-ok (effective_delivery_recipient db actor message_id) _ h in
      let (row, e2, h2) =
        >>=-eq-ok (or_fail (find_row (is_delivery message_id original) db.deliveries) not_found) _
          h1 in
      let (already, e3, h3) =
        >>=-eq-ok
          (finish_delivery_state row.state row.lease_token row.terminal_lease_token token ack final)
          _ h2 in
      let (d, ed, er) = effective_delivery_recipient_inv db actor message_id original e1 in
      (
        d,
        row,
        ed,
        rw er
            (or_fail-eq-ok (find_row (is_delivery message_id original) db.deliveries) not_found e2),
        elim (Bool-cases already) [
          | inl t ↦ inl (e3 ∙ ap ok t, ground arith)
          | inr f ↦ inr (e3 ∙ ap ok f, rw er (finish_row-Finished original db db' (ground arith)))
        ],
      )
