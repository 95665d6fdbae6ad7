-- ===== src/Store/Reading.antt =====
-- internal/store/sqlite/store.go: `CheckInbox` and `ListEvents`, which change nothing. A limit that is
-- not positive is 0.
pub mod Offers
use holler.Prelude.{
  ℕ, String, Bool, false, ◌&&◌, ◌||◌, none, some, List, [], ◌∷◌, eqb, ltb, leb, ◌==◌, if◌then◌else◌,
}
use holler.Bus.Result.{Result, ok, reject, channel_denied, validation, ◌>>◌}
use holler.Bus.Text.{trim_space}
use holler.Bus.Types.{InboxItem}
use holler.Store.Tables.{select_rows, exists_row, order_rows, take}
use holler.Store.Db.{Db, Env, MessageRow, DeliveryRow, EventRow}
use holler.Store.Messages.{legacy_messages, is_unexpired, has_id}
use holler.Store.Recipients.{effective_delivery, adoption_provenance, is_delivery}
use holler.Store.Transition.{is_queued, is_claimed}
use holler.Store.Claiming.{is_claimable, is_older}

-- The message's preferred candidate is not finished, and the message has not expired.
unfoldable pub is_listed : Db → String → ℕ → MessageRow → Bool
is_listed db actor now m = is_unexpired now m && (elim (effective_delivery db actor m.message_id) [
  | none ↦ false
  | some d ↦ is_queued d.state || is_claimed d.state
])

unfoldable pub inbox_item : String → ℕ → MessageRow → DeliveryRow → InboxItem
unfolding adoption_provenance
inbox_item actor now m d = record {
  message_id = m.message_id;
  project_id = m.project_id;
  channel_id = m.channel_id;
  thread_id = m.thread_id;
  from_actor = m.from_actor;
  from_role = m.from_role;
  message_type = m.message_type;
  delivery_request = m.delivery_request;
  state = d.state;
  attempt = d.attempt;
  available = is_claimable now d;
  created_at = m.created_at;
  expires_at = m.expires_at;
  recipient_actor = actor;
  original_recipient_actor = adoption_provenance actor d.recipient_actor;
}

-- Each row of the join is scanned into an item.
unfoldable pub inbox_items : Db → String → ℕ → List MessageRow → List InboxItem
unfolding inbox_item
inbox_items db actor now [] = []
inbox_items db actor now (m ∷ ms) =
    let rest = inbox_items db actor now ms in
    elim (effective_delivery db actor m.message_id) [
      | none ↦ rest
      | some d ↦ inbox_item actor now m d ∷ rest
    ]

abbrev pub inbox_limit : ℕ → ℕ
inbox_limit limit = if eqb limit 0 || ltb 100 limit then 100 else limit

unfoldable pub check_inbox : Env → String → ℕ → Db → Result (List InboxItem)
unfolding is_listed inbox_items
check_inbox env actor limit db = do
  reject (trim_space actor == "") (validation "actor" "is required")
  ok (
      inbox_items db (trim_space actor) env.now (
        take (inbox_limit limit) (
          order_rows is_older
            (select_rows (is_listed db (trim_space actor) env.now) (legacy_messages db)))))

-- The sender and the recipients of a legacy message may see its events.
abbrev pub is_party : Db → String → String → Bool
is_party db actor id =
    exists_row
      (λ m.
        has_id id m
        && (m.from_actor == actor || exists_row (is_delivery m.message_id actor) db.deliveries))
      (legacy_messages db)

unfoldable pub may_see : Db → String → EventRow → Bool
may_see db actor e = actor == "operator" || (elim e.message_id [
  | none ↦ elim e.actor_id [ none ↦ false | some a ↦ a == actor ]
  | some id ↦ is_party db actor id
])

abbrev pub event_limit : ℕ → ℕ
event_limit limit = if eqb limit 0 || ltb 1000 limit then 100 else limit

abbrev pub is_event_after : String → String → ℕ → EventRow → Bool
is_event_after partition stream after e =
    e.partition_id == partition && e.stream == stream && ltb after e.position

abbrev pub by_position : EventRow → EventRow → Bool
by_position e f = leb e.position f.position

unfoldable pub list_events : Env → String → String → ℕ → ℕ → Db → Result (List EventRow)
unfolding may_see
list_events env partition stream after limit db = do
  reject (trim_space partition == "" || trim_space stream == "")
      (validation "event_cursor" "partition and stream are required")
  reject (env.caller.actor == "") channel_denied
  ok (
      take (event_limit limit) (
        order_rows by_position (
          select_rows
            (λ e.
              is_event_after (trim_space partition) (trim_space stream) after e
              && may_see db env.caller.actor e)
            db.events)))
