-- ===== src/Store/Sending/Stored.antt =====
-- internal/store/sqlite/store.go: what Send stored is found under its key, and equals its request.
use holler.Prelude.{
  ltb, ◌%◌, ◌^◌, ℕ, ◌≡◌, sym, ap, ◌∙◌, ◌||◌, ◌++◌, refl, Bool, true, false, String, List, [], ◌∷◌,
  Option, none, some, arith,
}
use mathlib.Core.Option
use holler.Bus.Types.{Message, SendRequest, SendResult, Route}
use holler.Bus.Normalize.{null}
use holler.Bus.Equivalent.{
  equivalent_request, equal_routes, message_routes, request_routes, equal_times, or_else,
}
use holler.Bus.Result.{ok, >>=-eq-ok, reject-eq-ok, ok-injective, reject, failure, actor_archived}
use holler.Store.Tables.{exists_row, find_row, select_rows}
use holler.Store.Events.{append_event}
use holler.Store.Events.Frame.{append_event-SameTables}
use holler.Store.Recipients.{is_delivery}
use holler.Store.Db.{max_time, unix_nano, mint, Db, Env, MessageRow, DeliveryRow}
use holler.Store.Messages.{
  read_message, get_message_by_idempotency, get_message_by_id, has_id, sent_with, is_legacy,
  legacy_messages,
}
use holler.Store.Sending.{
  message_row, new_message, insert_message, answer_duplicate, insert_deliveries, insert_delivery,
  note_queued, store_message, sent_payload,
}
use holler.Store.Addressing.{reserve_names, refuses_mail}

equal_routes_refl : (rs : List Route) → equal_routes rs rs ≡ true
unfolding equal_routes
equal_routes_refl [] = refl
equal_routes_refl (r ∷ rs) = ground (arith, equal_routes_refl rs)

-- The time can be stored: it is not after the year 2262.
abbrev pub is_representable : Option ℕ → Bool
is_representable none = true
is_representable (some t) = ltb t max_time

unix_nano_same : (t : ℕ) → ltb t max_time ≡ true → unix_nano t ≡ t
unfolding unix_nano
unix_nano_same t h = let small : t % (2 ^ 64) ≡ t = ground arith in rw (small, h) refl

equal_times_stored :
    (t : Option ℕ) → is_representable t ≡ true → equal_times (Option.map unix_nano t) t ≡ true
equal_times_stored none h = refl
equal_times_stored (some t) h = rw (unix_nano_same t h) (ground arith)

or_else_first : (rs xs : List Route) → null rs ≡ false → or_else rs xs ≡ rs
or_else_first [] xs h = cc
or_else_first (r ∷ rs) xs h = refl

module _ (now : ℕ) (id : String) (req : SendRequest) (resolved : List String)
    (ds : List DeliveryRow) (some_routes : null req.requested_routes ≡ false)
    (soon : is_representable req.expires_at ≡ true) where
  -- The message of the request once its recipients were resolved, as it is read back.
  abbrev pub stored : Message
  stored = read_message (message_row (new_message now id (record req { to_actors = resolved }))) ds

  stored-routes : equal_routes (message_routes stored) (request_routes req) ≡ true
  unfolding read_message message_row new_message message_routes request_routes
  stored-routes = rw (or_else_first req.requested_routes _ some_routes) (
      rw (or_else_first req.requested_routes _ some_routes)
        (equal_routes_refl req.requested_routes))

  -- Read back with any deliveries, it is equivalent to the request.
  stored-equivalent : equivalent_request stored req ≡ true
  unfolding equivalent_request
  stored-equivalent =
      unfold read_message message_row new_message in
      ground (arith, equal_times_stored req.expires_at soon, stored-routes)

  pub stored-answered :
      (db : Db)
      → answer_duplicate stored req db
        ≡ ok (record { message = stored; duplicate = true; notification_state = "" }, db)
  unfolding answer_duplicate
  stored-answered db = rw stored-equivalent refl

select-append :
    (test : MessageRow → Bool) (xs ys : List MessageRow)
    → select_rows test (xs ++ ys) ≡ select_rows test xs ++ select_rows test ys
select-append test [] ys = refl
select-append test (x ∷ xs) ys = ground (arith, select-append test xs ys)

find-last :
    (test : MessageRow → Bool) (xs : List MessageRow) (y : MessageRow)
    → exists_row test xs ≡ false
    → test y ≡ true
    → find_row test (xs ++ (y ∷ [])) ≡ some y
find-last test [] y h e = rw e refl
find-last test (x ∷ xs) y h e = ground (arith, find-last test xs y)

exists-select :
    (test seen : MessageRow → Bool) (xs : List MessageRow)
    → exists_row test xs ≡ false
    → exists_row test (select_rows seen xs) ≡ false
exists-select test seen [] h = refl
exists-select test seen (x ∷ xs) h = ground (arith, exists-select test seen xs)

exists-or :
    (f g : MessageRow → Bool) (xs : List MessageRow)
    → exists_row (λ r. f r || g r) xs ≡ false
    → (exists_row f xs ≡ false) × (exists_row g xs ≡ false)
exists-or f g [] h = (refl, refl)
exists-or f g (x ∷ xs) h = ground (arith, exists-or f g xs)

lookup_found :
    (db : Db) (actor key : String) (r : MessageRow)
    → find_row (sent_with actor key) db.messages ≡ some r
    → r.conversation_id ≡ none
    → find_row (has_id r.message_id) (legacy_messages db) ≡ some r
    → get_message_by_idempotency db actor key ≡ ok (read_message r db.deliveries)
unfolding get_message_by_idempotency get_message_by_id
lookup_found db actor key r keyed plain found = rw (keyed, plain, found) refl

row-keys :
    (m : Message)
    → (sent_with m.from_actor m.idempotency_key (message_row m) ≡ true)
      × (has_id m.id (message_row m) ≡ true)
unfolding message_row
row-keys m = (ground arith, ground arith)

-- A message that was inserted is found under its idempotency key.
insert_message-find :
    (m : Message) (db db' db2 : Db)
    → insert_message m db ≡ ok db'
    → db2.messages ≡ db'.messages
    → get_message_by_idempotency db2 m.from_actor m.idempotency_key
      ≡ ok (read_message (message_row m) db2.deliveries)
unfolding insert_message message_row
insert_message-find m db db' db2 h same =
    let clash = λ (r : MessageRow). has_id m.id r || sent_with m.from_actor m.idempotency_key r in
    let (_, e, h1) =
      >>=-eq-ok (reject (exists_row clash db.messages) (failure "insert message")) _ h in
    let (no_id, no_key) =
      exists-or (has_id m.id) (sent_with m.from_actor m.idempotency_key) db.messages
        (reject-eq-ok (exists_row clash db.messages) _ e) in
    let rows : db2.messages ≡ db.messages ++ (message_row m ∷ []) =
      same ∙ sym (ap (λ (x : Db). x.messages) (ok-injective h1)) in
    let row = message_row m in
    lookup_found db2 m.from_actor m.idempotency_key row
      (rw rows (
        find-last (sent_with m.from_actor m.idempotency_key) db.messages row no_key (row-keys m).0))
      refl
      (rw (rows, select-append is_legacy db.messages (row ∷ []))
        (find-last (has_id m.id) (select_rows is_legacy db.messages) row
          (exists-select (has_id m.id) is_legacy db.messages no_id) (row-keys m).1))

insert_deliveries-messages :
    (now : ℕ) (m : Message) (as' : List String) (db db' : Db)
    → insert_deliveries now m as' db ≡ ok db'
    → db'.messages ≡ db.messages
unfolding insert_deliveries insert_delivery
insert_deliveries-messages now m [] db db' h = sym (ap (λ (x : Db). x.messages) (ok-injective h))
insert_deliveries-messages now m (a ∷ rest) db db' h =
    let (db1, e, h1) = >>=-eq-ok (insert_delivery now m a db) _ h in
    let (_, _, e1) =
      >>=-eq-ok (reject (exists_row (is_delivery m.id a) db.deliveries) (failure "insert delivery"))
        _ e in
    insert_deliveries-messages now m rest db1 db' h1
    ∙ sym (ap (λ (x : Db). x.messages) (ok-injective e1))

note_queued-messages :
    (env : Env) (m : Message) (as' : List String) (db db' : Db)
    → note_queued env m as' db ≡ ok db'
    → db'.messages ≡ db.messages
unfolding note_queued
note_queued-messages env m [] db db' h = sym (ap (λ (x : Db). x.messages) (ok-injective h))
note_queued-messages env m (a ∷ rest) db db' h =
    let (db1, e, h1) =
      >>=-eq-ok (append_event env m.project_id "operational" "delivery.queued" m.id a none db) _
        h in
    note_queued-messages env m rest db1 db' h1
    ∙ (append_event-SameTables env m.project_id "operational" "delivery.queued" m.id a none db db1
        e).messages

-- What `store_message` stored is found under the key of its request.
pub store_message-find :
    (env : Env) (req : SendRequest) (resolutions : List (String × String)) (db : Db)
    (r : SendResult) (db' : Db)
    → store_message env req resolutions db ≡ ok (r, db')
    → (id : String) × (r.message ≡ new_message env.now id req)
      × (get_message_by_idempotency db' req.from_actor req.idempotency_key
          ≡ ok (read_message (message_row (new_message env.now id req)) db'.deliveries))
unfolding store_message
store_message-find env req resolutions db r db' h =
    let named : Db = record db {
      names = reserve_names env.now (req.from_actor ∷ req.to_actors) db.names;
    } in
    let (_, _, h1) = >>=-eq-ok (reject (refuses_mail named req.to_actors) actor_archived) _ h in
    let (minted, e1, h2) = >>=-eq-ok (mint env "msg" named) _ h1 in
    let m = new_message env.now minted.0 req in
    let (inserted, e2, h3) = >>=-eq-ok (insert_message m minted.1) _ h2 in
    let (delivered, e3, h4) = >>=-eq-ok (insert_deliveries env.now m m.to_actors inserted) _ h3 in
    let payload = some (sent_payload env m resolutions) in
    let (noted, e4, h5) =
      >>=-eq-ok
        (append_event env m.project_id "durable" "message.sent" m.id m.from_actor payload delivered)
        _ h4 in
    let (final, e5, h6) = >>=-eq-ok (note_queued env m m.to_actors noted) _ h5 in
    let done = ok-injective h6 in
    let same : db'.messages ≡ inserted.messages =
      sym (ap (λ (x : SendResult × Db). x.1.messages) done)
      ∙ (note_queued-messages env m m.to_actors noted final e5
          ∙ ((append_event-SameTables env m.project_id "durable" "message.sent" m.id m.from_actor
                payload delivered noted e4).messages
              ∙ insert_deliveries-messages env.now m m.to_actors inserted delivered e3)) in
    (
      minted.0,
      sym (ap (λ (x : SendResult × Db). x.0.message) done),
      unfold new_message in insert_message-find m minted.1 inserted db' e2 same,
    )
