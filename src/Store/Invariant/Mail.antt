-- ===== src/Store/Invariant/Mail.antt =====
-- internal/store/sqlite/store.go: what `Send` keeps.
use holler.Prelude.{
  ◌&&◌, ℕ, ◌≡◌, refl, sym, ap, Bool, String, List, [], ◌∷◌, ◌++◌, Option, none, some, not, ◌||◌,
}
use holler.Bus.Result.{
  Result, ok, err, not_found, >>=-eq-ok, reject-eq-ok, reject, failure, actor_archived,
  channel_capability, validation, ok-injective, idempotency_conflict,
}
use holler.Bus.Text.{is_human_actor}
use holler.Bus.Types.{Message, SendRequest, SendResult}
use holler.Bus.Normalize.{normalize_send_request}
use holler.Bus.Equivalent.{equivalent_request}
use holler.Store.Tables.{exists_row}
use holler.Store.Db.{Db, Env, mint}
use holler.Store.Events.{append_event}
use holler.Store.Events.Frame.{KeepsNumbers-same}
use holler.Store.Messages.{has_id, sent_with, get_message_by_idempotency}
use holler.Store.Recipients.{is_delivery}
use holler.Store.Recipients.Keys.{append-IsKeyed}
use holler.Store.Routes.{assert_actor_not_adopted}
use holler.Store.Sending.{
  insert_message, insert_delivery, insert_deliveries, note_queued, new_delivery, store_message,
  send_new, send_keyed, send_normalized, send, new_message, sent_payload, answer_duplicate,
}
use holler.Store.Addressing.{
  reserve_names, refuses_mail, resolve_recipients, any_human, is_past, stamp,
}
use holler.Store.Tables.Rows.{exists-append, AllRows-append}
use holler.Store.Transition.States.{FitsState, new_delivery-FitsState}
use holler.Store.Invariant.{
  is_ended, Keeps, Keeps-trans, same-Keeps, mint-Keeps, append_event-Keeps,
}

Keeps-refl : (db : Db) → Keeps db db
Keeps-refl db = same-Keeps db db refl refl refl refl

insert_message-Keeps : (m : Message) (db db' : Db) → insert_message m db ≡ ok db' → Keeps db db'
unfolding insert_message
insert_message-Keeps m db db' h =
    let (_, _, h1) =
      >>=-eq-ok
        (reject
          (exists_row (λ r. has_id m.id r || sent_with m.from_actor m.idempotency_key r)
            db.messages)
          (failure "insert message"))
        _ h in
    rw (sym (ok-injective h1)) (same-Keeps db _ refl refl refl refl)

insert_delivery-Keeps :
    (now : ℕ) (m : Message) (a : String) (db db' : Db)
    → insert_delivery now m a db ≡ ok db'
    → Keeps db db'
unfolding insert_delivery
insert_delivery-Keeps now m a db db' h =
    let (_, e, h1) =
      >>=-eq-ok (reject (exists_row (is_delivery m.id a) db.deliveries) (failure "insert delivery"))
        _ h in
    let free = reject-eq-ok (exists_row (is_delivery m.id a) db.deliveries) _ e in
    let done = ok-injective h1 in
    let rows : db'.deliveries ≡ db.deliveries ++ (new_delivery m.id a ∷ []) =
      sym (ap (λ (x : Db). x.deliveries) done) in
    let adoptions : db'.adoptions ≡ db.adoptions = sym (ap (λ (x : Db). x.adoptions) done) in
    record {
      keyed = λ k.
          rw rows
            (append-IsKeyed db.deliveries (new_delivery m.id a) k (unfold new_delivery in free));
      fitting = λ u k. rw rows (
          AllRows-append FitsState db.deliveries (new_delivery m.id a ∷ []) k
            (new_delivery-FitsState m.id a, tt));
      numbers =
          KeepsNumbers-same db db' (sym (ap (λ (x : Db). x.events) done))
            (sym (ap (λ (x : Db). x.counters) done));
      unchained = λ k. rw adoptions k;
      sourced = λ k. rw adoptions k;
      ended = λ u i r k.
          rw
            (
              rows,
              exists-append (λ d. is_delivery i r d && is_ended d) db.deliveries
                  (new_delivery m.id a ∷ []),
              k,
            )
            refl;
    }

insert_deliveries-Keeps :
    (now : ℕ) (m : Message) (as' : List String) (db db' : Db)
    → insert_deliveries now m as' db ≡ ok db'
    → Keeps db db'
unfolding insert_deliveries
insert_deliveries-Keeps now m [] db db' h = rw (sym (ok-injective h)) (Keeps-refl db)
insert_deliveries-Keeps now m (a ∷ rest) db db' h =
    let (db1, e, h1) = >>=-eq-ok (insert_delivery now m a db) _ h in
    Keeps-trans db db1 db' (insert_delivery-Keeps now m a db db1 e)
      (insert_deliveries-Keeps now m rest db1 db' h1)

note_queued-Keeps :
    (env : Env) (m : Message) (as' : List String) (db db' : Db)
    → note_queued env m as' db ≡ ok db'
    → Keeps db db'
unfolding note_queued
note_queued-Keeps env m [] db db' h = rw (sym (ok-injective h)) (Keeps-refl db)
note_queued-Keeps env m (a ∷ rest) db db' h =
    let (db1, e, h1) =
      >>=-eq-ok (append_event env m.project_id "operational" "delivery.queued" m.id a none db) _
        h in
    Keeps-trans db db1 db'
      (append_event-Keeps env m.project_id "operational" "delivery.queued" m.id a none db db1 e)
      (note_queued-Keeps env m rest db1 db' h1)

store_message-Keeps :
    (env : Env) (req : SendRequest) (resolutions : List (String × String)) (db : Db)
    (r : SendResult × Db)
    → store_message env req resolutions db ≡ ok r
    → Keeps db r.1
unfolding store_message
store_message-Keeps env req resolutions db r h =
    let named : Db = record db {
      names = reserve_names env.now (req.from_actor ∷ req.to_actors) db.names;
    } in
    let (_, _, h1) = >>=-eq-ok (reject (refuses_mail named req.to_actors) actor_archived) _ h in
    let (minted, e1, h2) = >>=-eq-ok (mint env "msg" named) _ h1 in
    let m = new_message env.now minted.0 req in
    let (inserted, e2, h3) = >>=-eq-ok (insert_message m minted.1) _ h2 in
    let (delivered, e3, h4) = >>=-eq-ok (insert_deliveries env.now m m.to_actors inserted) _ h3 in
    let payload = some (sent_payload env m resolutions) in
    let (noted, e4, h5) =
      >>=-eq-ok
        (append_event env m.project_id "durable" "message.sent" m.id m.from_actor payload delivered)
        _ h4 in
    let (final, e5, h6) = >>=-eq-ok (note_queued env m m.to_actors noted) _ h5 in
    let at_end : final ≡ r.1 = ap (λ (x : SendResult × Db). x.1) (ok-injective h6) in
    rw (← at_end) (
      Keeps-trans db named final (same-Keeps db named refl refl refl refl) (
        Keeps-trans named minted.1 final (mint-Keeps env "msg" named minted.1 minted.0 e1) (
          Keeps-trans minted.1 inserted final (insert_message-Keeps m minted.1 inserted e2) (
            Keeps-trans inserted delivered final
              (insert_deliveries-Keeps env.now m m.to_actors inserted delivered e3)
              (Keeps-trans delivered noted final
                (append_event-Keeps env m.project_id "durable" "message.sent" m.id m.from_actor
                  payload delivered noted e4)
                (note_queued-Keeps env m m.to_actors noted final e5))))))

answer_duplicate-Keeps :
    (existing : Message) (req : SendRequest) (db : Db) (r : SendResult × Db)
    → answer_duplicate existing req db ≡ ok r
    → Keeps db r.1
unfolding answer_duplicate
answer_duplicate-Keeps existing req db r h =
    let (_, _, h1) =
      >>=-eq-ok (reject (not (equivalent_request existing req)) idempotency_conflict) _ h in
    rw (sym (ap (λ (x : SendResult × Db). x.1) (ok-injective h1))) (Keeps-refl db)

send_new-Keeps :
    (env : Env) (parent : Option Message) (req : SendRequest) (db : Db) (r : SendResult × Db)
    → send_new env parent req db ≡ ok r
    → Keeps db r.1
unfolding send_new
send_new-Keeps env parent req db r h =
    let (found, _, h1) = >>=-eq-ok (resolve_recipients db parent req) _ h in
    let (_, _, h2) = >>=-eq-ok (reject (any_human found.0) channel_capability) _ h1 in
    store_message-Keeps env (record req { to_actors = found.0 }) found.1 db r h2

send_keyed-Keeps :
    (env : Env) (parent : Option Message) (req : SendRequest) (db : Db) (found : Result Message)
    (r : SendResult × Db)
    → send_keyed env parent req db found ≡ ok r
    → Keeps db r.1
unfolding send_keyed
send_keyed-Keeps env parent req db (ok m) r h = answer_duplicate-Keeps m req db r h
send_keyed-Keeps env parent req db (err not_found) r h = send_new-Keeps env parent req db r h
send_keyed-Keeps env parent req db (err e) r h = cc

send_normalized-Keeps :
    (env : Env) (req : SendRequest) (db : Db) (r : SendResult × Db)
    → send_normalized env req db ≡ ok r
    → Keeps db r.1
unfolding send_normalized
send_normalized-Keeps env req db r h =
    let (_, _, h1) = >>=-eq-ok (reject (is_human_actor req.from_actor) channel_capability) _ h in
    let (_, _, h2) =
      >>=-eq-ok
        (reject (is_past env.now req.expires_at) (validation "expires_at" "must be in the future"))
        _ h1 in
    let (_, _, h3) = >>=-eq-ok (assert_actor_not_adopted db req.from_actor) _ h2 in
    let (stamped, _, h4) = >>=-eq-ok (stamp db req) _ h3 in
    send_keyed-Keeps env stamped.0 stamped.1 db
      (get_message_by_idempotency db stamped.1.from_actor stamped.1.idempotency_key) r h4

pub send-Keeps :
    (json_valid : String → Bool) (env : Env) (request : SendRequest) (db : Db) (r : SendResult × Db)
    → send json_valid env request db ≡ ok r
    → Keeps db r.1
unfolding send
send-Keeps json_valid env request db r h =
    let (req, _, h1) = >>=-eq-ok (normalize_send_request json_valid request) _ h in
    send_normalized-Keeps env req db r h1
