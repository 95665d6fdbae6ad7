-- ===== src/Store/Sending/Retries.antt =====
-- internal/store/sqlite/store.go and internal/bus/model.go: a stored message is known again by the
-- request that it was stored for.
use holler.Prelude.{not, ◌==◌, ◌≡◌, sym, ap, ◌∙◌, refl, Bool, true, false, String, Option, none}
use holler.Bus.Types.{Message, SendRequest, SendResult}
use holler.Bus.Normalize.{null, normalize_send_request}
use holler.Bus.Equivalent.{equivalent_request}
use holler.Bus.Result.{
  Result, ok, >>=-eq-ok, reject-eq-ok, ok-injective, reject, channel_capability, err,
  idempotency_conflict, not_found, validation,
}
use mathlib.Core.Bool.{false≢true}
use holler.Store.Routes.{assert_actor_not_adopted, is_adopted}
use holler.Bus.Text.{is_human_actor}
use holler.Store.Db.{Db, Env}
use holler.Store.Messages.{read_message, get_message_by_idempotency}
use holler.Store.Sending.{
  send, send_normalized, message_row, answer_duplicate, send_new, send_keyed,
}
use holler.Store.Addressing.{is_past, stamp, stamp_routes, resolve_recipients, any_human}
use holler.Store.Sending.Stored.{stored, stored-answered, store_message-find, is_representable}

keyed_found :
    (env : Env) (parent : Option Message) (req : SendRequest) (db : Db) (m : Message)
    → send_keyed env parent req db (ok m) ≡ answer_duplicate m req db
unfolding send_keyed
keyed_found env parent req db m = refl

-- The answer to a retry.
abbrev as_duplicate : Message → Db → Result (SendResult × Db)
as_duplicate m db = ok (
  record {
    message = read_message (message_row m) db.deliveries;
    duplicate = true;
    notification_state = "";
  },
  db,
)

send_new-retry :
    (env env2 : Env) (parent parent2 : Option Message) (req : SendRequest) (db : Db)
    (r : SendResult) (db' : Db)
    → send_new env parent req db ≡ ok (r, db')
    → null req.requested_routes ≡ false
    → is_representable req.expires_at ≡ true
    → send_keyed env2 parent2 req db'
        (get_message_by_idempotency db' req.from_actor req.idempotency_key)
      ≡ ok (
        record {
          message = read_message (message_row r.message) db'.deliveries;
          duplicate = true;
          notification_state = "";
        },
        db',
      )
unfolding send_new
send_new-retry env env2 parent parent2 req db r db' h some_routes soon =
    let (found, _, h1) = >>=-eq-ok (resolve_recipients db parent req) _ h in
    let (_, _, h2) = >>=-eq-ok (reject (any_human found.0) channel_capability) _ h1 in
    let (id, sent, lookup) =
      store_message-find env (record req { to_actors = found.0 }) found.1 db r db' h2 in
    ap (send_keyed env2 parent2 req db') lookup
    ∙ keyed_found env2 parent2 req db'
        (stored env.now id req found.0 db'.deliveries some_routes soon)
    ∙ stored-answered env.now id req found.0 db'.deliveries some_routes soon db'
    ∙ ap (λ (m : Message). as_duplicate m db') (sym sent)

-- A message that is not a duplicate was stored.
keyed_new :
    (env : Env) (parent : Option Message) (req : SendRequest) (db : Db) (found : Result Message)
    (r : SendResult) (db' : Db)
    → send_keyed env parent req db found ≡ ok (r, db')
    → r.duplicate ≡ false
    → send_new env parent req db ≡ ok (r, db')
unfolding send_keyed answer_duplicate
keyed_new env parent req db (ok m) r db' h first =
    let (_, _, h1) = >>=-eq-ok (reject (not (equivalent_request m req)) idempotency_conflict) _ h in
    absurd
      (false≢true (sym first ∙ sym (ap (λ (x : SendResult × Db). x.0.duplicate) (ok-injective h1))))
keyed_new env parent req db (err not_found) r db' h first = h
keyed_new env parent req db (err e) r db' h first = cc

-- A request that names its destinations is stamped alike whatever the tables hold.
stamp_routed :
    (db db' : Db) (req : SendRequest)
    → null req.destinations ≡ false
    → (req.in_reply_to == "") ≡ true
    → (stamp db req ≡ ok (none, stamp_routes db req)) × (stamp_routes db' req ≡ stamp_routes db req)
unfolding stamp stamp_routes
stamp_routed db db' req routed fresh = (rw fresh refl, rw routed refl)

-- After Send stored a message for a request that names its destinations, Send of the same request is
-- answered with the stored message, as a duplicate, and changes nothing. The request has not expired and
-- expires before the year 2262, if it ever does, and its sender's inbox is not adopted.
pub send-retry :
    (json_valid : String → Bool) (env env2 : Env) (request req : SendRequest) (db : Db)
    (r : SendResult) (db' : Db)
    → normalize_send_request json_valid request ≡ ok req
    → null req.destinations ≡ false
    → (req.in_reply_to == "") ≡ true
    → is_representable req.expires_at ≡ true
    → is_past env2.now req.expires_at ≡ false
    → is_adopted db' req.from_actor ≡ false
    → send json_valid env request db ≡ ok (r, db')
    → r.duplicate ≡ false
    → send json_valid env2 request db'
      ≡ ok (
        record {
          message = read_message (message_row r.message) db'.deliveries;
          duplicate = true;
          notification_state = "";
        },
        db',
      )
unfolding send send_normalized assert_actor_not_adopted
send-retry json_valid env env2 request req db r db' named routed fresh soon live alone h first =
    let h0 : send_normalized env req db ≡ ok (r, db') = rw named at h in
    let (_, human, h1) =
      >>=-eq-ok (reject (is_human_actor req.from_actor) channel_capability) _ h0 in
    let (_, _, h2) =
      >>=-eq-ok
        (reject (is_past env.now req.expires_at) (validation "expires_at" "must be in the future"))
        _ h1 in
    let (_, _, h3) = >>=-eq-ok (assert_actor_not_adopted db req.from_actor) _ h2 in
    let (first_stamp, _) = stamp_routed db db req routed fresh in
    let (second_stamp, _) = stamp_routed db' db' req routed fresh in
    let (_, same) = stamp_routed db db' req routed fresh in
    let stamped = stamp_routes db req in
    let sent : send_new env none stamped db ≡ ok (r, db') =
      keyed_new env none stamped db
        (get_message_by_idempotency db stamped.from_actor stamped.idempotency_key) r db'
        (rw first_stamp at h3) first in
    let again =
      send_new-retry env env2 none none stamped db r db' sent
        (unfold stamp_routes in rw routed routed) (unfold stamp_routes in soon) in
    let person = reject-eq-ok (is_human_actor req.from_actor) channel_capability human in
    rw (named, person, live, alone, second_stamp, same) again
