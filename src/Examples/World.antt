-- ===== src/Examples/World.antt =====
-- A small database: alice has sent bob one message, which is queued.
use holler.Prelude.{
  ◌≡◌, ◌≢◌, arith, ◌==◌, refl, ℕ, String, Bool, true, false, none, some, [], ◌∷◌, eqb,
  if◌then◌else◌,
}
use holler.Bus.Result.{Result, ok, err}
use holler.Bus.Caller.{no_caller}
use holler.Bus.Types.{queued}
use holler.Store.Db.{Db, Env, MessageRow, DeliveryRow, empty_db, typed}

abbrev pub id_of : ℕ → String
id_of n =
    if eqb n 0
    then "id-0"
    else if eqb n 1
    then "id-1"
    else if eqb n 2
    then "id-2"
    else if eqb n 3
    then "id-3"
    else if eqb n 4
    then "id-4"
    else if eqb n 5
    then "id-5"
    else if eqb n 6
    then "id-6"
    else "id-7"

abbrev pub at_time : ℕ → Env
at_time now = record { now = now; caller = no_caller; new_id = λ prefix n. some (id_of n) }

abbrev pub hello : MessageRow
hello = record {
  message_id = "msg-1";
  idempotency_key = "key-1";
  project_id = "p";
  channel_id = "general";
  thread_id = "t";
  from_actor = "alice";
  from_run = "run-a";
  from_role = "";
  message_type = "question";
  delivery_request = "attention";
  in_reply_to = "";
  body = "{}";
  created_at = 5;
  expires_at = none;
  recipients = typed [];
  conversation_id = none;
}

abbrev pub to_bob : DeliveryRow
to_bob = record {
  message_id = "msg-1";
  recipient_actor = "bob";
  state = queued;
  attempt = 0;
  lease_token = none;
  terminal_lease_token = none;
  lease_expires_at = none;
  claimed_at = none;
  acked_at = none;
  last_error = none;
}

abbrev pub one_message : Db
one_message = record empty_db { messages = hello ∷ []; deliveries = to_bob ∷ [] }

-- The result of a run that succeeds.
abbrev pub from_ok : {A : Type 0} → A → Result A → A
from_ok a (ok b) = b
from_ok a (err e) = a

abbrev pub ran : {A : Type 0} → Result A → Bool
ran (ok b) = true
ran (err e) = false

pub from_ok-ran : {A : Type 0} (a : A) (r : Result A) → ran r ≡ true → r ≡ ok (from_ok a r)
from_ok-ran a (ok b) h = refl
from_ok-ran a (err e) h = cc

-- Two texts that the test tells apart.
pub apart : (a b : String) → (a == b) ≡ false → a ≢ b
apart a b h = λ e. ground arith

abbrev pub bob : String
bob = "bob"
