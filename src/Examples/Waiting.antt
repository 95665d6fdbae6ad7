-- ===== src/Examples/Waiting.antt =====
-- A run of the broker: bob attaches, waits, is notified and returns.
use holler.Prelude.{◌≡◌, refl, none, some, [], ◌∷◌}
use holler.Prelude.Tests.{same_text}
use holler.Bus.Result.{ok, presence_superseded}
use holler.Bus.Types.{Message}
use holler.Attention.Keys.{SessionKey, same_key}
use holler.Attention.{
  Broker, WaiterEntry, Target, begin_wait, notice, notice_of, set_at, cancel_key,
}
use holler.Attention.Calls.{
  System, start, Reach, attaches, begins, notifies, cancels, receives, removes_received, here,
  next_step, do_attach, do_begin, do_notify, do_cancel, do_receive, do_remove, returned,
}
use holler.Attention.Delivery.{accepted-returned, returned-accepted, waiters_unique, pending-buffer}
use holler.Store.Messages.{read_message}
use native.Mathlib.Decide.{ℕ_discrete}
use holler.Examples.World.{hello, from_ok}

abbrev key : SessionKey
key = record { actor = "bob"; run_id = "r"; session_id = "s" }

abbrev target : Target
target = record { key = key; attention_mode = "codex" }

unfoldable letter : Message
unfolding read_message
letter = read_message hello []

unfoldable attached_bob : System
unfolding do_attach
attached_bob = do_attach key none start

unfoldable parked : Broker
unfolding begin_wait attached_bob
parked = from_ok attached_bob.broker (begin_wait key "codex" 0 attached_bob.broker)

parked_runs : begin_wait key "codex" attached_bob.next attached_bob.broker ≡ ok parked
unfolding parked attached_bob begin_wait same_text do_attach start same_key
parked_runs = refl

unfoldable waiting : System
unfolding do_begin
waiting = do_begin key parked attached_bob

waiting_reached : Reach start waiting
unfolding waiting attached_bob
waiting_reached =
    next_step (next_step here (attaches key none refl)) (begins key "codex" parked parked_runs refl)

unfoldable told : System
unfolding do_notify
told = do_notify target letter waiting

unfoldable received_bob : System
unfolding do_receive
received_bob = do_receive 0 (notice (notice_of letter)) told

unfoldable finished_bob : System
unfolding do_remove
finished_bob = do_remove 0 (returned (ok (notice_of letter))) received_bob

told_reached : Reach start told
unfolding told
told_reached = next_step waiting_reached (notifies target letter refl)

finished_reached : Reach start finished_bob
unfolding finished_bob received_bob told waiting attached_bob parked do_notify do_receive do_begin
    do_attach start set_at ℕ_discrete same_text same_key
finished_reached =
    next_step (next_step told_reached (receives 0 (notice (notice_of letter)) refl refl refl))
      (removes_received 0 (notice (notice_of letter)) refl refl)

letter_accepted : finished_bob.accepted 0 ≡ some (notice_of letter)
unfolding finished_bob received_bob told do_notify do_receive waiting attached_bob parked do_begin
    do_attach start set_at ℕ_discrete same_text same_key
letter_accepted = refl

letter_returned : finished_bob.phase 0 ≡ returned (ok (notice_of letter))
unfolding finished_bob received_bob told do_notify do_receive waiting attached_bob parked do_begin
    do_attach start set_at ℕ_discrete same_text same_key
letter_returned = refl

accepted-returned_example : ok (notice_of letter) ≡ ok (notice_of letter)
accepted-returned_example =
    accepted-returned finished_bob 0 (notice_of letter) (ok (notice_of letter)) finished_reached
      letter_accepted letter_returned

returned-accepted_example : finished_bob.accepted 0 ≡ some (notice_of letter)
returned-accepted_example =
    returned-accepted finished_bob 0 (notice_of letter) finished_reached letter_returned

abbrev entry : WaiterEntry
entry = record { adapter = "codex"; result = 0 }

entry_here : waiting.broker.waiters key ≡ some entry
unfolding waiting attached_bob parked do_begin do_attach start set_at ℕ_discrete same_text same_key
entry_here = refl

waiters_unique_example :
    (key ≡ key) × (entry ≡ entry) × (waiting.broker.current key.actor ≡ some key)
waiters_unique_example =
    waiters_unique waiting key key entry entry waiting_reached entry_here entry_here refl

unfoldable dropped : System
unfolding do_cancel
dropped = do_cancel key presence_superseded waiting

dropped_reached : Reach start dropped
unfolding dropped
dropped_reached = next_step waiting_reached (cancels key presence_superseded refl)

dropped_owes : dropped.pending 0 ≡ presence_superseded ∷ []
unfolding dropped do_cancel cancel_key waiting attached_bob parked do_begin do_attach start set_at
    ℕ_discrete same_text same_key
dropped_owes = refl

pending-buffer_example : (dropped.buffer 0 ≡ none) × (dropped.accepted 0 ≡ none)
pending-buffer_example =
    pending-buffer dropped 0 presence_superseded [] dropped_reached dropped_owes
