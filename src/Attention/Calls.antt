-- ===== src/Attention/Calls.antt =====
-- internal/attention/broker.go: the calls of the broker as interleaved steps. Each critical section
-- is a step, and so is each act outside the lock: a send on a channel, a receive, a cancellation.
use holler.Prelude.{ℕ, suc, ◌≡◌, Option, none, some, List, [], ◌∷◌, ◌++◌, String}
use holler.Bus.Result.{Error, Result, ok, err, presence_superseded, context_done}
use holler.Bus.Types.{AttentionNotice, Message}
use holler.Attention.Keys.{SessionKey}
use holler.Attention.{
  Broker, WaitResult, notice, outcome, WaiterEntry, Target, new_broker, attach_key, begin_wait,
  remove_waiter, notify, notify_waiter, notice_of, cancel_key, set_at,
}

-- Where a `Wait` stands: in its `select`, after either case of it before `remove`, after `remove` in
-- the cancelled case, and at its return.
pub data Phase : Type 0 where
  unused selecting cancelled polling : Phase
  received : WaitResult → Phase
  returned : Result AttentionNotice → Phase

-- `delivered.notice, delivered.err`
abbrev pub delivered : WaitResult → Result AttentionNotice
delivered (notice n) = ok n
delivered (outcome e) = err e

-- The broker, and for each channel what it holds, which outcomes `Attach` and `Cancel` are still to
-- send on it, and the call that waits on it. `accepted` records for which notice `Notify` said true.
pub record System : Type 0 where
  pub broker : Broker
  pub buffer : ℕ → Option WaitResult
  pub pending : ℕ → List Error
  pub phase : ℕ → Phase
  pub key : ℕ → SessionKey
  pub accepted : ℕ → Option AttentionNotice
  pub next : ℕ

abbrev pub no_key : SessionKey
no_key = record { actor = ""; run_id = ""; session_id = "" }

unfoldable pub start : System
unfolding new_broker
start = record {
  broker = new_broker;
  buffer = λ c. none;
  pending = λ c. [];
  phase = λ c. unused;
  key = λ c. no_key;
  accepted = λ c. none;
  next = 0;
}

-- A waiter that was taken from the maps is owed an outcome.
unfoldable pub owe : Option ℕ → Error → (ℕ → List Error) → ℕ → List Error
unfolding set_at
owe none e pending = pending
owe (some c) e pending = set_at c (pending c ++ (e ∷ [])) pending

-- `select { case ch <- r: default: }` on a channel of one place.
unfoldable pub try_send : ℕ → WaitResult → (ℕ → Option WaitResult) → ℕ → Option WaitResult
unfolding set_at
try_send c r buffer = elim (buffer c) [ none ↦ set_at c (some r) buffer | some old ↦ buffer ]

unfoldable pub do_attach : SessionKey → Option (Result (Unit {0})) → System → System
unfolding attach_key owe
do_attach key transition s = record s {
  broker = (attach_key key transition s.broker).broker;
  pending = owe (attach_key key transition s.broker).superseded presence_superseded s.pending;
}

unfoldable pub do_begin : SessionKey → Broker → System → System
unfolding set_at
do_begin key b s = record s {
  broker = b;
  phase = set_at s.next selecting s.phase;
  key = set_at s.next key s.key;
  next = suc s.next;
}

-- The ghost record of an acceptance.
unfoldable pub note_accepted :
    Option String
    → Option WaiterEntry
    → AttentionNotice
    → (ℕ → Option AttentionNotice)
    → ℕ
    → Option AttentionNotice
unfolding set_at
note_accepted none w n accepted = accepted
note_accepted (some a) none n accepted = accepted
note_accepted (some a) (some w) n accepted = set_at w.result (some n) accepted

unfoldable pub do_notify : Target → Message → System → System
unfolding notify notice_of note_accepted
do_notify t m s =
    let r = notify t m s.buffer s.broker in
    record s {
      broker = r.1;
      buffer = r.2;
      accepted = note_accepted r.0 (notify_waiter t s.broker) (notice_of m) s.accepted;
    }

unfoldable pub do_cancel : SessionKey → Error → System → System
unfolding cancel_key owe
do_cancel key e s = record s {
  broker = (cancel_key key s.broker).0;
  pending = owe (cancel_key key s.broker).1 e s.pending;
}

unfoldable pub do_send : ℕ → Error → List Error → System → System
unfolding try_send set_at
do_send c e rest s = record s {
  buffer = try_send c (outcome e) s.buffer;
  pending = set_at c rest s.pending;
}

unfoldable pub do_receive : ℕ → WaitResult → System → System
unfolding set_at
do_receive c r s = record s {
  buffer = set_at c none s.buffer;
  phase = set_at c (received r) s.phase;
}

unfoldable pub do_remove : ℕ → Phase → System → System
unfolding remove_waiter set_at
do_remove c after s = record s {
  broker = remove_waiter (s.key c) c s.broker;
  phase = set_at c after s.phase;
}

abbrev pub polled : Option WaitResult → Result AttentionNotice
polled none = err context_done
polled (some r) = delivered r

unfoldable pub do_poll : ℕ → System → System
unfolding set_at
do_poll c s = record s {
  buffer = set_at c none s.buffer;
  phase = set_at c (returned (polled (s.buffer c))) s.phase;
}

pub data Step (s u : System) : Type 0 where
  attaches :
      (key : SessionKey) (transition : Option (Result (Unit {0})))
      → u ≡ do_attach key transition s
      → Step s u
  begins :
      (key : SessionKey) (adapter : String) (b : Broker)
      → begin_wait key adapter s.next s.broker ≡ ok b
      → u ≡ do_begin key b s
      → Step s u
  notifies : (t : Target) (m : Message) → u ≡ do_notify t m s → Step s u
  cancels : (key : SessionKey) (e : Error) → u ≡ do_cancel key e s → Step s u
  sends :
      (c : ℕ) (e : Error) (rest : List Error)
      → s.pending c ≡ e ∷ rest
      → u ≡ do_send c e rest s
      → Step s u
  receives :
      (c : ℕ) (r : WaitResult)
      → s.phase c ≡ selecting
      → s.buffer c ≡ some r
      → u ≡ do_receive c r s
      → Step s u
  times_out :
      (c : ℕ)
      → s.phase c ≡ selecting
      → u ≡ record s { phase = set_at c cancelled s.phase }
      → Step s u
  removes_received :
      (c : ℕ) (r : WaitResult)
      → s.phase c ≡ received r
      → u ≡ do_remove c (returned (delivered r)) s
      → Step s u
  removes_cancelled : (c : ℕ) → s.phase c ≡ cancelled → u ≡ do_remove c polling s → Step s u
  polls : (c : ℕ) → s.phase c ≡ polling → u ≡ do_poll c s → Step s u

pub data Reach (s : System) : System → Type 0 where
  here : Reach s s
  next_step : {t u : System} → Reach s t → Step t u → Reach s u
