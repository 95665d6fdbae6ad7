-- ===== src/Attention.antt =====
-- internal/attention/broker.go: the in-memory meeting place of the notification dispatch and the
-- parked monitors. The operations are here, each critical section of the mutex a function; the
-- calls as interleaved steps, and the proofs, are in the modules below.
pub mod Keys
pub mod Calls
pub mod Invariant
pub mod Preserve
pub mod Delivery
use holler.Prelude.{
  ℕ, Bool, true, false, ◌&&◌, not, String, Option, none, some, ◌==◌, if◌then◌else◌,
}
use holler.Bus.Result.{
  Error, Result, ok, err, registration_expired, presence_superseded, attention_waiter_busy,
}
use holler.Bus.Types.{AttentionNotice, Message}
use native.Mathlib.Decide.{ℕ_discrete}
use Keys.{SessionKey, same_key, session_key}

-- What is sent on the channel of a waiter: `waitResult`.
pub data WaitResult : Type 0 where
  notice : AttentionNotice → WaitResult
  outcome : Error → WaitResult

-- `waiterEntry`; a channel is its number.
pub record WaiterEntry : Type 0 where
  pub adapter : String
  pub result : ℕ

-- The two maps, as functions of the key.
pub record Broker : Type 0 where
  pub waiters : SessionKey → Option WaiterEntry
  pub current : String → Option SessionKey

unfoldable pub new_broker : Broker
new_broker = record { waiters = λ k. none; current = λ a. none }

-- A table after the value at one channel is written.
unfoldable pub set_at {ℓ} : {A : Type ℓ} → ℕ → A → (ℕ → A) → ℕ → A
set_at channel a f c = elim (ℕ_discrete c channel) [ yes _ ↦ a | no _ ↦ f c ]

-- b.waiters[key] = entry, and delete(b.waiters, key)
unfoldable pub set_waiter : SessionKey → Option WaiterEntry → Broker → Broker
set_waiter key entry b = record b {
  waiters = λ k. elim (same_key k key) [ yes _ ↦ entry | no _ ↦ b.waiters k ];
}

unfoldable pub set_current : String → Option SessionKey → Broker → Broker
set_current actor key b = record b { current = λ a. if a == actor then key else b.current a }

-- `b.current[actor] == key`: a missing entry of the map reads as the key of three empty strings.
unfoldable pub is_current : Option SessionKey → SessionKey → Bool
is_current none key = elim (same_key (session_key "" "" "") key) [ yes _ ↦ true | no _ ↦ false ]
is_current (some k) key = elim (same_key k key) [ yes _ ↦ true | no _ ↦ false ]

unfoldable pub attached : Broker → String → String → String → Bool
unfolding is_current
attached b actor run_id session_id =
    is_current (b.current actor) (session_key actor run_id session_id)

-- What `Attach` has done when it leaves the lock: the maps, whether it ran the callback, the
-- waiter that it is still to tell of the supersession, and what it returns.
pub record Attach : Type 0 where
  pub broker : Broker
  pub ran : Bool
  pub superseded : Option ℕ
  pub returns : Result (Unit {0})

-- The maps after a transition: the previous presence loses its waiter.
unfoldable pub replace_presence : SessionKey → Option SessionKey → Broker → Broker
unfolding set_waiter set_current
replace_presence key none b = set_current key.actor (some key) b
replace_presence key (some previous) b =
    set_current key.actor (some key) (set_waiter previous none b)

unfoldable pub previous_waiter : Option SessionKey → Broker → Option ℕ
previous_waiter none b = none
previous_waiter (some previous) b = elim (b.waiters previous) [
  | none ↦ none
  | some w ↦ some w.result
]

-- `transition` is what the callback would return, `none` if there is no callback.
unfoldable pub attach_key : SessionKey → Option (Result (Unit {0})) → Broker → Attach
unfolding is_current replace_presence previous_waiter
attach_key key transition b =
    if is_current (b.current key.actor) key
    then record { broker = b; ran = false; superseded = none; returns = ok tt }
    else elim transition [
      | none ↦ record {
        broker = replace_presence key (b.current key.actor) b;
        ran = false;
        superseded = previous_waiter (b.current key.actor) b;
        returns = ok tt;
      }
      | some (ok u) ↦ record {
        broker = replace_presence key (b.current key.actor) b;
        ran = true;
        superseded = previous_waiter (b.current key.actor) b;
        returns = ok tt;
      }
      | some (err e) ↦ record { broker = b; ran = true; superseded = none; returns = err e }
    ]

-- The first critical section of `Wait`: the checks, and the registration of a fresh channel.
unfoldable pub begin_wait : SessionKey → String → ℕ → Broker → Result Broker
unfolding is_current set_waiter
begin_wait key adapter channel b = elim (b.current key.actor) [
  | none ↦ err registration_expired
  | some c ↦
      if not (is_current (some c) key) then err presence_superseded else elim (b.waiters key) [
        | some w ↦ err attention_waiter_busy
        | none ↦ ok (set_waiter key (some (record { adapter = adapter; result = channel })) b)
      ]
]

-- The closure `remove` of `Wait`: the entry goes only if it is still this call's.
unfoldable pub remove_waiter : SessionKey → ℕ → Broker → Broker
unfolding set_waiter
remove_waiter key channel b = elim (b.waiters key) [
  | none ↦ b
  | some w ↦ elim (ℕ_discrete w.result channel) [ yes _ ↦ set_waiter key none b | no _ ↦ b ]
]

-- The registration that a notification is meant for.
pub record Target : Type 0 where
  pub key : SessionKey
  pub attention_mode : String

unfoldable pub notice_of : Message → AttentionNotice
notice_of m = record {
  message_id = m.id;
  thread_id = m.thread_id;
  from_actor = m.from_actor;
  message_type = m.message_type;
  delivery_request = m.delivery_request;
}

-- The waiter that `Notify` addresses, if its guards pass.
unfoldable pub notify_waiter : Target → Broker → Option WaiterEntry
unfolding is_current
notify_waiter t b =
    if not (is_current (b.current t.key.actor) t.key) then none else elim (b.waiters t.key) [
      | none ↦ none
      | some w ↦ if w.adapter == t.attention_mode then some w else none
    ]

-- `Notify`, with the buffers of the channels, each of one place: a full one refuses the notice.
unfoldable pub notify :
    Target
    → Message
    → (ℕ → Option WaitResult)
    → Broker
    → Option String × Broker × (ℕ → Option WaitResult)
unfolding notify_waiter set_waiter notice_of set_at
notify t m buffer b = elim (notify_waiter t b) [
  | none ↦ (none, b, buffer)
  | some w ↦ elim (buffer w.result) [
    | some r ↦ (none, b, buffer)
    | none ↦ (
      some w.adapter,
      set_waiter t.key none b,
      set_at w.result (some (notice (notice_of m))) buffer,
    )
  ]
]

-- The critical section of `Cancel`: the maps, and the waiter that is still to be told.
unfoldable pub cancel_key : SessionKey → Broker → Broker × Option ℕ
unfolding is_current set_waiter set_current previous_waiter
cancel_key key b =
    let b' = set_waiter key none b in
    (
      if is_current (b.current key.actor) key then set_current key.actor none b' else b',
      previous_waiter (some key) b,
    )
