-- ===== src/Attention/Preserve.antt =====
-- internal/attention/broker.go: every step keeps the invariant.
use holler.Prelude.{
  ℕ, Option-cases, Bool-cases, true, false, inl, inr, ◌≡◌, ◌≢◌, String, refl, Option, none, some,
  List, ◌∷◌, arith,
}
use holler.Bus.Result.{Error, Result, ok, err, presence_superseded}
use holler.Bus.Types.{Message}
use holler.Attention.Keys.{SessionKey}
use holler.Attention.{
  Broker, WaitResult, WaiterEntry, Target, attach_key, begin_wait, remove_waiter, notify,
  notify_waiter, cancel_key, set_at, is_current, set_waiter, notice_of, replace_presence,
  previous_waiter,
}
use holler.Attention.Calls.{
  selecting, cancelled, polling, received, returned, delivered, System, do_attach, do_begin,
  do_notify, do_cancel, do_send, do_receive, do_remove, do_poll, note_accepted, owe, try_send,
}
use holler.Attention.Invariant.{Inv, drop-Inv, set_current-Inv, owe-Inv, filled, filled-Inv}

notify_waiter-entry :
    (t : Target) (b : Broker) (w : WaiterEntry)
    → notify_waiter t b ≡ some w
    → b.waiters t.key ≡ some w
unfolding notify_waiter
notify_waiter-entry t b w h = ground arith

pub notify-Inv : (t : Target) (m : Message) (s : System) → Inv s → Inv (do_notify t m s)
unfolding do_notify note_accepted
notify-Inv t m s v = elim (Option-cases (notify_waiter t s.broker)) [
  | inl e ↦ rw (e, notify) v
  | inr (w, e) ↦
      let here = notify_waiter-entry t s.broker w e in
      rw (e, notify, (v.entry t.key w here).empty)
        (unfold filled in filled-Inv t.key w (notice_of m) s v here)
]

previous_waiter-none :
    (key : SessionKey) (b : Broker) → b.waiters key ≡ none → previous_waiter (some key) b ≡ none
unfolding previous_waiter
previous_waiter-none key b h = ground arith

previous_waiter-some :
    (key : SessionKey) (b : Broker) (w : WaiterEntry)
    → b.waiters key ≡ some w
    → previous_waiter (some key) b ≡ some w.result
unfolding previous_waiter
previous_waiter-some key b w h = ground arith

-- The waiter of a key, once it is taken from the maps, is owed an outcome.
module _ (key : SessionKey) (e : Error) (s : System) (v : Inv s) where
  abbrev superseded : System
  superseded = record s {
    broker = set_waiter key none s.broker;
    pending = owe (previous_waiter (some key) s.broker) e s.pending;
  }

  superseded-Inv : Inv superseded
  superseded-Inv = elim (Option-cases (s.broker.waiters key)) [
    | inl absent ↦ rw (previous_waiter-none key s.broker absent) (unfold owe in drop-Inv s v key)
    | inr (w, here) ↦
        let at = v.entry key w here in
        rw (previous_waiter-some key s.broker w here) (
          owe-Inv (record s { broker = set_waiter key none s.broker }) (drop-Inv s v key) w.result e
            at.empty at.unowed at.unaccepted at.allocated
            (λ j x h. unfold set_waiter in ground (arith, v.entry j x, v.entry key w here)))
  ]

  -- After it no waiter is left for an actor whose presence the key was.
  superseded-elsewhere :
      (a : String)
      → ((j : SessionKey) → j.actor ≡ a → s.broker.current a ≡ some j → j ≡ key)
      → (j : SessionKey) (w : WaiterEntry) → superseded.broker.waiters j ≡ some w
      → j.actor ≢ a
  unfolding set_waiter
  superseded-elsewhere a only j w h same = ground (arith, v.entry j w, only j)

is_current-same :
    (o : Option SessionKey) (key j : SessionKey) → is_current o key ≡ true → o ≡ some j → j ≡ key
unfolding is_current
is_current-same o key j h e = ground arith

pub cancel-Inv : (key : SessionKey) (e : Error) (s : System) → Inv s → Inv (do_cancel key e s)
unfolding do_cancel cancel_key
cancel-Inv key e s v = elim (Bool-cases (is_current (s.broker.current key.actor) key)) [
  | inl now ↦ rw now (
      set_current-Inv (superseded key e s v) (superseded-Inv key e s v) key.actor none (
        superseded-elsewhere key e s v key.actor
          (λ j _ at. is_current-same (s.broker.current key.actor) key j now at)))
  | inr other ↦ rw other (superseded-Inv key e s v)
]

-- A session becomes its actor's presence, in place of the previous one.
present-Inv :
    (key : SessionKey) (previous : Option SessionKey) (e : Error) (s : System)
    → Inv s
    → s.broker.current key.actor ≡ previous
    → Inv (record s {
      broker = replace_presence key previous s.broker;
      pending = owe (previous_waiter previous s.broker) e s.pending;
    })
unfolding replace_presence
present-Inv key none e s v now =
    unfold previous_waiter owe in
    set_current-Inv s v key.actor (some key) (λ j w h same. ground (arith, v.entry j w h))
present-Inv key (some previous) e s v now =
    set_current-Inv (superseded previous e s v) (superseded-Inv previous e s v) key.actor (some key)
      (superseded-elsewhere previous e s v key.actor (λ j _ at. ground arith))

attach_changed-Inv :
    (key : SessionKey) (transition : Option (Result (Unit {0}))) (s : System)
    → Inv s
    → is_current (s.broker.current key.actor) key ≡ false
    → Inv (do_attach key transition s)
unfolding do_attach attach_key
attach_changed-Inv key none s v h = rw h (present-Inv key _ presence_superseded s v refl)
attach_changed-Inv key (some (ok u)) s v h = rw h (present-Inv key _ presence_superseded s v refl)
attach_changed-Inv key (some (err e)) s v h = rw h (unfold owe in v)

-- `Attach` leaves the system alone, or replaces the actor's presence.
pub attach-Inv :
    (key : SessionKey) (transition : Option (Result (Unit {0}))) (s : System)
    → Inv s
    → Inv (do_attach key transition s)
attach-Inv key transition s v = elim (Bool-cases (is_current (s.broker.current key.actor) key)) [
  | inl same ↦ unfold do_attach attach_key owe in rw same v
  | inr changed ↦ attach_changed-Inv key transition s v changed
]

pub begin-Inv :
    (key : SessionKey) (adapter : String) (b : Broker) (s : System)
    → Inv s
    → begin_wait key adapter s.next s.broker ≡ ok b
    → Inv (do_begin key b s)
unfolding do_begin begin_wait set_waiter set_at
begin-Inv key adapter b s v h = record {
  entry = λ j x g.
      ground (arith, v.entry j x, v.fresh s.next, is_current-same (s.broker.current key.actor) key);
  told = λ c n g. ground (arith, v.told c n, v.fresh c);
  honest = λ c n g. ground (arith, v.honest c n, v.fresh c);
  owed = λ c x rest g. ground (arith, v.owed c x rest, v.fresh c);
  fresh = λ c g. ground (arith, v.fresh c);
}

pub send-Inv :
    (c : ℕ) (e : Error) (rest : List Error) (s : System)
    → Inv s
    → s.pending c ≡ e ∷ rest
    → Inv (do_send c e rest s)
unfolding do_send try_send set_at
send-Inv c e rest s v h = record {
  entry = λ j x g. ground (arith, v.entry j x, v.owed c e rest h);
  told = λ d n g. ground (arith, v.told d n, v.owed c e rest h);
  honest = λ d n g. ground (arith, v.honest d n, v.owed c e rest h);
  owed = λ d x tail g. ground (arith, v.owed d x tail, v.owed c e rest h);
  fresh = λ d g. ground (arith, v.fresh d, v.owed c e rest h);
}

pub receive-Inv :
    (c : ℕ) (r : WaitResult) (s : System)
    → Inv s
    → s.phase c ≡ selecting
    → s.buffer c ≡ some r
    → Inv (do_receive c r s)
unfolding do_receive set_at
receive-Inv c r s v p h = record {
  entry = λ j x g. ground (arith, v.entry j x);
  told = λ d n g. ground (arith, v.told d n);
  honest = λ d n g. ground (arith, v.honest d n);
  owed = λ d x rest g. ground (arith, v.owed d x rest);
  fresh = λ d g. ground (arith, v.fresh d);
}

pub time_out-Inv :
    (c : ℕ) (s : System)
    → Inv s
    → s.phase c ≡ selecting
    → Inv (record s { phase = set_at c cancelled s.phase })
unfolding set_at
time_out-Inv c s v p = record {
  entry = λ j x g. ground (arith, v.entry j x);
  told = λ d n g. ground (arith, v.told d n);
  honest = λ d n g. ground (arith, v.honest d n);
  owed = v.owed;
  fresh = λ d g. ground (arith, v.fresh d);
}

pub poll-Inv : (c : ℕ) (s : System) → Inv s → s.phase c ≡ polling → Inv (do_poll c s)
unfolding do_poll set_at
poll-Inv c s v p = record {
  entry = λ j x g. ground (arith, v.entry j x);
  told = λ d n g. ground (arith, v.told d n);
  honest = λ d n g. ground (arith, v.honest d n);
  owed = λ d x rest g. ground (arith, v.owed d x rest);
  fresh = λ d g. ground (arith, v.fresh d);
}

pub remove_cancelled-Inv :
    (c : ℕ) (s : System) → Inv s → s.phase c ≡ cancelled → Inv (do_remove c polling s)
unfolding do_remove remove_waiter set_waiter set_at
remove_cancelled-Inv c s v p = record {
  entry = λ j x g. ground (arith, v.entry j x);
  told = λ d n g. ground (arith, v.told d n);
  honest = λ d n g. ground (arith, v.honest d n);
  owed = λ d x rest g. ground (arith, v.owed d x rest);
  fresh = λ d g. ground (arith, v.fresh d);
}

pub remove_received-Inv :
    (c : ℕ) (r : WaitResult) (s : System)
    → Inv s
    → s.phase c ≡ received r
    → Inv (do_remove c (returned (delivered r)) s)
unfolding do_remove remove_waiter set_waiter set_at
remove_received-Inv c r s v p = record {
  entry = λ j x g. ground (arith, v.entry j x);
  told = λ d n g. ground (arith, v.told d n);
  honest = λ d n g. ground (arith, v.honest d n);
  owed = λ d x rest g. ground (arith, v.owed d x rest);
  fresh = λ d g. ground (arith, v.fresh d);
}
