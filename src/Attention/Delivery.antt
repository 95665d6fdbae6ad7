-- ===== src/Attention/Delivery.antt =====
-- internal/attention/broker.go: what any interleaving of calls guarantees.
use holler.Prelude.{ℕ, ◌≡◌, inr, none, some, List, ◌∷◌, arith}
use holler.Bus.Result.{Error, Result, ok}
use holler.Bus.Types.{AttentionNotice}
use holler.Attention.Keys.{SessionKey}
use holler.Attention.{WaiterEntry}
use holler.Attention.Calls.{
  returned, System, start, Step, Reach, attaches, begins, notifies, cancels, sends, receives,
  times_out, removes_received, removes_cancelled, polls, here, next_step,
}
use holler.Attention.Invariant.{Inv, start-Inv}
use holler.Attention.Preserve.{
  notify-Inv, cancel-Inv, attach-Inv, begin-Inv, send-Inv, receive-Inv, time_out-Inv, poll-Inv,
  remove_cancelled-Inv, remove_received-Inv,
}

Step-Inv : {s u : System} → Step s u → Inv s → Inv u
Step-Inv {s} (attaches key t e) v = rw e (attach-Inv key t s v)
Step-Inv {s} (begins key a b h e) v = rw e (begin-Inv key a b s v h)
Step-Inv {s} (notifies t m e) v = rw e (notify-Inv t m s v)
Step-Inv {s} (cancels key x e) v = rw e (cancel-Inv key x s v)
Step-Inv {s} (sends c x rest h e) v = rw e (send-Inv c x rest s v h)
Step-Inv {s} (receives c r p h e) v = rw e (receive-Inv c r s v p h)
Step-Inv {s} (times_out c p e) v = rw e (time_out-Inv c s v p)
Step-Inv {s} (removes_received c r p e) v = rw e (remove_received-Inv c r s v p)
Step-Inv {s} (removes_cancelled c p e) v = rw e (remove_cancelled-Inv c s v p)
Step-Inv {s} (polls c p e) v = rw e (poll-Inv c s v p)

-- The invariant of the maps, the channels and the parked calls holds after any interleaving of the
-- critical sections, sends and receives of any calls, from the new broker on.
pub Reach-Inv : {s : System} → Reach start s → Inv s
Reach-Inv here = start-Inv
Reach-Inv (next_step r st) = Step-Inv st (Reach-Inv r)

-- In any interleaving, a `Wait` on whose channel a notice was accepted can return nothing but that
-- notice, whatever cancellation, supersession or timeout races with it.
pub accepted-returned :
    (s : System) (c : ℕ) (n : AttentionNotice) (r : Result AttentionNotice)
    → Reach start s
    → s.accepted c ≡ some n
    → s.phase c ≡ returned r
    → r ≡ ok n
accepted-returned s c n r reach a p = ground (arith, (Reach-Inv reach).told c n)

-- In any interleaving, a `Wait` returns a notice only if `Notify` reported it as accepted by that
-- very call's channel.
pub returned-accepted :
    (s : System) (c : ℕ) (n : AttentionNotice)
    → Reach start s
    → s.phase c ≡ returned (ok n)
    → s.accepted c ≡ some n
returned-accepted s c n reach p = (Reach-Inv reach).honest c n (inr (inr p))

-- In any interleaving, two registered waiters of one actor are the same waiter, and it is the one
-- of the actor's current presence.
pub waiters_unique :
    (s : System) (j k : SessionKey) (v w : WaiterEntry)
    → Reach start s
    → s.broker.waiters j ≡ some v
    → s.broker.waiters k ≡ some w
    → j.actor ≡ k.actor
    → (j ≡ k) × (v ≡ w) × (s.broker.current k.actor ≡ some k)
waiters_unique s j k v w reach hj hk same =
    let vj = (Reach-Inv reach).entry j v hj in
    let vk = (Reach-Inv reach).entry k w hk in ground (arith, vj, vk)

-- In any interleaving, an outcome that `Attach` or `Cancel` still owes a waiter finds an empty
-- channel on which no notice was accepted: the send is not dropped.
pub pending-buffer :
    (s : System) (c : ℕ) (e : Error) (rest : List Error)
    → Reach start s
    → s.pending c ≡ e ∷ rest
    → (s.buffer c ≡ none) × (s.accepted c ≡ none)
pending-buffer s c e rest reach h = ground (arith, (Reach-Inv reach).owed c e rest h)
