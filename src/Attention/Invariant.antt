-- ===== src/Attention/Invariant.antt =====
-- internal/attention/broker.go: what holds of the maps and the channels between two steps.
use holler.Prelude.{
  ℕ, ◌≤◌, ◌<◌, ◌≡◌, ◌≢◌, String, refl, ◌⊎◌, Option, none, some, List, [], ◌∷◌, arith,
}
use holler.Bus.Result.{Error, ok}
use holler.Bus.Types.{AttentionNotice}
use holler.Attention.Keys.{SessionKey}
use holler.Attention.{notice, WaiterEntry, set_at, set_waiter, set_current}
use holler.Attention.Calls.{
  Phase, unused, selecting, cancelled, polling, received, returned, System, start, owe,
}

abbrev pub IsOpen : Phase → Type 0
IsOpen p = (p ≡ selecting) ⊎ (p ≡ cancelled)

-- A registered waiter stands for its actor's current presence, and nothing was sent to it yet.
pub record Registered (s : System) (k : SessionKey) (c : ℕ) : Type 0 where
  pub owner : s.key c ≡ k
  pub allocated : c < s.next
  pub is_presence : s.broker.current k.actor ≡ some k
  pub empty : s.buffer c ≡ none
  pub unowed : s.pending c ≡ []
  pub unaccepted : s.accepted c ≡ none
  pub parked : IsOpen (s.phase c)

-- An accepted notice is in the channel of a call that will still look there, or with the call.
abbrev pub Told : System → ℕ → AttentionNotice → Type 0
Told s c n =
    (s.pending c ≡ [])
    × (((s.buffer c ≡ some (notice n)) × (IsOpen (s.phase c) ⊎ (s.phase c ≡ polling)))
        ⊎ (s.phase c ≡ received (notice n))
        ⊎ (s.phase c ≡ returned (ok n)))

abbrev pub Holds : System → ℕ → AttentionNotice → Type 0
Holds s c n =
    (s.buffer c ≡ some (notice n))
    ⊎ (s.phase c ≡ received (notice n))
    ⊎ (s.phase c ≡ returned (ok n))

abbrev pub Owed : System → ℕ → List Error → Type 0
Owed s c rest = (rest ≡ []) × (s.buffer c ≡ none) × (s.accepted c ≡ none) × (c < s.next)

abbrev pub Fresh : System → ℕ → Type 0
Fresh s c = (s.buffer c ≡ none) × (s.pending c ≡ []) × (s.accepted c ≡ none) × (s.phase c ≡ unused)

pub record Inv (s : System) : Type 0 where
  pub entry :
      (k : SessionKey) (w : WaiterEntry) → s.broker.waiters k ≡ some w → Registered s k w.result
  pub told : (c : ℕ) (n : AttentionNotice) → s.accepted c ≡ some n → Told s c n
  pub honest : (c : ℕ) (n : AttentionNotice) → Holds s c n → s.accepted c ≡ some n
  pub owed : (c : ℕ) (e : Error) (rest : List Error) → s.pending c ≡ e ∷ rest → Owed s c rest
  pub fresh : (c : ℕ) → s.next ≤ c → Fresh s c

pub start-Inv : Inv start
unfolding start
start-Inv = record {
  entry = λ k w h. cc;
  told = λ c n h. cc;
  honest = λ c n h. ground arith;
  owed = λ c e rest h. cc;
  fresh = λ c h. (refl, refl, refl, refl);
}

-- The elementary changes, each under the condition that keeps the invariant.
module _ (s : System) (v : Inv s) where
  pub drop-Inv : (k : SessionKey) → Inv (record s { broker = set_waiter k none s.broker })
  unfolding set_waiter
  drop-Inv k = record {
    entry = λ j x h. ground (arith, v.entry j x);
    told = v.told;
    honest = v.honest;
    owed = v.owed;
    fresh = v.fresh;
  }

  pub set_current-Inv :
      (a : String) (to : Option SessionKey)
      → ((j : SessionKey) (w : WaiterEntry) → s.broker.waiters j ≡ some w → j.actor ≢ a)
      → Inv (record s { broker = set_current a to s.broker })
  unfolding set_current
  set_current-Inv a to elsewhere = record {
    entry = λ j x h. ground (arith, v.entry j x, elsewhere j x);
    told = v.told;
    honest = v.honest;
    owed = v.owed;
    fresh = v.fresh;
  }

  pub owe-Inv :
      (c : ℕ) (e : Error)
      → s.buffer c ≡ none
      → s.pending c ≡ []
      → s.accepted c ≡ none
      → c < s.next
      → ((j : SessionKey) (w : WaiterEntry) → s.broker.waiters j ≡ some w → w.result ≢ c)
      → Inv (record s { pending = owe (some c) e s.pending })
  unfolding owe
  owe-Inv c e empty unowed unaccepted allocated elsewhere = record {
    entry = λ j x h. ground (arith, v.entry j x, elsewhere j x);
    told = λ d n h. ground (arith, v.told d n);
    honest = v.honest;
    owed = λ d x rest h. ground (arith, v.owed d x rest);
    fresh = λ d h. ground (arith, v.fresh d);
  }

module _ (k : SessionKey) (w : WaiterEntry) (n : AttentionNotice) (s : System) (v : Inv s)
    (here : s.broker.waiters k ≡ some w) where
  unfoldable pub filled : System
  unfolding set_waiter set_at
  filled = record s {
    broker = set_waiter k none s.broker;
    buffer = set_at w.result (some (notice n)) s.buffer;
    accepted = set_at w.result (some n) s.accepted;
  }

  pub filled-Inv : Inv filled
  unfolding filled
  filled-Inv = record {
    entry = λ j x h. ground (arith, v.entry j x, v.entry k w here);
    told = λ c x h. ground (arith, v.told c x, v.entry k w here);
    honest = λ c x h. ground (arith, v.honest c x, v.entry k w here);
    owed = λ c e rest h. ground (arith, v.owed c e rest, v.entry k w here);
    fresh = λ c h. ground (arith, v.fresh c, v.entry k w here);
  }
