-- ===== src/Store/Transition/States.antt =====
-- internal/store/sqlite/store.go: which columns of a delivery go with its state.
use holler.Prelude.{
  ℕ, ◌≡◌, refl, Bool, true, false, ◌&&◌, ◌||◌, String, Option, none, some, arith, ◌≤◌, Option-cases,
  inl, inr,
}
use holler.Bus.Types.{DeliveryState, queued, claimed, acked, dead_lettered, revoked}
use holler.Store.Db.{DeliveryRow}
use holler.Store.Claiming.{is_claimable, leased}
use holler.Store.Finishing.{finished}
use holler.Store.Sending.{new_delivery}
use holler.Store.Transition.{is_acked, is_dead_lettered}

abbrev pub has_value {ℓ} : {A : Type ℓ} → Option A → Bool
has_value none = false
has_value (some a) = true

abbrev pub lacks {ℓ} : {A : Type ℓ} → Option A → Bool
lacks none = true
lacks (some a) = false

-- A delivery has a lease exactly while it is claimed, a terminal token when it is over, and the time
-- of its acknowledgement exactly when it was acknowledged. An operator that revokes a lease leaves its
-- token as a terminal one, too.
abbrev pub fits_state : DeliveryState → Option String → Option ℕ → Option String → Option ℕ → Bool
fits_state queued lease expires terminal at = lacks lease && lacks expires && lacks at
fits_state claimed lease expires terminal at = has_value lease && has_value expires && lacks at
fits_state acked lease expires terminal at =
    lacks lease && lacks expires && has_value terminal && has_value at
fits_state dead_lettered lease expires terminal at =
    lacks lease && lacks expires && has_value terminal && lacks at
fits_state revoked lease expires terminal at = false

abbrev pub FitsState : DeliveryRow → Type 0
FitsState d =
    fits_state d.state d.lease_token d.lease_expires_at d.terminal_lease_token d.acked_at ≡ true

pub new_delivery-FitsState : (m a : String) → FitsState (new_delivery m a)
unfolding new_delivery
new_delivery-FitsState m a = refl

pub leased-FitsState :
    (now expires : ℕ) (token : String) (d : DeliveryRow)
    → is_claimable now d ≡ true
    → FitsState d
    → FitsState (leased now token expires d)
unfolding leased
leased-FitsState now expires token d able fits = ground arith

pub finished-FitsState :
    (now : ℕ) (token : String) (ack final : Bool) (reason : String) (d : DeliveryRow)
    → FitsState (finished now token ack final reason d)
unfolding finished
finished-FitsState now token ack final reason d = ground arith

-- A delivery that fits its state, and that is not over, can be claimed from some time on.
pub fits-claimable :
    (d : DeliveryRow)
    → FitsState d
    → (is_acked d.state || is_dead_lettered d.state) ≡ false
    → (t : ℕ) × ((now : ℕ) → t ≤ now → is_claimable now d ≡ true)
fits-claimable d fits unfinished = elim (Option-cases d.lease_expires_at) [
  | inl e ↦ (0, λ now late. ground arith)
  | inr (t, e) ↦ (t, λ now late. ground (arith, e))
]
