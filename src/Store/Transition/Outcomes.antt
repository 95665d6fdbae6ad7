-- ===== src/Store/Transition/Outcomes.antt =====
-- internal/store/sqlite/delivery_transition.go: exactly when a transition may be made, was made
-- before, or is refused.
use holler.Prelude.{◌≡◌, ◌↔◌, ◌⊎◌, Bool, true, false, String, Option, some, arith}
use holler.Bus.Result.{ok}
use holler.Bus.Types.{DeliveryState, claimed, acked, dead_lettered}
use holler.Store.Transition.{finish_delivery_state}

module _ (state : DeliveryState) (stored terminal : Option String) (token : String)
    (ack final : Bool) where
  -- A transition may be made exactly when the delivery is claimed under the caller's token.
  pub finish-allowed :
      (finish_delivery_state state stored terminal token ack final ≡ ok false)
      ↔ ((state ≡ claimed) × (stored ≡ some token))
  unfolding finish_delivery_state
  finish-allowed = (λ h. ground arith, λ h. ground arith)

  -- A transition counts as made before exactly when the same token acknowledged the delivery and
  -- this is an acknowledgement, or dead-lettered it and this is a final refusal.
  pub finish-repeated : (finish_delivery_state state stored terminal token ack final ≡ ok true) ↔ (
      (terminal ≡ some token)
      × (((state ≡ acked) × (ack ≡ true))
          ⊎ ((state ≡ dead_lettered) × (ack ≡ false) × (final ≡ true))))
  unfolding finish_delivery_state
  finish-repeated = (λ h. ground arith, λ h. ground arith)
