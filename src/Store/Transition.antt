-- ===== src/Store/Transition.antt =====
-- internal/store/sqlite/delivery_transition.go
pub mod Outcomes
pub mod States
use holler.Prelude.{
  Bool, true, false, String, Option, none, some, ◌&&◌, ◌||◌, not, ◌==◌, if◌then◌else◌,
}
use holler.Bus.Result.{Result, ok, err, lease_token_mismatch, delivery_terminal}
use holler.Bus.Types.{DeliveryState, queued, claimed, acked, dead_lettered}

-- `token.Valid && token.String == value`
abbrev pub holds_token : Option String → String → Bool
holds_token none value = false
holds_token (some t) value = t == value

abbrev pub is_queued : DeliveryState → Bool
is_queued queued = true
is_queued _ = false

abbrev pub is_claimed : DeliveryState → Bool
is_claimed claimed = true
is_claimed _ = false

abbrev pub is_acked : DeliveryState → Bool
is_acked acked = true
is_acked _ = false

abbrev pub is_dead_lettered : DeliveryState → Bool
is_dead_lettered dead_lettered = true
is_dead_lettered _ = false

-- `ok true` says that the transition was made before, `ok false` that it may be made.
unfoldable pub finish_delivery_state :
    DeliveryState → Option String → Option String → String → Bool → Bool → Result Bool
finish_delivery_state state stored terminal token ack final =
    if is_acked state && ack && holds_token terminal token
    then ok true
    else if is_dead_lettered state && final && not ack && holds_token terminal token
    then ok true
    else if holds_token terminal token && is_queued state
    then err delivery_terminal
    else if is_acked state || is_dead_lettered state
    then err delivery_terminal
    else if not (is_claimed state) || not (holds_token stored token)
    then err lease_token_mismatch
    else ok false
