-- ===== src/Bus/Result.antt =====
-- internal/bus/model.go and internal/bus/conversation.go: the sentinel errors, and fallible results.
-- An error wrapped by `fmt.Errorf("...: %w", err)` is the error that it wraps.
use holler.Prelude.{ℕ, ◌≡◌, ◌⊎◌, inl, inr, refl, ap, Bool, true, false, String, Option, none, some}

pub data Error : Type 0 where
  not_found no_message attention_waiter_busy session_ended : Error
  presence_superseded registration_expired idempotency_conflict lease_token_mismatch : Error
  lease_expired delivery_terminal actor_live adoption_conflict adoption_busy : Error
  actor_not_live run_not_live actor_adopted alias_conflict alias_not_found : Error
  alias_tombstoned alias_target_unknown actor_archived continuity_conflict : Error
  channel_denied channel_capability context_done : Error
  validation : String → String → Error
  -- the validation error with the problem "exceeds %d bytes"
  too_long : String → ℕ → Error
  -- HostAttentionUnavailableError, with its reason code
  host_attention_unavailable : String → Error
  failure : String → Error

pub data Result {ℓ} (A : Type ℓ) : Type ℓ where
  err : Error → Result A
  ok : A → Result A

-- An early `return err` under a condition.
abbrev pub reject : Bool → Error → Result (Unit {0})
reject true e = err e
reject false e = ok tt

abbrev pub or_fail {ℓ} : {A : Type ℓ} → Option A → Error → Result A
or_fail none e = err e
or_fail (some a) e = ok a

-- `if err != nil { return err }` between two calls.
infixl 5 ◌>>=◌
abbrev pub ◌>>=◌ {ℓ κ} : {B : Type κ} {A : Type ℓ} → Result A → (A → Result B) → Result B
err e >>= next = err e
ok result >>= next = next result

infixl 5 ◌>>◌
abbrev pub ◌>>◌ {ℓ} : {B : Type ℓ} → Result (Unit {0}) → Result B → Result B
check >> rest = check >>= λ passed. rest

-- What a sequence of checks that succeeded says of each of them.
pub >>=-eq-ok {ℓ κ} :
    {B : Type κ} {A : Type ℓ} {b : B} (first : Result A) (next : A → Result B)
    → (first >>= next) ≡ ok b
    → (result : A) × (first ≡ ok result) × (next result ≡ ok b)
>>=-eq-ok (err e) next went = cc
>>=-eq-ok (ok result) next went = (result, refl, went)

pub reject-eq-ok : (b : Bool) (e : Error) {u : Unit {0}} → reject b e ≡ ok u → b ≡ false
reject-eq-ok true e h = cc
reject-eq-ok false e h = refl

abbrev ok_value {ℓ} : {A : Type ℓ} → A → Result A → A
ok_value d (ok a) = a
ok_value d (err e) = d

pub ok-injective {ℓ} : {A : Type ℓ} {a b : A} → ok a ≡ ok b → a ≡ b
ok-injective {a = a} h = ap (ok_value a) h

pub or_fail-eq-ok {ℓ} :
    {A : Type ℓ} (o : Option A) (e : Error) {a : A} → or_fail o e ≡ ok a → o ≡ some a
or_fail-eq-ok none e h = cc
or_fail-eq-ok (some b) e h = ap some (ok-injective h)

pub Result-cases {ℓ} :
    {A : Type ℓ} (r : Result A) → ((e : Error) × (r ≡ err e)) ⊎ ((a : A) × (r ≡ ok a))
Result-cases (err e) = inl (e, refl)
Result-cases (ok a) = inr (a, refl)
