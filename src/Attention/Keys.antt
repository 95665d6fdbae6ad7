-- ===== src/Attention/Keys.antt =====
-- The key of a session, and equality of keys.
use holler.Prelude.{ap, String}
use holler.Prelude.Tests.{same_text}

-- `sessionKey`
pub record SessionKey : Type 0 where
  pub actor : String
  pub run_id : String
  pub session_id : String

abbrev pub session_key : String → String → String → SessionKey
session_key actor run_id session_id = record {
  actor = actor;
  run_id = run_id;
  session_id = session_id;
}

unfoldable pub same_key : Discrete SessionKey
unfolding same_text
same_key a b = elim (same_text a.actor b.actor) [
  | no e ↦ no (λ p. e (ap (λ (k : SessionKey). k.actor) p))
  | yes p ↦ elim (same_text a.run_id b.run_id) [
    | no e ↦ no (λ q. e (ap (λ (k : SessionKey). k.run_id) q))
    | yes q ↦ elim (same_text a.session_id b.session_id) [
      | no e ↦ no (λ r. e (ap (λ (k : SessionKey). k.session_id) r))
      | yes r ↦ yes (λ i. record { actor = p i; run_id = q i; session_id = r i })
    ]
  ]
]
