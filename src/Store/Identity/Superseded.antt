-- ===== src/Store/Identity/Superseded.antt =====
-- internal/store/sqlite/identity.go: that no other session keeps its presence.
use holler.Prelude.{
  ℕ, ◌≡◌, refl, ap, ◌∙◌, String, Bool, true, false, ◌&&◌, ◌||◌, List, [], ◌∷◌, map, inl, inr, arith,
  Bool-cases,
}
use holler.Bus.Types.{Registration}
use holler.Store.Tables.{exists_row, select_rows, update_rows, insert_row, order_rows}
use holler.Store.Tables.Rows.{AllRows}
use holler.Store.Tables.Queries.{AllRows-map, Occurs, AllRows-Occurs}
use holler.Store.Db.{RegistrationRow}
use holler.Store.HostAttention.{is_session}
use holler.Store.Sessions.{read_registration, live_le}
use holler.Store.Identity.Presences.{
  is_other, live_other_presences, superseded_at, has_presence, supersede_presences,
}

module _ {ℓ} {A : Type ℓ} (test : A → Bool) where
  exists-insert :
      (le : A → A → Bool) (a : A) (xs : List A)
      → exists_row test (insert_row le a xs) ≡ (test a || exists_row test xs)
  exists-insert le a [] = refl
  exists-insert le a (x ∷ xs) = elim (Bool-cases (le a x)) [
    | inl e ↦ rw e refl
    | inr e ↦ rw (e, exists-insert le a xs) (ground arith)
  ]

  exists-order :
      (le : A → A → Bool) (xs : List A) → exists_row test (order_rows le xs) ≡ exists_row test xs
  exists-order le [] = refl
  exists-order le (x ∷ xs) =
      exists-insert le x (order_rows le xs) ∙ ap (λ b. test x || b) (exists-order le xs)

  exists-select :
      (kept : A → Bool) (xs : List A)
      → exists_row test (select_rows kept xs) ≡ exists_row (λ a. kept a && test a) xs
  exists-select kept [] = refl
  exists-select kept (x ∷ xs) = elim (Bool-cases (kept x)) [
    | inl e ↦ rw (e, exists-select kept xs) refl
    | inr e ↦ rw (e, exists-select kept xs) refl
  ]

exists-map :
    {A B : Type 0} (test : B → Bool) (f : A → B) (xs : List A)
    → exists_row test (map f xs) ≡ exists_row (λ a. test (f a)) xs
exists-map test f [] = refl
exists-map test f (x ∷ xs) = ap (λ b. test (f x) || b) (exists-map test f xs)

-- The session is another's only if it is among those to be superseded.
abbrev Covered : String → String → ℕ → List Registration → RegistrationRow → Type 0
Covered actor run_id now ps r =
    is_other actor run_id now r ≡ true
    → exists_row (λ p. is_session p.actor p.run_id p.session_id r) ps ≡ true

update-Covered :
    (actor run_id : String) (now : ℕ) (p : Registration) (ps : List Registration)
    (rs : List RegistrationRow)
    → AllRows (Covered actor run_id now (p ∷ ps)) rs
    → AllRows (Covered actor run_id now ps) (update_rows (has_presence p) (superseded_at now) rs)
update-Covered actor run_id now p ps [] all = tt
update-Covered actor run_id now p ps (r ∷ rs) all = elim (Bool-cases (has_presence p r)) [
  | inl e ↦ rw e (λ other. absurd (ground arith), update-Covered actor run_id now p ps rs all.1)
  | inr e ↦ rw e (
    λ other. let among = all.0 other in ground arith,
    update-Covered actor run_id now p ps rs all.1,
  )
]

-- Nothing is left when every other session is covered.
none-other :
    (actor run_id : String) (now : ℕ) (rs : List RegistrationRow)
    → AllRows (Covered actor run_id now []) rs
    → exists_row (is_other actor run_id now) rs ≡ false
none-other actor run_id now [] all = refl
none-other actor run_id now (r ∷ rs) all = elim (Bool-cases (is_other actor run_id now r)) [
  | inl e ↦ let never = all.0 e in absurd (ground arith)
  | inr e ↦ rw (e, none-other actor run_id now rs all.1) refl
]

supersede-none :
    (actor run_id : String) (now : ℕ) (ps : List Registration) (rs : List RegistrationRow)
    → AllRows (Covered actor run_id now ps) rs
    → exists_row (is_other actor run_id now) (supersede_presences now ps rs) ≡ false
unfolding supersede_presences
supersede-none actor run_id now [] rs all = none-other actor run_id now rs all
supersede-none actor run_id now (p ∷ ps) rs all =
    supersede-none actor run_id now ps (update_rows (has_presence p) (superseded_at now) rs)
      (update-Covered actor run_id now p ps rs all)

-- After the live presences of an actor's other runs are superseded, no session of another run of the
-- actor is live.
pub supersede_presences-alone :
    (actor run_id : String) (now : ℕ) (rs : List RegistrationRow)
    → exists_row
        (is_other actor run_id now)
        (supersede_presences now (live_other_presences actor run_id now rs) rs)
      ≡ false
unfolding live_other_presences
supersede_presences-alone actor run_id now rs =
    supersede-none actor run_id now
      (map read_registration (order_rows live_le (select_rows (is_other actor run_id now) rs))) rs
      (AllRows-map (Occurs rs) _ rs
        (λ r occurs other.
          let named = λ (p : RegistrationRow). is_session p.actor p.run_id p.session_id r in
          let others = select_rows (is_other actor run_id now) rs in
          exists-map (λ p. is_session p.actor p.run_id p.session_id r) read_registration
            (order_rows live_le others)
          ∙ exists-order named live_le others
          ∙ exists-select named (is_other actor run_id now) rs
          ∙ occurs (λ q. is_other actor run_id now q && named q) (ground arith))
        (AllRows-Occurs rs))
