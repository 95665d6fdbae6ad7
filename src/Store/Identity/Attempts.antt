-- ===== src/Store/Identity/Attempts.antt =====
-- internal/store/sqlite/identity.go: that the attempts of `allocateActorTx` are enough.
use Prim.Native.String.{◌++◌ as append}
use holler.Prelude.{
  ℕ, zero, suc, ◌+◌, ◌<◌, ◌≡◌, refl, sym, ap, ◌∙◌, ◌⊎◌, String, Bool, true, false, some, [], ◌∷◌,
  ◌++◌, inl, inr, arith, Bool-cases, if◌then◌else◌,
}
use holler.Bus.Result.{ok}
use holler.Bus.Text.{validate_text_identifier}
use holler.Store.Db.{Db, Env, mint}
use holler.Store.Identity.{
  actor_name_reserved, try_allocate, allocate_actor, allocated_row, cut_base, last_ordinal,
}

zero-or-suc : (k : ℕ) → (k ≡ 0) ⊎ ((j : ℕ) × (k ≡ j + 1))
zero-or-suc Prim.Native.Nat.zero = inl refl
zero-or-suc (suc j) = inr (j, omega arith)

abbrev pub candidate_of : (String → String) → String → String → String
candidate_of digest base seed = append base (append "-" (digest seed))

module _ (digest : String → String) (env : Env) (base : String) (provisional : Bool)
    (ids : ℕ → String) (makes : (n : ℕ) → env.new_id "actor" n ≡ some (ids n))
    (valid : (n : ℕ)
      → validate_text_identifier "allocated_actor" (candidate_of digest base (ids n)) 128
        ≡ ok tt) where
  -- What an attempt that finds a free name answers.
  abbrev answer : ℕ → Db → String × ℕ × Db
  answer ordinal db = (
    candidate_of digest base (ids db.minted),
    ordinal,
    record db {
      minted = suc db.minted;
      allocations =
          db.allocations
          ++ (allocated_row env.now base provisional ordinal
                (candidate_of digest base (ids db.minted))
              ∷ []);
    },
  )

  try-step :
      (attempts ordinal : ℕ) (db : Db)
      → try_allocate digest (suc attempts) env base provisional ordinal db ≡ (
          if actor_name_reserved db (candidate_of digest base (ids db.minted))
          then try_allocate digest attempts env base provisional
              (ordinal + 1)
              (record db { minted = suc db.minted })
          else ok (answer ordinal db))
  unfolding try_allocate mint actor_name_reserved
  try-step attempts ordinal db = rw (mint, makes db.minted, valid db.minted) refl

  try-enough :
      (attempts k ordinal : ℕ) (db : Db)
      → k < attempts
      → actor_name_reserved db (candidate_of digest base (ids (db.minted + k))) ≡ false
      → (r : String × ℕ × Db) × (try_allocate digest attempts env base provisional ordinal db
          ≡ ok r)
  unfolding actor_name_reserved
  try-enough Prim.Native.Nat.zero k ordinal db few free = absurd (omega (arith, few))
  try-enough (suc attempts) k ordinal db few free =
      elim (Bool-cases (actor_name_reserved db (candidate_of digest base (ids db.minted)))) [
        | inr e ↦ (answer ordinal db, try-step attempts ordinal db ∙ rw e refl)
        | inl e ↦ elim (zero-or-suc k) [
          | inl none_left ↦
              let here : db.minted ≡ db.minted + k = omega (arith, none_left) in
              let clash : true ≡ false =
                sym e
                ∙ ap (λ n. actor_name_reserved db (candidate_of digest base (ids n))) here
                ∙ free in
              absurd (ground arith)
          | inr (j, later) ↦
              let there : suc db.minted + j ≡ db.minted + k = omega (arith, later) in
              let (r, runs) =
                try-enough attempts j (ordinal + 1) (record db { minted = suc db.minted })
                  (omega (arith, few, later))
                  (ap (λ n. actor_name_reserved db (candidate_of digest base (ids n))) there
                    ∙ free) in
              (r, try-step attempts ordinal db ∙ rw e runs)
        ]
      ]

-- Where `newID` makes the identifiers `ids`, and each makes a valid name, 256 attempts are enough as soon
-- as one of the first 256 identifiers makes a name that no table knows: the actor is allocated.
pub allocate_actor-enough :
    (digest : String → String) (env : Env) (base : String) (provisional : Bool) (ids : ℕ → String)
    (k : ℕ) (db : Db)
    → ((n : ℕ) → env.new_id "actor" n ≡ some (ids n))
    → ((n : ℕ)
        → validate_text_identifier "allocated_actor"
            (candidate_of digest (cut_base 121 base) (ids n))
            128
          ≡ ok tt)
    → k < 256
    → actor_name_reserved db (candidate_of digest (cut_base 121 base) (ids (db.minted + k))) ≡ false
    → (r : String × ℕ × Db) × (allocate_actor digest env base provisional db ≡ ok r)
unfolding allocate_actor
allocate_actor-enough digest env base provisional ids k db makes valid few free =
    try-enough digest env (cut_base 121 base) provisional ids makes valid 256 k
      (last_ordinal (cut_base 121 base) db.allocations + 1) db few free
