-- ===== src/Store/Conditions/Exclusive.antt =====
-- internal/store/sqlite/conditions.go: one presenter at a time shows a condition to the operator.
use holler.Prelude.{
  ℕ, ◌+◌, ◌≡◌, ◌≢◌, ◌<◌, refl, sym, ◌∙◌, String, Bool, true, false, ◌&&◌, not, some, none, arith,
  ◌==◌, eqb,
}
use holler.Bus.Result.{ok}
use holler.Bus.Text.{trim_space}
use holler.Store.Tables.{exists_row}
use holler.Store.Tables.Keyed.{
  KeyedBy, exists-only, exists-taken, exists-count_one, count-none, exists-weaken, exists-kept,
}
use holler.Store.Db.{Db, Env, ConditionRow}
use holler.Store.Conditions.{
  is_condition, takes_presentation, presents, claim_condition_presentation, list_conditions,
  snooze_over, woken,
}
use holler.Store.Conditions.Lifecycle.{same_condition, is_condition-agree}
use holler.Store.Conditions.Presenting.{claim_inv}

-- What may happen while the presenter holds a presentation until that time: listings, claims of any
-- presentation by others, and whatever leaves the conditions alone.
pub data HoldStep (owner : String) (until : ℕ) (db db' : Db) : Type 0 where
  lists :
      (env : Env) (include_resolved : Bool) (limit : ℕ)
      → db' ≡ (list_conditions env include_resolved limit db).1
      → HoldStep owner until db db'
  presents_to :
      (env : Env) (kind subject : String) (generation : ℕ) (presenter : String) (lease : ℕ)
      (got : Bool)
      → env.now < until
      → trim_space presenter ≢ owner
      → claim_condition_presentation env kind subject generation presenter lease db ≡ ok (got, db')
      → HoldStep owner until db db'
  elsewhere : db'.conditions ≡ db.conditions → HoldStep owner until db db'

pub data HoldPath (owner : String) (until : ℕ) (db : Db) : Db → Type 0 where
  here : HoldPath owner until db db
  after :
      {db1 db2 : Db}
      → HoldPath owner until db db1
      → HoldStep owner until db1 db2
      → HoldPath owner until db db2

module _ (kind subject owner : String) (until : ℕ) where
  abbrev is_owned : ConditionRow → Bool
  is_owned c =
      (elim c.presentation_owner [ none ↦ false | some o ↦ o == owner ])
      && (elim c.presentation_lease_until [ none ↦ false | some t ↦ eqb t until ])

  -- A row of the condition that the presenter does not hold.
  abbrev is_loose : ConditionRow → Bool
  is_loose c = is_condition kind subject c && not (is_owned c)

  -- Who takes a presentation before that time takes none that another holds.
  owned-refused :
      (now : ℕ) (k s presenter : String) (generation : ℕ) (c : ConditionRow)
      → now < until
      → presenter ≢ owner
      → is_owned c ≡ true
      → takes_presentation now k s generation presenter c ≡ false
  owned-refused now k s presenter generation c early apart held = ground arith

  HoldPath-held :
      (db db' : Db)
      → HoldPath owner until db db'
      → exists_row is_loose db.conditions ≡ false
      → exists_row is_loose db'.conditions ≡ false
  unfolding list_conditions
  HoldPath-held db db' here held = held
  HoldPath-held db db' (after {db1} past (lists env all limit same)) held =
      let before = HoldPath-held db db1 past held in
      rw same (
        exists-kept (snooze_over env.now) is_loose is_loose woken db1.conditions (λ c hit out. out)
          before before)
  HoldPath-held db db'
        (after {db1} past (presents_to env k s generation presenter lease got early apart h)) held =
      let before = HoldPath-held db db1 past held in
      let test = takes_presentation env.now k s generation (trim_space presenter) in
      rw ((claim_inv env k s generation presenter lease db1 (got, db') h).1) (
        exists-kept test is_loose is_loose (presents (env.now + lease) (trim_space presenter))
          db1.conditions
          (λ c hit out.
            let refused =
              owned-refused env.now k s (trim_space presenter) generation c early apart in
            ground arith)
          before before)
  HoldPath-held db db' (after {db1} past (elsewhere same)) held =
      rw same (HoldPath-held db db1 past held)

-- After a presenter claimed the presentation of a condition, and whatever listings and claims by other
-- presenters before the lease's end follow, a claim of it by another presenter before that end, of any
-- generation, answers that it does not get it. An observation of the condition is not among them: it
-- clears the presenter. No two conditions have one kind and subject.
pub present-exclusive :
    (env env2 : Env) (kind subject : String) (generation again : ℕ) (presenter other : String)
    (lease lease2 : ℕ) (db db1 db2 : Db) (x : Bool × Db)
    → KeyedBy same_condition db.conditions
    → claim_condition_presentation env kind subject generation presenter lease db ≡ ok (true, db1)
    → HoldPath (trim_space presenter) (env.now + lease) db1 db2
    → env2.now < env.now + lease
    → trim_space other ≢ trim_space presenter
    → claim_condition_presentation env2 kind subject again other lease2 db2 ≡ ok x
    → x.0 ≡ false
present-exclusive env env2 kind subject generation again presenter other lease lease2 db db1 db2 x
      keyed h path early apart k =
    let who = trim_space presenter in
    let until = env.now + lease in
    let test = takes_presentation env.now kind subject generation who in
    let next = takes_presentation env2.now kind subject again (trim_space other) in
    let (hit, rows) = claim_inv env kind subject generation presenter lease db (true, db1) h in
    let (answer, _) = claim_inv env2 kind subject again other lease2 db2 x k in
    let only =
      exists-only same_condition (is_condition kind subject) test (is_condition-agree kind subject)
        (λ c e. ground arith) db.conditions keyed (exists-count_one test db.conditions (sym hit)) in
    let held : exists_row (is_loose kind subject who until) db1.conditions ≡ false = rw rows (
      exists-taken (is_condition kind subject) test (is_loose kind subject who until)
        (presents until who) (λ c e. ground arith) (λ c e. ground arith) db.conditions only) in
    let still = HoldPath-held kind subject who until db1 db2 path held in
    answer
    ∙ rw
        (count-none next db2.conditions (
          exists-weaken next (is_loose kind subject who until) db2.conditions
            (λ c e.
              let refused =
                owned-refused kind subject who until env2.now kind subject (trim_space other) again
                  c early apart in
              ground arith)
            still))
        refl
