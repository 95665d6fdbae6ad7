-- ===== src/Store/Conditions/Presenting.antt =====
-- internal/store/sqlite/conditions.go: that a condition which was acknowledged is not shown.
use holler.Prelude.{
  ℕ, ◌+◌, ◌≡◌, inl, inr, refl, sym, ap, ◌∙◌, String, Bool, true, false, ◌&&◌, ◌||◌, not, some, none,
  List, [], ◌∷◌, arith, ◌==◌, eqb, ltb, ◌*◌, Bool-cases, Option-cases,
}
use mathlib.Core.Bool.{false≢true}
use holler.Bus.Result.{ok, >>=-eq-ok, ok-injective, reject}
use holler.Bus.Text.{trim_space}
use holler.Bus.Types.{ConditionObservation}
use holler.Store.Tables.{find_row, exists_row, update_rows, count_rows}
use holler.Store.Tables.Rows.{find-holds, exists-append}
use holler.Store.Tables.Keyed.{
  KeyedBy, exists-update, exists-only, exists-taken, exists-count, count-none, exists-weaken,
  find-none, find-fails, find-exists,
}
use holler.Store.Db.{Db, Env, ConditionRow, active_acknowledged}
use holler.Store.Outbox.{second}
use holler.Store.Conditions.{
  is_condition, is_open_generation, is_acknowledged, takes_presentation, presents, observed,
  observed_state, claim_condition_presentation, acknowledge_condition, presented, observe_condition,
  observe_rows, list_conditions, snooze_over, woken, first_condition, normalize_observation,
  get_condition,
}
use holler.Store.Conditions.Lifecycle.{same_condition, change_inv, is_condition-agree}

-- What a claim of the presentation answers and leaves.
pub claim_inv :
    (env : Env) (kind subject : String) (generation : ℕ) (presenter : String) (lease : ℕ) (db : Db)
    (x : Bool × Db)
    → claim_condition_presentation env kind subject generation presenter lease db ≡ ok x
    → (x.0
        ≡ eqb
            (count_rows
              (takes_presentation env.now kind subject generation (trim_space presenter))
              db.conditions)
            1)
      × (x.1.conditions
          ≡ update_rows
              (takes_presentation env.now kind subject generation (trim_space presenter))
              (presents (env.now + lease) (trim_space presenter))
              db.conditions)
unfolding claim_condition_presentation
claim_inv env kind subject generation presenter lease db x h =
    let (_, _, h1) =
      >>=-eq-ok
        (reject (kind == "" || subject == "" || eqb generation 0 || trim_space presenter == "") _) _
        h in
    let (_, _, h2) = >>=-eq-ok (reject (eqb lease 0 || ltb (300 * second) lease) _) _ h1 in
    let same = sym (ok-injective h2) in (ap (λ p. p.0) same, ap (λ p. p.1.conditions) same)

-- What may happen to a condition that its operator acknowledged, until it is resolved or snoozed.
pub data QuietStep (db db' : Db) : Type 0 where
  observes :
      (json_valid : String → Bool) (env : Env) (o : ConditionObservation) (c : ConditionRow)
      → observe_condition json_valid env o db ≡ ok (c, db')
      → QuietStep db db'
  lists :
      (env : Env) (include_resolved : Bool) (limit : ℕ)
      → (list_conditions env include_resolved limit db).1 ≡ db'
      → QuietStep db db'
  presents_to :
      (env : Env) (kind subject : String) (generation : ℕ) (presenter : String) (lease : ℕ)
      (x : Bool × Db)
      → claim_condition_presentation env kind subject generation presenter lease db ≡ ok x
      → x.1 ≡ db'
      → QuietStep db db'

pub data QuietPath (db : Db) : Db → Type 0 where
  here : QuietPath db db
  after : {db1 db2 : Db} → QuietPath db db1 → QuietStep db1 db2 → QuietPath db db2

module _ (kind subject : String) where
  -- A row of the condition that is not acknowledged.
  abbrev is_loud : ConditionRow → Bool
  is_loud c = is_condition kind subject c && not (is_acknowledged c.state)

  record IsQuiet (cs : List ConditionRow) : Type 0 where
    there : exists_row (is_condition kind subject) cs ≡ true
    quiet : exists_row is_loud cs ≡ false

  update-quiet :
      (test : ConditionRow → Bool) (change : ConditionRow → ConditionRow) (cs : List ConditionRow)
      → ((c : ConditionRow) → is_condition kind subject (change c) ≡ is_condition kind subject c)
      → ((c : ConditionRow)
          → is_condition kind subject c ≡ true
          → test c ≡ true
          → is_acknowledged c.state ≡ true
          → is_acknowledged (change c).state ≡ true)
      → exists_row is_loud cs ≡ false
      → exists_row is_loud (update_rows test change cs) ≡ false
  update-quiet test change [] same keep h = refl
  update-quiet test change (c ∷ cs) same keep h = elim (Bool-cases (is_condition kind subject c)) [
    | inl e ↦ ground (arith, same c, keep c e, update-quiet test change cs same keep)
    | inr e ↦ ground (arith, same c, update-quiet test change cs same keep)
  ]

  -- An update that keeps keys, and what is acknowledged, keeps the condition quiet.
  update-IsQuiet :
      (test : ConditionRow → Bool) (change : ConditionRow → ConditionRow) (cs : List ConditionRow)
      → ((c : ConditionRow) → is_condition kind subject (change c) ≡ is_condition kind subject c)
      → ((c : ConditionRow)
          → is_condition kind subject c ≡ true
          → test c ≡ true
          → is_acknowledged c.state ≡ true
          → is_acknowledged (change c).state ≡ true)
      → IsQuiet cs
      → IsQuiet (update_rows test change cs)
  update-IsQuiet test change cs same keep q = record {
    there = exists-update (is_condition kind subject) test change cs (λ c _. same c) ∙ q.there;
    quiet = update-quiet test change cs same keep q.quiet;
  }

  observe-IsQuiet :
      (now : ℕ) (o : ConditionObservation) (cs : List ConditionRow)
      → IsQuiet cs
      → IsQuiet (observe_rows now o cs)
  unfolding observe_rows observed observed_state
  observe-IsQuiet now o cs q = elim (Option-cases (find_row (is_condition o.kind o.subject) cs)) [
    | inl f ↦
        let none_there = find-none (is_condition o.kind o.subject) cs f in
        let other : is_condition kind subject (first_condition now o) ≡ false =
          elim (Bool-cases (is_condition kind subject (first_condition now o))) [
            | inr e ↦ e
            | inl e ↦ absurd (
                false≢true (
                  sym (
                    exists-weaken (is_condition kind subject) (is_condition o.kind o.subject) cs
                      (λ c g. ground arith) none_there)
                  ∙ q.there))
          ] in
        rw (observe_rows, f)
          (record {
            there = ground (
              arith,
              exists-append (is_condition kind subject) cs (first_condition now o ∷ []),
              q.there,
            );
            quiet = ground (arith, exists-append is_loud cs (first_condition now o ∷ []), q.quiet);
          })
    | inr (c, f) ↦
        rw (observe_rows, f)
          (update-IsQuiet (is_condition o.kind o.subject) _ cs (λ d. refl)
            (λ d mine hit ack.
              let same : is_condition kind subject c ≡ true =
                ground (arith, find-holds (is_condition o.kind o.subject) cs c f) in
              ground (arith, find-fails is_loud (is_condition o.kind o.subject) cs c f q.quiet))
            q)
  ]

  QuietStep-IsQuiet :
      (db db' : Db) → QuietStep db db' → IsQuiet db.conditions → IsQuiet db'.conditions
  unfolding observe_condition list_conditions
  QuietStep-IsQuiet db db' (observes json_valid env o c h) q =
      let (p, _, h1) = >>=-eq-ok (normalize_observation json_valid o) _ h in
      let (_, _, h2) = >>=-eq-ok (get_condition p.kind p.subject _) _ h1 in
      rw (ap (λ x. x.1.conditions) (sym (ok-injective h2)))
        (observe-IsQuiet env.now p db.conditions q)
  QuietStep-IsQuiet db db' (lists env all limit h) q = rw (ap (λ d. d.conditions) (sym h)) (
      update-IsQuiet (snooze_over env.now) woken db.conditions (λ c. refl)
        (λ c _ hit ack. ground arith) q)
  QuietStep-IsQuiet db db' (presents_to env k s generation presenter lease x h e) q =
      rw (ap (λ d. d.conditions) (sym e) ∙ (claim_inv env k s generation presenter lease db x h).1)
        (update-IsQuiet (takes_presentation env.now k s generation (trim_space presenter)) _
          db.conditions (λ c. refl) (λ c _ _ ack. ack) q)

  QuietPath-IsQuiet :
      (db db' : Db) → QuietPath db db' → IsQuiet db.conditions → IsQuiet db'.conditions
  QuietPath-IsQuiet db db' here q = q
  QuietPath-IsQuiet db db' (after {db1} past now) q =
      QuietStep-IsQuiet db1 db' now (QuietPath-IsQuiet db db1 past q)

-- After an operator acknowledged a condition, no observation of it or of another, no listing and no
-- claim of a presentation has it shown once more: a claim of its presentation, of any generation and by
-- any presenter, answers that it does not get it. No two conditions have one kind and subject.
pub acknowledged-quiet :
    (env env2 : Env) (kind subject : String) (generation again : ℕ) (presenter : String) (lease : ℕ)
    (db db1 db' : Db) (c : ConditionRow) (x : Bool × Db)
    → KeyedBy same_condition db.conditions
    → acknowledge_condition env kind subject generation db ≡ ok (c, db1)
    → QuietPath db1 db'
    → claim_condition_presentation env2
        (trim_space kind)
        (trim_space subject)
        again
        presenter
        lease
        db'
      ≡ ok x
    → x.0 ≡ false
unfolding acknowledge_condition presented
acknowledged-quiet env env2 kind subject generation again presenter lease db db1 db' c x keyed h
      path k =
    let name = trim_space kind in
    let about = trim_space subject in
    let test = is_open_generation name about generation in
    let (rows, found, some_row) =
      change_inv kind subject generation active_acknowledged none (some env.now) db c db1 h in
    let before : IsQuiet name about db1.conditions = record {
      there =
          find-exists _ (is_condition name about) db1.conditions c found
            (find-holds (is_condition name about) db1.conditions c found);
      quiet = rw rows (
          exists-taken (is_condition name about) test (is_loud name about) _ (λ d e. ground arith)
            (λ d e. ground arith) db.conditions
            (exists-only same_condition (is_condition name about) test
              (is_condition-agree name about) (λ d e. ground arith) db.conditions keyed
              (exists-count test db.conditions some_row)));
    } in
    let loud = (QuietPath-IsQuiet name about db1 db' path before).quiet in
    let (answer, _) = claim_inv env2 name about again presenter lease db' x k in
    answer
    ∙ rw
        (count-none _ db'.conditions (
          exists-weaken (takes_presentation env2.now name about again (trim_space presenter))
            (is_loud name about) db'.conditions (λ d e. ground arith) loud))
        refl
