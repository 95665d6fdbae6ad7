-- ===== src/Store/Conditions/Lifecycle.antt =====
-- internal/store/sqlite/conditions.go: conditions over any sequence of operations.
use holler.Prelude.{
  ℕ, ◌≡◌, ◌≤◌, inl, inr, refl, sym, ap, ◌∙◌, String, Bool, true, false, ◌||◌, Option, some, none,
  List, [], ◌∷◌, arith, ◌==◌, eqb, ltb, leb, ◌*◌, Bool-cases, Option-cases,
}
use holler.Bus.Result.{ok, >>=-eq-ok, ok-injective, reject, not_found, reject-eq-ok, or_fail-eq-ok}
use holler.Bus.Text.{trim_space}
use holler.Bus.Types.{ConditionObservation}
use holler.Store.Tables.{find_row, update_rows, count_rows}
use holler.Store.Tables.Rows.{AllRows, AllRows-append, AllRows-update}
use holler.Store.Claiming.{has_lapsed}
use holler.Store.Tables.Keyed.{KeyedBy, update-KeyedBy, append-KeyedBy, update-found, find-none}
use holler.Store.Db.{
  unix_nano, Db, Env, ConditionRow, ConditionState, active_visible, active_snoozed,
  active_acknowledged, resolved,
}
use holler.Store.Outbox.{second}
use holler.Store.Conditions.{
  is_condition, is_visible, is_snoozed, is_acknowledged, is_resolved, observe_condition,
  observe_rows, observed, observed_state, first_condition, resolve_condition,
  resolve_condition_if_reason, resolved_row, list_conditions, woken, snooze_over, presented,
  change_condition_presentation, acknowledge_condition, snooze_condition,
  claim_condition_presentation, takes_presentation, normalize_observation, get_condition,
  is_open_generation, keep_if,
}

-- The columns of a condition go with its state: it is snoozed until a time, or acknowledged at one, or
-- resolved at one, and a presenter has the lease of a visible condition alone.
abbrev pub FitsCondition : ConditionState → Option ℕ → Option ℕ → Option ℕ → Option String → Type 0
FitsCondition active_visible snoozed acknowledged resolved_at owner =
    (snoozed ≡ none) × (acknowledged ≡ none) × (resolved_at ≡ none)
FitsCondition active_snoozed snoozed acknowledged resolved_at owner =
    ((t : ℕ) × (snoozed ≡ some t)) × (acknowledged ≡ none) × (resolved_at ≡ none) × (owner ≡ none)
FitsCondition active_acknowledged snoozed acknowledged resolved_at owner =
    (snoozed ≡ none) × ((t : ℕ) × (acknowledged ≡ some t)) × (resolved_at ≡ none) × (owner ≡ none)
FitsCondition resolved snoozed acknowledged resolved_at owner =
    (snoozed ≡ none) × ((t : ℕ) × (resolved_at ≡ some t)) × (owner ≡ none)

pub record IsCondition (c : ConditionRow) : Type 0 where
  pub fits :
      FitsCondition c.state c.snoozed_until c.acknowledged_at c.resolved_at c.presentation_owner
  pub counted : 1 ≤ c.generation

abbrev pub same_condition : ConditionRow → ConditionRow → Bool
same_condition a b = is_condition a.kind a.subject b

pub record ConditionsSound (cs : List ConditionRow) : Type 0 where
  pub keyed : KeyedBy same_condition cs
  pub rows : AllRows IsCondition cs

pub data ConditionStep (db db' : Db) : Type 0 where
  observes :
      (json_valid : String → Bool) (env : Env) (o : ConditionObservation) (c : ConditionRow)
      → observe_condition json_valid env o db ≡ ok (c, db')
      → ConditionStep db db'
  resolves :
      (env : Env) (kind subject : String)
      → resolve_condition env kind subject db ≡ ok db'
      → ConditionStep db db'
  resolves_reason :
      (env : Env) (kind subject reason : String)
      → resolve_condition_if_reason env kind subject reason db ≡ ok db'
      → ConditionStep db db'
  lists :
      (env : Env) (include_resolved : Bool) (limit : ℕ)
      → (list_conditions env include_resolved limit db).1 ≡ db'
      → ConditionStep db db'
  acknowledges :
      (env : Env) (kind subject : String) (generation : ℕ) (c : ConditionRow)
      → acknowledge_condition env kind subject generation db ≡ ok (c, db')
      → ConditionStep db db'
  snoozes :
      (env : Env) (kind subject : String) (generation until : ℕ) (c : ConditionRow)
      → snooze_condition env kind subject generation until db ≡ ok (c, db')
      → ConditionStep db db'
  presents_to :
      (env : Env) (kind subject : String) (generation : ℕ) (presenter : String) (lease : ℕ)
      (taken : Bool)
      → claim_condition_presentation env kind subject generation presenter lease db
        ≡ ok (taken, db')
      → ConditionStep db db'

-- An update that keeps the key and the row's form keeps the table sound.
update-ConditionsSound :
    (test : ConditionRow → Bool) (change : ConditionRow → ConditionRow) (cs : List ConditionRow)
    → ((c : ConditionRow) → (change c).kind ≡ c.kind)
    → ((c : ConditionRow) → (change c).subject ≡ c.subject)
    → ((c : ConditionRow) → test c ≡ true → IsCondition c → IsCondition (change c))
    → ConditionsSound cs
    → ConditionsSound (update_rows test change cs)
update-ConditionsSound test change cs kind subject keep s = record {
  keyed =
      update-KeyedBy same_condition test change (λ x y. rw (kind x, subject x) refl)
        (λ x y. rw (kind y, subject y) refl) cs s.keyed;
  rows = AllRows-update IsCondition test change cs keep s.rows;
}

-- A condition that is observed again has the form of its new state.
observed-FitsCondition :
    (now generation : ℕ) (state : ConditionState) (snoozed acknowledged resolved_at : Option ℕ)
    (owner : Option String)
    → FitsCondition state snoozed acknowledged resolved_at owner
    → FitsCondition
        (observed_state now generation state snoozed).1
        (keep_if (is_snoozed (observed_state now generation state snoozed).1) snoozed)
        (keep_if (is_acknowledged (observed_state now generation state snoozed).1) acknowledged)
        none
        none
unfolding observed_state
observed-FitsCondition now generation active_visible sn ack res own f = (refl, refl, refl)
observed-FitsCondition now generation active_snoozed sn ack res own f =
    elim (Bool-cases (has_lapsed now sn)) [
      | inl e ↦ rw e (refl, refl, refl)
      | inr e ↦ rw e (f.0, refl, refl, refl)
    ]
observed-FitsCondition now generation active_acknowledged sn ack res own f = (refl, f.1, refl, refl)
observed-FitsCondition now generation resolved sn ack res own f = (refl, refl, refl)

-- The generation never goes back.
pub observed_state-grows :
    (now generation : ℕ) (state : ConditionState) (snoozed : Option ℕ)
    → generation ≤ (observed_state now generation state snoozed).0
unfolding observed_state
observed_state-grows now generation state snoozed = ground arith

-- What an observation makes of the row of its key.
abbrev pub again : ℕ → ConditionObservation → ConditionRow → ConditionRow
again now o c = observed now (observed_state now c.generation c.state c.snoozed_until) o c

again-IsCondition :
    (now : ℕ) (o : ConditionObservation) (c : ConditionRow)
    → IsCondition c
    → IsCondition (again now o c)
unfolding observed
again-IsCondition now o c i = record {
  fits =
      observed-FitsCondition now c.generation c.state c.snoozed_until c.acknowledged_at
        c.resolved_at c.presentation_owner i.fits;
  counted = omega (arith, i.counted, observed_state-grows now c.generation c.state c.snoozed_until);
}

pub is_condition-agree :
    (kind subject : String) (x y : ConditionRow)
    → is_condition kind subject x ≡ true
    → is_condition kind subject y ≡ true
    → same_condition x y ≡ true
is_condition-agree kind subject x y h k = ground arith

-- The rows after an observation: of each row of its key, what `again` makes of it.
pub observe_rows-again :
    (now : ℕ) (o : ConditionObservation) (cs : List ConditionRow) (c : ConditionRow)
    → KeyedBy same_condition cs
    → find_row (is_condition o.kind o.subject) cs ≡ some c
    → observe_rows now o cs ≡ update_rows (is_condition o.kind o.subject) (again now o) cs
unfolding observe_rows
observe_rows-again now o cs c k f =
    rw (observe_rows, f)
      (update-found same_condition (is_condition o.kind o.subject) _ (again now o)
        (is_condition-agree o.kind o.subject) cs c k f refl)

observe_rows-ConditionsSound :
    (now : ℕ) (o : ConditionObservation) (cs : List ConditionRow)
    → ConditionsSound cs
    → ConditionsSound (observe_rows now o cs)
unfolding observe_rows observed
observe_rows-ConditionsSound now o cs s =
    elim (Option-cases (find_row (is_condition o.kind o.subject) cs)) [
      | inr (c, f) ↦ rw (observe_rows-again now o cs c s.keyed f) (
          update-ConditionsSound (is_condition o.kind o.subject) (again now o) cs (λ d. refl)
            (λ d. refl) (λ d _ i. again-IsCondition now o d i) s)
      | inl f ↦
          rw (observe_rows, f)
            (record {
              keyed =
                  append-KeyedBy same_condition cs (first_condition now o) (λ x. ground arith)
                    s.keyed (find-none _ cs f);
              rows =
                  AllRows-append IsCondition cs (first_condition now o ∷ []) s.rows
                    (record { fits = (refl, refl, refl); counted = omega arith }, tt);
            })
    ]

resolved_row-IsCondition :
    (now : ℕ) (c : ConditionRow) → IsCondition c → IsCondition (resolved_row now c)
unfolding resolved_row
resolved_row-IsCondition now c i = record { fits = (refl, (now, refl), refl); counted = i.counted }

woken-FitsCondition :
    (state : ConditionState) (snoozed acknowledged resolved_at : Option ℕ) (owner : Option String)
    → is_snoozed state ≡ true
    → FitsCondition state snoozed acknowledged resolved_at owner
    → FitsCondition active_visible none acknowledged resolved_at owner
woken-FitsCondition active_visible sn ack res own h f = cc
woken-FitsCondition active_snoozed sn ack res own h f = (refl, f.1, f.2)
woken-FitsCondition active_acknowledged sn ack res own h f = cc
woken-FitsCondition resolved sn ack res own h f = cc

-- What is not resolved has no time of its resolution.
unresolved :
    (state : ConditionState) (snoozed acknowledged resolved_at : Option ℕ) (owner : Option String)
    → is_resolved state ≡ false
    → FitsCondition state snoozed acknowledged resolved_at owner
    → resolved_at ≡ none
unresolved active_visible sn ack res own h f = f.2
unresolved active_snoozed sn ack res own h f = f.2
unresolved active_acknowledged sn ack res own h f = f.2
unresolved resolved sn ack res own h f = cc

presents-FitsCondition :
    (state : ConditionState) (snoozed acknowledged resolved_at : Option ℕ)
    (owner new : Option String)
    → is_visible state ≡ true
    → FitsCondition state snoozed acknowledged resolved_at owner
    → FitsCondition state snoozed acknowledged resolved_at new
presents-FitsCondition active_visible sn ack res own new h f = f
presents-FitsCondition active_snoozed sn ack res own new h f = cc
presents-FitsCondition active_acknowledged sn ack res own new h f = cc
presents-FitsCondition resolved sn ack res own new h f = cc

-- The rows after a change of the presentation.
pub change_inv :
    (kind subject : String) (generation : ℕ) (state : ConditionState) (snooze ack : Option ℕ)
    (db : Db) (c : ConditionRow) (db' : Db)
    → change_condition_presentation kind subject generation state snooze ack db ≡ ok (c, db')
    → (db'.conditions
        ≡ update_rows
            (is_open_generation (trim_space kind) (trim_space subject) generation)
            (presented state snooze ack)
            db.conditions)
      × (find_row (is_condition (trim_space kind) (trim_space subject)) db'.conditions ≡ some c)
      × (eqb
            (count_rows
              (is_open_generation (trim_space kind) (trim_space subject) generation)
              db.conditions)
            0
          ≡ false)
unfolding change_condition_presentation
change_inv kind subject generation state snooze ack db c db' h =
    let test = is_open_generation (trim_space kind) (trim_space subject) generation in
    let (_, _, h1) =
      >>=-eq-ok (reject (trim_space kind == "" || trim_space subject == "" || eqb generation 0) _) _
        h in
    let (_, some_row, h2) =
      >>=-eq-ok (reject (eqb (count_rows test db.conditions) 0) not_found) _ h1 in
    let (d, found, h3) =
      >>=-eq-ok
        (get_condition (trim_space kind) (trim_space subject)
          (update_rows test (presented state snooze ack) db.conditions))
        _ h2 in
    let same = ok-injective h3 in
    let rows = ap (λ p. p.1.conditions) (sym same) in
    (
      rows,
      rw rows (or_fail-eq-ok _ not_found found ∙ ap some (ap (λ p. p.0) same)),
      reject-eq-ok _ not_found some_row,
    )

ConditionStep-ConditionsSound :
    (db db' : Db)
    → ConditionStep db db'
    → ConditionsSound db.conditions
    → ConditionsSound db'.conditions
unfolding observe_condition resolve_condition resolve_condition_if_reason list_conditions
    acknowledge_condition snooze_condition claim_condition_presentation
ConditionStep-ConditionsSound db db' (observes json_valid env o c h) s =
    let (p, _, h1) = >>=-eq-ok (normalize_observation json_valid o) _ h in
    let (_, _, h2) = >>=-eq-ok (get_condition p.kind p.subject _) _ h1 in
    rw (ap (λ q. q.1.conditions) (sym (ok-injective h2)))
      (observe_rows-ConditionsSound env.now p db.conditions s)
ConditionStep-ConditionsSound db db' (resolves env kind subject h) s =
    let (_, _, h1) = >>=-eq-ok (reject (trim_space kind == "" || trim_space subject == "") _) _ h in
    rw (ap (λ d. d.conditions) (sym (ok-injective h1))) (
      unfold resolved_row in
      update-ConditionsSound _ (resolved_row env.now) db.conditions (λ c. refl) (λ c. refl)
        (λ c _ i. resolved_row-IsCondition env.now c i) s)
ConditionStep-ConditionsSound db db' (resolves_reason env kind subject reason h) s =
    let (_, _, h1) =
      >>=-eq-ok
        (reject (trim_space kind == "" || trim_space subject == "" || trim_space reason == "") _) _
        h in
    rw (ap (λ d. d.conditions) (sym (ok-injective h1))) (
      unfold resolved_row in
      update-ConditionsSound _ (resolved_row env.now) db.conditions (λ c. refl) (λ c. refl)
        (λ c _ i. resolved_row-IsCondition env.now c i) s)
ConditionStep-ConditionsSound db db' (lists env all limit h) s =
    rw (ap (λ d. d.conditions) (sym h)) (
      update-ConditionsSound (snooze_over env.now) woken db.conditions (λ c. refl) (λ c. refl)
        (λ c e i. record {
          fits =
              woken-FitsCondition c.state c.snoozed_until c.acknowledged_at c.resolved_at
                c.presentation_owner (ground arith) i.fits;
          counted = i.counted;
        })
        s)
ConditionStep-ConditionsSound db db' (acknowledges env kind subject generation c h) s =
    rw (change_inv kind subject generation active_acknowledged none (some env.now) db c db' h).0 (
      unfold presented in
      update-ConditionsSound _ _ db.conditions (λ d. refl) (λ d. refl)
        (λ d e i. record {
          fits = (
            refl,
            (env.now, refl),
            unresolved d.state d.snoozed_until d.acknowledged_at d.resolved_at d.presentation_owner
                (ground arith) i.fits,
            refl,
          );
          counted = i.counted;
        })
        s)
ConditionStep-ConditionsSound db db' (snoozes env kind subject generation until c h) s =
    let (_, _, h1) = >>=-eq-ok (reject (leb until env.now) _) _ h in
    rw
      (change_inv kind subject generation active_snoozed (some (unix_nano until)) none db c db'
        h1).0
      (unfold presented in
        update-ConditionsSound _ _ db.conditions (λ d. refl) (λ d. refl)
          (λ d e i. record {
            fits = (
              (unix_nano until, refl),
              refl,
              unresolved d.state d.snoozed_until d.acknowledged_at d.resolved_at
                  d.presentation_owner (ground arith) i.fits,
              refl,
            );
            counted = i.counted;
          })
          s)
ConditionStep-ConditionsSound db db'
      (presents_to env kind subject generation presenter lease taken h) s =
    let who = trim_space presenter in
    let (_, _, h1) =
      >>=-eq-ok (reject (kind == "" || subject == "" || eqb generation 0 || who == "") _) _ h in
    let (_, _, h2) = >>=-eq-ok (reject (eqb lease 0 || ltb (300 * second) lease) _) _ h1 in
    rw (ap (λ q. q.1.conditions) (sym (ok-injective h2))) (
      update-ConditionsSound (takes_presentation env.now kind subject generation who) _
        db.conditions (λ d. refl) (λ d. refl)
        (λ d e i. record {
          fits =
              presents-FitsCondition d.state d.snoozed_until d.acknowledged_at d.resolved_at
                d.presentation_owner (some who) (ground arith) i.fits;
          counted = i.counted;
        })
        s)

pub data ConditionPath (db : Db) : Db → Type 0 where
  here : ConditionPath db db
  after : {db1 db2 : Db} → ConditionPath db db1 → ConditionStep db1 db2 → ConditionPath db db2

-- Whatever sequence of observations, resolutions, listings, acknowledgements, snoozes and claims of the
-- presentation runs from a database without conditions, no two conditions have one kind and subject after
-- it, each has a generation of 1 at least, and the columns of each go with its state: a visible one is
-- not snoozed, acknowledged or resolved, a snoozed one is so until a time, an acknowledged or a resolved
-- one since a time, and only a visible one has a presenter.
pub ConditionPath-ConditionsSound :
    (db db' : Db) → ConditionPath db db' → db.conditions ≡ [] → ConditionsSound db'.conditions
ConditionPath-ConditionsSound db db' here none_yet = rw none_yet (record { keyed = tt; rows = tt })
ConditionPath-ConditionsSound db db' (after {db1} past now) none_yet =
    ConditionStep-ConditionsSound db1 db' now (ConditionPath-ConditionsSound db db1 past none_yet)
