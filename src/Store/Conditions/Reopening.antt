-- ===== src/Store/Conditions/Reopening.antt =====
-- internal/store/sqlite/conditions.go: a condition that is observed after it was resolved.
use holler.Prelude.{
  ℕ, ◌+◌, ◌≡◌, refl, sym, ap, ◌∙◌, String, Bool, true, false, ◌&&◌, ◌||◌, not, some, arith, ◌==◌,
  eqb,
}
use mathlib.Core.Option
use holler.Bus.Result.{
  ok, err, >>=-eq-ok, ok-injective, reject, reject-eq-ok, or_fail-eq-ok, not_found,
}
use holler.Bus.Text.{trim_space}
use holler.Bus.Types.{ConditionObservation}
use holler.Store.Tables.{find_row, update_rows, count_rows}
use holler.Store.Tables.Rows.{find-holds, changed, find-update}
use holler.Store.Tables.Keyed.{KeyedBy, update-KeyedBy, exists-key, count-none, exists-weaken}
use holler.Store.Db.{Db, Env, ConditionRow, active_visible}
use holler.Store.Conditions.{
  is_condition, is_resolved, is_open_generation, acknowledge_condition, observe_condition,
  observe_rows, observed, observed_state, resolve_condition, resolved_row, normalize_observation,
  get_condition,
}
use holler.Store.Conditions.Lifecycle.{
  same_condition, is_condition-agree, observe_rows-again, again,
}

-- A resolution leaves the row resolved, under its generation.
resolve_inv :
    (env : Env) (kind subject : String) (db db' : Db) (c : ConditionRow)
    → resolve_condition env kind subject db ≡ ok db'
    → KeyedBy same_condition db.conditions
    → find_row (is_condition (trim_space kind) (trim_space subject)) db.conditions ≡ some c
    → (d : ConditionRow) × (find_row
          (is_condition (trim_space kind) (trim_space subject))
          db'.conditions
        ≡ some d)
      × (is_resolved d.state ≡ true)
      × (d.generation ≡ c.generation)
      × KeyedBy same_condition db'.conditions
      × ((trim_space kind == "" || trim_space subject == "") ≡ false)
unfolding resolve_condition resolved_row
resolve_inv env kind subject db db' c h keyed found =
    let name = trim_space kind in
    let about = trim_space subject in
    let test = λ (x : ConditionRow). is_condition name about x && not (is_resolved x.state) in
    let (_, named, h1) = >>=-eq-ok (reject (name == "" || about == "") _) _ h in
    let rows : db'.conditions ≡ update_rows test (resolved_row env.now) db.conditions =
      ap (λ d. d.conditions) (sym (ok-injective h1)) in
    let mine = find-holds (is_condition name about) db.conditions c found in
    (
      changed test (resolved_row env.now) c,
      rw rows (
          find-update test (resolved_row env.now) (is_condition name about) db.conditions
            (λ a. ground arith)
          ∙ ap (Option.map (changed test (resolved_row env.now))) found),
      ground arith,
      ground arith,
      rw rows (
          update-KeyedBy same_condition test (resolved_row env.now) (λ x y. refl) (λ x y. refl)
            db.conditions keyed),
      reject-eq-ok _ _ named,
    )

-- What an observation of a known condition did.
observe_inv :
    (json_valid : String → Bool) (env : Env) (observation o : ConditionObservation)
    (d seen : ConditionRow) (db db' : Db)
    → normalize_observation json_valid observation ≡ ok o
    → observe_condition json_valid env observation db ≡ ok (seen, db')
    → KeyedBy same_condition db.conditions
    → find_row (is_condition o.kind o.subject) db.conditions ≡ some d
    → (seen ≡ again env.now o d)
      × (find_row (is_condition o.kind o.subject) db'.conditions ≡ some seen)
      × KeyedBy same_condition db'.conditions
unfolding observe_condition observed
observe_inv json_valid env observation o d seen db db' named h keyed at =
    let test = is_condition o.kind o.subject in
    let (c, read, h1) =
      >>=-eq-ok (get_condition o.kind o.subject (observe_rows env.now o db.conditions)) _
        (rw named at h) in
    let same = ok-injective h1 in
    let rows = observe_rows-again env.now o db.conditions d keyed at in
    let after : db'.conditions ≡ update_rows test (again env.now o) db.conditions =
      ap (λ p. p.1.conditions) (sym same) ∙ rows in
    let mine = find-holds test db.conditions d at in
    let there : find_row test db'.conditions ≡ some (again env.now o d) = rw after (
      find-update test (again env.now o) test db.conditions (λ a. ground arith)
      ∙ ap (Option.map (changed test (again env.now o))) at
      ∙ ap some (ground arith)) in
    let found = or_fail-eq-ok _ not_found read in
    let answer : some seen ≡ some (again env.now o d) =
      ap some (ap (λ p. p.0) (sym same))
      ∙ sym found
      ∙ ap (λ cs. find_row test cs) (ap (λ p. p.1.conditions) same)
      ∙ there in
    (
      ground (arith, answer),
      there ∙ sym answer,
      rw after (
          update-KeyedBy same_condition test (again env.now o) (λ x y. refl) (λ x y. refl)
            db.conditions keyed),
    )

-- An acknowledgement of another generation than the row's is refused.
stale-refused :
    (env : Env) (kind subject : String) (generation : ℕ) (db : Db) (c : ConditionRow)
    → (trim_space kind == "" || trim_space subject == "") ≡ false
    → eqb generation 0 ≡ false
    → KeyedBy same_condition db.conditions
    → find_row (is_condition (trim_space kind) (trim_space subject)) db.conditions ≡ some c
    → eqb c.generation generation ≡ false
    → acknowledge_condition env kind subject generation db ≡ err not_found
unfolding acknowledge_condition
stale-refused env kind subject generation db c there counted keyed at other =
    let name = trim_space kind in
    let about = trim_space subject in
    let test = is_open_generation name about generation in
    let none_open : count_rows test db.conditions ≡ 0 = count-none test db.conditions (
      exists-weaken test (λ x. is_condition name about x && eqb x.generation generation)
        db.conditions (λ x e. ground arith)
        (exists-key same_condition (is_condition name about) (λ x. eqb x.generation generation)
          (is_condition-agree name about) db.conditions c keyed at other)) in
    rw (there, counted, none_open) refl

-- A resolved row, observed again.
again-resolved :
    (now : ℕ) (o : ConditionObservation) (d : ConditionRow)
    → is_resolved d.state ≡ true
    → ((again now o d).generation ≡ d.generation + 1) × ((again now o d).state ≡ active_visible)
unfolding observed observed_state
again-resolved now o d over = (ground arith, ground arith)

-- A condition that is observed after it was resolved is visible in the generation that follows, and an
-- acknowledgement that still names the generation before is refused. No two conditions have one kind and
-- subject, and the generation is a positive one.
pub observe-reopens :
    (json_valid : String → Bool) (env env2 env3 : Env) (kind subject : String)
    (observation o : ConditionObservation) (before seen : ConditionRow) (db db1 db2 : Db)
    → KeyedBy same_condition db.conditions
    → find_row (is_condition (trim_space kind) (trim_space subject)) db.conditions ≡ some before
    → eqb before.generation 0 ≡ false
    → resolve_condition env kind subject db ≡ ok db1
    → normalize_observation json_valid observation ≡ ok o
    → o.kind ≡ trim_space kind
    → o.subject ≡ trim_space subject
    → observe_condition json_valid env2 observation db1 ≡ ok (seen, db2)
    → (seen.generation ≡ before.generation + 1)
      × (seen.state ≡ active_visible)
      × (acknowledge_condition env3 kind subject before.generation db2 ≡ err not_found)
observe-reopens json_valid env env2 env3 kind subject observation o before seen db db1 db2 keyed
      found counted gone named same_kind same_subject again_seen =
    let (d, at, over, number, keyed1, there) =
      resolve_inv env kind subject db db1 before gone keyed found in
    let (answer, at2, keyed2) =
      observe_inv json_valid env2 observation o d seen db1 db2 named again_seen keyed1
        (rw (same_kind, same_subject) at) in
    let (larger, visible) = again-resolved env2.now o d over in
    let generation : seen.generation ≡ before.generation + 1 =
      ap (λ x. x.generation) answer ∙ larger ∙ ap (λ n. n + 1) number in
    (
      generation,
      ap (λ x. x.state) answer ∙ visible,
      stale-refused env3 kind subject before.generation db2 seen there counted keyed2
          (rw (same_kind, same_subject) at at2) (ground (arith, generation)),
    )
