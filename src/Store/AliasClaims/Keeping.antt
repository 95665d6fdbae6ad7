-- ===== src/Store/AliasClaims/Keeping.antt =====
-- internal/store/sqlite/alias.go: what `ClaimAliasIfAbsent` leaves alone, and what it answers again.
use holler.Prelude.{
  ℕ, ◌≡◌, refl, sym, ap, subst, ◌∙◌, String, true, false, ◌||◌, not, none, some, [], ◌∷◌, ◌++◌,
  arith, Option-cases, is_some, inl, inr, ◌⊎◌,
}
use holler.Bus.Result.{
  ok, >>=-eq-ok, ok-injective, reject, reject-eq-ok, failure, channel_capability,
  idempotency_conflict, alias_tombstoned, alias_conflict, alias_target_unknown, actor_archived,
}
use holler.Bus.Caller.{text, number}
use holler.Bus.Text.{is_human_actor}
use holler.Bus.Types.{AliasClaimRequest, AliasClaimResult}
use holler.Store.Tables.{exists_row, find_row}
use holler.Store.Tables.Rows.{find-append}
use holler.Store.Db.{Db, Env, AliasRow}
use holler.Store.Events.{append_event}
use holler.Store.Events.Frame.{append_event-SameTables}
use holler.Store.Routes.{find_alias, was_alias, is_archived, actor_identity_exists}
use holler.Store.Aliases.{has_alias, history_clash, alias_request_by_idempotency}
use holler.Store.AliasClaims.{
  normalize_alias_claim_request, is_claim_request, claim_differs, answer_claimed, claimed_row,
  claimed_history, claim_free_alias, claim_or_keep, claim_row, claim_alias_new,
  claim_alias_normalized, claim_alias_if_absent,
}

-- What a claim did to the aliases and the stored requests: nothing, or it added a name that was free.
record ClaimEffect (req : AliasClaimRequest) (db db' : Db) : Type 0 where
  requests : db'.alias_claims ≡ db.alias_claims
  aliases :
      (db'.aliases ≡ db.aliases)
      ⊎ ((row : AliasRow) × (find_alias db req.alias ≡ none)
          × (db'.aliases ≡ db.aliases ++ (row ∷ [])))

claim_free_inv :
    (env : Env) (req : AliasClaimRequest) (db : Db) (r : AliasClaimResult) (db' : Db)
    → claim_free_alias env req db ≡ ok (r, db')
    → find_alias db req.alias ≡ none
    → ClaimEffect req db db'
unfolding claim_free_alias
claim_free_inv env req db r db' h free =
    let (_, _, h1) = >>=-eq-ok (reject (was_alias db req.alias) alias_tombstoned) _ h in
    let (_, _, h2) = >>=-eq-ok (reject (actor_identity_exists db req.alias) alias_conflict) _ h1 in
    let (_, _, h3) =
      >>=-eq-ok
        (reject (exists_row (history_clash (claimed_history env.now req)) db.alias_history)
          (failure "record alias claim"))
        _ h2 in
    let payload = some (
      ("alias", text req.alias)
      ∷ ("actor", text req.actor)
      ∷ ("policy_id", text req.policy_id)
      ∷ ("revision", number 1)
      ∷ []) in
    let written = record db {
      alias_history = db.alias_history ++ (claimed_history env.now req ∷ []);
      aliases = db.aliases ++ (claimed_row env.now req ∷ []);
    } in
    let (db2, logged, h4) =
      >>=-eq-ok
        (append_event env req.project_id "durable" "actor.alias_claim" "" req.updated_by_actor
          payload written)
        _ h3 in
    let same =
      append_event-SameTables env req.project_id "durable" "actor.alias_claim" ""
        req.updated_by_actor payload written db2 logged in
    let done = sym (ok-injective h4) in
    record {
      requests = ap (λ p. p.1.alias_claims) done ∙ same.alias_claims;
      aliases = inr (claimed_row env.now req, free, ap (λ p. p.1.aliases) done ∙ same.aliases);
    }

claim_or_keep_inv :
    (env : Env) (req : AliasClaimRequest) (db : Db) (r : AliasClaimResult) (db' : Db)
    → claim_or_keep env req db ≡ ok (r, db')
    → ClaimEffect req db db'
unfolding claim_or_keep
claim_or_keep_inv env req db r db' h = elim (Option-cases (find_alias db req.alias)) [
  | inr (a, e) ↦
      let done = sym (ok-injective (rw (claim_or_keep, e) at h)) in
      record {
        requests = ap (λ p. p.1.alias_claims) done;
        aliases = inl (ap (λ p. p.1.aliases) done);
      }
  | inl e ↦ claim_free_inv env req db r db' (rw (claim_or_keep, e) at h) e
]

claim_alias_new_inv :
    (env : Env) (req : AliasClaimRequest) (db : Db) (r : AliasClaimResult) (db' : Db)
    → claim_alias_new env req db ≡ ok (r, db')
    → (db1 : Db) × ClaimEffect req db db1
      × (db'.aliases ≡ db1.aliases)
      × (db'.alias_claims ≡ db.alias_claims ++ (claim_row env.now req r ∷ []))
unfolding claim_alias_new
claim_alias_new_inv env req db r db' h =
    let (_, _, h1) =
      >>=-eq-ok
        (reject (is_some (alias_request_by_idempotency db req.updated_by_actor req.idempotency_key))
          idempotency_conflict)
        _ h in
    let (_, _, h2) =
      >>=-eq-ok (reject (not (actor_identity_exists db req.actor)) alias_target_unknown) _ h1 in
    let (_, _, h3) = >>=-eq-ok (reject (is_archived db req.actor) actor_archived) _ h2 in
    let (x, made, h4) = >>=-eq-ok (claim_or_keep env req db) _ h3 in
    let effect = claim_or_keep_inv env req db x.0 x.1 made in
    let done = sym (ok-injective h4) in
    let answer : r ≡ x.0 = ap (λ p. p.0) done in
    (
      x.1,
      effect,
      ap (λ p. p.1.aliases) done,
      ap (λ p. p.1.alias_claims) done
          ∙ ap (λ cs. cs ++ (claim_row env.now req x.0 ∷ [])) effect.requests
          ∙ ap (λ a. db.alias_claims ++ (claim_row env.now req a ∷ [])) (sym answer),
    )

claim_normalized_inv :
    (env : Env) (request : AliasClaimRequest) (db : Db) (x : AliasClaimResult × Db)
    → claim_alias_if_absent env request db ≡ ok x
    → (req : AliasClaimRequest) × (normalize_alias_claim_request request ≡ ok req)
      × (reject (is_human_actor req.alias || is_human_actor req.actor) channel_capability ≡ ok tt)
      × (claim_alias_normalized env req db ≡ ok x)
unfolding claim_alias_if_absent
claim_normalized_inv env request db x h =
    let (req, e, h1) = >>=-eq-ok (normalize_alias_claim_request request) _ h in
    let (_, f, h2) =
      >>=-eq-ok (reject (is_human_actor req.alias || is_human_actor req.actor) channel_capability) _
        h1 in
    (req, e, f, h2)

-- A claim of a name leaves every alias that is there as it is: it never points one to another actor.
pub claim_alias-keeps :
    (env : Env) (request : AliasClaimRequest) (db : Db) (r : AliasClaimResult) (db' : Db)
    (name : String) (a : AliasRow)
    → claim_alias_if_absent env request db ≡ ok (r, db')
    → find_alias db name ≡ some a
    → find_alias db' name ≡ some a
unfolding claim_alias_normalized answer_claimed
claim_alias-keeps env request db r db' name a h there =
    let (req, _, _, h1) = claim_normalized_inv env request db (r, db') h in
    elim (Option-cases
      (find_row (is_claim_request req.updated_by_actor req.idempotency_key) db.alias_claims)) [
        | inr (c, e) ↦
            let (_, _, h2) =
              >>=-eq-ok (reject (claim_differs req c) idempotency_conflict) _
                (rw (claim_alias_normalized, e) at h1) in
            rw (ap (λ p. p.1.aliases) (sym (ok-injective h2))) there
        | inl e ↦
            let (db1, effect, rows, _) =
              claim_alias_new_inv env req db r db' (rw (claim_alias_normalized, e) at h1) in
            elim effect.aliases [
              | inl same ↦ rw (rows ∙ same) there
              | inr (row, _, more) ↦
                  rw (rows ∙ more, find-append (has_alias name) db.aliases (row ∷ []), there) refl
            ]
      ]

-- A stored request is found under its key, and its own request does not differ from it.
claim_row-own :
    (now : ℕ) (req : AliasClaimRequest) (r : AliasClaimResult)
    → (find_row
          (is_claim_request req.updated_by_actor req.idempotency_key)
          (claim_row now req r ∷ [])
        ≡ some (claim_row now req r))
      × (claim_differs req (claim_row now req r) ≡ false)
claim_row-own now req r = (ground arith, ground arith)

claim_normalized-again :
    (env env2 : Env) (req : AliasClaimRequest) (db : Db) (r : AliasClaimResult) (db' : Db)
    → claim_alias_normalized env req db ≡ ok (r, db')
    → claim_alias_normalized env2 req db' ≡ ok (record r { duplicate_request = true }, db')
unfolding claim_alias_normalized answer_claimed
claim_normalized-again env env2 req db r db' h =
    let test = is_claim_request req.updated_by_actor req.idempotency_key in
    elim (Option-cases (find_row test db.alias_claims)) [
      | inr (c, e) ↦
          let (_, same, h2) =
            >>=-eq-ok (reject (claim_differs req c) idempotency_conflict) _
              (rw (claim_alias_normalized, e) at h) in
          subst
            (λ (p : AliasClaimResult × Db).
              claim_alias_normalized env2 req p.1
              ≡ ok (record p.0 { duplicate_request = true }, p.1))
            (ok-injective h2)
            (rw
              (
                claim_alias_normalized,
                e,
                reject-eq-ok (claim_differs req c) idempotency_conflict same,
              )
              refl)
      | inl e ↦
          let (_, _, _, rows) =
            claim_alias_new_inv env req db r db' (rw (claim_alias_normalized, e) at h) in
          let (own, same) = claim_row-own env.now req r in
          let found : find_row test db'.alias_claims ≡ some (claim_row env.now req r) =
            ap (find_row test) rows
            ∙ find-append test db.alias_claims (claim_row env.now req r ∷ [])
            ∙ rw e own in
          rw (claim_alias_normalized, found, same) refl
    ]

-- A claim that was made may be made again, at any time: it has the same answer, marked as a
-- duplicate, and changes nothing.
pub claim_alias-again :
    (env env2 : Env) (request : AliasClaimRequest) (db : Db) (r : AliasClaimResult) (db' : Db)
    → claim_alias_if_absent env request db ≡ ok (r, db')
    → claim_alias_if_absent env2 request db' ≡ ok (record r { duplicate_request = true }, db')
unfolding claim_alias_if_absent
claim_alias-again env env2 request db r db' h =
    let (req, named, human, h1) = claim_normalized_inv env request db (r, db') h in
    rw (named, human) (claim_normalized-again env env2 req db r db' h1)
