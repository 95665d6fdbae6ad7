-- ===== src/Store/Invariant/Wakes.antt =====
-- internal/store/sqlite/alias.go and registration.go: what `ClaimAliasIfAbsent` and
-- `RearmAcceptedNotifications` keep.
use holler.Prelude.{◌≡◌, refl, sym, ap, ◌||◌, not, String, ◌==◌, inl, inr, Option-cases, is_some}
use holler.Bus.Result.{
  ok, >>=-eq-ok, ok-injective, reject, validation, failure, idempotency_conflict,
  alias_target_unknown, actor_archived, alias_tombstoned, alias_conflict, channel_capability,
}
use holler.Bus.Text.{trim_space, is_human_actor}
use holler.Bus.Types.{AliasClaimRequest, AliasClaimResult}
use holler.Store.Tables.{find_row, exists_row}
use holler.Store.Db.{Db, Env}
use holler.Store.Events.{append_event}
use holler.Store.Routes.{find_alias, was_alias, is_archived, actor_identity_exists}
use holler.Store.Aliases.{history_clash, alias_request_by_idempotency}
use holler.Store.AliasClaims.{
  is_claim_request, claim_differs, answer_claimed, claimed_history, claim_free_alias, claim_or_keep,
  claim_alias_new, claim_alias_normalized, claim_alias_if_absent, normalize_alias_claim_request,
}
use holler.Store.Sessions.Rearming.{rearm_accepted_notifications}
use holler.Store.Invariant.{Keeps, Keeps-trans, same-Keeps, append_event-Keeps}

pub rearm-Keeps :
    (env : Env) (actor : String) (db db' : Db)
    → rearm_accepted_notifications env actor db ≡ ok db'
    → Keeps db db'
unfolding rearm_accepted_notifications
rearm-Keeps env actor db db' h =
    let (_, _, h1) =
      >>=-eq-ok (reject (trim_space actor == "") (validation "actor" "is required")) _ h in
    rw (sym (ok-injective h1)) (same-Keeps db _ refl refl refl refl)

claim_free-Keeps :
    (env : Env) (req : AliasClaimRequest) (db : Db) (r : AliasClaimResult × Db)
    → claim_free_alias env req db ≡ ok r
    → Keeps db r.1
unfolding claim_free_alias
claim_free-Keeps env req db r h =
    let (_, _, h1) = >>=-eq-ok (reject (was_alias db req.alias) alias_tombstoned) _ h in
    let (_, _, h2) = >>=-eq-ok (reject (actor_identity_exists db req.alias) alias_conflict) _ h1 in
    let (_, _, h3) =
      >>=-eq-ok
        (reject (exists_row (history_clash (claimed_history env.now req)) db.alias_history)
          (failure "record alias claim"))
        _ h2 in
    let (noted, e, h4) =
      >>=-eq-ok
        (append_event env req.project_id "durable" "actor.alias_claim" "" req.updated_by_actor _ _)
        _ h3 in
    let at_end : noted ≡ r.1 = ap (λ (x : AliasClaimResult × Db). x.1) (ok-injective h4) in
    rw (← at_end) (
      Keeps-trans db _ noted (same-Keeps db _ refl refl refl refl) (
        append_event-Keeps env req.project_id "durable" "actor.alias_claim" "" req.updated_by_actor
          _ _ noted e))

claim_or_keep-Keeps :
    (env : Env) (req : AliasClaimRequest) (db : Db) (r : AliasClaimResult × Db)
    → claim_or_keep env req db ≡ ok r
    → Keeps db r.1
unfolding claim_or_keep
claim_or_keep-Keeps env req db r h = elim (Option-cases (find_alias db req.alias)) [
  | inl e ↦ claim_free-Keeps env req db r (rw (claim_or_keep, e) at h)
  | inr (a, e) ↦
      let done = ok-injective (rw (claim_or_keep, e) at h) in
      rw (sym (ap (λ (x : AliasClaimResult × Db). x.1) done)) (same-Keeps db db refl refl refl refl)
]

claim_alias_new-Keeps :
    (env : Env) (req : AliasClaimRequest) (db : Db) (r : AliasClaimResult × Db)
    → claim_alias_new env req db ≡ ok r
    → Keeps db r.1
unfolding claim_alias_new
claim_alias_new-Keeps env req db r h =
    let (_, _, h1) =
      >>=-eq-ok
        (reject (is_some (alias_request_by_idempotency db req.updated_by_actor req.idempotency_key))
          idempotency_conflict)
        _ h in
    let (_, _, h2) =
      >>=-eq-ok (reject (not (actor_identity_exists db req.actor)) alias_target_unknown) _ h1 in
    let (_, _, h3) = >>=-eq-ok (reject (is_archived db req.actor) actor_archived) _ h2 in
    let (x, made, h4) = >>=-eq-ok (claim_or_keep env req db) _ h3 in
    rw (sym (ap (λ (y : AliasClaimResult × Db). y.1) (ok-injective h4))) (
      Keeps-trans db x.1 _ (claim_or_keep-Keeps env req db x made)
        (same-Keeps x.1 _ refl refl refl refl))

pub claim_alias-Keeps :
    (env : Env) (request : AliasClaimRequest) (db : Db) (r : AliasClaimResult × Db)
    → claim_alias_if_absent env request db ≡ ok r
    → Keeps db r.1
unfolding claim_alias_if_absent claim_alias_normalized answer_claimed
claim_alias-Keeps env request db r h =
    let (req, _, h1) = >>=-eq-ok (normalize_alias_claim_request request) _ h in
    let (_, _, h2) =
      >>=-eq-ok (reject (is_human_actor req.alias || is_human_actor req.actor) channel_capability) _
        h1 in
    elim (Option-cases
      (find_row (is_claim_request req.updated_by_actor req.idempotency_key) db.alias_claims)) [
        | inl e ↦ claim_alias_new-Keeps env req db r (rw (claim_alias_normalized, e) at h2)
        | inr (c, e) ↦
            let (_, _, h3) =
              >>=-eq-ok (reject (claim_differs req c) idempotency_conflict) _
                (rw (claim_alias_normalized, e) at h2) in
            rw (sym (ap (λ (x : AliasClaimResult × Db). x.1) (ok-injective h3)))
              (same-Keeps db db refl refl refl refl)
      ]
