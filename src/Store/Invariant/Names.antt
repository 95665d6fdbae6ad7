-- ===== src/Store/Invariant/Names.antt =====
-- internal/store/sqlite/adoption.go, alias.go and notification_outbox.go: what they keep.
use holler.Prelude.{
  ℕ, ◌+◌, ◌≡◌, ◌≢◌, refl, sym, ap, subst, ◌∙◌, Bool, true, false, String, List, [], ◌∷◌, ◌++◌,
  Option, some, not, ◌||◌, ◌&&◌, ◌==◌, eqb, leb, Bool-cases, Option-cases, inl, inr, arith,
}
use holler.Bus.Result.{
  ok, >>=-eq-ok, reject-eq-ok, reject, or_fail, not_found, no_message, failure,
  idempotency_conflict, channel_capability, ok-injective, validation,
}
use holler.Bus.Caller.{Payload}
use holler.Bus.Text.{is_human_actor}
use holler.Bus.Types.{AdoptRequest, AdoptResult, NotificationJob, NotificationDisposition}
use holler.Store.Tables.{exists_row, find_row, select_rows, update_rows, count_rows, first_row}
use holler.Store.Tables.Rows.{exists-append}
use holler.Store.Db.{Db, Env, AdoptionRow}
use holler.Store.Events.{append_event}
use holler.Store.Events.Frame.{KeepsNumbers-same}
use holler.Store.Messages.{get_message_by_id, legacy_messages}
use holler.Store.Recipients.{adoption_of}
use holler.Store.Routes.{is_adopted}
use holler.Store.Claiming.{is_job}
use holler.Store.Adoption.{
  is_adopter, adopt_actor, adopt_normalized, normalize_adopt_request, check_adoption,
  record_adoption, answer_adopted, reuses_key, check_fields, adopt_fields, trim_adopt_request,
}
use holler.Store.Aliases.{
  AliasMutationResult, Mutation, mutate_alias, record_mutation, answer_repeated, check_action,
  set_alias, remove_alias, set_mutation, remove_mutation, alias_request_by_idempotency, history_row,
  history_clash, mutation_payload, mutation_kind, max_revision, written, alias_claim_request_exists,
}
use holler.Store.AliasRequests.{
  AliasSetRequest, AliasRemoveRequest, normalize_alias_set_request, normalize_alias_remove_request,
}
use holler.Store.Outbox.{
  claim_notification, finish_notification, expire_jobs, is_due, job_le, takes_job, taken, settle,
  note_abandoned, already_done, finishes_job, is_retry, max_attempts,
}
use holler.Store.Tables.Keyed.{append-KeyedBy, exists-weaken, find-none}
use holler.Store.Invariant.{same_source, Keeps, Keeps-trans, same-Keeps, append_event-Keeps}

second_holds : (a b : Bool) → (a || (b || false)) ≡ true → a ≡ false → b ≡ true
second_holds true b h e = cc
second_holds false true h e = refl
second_holds false false h e = h

-- An adoption whose source adopted none, and whose adopter was not adopted, keeps chains out.
adopted-Unchained :
    (old : List AdoptionRow) (row : AdoptionRow)
    → exists_row (λ a. a.adopting_actor == row.source_actor) old ≡ false
    → exists_row (λ a. a.source_actor == row.adopting_actor) old ≡ false
    → row.source_actor ≢ row.adopting_actor
    → ((actor : String)
        → exists_row (λ a. a.adopting_actor == actor) old ≡ true
        → exists_row (λ a. a.source_actor == actor) old ≡ false)
    → (actor : String) → exists_row (λ a. a.adopting_actor == actor) (old ++ (row ∷ [])) ≡ true
    → exists_row (λ a. a.source_actor == actor) (old ++ (row ∷ [])) ≡ false
adopted-Unchained old row free fresh apart chain actor adopts =
    let before =
      sym (exists-append (λ (a : AdoptionRow). a.adopting_actor == actor) old (row ∷ []))
      ∙ adopts in
    exists-append (λ (a : AdoptionRow). a.source_actor == actor) old (row ∷ [])
    ∙ (elim (Bool-cases (exists_row (λ (a : AdoptionRow). a.adopting_actor == actor) old)) [
      | inl e ↦ elim (Bool-cases (row.source_actor == actor)) [
        | inl f ↦
            let at : row.source_actor ≡ actor = ground arith in
            let none_adopts =
              subst
                (λ (x : String).
                  exists_row (λ (a : AdoptionRow). a.adopting_actor == x) old ≡ false)
                at free in
            cc
        | inr f ↦ rw (chain actor e, f) refl
      ]
      | inr e ↦
          let mine =
            second_holds (exists_row (λ (a : AdoptionRow). a.adopting_actor == actor) old)
              (row.adopting_actor == actor) before e in
          let at : row.adopting_actor ≡ actor = ground arith in
          let not_source : row.source_actor == actor ≡ false = ground arith in
          rw
            (
              not_source,
              subst
                  (λ (x : String).
                    exists_row (λ (a : AdoptionRow). a.source_actor == x) old ≡ false)
                  at fresh,
            )
            refl
    ])

event-after :
    (payload : Option Payload) (marked : Db) (env : Env) (p s kind m a : String) (db db' : Db)
    → append_event env p s kind m a payload marked ≡ ok db'
    → Keeps db marked
    → Keeps db db'
event-after payload marked env p s kind m a db db' h k =
    Keeps-trans db marked db' k (append_event-Keeps env p s kind m a payload marked db' h)

module _ (env : Env) (req : AdoptRequest) (db : Db) where
  check_adoption-free :
      (now : ℕ)
      → check_adoption now req db ≡ ok tt
      → (is_adopter db req.source_actor ≡ false) × (is_adopted db req.adopting_actor ≡ false)
  unfolding check_adoption
  check_adoption-free now h =
      let (_, _, h1) =
        >>=-eq-ok (reject (exists_row (reuses_key req) db.adoptions) idempotency_conflict) _ h in
      let (_, e2, h2) =
        >>=-eq-ok
          (reject (is_adopter db req.source_actor) (
            validation "source_actor"
              "already receives an adopted inbox; chained adoption is unsupported"))
          _ h1 in
      let (_, e3, _) =
        >>=-eq-ok
          (reject (is_adopted db req.adopting_actor)
            (validation "adopting_actor" "was already adopted; chained adoption is unsupported"))
          _ h2 in
      (
        reject-eq-ok (is_adopter db req.source_actor) _ e2,
        reject-eq-ok (is_adopted db req.adopting_actor) _ e3,
      )

  -- The row that an adoption adds, and what else it keeps.
  record_adoption-Keeps :
      (r : AdoptResult × Db)
      → record_adoption env req db ≡ ok r
      → is_adopter db req.source_actor ≡ false
      → is_adopted db req.adopting_actor ≡ false
      → req.source_actor ≢ req.adopting_actor
      → exists_row (λ a. req.source_actor == a.source_actor) db.adoptions ≡ false
      → Keeps db r.1
  unfolding record_adoption
  record_adoption-Keeps r h free fresh apart alone =
      let (noted, e, h1) =
        >>=-eq-ok
          (append_event env req.project_id "durable" "actor.adopted" "" req.adopting_actor _ _) _
          h in
      let at_end : noted ≡ r.1 = ap (λ (x : AdoptResult × Db). x.1) (ok-injective h1) in
      rw (← at_end) (
        event-after _ _ env req.project_id "durable" "actor.adopted" "" req.adopting_actor db noted
          e
          (record {
            keyed = λ k. k;
            fitting = λ u k. k;
            numbers = KeepsNumbers-same db _ refl refl;
            unchained = adopted-Unchained db.adoptions _ free fresh apart;
            sourced = λ k. append-KeyedBy same_source db.adoptions _ (λ a. ground arith) k alone;
            ended = λ u m r k. k;
          }))

  answer_adopted-Keeps :
      (a : AdoptionRow) (r : AdoptResult × Db) → answer_adopted a req db ≡ ok r → Keeps db r.1
  unfolding answer_adopted
  answer_adopted-Keeps a r h =
      let same : r.1 ≡ db = ground arith in rw same (same-Keeps db db refl refl refl refl)

  adopt_normalized-Keeps :
      (r : AdoptResult × Db)
      → adopt_normalized env req db ≡ ok r
      → req.source_actor ≢ req.adopting_actor
      → Keeps db r.1
  unfolding adopt_normalized
  adopt_normalized-Keeps r h apart =
      elim (Option-cases (adoption_of db.adoptions req.source_actor)) [
        | inr (a, e) ↦ answer_adopted-Keeps a r (rw (adopt_normalized, e) at h)
        | inl e ↦
            let (_, checked, h1) =
              >>=-eq-ok (check_adoption env.now req db) _ (rw (adopt_normalized, e) at h) in
            let (free, fresh) = check_adoption-free env.now checked in
            record_adoption-Keeps r h1 free fresh apart (
              exists-weaken _ (λ a. a.source_actor == req.source_actor) db.adoptions
                (λ a f. ground arith)
                (unfold adoption_of in
                  find-none (λ a. a.source_actor == req.source_actor) db.adoptions e))
      ]

normalized-apart :
    (request req : AdoptRequest)
    → normalize_adopt_request request ≡ ok req
    → req.source_actor ≢ req.adopting_actor
unfolding normalize_adopt_request
normalized-apart request req h =
    let (_, _, h1) =
      >>=-eq-ok
        (reject (is_human_actor request.source_actor || is_human_actor request.adopting_actor)
          channel_capability)
        _ h in
    let trimmed = trim_adopt_request request in
    let (_, _, h2) = >>=-eq-ok (check_fields (adopt_fields trimmed)) _ h1 in
    let (_, e3, h3) =
      >>=-eq-ok
        (reject (trimmed.source_actor == trimmed.adopting_actor)
          (validation "source_actor" "must differ from adopting_actor"))
        _ h2 in
    let apart = reject-eq-ok (trimmed.source_actor == trimmed.adopting_actor) _ e3 in
    let same : trimmed ≡ req = ok-injective h3 in rw (← same) (ground arith)

pub adopt-Keeps :
    (env : Env) (request : AdoptRequest) (db : Db) (r : AdoptResult × Db)
    → adopt_actor env request db ≡ ok r
    → Keeps db r.1
unfolding adopt_actor
adopt-Keeps env request db r h =
    let (req, e, h1) = >>=-eq-ok (normalize_adopt_request request) _ h in
    adopt_normalized-Keeps env req db r h1 (normalized-apart request req e)

record_mutation-Keeps :
    (env : Env) (m : Mutation) (actor : String) (db : Db) (r : AliasMutationResult × Db)
    → record_mutation env m actor db ≡ ok r
    → Keeps db r.1
unfolding record_mutation
record_mutation-Keeps env m actor db r h =
    let (_, _, h1) =
      >>=-eq-ok
        (reject (exists_row (history_clash (history_row env m actor db)) db.alias_history)
          (failure "record alias history"))
        _ h in
    let payload = some (mutation_payload m actor (max_revision m.alias db.alias_history + 1)) in
    let (noted, e, h2) =
      >>=-eq-ok
        (append_event env m.project_id "durable" (mutation_kind m) "" m.updated_by_actor payload
          (written env m actor db))
        _ h1 in
    let at_end : noted ≡ r.1 = ap (λ (x : AliasMutationResult × Db). x.1) (ok-injective h2) in
    rw (← at_end) (
      event-after payload (written env m actor db) env m.project_id "durable" (mutation_kind m) ""
        m.updated_by_actor db noted e (unfold written in same-Keeps db _ refl refl refl refl))

pub mutate_alias-Keeps :
    (env : Env) (m : Mutation) (db : Db) (r : AliasMutationResult × Db)
    → mutate_alias env m db ≡ ok r
    → Keeps db r.1
unfolding mutate_alias
mutate_alias-Keeps env m db r h =
    elim (Option-cases (alias_request_by_idempotency db m.updated_by_actor m.idempotency_key)) [
      | inr (old, e) ↦
          let same : r.1 ≡ db = unfold answer_repeated in ground arith in
          rw same (same-Keeps db db refl refl refl refl)
      | inl e ↦
          let (_, _, h1) =
            >>=-eq-ok
              (reject (alias_claim_request_exists db m.updated_by_actor m.idempotency_key)
                idempotency_conflict)
              _ (rw (mutate_alias, e) at h) in
          let (actor, _, h2) = >>=-eq-ok (check_action m m.action db) _ h1 in
          record_mutation-Keeps env m actor db r h2
    ]

pub set_alias-Keeps :
    (env : Env) (request : AliasSetRequest) (db : Db) (r : AliasMutationResult × Db)
    → set_alias env request db ≡ ok r
    → Keeps db r.1
unfolding set_alias
set_alias-Keeps env request db r h =
    let (req, _, h1) = >>=-eq-ok (normalize_alias_set_request request) _ h in
    let (_, _, h2) =
      >>=-eq-ok (reject (is_human_actor req.alias || is_human_actor req.actor) channel_capability) _
        h1 in
    mutate_alias-Keeps env (set_mutation req) db r h2

pub remove_alias-Keeps :
    (env : Env) (request : AliasRemoveRequest) (db : Db) (r : AliasMutationResult × Db)
    → remove_alias env request db ≡ ok r
    → Keeps db r.1
unfolding remove_alias
remove_alias-Keeps env request db r h =
    let (req, _, h1) = >>=-eq-ok (normalize_alias_remove_request request) _ h in
    mutate_alias-Keeps env (remove_mutation req) db r h1

pub claim_notification-Keeps :
    (env : Env) (db : Db) (r : NotificationJob × Db)
    → claim_notification env db ≡ ok r
    → Keeps db r.1
unfolding claim_notification
claim_notification-Keeps env db r h =
    let jobs = expire_jobs env.now (legacy_messages db) db.outbox in
    let (o, _, h1) =
      >>=-eq-ok
        (or_fail (first_row job_le (select_rows (is_due env.now (legacy_messages db)) jobs))
          no_message)
        _ h in
    let takes = takes_job env.now o.message_id o.recipient_actor in
    let (_, _, h2) = >>=-eq-ok (reject (not (eqb (count_rows takes jobs) 1)) no_message) _ h1 in
    let db1 : Db = record db { outbox = update_rows takes (taken env.now) jobs } in
    let (message, _, h3) = >>=-eq-ok (get_message_by_id db1 o.message_id) _ h2 in
    let (row, _, h4) =
      >>=-eq-ok (or_fail (find_row (is_job o.message_id o.recipient_actor) db1.outbox) not_found) _
        h3 in
    let done = ok-injective h4 in
    same-Keeps db r.1 (sym (ap (λ (x : NotificationJob × Db). x.1.deliveries) done))
      (sym (ap (λ (x : NotificationJob × Db). x.1.adoptions) done))
      (sym (ap (λ (x : NotificationJob × Db). x.1.events) done))
      (sym (ap (λ (x : NotificationJob × Db). x.1.counters) done))

note_abandoned-Keeps :
    (env : Env) (job : NotificationJob) (disposition : NotificationDisposition) (detail : String)
    (db db' : Db)
    → note_abandoned env job disposition detail db ≡ ok db'
    → Keeps db db'
unfolding note_abandoned
note_abandoned-Keeps env job disposition detail db db' h =
    elim (Bool-cases (is_retry disposition && leb max_attempts job.attempt)) [
      | inl e ↦
          append_event-Keeps env job.message.project_id "operational"
            "delivery.notification_abandoned" job.message.id job.recipient_actor _ db db'
            (rw e at h)
      | inr e ↦ rw (sym (ok-injective (rw e at h))) (same-Keeps db db refl refl refl refl)
    ]

pub finish_notification-Keeps :
    (env : Env) (job : NotificationJob) (disposition : NotificationDisposition) (detail : String)
    (db db' : Db)
    → finish_notification env job disposition detail db ≡ ok db'
    → Keeps db db'
unfolding finish_notification
finish_notification-Keeps env job disposition detail db db' h =
    let (settle', _, h1) = >>=-eq-ok (settle disposition job.attempt env.now) _ h in
    elim (Bool-cases
      (eqb (count_rows (finishes_job job.message.id job.recipient_actor) db.outbox) 1)) [
        | inl e ↦
            Keeps-trans db _ db' (same-Keeps db _ refl refl refl refl)
              (note_abandoned-Keeps env job disposition _ _ db' (rw e at h1))
        | inr e ↦
            let same : db' ≡ db = unfold already_done in ground arith in
            rw same (same-Keeps db db refl refl refl refl)
      ]
