-- ===== src/Store/Adoption.antt =====
-- internal/store/sqlite/adoption.go: a live actor takes over the inbox of one that is gone.
use holler.Prelude.{
  ℕ, ◌-◌, String, Bool, true, false, ◌&&◌, ◌||◌, not, Option, none, some, List, [], ◌∷◌, ◌++◌, eqb,
  ltb, ◌==◌, if◌then◌else◌,
}
use holler.Bus.Result.{
  Result, ok, err, reject, channel_capability, adoption_conflict, idempotency_conflict, actor_live,
  actor_not_live, run_not_live, adoption_busy, no_message, validation, ◌>>=◌, ◌>>◌,
}
use holler.Bus.Caller.{text, number, event_provenance}
use holler.Bus.Text.{trim_space, validate_text_identifier, is_human_actor}
use holler.Bus.Types.{AdoptRequest, AdoptResult, non_blocking}
use holler.Store.Tables.{exists_row, select_rows, update_rows, count_rows}
use holler.Store.Db.{
  Db, Env, MessageRow, DeliveryRow, OutboxRow, AdoptionRow, RegistrationRow, pending, done,
}
use holler.Store.Events.{append_event}
use holler.Store.Messages.{legacy_messages, has_id, is_unexpired}
use holler.Store.Recipients.{adoption_of, is_delivery}
use holler.Store.Transition.{is_claimed}
use holler.Store.Routes.{is_adopted}
use holler.Store.Claiming.{is_claimable, is_done, is_job}
use holler.Store.Sending.{enqueue_job}

-- The loop over the fields: each is required, and bounded.
unfoldable pub check_fields : List (String × String × ℕ) → Result (Unit {0})
check_fields [] = ok tt
check_fields ((name, value, max) ∷ rest) = do
  reject (value == "") (validation name "is required")
  validate_text_identifier name value max
  check_fields rest

unfoldable pub trim_adopt_request : AdoptRequest → AdoptRequest
trim_adopt_request request =
    let project = trim_space request.project_id in
    record request {
      source_actor = trim_space request.source_actor;
      adopting_actor = trim_space request.adopting_actor;
      adopting_run = trim_space request.adopting_run;
      project_id = if project == "" then "default" else project;
      idempotency_key = trim_space request.idempotency_key;
    }

abbrev pub adopt_fields : AdoptRequest → List (String × String × ℕ)
adopt_fields req =
    ("source_actor", req.source_actor, 128)
    ∷ ("adopting_actor", req.adopting_actor, 128)
    ∷ ("adopting_run", req.adopting_run, 256)
    ∷ ("project_id", req.project_id, 256)
    ∷ ("idempotency_key", req.idempotency_key, 256)
    ∷ []

unfoldable pub normalize_adopt_request : AdoptRequest → Result AdoptRequest
unfolding check_fields trim_adopt_request
normalize_adopt_request request = do
  reject (is_human_actor request.source_actor || is_human_actor request.adopting_actor)
      channel_capability
  let req = trim_adopt_request request
  check_fields (adopt_fields req)
  reject (req.source_actor == req.adopting_actor)
      (validation "source_actor" "must differ from adopting_actor")
  ok req

abbrev pub is_null : Option ℕ → Bool
is_null none = true
is_null (some t) = false

-- ended_at_ns IS NULL AND attention_superseded_at_ns IS NULL AND lease_expires_at_ns > now
abbrev pub is_live : ℕ → RegistrationRow → Bool
is_live now r =
    is_null r.ended_at && is_null r.attention_superseded_at && ltb now r.lease_expires_at

abbrev pub actor_has_live_presence : Db → String → ℕ → Bool
actor_has_live_presence db actor now =
    exists_row (λ r. r.actor == actor && is_live now r) db.registrations

abbrev pub actor_run_has_live_presence : Db → String → String → ℕ → Bool
actor_run_has_live_presence db actor run_id now =
    exists_row (λ r. r.actor == actor && r.run_id == run_id && is_live now r) db.registrations

abbrev pub is_adopter : Db → String → Bool
is_adopter db actor = exists_row (λ a. a.adopting_actor == actor) db.adoptions

-- JOIN legacy_messages m … AND (m.expires_at_ns IS NULL OR m.expires_at_ns > now)
abbrev pub has_open_message : ℕ → List MessageRow → DeliveryRow → Bool
has_open_message now ms d = exists_row (λ m. has_id d.message_id m && is_unexpired now m) ms

-- lease_expires_at_ns > now
abbrev pub is_running : ℕ → Option ℕ → Bool
is_running now none = false
is_running now (some t) = ltb now t

abbrev pub is_active_claim : Db → String → ℕ → DeliveryRow → Bool
is_active_claim db source now d =
    d.recipient_actor == source
    && is_claimed d.state
    && is_running now d.lease_expires_at
    && has_open_message now (legacy_messages db) d

-- A delivery that adoption hands over.
abbrev pub is_adoptable : Db → String → ℕ → DeliveryRow → Bool
is_adoptable db source now d =
    d.recipient_actor == source && is_claimable now d && has_open_message now (legacy_messages db) d

-- One that the adopter has too.
abbrev pub is_shared : Db → String → DeliveryRow → Bool
is_shared db adopter d = exists_row (is_delivery d.message_id adopter) db.deliveries

unfoldable pub retire_shared_jobs : ℕ → String → String → List OutboxRow → List OutboxRow
retire_shared_jobs now source adopter os =
    update_rows
      (λ o.
        o.source == "legacy"
        && o.recipient_actor == source
        && exists_row (is_job o.message_id adopter) os)
      (λ o. record o {
        state = done;
        available_at = now;
        last_error = some "deduplicated during actor adoption";
      })
      os

unfoldable pub retarget_jobs : ℕ → String → String → List OutboxRow → List OutboxRow
retarget_jobs now source adopter =
    update_rows (λ o. o.source == "legacy" && o.recipient_actor == source && not (is_done o.state))
      λ o. record o {
        recipient_actor = adopter;
        state = pending;
        available_at = now;
        last_error = none;
      }

-- m.delivery_request != 'non-blocking'
abbrev pub wants_attention : ℕ → List MessageRow → DeliveryRow → Bool
wants_attention now ms d =
    exists_row
      (λ m. has_id d.message_id m && is_unexpired now m && not (m.delivery_request == non_blocking))
      ms

-- A fresh job for each delivery that is handed over and asks for attention.
unfoldable pub wake_adopter : ℕ → String → List DeliveryRow → List OutboxRow → List OutboxRow
unfolding enqueue_job
wake_adopter now adopter [] os = os
wake_adopter now adopter (d ∷ ds) os =
    wake_adopter now adopter ds (enqueue_job now d.message_id adopter os)

-- The UNIQUE key is free: the lookup by it found no adoption of another source.
abbrev pub reuses_key : AdoptRequest → AdoptionRow → Bool
reuses_key req a =
    a.adopting_actor == req.adopting_actor && a.idempotency_key == req.idempotency_key

-- The guards of a new adoption, in order.
unfoldable pub check_adoption : ℕ → AdoptRequest → Db → Result (Unit {0})
check_adoption now req db = do
  reject (exists_row (reuses_key req) db.adoptions) idempotency_conflict
  reject (is_adopter db req.source_actor) (
      validation "source_actor"
        "already receives an adopted inbox; chained adoption is unsupported")
  reject (is_adopted db req.adopting_actor)
      (validation "adopting_actor" "was already adopted; chained adoption is unsupported")
  reject (actor_has_live_presence db req.source_actor now) actor_live
  reject (not (actor_has_live_presence db req.adopting_actor now)) actor_not_live
  reject (not (actor_run_has_live_presence db req.adopting_actor req.adopting_run now)) run_not_live
  reject (not (eqb (count_rows (is_active_claim db req.source_actor now) db.deliveries) 0))
      adoption_busy
  reject (eqb (count_rows (is_adoptable db req.source_actor now) db.deliveries) 0) no_message

unfoldable pub adopted_outbox : ℕ → AdoptRequest → Db → List OutboxRow
unfolding retire_shared_jobs retarget_jobs wake_adopter
adopted_outbox now req db =
    wake_adopter now req.adopting_actor
      (select_rows
        (λ d. is_adoptable db req.source_actor now d && wants_attention now (legacy_messages db) d)
        db.deliveries)
      (retarget_jobs now req.source_actor req.adopting_actor
        (retire_shared_jobs now req.source_actor req.adopting_actor db.outbox))

unfoldable pub record_adoption : Env → AdoptRequest → Db → Result (AdoptResult × Db)
unfolding adopted_outbox
record_adoption env req db = do
  let shared =
      count_rows
        (λ d. is_adoptable db req.source_actor env.now d && is_shared db req.adopting_actor d)
        db.deliveries
  let transferred = count_rows (is_adoptable db req.source_actor env.now) db.deliveries - shared
  let row : AdoptionRow = record {
    source_actor = req.source_actor;
    adopting_actor = req.adopting_actor;
    adopting_run = req.adopting_run;
    project_id = req.project_id;
    idempotency_key = req.idempotency_key;
    transferred = transferred;
    deduplicated = shared;
    adopted_at = env.now;
  }
  db' ←
      append_event env req.project_id "durable" "actor.adopted" "" req.adopting_actor
        (some (
          event_provenance env.caller req.adopting_run
          ++ (("source_actor", text req.source_actor)
              ∷ ("adopting_actor", text req.adopting_actor)
              ∷ ("transferred", number transferred)
              ∷ ("deduplicated", number shared)
              ∷ ("idempotency_key", text req.idempotency_key)
              ∷ [])))
        (record db {
          adoptions = db.adoptions ++ (row ∷ []);
          outbox = adopted_outbox env.now req db;
        })
  ok (
    record {
      source_actor = req.source_actor;
      adopting_actor = req.adopting_actor;
      adopting_run = req.adopting_run;
      transferred = transferred;
      deduplicated = shared;
      duplicate_request = false;
      adopted_at = env.now;
    },
    db',
  )

-- The source was adopted before: the same request has the same answer.
unfoldable pub answer_adopted : AdoptionRow → AdoptRequest → Db → Result (AdoptResult × Db)
answer_adopted a req db =
    if a.adopting_actor == req.adopting_actor && a.idempotency_key == req.idempotency_key
    then ok (
      record {
        source_actor = a.source_actor;
        adopting_actor = a.adopting_actor;
        adopting_run = a.adopting_run;
        transferred = a.transferred;
        deduplicated = a.deduplicated;
        duplicate_request = true;
        adopted_at = a.adopted_at;
      },
      db,
    )
    else err adoption_conflict

unfoldable pub adopt_normalized : Env → AdoptRequest → Db → Result (AdoptResult × Db)
unfolding check_adoption record_adoption answer_adopted
adopt_normalized env req db = elim (adoption_of db.adoptions req.source_actor) [
  | some a ↦ answer_adopted a req db
  | none ↦ check_adoption env.now req db >> record_adoption env req db
]

unfoldable pub adopt_actor : Env → AdoptRequest → Db → Result (AdoptResult × Db)
unfolding normalize_adopt_request adopt_normalized
adopt_actor env request db = do req ← normalize_adopt_request request; adopt_normalized env req db
