-- ===== src/Store/Lifecycle/Archiving.antt =====
-- internal/store/sqlite/lifecycle.go: `ArchiveActor`, `RestoreActor` and `ArchiveEligibleActors`.
use holler.Prelude.{
  ℕ, ◌+◌, String, Bool, true, false, ◌&&◌, ◌||◌, not, Option, none, some, List, [], ◌∷◌, ◌++◌, map,
  eqb, ltb, leb, ◌==◌, if◌then◌else◌,
}
use holler.Bus.Result.{
  Result, ok, err, reject, validation, not_found, channel_capability, ◌>>=◌, ◌>>◌,
}
use holler.Bus.Text.{is_human_actor, starts_human}
use holler.Bus.Types.{ActorArchivePreflight, ActorArchiveResult, ConditionObservation}
use holler.Bus.Normalize.{null, sort_texts}
use holler.Store.Tables.{exists_row, select_rows, update_rows, delete_rows}
use holler.Store.Db.{Db, Env, NameRow, LifecycleRow}
use holler.Store.Messages.{legacy_messages}
use holler.Store.Routes.{is_archived}
use holler.Store.Adoption.{actor_has_live_presence, has_open_message}
use holler.Store.Claiming.{is_claimable}
use holler.Store.Conditions.{observe_condition, acknowledge_condition}
use holler.Store.Lifecycle.{has_grant, points_to, is_open_claim, is_unread, archive_preflight}

-- The guards on what the preflight saw.
unfoldable pub check_preflight : ActorArchivePreflight → Bool → Result (Unit {0})
check_preflight seen allow_unread = do
  reject (not seen.operator_eligible) (
      validation "actor"
        "cannot archive while aliases, live control presence, or active claims remain")
  reject ((not (null seen.unread) || seen.unread_truncated) && not allow_unread)
      (validation "allow_unread" "must be explicitly true after reviewing unread message previews")

-- The same guards once more, in the transaction.
unfoldable pub recheck_archive : ℕ → String → Bool → Db → Result (Unit {0})
recheck_archive now actor allow_unread db = do
  reject (has_grant db actor || is_human_actor actor) channel_capability
  reject
      (points_to db actor
        || actor_has_live_presence db actor now
        || exists_row (is_open_claim db actor now) db.deliveries)
      (validation "actor" "archive eligibility changed; run preflight again")
  reject (exists_row (is_unread db actor now) db.deliveries && not allow_unread)
      (validation "allow_unread" "archive eligibility changed; review unread messages again")

abbrev pub of_actor : String → LifecycleRow → Bool
of_actor actor l = l.actor == actor

abbrev pub archived_row : ℕ → String → String → Bool → LifecycleRow
archived_row now actor changed_by with_unread = record {
  actor = actor;
  archived = true;
  archived_with_unread = with_unread;
  changed_by_actor = changed_by;
  changed_at = now;
}

-- INSERT … ON CONFLICT(actor) DO UPDATE
unfoldable pub put_archived : LifecycleRow → List LifecycleRow → List LifecycleRow
put_archived row ls =
    if exists_row (of_actor row.actor) ls
    then update_rows (of_actor row.actor) (λ l. row) ls
    else ls ++ (row ∷ [])

-- What the transaction writes.
unfoldable pub archived_db : ℕ → String → String → Bool → Db → Db
unfolding put_archived
archived_db now actor changed_by with_unread db = record db {
  continuity = delete_rows (λ c. c.actor == actor) db.continuity;
  harness_bindings = delete_rows (λ h. h.actor == actor) db.harness_bindings;
  lifecycle = put_archived (archived_row now actor changed_by with_unread) db.lifecycle;
}

abbrev pub archived_unread : String → ConditionObservation
archived_unread actor = record {
  kind = "stale_unread";
  subject = actor;
  reason_code = "archived_with_unread";
  summary = "Archived actor retains unread messages by explicit operator choice";
  details = "";
}

-- After the commit: the condition is shown as acknowledged. An error here is dropped.
unfoldable pub note_unread : (String → Bool) → Env → String → Bool → Db → Db
note_unread json_valid env actor with_unread db =
    if with_unread
    then elim (observe_condition json_valid env (archived_unread actor) db) [
      | err e ↦ db
      | ok (c, db1) ↦ elim (acknowledge_condition env c.kind c.subject c.generation db1) [
        | err e ↦ db1
        | ok (d, db2) ↦ db2
      ]
    ]
    else db

-- `seen`, `env` and `later` are the readings of the clock in the preflight, in the transaction and after
-- it. The preflight trims the actor; the transaction has it as it was given.
unfoldable pub archive_actor :
    (String → Bool)
    → Env
    → Env
    → Env
    → String
    → String
    → Bool
    → Db
    → Result (ActorArchiveResult × Db)
unfolding archive_preflight check_preflight recheck_archive archived_db note_unread
archive_actor json_valid seen env later actor changed_by allow_unread db = do
  preflight ← archive_preflight seen actor 100 db
  check_preflight preflight allow_unread
  recheck_archive env.now actor allow_unread db
  let with_unread = exists_row (is_unread db actor env.now) db.deliveries
  ok (
    record { actor = actor; archived = true; with_unread = with_unread; changed_at = env.now },
    note_unread json_valid later actor with_unread
        (archived_db env.now actor changed_by with_unread db),
  )

abbrev pub is_archived_row : String → LifecycleRow → Bool
is_archived_row actor l = l.actor == actor && l.archived

abbrev pub restored_db : ℕ → String → String → Db → Db
restored_db now actor changed_by db = record db {
  lifecycle =
      update_rows (is_archived_row actor)
        (λ l. record l {
          archived = false;
          archived_with_unread = false;
          changed_by_actor = changed_by;
          changed_at = now;
        })
        db.lifecycle;
}

unfoldable pub restore_actor : Env → String → String → Db → Result (ActorArchiveResult × Db)
restore_actor env actor changed_by db = do
  reject (not (exists_row (is_archived_row actor) db.lifecycle)) not_found
  ok (
    record { actor = actor; archived = false; with_unread = false; changed_at = env.now },
    restored_db env.now actor changed_by db,
  )

abbrev pub holds_actor : String → Option String → Bool
holds_actor actor none = false
holds_actor actor (some a) = a == actor

-- The WHERE of the query: the actor was quiet for the time, and nothing is left for it.
unfoldable pub is_inactive : ℕ → ℕ → Db → NameRow → Bool
unfolding starts_human
is_inactive now inactive db n =
    not (n.actor == "operator")
    && not (is_archived db n.actor)
    && not (starts_human n.actor)
    && not (has_grant db n.actor)
    && leb (n.first_seen_at + inactive) now
    && not (
        exists_row (λ e. holds_actor n.actor e.actor_id && ltb now (e.created_at + inactive))
          db.events)
    && not (
        exists_row (λ m. m.from_actor == n.actor && ltb now (m.created_at + inactive))
          (legacy_messages db))
    && not
        (exists_row (λ r. r.actor == n.actor && ltb now (r.updated_at + inactive)) db.registrations)
    && not (exists_row (λ p. p.actor == n.actor && ltb now (p.updated_at + inactive)) db.profiles)
    && not (points_to db n.actor)
    && not (exists_row (λ c. c.actor == n.actor) db.continuity)
    && not (exists_row (λ a. a.adopting_actor == n.actor) db.adoptions)
    && not (actor_has_live_presence db n.actor now)
    && not (
        exists_row
          (λ d.
            d.recipient_actor == n.actor
            && is_claimable now d
            && has_open_message now (legacy_messages db) d)
          db.deliveries)

-- The loop: what was archived before an error stays archived.
unfoldable pub archive_each : (String → Bool) → Env → List String → Db → Result (Unit {0}) × Db
unfolding archive_actor
archive_each json_valid env [] db = (ok tt, db)
archive_each json_valid env (a ∷ rest) db =
    elim (archive_actor json_valid env env env a "operator:auto-archive" false db) [
      | err e ↦ (err e, db)
      | ok (r, db1) ↦ archive_each json_valid env rest db1
    ]

unfoldable pub archive_eligible_actors : (String → Bool) → Env → ℕ → Db → Result (List String) × Db
unfolding is_inactive archive_each sort_texts
archive_eligible_actors json_valid env inactive db =
    if eqb inactive 0
    then (err (validation "archive_after" "must be positive"), db)
    else let actors =
        sort_texts (map (λ n. n.actor) (select_rows (is_inactive env.now inactive db) db.names)) in
      let run = archive_each json_valid env actors db in (run.0 >>= λ done. ok actors, run.1)
