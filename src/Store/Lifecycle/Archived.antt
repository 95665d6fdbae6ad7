-- ===== src/Store/Lifecycle/Archived.antt =====
-- internal/store/sqlite/lifecycle.go: what an actor that was archived or restored is.
use holler.Prelude.{
  ℕ, ◌≡◌, refl, sym, ap, ◌∙◌, String, Bool, true, false, List, [], ◌∷◌, inl, inr, arith, Bool-cases,
}
use holler.Bus.Result.{ok, err, >>=-eq-ok, ok-injective, Result-cases, actor_archived}
use holler.Bus.Types.{ActorArchiveResult, ConditionObservation, SendRequest}
use holler.Bus.Normalize.{has_text}
use holler.Store.Tables.{exists_row, update_rows}
use holler.Store.Tables.Rows.{exists-append}
use holler.Store.Db.{Db, Env, ConditionRow, LifecycleRow}
use holler.Store.Routes.{is_archived, is_adopted}
use holler.Store.Addressing.{refuses_mail}
use holler.Store.Sending.{store_message}
use holler.Store.Conditions.{
  observe_condition, acknowledge_condition, normalize_observation, get_condition, observe_rows,
  change_condition_presentation,
}
use holler.Store.Lifecycle.{is_unread, archive_preflight}
use holler.Store.Lifecycle.Archiving.{
  archive_actor, restore_actor, restored_db, check_preflight, recheck_archive, archived_db,
  put_archived, archived_row, of_actor, note_unread, archived_unread, is_archived_row,
}

-- The tables that say who is archived and who was adopted.
record SameActors (db db' : Db) : Type 0 where
  lifecycle : db'.lifecycle ≡ db.lifecycle
  adoptions : db'.adoptions ≡ db.adoptions

observe-SameActors :
    (json_valid : String → Bool) (env : Env) (o : ConditionObservation) (db : Db) (c : ConditionRow)
    (db' : Db)
    → observe_condition json_valid env o db ≡ ok (c, db')
    → SameActors db db'
unfolding observe_condition
observe-SameActors json_valid env o db c db' h =
    let (p, _, h1) = >>=-eq-ok (normalize_observation json_valid o) _ h in
    let (_, _, h2) =
      >>=-eq-ok (get_condition p.kind p.subject (observe_rows env.now p db.conditions)) _ h1 in
    let done = sym (ok-injective h2) in
    record { lifecycle = ap (λ x. x.1.lifecycle) done; adoptions = ap (λ x. x.1.adoptions) done }

acknowledge-SameActors :
    (env : Env) (kind subject : String) (generation : ℕ) (db : Db) (c : ConditionRow) (db' : Db)
    → acknowledge_condition env kind subject generation db ≡ ok (c, db')
    → SameActors db db'
unfolding acknowledge_condition change_condition_presentation
acknowledge-SameActors env kind subject generation db c db' h = record {
  lifecycle = ground arith;
  adoptions = ground arith;
}

note_unread-SameActors :
    (json_valid : String → Bool) (env : Env) (actor : String) (with_unread : Bool) (db : Db)
    → SameActors db (note_unread json_valid env actor with_unread db)
unfolding note_unread
note_unread-SameActors json_valid env actor false db = record { lifecycle = refl; adoptions = refl }
note_unread-SameActors json_valid env actor true db =
    elim (Result-cases (observe_condition json_valid env (archived_unread actor) db)) [
      | inl (e, failed) ↦ rw (note_unread, failed) (record { lifecycle = refl; adoptions = refl })
      | inr ((c, db1), seen) ↦
          let first = observe-SameActors json_valid env (archived_unread actor) db c db1 seen in
          elim (Result-cases (acknowledge_condition env c.kind c.subject c.generation db1)) [
            | inl (e, failed) ↦ rw (note_unread, seen, failed) first
            | inr ((d, db2), done) ↦
                let second =
                  acknowledge-SameActors env c.kind c.subject c.generation db1 d db2 done in
                rw (note_unread, seen, done)
                  (record {
                    lifecycle = second.lifecycle ∙ first.lifecycle;
                    adoptions = second.adoptions ∙ first.adoptions;
                  })
          ]
    ]

put-over :
    (row : LifecycleRow) (ls : List LifecycleRow)
    → row.archived ≡ true
    → exists_row (of_actor row.actor) ls ≡ true
    → exists_row (is_archived_row row.actor) (update_rows (of_actor row.actor) (λ l. row) ls) ≡ true
put-over row [] h e = cc
put-over row (l ∷ ls) h e = ground (arith, put-over row ls h)

put-archived :
    (row : LifecycleRow) (ls : List LifecycleRow)
    → row.archived ≡ true
    → exists_row (is_archived_row row.actor) (put_archived row ls) ≡ true
unfolding put_archived
put-archived row ls h = elim (Bool-cases (exists_row (of_actor row.actor) ls)) [
  | inl e ↦ rw e (put-over row ls h e)
  | inr e ↦ rw (e, exists-append (is_archived_row row.actor) ls (row ∷ [])) (ground arith)
]

-- What a successful archiving did.
archive_inv :
    (json_valid : String → Bool) (seen env later : Env) (actor changed_by : String)
    (allow_unread : Bool) (db : Db) (r : ActorArchiveResult) (db' : Db)
    → archive_actor json_valid seen env later actor changed_by allow_unread db ≡ ok (r, db')
    → (recheck_archive env.now actor allow_unread db ≡ ok tt)
      × (r.with_unread ≡ exists_row (is_unread db actor env.now) db.deliveries)
      × SameActors
          (archived_db env.now actor changed_by
            (exists_row (is_unread db actor env.now) db.deliveries)
            db)
          db'
unfolding archive_actor
archive_inv json_valid seen env later actor changed_by allow_unread db r db' h =
    let (preflight, _, h1) = >>=-eq-ok (archive_preflight seen actor 100 db) _ h in
    let (_, _, h2) = >>=-eq-ok (check_preflight preflight allow_unread) _ h1 in
    let (_, checked, h3) = >>=-eq-ok (recheck_archive env.now actor allow_unread db) _ h2 in
    let done = sym (ok-injective h3) in
    let unread = exists_row (is_unread db actor env.now) db.deliveries in
    let same =
      note_unread-SameActors json_valid later actor unread
        (archived_db env.now actor changed_by unread db) in
    (
      checked,
      ap (λ p. p.0.with_unread) done,
      record {
        lifecycle = ap (λ p. p.1.lifecycle) done ∙ same.lifecycle;
        adoptions = ap (λ p. p.1.adoptions) done ∙ same.adoptions;
      },
    )

refuses-text :
    (db : Db) (actor : String) (recipients : List String)
    → is_archived db actor ≡ true
    → is_adopted db actor ≡ false
    → has_text actor recipients ≡ true
    → refuses_mail db recipients ≡ true
refuses-text db actor [] archived alone h = cc
refuses-text db actor (a ∷ rest) archived alone h =
    ground (arith, refuses-text db actor rest archived alone)

-- After `ArchiveActor` the actor is archived, and if its inbox is not adopted, a message with the actor
-- among its recipients is refused as a whole.
pub archive_actor-closes :
    (json_valid : String → Bool) (seen env later env2 : Env) (actor changed_by : String)
    (allow_unread : Bool) (db : Db) (r : ActorArchiveResult) (db' : Db) (req : SendRequest)
    (resolutions : List (String × String))
    → archive_actor json_valid seen env later actor changed_by allow_unread db ≡ ok (r, db')
    → is_adopted db actor ≡ false
    → has_text actor req.to_actors ≡ true
    → (is_archived db' actor ≡ true) × (store_message env2 req resolutions db' ≡ err actor_archived)
unfolding archived_db store_message
archive_actor-closes json_valid seen env later env2 actor changed_by allow_unread db r db' req
      resolutions h alone asked =
    let (_, _, same) =
      archive_inv json_valid seen env later actor changed_by allow_unread db r db' h in
    let archived : is_archived db' actor ≡ true = rw same.lifecycle (
      put-archived
        (archived_row env.now actor changed_by
          (exists_row (is_unread db actor env.now) db.deliveries))
        db.lifecycle refl) in
    let adopted : is_adopted db' actor ≡ false = rw same.adoptions alone in
    (archived, rw (refuses-text db' actor req.to_actors archived adopted asked) refl)

restored-none :
    (env : Env) (actor changed_by : String) (ls : List LifecycleRow)
    → exists_row (is_archived_row actor) (
        update_rows
          (is_archived_row actor)
          (λ l. record l {
            archived = false;
            archived_with_unread = false;
            changed_by_actor = changed_by;
            changed_at = env.now;
          })
          ls)
      ≡ false
restored-none env actor changed_by [] = refl
restored-none env actor changed_by (l ∷ ls) = ground (arith, restored-none env actor changed_by ls)

-- An actor that `ArchiveActor` archived can be restored at any time, and is not archived after that.
pub archive_actor-restore :
    (json_valid : String → Bool) (seen env later env2 : Env) (actor changed_by restored_by : String)
    (allow_unread : Bool) (db : Db) (r : ActorArchiveResult) (db' : Db)
    → archive_actor json_valid seen env later actor changed_by allow_unread db ≡ ok (r, db')
    → (back : ActorArchiveResult) × (db2 : Db) × (restore_actor env2 actor restored_by db'
        ≡ ok (back, db2))
      × (is_archived db2 actor ≡ false)
unfolding restore_actor archived_db
archive_actor-restore json_valid seen env later env2 actor changed_by restored_by allow_unread db r
      db' h =
    let (_, _, same) =
      archive_inv json_valid seen env later actor changed_by allow_unread db r db' h in
    let archived : is_archived db' actor ≡ true = rw same.lifecycle (
      put-archived
        (archived_row env.now actor changed_by
          (exists_row (is_unread db actor env.now) db.deliveries))
        db.lifecycle refl) in
    (
      record { actor = actor; archived = false; with_unread = false; changed_at = env2.now },
      restored_db env2.now actor restored_by db',
      rw archived refl,
      restored-none env2 actor restored_by db'.lifecycle,
    )
