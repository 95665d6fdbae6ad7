-- ===== src/Store/Sessions/Renewal.antt =====
-- internal/store/sqlite/registration.go: what a `RegisterSession` that succeeds leaves.
use holler.Prelude.{
  ℕ, ◌+◌, ◌≡◌, ◌<◌, ◌&&◌, inl, inr, refl, sym, ap, ◌∙◌, Bool, true, Option, some, none, List, [],
  ◌∷◌, arith, Bool-cases,
}
use holler.Bus.Result.{ok, >>=-eq-ok, ok-injective}
use holler.Bus.Types.{Registration, RegistrationRequest}
use holler.Store.Tables.{find_row, exists_row}
use holler.Store.Tables.Rows.{find-update, find-append, find-holds, exists-find, exists-find_some}
use holler.Store.Tables.Keyed.{find-exists}
use holler.Store.Db.{Db, Env, RegistrationRow}
use holler.Store.Events.{append_event}
use holler.Store.Events.Frame.{append_event-SameTables}
use holler.Store.Routes.{assert_actor_not_adopted}
use holler.Store.Adoption.{is_live}
use holler.Store.HostAttention.{is_session}
use holler.Store.Sessions.{get_registration, read_registration}
use holler.Store.Sessions.Registering.{
  normalize_registration, register_session, upsert_registration, registered_again,
  first_registration, next_row_id, bind_if_given, registration_payload,
}

-- The epoch that follows the one of the session's row.
abbrev pub next_epoch : Option RegistrationRow → ℕ
next_epoch none = 1
next_epoch (some r) = r.epoch + 1

module _ (now : ℕ) (req : RegistrationRequest) where
  abbrev own_session : RegistrationRow → Bool
  own_session = is_session req.actor req.run_id req.session_id

  upsert-find :
      (rs : List RegistrationRow)
      → (row : RegistrationRow) × (find_row own_session (upsert_registration now req rs) ≡ some row)
        × (row.epoch ≡ next_epoch (find_row own_session rs))
        × (own_session row ≡ true)
        × (row.lease_expires_at ≡ now + req.lease)
        × ((t : ℕ) → t < now + req.lease → is_live t row ≡ true)
  unfolding upsert_registration
  upsert-find rs = elim (Bool-cases (exists_row own_session rs)) [
    | inl e ↦
        let (old, found) = exists-find_some own_session rs e in
        let mine = find-holds own_session rs old found in
        (
          registered_again now req old,
          rw
              (
                e,
                find-update own_session (registered_again now req) own_session rs
                    (λ a. ground arith),
                found,
              )
              (ap some (ground arith)),
          rw found refl,
          mine,
          refl,
          λ t early. ground arith,
        )
    | inr e ↦
        let row = first_registration (next_row_id rs) now req in
        let mine : own_session row ≡ true = ground arith in
        (
          row,
          rw (e, find-append own_session rs (row ∷ []), exists-find own_session rs e, mine) refl,
          rw (exists-find own_session rs e) refl,
          mine,
          refl,
          λ t early. ground arith,
        )
  ]

-- A session that `RegisterSession` registered, with no host binding, is live from then on until its lease
-- ends, under the epoch that follows the one it had, or under epoch 1 if it is new. So of two
-- registrations of a session the later has the larger epoch.
pub register_session-renews :
    (env : Env) (request req : RegistrationRequest) (r : Registration) (db db' : Db)
    → normalize_registration request ≡ ok req
    → req.host_attention ≡ none
    → register_session env request db ≡ ok (r, db')
    → (r.epoch
        ≡ next_epoch (find_row (is_session req.actor req.run_id req.session_id) db.registrations))
      × (r.lease_expires_at ≡ env.now + req.lease)
      × ((t : ℕ)
          → t < env.now + req.lease
          → exists_row
              (λ x. is_session req.actor req.run_id req.session_id x && is_live t x)
              db'.registrations
            ≡ true)
unfolding register_session
register_session-renews env request req r db db' named alone h =
    let (_, _, h1) = >>=-eq-ok (assert_actor_not_adopted db req.actor) _ (rw named at h) in
    let start = record db { registrations = upsert_registration env.now req db.registrations } in
    let (db1, bound, h2) = >>=-eq-ok (bind_if_given env.now req.host_attention start) _ h1 in
    let (reg, found, h3) =
      >>=-eq-ok (get_registration req.actor req.run_id req.session_id db1.registrations) _ h2 in
    let (db2, logged, h4) =
      >>=-eq-ok
        (append_event env req.project_id "operational" "session.registered" "" req.actor
          (some (registration_payload env req reg.epoch)) db1)
        _ h3 in
    let same =
      append_event-SameTables env req.project_id "operational" "session.registered" "" req.actor _
        db1 db2 logged in
    let begun = ok-injective (rw alone at bound) in
    let rows : db'.registrations ≡ upsert_registration env.now req db.registrations =
      ap (λ p. p.1.registrations) (sym (ok-injective h4))
      ∙ same.registrations
      ∙ ap (λ d. d.registrations) (sym begun) in
    let (row, at, epoch, mine, lease, live) = upsert-find env.now req db.registrations in
    let read : get_registration req.actor req.run_id req.session_id db1.registrations
        ≡ ok (read_registration row) =
      unfold get_registration in rw (ap (λ d. d.registrations) (sym begun), at) refl in
    let answer : read_registration row ≡ r =
      ok-injective (sym read ∙ found) ∙ ap (λ p. p.0) (ok-injective h4) in
    (
      ap (λ x. x.epoch) (sym answer) ∙ epoch,
      ap (λ x. x.lease_expires_at) (sym answer) ∙ lease,
      λ t early. rw rows (
          find-exists _ (is_session req.actor req.run_id req.session_id) _ row at
            (rw (mine, live t early) refl)),
    )
