-- ===== src/Store/Sessions/Upserting.antt =====
-- internal/store/sqlite/registration.go: what a registration of a session keeps of the others.
use holler.Prelude.{
  ℕ, ◌≡◌, inl, inr, refl, sym, ap, ◌∙◌, String, Bool, false, ◌&&◌, some, List, [], ◌∷◌, arith,
  Bool-cases,
}
use holler.Bus.Result.{ok, >>=-eq-ok, ok-injective}
use holler.Bus.Types.{Registration, RegistrationRequest}
use holler.Store.Tables.{exists_row, update_rows}
use holler.Store.Tables.Rows.{exists-append}
use holler.Store.Tables.Keyed.{update-KeyedBy, append-KeyedBy, exists-update}
use holler.Store.Db.{Db, Env, RegistrationRow}
use holler.Store.Events.{append_event}
use holler.Store.Events.Frame.{append_event-SameTables}
use holler.Store.Routes.{assert_actor_not_adopted}
use holler.Store.Adoption.{is_null}
use holler.Store.HostAttention.{is_session}
use holler.Store.Sessions.{get_registration}
use holler.Store.Sessions.Keys.{SessionsKeyed, same_session, same_session-swap}
use holler.Store.Sessions.Registering.{
  register_normalized, upsert_registration, registered_again, first_registration, next_row_id,
  bind_if_given, registration_payload,
}
use holler.Store.Sessions.Touching.{Touch, HasEnded, bind_if_given-Touch}

-- The request registers the session of that key.
abbrev pub names_session : String → String → String → RegistrationRequest → Bool
names_session actor run_id session_id req =
    is_session actor run_id session_id (first_registration 0 0 req)

-- What a registration did to the table.
pub register-Touch :
    (env : Env) (req : RegistrationRequest) (r : Registration) (db db' : Db)
    → register_normalized env req db ≡ ok (r, db')
    → Touch (upsert_registration env.now req db.registrations) db'.registrations
unfolding register_normalized
register-Touch env req r db db' h =
    let (_, _, h1) = >>=-eq-ok (assert_actor_not_adopted db req.actor) _ h in
    let start = record db { registrations = upsert_registration env.now req db.registrations } in
    let (db1, bound, h2) = >>=-eq-ok (bind_if_given env.now req.host_attention start) _ h1 in
    let (reg, _, h3) =
      >>=-eq-ok (get_registration req.actor req.run_id req.session_id db1.registrations) _ h2 in
    let (db2, logged, h4) =
      >>=-eq-ok
        (append_event env req.project_id "operational" "session.registered" "" req.actor
          (some (registration_payload env req reg.epoch)) db1)
        _ h3 in
    let same =
      append_event-SameTables env req.project_id "operational" "session.registered" "" req.actor _
        db1 db2 logged in
    rw (ap (λ p. p.1.registrations) (sym (ok-injective h4)) ∙ same.registrations)
      (bind_if_given-Touch env.now req.host_attention start db1 bound)

pub upsert-SessionsKeyed :
    (now : ℕ) (req : RegistrationRequest) (rs : List RegistrationRow)
    → SessionsKeyed rs
    → SessionsKeyed (upsert_registration now req rs)
unfolding upsert_registration
upsert-SessionsKeyed now req rs k =
    elim (Bool-cases (exists_row (is_session req.actor req.run_id req.session_id) rs)) [
      | inl e ↦ rw e (
          update-KeyedBy same_session (is_session req.actor req.run_id req.session_id)
            (registered_again now req) (λ x y. refl) (λ x y. refl) rs k)
      | inr e ↦ rw e (
          append-KeyedBy same_session rs (first_registration (next_row_id rs) now req)
            (λ x. same_session-swap x (first_registration (next_row_id rs) now req)) k e)
    ]

again-ended :
    (actor run_id session_id : String) (now : ℕ) (req : RegistrationRequest)
    (rs : List RegistrationRow)
    → names_session actor run_id session_id req ≡ false
    → exists_row (λ r. is_session actor run_id session_id r && is_null r.ended_at) rs ≡ false
    → exists_row
        (λ r. is_session actor run_id session_id r && is_null r.ended_at)
        (update_rows (is_session req.actor req.run_id req.session_id) (registered_again now req) rs)
      ≡ false
again-ended actor run_id session_id now req [] other h = refl
again-ended actor run_id session_id now req (x ∷ rs) other h =
    ground (arith, again-ended actor run_id session_id now req rs other)

pub upsert-HasEnded :
    (actor run_id session_id : String) (now : ℕ) (req : RegistrationRequest)
    (rs : List RegistrationRow)
    → names_session actor run_id session_id req ≡ false
    → HasEnded actor run_id session_id rs
    → HasEnded actor run_id session_id (upsert_registration now req rs)
unfolding upsert_registration
upsert-HasEnded actor run_id session_id now req rs other h =
    elim (Bool-cases (exists_row (is_session req.actor req.run_id req.session_id) rs)) [
      | inl e ↦ rw e (record {
        registered =
            exists-update (is_session actor run_id session_id)
              (is_session req.actor req.run_id req.session_id) (registered_again now req) rs
              (λ x _. refl)
            ∙ h.registered;
        ended = again-ended actor run_id session_id now req rs other h.ended;
      })
      | inr e ↦ rw e (record {
        registered = ground (
          arith,
          h.registered,
          exists-append (is_session actor run_id session_id) rs
              (first_registration (next_row_id rs) now req ∷ []),
        );
        ended = ground (
          arith,
          h.ended,
          exists-append (λ r. is_session actor run_id session_id r && is_null r.ended_at) rs
              (first_registration (next_row_id rs) now req ∷ []),
        );
      })
    ]
