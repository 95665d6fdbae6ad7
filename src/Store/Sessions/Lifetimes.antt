-- ===== src/Store/Sessions/Lifetimes.antt =====
-- internal/store/sqlite/registration.go: sessions over any sequence of operations.
use holler.Prelude.{
  ℕ, ◌≡◌, ◌≢◌, inl, inr, refl, sym, ◌∙◌, String, Bool, true, false, ◌&&◌, not, some, List, [], ◌∷◌,
  arith,
}
use mathlib.Core.Bool.{false≢true}
use holler.Bus.Result.{Result, ok}
use holler.Bus.Text.{trim_space}
use holler.Bus.Types.{Registration, RegistrationRequest}
use holler.Store.Tables.{find_row, exists_row, update_rows}
use holler.Store.Tables.Rows.{find-holds}
use holler.Store.Tables.Keyed.{exists-update, find-exists, exists-key, exists-weaken}
use holler.Store.Db.{Db, Env, RegistrationRow}
use holler.Store.Adoption.{is_null, is_live}
use holler.Store.HostAttention.{is_session}
use holler.Store.Sessions.{heartbeat_registrations, expire_registration, expired}
use holler.Store.Sessions.Keys.{SessionsKeyed, same_session, is_session-agree}
use holler.Store.Sessions.Monitors.{attach_monitor}
use holler.Store.Sessions.Attaching.{attach_monitor_inv}
use holler.Store.Identity.Presences.{supersede_presences}
use holler.Store.Sessions.Registering.{normalize_registration, register_session}
use holler.Store.Sessions.Touching.{
  untouched, supersede-Touch, HasEnded, Touch-SessionsKeyed, Touch-HasEnded, heartbeat-Touch,
  attach-Touch, expire-Touch, expire_inv,
}
use holler.Store.Sessions.Upserting.{
  names_session, register-Touch, upsert-SessionsKeyed, upsert-HasEnded,
}

-- A step: one of the operations on sessions, where a registration is one that is allowed, the
-- supersession of presences by a newer binding, or any operation that leaves the table alone.
pub data SessionStep (allowed : RegistrationRequest → Bool) (db db' : Db) : Type 0 where
  registers :
      (env : Env) (request req : RegistrationRequest) (r : Registration)
      → normalize_registration request ≡ ok req
      → allowed req ≡ true
      → register_session env request db ≡ ok (r, db')
      → SessionStep allowed db db'
  beats :
      (env : Env) (actor run_id : String) (lease n : ℕ)
      → heartbeat_registrations env actor run_id lease db ≡ ok (n, db')
      → SessionStep allowed db db'
  attaches :
      (env : Env) (actor run_id session_id harness mode : String) (lease : ℕ)
      (r : Result Registration)
      → attach_monitor env actor run_id session_id harness mode lease db ≡ ok (r, db')
      → SessionStep allowed db db'
  expires :
      (env : Env) (actor run_id session_id reason : String)
      → expire_registration env actor run_id session_id reason db ≡ ok db'
      → SessionStep allowed db db'
  supersedes :
      (now : ℕ) (presences : List Registration)
      → db'.registrations ≡ supersede_presences now presences db.registrations
      → SessionStep allowed db db'
  elsewhere : db'.registrations ≡ db.registrations → SessionStep allowed db db'

pub data SessionPath (allowed : RegistrationRequest → Bool) (db : Db) : Db → Type 0 where
  here : SessionPath allowed db db
  after :
      {db1 db2 : Db}
      → SessionPath allowed db db1
      → SessionStep allowed db1 db2
      → SessionPath allowed db db2

SessionStep-SessionsKeyed :
    (allowed : RegistrationRequest → Bool) (db db' : Db)
    → SessionStep allowed db db'
    → SessionsKeyed db.registrations
    → SessionsKeyed db'.registrations
unfolding register_session
SessionStep-SessionsKeyed allowed db db' (registers env request req r named fine h) k =
    Touch-SessionsKeyed (register-Touch env req r db db' (rw named at h))
      (upsert-SessionsKeyed env.now req db.registrations k)
SessionStep-SessionsKeyed allowed db db' (beats env actor run_id lease n h) k =
    Touch-SessionsKeyed (heartbeat-Touch env actor run_id lease n db db' h) k
SessionStep-SessionsKeyed allowed db db'
      (attaches env actor run_id session_id harness mode lease r h) k =
    Touch-SessionsKeyed (attach-Touch env actor run_id session_id harness mode lease db r db' h) k
SessionStep-SessionsKeyed allowed db db' (expires env actor run_id session_id reason h) k =
    Touch-SessionsKeyed (expire-Touch env actor run_id session_id reason db db' h) k
SessionStep-SessionsKeyed allowed db db' (supersedes now ps same) k =
    rw same
      (Touch-SessionsKeyed (supersede-Touch now ps db.registrations db.registrations untouched) k)
SessionStep-SessionsKeyed allowed db db' (elsewhere same) k = rw same k

-- Whatever sequence of registrations, heartbeats, attachments, expiries and supersessions of presences
-- runs from a database whose sessions have keys of their own, such as the empty one, no two sessions have
-- one actor, run and session identifier after it.
pub SessionPath-SessionsKeyed :
    (allowed : RegistrationRequest → Bool) (db db' : Db)
    → SessionPath allowed db db'
    → SessionsKeyed db.registrations
    → SessionsKeyed db'.registrations
SessionPath-SessionsKeyed allowed db db' here k = k
SessionPath-SessionsKeyed allowed db db' (after {db1} past now) k =
    SessionStep-SessionsKeyed allowed db1 db' now (SessionPath-SessionsKeyed allowed db db1 past k)

module _ (actor run_id session_id : String) where
  abbrev pub others : RegistrationRequest → Bool
  others req = not (names_session actor run_id session_id req)

  SessionStep-HasEnded :
      (db db' : Db)
      → SessionStep others db db'
      → HasEnded actor run_id session_id db.registrations
      → HasEnded actor run_id session_id db'.registrations
  unfolding register_session
  SessionStep-HasEnded db db' (registers env request req r named fine h) e =
      Touch-HasEnded actor run_id session_id (register-Touch env req r db db' (rw named at h))
        (upsert-HasEnded actor run_id session_id env.now req db.registrations (ground arith) e)
  SessionStep-HasEnded db db' (beats env a run lease n h) e =
      Touch-HasEnded actor run_id session_id (heartbeat-Touch env a run lease n db db' h) e
  SessionStep-HasEnded db db' (attaches env a run session harness mode lease r h) e =
      Touch-HasEnded actor run_id session_id
        (attach-Touch env a run session harness mode lease db r db' h) e
  SessionStep-HasEnded db db' (expires env a run session reason h) e =
      Touch-HasEnded actor run_id session_id (expire-Touch env a run session reason db db' h) e
  SessionStep-HasEnded db db' (supersedes now ps same) e = rw same (
      Touch-HasEnded actor run_id session_id
        (supersede-Touch now ps db.registrations db.registrations untouched) e)
  SessionStep-HasEnded db db' (elsewhere same) e = rw same e

  SessionPath-HasEnded :
      (db db' : Db)
      → SessionPath others db db'
      → HasEnded actor run_id session_id db.registrations
      → HasEnded actor run_id session_id db'.registrations
  SessionPath-HasEnded db db' here e = e
  SessionPath-HasEnded db db' (after {db1} past now) e =
      SessionStep-HasEnded db1 db' now (SessionPath-HasEnded db db1 past e)

  -- A session that has ended is not live at any time.
  ended-absent :
      (rs : List RegistrationRow) (t : ℕ)
      → HasEnded actor run_id session_id rs
      → exists_row (λ r. is_session actor run_id session_id r && is_live t r) rs ≡ false
  ended-absent rs t h =
      exists-weaken _ (λ r. is_session actor run_id session_id r && is_null r.ended_at) rs
        (λ x e. ground arith) h.ended

expired-ended :
    (actor run_id session_id : String) (now : ℕ) (rs : List RegistrationRow)
    → exists_row
        (λ r. is_session actor run_id session_id r && is_null r.ended_at)
        (update_rows (is_session actor run_id session_id) (expired now) rs)
      ≡ false
expired-ended actor run_id session_id now [] = refl
expired-ended actor run_id session_id now (x ∷ rs) =
    ground (arith, expired-ended actor run_id session_id now rs)

expire-HasEnded :
    (env : Env) (actor run_id session_id reason : String) (db db' : Db) (own : RegistrationRow)
    → expire_registration env actor run_id session_id reason db ≡ ok db'
    → find_row
        (is_session (trim_space actor) (trim_space run_id) (trim_space session_id))
        db.registrations
      ≡ some own
    → SessionsKeyed db.registrations
    → HasEnded (trim_space actor) (trim_space run_id) (trim_space session_id) db'.registrations
expire-HasEnded env actor run_id session_id reason db db' own h found keyed =
    let test = is_session (trim_space actor) (trim_space run_id) (trim_space session_id) in
    let there =
      find-exists test test db.registrations own found
        (find-holds test db.registrations own found) in
    elim (expire_inv env actor run_id session_id reason db db' h) [
      | inl (same, over) ↦ rw same (record {
        registered = there;
        ended =
            exists-key same_session test (λ r. is_null r.ended_at)
              (is_session-agree (trim_space actor) (trim_space run_id) (trim_space session_id))
              db.registrations own keyed found (over own found);
      })
      | inr rows ↦ rw rows (record {
        registered =
            exists-update test test (expired env.now) db.registrations (λ x _. refl) ∙ there;
        ended =
            expired-ended (trim_space actor) (trim_space run_id) (trim_space session_id) env.now
              db.registrations;
      })
    ]

-- Once `ExpireRegistration` has ended a registered session, and until the session is registered again,
-- no sequence of heartbeats, attachments, expiries, supersessions of presences and registrations of other
-- sessions makes it live at any time, and `AttachMonitor` answers none of its monitors. No two sessions have one actor, run and
-- session identifier.
pub expire_registration-final :
    (env env2 : Env) (actor run_id session_id reason harness mode : String) (lease : ℕ)
    (db db1 db' : Db) (own : RegistrationRow)
    → SessionsKeyed db.registrations
    → find_row
        (is_session (trim_space actor) (trim_space run_id) (trim_space session_id))
        db.registrations
      ≡ some own
    → expire_registration env actor run_id session_id reason db ≡ ok db1
    → SessionPath (others (trim_space actor) (trim_space run_id) (trim_space session_id)) db1 db'
    → ((t : ℕ)
        → exists_row
            (λ r.
              is_session (trim_space actor) (trim_space run_id) (trim_space session_id) r
              && is_live t r)
            db'.registrations
          ≡ false)
      × ((x : Result Registration × Db)
          → attach_monitor env2 actor run_id session_id harness mode lease db' ≢ ok x)
expire_registration-final env env2 actor run_id session_id reason harness mode lease db db1 db' own
      keyed found h path =
    let who = trim_space actor in
    let run = trim_space run_id in
    let session = trim_space session_id in
    let over =
      SessionPath-HasEnded who run session db1 db' path
        (expire-HasEnded env actor run_id session_id reason db db1 own h found keyed) in
    (
      λ t. ended-absent who run session db'.registrations t over,
      λ x attached.
          let (row, _, _, at, present, _, _, _) =
            attach_monitor_inv env2 actor run_id session_id harness mode lease db' x attached in
          false≢true (
            sym over.ended
            ∙ find-exists (λ r. is_session who run session r && is_null r.ended_at)
                (is_session who run session) db'.registrations row at
                (ground (arith, find-holds (is_session who run session) db'.registrations row at))),
    )
