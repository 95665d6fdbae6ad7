-- ===== src/Store/Sessions/Attaching.antt =====
-- internal/store/sqlite/registration.go: what an `AttachMonitor` that succeeds leaves.
use holler.Prelude.{
  ℕ, ◌+◌, ◌≡◌, refl, ap, ◌∙◌, String, Bool, true, false, ◌&&◌, ◌||◌, not, some, List, [], ◌∷◌,
  arith, ◌==◌, Bool-cases, inl, inr,
}
use mathlib.Core.Option
use holler.Bus.Result.{
  Result, ok, >>=-eq-ok, reject-eq-ok, or_fail-eq-ok, reject, or_fail, validation,
  registration_expired, session_ended, presence_superseded,
}
use holler.Bus.Text.{trim_space}
use holler.Bus.Types.{Registration}
use holler.Store.Tables.{find_row, exists_row, count_rows}
use holler.Store.Tables.Rows.{find-holds, changed, find-update}
use holler.Store.Tables.Keyed.{exists-update, count-update, find-exists, count-key, count-only}
use holler.Store.Db.{Db, Env, RegistrationRow}
use holler.Store.Adoption.{is_null}
use holler.Store.Routes.{assert_actor_not_adopted}
use holler.Store.Claiming.{is_bad_lease}
use holler.Store.HostAttention.{is_session, is_present}
use holler.Store.Sessions.{read_registration, renewed}
use holler.Store.Sessions.Keys.{SessionsKeyed, same_session, is_session-agree}
use holler.Store.Sessions.Monitors.{
  attach_monitor, attach_row, is_rival, is_newer, loses_presence, supersede_rivals, renew_session,
}

-- The guards that a call passed, in order.
pub attach_monitor_inv :
    (env : Env) (actor run_id session_id harness mode : String) (lease : ℕ) (db : Db)
    (x : Result Registration × Db)
    → attach_monitor env actor run_id session_id harness mode lease db ≡ ok x
    → (own : RegistrationRow) × (trim_space harness ≡ "claude")
      × (trim_space mode ≡ "hook-long-poll")
      × (find_row
            (is_session (trim_space actor) (trim_space run_id) (trim_space session_id))
            db.registrations
          ≡ some own)
      × (is_present own ≡ true)
      × (own.harness ≡ "claude")
      × (own.attention_mode ≡ "hook-long-poll")
      × (attach_row env
            (trim_space actor)
            (trim_space run_id)
            (trim_space session_id)
            (trim_space harness)
            (trim_space mode)
            lease
            own
            db
          ≡ ok x)
unfolding attach_monitor
attach_monitor_inv env actor run_id session_id harness mode lease db x h =
    let who = trim_space actor in
    let run = trim_space run_id in
    let session = trim_space session_id in
    let (_, _, h1) = >>=-eq-ok (reject (who == "" || run == "" || session == "") _) _ h in
    let (_, names, h2) =
      >>=-eq-ok
        (reject (not (trim_space harness == "claude") || not (trim_space mode == "hook-long-poll"))
          (validation "monitor" "requires claude hook-long-poll"))
        _ h1 in
    let (_, _, h3) = >>=-eq-ok (reject (is_bad_lease lease) _) _ h2 in
    let (_, _, h4) = >>=-eq-ok (assert_actor_not_adopted db who) _ h3 in
    let (own, found, h5) =
      >>=-eq-ok
        (or_fail (find_row (is_session who run session) db.registrations) registration_expired) _
        h4 in
    let (_, ended, h6) = >>=-eq-ok (reject (not (is_null own.ended_at)) session_ended) _ h5 in
    let (_, over, h7) =
      >>=-eq-ok (reject (not (is_null own.attention_superseded_at)) presence_superseded) _ h6 in
    let (_, means, h8) =
      >>=-eq-ok
        (reject
          (not (own.harness == trim_space harness) || not (own.attention_mode == trim_space mode))
          _)
        _ h7 in
    let named =
      reject-eq-ok
        (not (trim_space harness == "claude") || not (trim_space mode == "hook-long-poll")) _
        names in
    let meant =
      reject-eq-ok
        (not (own.harness == trim_space harness) || not (own.attention_mode == trim_space mode)) _
        means in
    (
      own,
      ground arith,
      ground arith,
      or_fail-eq-ok _ registration_expired found,
      ground (
        arith,
        reject-eq-ok (not (is_null own.ended_at)) session_ended ended,
        reject-eq-ok (not (is_null own.attention_superseded_at)) presence_superseded over,
      ),
      ground arith,
      ground arith,
      h8,
    )

-- The rows that an attachment leaves.
module _ (now expires : ℕ) (actor run_id session_id harness mode : String) where
  abbrev attached_rows : List RegistrationRow → List RegistrationRow
  attached_rows rs =
      renew_session now expires actor run_id session_id
        (supersede_rivals now actor run_id session_id harness mode rs)

  -- No other session is present by the same means.
  supersede-only :
      (rs : List RegistrationRow)
      → exists_row
          (λ x. is_rival actor harness mode x && not (is_session actor run_id session_id x))
          (supersede_rivals now actor run_id session_id harness mode rs)
        ≡ false
  unfolding supersede_rivals
  supersede-only [] = refl
  supersede-only (r ∷ rs) = ground (arith, supersede-only rs)

  attached-only :
      (rs : List RegistrationRow)
      → exists_row
          (λ x. is_rival actor harness mode x && not (is_session actor run_id session_id x))
          (attached_rows rs)
        ≡ false
  unfolding renew_session
  attached-only rs =
      exists-update
        (λ x. is_rival actor harness mode x && not (is_session actor run_id session_id x))
        (λ r. is_session actor run_id session_id r && is_null r.ended_at) (renewed now expires)
        (supersede_rivals now actor run_id session_id harness mode rs) (λ x _. refl)
      ∙ supersede-only rs

  attached-count :
      (rs : List RegistrationRow)
      → count_rows (is_session actor run_id session_id) (attached_rows rs)
        ≡ count_rows (is_session actor run_id session_id) rs
  unfolding renew_session supersede_rivals
  attached-count rs =
      count-update (is_session actor run_id session_id)
        (λ r. is_session actor run_id session_id r && is_null r.ended_at) (renewed now expires) _
        (λ x _. refl)
      ∙ count-update (is_session actor run_id session_id) _ (loses_presence now) rs (λ x _. refl)

  abbrev of_session : RegistrationRow → Bool
  of_session r = is_session actor run_id session_id r && is_null r.ended_at

  abbrev rivals_session : RegistrationRow → Bool
  rivals_session r =
      is_rival actor harness mode r && not (r.run_id == run_id && r.session_id == session_id)

  renewed-same :
      (a : RegistrationRow)
      → is_session actor run_id session_id (changed of_session (renewed now expires) a)
        ≡ is_session actor run_id session_id a
  renewed-same a = ground arith

  loses_presence-same :
      (a : RegistrationRow)
      → is_session actor run_id session_id (changed rivals_session (loses_presence now) a)
        ≡ is_session actor run_id session_id a
  loses_presence-same a = ground arith

  own-renewed :
      (own : RegistrationRow)
      → is_session actor run_id session_id own ≡ true
      → is_present own ≡ true
      → changed of_session (renewed now expires) (changed rivals_session (loses_presence now) own)
        ≡ renewed now expires own
  own-renewed own mine present = ground arith

  -- The session itself is renewed.
  attached-find :
      (rs : List RegistrationRow) (own : RegistrationRow)
      → find_row (is_session actor run_id session_id) rs ≡ some own
      → is_present own ≡ true
      → find_row (is_session actor run_id session_id) (attached_rows rs)
        ≡ some (renewed now expires own)
  unfolding renew_session supersede_rivals
  attached-find rs own found present =
      find-update (λ r. is_session actor run_id session_id r && is_null r.ended_at)
        (renewed now expires) (is_session actor run_id session_id) _ (λ a. renewed-same a)
      ∙ ap (Option.map _) (
          find-update _ (loses_presence now) (is_session actor run_id session_id) rs
            (λ a. loses_presence-same a)
          ∙ ap (Option.map _) found)
      ∙ ap some
          (own-renewed own (find-holds (is_session actor run_id session_id) rs own found) present)

-- What an attachment that is not overtaken did.
attach_row_inv :
    (env : Env) (actor run_id session_id harness mode : String) (lease : ℕ) (own : RegistrationRow)
    (db : Db) (r : Registration) (db' : Db)
    → attach_row env actor run_id session_id harness mode lease own db ≡ ok (ok r, db')
    → find_row (is_session actor run_id session_id) db.registrations ≡ some own
    → is_present own ≡ true
    → (db'.registrations
        ≡ attached_rows env.now
            (env.now + lease)
            actor
            run_id
            session_id
            harness
            mode
            db.registrations)
      × (r ≡ read_registration (renewed env.now (env.now + lease) own))
unfolding attach_row
attach_row_inv env actor run_id session_id harness mode lease own db r db' h found present =
    let row =
      attached-find env.now (env.now + lease) actor run_id session_id harness mode db.registrations
        own found present in
    elim (Bool-cases
      (exists_row (λ x. is_rival actor harness mode x && is_newer own x) db.registrations)) [
        | inl e ↦ absurd (ground arith)
        | inr e ↦ (ground arith, ground arith)
      ]

-- After `AttachMonitor` answers with a registration, the actor has exactly one session that is present
-- as a monitor of Claude, and it is the one that was attached: its row is found under its key, and its
-- lease runs from now on for the time that was asked for. No two sessions have one actor, run and
-- session identifier.
pub attach_monitor-sole :
    (env : Env) (actor run_id session_id harness mode : String) (lease : ℕ) (db : Db)
    (r : Registration) (db' : Db)
    → attach_monitor env actor run_id session_id harness mode lease db ≡ ok (ok r, db')
    → SessionsKeyed db.registrations
    → (count_rows (is_rival (trim_space actor) "claude" "hook-long-poll") db'.registrations ≡ 1)
      × (own : RegistrationRow) × (find_row
            (is_session (trim_space actor) (trim_space run_id) (trim_space session_id))
            db'.registrations
          ≡ some own)
      × (is_rival (trim_space actor) "claude" "hook-long-poll" own ≡ true)
      × (own.lease_expires_at ≡ env.now + lease)
      × (r ≡ read_registration own)
attach_monitor-sole env actor run_id session_id harness mode lease db r db' h keyed =
    let who = trim_space actor in
    let run = trim_space run_id in
    let session = trim_space session_id in
    let (own, eh, em, found, present, own_harness, own_mode, h1) =
      attach_monitor_inv env actor run_id session_id harness mode lease db (ok r, db') h in
    let h2 = rw (eh, em) at h1 in
    let (rows, answer) =
      attach_row_inv env who run session "claude" "hook-long-poll" lease own db r db' h2 found
        present in
    let after =
      attached-find env.now (env.now + lease) who run session "claude" "hook-long-poll"
        db.registrations own found present in
    let now_own = renewed env.now (env.now + lease) own in
    let rival : is_rival who "claude" "hook-long-poll" now_own ≡ true =
      ground (arith, find-holds (is_session who run session) db.registrations own found) in
    (
      rw rows (
          count-only (is_rival who "claude" "hook-long-poll") (is_session who run session) _
            (attached-only env.now (env.now + lease) who run session "claude" "hook-long-poll"
              db.registrations)
            (find-exists _ (is_session who run session) _ now_own after rival)
            (attached-count env.now (env.now + lease) who run session "claude" "hook-long-poll"
                db.registrations
              ∙ count-key same_session (is_session who run session)
                  (is_session-agree who run session) db.registrations keyed
                  (find-exists _ (is_session who run session) _ own found
                    (find-holds (is_session who run session) db.registrations own found)))),
      now_own,
      rw rows after,
      rival,
      refl,
      answer,
    )
