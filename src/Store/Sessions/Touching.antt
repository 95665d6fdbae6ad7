-- ===== src/Store/Sessions/Touching.antt =====
-- internal/store/sqlite/registration.go: the operations that change the columns of sessions, but neither
-- their keys nor the fact that a session has ended.
use holler.Prelude.{
  ℕ, ◌+◌, ◌≡◌, ◌⊎◌, inl, inr, refl, sym, ap, subst, ◌∙◌, String, Bool, true, false, ◌&&◌, ◌||◌, not,
  Option, some, none, List, [], ◌∷◌, arith, ◌==◌, Option-cases, Bool-cases,
}
use holler.Bus.Result.{Result, ok, >>=-eq-ok, ok-injective, or_fail, reject}
use holler.Bus.Text.{trim_space}
use holler.Bus.Types.{Registration, HostAttentionBinding}
use holler.Store.Tables.{find_row, exists_row, update_rows}
use holler.Store.Tables.Keyed.{update-KeyedBy, exists-update}
use holler.Store.Db.{Db, Env, RegistrationRow, HostBindingRow}
use holler.Store.Events.Frame.{append_event-SameTables}
use holler.Store.Events.{append_event}
use holler.Store.Adoption.{is_null}
use holler.Store.HostAttention.{
  is_session, is_process, bind_host_attention, rebind_host_attention, check_unbound,
}
use holler.Store.Sessions.{
  renewed, expired, renews, heartbeat_registrations, expire_registration, end_session,
  get_registration,
}
use holler.Store.Sessions.Keys.{SessionsKeyed, same_session}
use holler.Store.Sessions.Monitors.{
  attach_monitor, attach_row, is_rival, is_newer, loses_presence, supersede_rivals, renew_session,
}
use holler.Store.Sessions.Attaching.{attach_monitor_inv}
use holler.Store.Identity.Presences.{superseded_at, has_presence, supersede_presences}
use holler.Store.Sessions.Registering.{bind_if_given}

-- A change of a row that keeps its key, and keeps it ended once it is.
pub record Lasting (change : RegistrationRow → RegistrationRow) : Type 0 where
  pub actor : (x : RegistrationRow) → (change x).actor ≡ x.actor
  pub run_id : (x : RegistrationRow) → (change x).run_id ≡ x.run_id
  pub session_id : (x : RegistrationRow) → (change x).session_id ≡ x.session_id
  pub ended :
      (x : RegistrationRow) → is_null x.ended_at ≡ false → is_null (change x).ended_at ≡ false

-- Some updates by such changes.
pub data Touch (rs : List RegistrationRow) : List RegistrationRow → Type 0 where
  untouched : Touch rs rs
  updates :
      {ss : List RegistrationRow} (seen : RegistrationRow → Bool)
      (change : RegistrationRow → RegistrationRow)
      → Lasting change
      → Touch rs ss
      → Touch rs (update_rows seen change ss)

-- The session is registered, and each of its rows has ended.
pub record HasEnded (actor run_id session_id : String) (rs : List RegistrationRow) : Type 0 where
  pub registered : exists_row (is_session actor run_id session_id) rs ≡ true
  pub ended :
      exists_row (λ r. is_session actor run_id session_id r && is_null r.ended_at) rs ≡ false

pub Touch-SessionsKeyed :
    {rs ss : List RegistrationRow} → Touch rs ss → SessionsKeyed rs → SessionsKeyed ss
Touch-SessionsKeyed untouched k = k
Touch-SessionsKeyed (updates {ss} seen change lasts t) k =
    update-KeyedBy same_session seen change
      (λ x y. rw (lasts.actor x, lasts.run_id x, lasts.session_id x) refl)
      (λ x y. rw (lasts.actor y, lasts.run_id y, lasts.session_id y) refl) ss
      (Touch-SessionsKeyed t k)

Lasting-ended :
    (actor run_id session_id : String) (seen : RegistrationRow → Bool)
    (change : RegistrationRow → RegistrationRow) (rs : List RegistrationRow)
    → Lasting change
    → exists_row (λ r. is_session actor run_id session_id r && is_null r.ended_at) rs ≡ false
    → exists_row
        (λ r. is_session actor run_id session_id r && is_null r.ended_at)
        (update_rows seen change rs)
      ≡ false
Lasting-ended actor run_id session_id seen change [] lasts h = refl
Lasting-ended actor run_id session_id seen change (x ∷ rs) lasts h =
    elim (Bool-cases (is_null x.ended_at)) [
      | inl e ↦ ground (
        arith,
        lasts.actor x,
        lasts.run_id x,
        lasts.session_id x,
        Lasting-ended actor run_id session_id seen change rs lasts,
      )
      | inr e ↦
          ground
            (arith, lasts.ended x e, Lasting-ended actor run_id session_id seen change rs lasts)
    ]

pub Touch-HasEnded :
    (actor run_id session_id : String) {rs ss : List RegistrationRow}
    → Touch rs ss
    → HasEnded actor run_id session_id rs
    → HasEnded actor run_id session_id ss
Touch-HasEnded actor run_id session_id untouched h = h
Touch-HasEnded actor run_id session_id (updates {ss} seen change lasts t) h =
    let before = Touch-HasEnded actor run_id session_id t h in
    record {
      registered =
          exists-update (is_session actor run_id session_id) seen change ss
            (λ x _. rw (lasts.actor x, lasts.run_id x, lasts.session_id x) refl)
          ∙ before.registered;
      ended = Lasting-ended actor run_id session_id seen change ss lasts before.ended;
    }

pub renewed-Lasting : (now expires : ℕ) → Lasting (renewed now expires)
renewed-Lasting now expires = record {
  actor = λ x. refl;
  run_id = λ x. refl;
  session_id = λ x. refl;
  ended = λ x h. h;
}

pub loses_presence-Lasting : (now : ℕ) → Lasting (loses_presence now)
loses_presence-Lasting now = record {
  actor = λ x. refl;
  run_id = λ x. refl;
  session_id = λ x. refl;
  ended = λ x h. h;
}

pub expired-Lasting : (now : ℕ) → Lasting (expired now)
expired-Lasting now = record {
  actor = λ x. refl;
  run_id = λ x. refl;
  session_id = λ x. refl;
  ended = λ x h. refl;
}

pub heartbeat-Touch :
    (env : Env) (actor run_id : String) (lease n : ℕ) (db db' : Db)
    → heartbeat_registrations env actor run_id lease db ≡ ok (n, db')
    → Touch db.registrations db'.registrations
unfolding heartbeat_registrations
heartbeat-Touch env actor run_id lease n db db' h =
    let rows : db'.registrations
        ≡ update_rows (renews (trim_space actor) (trim_space run_id) db.registrations)
            (renewed env.now (env.now + lease)) db.registrations =
      ground arith in
    rw rows (updates _ _ (renewed-Lasting env.now (env.now + lease)) untouched)

pub attach-Touch :
    (env : Env) (actor run_id session_id harness mode : String) (lease : ℕ) (db : Db)
    (r : Result Registration) (db' : Db)
    → attach_monitor env actor run_id session_id harness mode lease db ≡ ok (r, db')
    → Touch db.registrations db'.registrations
unfolding attach_row
attach-Touch env actor run_id session_id harness mode lease db r db' h =
    let who = trim_space actor in
    let run = trim_space run_id in
    let session = trim_space session_id in
    let (own, _, _, _, _, _, _, h1) =
      attach_monitor_inv env actor run_id session_id harness mode lease db (r, db') h in
    elim (Bool-cases (
      exists_row (λ x. is_rival who (trim_space harness) (trim_space mode) x && is_newer own x)
        db.registrations)) [
          | inl e ↦
              let rows : db'.registrations
                  ≡ update_rows (is_session who run session) (loses_presence env.now)
                      db.registrations =
                ground arith in
              rw rows (updates _ _ (loses_presence-Lasting env.now) untouched)
          | inr e ↦
              let h2 = rw e at h1 in
              let (_, _, h3) =
                >>=-eq-ok
                  (get_registration who run session (
                    renew_session env.now (env.now + lease) who run session (
                      supersede_rivals env.now who run session (trim_space harness)
                        (trim_space mode) db.registrations)))
                  _ h2 in
              subst (Touch db.registrations) (ap (λ p. p.1.registrations) (ok-injective h3)) (
                updates _ _ (renewed-Lasting env.now (env.now + lease))
                  (updates _ _ (loses_presence-Lasting env.now) untouched))
        ]

end_session-rows :
    (env : Env) (project actor run_id session_id reason : String) (db db' : Db)
    → end_session env project actor run_id session_id reason db ≡ ok db'
    → db'.registrations
      ≡ update_rows (is_session actor run_id session_id) (expired env.now) db.registrations
unfolding end_session
end_session-rows env project actor run_id session_id reason db db' h =
    let (db1, logged, h1) =
      >>=-eq-ok (append_event env project "operational" "session.stale" "" actor _ _) _ h in
    let same =
      append_event-SameTables env project "operational" "session.stale" "" actor _ _ db1 logged in
    ap (λ d. d.registrations) (sym (ok-injective h1)) ∙ same.registrations

-- What an expiry did: nothing, if the session is not there or has ended, and else it ended it.
pub expire_inv :
    (env : Env) (actor run_id session_id reason : String) (db db' : Db)
    → expire_registration env actor run_id session_id reason db ≡ ok db'
    → ((db' ≡ db)
        × ((r : RegistrationRow)
            → find_row
                (is_session (trim_space actor) (trim_space run_id) (trim_space session_id))
                db.registrations
              ≡ some r
            → is_null r.ended_at ≡ false))
      ⊎ (db'.registrations
          ≡ update_rows
              (is_session (trim_space actor) (trim_space run_id) (trim_space session_id))
              (expired env.now)
              db.registrations)
unfolding expire_registration
expire_inv env actor run_id session_id reason db db' h =
    let who = trim_space actor in
    let run = trim_space run_id in
    let session = trim_space session_id in
    let (_, _, h1) = >>=-eq-ok (reject (who == "" || run == "" || session == "") _) _ h in
    elim (Option-cases (find_row (is_session who run session) db.registrations)) [
      | inl e ↦ inl (ground arith, λ r f. ground arith)
      | inr (own, e) ↦ elim (Bool-cases (is_null own.ended_at)) [
        | inr over ↦ inl (ground arith, λ r f. ground arith)
        | inl now ↦
            inr (
              end_session-rows env own.project_id who run session reason db db' (rw (e, now) at h1))
      ]
    ]

pub expire-Touch :
    (env : Env) (actor run_id session_id reason : String) (db db' : Db)
    → expire_registration env actor run_id session_id reason db ≡ ok db'
    → Touch db.registrations db'.registrations
expire-Touch env actor run_id session_id reason db db' h =
    elim (expire_inv env actor run_id session_id reason db db' h) [
      | inl (same, _) ↦ rw same untouched
      | inr rows ↦ rw rows (updates _ _ (expired-Lasting env.now) untouched)
    ]

rebind-Touch :
    (now : ℕ) (b : HostAttentionBinding) (bound : HostBindingRow) (db db' : Db)
    → rebind_host_attention now b bound db ≡ ok db'
    → Touch db.registrations db'.registrations
unfolding rebind_host_attention
rebind-Touch now b bound db db' h =
    let (_, _, h1) =
      >>=-eq-ok (reject (not (bound.actor == b.actor) || not (bound.run_id == b.run_id)) _) _ h in
    elim (Bool-cases (bound.session_id == b.session_id)) [
      | inl e ↦ let rows : db'.registrations ≡ db.registrations = ground arith in rw rows untouched
      | inr e ↦
          let h2 = rw e at h1 in
          let (_, _, h3) = >>=-eq-ok (check_unbound b db.host_bindings) _ h2 in
          subst (Touch db.registrations) (ap (λ d. d.registrations) (ok-injective h3))
            (updates _ _ (loses_presence-Lasting now) untouched)
    ]

bind-Touch :
    (now : ℕ) (b : HostAttentionBinding) (db db' : Db)
    → bind_host_attention now b db ≡ ok db'
    → Touch db.registrations db'.registrations
unfolding bind_host_attention
bind-Touch now b db db' h =
    let (harness, _, h1) =
      >>=-eq-ok (or_fail (find_row (λ x. x.handle == b.harness_handle) db.harness_bindings) _) _
        h in
    let (_, _, h2) =
      >>=-eq-ok (reject (not (harness.actor == b.actor) || not (harness.run_id == b.run_id)) _) _
        h1 in
    elim (Option-cases
      (find_row (is_process b.harness.pid b.harness.start_fingerprint) db.host_bindings)) [
        | inr (bound, e) ↦ rebind-Touch now b bound db db' (rw e at h2)
        | inl e ↦
            let h3 = rw e at h2 in
            let (_, _, h4) = >>=-eq-ok (check_unbound b db.host_bindings) _ h3 in
            rw (ap (λ d. d.registrations) (sym (ok-injective h4))) untouched
      ]

pub bind_if_given-Touch :
    (now : ℕ) (given : Option HostAttentionBinding) (db db' : Db)
    → bind_if_given now given db ≡ ok db'
    → Touch db.registrations db'.registrations
bind_if_given-Touch now none db db' h = rw (sym (ok-injective h)) untouched
bind_if_given-Touch now (some b) db db' h = bind-Touch now b db db' h

superseded-Lasting : (now : ℕ) → Lasting (superseded_at now)
superseded-Lasting now = record {
  actor = λ x. refl;
  run_id = λ x. refl;
  session_id = λ x. refl;
  ended = λ x h. h;
}

pub supersede-Touch :
    (now : ℕ) (ps : List Registration) (rs ss : List RegistrationRow)
    → Touch rs ss
    → Touch rs (supersede_presences now ps ss)
unfolding supersede_presences
supersede-Touch now [] rs ss t = t
supersede-Touch now (p ∷ ps) rs ss t =
    supersede-Touch now ps rs (update_rows (has_presence p) (superseded_at now) ss)
      (updates (has_presence p) (superseded_at now) (superseded-Lasting now) t)
