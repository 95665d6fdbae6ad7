-- ===== src/Store/Invariant/Revocations.antt =====
-- internal/store/sqlite/lifecycle.go: what `RevokeDeliveryLease` keeps.
use holler.Prelude.{
  ℕ, ◌≡◌, ◌&&◌, not, refl, String, true, false, some, List, [], ◌∷◌, arith, Bool-cases, inl, inr,
}
use holler.Bus.Result.{ok}
use holler.Store.Tables.{exists_row, find_row, update_rows}
use holler.Store.Tables.Rows.{AllRows, find-holds}
use holler.Store.Tables.Keyed.{update-none, find-exists, exists-weaken, exists-only}
use holler.Store.Db.{Db, Env, DeliveryRow}
use holler.Store.Recipients.{is_delivery}
use holler.Store.Recipients.Keys.{
  IsKeyed, update-IsKeyed, same_delivery, IsKeyed-KeyedBy, is_delivery-agree,
}
use holler.Store.Transition.States.{FitsState}
use holler.Store.Events.Frame.{KeepsNumbers-same}
use holler.Store.Lifecycle.Revoking.{is_revocable, revoked_row, revoked_db, revoke_delivery_lease}
use holler.Store.Lifecycle.Revoked.{revoke_inv}
use holler.Store.Invariant.{Keeps}
use holler.Store.Invariant.Leases.{update-ended}

revoked_row-FitsState :
    (now : ℕ) (m a : String) (d : DeliveryRow)
    → is_revocable now m a d ≡ true
    → FitsState d
    → FitsState (revoked_row d)
unfolding revoked_row
revoked_row-FitsState now m a d able fits = ground arith

revoked-FitsState :
    (now : ℕ) (m a : String) (ds : List DeliveryRow) (r : DeliveryRow)
    → IsKeyed ds
    → find_row (is_revocable now m a) ds ≡ some r
    → AllRows FitsState ds
    → AllRows FitsState (update_rows (is_delivery m a) revoked_row ds)
revoked-FitsState now m a [] r keyed found fits = cc
revoked-FitsState now m a (d ∷ ds) r keyed found fits = elim (Bool-cases (is_delivery m a d)) [
  | inr e ↦ rw e (fits.0, revoked-FitsState now m a ds r keyed.1 (ground arith) fits.1)
  | inl e ↦
      let alone : exists_row (is_delivery m a) ds ≡ false = ground (arith, keyed.0) in
      elim (Bool-cases (is_revocable now m a d)) [
        | inl f ↦
            rw (e, update-none (is_delivery m a) revoked_row ds alone)
              (revoked_row-FitsState now m a d f fits.0, fits.1)
        | inr f ↦
            let later : find_row (is_revocable now m a) ds ≡ some r = ground arith in
            let there =
              find-exists (is_delivery m a) (is_revocable now m a) ds r later
                (ground (arith, find-holds (is_revocable now m a) ds r later)) in
            absurd (ground arith)
      ]
]

pub revoke-Keeps :
    (env : Env) (actor message_id : String) (grace : ℕ) (db db' : Db)
    → revoke_delivery_lease env actor message_id grace db ≡ ok db'
    → Keeps db db'
unfolding revoked_db revoked_row
revoke-Keeps env actor message_id grace db db' h =
    let did = revoke_inv env actor message_id grace db db' h in
    let same = did.tables in
    record {
      keyed = λ k. rw same (
          update-IsKeyed (is_delivery message_id actor) revoked_row (λ d. refl) (λ d. refl)
            db.deliveries k);
      fitting = λ k f.
          rw same (revoked-FitsState env.now message_id actor db.deliveries did.row k did.found f);
      numbers = rw same (KeepsNumbers-same db (revoked_db env.now message_id actor db) refl refl);
      unchained = λ u. rw same u;
      sourced = λ u. rw same u;
      ended = λ u m r k. rw same (
          update-ended (is_delivery message_id actor) revoked_row m r db.deliveries
            (exists-weaken _
              (λ d. is_delivery message_id actor d && not (is_revocable env.now message_id actor d))
              db.deliveries (λ d e. ground arith)
              (exists-only same_delivery (is_delivery message_id actor)
                (is_revocable env.now message_id actor) (is_delivery-agree message_id actor)
                (λ d e. ground arith) db.deliveries (IsKeyed-KeyedBy db.deliveries u)
                (find-exists (is_revocable env.now message_id actor)
                  (is_revocable env.now message_id actor) db.deliveries did.row did.found
                  (find-holds (is_revocable env.now message_id actor) db.deliveries did.row
                    did.found))))
            k);
    }
