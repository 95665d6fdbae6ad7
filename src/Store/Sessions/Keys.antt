-- ===== src/Store/Sessions/Keys.antt =====
-- internal/store/sqlite/schema.sql: the primary key of `registrations`.
use holler.Prelude.{◌≡◌, String, Bool, true, List, arith}
use holler.Store.Tables.Keyed.{KeyedBy}
use holler.Store.Db.{RegistrationRow}
use holler.Store.HostAttention.{is_session}

abbrev pub same_session : RegistrationRow → RegistrationRow → Bool
same_session a b = is_session a.actor a.run_id a.session_id b

-- No two rows have the same actor, run and session.
abbrev pub SessionsKeyed : List RegistrationRow → Type 0
SessionsKeyed rs = KeyedBy same_session rs

pub is_session-agree :
    (actor run_id session_id : String) (x y : RegistrationRow)
    → is_session actor run_id session_id x ≡ true
    → is_session actor run_id session_id y ≡ true
    → same_session x y ≡ true
is_session-agree actor run_id session_id x y h k = ground arith

pub same_session-swap : (x y : RegistrationRow) → same_session x y ≡ same_session y x
same_session-swap x y = ground arith
