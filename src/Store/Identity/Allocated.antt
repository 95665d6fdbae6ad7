-- ===== src/Store/Identity/Allocated.antt =====
-- internal/store/sqlite/identity.go: what `allocateActorTx` answers with.
use holler.Prelude.{ℕ, ◌≤◌, ◌≡◌, String, Bool, true, false, ◌==◌}
use holler.Store.Tables.{exists_row}
use holler.Store.Db.{Db}
use holler.Store.Identity.{actor_name_reserved}

-- The name was free, it is an allocated one after, and its ordinal is not before the one that was asked for.
record Taken (base : String) (ordinal : ℕ) (db : Db) (r : String × ℕ × Db) : Type 0 where
  free : actor_name_reserved db r.0 ≡ false
  taken : exists_row (λ a. a.actor == r.0) r.2.allocations ≡ true
  later : ordinal ≤ r.1
