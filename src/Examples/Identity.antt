-- ===== src/Examples/Identity.antt =====
-- Runs of internal/store/sqlite/identity.go: a provisional actor is allocated for the base `worker`, and
-- becomes visible.
use holler.Prelude.{
  ℕ, ◌≡◌, refl, String, true, false, [], ◌∷◌, ◌==◌, if◌then◌else◌, inl, inr, Bool-cases, arith,
}
use holler.Prelude.Tests.{same_text}
use holler.Bus.Result.{ok}
use holler.Bus.Text.{validate_text_identifier, has_control}
use holler.Store.Db.{Db, empty_db}
use holler.Store.Identity.{allocate_actor, actor_name_reserved, cut_base}
use holler.Store.Identity.Attempts.{candidate_of, allocate_actor-enough}
use holler.Store.Tables.{exists_row}
use holler.Store.Identity.Presences.{is_other, live_other_presences, supersede_presences}
use holler.Store.Identity.Superseded.{supersede_presences-alone}
use holler.Examples.Presence.{own_row}
use holler.Examples.World.{id_of, at_time, from_ok, one_message}

abbrev six_digits : String → String
six_digits seed = "0a1b2c"

unfoldable allocated : String × ℕ × Db
unfolding allocate_actor
allocated =
    from_ok ("", 0, empty_db) (allocate_actor six_digits (at_time 10) "worker" true one_message)

allocated_name : allocated.0 ≡ "worker-0a1b2c"
unfolding allocated allocate_actor same_text validate_text_identifier has_control
allocated_name = refl

allocated_runs :
    allocate_actor six_digits (at_time 10) "worker" true one_message
    ≡ ok (allocated.0, allocated.1, allocated.2)
unfolding allocated allocate_actor same_text validate_text_identifier has_control
allocated_runs = refl

-- The first identifier makes a name that is in use, and the others make another.
abbrev two_digests : String → String
two_digests seed = if seed == "id-0" then "000000" else "0a1b2c"

unfoldable first_name : String × ℕ × Db
unfolding allocate_actor
first_name =
    from_ok ("", 0, empty_db) (allocate_actor two_digests (at_time 10) "worker" true one_message)

unfoldable second_name : String × ℕ × Db
unfolding allocate_actor
second_name =
    from_ok ("", 0, empty_db) (allocate_actor two_digests (at_time 20) "worker" false first_name.2)

abbrev one_used : Db
one_used = record one_message { names = record { actor = "worker-000000"; first_seen_at = 1 } ∷ [] }

all_valid :
    (n : ℕ)
    → validate_text_identifier "allocated_actor"
        (candidate_of two_digests (cut_base 121 "worker") (id_of n))
        128
      ≡ ok tt
unfolding validate_text_identifier has_control cut_base
all_valid n = elim (Bool-cases (id_of n == "id-0")) [ inl e ↦ rw e refl | inr e ↦ rw e refl ]

second_free :
    actor_name_reserved one_used (candidate_of two_digests (cut_base 121 "worker") (id_of 1))
    ≡ false
unfolding actor_name_reserved same_text cut_base
second_free = refl

allocate_actor-enough_example :
    (r : String × ℕ × Db) × (allocate_actor two_digests (at_time 10) "worker" true one_used ≡ ok r)
allocate_actor-enough_example =
    allocate_actor-enough two_digests (at_time 10) "worker" true id_of 1 one_used (λ n. refl)
      all_valid (omega arith) second_free

-- Bob's session of the run `run-b`, when a newer run binds bob.
supersede_presences-alone_example :
    exists_row
      (is_other "bob" "run-c" 20)
      (supersede_presences 20 (live_other_presences "bob" "run-c" 20 (own_row ∷ [])) (own_row ∷ []))
    ≡ false
supersede_presences-alone_example = supersede_presences-alone "bob" "run-c" 20 (own_row ∷ [])
