-- ===== src/Store/Identity.antt =====
-- internal/store/sqlite/identity.go: names of actors and their allocation. `digest` stands for the first
-- three bytes of `sha256.Sum256`, as `hex.EncodeToString` prints them.
pub mod Allocated
pub mod Attempts
pub mod Presences
pub mod Requests
pub mod Superseded
use Prim.Native.String.{len, ◌++◌ as append}
use holler.Prelude.{
  ℕ, suc, ◌+◌, ◌-◌, String, Bool, true, false, ◌&&◌, ◌||◌, not, Option, none, some, List, [], ◌∷◌,
  ◌++◌, eqb, ltb, leb, ◌==◌, if◌then◌else◌,
}
use holler.Bus.Result.{
  Result, ok, err, reject, validation, failure, not_found, channel_capability, continuity_conflict,
  ◌>>=◌, ◌>>◌,
}
use holler.Bus.Caller.{Payload, text, number, texts}
use holler.Bus.Text.{trim_space, validate_text_identifier, is_human_actor}
use holler.Bus.Normalize.{sort_texts, has_text}
use holler.Store.Tables.{exists_row, find_row, update_rows, delete_rows}
use holler.Store.Db.{Db, Env, AllocationRow, ContinuityRow, mint}
use holler.Store.Events.{append_event}
use holler.Store.Routes.{assert_actor_name_not_alias}
use holler.Store.Addressing.{reserve_name}

unfoldable pub actor_name_reserved : Db → String → Bool
actor_name_reserved db actor =
    exists_row (λ a. a.actor == actor) db.allocations
    || exists_row (λ p. p.actor == actor) db.profiles
    || exists_row (λ r. r.actor == actor) db.registrations
    || exists_row (λ m. m.from_actor == actor) db.messages
    || exists_row (λ d. d.recipient_actor == actor) db.deliveries
    || exists_row (λ h. h.alias == actor) db.alias_history
    || exists_row (λ n. n.actor == actor) db.names
    || exists_row (λ h. h.updated_by_actor == actor) db.alias_history

unfoldable pub reserve_actor_name : Env → String → Db → Result Db
unfolding assert_actor_name_not_alias reserve_name
reserve_actor_name env name db = do
  let actor = trim_space name
  reject (is_human_actor actor) channel_capability
  reject (actor == "") (validation "actor" "is required")
  validate_text_identifier "actor" actor 128
  assert_actor_name_not_alias db actor
  ok (record db { names = reserve_name env.now actor db.names })

-- The text up to the first colon.
unfoldable pub continuity_handle_kind : String → String
continuity_handle_kind String.[] = String.[]
continuity_handle_kind (String.◌∷◌ c s) =
    let rest = continuity_handle_kind s in
    if eqb (Prim.Native.Char.code c) 58 then String.[] else String.◌∷◌ c rest

abbrev pub add_kind : String → List String → List String
add_kind kind kinds = if has_text kind kinds then kinds else kind ∷ kinds

abbrev pub distinct_kinds : List String → List String
distinct_kinds [] = []
distinct_kinds (h ∷ hs) = add_kind (continuity_handle_kind h) (distinct_kinds hs)

unfoldable pub continuity_handle_kinds : List String → List String
unfolding sort_texts continuity_handle_kind
continuity_handle_kinds handles = sort_texts (distinct_kinds handles)

-- Neither a process nor an instance: `handle NOT LIKE 'process:%' AND handle NOT LIKE 'instance:%'`
unfoldable pub is_authoritative : String → Bool
unfolding continuity_handle_kind
is_authoritative handle =
    not (continuity_handle_kind handle == "process")
    && not (continuity_handle_kind handle == "instance")

abbrev pub is_provisional : String → AllocationRow → Bool
is_provisional actor a = a.actor == actor && a.provisional

unfoldable pub actor_provisional : Db → String → Bool
actor_provisional db actor = elim (find_row (λ a. a.actor == actor) db.allocations) [
  | none ↦ false
  | some a ↦ a.provisional
]

unfoldable pub finalize_provisional :
    Env → String → String → List String → AllocationRow → Db → Result (Bool × Db)
unfolding reserve_name
finalize_provisional env run_id project_id kinds a db = do
  noted ←
      append_event env project_id "durable" "actor.minted" "" a.actor
        (some (
          ("run_id", text run_id)
          ∷ ("base_actor", text a.base_actor)
          ∷ ("ordinal", number a.ordinal)
          ∷ ("continuity_kinds", texts kinds)
          ∷ []))
        (record db {
          allocations =
              update_rows (is_provisional a.actor) (λ r. record r { provisional = false })
                db.allocations;
          names = reserve_name env.now a.actor db.names;
        })
  ok (true, noted)

-- The Boolean says whether the actor was made visible.
unfoldable pub finalize_actor_allocation :
    Env → String → String → String → List String → Db → Result (Bool × Db)
unfolding finalize_provisional
finalize_actor_allocation env actor run_id project_id kinds db =
    elim (find_row (λ a. a.actor == actor) db.allocations) [
      | none ↦ ok (false, db)
      | some a ↦
          if a.provisional
          then finalize_provisional env run_id project_id kinds a db
          else ok (false, db)
    ]

-- The actor that the handles are bound to: they are bound to one at most.
unfoldable pub bound_actor : Db → String → List String → Result String
bound_actor db actor [] = ok actor
bound_actor db actor (handle ∷ rest) =
    let same = bound_actor db actor rest in
    elim (find_row (λ c. c.handle == handle) db.continuity) [
      | none ↦ same
      | some c ↦
          if not (actor == "") && not (actor == c.actor)
          then err continuity_conflict
          else bound_actor db c.actor rest
    ]

unfoldable pub current_actor_for_continuity : List String → Db → Result String
unfolding bound_actor
current_actor_for_continuity handles db = do
  actor ← bound_actor db "" handles
  reject (actor == "") not_found
  ok actor

-- A provisional actor that nothing but a process or an instance knows.
unfoldable pub provisional_actor_idle : Db → String → Bool
unfolding is_authoritative
provisional_actor_idle db actor =
    exists_row (is_provisional actor) db.allocations
    && not (exists_row (λ c. c.actor == actor && is_authoritative c.handle) db.continuity)
    && not (exists_row (λ p. p.actor == actor) db.profiles)
    && not (exists_row (λ r. r.actor == actor) db.registrations)
    && not (exists_row (λ m. m.from_actor == actor) db.messages)
    && not (exists_row (λ d. d.recipient_actor == actor) db.deliveries)

unfoldable pub release_provisional_actor : String → Db → Db
unfolding provisional_actor_idle
release_provisional_actor actor db =
    if provisional_actor_idle db actor
    then record db {
      continuity = delete_rows (λ c. c.actor == actor) db.continuity;
      harness_bindings = delete_rows (λ h. h.actor == actor) db.harness_bindings;
      allocations = delete_rows (is_provisional actor) db.allocations;
    }
    else db

-- The characters that fit into so many bytes.
unfoldable pub cut_base : ℕ → String → String
cut_base bytes String.[] = String.[]
cut_base bytes (String.◌∷◌ c s) =
    let size = len (String.◌∷◌ c String.[]) in
    let rest = cut_base (bytes - size) s in if leb size bytes then String.◌∷◌ c rest else String.[]

-- COALESCE(MAX(ordinal), 0) + 1 … WHERE base_actor = ?
abbrev pub last_ordinal : String → List AllocationRow → ℕ
last_ordinal base [] = 0
last_ordinal base (a ∷ rest) =
    let last = last_ordinal base rest in
    if a.base_actor == base && ltb last a.ordinal then a.ordinal else last

abbrev pub allocated_row : ℕ → String → Bool → ℕ → String → AllocationRow
allocated_row now base provisional ordinal candidate = record {
  actor = candidate;
  base_actor = base;
  ordinal = ordinal;
  allocated_at = now;
  provisional = provisional;
}

module _ (digest : String → String) where
  -- The attempts that are left, of 256.
  unfoldable pub try_allocate : ℕ → Env → String → Bool → ℕ → Db → Result (String × ℕ × Db)
  unfolding mint validate_text_identifier actor_name_reserved
  try_allocate Prim.Native.Nat.zero env base provisional ordinal db =
      err (failure "actor allocation space exhausted")
  try_allocate (suc attempts) env base provisional ordinal db = do
    (seed, minted) ← mint env "actor" db
    let candidate = append base (append "-" (digest seed))
    validate_text_identifier "allocated_actor" candidate 128
    let next = try_allocate attempts env base provisional (ordinal + 1) minted
    if actor_name_reserved minted candidate
        then next
        else ok (
          candidate,
          ordinal,
          record minted {
            allocations =
                minted.allocations
                ++ (allocated_row env.now base provisional ordinal candidate ∷ []);
          },
        )

  unfoldable pub allocate_actor : Env → String → Bool → Db → Result (String × ℕ × Db)
  unfolding try_allocate cut_base
  allocate_actor env base provisional db =
      try_allocate 256 env (cut_base 121 base) provisional
        (last_ordinal (cut_base 121 base) db.allocations + 1) db
