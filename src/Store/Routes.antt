-- ===== src/Store/Routes.antt =====
-- internal/store/sqlite/alias.go and identity.go: what a destination stands for.
use holler.Prelude.{
  String, Bool, ◌&&◌, ◌||◌, Option, none, some, List, [], ◌∷◌, ◌++◌, ◌==◌, if◌then◌else◌,
}
use holler.Bus.Result.{
  Result, ok, err, reject, alias_conflict, alias_not_found, alias_tombstoned, actor_adopted, ◌>>=◌,
  ◌>>◌,
}
use holler.Bus.Types.{Route, route_alias, route_actor}
use holler.Bus.Normalize.{has_text, sort_texts}
use holler.Store.Tables.{exists_row, find_row}
use holler.Store.Db.{Db, AliasRow}

-- SELECT EXISTS(SELECT 1 FROM actor_alias_history WHERE alias = name)
abbrev pub was_alias : Db → String → Bool
was_alias db name = exists_row (λ h. h.alias == name) db.alias_history

-- SELECT … FROM actor_aliases WHERE alias = name
abbrev pub find_alias : Db → String → Option AliasRow
find_alias db name = find_row (λ a. a.alias == name) db.aliases

unfoldable pub assert_actor_name_not_alias : Db → String → Result (Unit {0})
assert_actor_name_not_alias db actor = reject (was_alias db actor) alias_conflict

-- SELECT EXISTS(SELECT 1 FROM actor_adoptions WHERE source_actor = actor)
abbrev pub is_adopted : Db → String → Bool
is_adopted db actor = exists_row (λ a. a.source_actor == actor) db.adoptions

unfoldable pub assert_actor_not_adopted : Db → String → Result (Unit {0})
assert_actor_not_adopted db actor = reject (is_adopted db actor) actor_adopted

-- SELECT EXISTS(SELECT 1 FROM actor_lifecycle WHERE actor = ? AND state = 'archived')
abbrev pub is_archived : Db → String → Bool
is_archived db actor = exists_row (λ l. l.actor == actor && l.archived) db.lifecycle

unfoldable pub classify_legacy_routes : Db → List String → List Route
classify_legacy_routes db [] = []
classify_legacy_routes db (recipient ∷ rest) =
    record { kind = if was_alias db recipient then route_alias else route_actor; value = recipient }
    ∷ classify_legacy_routes db rest

abbrev pub alias_target : Db → String → Result String
alias_target db name = elim (find_alias db name) [
  | some a ↦ ok a.actor
  | none ↦ if was_alias db name then err alias_tombstoned else err alias_not_found
]

-- One round of the loop: the actor that the route stands for.
unfoldable pub resolve_route : Db → Route → Result String
unfolding assert_actor_name_not_alias
resolve_route db r =
    if r.kind == route_actor
    then assert_actor_name_not_alias db r.value >> ok r.value
    else if r.kind == route_alias
    then alias_target db r.value
    else ok r.value

-- `resolutions[route.Value] = actor`, for an alias alone.
abbrev pub resolution_of : Route → String → List (String × String)
resolution_of r actor = if r.kind == route_alias then (r.value, actor) ∷ [] else []

-- The loop: `resolved` holds what `seen` knows.
unfoldable pub collect_actors :
    Db
    → List String
    → List (String × String)
    → List Route
    → Result (List String × List (String × String))
unfolding resolve_route
collect_actors db resolved resolutions [] = ok (resolved, resolutions)
collect_actors db resolved resolutions (r ∷ rest) = do
  actor ← resolve_route db r
  collect_actors db (if has_text actor resolved then resolved else resolved ++ (actor ∷ []))
      (resolutions ++ resolution_of r actor) rest

unfoldable pub resolve_routes : Db → List Route → Result (List String × List (String × String))
unfolding collect_actors sort_texts
resolve_routes db requested = do
  (resolved, resolutions) ← collect_actors db [] [] requested
  ok (sort_texts resolved, resolutions)

unfoldable pub actor_identity_exists : Db → String → Bool
actor_identity_exists db actor =
    exists_row (λ a. a.actor == actor) db.allocations
    || exists_row (λ p. p.actor == actor) db.profiles
    || exists_row (λ r. r.actor == actor) db.registrations
    || exists_row (λ m. m.from_actor == actor) db.messages
    || exists_row (λ d. d.recipient_actor == actor) db.deliveries
    || exists_row (λ a. a.source_actor == actor || a.adopting_actor == actor) db.adoptions
    || exists_row (λ h. h.updated_by_actor == actor) db.alias_history
    || exists_row (λ n. n.actor == actor) db.names
