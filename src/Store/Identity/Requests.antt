-- ===== src/Store/Identity/Requests.antt =====
-- internal/store/sqlite/identity.go: `normalizeActorBindRequest`.
use Prim.Native.String.{◌++◌ as append}
use holler.Prelude.{
  ℕ, ◌+◌, ◌≤◌, ◌≡◌, sym, ap, ◌∙◌, String, Bool, true, false, ◌&&◌, ◌||◌, not, List, [], ◌∷◌, ltb,
  length, ◌==◌, inl, inr, arith, Bool-cases,
}
use holler.Bus.Result.{
  Result, ok, reject, validation, >>=-eq-ok, ok-injective, reject-eq-ok, ◌>>=◌, ◌>>◌,
}
use holler.Bus.Text.{trim_space, validate_text_identifier}
use holler.Bus.Types.{ActorBindRequest}
use holler.Bus.Normalize.{null, has_text, sort_texts, insert_text, default_text}
use holler.Store.Adoption.{check_fields}
use holler.Store.Identity.{continuity_handle_kind, add_kind}

abbrev pub max_handles : ℕ
max_handles = 8

unfoldable pub trim_bind_request : ActorBindRequest → ActorBindRequest
trim_bind_request request = record request {
  requested_actor = trim_space request.requested_actor;
  run_id = trim_space request.run_id;
  project_id = default_text (trim_space request.project_id) "default";
}

abbrev pub is_namespace : String → Bool
is_namespace kind = kind == "process" || kind == "session" || kind == "launch" || kind == "instance"

-- Without a colon the kind is the handle.
unfoldable pub check_handle : String → Result (Unit {0})
unfolding continuity_handle_kind validate_text_identifier
check_handle handle = do
  let kind = continuity_handle_kind handle
  reject (handle == "") (validation "continuity_handles" "contains an empty handle")
  validate_text_identifier "continuity_handles" handle 512
  reject (kind == "" || kind == handle || handle == append kind ":")
      (validation "continuity_handles" "must contain a non-empty namespace and value")
  reject (not (is_namespace kind))
      (validation "continuity_handles" "namespace must be process, session, launch, or instance")

-- The handles that differ.
unfoldable pub collect_handles : List String → Result (List String)
unfolding check_handle
collect_handles [] = ok []
collect_handles (handle ∷ rest) = do
  check_handle (trim_space handle)
  others ← collect_handles rest
  ok (add_kind (trim_space handle) others)

abbrev pub all_instances : List String → Bool
all_instances [] = true
all_instances (h ∷ hs) =
    let others = all_instances hs in continuity_handle_kind (trim_space h) == "instance" && others

unfoldable pub check_mode : ActorBindRequest → Result (Unit {0})
check_mode request = do
  reject (not (request.name_mode == "exact") && not (request.name_mode == "allocate"))
      (validation "name_mode" "must be exact or allocate")
  reject (request.name_mode == "exact" && not (all_instances request.continuity_handles))
      (validation "continuity_handles" "exact mode accepts only the daemon-owned instance handle")
  reject (request.name_mode == "allocate" && null request.continuity_handles)
      (validation "continuity_handles" "requires at least one handle in allocate mode")
  reject (ltb max_handles (length request.continuity_handles))
      (validation "continuity_handles" "exceeds 8 entries")

abbrev pub bind_fields : ActorBindRequest → List (String × String × ℕ)
bind_fields req =
    ("actor", req.requested_actor, 128)
    ∷ ("run_id", req.run_id, 256)
    ∷ ("project_id", req.project_id, 256)
    ∷ []

unfoldable pub normalize_actor_bind_request : ActorBindRequest → Result ActorBindRequest
unfolding trim_bind_request check_mode collect_handles sort_texts
normalize_actor_bind_request request = do
  let req = trim_bind_request request
  check_fields (bind_fields req)
  check_mode req
  handles ← collect_handles req.continuity_handles
  ok (record req { continuity_handles = sort_texts handles })

length-insert : (t : String) (ts : List String) → length (insert_text t ts) ≤ length ts + 1
unfolding insert_text
length-insert t [] = omega arith
length-insert t (u ∷ us) = let rest = length-insert t us in ground arith

length-sort : (ts : List String) → length (sort_texts ts) ≤ length ts
unfolding sort_texts
length-sort [] = omega arith
length-sort (t ∷ ts) =
    let one = length-insert t (sort_texts ts) in
    let rest = length-sort ts in omega (arith, one, rest)

length-add : (t : String) (ts : List String) → length (add_kind t ts) ≤ length ts + 1
length-add t ts = elim (Bool-cases (has_text t ts)) [
  | inl e ↦ rw e (omega arith)
  | inr e ↦ rw e (omega arith)
]

length-collect :
    (hs : List String) (ts : List String) → collect_handles hs ≡ ok ts → length ts ≤ length hs
unfolding collect_handles
length-collect [] ts h = let same = ap length (ok-injective h) in omega (arith, same)
length-collect (handle ∷ rest) ts h =
    let (_, _, h1) = >>=-eq-ok (check_handle (trim_space handle)) _ h in
    let (others, collected, h2) = >>=-eq-ok (collect_handles rest) _ h1 in
    let fewer = length-collect rest others collected in
    let same = ap length (ok-injective h2) in
    let one = length-add (trim_space handle) others in omega (arith, same, fewer, one)

-- A normalized request has the mode `exact` or `allocate`, an actor, and eight handles at most.
pub normalize_actor_bind_request-bounded :
    (request req : ActorBindRequest)
    → normalize_actor_bind_request request ≡ ok req
    → ((not (req.name_mode == "exact") && not (req.name_mode == "allocate")) ≡ false)
      × ((req.requested_actor == "") ≡ false)
      × (length req.continuity_handles ≤ 8)
unfolding normalize_actor_bind_request check_mode check_fields
normalize_actor_bind_request-bounded request req h =
    let r = trim_bind_request request in
    let (_, fields, h1) = >>=-eq-ok (check_fields (bind_fields r)) _ h in
    let (_, named, _) =
      >>=-eq-ok (reject (r.requested_actor == "") (validation "actor" "is required")) _ fields in
    let (_, mode, h2) = >>=-eq-ok (check_mode r) _ h1 in
    let (handles, collected, h3) = >>=-eq-ok (collect_handles r.continuity_handles) _ h2 in
    let (_, known, m1) =
      >>=-eq-ok (reject (not (r.name_mode == "exact") && not (r.name_mode == "allocate")) _) _
        mode in
    let (_, _, m2) =
      >>=-eq-ok (reject (r.name_mode == "exact" && not (all_instances r.continuity_handles)) _) _
        m1 in
    let (_, _, m3) =
      >>=-eq-ok (reject (r.name_mode == "allocate" && null r.continuity_handles) _) _ m2 in
    let few = reject-eq-ok (ltb max_handles (length r.continuity_handles)) _ m3 in
    let fewer = length-collect r.continuity_handles handles collected in
    let sorted = length-sort handles in
    let made : ActorBindRequest = record r { continuity_handles = sort_texts handles } in
    let same : made ≡ req = ok-injective h3 in
    (
      ap (λ q. not (q.name_mode == "exact") && not (q.name_mode == "allocate")) (sym same)
          ∙ reject-eq-ok _ _ known,
      ap (λ q. q.requested_actor == "") (sym same) ∙ reject-eq-ok _ _ named,
      let count = ap (λ q. length q.continuity_handles) same in
          ground (arith, count, few, fewer, sorted),
    )
