-- ===== src/Store/Addressing.antt =====
-- internal/store/sqlite/store.go: what `Send` does of its request before it stores a message: the routes,
-- the parent of a reply, the recipients.
use holler.Prelude.{
  ℕ, String, Bool, false, ◌&&◌, ◌||◌, not, Option, none, some, List, [], ◌∷◌, ◌++◌, leb, ◌==◌,
  if◌then◌else◌,
}
use holler.Bus.Result.{Result, ok, err, reject, validation, ◌>>=◌, ◌>>◌}
use holler.Bus.Text.{is_human_actor}
use holler.Bus.Types.{Message, SendRequest, route_reply}
use holler.Bus.Normalize.{null}
use holler.Store.Db.{Db, NameRow}
use holler.Store.Tables.{exists_row}
use holler.Store.Messages.{get_message_by_id}
use holler.Store.Routes.{is_adopted, is_archived, classify_legacy_routes, resolve_routes}

-- `req.ExpiresAt != nil && !req.ExpiresAt.After(now)`
abbrev pub is_past : ℕ → Option ℕ → Bool
is_past now none = false
is_past now (some t) = leb t now

-- The routes that the request asks for, before the parent of a reply is known.
unfoldable pub stamp_routes : Db → SendRequest → SendRequest
stamp_routes db req = record req {
  requested_to_actors = req.to_actors;
  requested_routes =
      if not (null req.destinations)
      then req.destinations
      else if req.in_reply_to == ""
      then classify_legacy_routes db req.to_actors
      else req.requested_routes;
}

-- An error of `get_message_by_id` is that the parent is not there.
abbrev pub parent_of : Db → String → Result Message
parent_of db id = elim (get_message_by_id db id) [
  | ok m ↦ ok m
  | err e ↦ err (validation "in_reply_to" "message does not exist")
]

-- What a reply takes from its parent.
unfoldable pub stamp_reply : Message → SendRequest → Result SendRequest
stamp_reply parent req = do
  reject (not (req.project_id == parent.project_id) || not (req.channel_id == parent.channel_id))
      (validation "in_reply_to" "message belongs to a different project or channel")
  reject (not (req.thread_id == "") && not (req.thread_id == parent.thread_id))
      (validation "thread_id" "does not match in_reply_to message")
  ok (record req {
    thread_id = if req.thread_id == "" then parent.thread_id else req.thread_id;
    requested_routes = record { kind = route_reply; value = parent.id } ∷ [];
  })

-- The parent, if the request is a reply, and the request with its routes.
unfoldable pub stamp : Db → SendRequest → Result (Option Message × SendRequest)
unfolding stamp_routes stamp_reply
stamp db req =
    let stamped = stamp_routes db req in
    if req.in_reply_to == "" then ok (none, stamped) else do
      parent ← parent_of db req.in_reply_to
      replied ← stamp_reply parent stamped
      ok (some parent, replied)

abbrev pub is_only : String → List String → Bool
is_only a [] = false
is_only a (x ∷ []) = x == a
is_only a (x ∷ y ∷ rest) = false

-- The canonical recipients, and the aliases that were resolved.
unfoldable pub resolve_recipients :
    Db → Option Message → SendRequest → Result (List String × List (String × String))
resolve_recipients db none req = resolve_routes db req.requested_routes
resolve_recipients db (some parent) req =
    if null req.to_actors then ok (parent.from_actor ∷ [], []) else do
      (resolved, _) ← resolve_routes db (classify_legacy_routes db req.to_actors)
      reject (not (is_only parent.from_actor resolved)) (
          validation "to_actors"
            "does not match the immutable sender of in_reply_to; omit it when replying")
      ok (parent.from_actor ∷ [], [])

-- INSERT OR IGNORE INTO actor_names
unfoldable pub reserve_name : ℕ → String → List NameRow → List NameRow
reserve_name now actor names =
    if exists_row (λ n. n.actor == actor) names
    then names
    else names ++ (record { actor = actor; first_seen_at = now } ∷ [])

unfoldable pub reserve_names : ℕ → List String → List NameRow → List NameRow
unfolding reserve_name
reserve_names now [] names = names
reserve_names now (a ∷ rest) names = reserve_names now rest (reserve_name now a names)

abbrev pub any_human : List String → Bool
any_human [] = false
any_human (a ∷ rest) = let others = any_human rest in is_human_actor a || others

-- A recipient that is archived takes no message, unless its inbox was adopted.
abbrev pub refuses_mail : Db → List String → Bool
refuses_mail db [] = false
refuses_mail db (a ∷ rest) =
    let others = refuses_mail db rest in (is_archived db a && not (is_adopted db a)) || others
