-- ===== src/Store/Lifecycle.antt =====
-- internal/store/sqlite/lifecycle.go: what keeps an actor from being archived, and the messages that
-- its operator reviews before.
pub mod Archiving
pub mod Revoking
pub mod Archived
pub mod Predecessors
pub mod Revoked
use holler.Prelude.{
  ℕ, ◌+◌, String, Bool, true, false, ◌&&◌, ◌||◌, not, Option, none, some, List, [], ◌∷◌, ◌++◌, map,
  suc, eqb, ltb, leb, length, ◌==◌, if◌then◌else◌,
}
use holler.Bus.Result.{Result, ok, reject, validation, not_found, channel_capability, ◌>>=◌, ◌>>◌}
use holler.Bus.Text.{trim_space, is_human_actor}
use holler.Bus.Types.{ActorArchiveMessage, ActorArchivePreflight}
use holler.Bus.Normalize.{null, text_le}
use holler.Store.Tables.{exists_row, find_row, select_rows, count_rows, order_rows, take}
use holler.Store.Db.{Db, Env, MessageRow, DeliveryRow}
use holler.Store.Messages.{legacy_messages, has_id}
use holler.Store.Recipients.{handles}
use holler.Store.Transition.{is_claimed}
use holler.Store.Routes.{is_archived}
use holler.Store.Adoption.{is_live, is_null, is_running, has_open_message}
use holler.Store.Claiming.{is_claimable, is_older}
use holler.Store.AliasClaims.{aliases_for_actor}

abbrev pub preview_chars : ℕ
preview_chars = 256

-- The first characters of a text, and whether there are more.
unfoldable pub cut_chars : ℕ → String → String × Bool
cut_chars n String.[] = (String.[], false)
cut_chars Prim.Native.Nat.zero (String.◌∷◌ c s) = (String.[], true)
cut_chars (suc n) (String.◌∷◌ c s) = let rest = cut_chars n s in (String.◌∷◌ c rest.0, rest.1)

-- A body is its text here, so that it is valid UTF-8.
unfoldable pub bounded_archive_preview : String → String
unfolding cut_chars
bounded_archive_preview body =
    let cut = cut_chars preview_chars body in
    if cut.1 then Prim.Native.String.◌++◌ cut.0 "…" else body

-- channel_grants WHERE actor = ? AND revoked_seq IS NULL
abbrev pub has_grant : Db → String → Bool
has_grant db actor = exists_row (λ g. g.actor == actor && is_null g.revoked_seq) db.grants

abbrev pub points_to : Db → String → Bool
points_to db actor = exists_row (λ a. a.actor == actor) db.aliases

-- A claim of a delivery that the actor handles, whose lease runs.
abbrev pub is_open_claim : Db → String → ℕ → DeliveryRow → Bool
is_open_claim db actor now d =
    handles db.adoptions actor d.recipient_actor
    && is_claimed d.state
    && is_running now d.lease_expires_at

-- A delivery that the actor handles and can claim.
abbrev pub is_unread : Db → String → ℕ → DeliveryRow → Bool
is_unread db actor now d =
    handles db.adoptions actor d.recipient_actor
    && is_claimable now d
    && has_open_message now (legacy_messages db) d

-- ROW_NUMBER() OVER (PARTITION BY m.message_id ORDER BY d.recipient_actor) = 1
abbrev pub is_first_unread : Db → String → ℕ → DeliveryRow → Bool
is_first_unread db actor now d =
    is_unread db actor now d
    && not (
        exists_row
          (λ e.
            is_unread db actor now e
            && e.message_id == d.message_id
            && not (text_le d.recipient_actor e.recipient_actor))
          db.deliveries)

abbrev pub add_message : Option MessageRow → List MessageRow → List MessageRow
add_message none ms = ms
add_message (some m) ms = m ∷ ms

-- JOIN legacy_messages m ON m.message_id = d.message_id
abbrev pub messages_of : List MessageRow → List DeliveryRow → List MessageRow
messages_of ms [] = []
messages_of ms (d ∷ ds) = add_message (find_row (has_id d.message_id) ms) (messages_of ms ds)

-- ORDER BY created_at_ns, message_id
unfoldable pub unread_messages : Db → String → ℕ → List MessageRow
unread_messages db actor now =
    order_rows is_older
      (messages_of (legacy_messages db) (select_rows (is_first_unread db actor now) db.deliveries))

abbrev pub read_archive_message : MessageRow → ActorArchiveMessage
unfolding bounded_archive_preview
read_archive_message m = record {
  message_id = m.message_id;
  from_actor = m.from_actor;
  created_at = m.created_at;
  thread_id = m.thread_id;
  message_type = m.message_type;
  body_preview = bounded_archive_preview m.body;
}

abbrev pub blocker_if : Bool → String → List String
blocker_if true name = name ∷ []
blocker_if false name = []

-- The last part: which archivings the counts allow.
unfoldable pub judge :
    String
    → Bool
    → List String
    → List ActorArchiveMessage
    → Bool
    → ℕ
    → ℕ
    → ℕ
    → ActorArchivePreflight
judge actor archived aliases unread truncated claims presence bindings =
    let eligible = null aliases && eqb presence 0 && eqb claims 0 in
    record {
      actor = actor;
      archived = archived;
      aliases = aliases;
      unread = unread;
      unread_truncated = truncated;
      active_claims = claims;
      control_presence = presence;
      continuity_bindings = bindings;
      automatic_eligible = eligible && null unread && not truncated && eqb bindings 0;
      operator_eligible = eligible;
      blockers =
          blocker_if (not (null aliases)) "aliases_point_to_actor"
          ++ blocker_if (not (eqb presence 0)) "control_presence_live"
          ++ blocker_if (not (eqb claims 0)) "active_claims";
    }

abbrev pub archive_limit : ℕ → ℕ
archive_limit limit = if eqb limit 0 || ltb 100 limit then 25 else limit

unfoldable pub archive_preflight : Env → String → ℕ → Db → Result ActorArchivePreflight
unfolding unread_messages judge aliases_for_actor
archive_preflight env actor limit db = do
  let who = trim_space actor
  reject (who == "") (validation "actor" "is required")
  reject (not (exists_row (λ n. n.actor == who) db.names)) not_found
  reject (has_grant db who || is_human_actor who) channel_capability
  let unread = unread_messages db who env.now
  ok (
      judge who (is_archived db who) (aliases_for_actor who db)
        (map read_archive_message (take (archive_limit limit) unread))
        (ltb (archive_limit limit) (length unread))
        (count_rows
          (λ d. is_open_claim db who env.now d && has_open_message env.now (legacy_messages db) d)
          db.deliveries)
        (count_rows (λ r. r.actor == who && is_live env.now r) db.registrations)
        (count_rows (λ c. c.actor == who) db.continuity))
