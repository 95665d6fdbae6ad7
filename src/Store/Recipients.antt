-- ===== src/Store/Recipients.antt =====
-- internal/store/sqlite/store.go: which delivery of a message an actor handles. An actor handles its
-- own, unless its inbox was adopted, and those of the actors that it adopted.
pub mod Keys
pub mod Updates
use holler.Prelude.{
  String, Bool, false, ◌&&◌, ◌||◌, not, Option, none, some, List, ◌==◌, if◌then◌else◌,
}
use holler.Bus.Result.{Result, ok, or_fail, not_found, ◌>>=◌}
use holler.Bus.Normalize.{text_le}
use holler.Store.Tables.{find_row, select_rows, first_row}
use holler.Store.Db.{Db, DeliveryRow, AdoptionRow}

-- LEFT JOIN actor_adoptions a ON a.source_actor = actor: source_actor is the primary key of the table,
-- so the join finds one row at most.
unfoldable pub adoption_of : List AdoptionRow → String → Option AdoptionRow
adoption_of as' actor = find_row (λ a. a.source_actor == actor) as'

-- (d.recipient_actor = actor AND a.source_actor IS NULL) OR a.adopting_actor = actor
unfoldable pub handles : List AdoptionRow → String → String → Bool
unfolding adoption_of
handles as' actor recipient = elim (adoption_of as' recipient) [
  | none ↦ recipient == actor
  | some a ↦ a.adopting_actor == actor
]

abbrev pub is_own : List AdoptionRow → String → String → Bool
is_own as' actor recipient = elim (adoption_of as' recipient) [
  | none ↦ recipient == actor
  | some a ↦ false
]

-- ORDER BY CASE WHEN own THEN 0 ELSE 1 END, d.recipient_actor
unfoldable pub preferred : List AdoptionRow → String → DeliveryRow → DeliveryRow → Bool
unfolding adoption_of
preferred as' actor d e =
    if is_own as' actor d.recipient_actor
    then not (is_own as' actor e.recipient_actor) || text_le d.recipient_actor e.recipient_actor
    else not (is_own as' actor e.recipient_actor) && text_le d.recipient_actor e.recipient_actor

abbrev pub is_candidate : List AdoptionRow → String → String → DeliveryRow → Bool
is_candidate as' actor message_id d =
    d.message_id == message_id && handles as' actor d.recipient_actor

-- The candidate with preference 1.
unfoldable pub effective_delivery : Db → String → String → Option DeliveryRow
unfolding handles preferred
effective_delivery db actor message_id =
    first_row (preferred db.adoptions actor)
      (select_rows (is_candidate db.adoptions actor message_id) db.deliveries)

unfoldable pub effective_delivery_recipient : Db → String → String → Result String
effective_delivery_recipient db actor message_id = do
  d ← or_fail (effective_delivery db actor message_id) not_found
  ok d.recipient_actor

unfoldable pub adoption_provenance : String → String → String
adoption_provenance actor original = if actor == original then "" else original

-- WHERE message_id = ? AND recipient_actor = ?
abbrev pub is_delivery : String → String → DeliveryRow → Bool
is_delivery message_id recipient d = d.message_id == message_id && d.recipient_actor == recipient
