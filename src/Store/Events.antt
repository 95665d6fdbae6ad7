-- ===== src/Store/Events.antt =====
-- internal/store/sqlite/store.go: `appendEventTx`, the numbered log of each partition and stream.
pub mod Numbering
pub mod Frame
use holler.Prelude.{
  ◌+◌, String, Bool, ◌&&◌, ◌||◌, Option, List, [], ◌∷◌, ◌++◌, eqb, ◌==◌, if◌then◌else◌,
}
use holler.Bus.Result.{Result, ok, reject, or_fail, failure, ◌>>=◌, ◌>>◌}
use holler.Bus.Caller.{Payload}
use holler.Store.Tables.{exists_row, find_row, update_rows}
use holler.Store.Db.{Db, Env, CounterRow, EventRow, null_if_empty, mint}

abbrev pub is_counter : String → String → CounterRow → Bool
is_counter partition stream c = c.partition_id == partition && c.stream == stream

-- INSERT OR IGNORE INTO partition_counters
unfoldable pub ensure_counter : String → String → List CounterRow → List CounterRow
ensure_counter partition stream cs =
    if exists_row (is_counter partition stream) cs
    then cs
    else cs ++ (record { partition_id = partition; stream = stream; next_position = 1 } ∷ [])

unfoldable pub advance_counter : String → String → List CounterRow → List CounterRow
advance_counter partition stream =
    update_rows (is_counter partition stream) λ c. record c { next_position = c.next_position + 1 }

-- The row's key, or its identifier, is already there.
abbrev pub clashes : EventRow → EventRow → Bool
clashes e f =
    f.event_id == e.event_id
    || (f.partition_id == e.partition_id && f.stream == e.stream && eqb f.position e.position)

unfoldable pub insert_event : EventRow → Db → Result Db
insert_event e db = do
  reject (exists_row (clashes e) db.events) (failure "insert event")
  ok (record db { events = db.events ++ (e ∷ []) })

unfoldable pub append_event :
    Env → String → String → String → String → String → Option Payload → Db → Result Db
unfolding ensure_counter advance_counter insert_event mint
append_event env partition stream kind message_id actor_id payload db = do
  let counters = ensure_counter partition stream db.counters
  counter ←
      or_fail (find_row (is_counter partition stream) counters) (failure "read event position")
  (event_id, db') ←
      mint env "evt" (record db { counters = advance_counter partition stream counters })
  insert_event
      (record {
        event_id = event_id;
        partition_id = partition;
        stream = stream;
        position = counter.next_position;
        kind = kind;
        message_id = null_if_empty message_id;
        actor_id = null_if_empty actor_id;
        payload = payload;
        created_at = env.now;
      })
      db'
