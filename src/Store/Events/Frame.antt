-- ===== src/Store/Events/Frame.antt =====
-- What the parts of a transaction that number and name things leave alone.
use holler.Prelude.{◌≡◌, String, Option, arith}
use holler.Bus.Result.{ok}
use holler.Bus.Caller.{Payload}
use holler.Store.Db.{Db, Env, mint}
use holler.Store.Events.{append_event}
use holler.Store.Events.Numbering.{SameTables, IsNumbered, append_event_inv}

-- Numbered streams stay numbered.
abbrev pub KeepsNumbers : Db → Db → Type 0
KeepsNumbers db db' = (p s : String) → IsNumbered p s db → IsNumbered p s db'

pub KeepsNumbers-same :
    (db db' : Db) → db'.events ≡ db.events → db'.counters ≡ db.counters → KeepsNumbers db db'
KeepsNumbers-same db db' events counters p s n = record {
  positions = rw events n.positions;
  counter = rw (events, counters) n.counter;
}

pub mint-SameTables :
    (env : Env) (prefix : String) (db db' : Db) (id : String)
    → mint env prefix db ≡ ok (id, db')
    → SameTables db db'
unfolding mint
mint-SameTables env prefix db db' id h = ground arith

pub mint-KeepsNumbers :
    (env : Env) (prefix : String) (db db' : Db) (id : String)
    → mint env prefix db ≡ ok (id, db')
    → KeepsNumbers db db'
mint-KeepsNumbers env prefix db db' id h =
    unfold mint in KeepsNumbers-same db db' (ground arith) (ground arith)

pub append_event-SameTables :
    (env : Env) (p s kind m a : String) (payload : Option Payload) (db db' : Db)
    → append_event env p s kind m a payload db ≡ ok db'
    → SameTables db db'
append_event-SameTables env p s kind m a payload db db' h =
    (append_event_inv env p s kind m a payload db db' h).6
