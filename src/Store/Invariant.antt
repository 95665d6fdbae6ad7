-- ===== src/Store/Invariant.antt =====
-- What every operation of internal/store/sqlite keeps of the tables.
pub mod Leases
pub mod Mail
pub mod Names
pub mod Revocations
pub mod Wakes
pub mod Histories
pub mod Endings
pub mod Inboxes
use holler.Prelude.{ℕ, ◌≡◌, ◌∙◌, refl, Bool, true, false, ◌&&◌, ◌||◌, ◌==◌, List, String, Option}
use holler.Bus.Result.{ok}
use holler.Bus.Caller.{Payload}
use holler.Store.Db.{Db, Env, DeliveryRow, AdoptionRow, mint}
use holler.Store.Events.{append_event}
use holler.Store.Events.Numbering.{SameTables, IsNumbered, append_event-IsNumbered}
use holler.Store.Events.Frame.{
  KeepsNumbers, KeepsNumbers-same, mint-SameTables, mint-KeepsNumbers, append_event-SameTables,
}
use holler.Store.Tables.{exists_row}
use holler.Store.Tables.Keyed.{KeyedBy}
use holler.Store.Recipients.{is_delivery}
use holler.Store.Transition.{is_acked, is_dead_lettered}
use holler.Store.Recipients.Keys.{IsKeyed}
use holler.Store.Tables.Rows.{AllRows}
use holler.Store.Transition.States.{FitsState}
use holler.Store.Routes.{is_adopted}
use holler.Store.Adoption.{is_adopter}

-- No actor that adopted an inbox has its own inbox adopted.
abbrev pub Unchained : Db → Type 0
Unchained db = (actor : String) → is_adopter db actor ≡ true → is_adopted db actor ≡ false

abbrev pub same_source : AdoptionRow → AdoptionRow → Bool
same_source a b = a.source_actor == b.source_actor

-- No inbox is adopted twice.
abbrev pub Sourced : Db → Type 0
Sourced db = KeyedBy same_source db.adoptions

abbrev pub is_ended : DeliveryRow → Bool
is_ended d = is_acked d.state || is_dead_lettered d.state

-- The delivery of the message to the recipient is over.
abbrev pub HasEndedRow : String → String → List DeliveryRow → Type 0
HasEndedRow m r ds = exists_row (λ d. is_delivery m r d && is_ended d) ds ≡ true

-- No two deliveries have one message and recipient, the columns of each go with its state, every
-- event stream is numbered without a gap, adoptions do not chain, and none has the source of another.
pub record IsSound (db : Db) : Type 0 where
  pub keyed : IsKeyed db.deliveries
  pub fitting : AllRows FitsState db.deliveries
  pub numbered : (p s : String) → IsNumbered p s db
  pub unchained : Unchained db
  pub sourced : Sourced db

-- An operation keeps each of them, and what is over.
pub record Keeps (db db' : Db) : Type 0 where
  pub keyed : IsKeyed db.deliveries → IsKeyed db'.deliveries
  pub fitting :
      IsKeyed db.deliveries → AllRows FitsState db.deliveries → AllRows FitsState db'.deliveries
  pub numbers : KeepsNumbers db db'
  pub unchained : Unchained db → Unchained db'
  pub sourced : Sourced db → Sourced db'
  pub ended :
      IsKeyed db.deliveries
      → (m r : String) → HasEndedRow m r db.deliveries
      → HasEndedRow m r db'.deliveries

pub Keeps-IsSound : (db db' : Db) → Keeps db db' → IsSound db → IsSound db'
Keeps-IsSound db db' k s = record {
  keyed = k.keyed s.keyed;
  fitting = k.fitting s.keyed s.fitting;
  numbered = λ p q. k.numbers p q (s.numbered p q);
  unchained = k.unchained s.unchained;
  sourced = k.sourced s.sourced;
}

pub Keeps-trans : (a b c : Db) → Keeps a b → Keeps b c → Keeps a c
Keeps-trans a b c k l = record {
  keyed = λ h. l.keyed (k.keyed h);
  fitting = λ u h. l.fitting (k.keyed u) (k.fitting u h);
  numbers = λ p s n. l.numbers p s (k.numbers p s n);
  unchained = λ h. l.unchained (k.unchained h);
  sourced = λ h. l.sourced (k.sourced h);
  ended = λ u m r h. l.ended (k.keyed u) m r (k.ended u m r h);
}

-- The same rows, but for tables that none of this reads.
pub same-Keeps :
    (db db' : Db)
    → db'.deliveries ≡ db.deliveries
    → db'.adoptions ≡ db.adoptions
    → db'.events ≡ db.events
    → db'.counters ≡ db.counters
    → Keeps db db'
same-Keeps db db' deliveries adoptions events counters = record {
  keyed = λ h. rw deliveries h;
  fitting = λ u h. rw deliveries h;
  numbers = KeepsNumbers-same db db' events counters;
  unchained = λ h. rw adoptions h;
  sourced = λ h. rw adoptions h;
  ended = λ u m r h. rw deliveries h;
}

pub SameTables-Keeps : (db db' : Db) → SameTables db db' → KeepsNumbers db db' → Keeps db db'
SameTables-Keeps db db' same numbers = record {
  keyed = λ h. rw same.deliveries h;
  fitting = λ u h. rw same.deliveries h;
  numbers = numbers;
  unchained = λ h. rw same.adoptions h;
  sourced = λ h. rw same.adoptions h;
  ended = λ u m r h. rw same.deliveries h;
}

pub mint-Keeps :
    (env : Env) (prefix : String) (db db' : Db) (id : String)
    → mint env prefix db ≡ ok (id, db')
    → Keeps db db'
mint-Keeps env prefix db db' id h =
    SameTables-Keeps db db' (mint-SameTables env prefix db db' id h)
      (mint-KeepsNumbers env prefix db db' id h)

pub append_event-Keeps :
    (env : Env) (p s kind m a : String) (payload : Option Payload) (db db' : Db)
    → append_event env p s kind m a payload db ≡ ok db'
    → Keeps db db'
append_event-Keeps env p s kind m a payload db db' h =
    SameTables-Keeps db db' (append_event-SameTables env p s kind m a payload db db' h)
      (λ p' s'. append_event-IsNumbered env p s kind m a payload db db' p' s' h)
