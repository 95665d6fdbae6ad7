-- ===== src/Store/Events/Numbering.antt =====
-- internal/store/sqlite/store.go: the positions of the event log.
use holler.Prelude.{
  ℕ, suc, ◌+◌, ◌≡◌, refl, ap, ◌∙◌, Bool, true, ◌&&◌, String, Option, none, some, List, [], ◌∷◌,
  ◌++◌, length, arith, ◌==◌, if◌then◌else◌, Bool-cases, Option-cases, inl, inr,
}
use mathlib.Core.List.{append-nil}
use holler.Bus.Result.{ok}
use holler.Bus.Caller.{Payload}
use holler.Store.Tables.{find_row, select_rows, exists_row}
use mathlib.Core.Option
use holler.Store.Tables.Rows.{
  changed, find-append, find-update, find-holds, exists-find, exists-append, exists-find_some,
}
use holler.Store.Db.{Db, Env, CounterRow, EventRow, null_if_empty}
use holler.Store.Events.{is_counter, append_event, ensure_counter, advance_counter}

-- The tables that an event leaves alone.
pub record SameTables (db db' : Db) : Type 0 where
  pub messages : db'.messages ≡ db.messages
  pub deliveries : db'.deliveries ≡ db.deliveries
  pub outbox : db'.outbox ≡ db.outbox
  pub adoptions : db'.adoptions ≡ db.adoptions
  pub aliases : db'.aliases ≡ db.aliases
  pub alias_history : db'.alias_history ≡ db.alias_history
  pub alias_claims : db'.alias_claims ≡ db.alias_claims
  pub registrations : db'.registrations ≡ db.registrations
  pub host_bindings : db'.host_bindings ≡ db.host_bindings
  pub conditions : db'.conditions ≡ db.conditions
  pub names : db'.names ≡ db.names
  pub lifecycle : db'.lifecycle ≡ db.lifecycle

abbrev pub in_stream : String → String → EventRow → Bool
in_stream p s e = e.partition_id == p && e.stream == s

-- The position that the counter of a partition and stream gives next.
abbrev position_of : Option CounterRow → ℕ
position_of none = 1
position_of (some c) = c.next_position

unfoldable pub next_of : String → String → List CounterRow → ℕ
next_of p s cs = position_of (find_row (is_counter p s) cs)

abbrev pub NumberedFrom : ℕ → List EventRow → Type 0
NumberedFrom k [] = Unit
NumberedFrom k (e ∷ es) = (e.position ≡ k) × NumberedFrom (suc k) es

-- The events of a partition and stream are numbered 1, 2, 3, … in the order of their insertion, and
-- its counter holds the number after the last.
pub record IsNumbered (p s : String) (db : Db) : Type 0 where
  pub positions : NumberedFrom 1 (select_rows (in_stream p s) db.events)
  pub counter : next_of p s db.counters ≡ suc (length (select_rows (in_stream p s) db.events))

NumberedFrom-append :
    (k : ℕ) (es : List EventRow) (e : EventRow)
    → e.position ≡ k + length es
    → NumberedFrom k es
    → NumberedFrom k (es ++ (e ∷ []))
NumberedFrom-append k [] e h n = (omega arith, tt)
NumberedFrom-append k (x ∷ es) e h n = (n.0, NumberedFrom-append (suc k) es e (omega arith) n.1)

select-append :
    (test : EventRow → Bool) (es fs : List EventRow)
    → select_rows test (es ++ fs) ≡ select_rows test es ++ select_rows test fs
select-append test [] fs = refl
select-append test (e ∷ es) fs = ground (arith, select-append test es fs)

length-snoc : (es : List EventRow) (e : EventRow) → length (es ++ (e ∷ [])) ≡ suc (length es)
length-snoc [] e = refl
length-snoc (x ∷ es) e = ap suc (length-snoc es e)

next-ensure :
    (p s p' s' : String) (cs : List CounterRow)
    → next_of p' s' (ensure_counter p s cs) ≡ next_of p' s' cs
unfolding next_of ensure_counter
next-ensure p s p' s' cs = ground (
  arith,
  find-append (is_counter p' s') cs
      (record { partition_id = p; stream = s; next_position = 1 } ∷ []),
  exists-find (is_counter p s) cs,
)

exists-ensure :
    (p s : String) (cs : List CounterRow)
    → exists_row (is_counter p s) (ensure_counter p s cs) ≡ true
unfolding ensure_counter
exists-ensure p s cs = ground (
  arith,
  exists-append (is_counter p s) cs
      (record { partition_id = p; stream = s; next_position = 1 } ∷ []),
)

abbrev advanced : CounterRow → CounterRow
advanced c = record c { next_position = c.next_position + 1 }

next-advanced :
    (p s p' s' : String) (cs : List CounterRow) (c : CounterRow)
    → find_row (is_counter p s) cs ≡ some c
    → position_of (Option.map (changed (is_counter p s) advanced) (find_row (is_counter p' s') cs))
      ≡ (if p == p' && s == s' then suc (next_of p s cs) else next_of p' s' cs)
unfolding next_of
next-advanced p s p' s' cs c found = elim (Option-cases (find_row (is_counter p' s') cs)) [
  | inl e ↦ ground (arith, find-holds (is_counter p s) cs c found)
  | inr (x, e) ↦
      ground (arith, find-holds (is_counter p s) cs c found, find-holds (is_counter p' s') cs x e)
]

next-advance :
    (p s p' s' : String) (cs : List CounterRow)
    → exists_row (is_counter p s) cs ≡ true
    → next_of p' s' (advance_counter p s cs)
      ≡ (if p == p' && s == s' then suc (next_of p s cs) else next_of p' s' cs)
next-advance p s p' s' cs there =
    let (c, found) = exists-find_some (is_counter p s) cs there in
    unfold next_of advance_counter in
    ap position_of (find-update (is_counter p s) advanced (is_counter p' s') cs (λ x. ground arith))
    ∙ next-advanced p s p' s' cs c found

-- What an appended event leaves behind.
pub append_event_inv :
    (env : Env) (p s kind m a : String) (payload : Option Payload) (db db' : Db)
    → append_event env p s kind m a payload db ≡ ok db'
    → (e : EventRow) × (db'.events ≡ db.events ++ (e ∷ []))
      × (e.partition_id ≡ p)
      × (e.stream ≡ s)
      × (e.position ≡ next_of p s (ensure_counter p s db.counters))
      × (db'.counters ≡ advance_counter p s (ensure_counter p s db.counters))
      × SameTables db db'
unfolding append_event next_of
append_event_inv env p s kind m a payload db db' h =
    elim (Option-cases (find_row (is_counter p s) (ensure_counter p s db.counters))) [
      | inl e ↦ absurd (ground arith)
      | inr (c, e) ↦ elim (Option-cases (env.new_id "evt" db.minted)) [
        | inl f ↦ absurd (ground arith)
        | inr (id, f) ↦ (
          record {
            event_id = id;
            partition_id = p;
            stream = s;
            position = c.next_position;
            kind = kind;
            message_id = null_if_empty m;
            actor_id = null_if_empty a;
            payload = payload;
            created_at = env.now;
          },
          ground arith,
          refl,
          refl,
          ground arith,
          ground arith,
          ground arith,
        )
      ]
    ]

-- The number that an event of the stream gets, and what its counter then gives next.
module _ (p s p' s' : String) (cs : List CounterRow) (e : EventRow) (n : ℕ)
    (ep : e.partition_id ≡ p) (es : e.stream ≡ s)
    (at : e.position ≡ next_of p s (ensure_counter p s cs))
    (before : next_of p' s' cs ≡ suc n) where
  position-mine : in_stream p' s' e ≡ true → e.position ≡ suc n
  position-mine mine = ground (arith, next-ensure p s p s cs)

  counter-after :
      next_of p' s' (advance_counter p s (ensure_counter p s cs))
      ≡ (if in_stream p' s' e then suc (suc n) else suc n)
  counter-after =
      rw (next-advance p s p' s' (ensure_counter p s cs) (exists-ensure p s cs))
        (ground (arith, next-ensure p s p s cs, next-ensure p s p' s' cs))

-- Appending an event keeps every partition and stream numbered without a gap.
pub append_event-IsNumbered :
    (env : Env) (p s kind m a : String) (payload : Option Payload) (db db' : Db) (p' s' : String)
    → append_event env p s kind m a payload db ≡ ok db'
    → IsNumbered p' s' db
    → IsNumbered p' s' db'
append_event-IsNumbered env p s kind m a payload db db' p' s' h n =
    let (e, events, ep, es, at, counters, _) = append_event_inv env p s kind m a payload db db' h in
    let old = select_rows (in_stream p' s') db.events in
    let mine = position-mine p s p' s' db.counters e (length old) ep es at n.counter in
    let after = counter-after p s p' s' db.counters e (length old) ep es at n.counter in
    elim (Bool-cases (in_stream p' s' e)) [
      | inl here ↦ record {
        positions =
            rw (events, select-append (in_stream p' s') db.events (e ∷ []), here)
              (NumberedFrom-append 1 old e (omega (arith, mine here)) n.positions);
        counter =
            rw (events, counters, select-append (in_stream p' s') db.events (e ∷ []), here, after)
              (rw (here, length-snoc old e));
      }
      | inr there ↦ record {
        positions =
            rw (events, select-append (in_stream p' s') db.events (e ∷ []), there, append-nil)
              n.positions;
        counter =
            rw
              (
                events,
                counters,
                select-append (in_stream p' s') db.events (e ∷ []),
                there,
                append-nil,
                after,
              )
              (rw there);
      }
    ]
