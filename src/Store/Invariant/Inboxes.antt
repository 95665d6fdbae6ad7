-- ===== src/Store/Invariant/Inboxes.antt =====
-- internal/store/sqlite/store.go: who handles the deliveries of a recipient, by the join that the
-- statements make, and by the one adoption that the model looks up.
use holler.Prelude.{
  ◌≡◌, refl, sym, ◌∙◌, String, Bool, true, ◌&&◌, ◌||◌, not, List, arith, ◌==◌, inl, inr,
  Option-cases, Bool-cases,
}
use holler.Store.Tables.{exists_row, find_row}
use holler.Store.Tables.Rows.{find-holds}
use holler.Store.Tables.Keyed.{KeyedBy, exists-key, exists-weaken, find-exists, find-none}
use holler.Store.Db.{Db, AdoptionRow}
use holler.Store.Recipients.{handles, adoption_of}
use holler.Store.Invariant.{same_source}
use holler.Store.Invariant.Histories.{History, History-IsSound}

-- LEFT JOIN actor_adoptions a ON a.source_actor = d.recipient_actor, and
-- (d.recipient_actor = actor AND a.source_actor IS NULL) OR a.adopting_actor = actor
unfoldable pub joins : List AdoptionRow → String → String → Bool
joins as' actor recipient =
    (recipient == actor && not (exists_row (λ a. a.source_actor == recipient) as'))
    || exists_row (λ a. a.source_actor == recipient && a.adopting_actor == actor) as'

handles-joins :
    (as' : List AdoptionRow) (actor recipient : String)
    → KeyedBy same_source as'
    → joins as' actor recipient ≡ handles as' actor recipient
unfolding joins handles adoption_of
handles-joins as' actor recipient keyed =
    let source = λ (a : AdoptionRow). a.source_actor == recipient in
    let mine = λ (a : AdoptionRow). a.adopting_actor == actor in
    elim (Option-cases (find_row source as')) [
      | inl e ↦
          let none_there = find-none source as' e in
          let none_mine =
            exists-weaken (λ a. source a && mine a) source as' (λ a f. ground arith) none_there in
          rw (handles, e, none_there, none_mine) (ground arith)
      | inr (a, e) ↦
          let holds = find-holds source as' a e in
          let there = find-exists source source as' a e holds in
          elim (Bool-cases (mine a)) [
            | inl f ↦
                let hit =
                  find-exists (λ x. source x && mine x) source as' a e (rw (holds, f) refl) in
                rw (handles, e, there, hit, f) (ground arith)
            | inr f ↦
                let miss =
                  exists-key same_source source mine (λ x y p q. ground arith) as' a keyed e f in
                rw (handles, e, there, miss, f) (ground arith)
          ]
    ]

-- After any sequence of the operations from the empty database on, the join of the statements gives the
-- deliveries of a recipient to one actor at most, and that is the actor that the lookup of one adoption
-- gives them to.
pub History-handlers :
    (db : Db) (a b recipient : String)
    → History db
    → joins db.adoptions a recipient ≡ true
    → joins db.adoptions b recipient ≡ true
    → (a ≡ b) × (handles db.adoptions a recipient ≡ true)
unfolding handles
History-handlers db a b recipient past ha hb =
    let keyed = (History-IsSound past).sourced in
    let left = sym (handles-joins db.adoptions a recipient keyed) ∙ ha in
    let right = sym (handles-joins db.adoptions b recipient keyed) ∙ hb in (ground arith, left)
