-- ===== src/Store/Reading/Offers.antt =====
-- internal/store/sqlite/store.go: what `CheckInbox` calls available, and what `Claim` finds.
use holler.Prelude.{
  ℕ, ◌≡◌, refl, sym, ap, ◌∙◌, String, Bool, true, false, some, List, [], ◌∷◌, inl, inr, arith,
  Bool-cases, Option-cases, is_some, ◌==◌,
}
use holler.Bus.Result.{ok, >>=-eq-ok, ok-injective, reject, validation}
use holler.Bus.Text.{trim_space, same_text-equal}
use holler.Bus.Types.{InboxItem}
use holler.Store.Tables.{exists_row, find_row, select_rows, order_rows, take}
use holler.Store.Tables.Rows.{AllRows, find-holds}
use holler.Store.Tables.Queries.{
  AllRows-select, AllRows-order, AllRows-take, AllRows-map, Occurs, AllRows-Occurs, find-first,
  exists-false, first-exists,
}
use holler.Store.Db.{Db, Env, MessageRow, DeliveryRow}
use holler.Store.Messages.{legacy_messages, is_unexpired}
use holler.Store.Recipients.{effective_delivery}
use holler.Store.Claiming.{is_claimable, is_offered, is_older, claim_candidate}
use holler.Store.Reading.{is_listed, inbox_item, inbox_items, inbox_limit, check_inbox}

-- A message that is not expired, among the messages of the store.
abbrev pub Waits : Db → ℕ → MessageRow → Type 0
Waits db now m = (is_unexpired now m ≡ true) × Occurs (legacy_messages db) m

abbrev pub shows : String → InboxItem → Bool
shows id item = item.message_id == id

-- The row that an item was read from.
inbox-source :
    (db : Db) (actor id : String) (now : ℕ) (ms : List MessageRow) (item : InboxItem)
    → AllRows (Waits db now) ms
    → find_row (shows id) (inbox_items db actor now ms) ≡ some item
    → (m : MessageRow) × (d : DeliveryRow) × Waits db now m
      × (effective_delivery db actor m.message_id ≡ some d)
      × (inbox_item actor now m d ≡ item)
unfolding inbox_items
inbox-source db actor id now [] item all h = cc
inbox-source db actor id now (m ∷ ms) item all h =
    elim (Option-cases (effective_delivery db actor m.message_id)) [
      | inl e ↦
          let same : inbox_items db actor now (m ∷ ms) ≡ inbox_items db actor now ms =
            rw (inbox_items, e) refl in
          inbox-source db actor id now ms item all.1 (ap (find_row (shows id)) (sym same) ∙ h)
      | inr (d, e) ↦
          let first : inbox_items db actor now (m ∷ ms)
              ≡ inbox_item actor now m d ∷ inbox_items db actor now ms =
            rw (inbox_items, e) refl in
          elim (find-first (shows id) (inbox_item actor now m d) (inbox_items db actor now ms) item
            (ap (find_row (shows id)) (sym first) ∙ h)) [
              | inl here ↦ (m, d, all.0, e, here)
              | inr there ↦ inbox-source db actor id now ms item all.1 there
            ]
    ]

offered-none :
    (db : Db) (actor id : String) (now : ℕ) (d : DeliveryRow)
    → (id == "") ≡ false
    → effective_delivery db actor id ≡ some d
    → is_claimable now d ≡ false
    → (m : MessageRow) → is_offered db actor id now m ≡ false
unfolding is_offered
offered-none db actor id now d named eff over m = elim (Bool-cases (m.message_id == id)) [
  | inl e ↦
      let found = ap (effective_delivery db actor) (same_text-equal m.message_id id e) ∙ eff in
      rw (found, over) (ground arith)
  | inr e ↦ rw (named, e) (ground arith)
]

-- A listed message is offered exactly when its delivery can be claimed.
pub offers :
    (db : Db) (actor id : String) (now : ℕ) (m : MessageRow) (d : DeliveryRow)
    → Waits db now m
    → effective_delivery db actor m.message_id ≡ some d
    → m.message_id ≡ id
    → (id == "") ≡ false
    → exists_row (is_offered db actor id now) (legacy_messages db) ≡ is_claimable now d
unfolding is_offered
offers db actor id now m d waits eff shown named = elim (Bool-cases (is_claimable now d)) [
  | inl e ↦
      waits.1 (is_offered db actor id now) (rw (waits.0, eff, e, shown) (ground arith)) ∙ sym e
  | inr e ↦
      exists-false (is_offered db actor id now) (legacy_messages db) (
        offered-none db actor id now d named (ap (effective_delivery db actor) (sym shown) ∙ eff) e)
      ∙ sym e
]

-- Of a message that `CheckInbox` lists, `Claim` finds a delivery to lease at that time exactly when the
-- list says that it is available. The identifier of the message is not empty.
pub check_inbox-offers :
    (env : Env) (actor id : String) (limit : ℕ) (db : Db) (items : List InboxItem)
    (item : InboxItem)
    → check_inbox env actor limit db ≡ ok items
    → find_row (shows id) items ≡ some item
    → (id == "") ≡ false
    → is_some (claim_candidate db (trim_space actor) id env.now) ≡ item.available
unfolding check_inbox is_listed claim_candidate
check_inbox-offers env actor id limit db items item h found named =
    let (_, _, h1) =
      >>=-eq-ok (reject (trim_space actor == "") (validation "actor" "is required")) _ h in
    let who = trim_space actor in
    let listed = select_rows (is_listed db who env.now) (legacy_messages db) in
    let all = AllRows-take (Waits db env.now) (inbox_limit limit) (order_rows is_older listed) (
      AllRows-order (Waits db env.now) is_older listed (
        AllRows-map (λ m. (is_listed db who env.now m ≡ true) × Occurs (legacy_messages db) m)
          (Waits db env.now) listed (λ m p. (ground arith, p.1))
          (AllRows-select (Occurs (legacy_messages db)) (is_listed db who env.now)
            (legacy_messages db) (AllRows-Occurs (legacy_messages db))))) in
    let (m, d, waits, eff, same) =
      inbox-source db who id env.now (take (inbox_limit limit) (order_rows is_older listed)) item
        all (ap (find_row (shows id)) (ok-injective h1) ∙ found) in
    let shown : m.message_id ≡ id =
      ap (λ i. i.message_id) same
      ∙ same_text-equal item.message_id id (find-holds (shows id) items item found) in
    first-exists (is_offered db who id env.now) is_older (legacy_messages db)
    ∙ offers db who id env.now m d waits eff shown named
    ∙ ap (λ i. i.available) same
