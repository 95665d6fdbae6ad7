-- ===== src/Store/Conditions/Reconciling.antt =====
-- internal/store/sqlite/conditions.go: `ReconcileStaleUnreadConditions`. Each condition is observed or
-- resolved in a transaction of its own, so the result is what was committed, and the answer. `json_valid`
-- stands for `json.Valid`, `encode` for `json.Marshal` of the details and `decimal` for the verb `%d`.
use Prim.Native.String.{◌++◌ as append}
use holler.Prelude.{
  ℕ, ◌+◌, ◌-◌, ◌/◌, String, Bool, true, ◌&&◌, not, none, some, List, [], ◌∷◌, eqb, leb, ◌==◌,
  if◌then◌else◌,
}
use holler.Bus.Result.{Result, ok, err, validation}
use holler.Bus.Types.{ConditionObservation, non_blocking}
use holler.Bus.Normalize.{text_le}
use holler.Store.Tables.{exists_row, select_rows}
use holler.Store.Db.{Db, Env, MessageRow, DeliveryRow, AdoptionRow, ConditionRow}
use holler.Store.Messages.{legacy_messages, is_unexpired, has_id}
use holler.Store.Recipients.{adoption_of}
use holler.Store.Claiming.{is_claimable}
use holler.Store.Outbox.{second}
use holler.Store.Conditions.{is_resolved, observe_condition, resolve_condition, list_conditions}

-- COALESCE(a.adopting_actor, d.recipient_actor)
unfoldable pub handler_of : List AdoptionRow → String → String
unfolding adoption_of
handler_of as' recipient = elim (adoption_of as' recipient) [
  | none ↦ recipient
  | some a ↦ a.adopting_actor
]

-- A message that asks for attention and is older than `stale_after`.
abbrev pub is_stale : ℕ → ℕ → MessageRow → Bool
is_stale now stale_after m =
    not (m.delivery_request == non_blocking)
    && is_unexpired now m
    && leb (m.created_at + stale_after) now

pub record StaleUnread : Type 0 where
  pub actor : String
  pub count : ℕ
  pub oldest : ℕ

abbrev pub earlier : ℕ → ℕ → ℕ
earlier s t = if leb s t then s else t

-- GROUP BY actor, with COUNT(*) and MIN(m.created_at_ns), in the order of the actors.
abbrev pub add_stale : String → ℕ → List StaleUnread → List StaleUnread
add_stale actor t [] = record { actor = actor; count = 1; oldest = t } ∷ []
add_stale actor t (g ∷ gs) =
    let rest = add_stale actor t gs in
    if g.actor == actor
    then record g { count = g.count + 1; oldest = earlier g.oldest t } ∷ gs
    else if text_le actor g.actor
    then record { actor = actor; count = 1; oldest = t } ∷ g ∷ gs
    else g ∷ rest

abbrev pub add_messages : String → List MessageRow → List StaleUnread → List StaleUnread
add_messages actor [] gs = gs
add_messages actor (m ∷ ms) gs = add_stale actor m.created_at (add_messages actor ms gs)

unfoldable pub stale_unread : ℕ → ℕ → Db → List DeliveryRow → List StaleUnread
unfolding handler_of
stale_unread now stale_after db [] = []
stale_unread now stale_after db (d ∷ ds) =
    let rest = stale_unread now stale_after db ds in
    if is_claimable now d
    then add_messages (handler_of db.adoptions d.recipient_actor)
        (select_rows (λ m. has_id d.message_id m && is_stale now stale_after m)
          (legacy_messages db))
        rest
    else rest

module _ (json_valid : String → Bool) (encode : String → ℕ → ℕ → ℕ → String)
    (decimal : ℕ → String) where
  unfoldable pub stale_observation : ℕ → StaleUnread → ConditionObservation
  stale_observation now g = record {
    kind = "stale_unread";
    subject = g.actor;
    reason_code = "wake_requested_unclaimed_threshold";
    summary =
        append (decimal g.count)
          (append " wake-requested message(s) for " (append g.actor " remain unclaimed"));
    details = encode g.actor g.count g.oldest ((now - g.oldest) / second);
  }

  -- The first loop: an error leaves what was observed before it.
  unfoldable pub observe_stale : ℕ → Env → List StaleUnread → Db → Db × Result (Unit {0})
  unfolding stale_observation
  observe_stale now env [] db = (db, ok tt)
  observe_stale now env (g ∷ gs) db =
      elim (observe_condition json_valid env (stale_observation now g) db) [
        | err e ↦ (db, err e)
        | ok (c, db1) ↦ observe_stale now env gs db1
      ]

abbrev pub is_gone : List StaleUnread → ConditionRow → Bool
is_gone active c =
    c.kind == "stale_unread"
    && not (is_resolved c.state)
    && not (exists_row (λ g. g.actor == c.subject) active)

-- The second loop.
unfoldable pub resolve_gone :
    Env → List StaleUnread → List ConditionRow → Db → Db × Result (Unit {0})
resolve_gone env active [] db = (db, ok tt)
resolve_gone env active (c ∷ cs) db =
    let skipped = resolve_gone env active cs db in
    if is_gone active c
    then (elim (resolve_condition env c.kind c.subject db) [
      | err e ↦ (db, err e)
      | ok db1 ↦ resolve_gone env active cs db1
    ])
    else skipped

unfoldable pub resolve_listed : Env → List StaleUnread → Db → Db × Result (Unit {0})
unfolding resolve_gone
resolve_listed env active db =
    let (listed, db1) = list_conditions env true 500 db in resolve_gone env active listed db1

-- `env` and `later` are the readings of the clock in the query and after it.
unfoldable pub reconcile_stale_unread_conditions :
    (String → Bool)
    → (String → ℕ → ℕ → ℕ → String)
    → (ℕ → String)
    → Env
    → Env
    → ℕ
    → Db
    → Db × Result (Unit {0})
unfolding stale_unread observe_stale resolve_listed
reconcile_stale_unread_conditions json_valid encode decimal env later stale_after db =
    let stale = stale_unread env.now stale_after db db.deliveries in
    if eqb stale_after 0
    then (db, err (validation "stale_unread_after" "must be positive"))
    else let (db1, answer) = observe_stale json_valid encode decimal env.now later stale db in
      elim answer [ err e ↦ (db1, err e) | ok _ ↦ resolve_listed later stale db1 ]
