-- ===== src/Store/Recipients/Updates.antt =====
-- internal/store/sqlite/store.go: a statement that keeps the keys of `deliveries` keeps who handles them.
use holler.Prelude.{◌≡◌, refl, String, Bool, List, arith}
use mathlib.Core.Option
use holler.Store.Tables.{update_rows}
use holler.Store.Tables.Rows.{changed, first-update}
use holler.Store.Db.{Db, DeliveryRow, AdoptionRow}
use holler.Store.Recipients.{effective_delivery, preferred, is_candidate}

module _ (seen : DeliveryRow → Bool) (change : DeliveryRow → DeliveryRow)
    (same_message : (d : DeliveryRow) → (change d).message_id ≡ d.message_id)
    (same_recipient : (d : DeliveryRow) → (change d).recipient_actor ≡ d.recipient_actor) where
  pub changed-message : (d : DeliveryRow) → (changed seen change d).message_id ≡ d.message_id
  changed-message d = ground (arith, same_message d)

  pub changed-recipient :
      (d : DeliveryRow) → (changed seen change d).recipient_actor ≡ d.recipient_actor
  changed-recipient d = ground (arith, same_recipient d)

  candidate-changed :
      (as' : List AdoptionRow) (who m : String) (d : DeliveryRow)
      → is_candidate as' who m (changed seen change d) ≡ is_candidate as' who m d
  candidate-changed as' who m d = rw (changed-message d, changed-recipient d) refl

  preferred-changed :
      (as' : List AdoptionRow) (who : String) (d e : DeliveryRow)
      → preferred as' who (changed seen change d) (changed seen change e) ≡ preferred as' who d e
  unfolding preferred
  preferred-changed as' who d e = rw (changed-recipient d, changed-recipient e) refl

  pub effective_delivery-update :
      (db db' : Db)
      → db'.deliveries ≡ update_rows seen change db.deliveries
      → db'.adoptions ≡ db.adoptions
      → (who m : String)
      → effective_delivery db' who m
        ≡ Option.map (changed seen change) (effective_delivery db who m)
  unfolding effective_delivery
  effective_delivery-update db db' deliveries adoptions who m =
      rw (deliveries, adoptions)
        (first-update seen change (is_candidate db.adoptions who m) (preferred db.adoptions who)
          db.deliveries (candidate-changed db.adoptions who m) (preferred-changed db.adoptions who))
