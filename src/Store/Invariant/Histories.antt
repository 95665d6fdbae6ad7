-- ===== src/Store/Invariant/Histories.antt =====
-- internal/store/sqlite: any sequence of the operations, from an empty database on. An operation that
-- fails leaves the tables as they were, so a step is one that succeeds. Between them, what is not
-- modelled may write registrations, names and the other tables of `elsewhere`, and append events.
use holler.Prelude.{ℕ, ◌≡◌, refl, Bool, String, Option, List}
use holler.Bus.Result.{ok}
use holler.Bus.Types.{
  AliasClaimRequest, AliasClaimResult, Claim, LeaseExtension, SendRequest, SendResult, AdoptRequest,
  AdoptResult, NotificationJob, NotificationDisposition,
}
use holler.Store.Db.{
  RegistrationRow, HarnessBindingRow, HostBindingRow, AttentionClientRow, ConditionRow, NameRow,
  LifecycleRow, AllocationRow, ContinuityRow, ProfileRow, GrantRow, AliasClaimRow, Db, Env,
  empty_db,
}
use holler.Store.Events.Numbering.{next_of}
use holler.Store.Claiming.{claim, extend}
use holler.Store.Finishing.{finish}
use holler.Store.Sending.{send}
use holler.Store.Adoption.{adopt_actor}
use holler.Store.Aliases.{AliasMutationResult, set_alias, remove_alias}
use holler.Store.AliasRequests.{AliasSetRequest, AliasRemoveRequest}
use holler.Store.Outbox.{claim_notification, finish_notification}
use holler.Store.Events.{append_event}
use holler.Bus.Caller.{Payload}
use holler.Store.Invariant.{
  same-Keeps, append_event-Keeps, IsSound, HasEndedRow, Keeps, Keeps-IsSound,
}
use holler.Store.Invariant.Leases.{claim-Keeps, extend-Keeps, finish-Keeps}
use holler.Store.Lifecycle.Revoking.{revoke_delivery_lease}
use holler.Store.Invariant.Revocations.{revoke-Keeps}
use holler.Store.AliasClaims.{claim_alias_if_absent}
use holler.Store.Sessions.Rearming.{rearm_accepted_notifications}
use holler.Store.Invariant.Wakes.{claim_alias-Keeps, rearm-Keeps}
use holler.Store.Invariant.Mail.{send-Keeps}
use holler.Store.Invariant.Names.{
  adopt-Keeps, set_alias-Keeps, remove_alias-Keeps, claim_notification-Keeps,
  finish_notification-Keeps,
}

pub data StoreStep (db db' : Db) : Type 0 where
  sends :
      (json_valid : String → Bool) (env : Env) (request : SendRequest) (r : SendResult)
      → send json_valid env request db ≡ ok (r, db')
      → StoreStep db db'
  claims :
      (env : Env) (actor wanted : String) (lease : ℕ) (c : Claim)
      → claim env actor wanted lease db ≡ ok (c, db')
      → StoreStep db db'
  extends :
      (env : Env) (actor m token : String) (lease : ℕ) (e : LeaseExtension)
      → extend env actor m token lease db ≡ ok (e, db')
      → StoreStep db db'
  finishes :
      (env : Env) (actor m token : String) (ack final : Bool) (reason : String)
      → finish env actor m token ack final reason db ≡ ok db'
      → StoreStep db db'
  adopts :
      (env : Env) (request : AdoptRequest) (r : AdoptResult)
      → adopt_actor env request db ≡ ok (r, db')
      → StoreStep db db'
  sets_alias :
      (env : Env) (request : AliasSetRequest) (r : AliasMutationResult)
      → set_alias env request db ≡ ok (r, db')
      → StoreStep db db'
  removes_alias :
      (env : Env) (request : AliasRemoveRequest) (r : AliasMutationResult)
      → remove_alias env request db ≡ ok (r, db')
      → StoreStep db db'
  claims_job :
      (env : Env) (job : NotificationJob)
      → claim_notification env db ≡ ok (job, db')
      → StoreStep db db'
  finishes_job :
      (env : Env) (job : NotificationJob) (disposition : NotificationDisposition) (detail : String)
      → finish_notification env job disposition detail db ≡ ok db'
      → StoreStep db db'
  claims_alias :
      (env : Env) (request : AliasClaimRequest) (r : AliasClaimResult)
      → claim_alias_if_absent env request db ≡ ok (r, db')
      → StoreStep db db'
  rearms :
      (env : Env) (actor : String)
      → rearm_accepted_notifications env actor db ≡ ok db'
      → StoreStep db db'
  revokes :
      (env : Env) (actor message_id : String) (grace : ℕ)
      → revoke_delivery_lease env actor message_id grace db ≡ ok db'
      → StoreStep db db'
  elsewhere :
      (registrations : List RegistrationRow) (harness_bindings : List HarnessBindingRow)
      (host_bindings : List HostBindingRow) (attention_clients : List AttentionClientRow)
      (conditions : List ConditionRow) (names : List NameRow) (lifecycle : List LifecycleRow)
      (allocations : List AllocationRow) (continuity : List ContinuityRow)
      (profiles : List ProfileRow) (grants : List GrantRow) (alias_claims : List AliasClaimRow)
      (minted : ℕ)
      → db' ≡ record db {
        registrations = registrations;
        harness_bindings = harness_bindings;
        host_bindings = host_bindings;
        attention_clients = attention_clients;
        conditions = conditions;
        names = names;
        lifecycle = lifecycle;
        allocations = allocations;
        continuity = continuity;
        profiles = profiles;
        grants = grants;
        alias_claims = alias_claims;
        minted = minted;
      }
      → StoreStep db db'
  notes :
      (env : Env) (p s kind m a : String) (payload : Option Payload)
      → append_event env p s kind m a payload db ≡ ok db'
      → StoreStep db db'

pub data History : Db → Type 0 where
  empty : History empty_db
  then_step : {db db' : Db} → History db → StoreStep db db' → History db'

StoreStep-Keeps : {db db' : Db} → StoreStep db db' → Keeps db db'
StoreStep-Keeps {db} {db'} (sends json_valid env request r h) =
    send-Keeps json_valid env request db (r, db') h
StoreStep-Keeps {db} {db'} (claims env actor wanted lease c h) =
    claim-Keeps env actor wanted lease db c db' h
StoreStep-Keeps {db} {db'} (extends env actor m token lease e h) =
    extend-Keeps env actor m token lease db (e, db') h
StoreStep-Keeps {db} {db'} (finishes env actor m token ack final reason h) =
    finish-Keeps env actor m token ack final reason db db' h
StoreStep-Keeps {db} {db'} (adopts env request r h) = adopt-Keeps env request db (r, db') h
StoreStep-Keeps {db} {db'} (sets_alias env request r h) = set_alias-Keeps env request db (r, db') h
StoreStep-Keeps {db} {db'} (removes_alias env request r h) =
    remove_alias-Keeps env request db (r, db') h
StoreStep-Keeps {db} {db'} (claims_job env job h) = claim_notification-Keeps env db (job, db') h
StoreStep-Keeps {db} {db'} (finishes_job env job disposition detail h) =
    finish_notification-Keeps env job disposition detail db db' h
StoreStep-Keeps {db} {db'} (claims_alias env request r h) =
    claim_alias-Keeps env request db (r, db') h
StoreStep-Keeps {db} {db'} (rearms env actor h) = rearm-Keeps env actor db db' h
StoreStep-Keeps {db} {db'} (revokes env actor m grace h) = revoke-Keeps env actor m grace db db' h
StoreStep-Keeps {db} {db'} (elsewhere rs hs bs cs os ns ls as' ts ps gs ms n e) =
    rw e (same-Keeps db _ refl refl refl refl)
StoreStep-Keeps {db} {db'} (notes env p s kind m a payload h) =
    append_event-Keeps env p s kind m a payload db db' h

empty_db-IsSound : IsSound empty_db
empty_db-IsSound = record {
  keyed = tt;
  fitting = tt;
  numbered = λ p s. record { positions = tt; counter = unfold next_of in refl };
  unchained = λ actor h. cc;
  sourced = tt;
}

-- After any sequence of sends, claims, extensions, acknowledgements, refusals, revocations, adoptions,
-- alias mutations and claims, rearms and notification steps, between which registrations, names and the
-- other tables of `elsewhere` may change and events be appended, from the empty database on, no two
-- deliveries have one message and recipient, the columns of each delivery go with its state, every event
-- stream is numbered 1, 2, 3, … without a gap, no inbox is adopted twice, and no actor that adopted an
-- inbox has its own inbox adopted.
pub History-IsSound : {db : Db} → History db → IsSound db
History-IsSound empty = empty_db-IsSound
History-IsSound (then_step {db} {db'} past now) =
    Keeps-IsSound db db' (StoreStep-Keeps now) (History-IsSound past)

-- A sequence of such steps from some tables on.
pub data StorePath (db : Db) : Db → Type 0 where
  here : StorePath db db
  after : {db1 db2 : Db} → StorePath db db1 → StoreStep db1 db2 → StorePath db db2

pub StorePath-History : {db db' : Db} → History db → StorePath db db' → History db'
StorePath-History past here = past
StorePath-History past (after path now) = then_step (StorePath-History past path) now

-- What is over stays over.
pub StorePath-ended :
    (db db' : Db) (m r : String)
    → History db
    → StorePath db db'
    → HasEndedRow m r db.deliveries
    → HasEndedRow m r db'.deliveries
StorePath-ended db db' m r past here h = h
StorePath-ended db db' m r past (after {db1} path now) h =
    (StoreStep-Keeps now).ended (History-IsSound (StorePath-History past path)).keyed m r
      (StorePath-ended db db1 m r past path h)
