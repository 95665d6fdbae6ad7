-- ===== src/Store/Db.antt =====
-- internal/store/sqlite/schema.sql: the tables, a record for a row, and what a transaction is given:
-- the clock's reading, the caller of the context, and the identifiers that `newID` will make. A row
-- of a table holds the columns that the modelled operations read or write.
use holler.Prelude.{
  ℕ, ◌+◌, ◌%◌, ◌^◌, suc, String, Bool, Option, none, some, List, [], ◌==◌, ltb, if◌then◌else◌,
}
use holler.Bus.Result.{Result, ok, err, failure}
use holler.Bus.Caller.{Caller, Payload}
use holler.Bus.Types.{Route, DeliveryState, AliasClaimResult}

-- requested_recipients_json: absent in old rows, a list of texts in rows written before typed
-- routes, and else a list of routes.
pub data Recipients : Type 0 where
  absent : Recipients
  legacy : List String → Recipients
  typed : List Route → Recipients

-- A NULL that the code reads as "" is kept as "".
pub record MessageRow : Type 0 where
  pub message_id : String
  pub idempotency_key : String
  pub project_id : String
  pub channel_id : String
  pub thread_id : String
  pub from_actor : String
  pub from_run : String
  pub from_role : String
  pub message_type : String
  pub delivery_request : String
  pub in_reply_to : String
  pub body : String
  pub created_at : ℕ
  pub expires_at : Option ℕ
  pub recipients : Recipients
  pub conversation_id : Option String

pub record DeliveryRow : Type 0 where
  pub message_id : String
  pub recipient_actor : String
  pub state : DeliveryState
  pub attempt : ℕ
  pub lease_token : Option String
  pub terminal_lease_token : Option String
  pub lease_expires_at : Option ℕ
  pub claimed_at : Option ℕ
  pub acked_at : Option ℕ
  pub last_error : Option String

pub data OutboxState : Type 0 where
  pending processing accepted done : OutboxState

pub record OutboxRow : Type 0 where
  pub message_id : String
  pub recipient_actor : String
  pub state : OutboxState
  pub attempt : ℕ
  pub available_at : ℕ
  pub last_error : Option String
  pub created_at : ℕ
  pub source : String

pub record AdoptionRow : Type 0 where
  pub source_actor : String
  pub adopting_actor : String
  pub adopting_run : String
  pub project_id : String
  pub idempotency_key : String
  pub transferred : ℕ
  pub deduplicated : ℕ
  pub adopted_at : ℕ

pub record AliasRow : Type 0 where
  pub alias : String
  pub actor : String
  pub revision : ℕ
  pub updated_by_actor : String
  pub updated_by_run : String
  pub project_id : String
  pub idempotency_key : String
  pub updated_at : ℕ

pub record AliasHistoryRow : Type 0 where
  pub alias : String
  pub revision : ℕ
  pub actor : String
  pub action : String
  pub updated_by_actor : String
  pub updated_by_run : String
  pub project_id : String
  pub idempotency_key : String
  pub updated_at : ℕ

-- `row_id` is the table's rowid, which orders the rows that were registered at one time.
pub record RegistrationRow : Type 0 where
  pub row_id : ℕ
  pub actor : String
  pub run_id : String
  pub session_id : String
  pub harness : String
  pub attention_mode : String
  pub delivery_handle : String
  pub project_id : String
  pub working_dir : String
  pub epoch : ℕ
  pub registered_at : ℕ
  pub updated_at : ℕ
  pub lease_expires_at : ℕ
  pub ended_at : Option ℕ
  pub attention_superseded_at : Option ℕ

-- harness_instance_bindings
pub record HarnessBindingRow : Type 0 where
  pub handle : String
  pub actor : String
  pub run_id : String

-- host_attention_bindings
pub record HostBindingRow : Type 0 where
  pub harness_pid : ℕ
  pub harness_start : String
  pub harness_handle : String
  pub host_pid : ℕ
  pub host_start : String
  pub actor : String
  pub run_id : String
  pub session_id : String
  pub admitted_at : Option ℕ
  pub created_at : ℕ
  pub updated_at : ℕ

-- channel_attention_clients, in conversation_schema.sql
pub record AttentionClientRow : Type 0 where
  pub actor : String
  pub run_id : String
  pub native_ready : Bool
  pub monitor_ready : Bool

pub data ConditionState : Type 0 where
  active_visible active_snoozed active_acknowledged resolved : ConditionState

-- operator_conditions
pub record ConditionRow : Type 0 where
  pub kind : String
  pub subject : String
  pub generation : ℕ
  pub state : ConditionState
  pub reason_code : String
  pub summary : String
  pub details : String
  pub first_seen_at : ℕ
  pub last_seen_at : ℕ
  pub resolved_at : Option ℕ
  pub snoozed_until : Option ℕ
  pub acknowledged_at : Option ℕ
  pub presentation_owner : Option String
  pub presentation_lease_until : Option ℕ

-- actor_names
pub record NameRow : Type 0 where
  pub actor : String
  pub first_seen_at : ℕ

-- actor_lifecycle: `archived` is the state, which is 'archived' or 'active'.
pub record LifecycleRow : Type 0 where
  pub actor : String
  pub archived : Bool
  pub archived_with_unread : Bool
  pub changed_by_actor : String
  pub changed_at : ℕ

-- actor_allocations
pub record AllocationRow : Type 0 where
  pub actor : String
  pub base_actor : String
  pub ordinal : ℕ
  pub allocated_at : ℕ
  pub provisional : Bool

-- continuity_bindings
pub record ContinuityRow : Type 0 where
  pub handle : String
  pub actor : String
  pub base_actor : String
  pub created_at : ℕ
  pub updated_at : ℕ

-- actor_profiles
pub record ProfileRow : Type 0 where
  pub actor : String
  pub revision : ℕ
  pub updated_at : ℕ

-- actor_alias_claim_requests, with the result that it stores decoded
pub record AliasClaimRow : Type 0 where
  pub updated_by_actor : String
  pub idempotency_key : String
  pub alias : String
  pub actor : String
  pub policy_id : String
  pub harness : String
  pub project_id : String
  pub claim_result : AliasClaimResult
  pub created_at : ℕ

-- channel_grants, in conversation_schema.sql
pub record GrantRow : Type 0 where
  pub channel_id : String
  pub actor : String
  pub source : String
  pub can_post : Bool
  pub history_from : ℕ
  pub granted_seq : ℕ
  pub revoked_seq : Option ℕ

pub record CounterRow : Type 0 where
  pub partition_id : String
  pub stream : String
  pub next_position : ℕ

pub record EventRow : Type 0 where
  pub event_id : String
  pub partition_id : String
  pub stream : String
  pub position : ℕ
  pub kind : String
  pub message_id : Option String
  pub actor_id : Option String
  pub payload : Option Payload
  pub created_at : ℕ

-- `minted` counts the calls of `newID`.
pub record Db : Type 0 where
  pub messages : List MessageRow
  pub deliveries : List DeliveryRow
  pub outbox : List OutboxRow
  pub adoptions : List AdoptionRow
  pub aliases : List AliasRow
  pub alias_history : List AliasHistoryRow
  pub alias_claims : List AliasClaimRow
  pub registrations : List RegistrationRow
  pub harness_bindings : List HarnessBindingRow
  pub host_bindings : List HostBindingRow
  pub attention_clients : List AttentionClientRow
  pub conditions : List ConditionRow
  pub names : List NameRow
  pub lifecycle : List LifecycleRow
  pub allocations : List AllocationRow
  pub continuity : List ContinuityRow
  pub profiles : List ProfileRow
  pub grants : List GrantRow
  pub counters : List CounterRow
  pub events : List EventRow
  pub minted : ℕ

abbrev pub empty_db : Db
empty_db = record {
  messages = [];
  deliveries = [];
  outbox = [];
  adoptions = [];
  aliases = [];
  alias_history = [];
  alias_claims = [];
  registrations = [];
  harness_bindings = [];
  host_bindings = [];
  attention_clients = [];
  conditions = [];
  names = [];
  lifecycle = [];
  allocations = [];
  continuity = [];
  profiles = [];
  grants = [];
  counters = [];
  events = [];
  minted = 0;
}

-- `new_id prefix n` is what the n-th call of `newID` returns, `none` if it fails.
pub record Env : Type 0 where
  pub now : ℕ
  pub caller : Caller
  pub new_id : String → ℕ → Option String

-- NULLIF(value, '')
abbrev pub null_if_empty : String → Option String
null_if_empty value = elim (holler.Prelude.Tests.same_text value "") [
  | yes _ ↦ none
  | no _ ↦ some value
]

-- A call of `newID`.
unfoldable pub mint : Env → String → Db → Result (String × Db)
mint env prefix db = elim (env.new_id prefix db.minted) [
  | none ↦ err (failure "generate id")
  | some id ↦ ok (id, record db { minted = suc db.minted })
]

abbrev pub max_time : ℕ
max_time = 2 ^ 63

-- `UnixNano` is an int64, which wraps. A time that comes out before 1970 is 0 here: both are past, and
-- neither is the time that was asked for.
unfoldable pub unix_nano : ℕ → ℕ
unix_nano t = let n = t % (2 ^ 64) in if ltb n max_time then n else 0
