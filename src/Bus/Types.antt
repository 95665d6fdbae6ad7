-- ===== src/Bus/Types.antt =====
-- internal/bus/model.go: the data that the daemon's parts exchange. A time is a count of
-- nanoseconds, a `*time.Time` an `Option`. A body is its text.
use holler.Prelude.{ℕ, String, Option, List, Bool}

-- The values of `DeliveryRequest` and `RouteKind` that the code names. A caller may send others, so
-- both are texts, as in the source.
abbrev pub non_blocking : String
non_blocking = "non-blocking"

abbrev pub blocking_requested : String
blocking_requested = "blocking-requested"

abbrev pub wake_requested : String
wake_requested = "wake-requested"

abbrev pub route_alias : String
route_alias = "alias"

abbrev pub route_actor : String
route_actor = "actor"

abbrev pub route_reply : String
route_reply = "reply"

abbrev pub max_body_bytes : ℕ
max_body_bytes = 1048576

pub data DeliveryState : Type 0 where
  queued claimed acked dead_lettered revoked : DeliveryState

pub record Route : Type 0 where
  pub kind : String
  pub value : String

pub record Message : Type 0 where
  pub id : String
  pub idempotency_key : String
  pub project_id : String
  pub channel_id : String
  pub thread_id : String
  pub from_actor : String
  pub from_run : String
  pub from_role : String
  pub to_actors : List String
  pub requested_routes : List Route
  pub message_type : String
  pub delivery_request : String
  pub in_reply_to : String
  pub body : String
  pub created_at : ℕ
  pub expires_at : Option ℕ
  pub requested_to_actors : List String

pub record SendRequest : Type 0 where
  pub idempotency_key : String
  pub project_id : String
  pub channel_id : String
  pub thread_id : String
  pub from_actor : String
  pub from_run : String
  pub from_role : String
  pub to_actors : List String
  pub destinations : List Route
  pub message_type : String
  pub delivery_request : String
  pub in_reply_to : String
  pub body : String
  pub expires_at : Option ℕ
  pub requested_to_actors : List String
  pub requested_routes : List Route

pub record SendResult : Type 0 where
  pub message : Message
  pub duplicate : Bool
  pub notification_state : String

pub record LeaseExtension : Type 0 where
  pub message_id : String
  pub recipient_actor : String
  pub lease_expires_at : ℕ

pub record NotificationJob : Type 0 where
  pub message : Message
  pub recipient_actor : String
  pub attempt : ℕ

-- A disposition that is none of the three is `other`.
pub data NotificationDisposition : Type 0 where
  complete retry accepted : NotificationDisposition
  other : String → NotificationDisposition

pub record InboxItem : Type 0 where
  pub message_id : String
  pub project_id : String
  pub channel_id : String
  pub thread_id : String
  pub from_actor : String
  pub from_role : String
  pub message_type : String
  pub delivery_request : String
  pub state : DeliveryState
  pub attempt : ℕ
  pub available : Bool
  pub created_at : ℕ
  pub expires_at : Option ℕ
  pub recipient_actor : String
  pub original_recipient_actor : String

pub record Claim : Type 0 where
  pub message : Message
  pub recipient_actor : String
  pub original_recipient_actor : String
  pub attempt : ℕ
  pub lease_token : String
  pub lease_expires_at : ℕ

pub record AdoptRequest : Type 0 where
  pub source_actor : String
  pub adopting_actor : String
  pub adopting_run : String
  pub project_id : String
  pub idempotency_key : String

pub record AdoptResult : Type 0 where
  pub source_actor : String
  pub adopting_actor : String
  pub adopting_run : String
  pub transferred : ℕ
  pub deduplicated : ℕ
  pub duplicate_request : Bool
  pub adopted_at : ℕ

pub record AttentionNotice : Type 0 where
  pub message_id : String
  pub thread_id : String
  pub from_actor : String
  pub message_type : String
  pub delivery_request : String

pub record Registration : Type 0 where
  pub actor : String
  pub run_id : String
  pub harness : String
  pub attention_mode : String
  pub session_id : String
  pub delivery_handle : String
  pub project_id : String
  pub working_dir : String
  pub epoch : ℕ
  pub updated_at : ℕ
  pub lease_expires_at : ℕ
  pub host_attention_admitted : Bool

pub record ProcessIdentity : Type 0 where
  pub pid : ℕ
  pub start_fingerprint : String

pub record HostAttentionBinding : Type 0 where
  pub harness_handle : String
  pub harness : ProcessIdentity
  pub host : ProcessIdentity
  pub actor : String
  pub run_id : String
  pub session_id : String
  pub admitted : Bool

pub record RegistrationRequest : Type 0 where
  pub actor : String
  pub run_id : String
  pub harness : String
  pub attention_mode : String
  pub session_id : String
  pub delivery_handle : String
  pub project_id : String
  pub working_dir : String
  pub lease : ℕ
  pub host_attention : Option HostAttentionBinding

pub record NotificationAttempt : Type 0 where
  pub actor : String
  pub run_id : String
  pub session_id : String
  pub harness : String
  pub attempt_result : String
  pub detail : String

pub record ConditionObservation : Type 0 where
  pub kind : String
  pub subject : String
  pub reason_code : String
  pub summary : String
  pub details : String

pub record ActorAlias : Type 0 where
  pub alias : String
  pub actor : String
  pub revision : ℕ
  pub updated_by_actor : String
  pub updated_by_run : String
  pub project_id : String
  pub updated_at : ℕ

pub record AliasClaimRequest : Type 0 where
  pub alias : String
  pub actor : String
  pub policy_id : String
  pub harness : String
  pub updated_by_actor : String
  pub updated_by_run : String
  pub project_id : String
  pub idempotency_key : String

pub record AliasClaimResult : Type 0 where
  pub alias : ActorAlias
  pub claimed : Bool
  pub policy_id : String
  pub duplicate_request : Bool

pub record ActorArchiveMessage : Type 0 where
  pub message_id : String
  pub from_actor : String
  pub created_at : ℕ
  pub thread_id : String
  pub message_type : String
  pub body_preview : String

pub record ActorArchivePreflight : Type 0 where
  pub actor : String
  pub archived : Bool
  pub aliases : List String
  pub unread : List ActorArchiveMessage
  pub unread_truncated : Bool
  pub active_claims : ℕ
  pub control_presence : ℕ
  pub continuity_bindings : ℕ
  pub automatic_eligible : Bool
  pub operator_eligible : Bool
  pub blockers : List String

pub record ActorArchiveResult : Type 0 where
  pub actor : String
  pub archived : Bool
  pub with_unread : Bool
  pub changed_at : ℕ

pub record AliasPreflight : Type 0 where
  pub alias : String
  pub state : String
  pub current_target : String
  pub current_revision : ℕ
  pub proposed_target : String
  pub aliases_on_predecessor : List String
  pub aliases_on_proposed : List String
  pub predecessor : Option ActorArchivePreflight
  pub whole_actor_adoption : Bool

pub record DeliveryReceipt : Type 0 where
  pub message_state : String
  pub requested_route : Route
  pub canonical_recipient : String
  pub route_kind : String
  pub durable_delivery : String
  pub control_presence : String
  pub attention_capability : String
  pub attention_attachment : String
  pub attention_reason : String
  pub attention_detail : String
  pub sender_action : String

pub record ActorBindRequest : Type 0 where
  pub requested_actor : String
  pub run_id : String
  pub name_mode : String
  pub continuity_handles : List String
  pub project_id : String
  pub takeover : Bool
