-- ===== src/Lib.antt =====
-- holler, the local durable message bus for agents: the core of its daemon.
--
-- The daemon keeps messages, deliveries, leases, adoptions, aliases and an event log in SQLite
-- (internal/store/sqlite), normalizes requests with internal/bus, and tells parked sessions of new
-- messages through an in-memory broker (internal/attention). A sender calls Send, which stores a
-- message, a delivery for each recipient, and jobs in the notification outbox. The dispatcher
-- claims a job and calls the broker's Notify, which wakes a parked Wait. The woken actor calls Claim,
-- which leases a delivery to it under a fresh token and closes the job, and ends it by Ack or Nack.
--
-- Files:
--   Bus/*                  internal/bus/model.go, caller.go, conversation.go: the types, the errors,
--                          NormalizeSendRequest (Normalize), EquivalentRequest (Equivalent),
--                          trimming and validation of text (Text), callers and provenance (Caller)
--   Attention, Attention/* internal/attention/broker.go: each critical section of the mutex is a
--                          function (attach_key, begin_wait, remove_waiter, notify, cancel_key);
--                          Calls has the calls as steps that interleave freely
--   Store/Tables, Db       internal/store/sqlite/schema.sql: statements on rows, and the tables
--   Store/Events           appendEventTx of store.go
--   Store/Messages         getMessageByIDTx, getMessageByIdempotencyTx of store.go
--   Store/Recipients       effectiveDeliveryRecipientTx of store.go
--   Store/Transition       delivery_transition.go
--   Store/Claiming         Claim, Extend of store.go; Held has sequences of claims under a lease
--   Store/Finishing        finish, Ack, Nack of store.go
--   Store/Reading          CheckInbox, ListEvents of store.go
--   Store/Addressing,       Send of store.go: the routes, the parent and the recipients of a request,
--     Sending              and the rows, the events and the answer to a retry
--   Store/Routes           resolveRoutesTx, classifyLegacyRoutesTx of alias.go; the checks of names
--   Store/AliasRequests,   SetAlias, RemoveAlias, ResolveAlias of alias.go: the requests, and the
--     Aliases              mutations
--   Store/AliasClaims      ClaimAliasIfAbsent, ListAliases, aliasesForActor of alias.go
--   Store/Adoption         adoption.go
--   Store/Lifecycle        lifecycle.go: ArchivePreflight, and the archiving and restoring of actors
--                          (Archiving), RevokeDeliveryLease (Revoking), and AliasPreflight of
--                          alias.go (Predecessors), which asks for a preflight
--   Store/Availability     availability.go
--   Store/Identity         identity.go: names, allocations, the actor of a set of handles, the
--                          presences of other runs (Presences), the requests (Requests)
--   Store/Outbox           notification_outbox.go
--   Store/HostAttention    host_attention.go, and bindHostAttentionTx of registration.go
--   Store/Sessions         registration.go: RegisterSession (Registering), AttachMonitor (Monitors),
--                          RearmAcceptedNotifications (Rearming), and the others; Lifetimes has
--                          sequences of them
--   Store/Conditions       conditions.go; Lifecycle, Exclusive and Presenting have sequences of its
--                          operations, and Reconciling has ReconcileStaleUnreadConditions
--   Store/Invariant        what each of the store's operations keeps, sequences of them (Histories),
--                          and what follows for claims (Endings) and adoptions (Inboxes)
--   Examples               runs at concrete inputs
--
-- How the code is modelled:
--   - A transaction is a function from the tables to a result: an error, which leaves the tables as
--     they were, or a value and the new tables. The daemon holds the only connection, so one
--     transaction is one step. Errors of the SQL driver are not modelled.
--   - A time is its nanoseconds as a natural number; a duration or a limit that is not positive is 0.
--     UnixNano is kept as the code has it for the times that a request brings, the expiry of a message
--     and the end of a snooze: it wraps after the year 2262 (unix_nano of Store/Db).
--     Times of the clock are before that year.
--     The clock's reading, the caller, and what newID returns are the arguments in Env; newID may
--     fail, and nothing is assumed of the identifiers that it makes.
--   - json.Valid is a parameter of normalize_send_request, and the encoding of the details of a
--     condition and of a decimal number are parameters of the reconciliation. JSON columns are kept
--     decoded, and an event's payload is kept before it is encoded.
--   - AttachMonitor gives up the presence of an older monitor and commits that before it returns its
--     error, so its result is what it commits together with its answer, which may be an error.
--     The reconciliation of stale unread messages commits each condition by itself, and has such a
--     result too. An operation of several transactions has an Env for each reading of the clock.
--   - A wrapped error is the error that it wraps. The cut of a notification's detail at 4096 bytes
--     is made at a whole character.
--   - A Go channel of one place is an optional value; a channel is named by a number that no other
--     call uses. The two maps of the broker are functions.
--   - A hash of an identifier is a parameter of allocate_actor, which makes 256 attempts like the
--     code. No function of the model uses fuel: each other loop of the modelled code runs along a list.
--
-- Not modelled: the opening, migration and backup of the database; BindActor and managed
-- conversations (internal/store/sqlite); the daemon's loop, the HTTP and MCP servers, the gateway, the
-- connectors, the lab and the commands, which are input and output around the store and the broker.
pub mod Prelude
pub mod Bus
pub mod Attention
pub mod Store
pub mod Examples
