-- ===== src/Bus/Caller.antt =====
-- internal/bus/caller.go: who calls, and the provenance that an event records of it. A context is
-- modelled by the caller that it carries.
use holler.Prelude.{String, List, [], ◌∷◌, ◌++◌, ℕ, ◌==◌, if◌then◌else◌}
use holler.Bus.Text.{trim_space}

pub record Caller : Type 0 where
  pub actor : String
  pub run_id : String
  pub client : String
  pub build_id : String
  pub daemon_build_id : String

-- The context without a value: `Caller{}`.
abbrev pub no_caller : Caller
no_caller = record { actor = ""; run_id = ""; client = ""; build_id = ""; daemon_build_id = "" }

unfoldable pub with_caller : Caller → Caller
with_caller c = record {
  actor = trim_space c.actor;
  run_id = trim_space c.run_id;
  client = trim_space c.client;
  build_id = trim_space c.build_id;
  daemon_build_id = trim_space c.daemon_build_id;
}

-- A value of an event's payload, before the JSON encoder.
pub data Value : Type 0 where
  text : String → Value
  number : ℕ → Value
  texts : List String → Value
  table : List (String × String) → Value

abbrev pub Payload : Type 0
Payload = List (String × Value)

-- `if value != "" { payload[key] = value }`
abbrev pub unless_empty : String → String → Payload
unless_empty key value = if value == "" then [] else (key, text value) ∷ []

unfoldable pub event_provenance : Caller → String → Payload
event_provenance c fallback_run =
    (("run_id", text (if c.run_id == "" then trim_space fallback_run else c.run_id)) ∷ [])
    ++ unless_empty "client" c.client
    ++ unless_empty "client_build" c.build_id
    ++ unless_empty "daemon_build" c.daemon_build_id
