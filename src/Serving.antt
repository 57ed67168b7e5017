-- ===== src/Serving.antt =====
-- server.rs, connection.rs and context.rs: one connection of a server. `Dispatch` hands a request to
-- the handler, `Handshake` negotiates, `Loop` is the connection loop with the tasks that it spawns.
-- The serializers are one record of parameters; the result types of the handler are one type `R`.
pub mod Dispatch
pub mod Handshake
pub mod Loop
pub mod Tokens
pub mod Counts
pub mod Growth
pub mod Preservation
pub mod Answers
pub mod Gating
pub mod Permitted
pub mod Draining
pub mod Stopping
pub mod Ordering
pub mod Cancellation
pub mod Tests
use tmcp.Base.{
  ℕ, zero, suc, ◌/◌, Bool, true, false, ◌&&◌, Option, none, some, List, [], ◌∷◌, arith,
  if◌then◌else◌, is_some, is_none, is_empty, Eq, ◌==◌, nat_eq, mem, Text, text, text_eq, Result,
  ◌>>=◌, ◌>>◌,
}
use mathlib.Core.Option
use tmcp.Base.Map.{get, insert, remove}
use tmcp.Errors.{Error}
use tmcp.Requests.{request_id_eq, RequestId}
use tmcp.JsonRpc.{
  Object, ProgressToken, RequestMeta, RequestParams, Notification, NotificationParams,
  JsonrpcMessage, meta_key, method_key,
}

-- schema/notifications.rs; the fields of most variants are kept as one object.
pub data ServerNotification (V : Type 0) : Type 0 where
  tool_list_changed resource_list_changed prompt_list_changed : Object V → ServerNotification V
  elicitation_complete task_status resource_updated : Object V → ServerNotification V
  logging_message progress : Object V → ServerNotification V
  cancelled : (request_id : Option RequestId) (reason : Option Text) → ServerNotification V

pub data ClientNotification (V : Type 0) : Type 0 where
  initialized roots_list_changed status_changed progressed : Object V → ClientNotification V
  cancels : (request_id : Option RequestId) → ClientNotification V

pub record PromptsCapability : Type 0 where
  pub list_changed : Option Bool

pub record ResourcesCapability : Type 0 where
  pub subscribe : Option Bool
  pub list_changed : Option Bool

pub record ToolsCapability : Type 0 where
  pub list_changed : Option Bool

pub record ServerCapabilities (V : Type 0) : Type 0 where
  pub experimental : Option (Object V)
  pub logging : Option V
  pub completions : Option V
  pub prompts : Option PromptsCapability
  pub resources : Option ResourcesCapability
  pub tools : Option ToolsCapability
  pub tasks : Option V
  pub extra : Object V

abbrev pub default_capabilities : {V : Type 0} → ServerCapabilities V
default_capabilities = record {
  experimental = none;
  logging = none;
  completions = none;
  prompts = none;
  resources = none;
  tools = none;
  tasks = none;
  extra = [];
}

pub record InitializeRequest (V : Type 0) : Type 0 where
  pub protocol_version : Text
  pub capabilities : V
  pub client_info : V

-- `rest` has the server's description.
pub record InitializeResult (V : Type 0) : Type 0 where
  pub protocol_version : Text
  pub capabilities : ServerCapabilities V
  pub rest : Object V

-- Only a call of a tool reads its metadata.
pub data ClientRequest (V : Type 0) : Type 0 where
  initialize : InitializeRequest V → ClientRequest V
  ping : ClientRequest V
  list_tools : (cursor : Option Text) → ClientRequest V
  call_tool :
      (name : Text) (arguments : Option (Object V)) (task : Option V)
      (meta : Option (RequestMeta V))
      → ClientRequest V
  list_resources list_resource_templates : (cursor : Option Text) → ClientRequest V
  read_resource subscribe unsubscribe : (uri : Text) → ClientRequest V
  list_prompts : (cursor : Option Text) → ClientRequest V
  get_prompt : (name : Text) (arguments : Option (List (Text × Text))) → ClientRequest V
  complete : (reference argument : V) (context : Option V) → ClientRequest V
  set_level : (level : V) → ClientRequest V
  get_task get_task_payload : (task_id : Text) → ClientRequest V
  list_tasks : (cursor : Option Text) → ClientRequest V
  cancel_task : (task_id : Text) → ClientRequest V

-- The derived serializers and deserializers. `value_of` is that of the results of the handler.
pub record Serde (V R : Type 0) : Type 0 where
  pub string_value : Text → V
  pub object_value : Object V → V
  pub as_object : V → Option (Object V)
  pub meta_value : RequestMeta V → Result Error V
  pub parse_request : Object V → Result Text (ClientRequest V)
  pub parse_notification : Object V → Result Text (ClientNotification V)
  pub value_of : R → Result Error V
  pub initialize_value : InitializeResult V → Option V
  pub notification_value : ServerNotification V → Option V
  pub tool_error : Text → R

-- `NotificationTrait::method`
abbrev pub notification_method : {V : Type 0} → ServerNotification V → Text
notification_method (tool_list_changed fields) = text "notifications/tools/list_changed"
notification_method (resource_list_changed fields) = text "notifications/resources/list_changed"
notification_method (prompt_list_changed fields) = text "notifications/prompts/list_changed"
notification_method (elicitation_complete fields) = text "notifications/elicitation/complete"
notification_method (task_status fields) = text "notifications/tasks/status"
notification_method (resource_updated fields) = text "notifications/resources/updated"
notification_method (logging_message fields) = text "notifications/message"
notification_method (progress fields) = text "notifications/progress"
notification_method (cancelled request_id reason) = text "notifications/cancelled"

abbrev flag : Option Bool → Bool
flag none = false
flag (some b) = b

unfoldable pub notification_permitted :
    {V : Type 0} → ServerCapabilities V → ServerNotification V → Bool
notification_permitted caps (logging_message fields) = is_some caps.logging
notification_permitted caps (resource_updated fields) = elim caps.resources [
  | none ↦ false
  | some c ↦ flag c.subscribe
]
notification_permitted caps (resource_list_changed fields) = elim caps.resources [
  | none ↦ false
  | some c ↦ flag c.list_changed
]
notification_permitted caps (tool_list_changed fields) = elim caps.tools [
  | none ↦ false
  | some c ↦ flag c.list_changed
]
notification_permitted caps (prompt_list_changed fields) = elim caps.prompts [
  | none ↦ false
  | some c ↦ flag c.list_changed
]
notification_permitted caps (elicitation_complete fields) = true
notification_permitted caps (task_status fields) = is_some caps.tasks
notification_permitted caps (progress fields) = true
notification_permitted caps (cancelled request_id reason) = true

module _ {V R : Type 0} (serde : Serde V R) where
  abbrev entries_of : Option V → Option (Object V)
  entries_of none = none
  entries_of (some value) = serde.as_object value

  abbrev params_of : Option (Object V) → Object V → Option (NotificationParams V)
  params_of meta other =
      if is_empty other && is_none meta then none else some (record { meta = meta; other = other })

  abbrev notification_params : Option (Object V) → Option (NotificationParams V)
  notification_params none = none
  notification_params (some object) =
      let fields = remove method_key object in
      params_of (entries_of (get meta_key fields)) (remove meta_key fields)

  unfoldable pub create_jsonrpc_notification : ServerNotification V → Notification V
  create_jsonrpc_notification n = record {
    method = notification_method n;
    params = notification_params (entries_of (serde.notification_value n));
  }

-- `InFlight`: a token is a number; the tokens that were cancelled are kept apart, since a handler
-- shares its token with the map.
pub record InFlight : Type 0 where
  pub requests : List (RequestId × ℕ)
  pub cancelled_tokens : List ℕ
  pub next_token : ℕ

abbrev pub no_requests : InFlight
no_requests = record { requests = []; cancelled_tokens = []; next_token = 0 }

abbrev pub begin : RequestId → InFlight → InFlight
begin id f = record f {
  requests = insert id f.next_token f.requests;
  next_token = suc f.next_token;
}

abbrev pub is_cancelled : Option ℕ → List ℕ → Bool
is_cancelled none cancelled_tokens = false
is_cancelled (some token) cancelled_tokens = mem token cancelled_tokens

-- `finish` gives `is_cancelled` of the entry that it removes.
abbrev pub finish : RequestId → InFlight → InFlight
finish id f = record f { requests = remove id f.requests }

abbrev pub cancel : RequestId → InFlight → InFlight
cancel id f = elim (get id f.requests) [
  | none ↦ f
  | some token ↦ record f { cancelled_tokens = token ∷ f.cancelled_tokens }
]
