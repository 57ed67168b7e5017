-- ===== src/Errors.antt =====
-- error.rs: the error type of the crate. Messages are kept as text.
use tmcp.Base.{ℕ, Text, nat_eq, text_eq}

pub data Error : Type 0 where
  io json_parse transport : Text → Error
  transport_disconnected connection_closed : Error
  protocol invalid_request method_not_found invalid_params internal_error : Text → Error
  resource_not_found invalid_message_format tool_not_found prompt_not_found : Text → Error
  tool_execution_failed : (tool message : Text) → Error
  group_not_found : Text → Error
  group_inactive : (group parent : Text) → Error
  invalid_configuration authorization_failed : Text → Error
  timeout : (request_id : Text) (timeout_ms : ℕ) → Error
  cancelled : Text → Error
  payload_too_large : (method : Text) (size limit : ℕ) → Error
