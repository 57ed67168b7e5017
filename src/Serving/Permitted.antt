-- ===== src/Serving/Permitted.antt =====
-- Each event keeps the gate of the notifications.
use tmcp.Base.{nat_eq, text_eq}
use tmcp.Requests.{request_id_eq}
use tmcp.Serving.Loop.{Serving}
