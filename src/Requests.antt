-- ===== src/Requests.antt =====
-- request_handler.rs: outbound requests, their slots, deadlines and cancellation notices.
-- A oneshot channel is named by the request that it was made for: its sender is the pending slot,
-- its receiver belongs to the live request, and `delivered` holds a response that was sent and not
-- taken yet. The transport's answer to a send, the clock and `Instant::checked_add` are parameters.
pub mod Operations
pub mod Consistency
pub mod Steps
pub mod Outcomes
pub mod Tests
use tmcp.Base.{
  ℕ, zero, suc, ◌+◌, ◌-◌, ◌/◌, ◌^◌, ◌≡◌, ◌↔◌, Bool, true, false, ◌&&◌, not, Option, none, some,
  List, [], ◌∷◌, ◌++◌, arith, ltb, nat_beq, if◌then◌else◌, Eq, ◌==◌, nat_eq, Text, text, text_beq,
  text_beq_iff, text_eq, Result, err, ◌>>=◌, ◌>>◌, decimal, ℤ, pos, negsuc, int_beq, int_beq_iff,
}
use mathlib.Core.Option
use tmcp.Base.Map.{get, contains_key, insert, remove}
use tmcp.Errors.{Error, transport_disconnected, transport, protocol, timeout}

-- A numeric id is never issued here; the peer may send one.
pub data RequestId : Type 0 where
  string : Text → RequestId
  number : ℤ → RequestId

unfoldable pub request_id_beq : RequestId → RequestId → Bool
request_id_beq (string s) (string t) = text_beq s t
request_id_beq (number m) (number n) = int_beq m n
request_id_beq _ _ = false

abbrev pub to_text : RequestId → Text
to_text (string s) = s
to_text (number (pos n)) = decimal n
to_text (number (negsuc n)) = text "-" ++ decimal (suc n)

pub request_id_beq_iff : (a b : RequestId) → (request_id_beq a b ≡ true) ↔ (a ≡ b)
unfolding request_id_beq
request_id_beq_iff (string s) (string t) = ground (arith, text_beq_iff s t)
request_id_beq_iff (string s) (number n) = ground arith
request_id_beq_iff (number m) (string t) = ground arith
request_id_beq_iff (number m) (number n) = ground (arith, int_beq_iff m n)

instance abbrev pub request_id_eq : Eq RequestId
request_id_eq = record { equals = request_id_beq; equals_iff = request_id_beq_iff }

pub data PendingRequest : Type 0 where
  response_tx : PendingRequest

-- `deadline` is the instant and the length of the deadline; `cancel` says whether the request
-- still has its sender of notices.
pub record OutboundRequest : Type 0 where
  pub id : RequestId
  pub deadline : Option (ℕ × ℕ)
  pub cancel : Bool

pub record RequestHandler : Type 0 where
  pub has_transport : Bool
  pub pending_requests : List (RequestId × PendingRequest)
  pub next_request_id : ℕ
  pub id_prefix : Text
  pub timeout_ms : ℕ
  pub has_cancellations : Bool
  pub shutting_down : Bool

-- The handler with what it shares: the channels, the queue of notices with its receiver, and the
-- requests that were not dropped yet.
pub record Connection (Response : Type 0) : Type 0 where
  pub handler : RequestHandler
  pub delivered : List (RequestId × Response)
  pub notices : List RequestId
  pub queue_open : Bool
  pub live : List (RequestId × OutboundRequest)

abbrev pub default_timeout_ms : ℕ
default_timeout_ms = 30000

abbrev pub no_timeout_ms : ℕ
no_timeout_ms = 0

abbrev pub u64_end : ℕ
u64_end = 2 ^ 64

-- `timeout_millis` of a duration in nanoseconds.
unfoldable pub timeout_millis : ℕ → ℕ
timeout_millis nanos =
    if nat_beq nanos 0
    then no_timeout_ms
    else let millis = nanos / 1000000 in
      let clamped = if ltb millis u64_end then millis else u64_end - 1 in
      if ltb clamped 1 then 1 else clamped

abbrev pub new_handler : Bool → Text → RequestHandler
new_handler has_transport id_prefix = record {
  has_transport = has_transport;
  pending_requests = [];
  next_request_id = 1;
  id_prefix = id_prefix;
  timeout_ms = default_timeout_ms;
  has_cancellations = false;
  shutting_down = false;
}

unfoldable pub request_id : Text → ℕ → RequestId
request_id id_prefix n = string (id_prefix ++ text "-" ++ decimal n)

-- `is_connected`
abbrev pub is_connected : RequestHandler → Bool
is_connected h = h.has_transport && not h.shutting_down

-- `override` gives a timeout of its own to the request, in nanoseconds.
abbrev pub timeout_of : RequestHandler → Option ℕ → ℕ
timeout_of h none = h.timeout_ms
timeout_of h (some nanos) = timeout_millis nanos

-- The notice that `drop` sends, if any.
abbrev pub notices_of : OutboundRequest → RequestHandler → Bool → List RequestId
notices_of o h receiver =
    if contains_key o.id h.pending_requests && o.cancel && not h.shutting_down && receiver
    then o.id ∷ []
    else []

abbrev pub settled : OutboundRequest → OutboundRequest
settled o = record o { cancel = false }

-- `send_message`
unfoldable pub send_message : Result Error (Unit {0}) → RequestHandler → Result Error (Unit {0})
send_message answer h =
    if h.shutting_down
    then err transport_disconnected
    else if h.has_transport
    then answer
    else err (transport (text "Not connected"))

abbrev pub closed_error : RequestHandler → Error
closed_error h =
    if h.shutting_down
    then transport_disconnected
    else protocol (text "Response channel closed unexpectedly")
