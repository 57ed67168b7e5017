-- ===== src/Requests/Operations.antt =====
-- request_handler.rs: the operations on a connection.
use tmcp.Requests.{
  request_id_eq, RequestId, to_text, OutboundRequest, RequestHandler, Connection, no_timeout_ms,
  u64_end, request_id, timeout_of, notices_of, settled, send_message, closed_error, response_tx,
}
use tmcp.Base.{
  ℕ, ◌+◌, ◌%◌, Bool, true, false, Option, none, some, [], ◌++◌, leb, nat_beq, if◌then◌else◌, nat_eq,
  text_eq, Result, ok, err,
}
use tmcp.Base.Map.{get, contains_key, insert, remove}
use tmcp.Errors.{Error, timeout}
use mathlib.Core.Option

module _ {Response : Type 0} where
  abbrev with_handler :
      (RequestHandler → RequestHandler) → Connection Response → Connection Response
  with_handler f c = record c { handler = f c.handler }

  unfoldable pub set_transport : Connection Response → Connection Response
  set_transport c = with_handler (λ h. record h { has_transport = true; shutting_down = false }) c

  unfoldable pub set_cancellations : Bool → Connection Response → Connection Response
  set_cancellations sender c = with_handler (λ h. record h { has_cancellations = sender }) c

  unfoldable pub set_timeout : ℕ → Connection Response → Connection Response
  set_timeout ms c = with_handler (λ h. record h { timeout_ms = ms }) c

  unfoldable pub shutdown : Connection Response → Connection Response
  shutdown c =
      with_handler
        (λ h. record h {
          shutting_down = true;
          has_transport = false;
          has_cancellations = false;
          pending_requests = [];
        })
        c

  -- `Drop`; the receiver goes with the request.
  unfoldable pub drop_request : OutboundRequest → Connection Response → Connection Response
  drop_request o c = record c {
    handler = record c.handler { pending_requests = remove o.id c.handler.pending_requests };
    delivered = remove o.id c.delivered;
    notices = c.notices ++ notices_of o c.handler c.queue_open;
    live = remove o.id c.live;
  }

  -- `send` before the deadline, and what `send_pending` does with an error.
  unfoldable pub send :
      OutboundRequest
      → Result Error (Unit {0})
      → Connection Response
      → Connection Response × Result Error (Unit {0})
  send o answer c = elim (send_message answer c.handler) [
    | ok u ↦ (c, ok u)
    | err e ↦ (drop_request (settled o) c, err e)
  ]

  -- `before_deadline`, when the deadline has passed.
  unfoldable pub expire :
      ℕ
      → OutboundRequest
      → Connection Response
      → Option (Connection Response × Result Error Response)
  expire now o c = elim o.deadline [
    | none ↦ none
    | some (deadline, ms) ↦
        if leb deadline now then some (drop_request o c, err (timeout (to_text o.id) ms)) else none
  ]

  -- The receiver: a response, or an error once the sender is gone.
  unfoldable pub receive_response :
      OutboundRequest → Connection Response → Option (Connection Response × Result Error Response)
  receive_response o c = elim (get o.id c.delivered) [
    | some r ↦ some (drop_request (settled o) c, ok r)
    | none ↦
        if contains_key o.id c.handler.pending_requests
        then none
        else some (drop_request (settled o) c, err (closed_error c.handler))
  ]

  -- One poll of `response`: the receiver first, then the deadline. `none` is `Poll::Pending`.
  unfoldable pub poll :
      ℕ
      → OutboundRequest
      → Connection Response
      → Option (Connection Response × Result Error Response)
  unfolding receive_response expire
  poll now o c = elim (receive_response o c) [ some done ↦ some done | none ↦ expire now o c ]

  -- `dispatch_response`: a send without a receiver is lost.
  unfoldable pub dispatch_response :
      RequestId → Response → Connection Response → Connection Response
  dispatch_response id response c =
      if contains_key id c.handler.pending_requests
      then record c {
        handler = record c.handler { pending_requests = remove id c.handler.pending_requests };
        delivered = if contains_key id c.live then insert id response c.delivered else c.delivered;
      }
      else c

module _ (checked_add : ℕ → ℕ → Option ℕ) where
  abbrev deadline_of : ℕ → ℕ → Option (ℕ × ℕ)
  deadline_of now ms =
      if nat_beq ms no_timeout_ms
      then none
      else Option.map (λ deadline. (deadline, ms)) (checked_add now ms)

  -- `OutboundRequest::start`, with `next_request_id`.
  abbrev pub started : ℕ → ℕ → Bool → RequestHandler → OutboundRequest
  started now ms cancel h = record {
    id = request_id h.id_prefix h.next_request_id;
    deadline = deadline_of now ms;
    cancel = cancel;
  }

  unfoldable pub start :
      {Response : Type 0} → ℕ → Option ℕ → Bool → Connection Response → Connection Response
  start now override cancel c =
      let o = started now (timeout_of c.handler override) cancel c.handler in
      record c {
        handler = record c.handler {
          next_request_id = (c.handler.next_request_id + 1) % u64_end;
          pending_requests = insert o.id response_tx c.handler.pending_requests;
        };
        live = insert o.id o c.live;
      }

  -- `request_pending`: the request takes its sender of notices from the handler.
  abbrev pub request_pending :
      {Response : Type 0} → ℕ → Option ℕ → Connection Response → Connection Response
  request_pending now override c = start now override c.handler.has_cancellations c

module _ {Response : Type 0} (response_id : Response → Option RequestId) where
  unfoldable pub handle_response : Response → Connection Response → Connection Response
  unfolding dispatch_response
  handle_response response c = elim (response_id response) [
    | none ↦ c
    | some id ↦ dispatch_response id response c
  ]
