-- ===== src/Requests/Tests.antt =====
-- The theorems on requests at a concrete connection. A response is an id and a number.
use tmcp.Base.{
  ℕ, ◌+◌, ◌≡◌, refl, subst, true, false, ◌&&◌, not, Option, none, some, [], ◌∷◌, ◌++◌, arith,
  if◌then◌else◌, nat_eq, mem, text, text_beq, text_eq, ok, err, decimal,
}
use tmcp.Base.Map.{get, contains_key, insert, remove}
use tmcp.Errors.{timeout, transport_disconnected}
use tmcp.Requests.{
  request_id_eq, request_id_beq, RequestId, string, response_tx, OutboundRequest, Connection,
  request_id, to_text, send_message, timeout_millis,
}
use tmcp.Requests.Operations.{
  shutdown, start, drop_request, send, poll, receive_response, expire, handle_response,
  dispatch_response,
}
use tmcp.Requests.Consistency.{IsConsistent}
use tmcp.Requests.Steps.{
  starts, Reachable, created, stepped, new_connection, Reachable-IsConsistent,
}
use tmcp.Requests.Outcomes.{poll-handle_response, poll-timeout, poll-shutdown}

abbrev Response : Type 0
Response = RequestId × ℕ

abbrev response_id : Response → Option RequestId
response_id r = some r.0

abbrev checked_add : ℕ → ℕ → Option ℕ
checked_add a b = some (a + b)

runs : Unit {0}
unfolding get insert remove mem text_beq request_id_beq request_id decimal start shutdown
    drop_request send_message send poll receive_response expire handle_response dispatch_response
    timeout_millis
runs = tt

abbrev first : Connection Response
first = new_connection true (text "req")

abbrev o : OutboundRequest
o = record { id = string (text "req-1"); deadline = some (30005, 30000); cancel = true }

-- One request waits.
abbrev waiting : Connection Response
waiting = record first {
  handler = record first.handler {
    next_request_id = 2;
    pending_requests = (o.id, response_tx) ∷ [];
  };
  live = (o.id, o) ∷ [];
}

waits : start checked_add 5 none true first ≡ waiting
unfolding runs
waits = refl

waiting-Reachable : Reachable response_id checked_add (text "req") waiting
waiting-Reachable =
    subst (Reachable response_id checked_add (text "req")) waits
      (stepped (created true) (starts 5 none true (omega arith)))

Reachable-IsConsistent_example : IsConsistent waiting
Reachable-IsConsistent_example =
    Reachable-IsConsistent response_id checked_add (text "req") waiting waiting-Reachable

waiting-IsConsistent : IsConsistent waiting
waiting-IsConsistent =
    Reachable-IsConsistent response_id checked_add (text "req") waiting waiting-Reachable

slot : contains_key o.id waiting.handler.pending_requests ≡ true
unfolding runs
slot = refl

abbrev answer : Response
answer = (o.id, 42)

poll-handle_response_example :
    (c' : Connection Response) × (poll 99999 o (handle_response response_id answer waiting)
      ≡ some (c', ok answer))
    × (contains_key o.id c'.handler.pending_requests ≡ false)
    × (contains_key o.id c'.live ≡ false)
    × (c'.notices ≡ waiting.notices)
poll-handle_response_example =
    poll-handle_response response_id waiting 99999 o answer waiting-IsConsistent slot refl

poll-timeout_example :
    (c' : Connection Response) × (poll 30005 o waiting
      ≡ some (c', err (timeout (to_text o.id) 30000)))
    × (c'.notices
        ≡ waiting.notices
          ++ (if o.cancel && not waiting.handler.shutting_down && waiting.queue_open
              then o.id ∷ []
              else []))
    × (handle_response response_id answer c' ≡ c')
poll-timeout_example =
    poll-timeout response_id waiting 30005 30005 30000 o answer waiting-IsConsistent slot refl
      (omega arith) refl

undelivered : get o.id waiting.delivered ≡ none
unfolding runs
undelivered = refl

poll-shutdown_example :
    (c' : Connection Response) × (poll 6 o (shutdown waiting)
      ≡ some (c', err transport_disconnected))
    × (c'.handler.pending_requests ≡ [])
    × (c'.notices ≡ waiting.notices)
poll-shutdown_example = poll-shutdown waiting 6 o undelivered
