-- ===== src/Requests/Outcomes.antt =====
-- How a request ends: answered, timed out, cut off by a shutdown.
use tmcp.Base.{
  ℕ, ◌-◌, ◌/◌, ◌≤◌, ◌<◌, ◌≡◌, refl, sym, ap, ◌∙◌, ◌≢◌, ◌↔◌, ◌⊎◌, inl, inr, Bool, true, false, ◌&&◌,
  not, Option, none, some, List, [], ◌∷◌, ◌++◌, arith, ltb, leb, nat_beq, if◌then◌else◌, ltb→lt,
  ltb-false→le, nat_beq_iff, Bool-cases, nat_eq, ==_self, Text, text_eq, Result, ok, err,
  Result-cases,
}
use mathlib.Core.List.{append-nil}
use tmcp.Base.Map.{get, contains_key, insert, remove, get-insert}
use tmcp.Errors.{Error, timeout, transport_disconnected}
use tmcp.Requests.{
  request_id_eq, RequestId, OutboundRequest, RequestHandler, Connection, to_text, notices_of,
  settled, send_message, timeout_millis, no_timeout_ms, u64_end,
}
use tmcp.Requests.Operations.{
  shutdown, drop_request, send, expire, receive_response, poll, dispatch_response, handle_response,
}
use tmcp.Requests.Consistency.{IsConsistent, contains_key-remove}
use tmcp.Requests.Steps.{Reachable, Reachable-IsConsistent}

settled-quiet :
    (o : OutboundRequest) (h : RequestHandler) (receiver : Bool)
    → notices_of (settled o) h receiver ≡ []
settled-quiet o h receiver = ground arith

-- A response that was delivered ends the request, also past the deadline.
poll-delivered :
    {Response : Type 0} (now : ℕ) (o : OutboundRequest) (c : Connection Response) (r : Response)
    → get o.id c.delivered ≡ some r
    → poll now o c ≡ some (drop_request (settled o) c, ok r)
unfolding poll receive_response
poll-delivered now o c r there = rw (there, poll, receive_response) refl

-- On a consistent connection, a response to a request that waits is what the request gets, at any
-- later time and even past its deadline; the request releases its slot and sends no notice.
pub poll-handle_response :
    {Response : Type 0} (response_id : Response → Option RequestId) (c : Connection Response)
    (now : ℕ) (o : OutboundRequest) (r : Response)
    → IsConsistent c
    → contains_key o.id c.handler.pending_requests ≡ true
    → response_id r ≡ some o.id
    → (c' : Connection Response) × (poll now o (handle_response response_id r c) ≡ some (c', ok r))
      × (contains_key o.id c'.handler.pending_requests ≡ false)
      × (contains_key o.id c'.live ≡ false)
      × (c'.notices ≡ c.notices)
unfolding handle_response dispatch_response drop_request
poll-handle_response {Response} response_id c now o r w waiting addressed =
    let on = w.slots o.id waiting in
    let answered : Connection Response = record c {
      handler = record c.handler { pending_requests = remove o.id c.handler.pending_requests };
      delivered = insert o.id r c.delivered;
    } in
    let there : get o.id answered.delivered ≡ some r =
      get-insert o.id o.id r c.delivered ∙ rw (==_self o.id) refl in
    let reached : handle_response response_id r c ≡ answered =
      rw (addressed, handle_response) (rw (waiting, on, dispatch_response) refl) in
    (
      drop_request (settled o) answered,
      ap (poll now o) reached ∙ poll-delivered now o answered r there,
      contains_key-remove o.id o.id (remove o.id c.handler.pending_requests)
          ∙ rw (==_self o.id) refl,
      contains_key-remove o.id o.id c.live ∙ rw (==_self o.id) refl,
      ap (λ ys. c.notices ++ ys) (settled-quiet o answered.handler c.queue_open)
          ∙ append-nil c.notices,
    )

-- On a consistent connection, a request that waits past its deadline ends with the timeout error
-- and sends one notice if it has a sender, the connection is not shutting down and the queue is
-- open; a response to it that comes later changes nothing.
pub poll-timeout :
    {Response : Type 0} (response_id : Response → Option RequestId) (c : Connection Response)
    (now deadline ms : ℕ) (o : OutboundRequest) (r : Response)
    → IsConsistent c
    → contains_key o.id c.handler.pending_requests ≡ true
    → o.deadline ≡ some (deadline, ms)
    → deadline ≤ now
    → response_id r ≡ some o.id
    → (c' : Connection Response) × (poll now o c ≡ some (c', err (timeout (to_text o.id) ms)))
      × (c'.notices
          ≡ c.notices
            ++ (if o.cancel && not c.handler.shutting_down && c.queue_open then o.id ∷ [] else []))
      × (handle_response response_id r c' ≡ c')
unfolding poll receive_response expire drop_request handle_response dispatch_response
poll-timeout response_id c now deadline ms o r w waiting limit late addressed =
    let unanswered : get o.id c.delivered ≡ none = not_delivered (get o.id c.delivered) refl in
    let silent : receive_response o c ≡ none = rw (unanswered, waiting, receive_response) refl in
    let passed : leb deadline now ≡ true = ground (arith, late) in
    let gone : contains_key o.id (remove o.id c.handler.pending_requests) ≡ false =
      contains_key-remove o.id o.id c.handler.pending_requests ∙ rw (==_self o.id) refl in
    (
      drop_request o c,
      rw (silent, poll) (rw (limit, passed, expire) refl),
      rw waiting refl,
      rw (addressed, handle_response) (rw (gone, dispatch_response) refl),
    )
  where
    not_delivered : (x : Option _) → get o.id c.delivered ≡ x → get o.id c.delivered ≡ none
    not_delivered none e = e
    not_delivered (some r) e = absurd (let slot = (w.answered o.id (rw e refl)).1 in cc)

-- A shutdown ends every request that has no response yet, at its next poll and whatever its
-- deadline: with the error of a lost transport and without a notice.
pub poll-shutdown :
    {Response : Type 0} (c : Connection Response) (now : ℕ) (o : OutboundRequest)
    → get o.id c.delivered ≡ none
    → (c' : Connection Response) × (poll now o (shutdown c) ≡ some (c', err transport_disconnected))
      × (c'.handler.pending_requests ≡ [])
      × (c'.notices ≡ c.notices)
unfolding poll receive_response shutdown drop_request
poll-shutdown c now o unanswered = (
  drop_request (settled o) (shutdown c),
  rw (unanswered, poll, receive_response) (unfold get in refl),
  unfold remove in refl,
  ap (λ ys. c.notices ++ ys) (settled-quiet o (shutdown c).handler c.queue_open)
      ∙ append-nil c.notices,
)

empty_map :
    {V : Type 0} (m : List (RequestId × V))
    → ((id : RequestId) → contains_key id m ≡ false)
    → m ≡ []
unfolding get
empty_map [] h = refl
empty_map ((k, v) ∷ m) h = absurd (let bad = h k in ground (arith, ==_self k))

-- When every request has ended, no slot and no response is left behind.
Reachable-empty :
    {Response : Type 0} (response_id : Response → Option RequestId) (checked_add : ℕ → ℕ → Option ℕ)
    (id_prefix : Text) (c : Connection Response)
    → Reachable response_id checked_add id_prefix c
    → c.live ≡ []
    → (c.handler.pending_requests ≡ []) × (c.delivered ≡ [])
Reachable-empty response_id checked_add id_prefix c reached none_left =
    let w = Reachable-IsConsistent response_id checked_add id_prefix c reached in
    (
      empty_map c.handler.pending_requests (λ id.
          elim (Bool-cases (contains_key id c.handler.pending_requests)) [
            | inr absent ↦ absent
            | inl slot ↦ absurd (none_alive id (w.slots id slot))
          ]),
      empty_map c.delivered (λ id. elim (Bool-cases (contains_key id c.delivered)) [
        | inr absent ↦ absent
        | inl there ↦ absurd (none_alive id (w.answered id there).0)
      ]),
    )
  where
    none_alive : (id : RequestId) → contains_key id c.live ≢ true
    none_alive id on = let h = rw none_left at on in unfold get in cc

-- A send that fails, also because there is no transport or it is shutting down, leaves nothing
-- behind: no slot, no live request, and no notice to a peer that has not seen the request.
send-err :
    {Response : Type 0} (c c' : Connection Response) (o : OutboundRequest)
    (answer : Result Error (Unit {0})) (e : Error)
    → send o answer c ≡ (c', err e)
    → (send_message answer c.handler ≡ err e)
      × (contains_key o.id c'.handler.pending_requests ≡ false)
      × (contains_key o.id c'.live ≡ false)
      × (c'.notices ≡ c.notices)
unfolding send drop_request
send-err c c' o answer e h = elim (Result-cases (send_message answer c.handler)) [
  | inl (u, fine) ↦ absurd (let k = ap (λ x. x.1) (rw (fine, send) at h) in cc)
  | inr (e', failed) ↦
      let h' = rw (failed, send) at h in
      let left : drop_request (settled o) c ≡ c' = ap (λ x. x.0) h' in
      (
        failed ∙ ap (λ x. x.1) h',
        ap (λ x. contains_key o.id x.handler.pending_requests) (sym left)
            ∙ contains_key-remove o.id o.id c.handler.pending_requests
            ∙ rw (==_self o.id) refl,
        ap (λ x. contains_key o.id x.live) (sym left)
            ∙ contains_key-remove o.id o.id c.live
            ∙ rw (==_self o.id) refl,
        ap (λ x. x.notices) (sym left)
            ∙ ap (λ ys. c.notices ++ ys) (settled-quiet o c.handler c.queue_open)
            ∙ append-nil c.notices,
      )
]

-- A deadline fits 64 bits, is disabled by the zero duration alone, and otherwise is the whole
-- milliseconds of the duration, raised to one or cut to the largest 64-bit number.
timeout_millis_lem :
    (nanos : ℕ)
    → (timeout_millis nanos < u64_end)
      × ((timeout_millis nanos ≡ no_timeout_ms) ↔ (nanos ≡ 0))
      × ((timeout_millis nanos ≡ nanos / 1000000)
          ⊎ (((timeout_millis nanos ≡ 1) × (nanos < 1000000))
              ⊎ ((timeout_millis nanos ≡ u64_end - 1) × (u64_end ≤ nanos / 1000000))))
unfolding timeout_millis
timeout_millis_lem nanos =
    let millis = nanos / 1000000 in
    elim (Bool-cases (nat_beq nanos 0)) [
      | inl zero_long ↦
          let no_time : nanos ≡ 0 = (nat_beq_iff nanos 0).0 zero_long in
          rw zero_long (omega arith, (λ h. no_time, λ h. refl), inl (omega (arith, no_time)))
      | inr some_long ↦
          let positive : nanos ≢ 0 = λ h. ground (arith, h, some_long) in
          elim (Bool-cases (ltb millis u64_end)) [
            | inr long ↦
                let over = ltb-false→le millis u64_end long in
                rw (some_long, long)
                  (
                    omega arith,
                    (λ h. absurd (omega (arith, h)), λ h. absurd (positive h)),
                    inr (inr (refl, over)),
                  )
            | inl fits ↦
                let below = ltb→lt millis u64_end fits in
                elim (Bool-cases (ltb millis 1)) [
                  | inl short ↦
                      rw (some_long, fits, short)
                        (
                          omega arith,
                          (λ h. absurd (omega (arith, h)), λ h. absurd (positive h)),
                          inr (inl (refl, omega (arith, ltb→lt millis 1 short))),
                        )
                  | inr whole ↦
                      rw (some_long, fits, whole)
                        (
                          below,
                          (
                            λ h. absurd (omega (arith, h, ltb-false→le millis 1 whole)),
                            λ h. absurd (positive h),
                          ),
                          inl refl,
                        )
                ]
          ]
    ]
