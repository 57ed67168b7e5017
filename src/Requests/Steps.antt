-- ===== src/Requests/Steps.antt =====
-- The events of a connection as a step relation, and what holds wherever it leads.
use tmcp.Base.{
  ℕ, ◌+◌, ◌<◌, ◌≡◌, refl, sym, ◌∙◌, subst, ◌⊎◌, inl, inr, Bool, true, false, Option, some, [], leb,
  Bool-cases, Option-cases, nat_eq, mem, Text, text_eq, Result, Result-cases,
}
use tmcp.Base.Map.{get, contains_key}
use tmcp.Errors.{Error}
use tmcp.Requests.{
  request_id_eq, RequestId, OutboundRequest, Connection, u64_end, new_handler, settled,
  send_message,
}
use tmcp.Requests.Operations.{
  set_transport, set_cancellations, set_timeout, shutdown, start, drop_request, send, expire,
  receive_response, poll, handle_response,
}
use tmcp.Requests.Consistency.{
  IsConsistent, drop_request-IsConsistent, start-IsConsistent, shutdown-IsConsistent,
  dispatch_response-IsConsistent,
}

abbrev pub new_connection : {Response : Type 0} → Bool → Text → Connection Response
new_connection has_transport id_prefix = record {
  handler = new_handler has_transport id_prefix;
  delivered = [];
  notices = [];
  queue_open = true;
  live = [];
}

module _ {Response : Type 0} (response_id : Response → Option RequestId)
    (checked_add : ℕ → ℕ → Option ℕ) where
  -- One event. A request is sent, polled or dropped only while it is alive.
  pub data Step : Connection Response → Connection Response → Type 0 where
    starts :
        {c : Connection Response} (now : ℕ) (override : Option ℕ) (cancel : Bool)
        → c.handler.next_request_id + 1 < u64_end
        → Step c (start checked_add now override cancel c)
    sends :
        {c : Connection Response} (o : OutboundRequest) (answer : Result Error (Unit {0}))
        → get o.id c.live ≡ some o
        → Step c (send o answer c).0
    polls :
        {c c' : Connection Response} (now : ℕ) (o : OutboundRequest) (r : Result Error Response)
        → get o.id c.live ≡ some o
        → poll now o c ≡ some (c', r)
        → Step c c'
    -- The deadline passes during the send.
    expires :
        {c c' : Connection Response} (now : ℕ) (o : OutboundRequest) (r : Result Error Response)
        → get o.id c.live ≡ some o
        → expire now o c ≡ some (c', r)
        → Step c c'
    drops :
        {c : Connection Response} (o : OutboundRequest)
        → get o.id c.live ≡ some o
        → Step c (drop_request o c)
    responds : {c : Connection Response} (r : Response) → Step c (handle_response response_id r c)
    connects : {c : Connection Response} → Step c (set_transport c)
    listens : {c : Connection Response} (sender : Bool) → Step c (set_cancellations sender c)
    retimes : {c : Connection Response} (ms : ℕ) → Step c (set_timeout ms c)
    shuts_down : {c : Connection Response} → Step c (shutdown c)
    closes_queue : {c : Connection Response} → Step c (record c { queue_open = false })

  pub data Reachable (id_prefix : Text) : Connection Response → Type 0 where
    created : (has_transport : Bool) → Reachable id_prefix (new_connection has_transport id_prefix)
    stepped :
        {c c' : Connection Response} → Reachable id_prefix c → Step c c' → Reachable id_prefix c'

new_connection-IsConsistent :
    {Response : Type 0} (has_transport : Bool) (id_prefix : Text)
    → IsConsistent {Response = Response} (new_connection has_transport id_prefix)
new_connection-IsConsistent has_transport id_prefix = record {
  slots = λ id h. absurd (unfold get in cc);
  answered = λ id h. absurd (unfold get in cc);
  quiet = λ id h. unfold get in refl;
  named = λ id o h. absurd (unfold get in cc);
  issued = λ id h. absurd (unfold get mem in cc);
  once = tt;
}

first_of :
    {Response : Type 0} (a a' : Connection Response) (b b' : Result Error Response)
    → ◌≡◌ {A = Option (Connection Response × Result Error Response)} (some (a, b)) (some (a', b'))
    → a ≡ a'
first_of a a' b b' e = cc

module _ {Response : Type 0} (c : Connection Response) (o : OutboundRequest) (w : IsConsistent c)
    (found : get o.id c.live ≡ some o) where
  -- A poll that ends the request has dropped it, with its sender of notices or without.
  pub receive_response-dropped :
      {c' : Connection Response} {r : Result Error Response}
      → receive_response o c ≡ some (c', r)
      → c' ≡ drop_request (settled o) c
  unfolding receive_response
  receive_response-dropped {c'} {r} e = elim (Option-cases (get o.id c.delivered)) [
    | inr (answer, there) ↦ sym (first_of _ c' _ r (rw (there, receive_response) at e))
    | inl absent ↦ elim (Bool-cases (contains_key o.id c.handler.pending_requests)) [
      | inl waiting ↦ absurd (let h = rw (absent, waiting, receive_response) at e in cc)
      | inr closed ↦ sym (first_of _ c' _ r (rw (absent, closed, receive_response) at e))
    ]
  ]

  pub expire-dropped :
      (now : ℕ) {c' : Connection Response} {r : Result Error Response}
      → expire now o c ≡ some (c', r)
      → c' ≡ drop_request o c
  unfolding expire
  expire-dropped now {c'} {r} e = elim (Option-cases o.deadline) [
    | inl unlimited ↦ absurd (let h = rw (unlimited, expire) at e in cc)
    | inr (limit, there) ↦ elim (Bool-cases (leb limit.0 now)) [
      | inr early ↦ absurd (let h = rw (there, early, expire) at e in cc)
      | inl late ↦ sym (first_of _ c' _ r (rw (there, late, expire) at e))
    ]
  ]

  pub poll-dropped :
      (now : ℕ) {c' : Connection Response} {r : Result Error Response}
      → poll now o c ≡ some (c', r)
      → (c' ≡ drop_request (settled o) c) ⊎ (c' ≡ drop_request o c)
  unfolding poll expire
  poll-dropped now {c'} {r} e = elim (Option-cases (receive_response o c)) [
    | inr (done, ended) ↦
        inl (receive_response-dropped {c' = c'} {r = r} (ended ∙ (rw (ended, poll) at e)))
    | inl waiting ↦ let e' = rw (waiting, poll) at e in inr (expire-dropped now e')
  ]

  send-IsConsistent : (answer : Result Error (Unit {0})) → IsConsistent (send o answer c).0
  unfolding send
  send-IsConsistent answer = elim (Result-cases (send_message answer c.handler)) [
    | inl (u, fine) ↦ rw (fine, send) w
    | inr (e, failed) ↦ rw (failed, send) (drop_request-IsConsistent c (settled o) o w found)
  ]

Step-IsConsistent :
    {Response : Type 0} (response_id : Response → Option RequestId) (checked_add : ℕ → ℕ → Option ℕ)
    {c c' : Connection Response}
    → IsConsistent c
    → Step response_id checked_add c c'
    → IsConsistent c'
Step-IsConsistent response_id checked_add w (starts {c} now override cancel room) =
    start-IsConsistent checked_add c now override cancel w room
Step-IsConsistent response_id checked_add w (sends {c} o answer found) =
    send-IsConsistent c o w found answer
Step-IsConsistent response_id checked_add w (polls {c} now o r found e) =
    elim (poll-dropped c o w found now e) [
      | inl settles ↦
          subst IsConsistent (sym settles) (drop_request-IsConsistent c (settled o) o w found)
      | inr abandons ↦ subst IsConsistent (sym abandons) (drop_request-IsConsistent c o o w found)
    ]
Step-IsConsistent response_id checked_add w (expires {c} now o r found e) =
    subst IsConsistent (sym (expire-dropped c o w found now e))
      (drop_request-IsConsistent c o o w found)
Step-IsConsistent response_id checked_add w (drops {c} o found) =
    drop_request-IsConsistent c o o w found
Step-IsConsistent response_id checked_add w (responds {c} r) = elim (Option-cases (response_id r)) [
  | inl absent ↦ unfold handle_response in rw (absent, handle_response) w
  | inr (id, named) ↦
      unfold handle_response in
      rw (named, handle_response) (dispatch_response-IsConsistent c id r w)
]
Step-IsConsistent response_id checked_add w connects =
    unfold set_transport in
    record {
      slots = w.slots;
      answered = w.answered;
      quiet = w.quiet;
      named = w.named;
      issued = w.issued;
      once = w.once;
    }
Step-IsConsistent response_id checked_add w (listens sender) =
    unfold set_cancellations in
    record {
      slots = w.slots;
      answered = w.answered;
      quiet = w.quiet;
      named = w.named;
      issued = w.issued;
      once = w.once;
    }
Step-IsConsistent response_id checked_add w (retimes ms) =
    unfold set_timeout in
    record {
      slots = w.slots;
      answered = w.answered;
      quiet = w.quiet;
      named = w.named;
      issued = w.issued;
      once = w.once;
    }
Step-IsConsistent response_id checked_add w (shuts_down {c}) = shutdown-IsConsistent c w
Step-IsConsistent response_id checked_add w closes_queue = record {
  slots = w.slots;
  answered = w.answered;
  quiet = w.quiet;
  named = w.named;
  issued = w.issued;
  once = w.once;
}

-- Whatever happens on a connection, in whatever order: a pending slot belongs to a request that
-- was not dropped; a response waits only for a request that was not dropped and has no slot any
-- more; a notice names a request that was dropped, and no request is named twice; the ids of all
-- these requests are ones that were issued. A request starts only while the counter of ids has
-- not run out.
pub Reachable-IsConsistent :
    {Response : Type 0} (response_id : Response → Option RequestId) (checked_add : ℕ → ℕ → Option ℕ)
    (id_prefix : Text) (c : Connection Response)
    → Reachable response_id checked_add id_prefix c
    → IsConsistent c
Reachable-IsConsistent response_id checked_add id_prefix c (created has_transport) =
    new_connection-IsConsistent has_transport id_prefix
Reachable-IsConsistent response_id checked_add id_prefix c (stepped {c = before} reached step) =
    Step-IsConsistent response_id checked_add
      (Reachable-IsConsistent response_id checked_add id_prefix before reached) step
