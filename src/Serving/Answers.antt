-- ===== src/Serving/Answers.antt =====
-- Every request gets one answer at most, and exactly one if it is not cancelled and the connection
-- goes on.
use tmcp.Base.{
  if-cases, ℕ, ◌+◌, ◌≤◌, ◌≡◌, refl, sym, subst, inl, inr, true, false, Option, none, some, List, [],
  ◌∷◌, ◌++◌, arith, ltb, length, All, ◌==◌, nat_eq, text_eq, Result, ok, err, Result-cases,
}
use tmcp.Errors.{Error}
use tmcp.Requests.{RequestId, request_id_eq}
use tmcp.JsonRpc.{
  JsonrpcMessage, JsonrpcResponse, request, notification, response, Request, RequestParams,
  parse_typed_notification,
}
use tmcp.JsonRpc.Errors.{response_id}
use tmcp.Serving.{
  ClientNotification, initialized, roots_list_changed, status_changed, progressed, cancels,
  ServerCapabilities, Serde, InFlight,
}
use tmcp.Serving.Handshake.{
  SupportedProtocolVersions, handle_initialize_request, response_id-handle_initialize_request,
}
use tmcp.Serving.Loop.{
  Serving, Task, Event, Answers, signal_stop, incoming, receive_notification, transmit,
  transmit_notice, complete_task, count_down, queue_payload, notify, abandon, stop, serve, run,
  new_serving, receive_message, receive_item, connect, connect_or_panic, receive_initialize,
  notified, spawn, is_initialize, unless_stopped, reinitialize_error_response, parse_error_response,
  is_json_parse, server_notification_buffer, cancelled_by,
}
use tmcp.Serving.Tokens.{
  IsSound, IsUncancelled, begin-IsSound, finish-IsSound, cancel-IsSound, begin-IsUncancelled,
  finish-IsUncancelled, cancel-IsUncancelled, no_requests-IsSound,
}
use tmcp.Serving.Counts.{
  asked, asked-open, asked-shut, total, total-append, one_if, is_for, names, asks, answers,
}
use tmcp.Serving.Growth.{
  Grows, grows, write-Grows, end_round-Grows, transmit_item-Grows, send_notice-Grows,
  gate_notification-Grows, count_down_of-Grows, queue_of-Grows, complete_of-Grows,
}
use tmcp.Base.Map.{get}
use tmcp.Serving.Preservation.{serve-Keeps, run-going}

module _ {V R : Type 0} (serde : Serde V R) (versions : SupportedProtocolVersions) where
  module _ (id : RequestId) where
    connect-Grows :
        (given : Answers V) (r : JsonrpcResponse V) (caps : Option (ServerCapabilities V))
        (s : Serving V)
        → Grows id s (connect given r caps s) (one_if (is_for id (response_id r)))
    unfolding answers
    connect-Grows given r none s = write-Grows id given.sink (response r) s
    connect-Grows given r (some caps) s = elim (Result-cases given.on_connect) [
      | inr (e, failed) ↦ rw failed (omega arith, λ h u. absurd (cc))
      | inl (u, done) ↦ rw done (
          write-Grows id given.sink (response r)
            (record s { capabilities = caps; initialized = true }))
    ]

    connect_or_panic-Grows :
        (given : Answers V) (j : RequestId)
        (o : Option (JsonrpcResponse V × Option (ServerCapabilities V))) (s : Serving V)
        → ((r : JsonrpcResponse V) (caps : Option (ServerCapabilities V))
            → o ≡ some (r, caps)
            → response_id r ≡ some j)
        → Grows id s (connect_or_panic given o s) (one_if (j == id))
    unfolding answers
    connect_or_panic-Grows given j none s named = (omega arith, λ h u. absurd (cc))
    connect_or_panic-Grows given j (some (r, caps)) s named =
        subst (λ o. Grows id s (connect given r caps s) (one_if (is_for id o))) (named r caps refl)
          (connect-Grows given r caps s)

    receive_initialize-Grows :
        (given : Answers V) (j : RequestId) (params : Option (RequestParams V)) (s : Serving V)
        → Grows id s (receive_initialize serde versions given j params s) (one_if (j == id))
    unfolding response_id
    receive_initialize-Grows given j params s =
        if-cases (λ s'. Grows id s s' (one_if (j == id))) s.initialized _ _
          (λ old. write-Grows id given.sink (reinitialize_error_response j) s)
          (λ new.
            connect_or_panic-Grows given j
              (handle_initialize_request serde given.on_initialize versions j params) s
              (λ r caps e.
                response_id-handle_initialize_request serde j r caps given.on_initialize versions
                  params e))

    answers-notified :
        (n : Result Error (ClientNotification V)) (s : Serving V)
        → answers id (notified n s) ≡ answers id s
    unfolding answers
    answers-notified (ok (cancels none)) s = refl
    answers-notified (ok (cancels (some j))) s = refl
    answers-notified (ok (initialized fields)) s = refl
    answers-notified (ok (roots_list_changed fields)) s = refl
    answers-notified (ok (status_changed fields)) s = refl
    answers-notified (ok (progressed fields)) s = refl
    answers-notified (err e) s = refl

    answers-spawn :
        (j : RequestId) (body : Request V) (s : Serving V)
        → answers id (spawn j body s) ≡ answers id s + one_if (j == id)
    unfolding answers
    answers-spawn j body s =
        let task : Task V = record { id = j; method = body.method; params = body.params } in
        omega (arith, total-append (asks id) s.running (task ∷ []))

    receive_message-Grows :
        (given : Answers V) (m : JsonrpcMessage V) (s : Serving V)
        → s.stopped ≡ false
        → s.client_disconnected ≡ false
        → Grows id s
            (receive_message serde versions given m s)
            (asked id {R = R} s (incoming (some (ok m)) given))
    unfolding receive_message
    receive_message-Grows given (request j body) s on open' =
        subst (Grows id s (receive_message serde versions given (request j body) s))
          (sym (asked-open id R given j body s on open'))
          (if-cases (λ s'. Grows id s s' (one_if (j == id))) (is_initialize body) _ _
            (λ first. receive_initialize-Grows given j body.params s)
            (λ other.
              end_round-Grows id s (spawn j body s) (one_if (j == id)) (answers-spawn j body s)))
    receive_message-Grows given (response r) s on open' =
        end_round-Grows id s (record s { responses = s.responses ++ r ∷ [] }) 0
          (unfold answers in omega arith)
    receive_message-Grows given (notification n) s on open' =
        end_round-Grows id s
          (notified
            (parse_typed_notification serde.string_value serde.parse_notification serde.object_value
              n)
            s)
          0 (omega (arith, answers-notified _ s))

    receive_item-Grows :
        (given : Answers V) (item : Option (Result Error (JsonrpcMessage V))) (s : Serving V)
        → s.stopped ≡ false
        → s.client_disconnected ≡ false
        → Grows id s
            (receive_item serde versions given item s)
            (asked id {R = R} s (incoming item given))
    unfolding receive_item response_id
    receive_item-Grows given (some (ok m)) s on open' = receive_message-Grows given m s on open'
    receive_item-Grows given none s on open' =
        end_round-Grows id s (record s { client_disconnected = true; connection_closed = true }) 0
          (unfold answers in omega arith)
    receive_item-Grows given (some (err e)) s on open' =
        if-cases (λ s'. Grows id s s' 0) (is_json_parse e) _ _
          (λ malformed. write-Grows id given.sink parse_error_response s)
          (λ broken. unfold answers in (omega arith, λ h u. absurd (cc)))

    unless_stopped-Grows :
        (s s' : Serving V) (n : ℕ)
        → (s.stopped ≡ true → n ≡ 0)
        → (s.stopped ≡ false → Grows id s s' n)
        → Grows id s (unless_stopped s s') n
    unless_stopped-Grows s s' n idle step =
        if-cases (λ t. Grows id s t n) s.stopped _ _
          (λ over. rw (idle over) (grows id s s 0 (omega arith))) step

    -- One event.
    pub serve-Grows :
        (s : Serving V) (e : Event V R) → Grows id s (serve serde versions s e) (asked id s e)
    unfolding serve
    serve-Grows s signal_stop =
        unless_stopped-Grows s (stop s) 0 (λ h. refl)
          (λ h. (unfold answers in omega arith, λ h u. absurd (cc)))
    serve-Grows s (incoming item given) =
        unless_stopped-Grows s _ (asked id {R = R} s (incoming item given))
          (λ over. asked-shut id R given item s (rw over refl))
          (λ on.
            if-cases (λ t. Grows id s t (asked id {R = R} s (incoming item given)))
              s.client_disconnected _ _
              (λ gone.
                grows id s s _
                  (rw (asked-shut id R given item s (rw (on, gone) refl)) (omega arith)))
              (λ open'. receive_item-Grows given item s on open'))
    serve-Grows s receive_notification =
        unless_stopped-Grows s _ 0 (λ h. refl)
          (λ h. gate_notification-Grows id serde s.notifications s)
    serve-Grows s (transmit answer) =
        unless_stopped-Grows s _ 0 (λ h. refl)
          (λ h. transmit_item-Grows id answer s.outbound s refl)
    serve-Grows s (transmit_notice answer) =
        unless_stopped-Grows s _ 0 (λ h. refl) (λ h. send_notice-Grows id serde answer s.notices s)
    serve-Grows s (complete_task position handler) = complete_of-Grows id serde handler position s
    serve-Grows s (count_down position) = count_down_of-Grows id position s
    serve-Grows s (queue_payload position) = queue_of-Grows id position s
    serve-Grows s (notify n) =
        unless_stopped-Grows s _ 0 (λ h. refl)
          (λ h.
            if-cases (λ t. Grows id s t 0) (ltb (length s.notifications) server_notification_buffer)
              (record s { notifications = s.notifications ++ n ∷ [] }) s
              (λ free. unfold answers in (omega arith, λ h u. omega arith))
              (λ full. grows id s s 0 (omega arith)))
    serve-Grows s (abandon j) =
        unless_stopped-Grows s _ 0 (λ h. refl)
          (λ h. unfold answers in (omega arith, λ h u. omega arith))

module _ {V R : Type 0} (serde : Serde V R) (versions : SupportedProtocolVersions)
    (id : RequestId) where
  -- The requests with the id that the connection reads in the course of the events.
  unfoldable pub asked_by : Serving V → List (Event V R) → ℕ
  asked_by s [] = 0
  asked_by s (e ∷ es) = asked id s e + asked_by (serve serde versions s e) es

  -- The event does not cancel a request with the id.
  abbrev pub Spares : Event V R → Type 0
  Spares e = is_for id (cancelled_by serde e) ≡ false

  abbrev IsQuiet : InFlight → Type 0
  IsQuiet f = IsSound f × IsUncancelled id f

  serve-IsQuiet :
      (s : Serving V) (e : Event V R)
      → Spares e
      → IsQuiet s.in_flight
      → IsQuiet (serve serde versions s e).in_flight
  serve-IsQuiet s e spared quiet =
      let f = s.in_flight in
      serve-Keeps (λ r. IsQuiet) serde versions s e
        (record {
          starts =
              λ j body a. (begin-IsSound j f quiet.0, begin-IsUncancelled j f quiet.0 id quiet.1);
          ends = λ task rest position done found.
              (finish-IsSound task.id f quiet.0, finish-IsUncancelled task.id f quiet.0 id quiet.1);
          marks = λ j c. (
            cancel-IsSound j f quiet.0,
            cancel-IsUncancelled j f quiet.0 id (rw c at spared) quiet.1,
          );
        })
        quiet

  pub answers-run-le :
      (s : Serving V) (es : List (Event V R))
      → answers id (run serde versions s es) ≤ answers id s + asked_by s es
  unfolding run asked_by
  answers-run-le s [] = omega arith
  answers-run-le s (e ∷ es) =
      omega
        (arith, (serve-Grows serde versions id s e).0, answers-run-le (serve serde versions s e) es)

  answers-run-eq :
      (s : Serving V) (es : List (Event V R))
      → IsQuiet s.in_flight
      → All Spares es
      → (run serde versions s es).stopped ≡ false
      → answers id (run serde versions s es) ≡ answers id s + asked_by s es
  unfolding run asked_by
  answers-run-eq s [] quiet spared on = omega arith
  answers-run-eq s (e ∷ es) quiet spared on =
      let s' = serve serde versions s e in
      omega (
        arith,
        (serve-Grows serde versions id s e).1 (run-going serde versions s' es on) quiet.1,
        answers-run-eq s' es (serve-IsQuiet s e spared.0 quiet) spared.1 on,
      )

  new_serving-IsQuiet : IsQuiet (new_serving {V = V}).in_flight
  new_serving-IsQuiet = (no_requests-IsSound, λ t h. absurd (unfold get in cc))

  pub answers-new_serving : answers id (new_serving {V = V}) ≡ 0
  unfolding answers
  answers-new_serving = omega arith

  -- Whatever happens on a connection, it sends at most as many responses with an id as it has read
  -- requests with this id.
  pub run-sent_once :
      (es : List (Event V R))
      → total (names id) (run serde versions new_serving es).wire ≤ asked_by new_serving es
  unfolding answers
  run-sent_once es = omega (arith, answers-run-le (new_serving {V = V}) es, answers-new_serving)

  -- While the connection has not stopped, and if no event cancels a request with the id, every
  -- request with the id that was read has exactly one response: sent, in the outbound queue, on its
  -- way there, or still to come from its task.
  pub run-answered :
      (es : List (Event V R))
      → (run serde versions new_serving es).stopped ≡ false
      → All Spares es
      → answers id (run serde versions new_serving es) ≡ asked_by new_serving es
  run-answered es on spared = omega (
    arith,
    answers-run-eq (new_serving {V = V}) es new_serving-IsQuiet spared on,
    answers-new_serving,
  )
