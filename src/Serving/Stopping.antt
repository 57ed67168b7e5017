-- ===== src/Serving/Stopping.antt =====
-- Each event keeps the counter of requests right, and a connection without its client stops.
use tmcp.Base.{
  ℕ, zero, suc, ◌≤◌, ◌<◌, ◌≡◌, refl, sym, ap, ◌∙◌, ◌⊎◌, inl, inr, true, false, Option, none, some,
  List, [], ◌∷◌, ◌++◌, arith, ltb, Bool-cases, length, length-append, All, nat_eq, text_eq, Result,
  ok, err, if-cases,
}
use tmcp.Errors.{Error}
use tmcp.Requests.{RequestId, request_id_eq}
use tmcp.JsonRpc.{JsonrpcMessage, request, notification, response, Request}
use tmcp.Serving.{
  ClientNotification, initialized, roots_list_changed, status_changed, progressed, cancels, Serde,
}
use tmcp.Serving.Dispatch.{ServerHandler}
use tmcp.Serving.Handshake.{SupportedProtocolVersions, handle_initialize_request}
use tmcp.Serving.Loop.{
  Serving, Task, Event, Answers, signal_stop, incoming, receive_notification, transmit,
  transmit_notice, complete_task, count_down, queue_payload, notify, abandon, take_out, end_round,
  stop, write, serve, run, receive_message, receive_item, notified, spawn, is_initialize,
  unless_stopped, complete_of, count_down_of, queue_of, transmit_item, send_notice, is_json_parse,
  room, server_notification_buffer, new_serving, reinitialize_error_response, parse_error_response,
  cancellation_notice,
}
use tmcp.Serving.Draining.{
  work, IsCounted, IsLive, stop-IsLive, end_round-IsLive, write-IsLive, connect_or_panic-IsLive,
  transmit_item-IsLive, count_down_of-IsLive, queue_of-IsLive, send_notice-IsLive,
  gate_notification-IsLive, complete_of-IsLive, length-take_out,
}

first-taken {ℓ} :
    {A : Type ℓ} (xs : List A) (x : A) (rest : List A)
    → xs ≡ x ∷ rest
    → take_out 0 xs ≡ some (x, rest)
unfolding take_out
first-taken xs x rest e = rw e refl

List-cases {ℓ} : {A : Type ℓ} (xs : List A) → (xs ≡ []) ⊎ ((q : A × List A) × (xs ≡ q.0 ∷ q.1))
List-cases [] = inl refl
List-cases (x ∷ xs) = inr ((x, xs), refl)

module _ {V R : Type 0} (serde : Serde V R) (versions : SupportedProtocolVersions) where
  notified-IsCounted :
      (n : Result Error (ClientNotification V)) (s : Serving V)
      → IsCounted s
      → IsCounted (notified n s)
  notified-IsCounted (ok (cancels none)) s c = c
  notified-IsCounted (ok (cancels (some j))) s c = c
  notified-IsCounted (ok (initialized fields)) s c = c
  notified-IsCounted (ok (roots_list_changed fields)) s c = c
  notified-IsCounted (ok (status_changed fields)) s c = c
  notified-IsCounted (ok (progressed fields)) s c = c
  notified-IsCounted (err e) s c = c

  spawn-IsCounted :
      (j : RequestId) (body : Request V) (s : Serving V) → IsCounted s → IsCounted (spawn j body s)
  spawn-IsCounted j body s c =
      let task : Task V = record { id = j; method = body.method; params = body.params } in
      omega (arith, c, length-append s.running (task ∷ []))

  receive_item-IsLive :
      (given : Answers V) (item : Option (Result Error (JsonrpcMessage V))) (s : Serving V)
      → IsLive s
      → IsLive (receive_item serde versions given item s)
  unfolding receive_item receive_message
  receive_item-IsLive given none s l =
      end_round-IsLive (record s { client_disconnected = true; connection_closed = true }) l.0
  receive_item-IsLive given (some (err e)) s l =
      if-cases IsLive (is_json_parse e) _ (stop s)
        (λ h. write-IsLive given.sink parse_error_response s l.0) (λ h. stop-IsLive s l.0)
  receive_item-IsLive given (some (ok (request j body))) s l =
      if-cases IsLive (is_initialize body) _ _
        (λ first.
          if-cases IsLive s.initialized _ _
            (λ old. write-IsLive given.sink (reinitialize_error_response j) s l.0)
            (λ new.
              connect_or_panic-IsLive given
                (handle_initialize_request serde given.on_initialize versions j body.params) s l.0))
        (λ other. end_round-IsLive (spawn j body s) (spawn-IsCounted j body s l.0))
  receive_item-IsLive given (some (ok (response r))) s l =
      end_round-IsLive (record s { responses = s.responses ++ r ∷ [] }) l.0
  receive_item-IsLive given (some (ok (notification n))) s l =
      end_round-IsLive (notified _ s) (notified-IsCounted _ s l.0)

  unless_stopped-IsLive : (s s' : Serving V) → IsLive s → IsLive s' → IsLive (unless_stopped s s')
  unless_stopped-IsLive s s' l l' = if-cases IsLive s.stopped s s' (λ h. l) (λ h. l')

  serve-IsLive : (s : Serving V) (e : Event V R) → IsLive s → IsLive (serve serde versions s e)
  unfolding serve
  serve-IsLive s signal_stop l = unless_stopped-IsLive s (stop s) l (stop-IsLive s l.0)
  serve-IsLive s (incoming item given) l =
      unless_stopped-IsLive s _ l (
        if-cases IsLive s.client_disconnected s _ (λ h. l)
          (λ h. receive_item-IsLive given item s l))
  serve-IsLive s receive_notification l =
      unless_stopped-IsLive s _ l (gate_notification-IsLive serde s.notifications s l)
  serve-IsLive s (transmit answer) l =
      unless_stopped-IsLive s _ l (transmit_item-IsLive answer s.outbound s l)
  serve-IsLive s (transmit_notice answer) l =
      unless_stopped-IsLive s _ l (send_notice-IsLive serde answer s.notices s l)
  serve-IsLive s (complete_task position handler) l = complete_of-IsLive serde handler position s l
  serve-IsLive s (count_down position) l = count_down_of-IsLive position s l
  serve-IsLive s (queue_payload position) l = queue_of-IsLive position s l
  serve-IsLive s (notify n) l = unless_stopped-IsLive s _ l (
      if-cases IsLive (ltb (length s.notifications) server_notification_buffer)
        (record s { notifications = s.notifications ++ n ∷ [] }) s (λ h. l) (λ h. l))
  serve-IsLive s (abandon j) l =
      unless_stopped-IsLive s (record s { notices = s.notices ++ j ∷ [] }) l
        (l.0, λ d on. omega (arith, length-append s.notices (j ∷ [])))

  -- At every moment of a connection the counter of requests has the tasks that have not counted
  -- down, and a connection that goes on after its client has closed its side has work in hand.
  run-IsLive : (s : Serving V) (es : List (Event V R)) → IsLive s → IsLive (run serde versions s es)
  unfolding run
  run-IsLive s [] l = l
  run-IsLive s (e ∷ es) l = run-IsLive (serve serde versions s e) es (serve-IsLive s e l)

  new_serving-IsLive : IsLive (new_serving {V = V})
  new_serving-IsLive = (omega arith, λ d on. absurd (cc))

  -- Steps of the tasks and of the loop, with a transport that takes what it is given, and without
  -- any input.
  abbrev pub IsOwn : Event V R → Type 0
  IsOwn (transmit answer) = answer ≡ ok tt
  IsOwn (transmit_notice answer) = answer ≡ ok tt
  IsOwn (complete_task position handler) = Unit
  IsOwn (count_down position) = Unit
  IsOwn (queue_payload position) = Unit
  IsOwn e = ⊥

  abbrev Lowers : Serving V → Serving V → Type 0
  Lowers s s' = (s'.client_disconnected ≡ true) × (work s' < work s)

  end_round-Lowers : (s s' : Serving V) → Lowers s s' → Lowers s (end_round s')
  end_round-Lowers s s' l = if-cases (Lowers s) _ _ s' (λ h. l) (λ h. l)

  write-Lowers :
      (m : JsonrpcMessage V) (s s' : Serving V) → Lowers s s' → Lowers s (write (ok tt) m s')
  write-Lowers m s s' l = end_round-Lowers s (record s' { wire = s'.wire ++ m ∷ [] }) l

  unless_stopped-Lowers :
      (s s' : Serving V) → s.stopped ≡ false → Lowers s s' → Lowers s (unless_stopped s s')
  unless_stopped-Lowers s s' on l =
      if-cases (Lowers s) s.stopped s s' (λ over. absurd (let h = sym over ∙ on in cc)) (λ h. l)

  completes :
      (handler : ServerHandler V R) (s : Serving V) (task : Task V) (rest : List (Task V))
      → s.client_disconnected ≡ true
      → s.running ≡ task ∷ rest
      → Lowers s (complete_of serde handler (take_out 0 s.running) s)
  unfolding complete_of
  completes handler s task rest gone e =
      let found = first-taken s.running task rest e in
      let less = length-take_out 0 s.running task rest found in
      let more = λ (p : Option (JsonrpcMessage V)). length-append s.finished (p ∷ []) in
      rw found (gone, omega (arith, less, more _))

  counts_down :
      (s : Serving V) (p : Option (JsonrpcMessage V)) (rest : List (Option (JsonrpcMessage V)))
      → s.client_disconnected ≡ true
      → s.finished ≡ p ∷ rest
      → Lowers s (count_down_of (take_out 0 s.finished) s)
  unfolding count_down_of
  counts_down s p rest gone e =
      let found = first-taken s.finished p rest e in
      let less = length-take_out 0 s.finished p rest found in
      rw found (gone, omega (arith, less, length-append s.sending (p ∷ [])))

  transmits :
      (s : Serving V) (queue : List (Option (JsonrpcMessage V))) (p : Option (JsonrpcMessage V))
      (rest : List (Option (JsonrpcMessage V)))
      → s.client_disconnected ≡ true
      → s.outbound ≡ queue
      → queue ≡ p ∷ rest
      → Lowers s (transmit_item (ok tt) queue s)
  unfolding transmit_item
  transmits s [] p rest gone same e = absurd (cc)
  transmits s (none ∷ later) p rest gone same e =
      let less = ap length same in
      end_round-Lowers s (record s { outbound = later }) (gone, omega (arith, less))
  transmits s (some m ∷ later) p rest gone same e =
      let less = ap length same in
      write-Lowers m s (record s { outbound = later }) (gone, omega (arith, less))

  queues :
      (s : Serving V) (p : Option (JsonrpcMessage V)) (rest : List (Option (JsonrpcMessage V)))
      → s.client_disconnected ≡ true
      → s.stopped ≡ false
      → s.outbound ≡ []
      → s.sending ≡ p ∷ rest
      → Lowers s (queue_of (take_out 0 s.sending) s)
  unfolding queue_of
  queues s p rest gone on free e =
      let found = first-taken s.sending p rest e in
      let less = length-take_out 0 s.sending p rest found in
      let more = length-append s.outbound (p ∷ []) in
      rw found (
        if-cases (Lowers s) s.stopped (record s { sending = rest }) _
          (λ h. (gone, omega (arith, less)))
          (λ h.
            if-cases (Lowers s) (room s.outbound)
              (record s { sending = rest; outbound = s.outbound ++ p ∷ [] }) s
              (λ k. (gone, omega (arith, less, more)))
              (λ full. absurd (let k = rw free at full in cc))))

  sends_notice :
      (s : Serving V) (queue : List RequestId) (id : RequestId) (rest : List RequestId)
      → s.client_disconnected ≡ true
      → s.notices ≡ queue
      → queue ≡ id ∷ rest
      → Lowers s (send_notice serde (ok tt) queue s)
  unfolding send_notice
  sends_notice s [] id rest gone same e = absurd (cc)
  sends_notice s (j ∷ later) id rest gone same e =
      let less = ap length same in
      write-Lowers (cancellation_notice serde j) s (record s { notices = later })
        (gone, omega (arith, less))

  -- One step that lowers the work in hand.
  next_step :
      (handler : ServerHandler V R) (s : Serving V)
      → s.client_disconnected ≡ true
      → s.stopped ≡ false
      → 0 < work s
      → (e : Event V R) × IsOwn e × Lowers s (serve serde versions s e)
  unfolding serve
  next_step handler s gone on busy = elim (List-cases s.running) [
    | inr (q, e) ↦ (complete_task 0 handler, tt, completes handler s q.0 q.1 gone e)
    | inl idle ↦ elim (List-cases s.finished) [
      | inr (q, e) ↦ (count_down 0, tt, counts_down s q.0 q.1 gone e)
      | inl counted ↦ elim (List-cases s.outbound) [
        | inr (q, e) ↦ (
          transmit (ok tt),
          refl,
          unless_stopped-Lowers s _ on (transmits s s.outbound q.0 q.1 gone refl e),
        )
        | inl sent ↦ elim (List-cases s.sending) [
          | inr (q, e) ↦ (queue_payload 0, tt, queues s q.0 q.1 gone on sent e)
          | inl queued ↦ elim (List-cases s.notices) [
            | inr (q, e) ↦ (
              transmit_notice (ok tt),
              refl,
              unless_stopped-Lowers s _ on (sends_notice s s.notices q.0 q.1 gone refl e),
            )
            | inl told ↦ absurd (
                omega (
                  arith,
                  busy,
                  ap length idle,
                  ap length counted,
                  ap length sent,
                  ap length queued,
                  ap length told,
                ))
          ]
        ]
      ]
    ]
  ]

  drains :
      (handler : ServerHandler V R) (n : ℕ) (s : Serving V)
      → work s ≤ n
      → IsLive s
      → s.client_disconnected ≡ true
      → (es : List (Event V R)) × All IsOwn es
        × (length es ≤ n)
        × ((run serde versions s es).stopped ≡ true)
  unfolding run
  drains handler zero s enough live gone = elim (Bool-cases s.stopped) [
    | inl over ↦ ([], tt, omega arith, over)
    | inr on ↦ absurd (omega (arith, live.1 gone on, enough))
  ]
  drains handler (suc n) s enough live gone = elim (Bool-cases s.stopped) [
    | inl over ↦ ([], tt, omega arith, over)
    | inr on ↦
        let (e, own, less) = next_step handler s gone on (live.1 gone on) in
        let s' = serve serde versions s e in
        let (es, owns, short, over) =
          drains handler n s' (omega (arith, less.1, enough)) (serve-IsLive s e live) less.0 in
        (e ∷ es, (own, owns), omega (arith, short), over)
  ]

  -- A connection whose client has closed its side can always finish: whatever happened before, there
  -- is a course of at most `work` steps of its tasks and its loop, without any input, after which the
  -- loop has stopped.
  pub run-drains :
      (handler : ServerHandler V R) (es : List (Event V R))
      → (run serde versions new_serving es).client_disconnected ≡ true
      → (more : List (Event V R)) × All IsOwn more
        × (length more ≤ work (run serde versions new_serving es))
        × ((run serde versions (run serde versions new_serving es) more).stopped ≡ true)
  run-drains handler es gone =
      let s = run serde versions new_serving es in
      drains handler (work s) s (omega arith) (run-IsLive new_serving es new_serving-IsLive) gone
