-- ===== src/Serving/Preservation.antt =====
-- What an event leaves true of the requests in flight, and that a stopped connection stays so.
use tmcp.Base.{
  ℕ, ◌≡◌, refl, sym, ◌∙◌, inl, inr, Bool, true, false, Option, none, some, List, [], ◌∷◌, ◌++◌, ltb,
  Bool-cases, Option-cases, length, ◌==◌, nat_eq, text_eq, Result, ok, err, Result-cases, if-cases,
}
use tmcp.Errors.{Error}
use tmcp.Requests.{RequestId, request_id_eq}
use tmcp.JsonRpc.{JsonrpcMessage, JsonrpcResponse, request, notification, response, Request}
use tmcp.Serving.{
  ClientNotification, initialized, roots_list_changed, status_changed, progressed, cancels,
  ServerCapabilities, Serde, InFlight, cancel, finish, ServerNotification,
}
use tmcp.Serving.Dispatch.{ServerHandler}
use tmcp.Serving.Handshake.{SupportedProtocolVersions, handle_initialize_request}
use tmcp.Serving.Counts.{asked, asked-open, one_if}
use tmcp.Serving.Loop.{
  Serving, Task, Event, Answers, signal_stop, incoming, receive_notification, transmit,
  transmit_notice, complete_task, count_down, queue_payload, notify, abandon, take_out, end_round,
  stop, write, serve, run, receive_message, receive_item, connect, connect_or_panic, notified,
  spawn, is_initialize, unless_stopped, complete_of, count_down_of, queue_of, gate_notification,
  transmit_item, send_notice, is_json_parse, cancelled_by, cancels_of, gated, room,
  server_notification_buffer,
}

module _ {V R : Type 0} where
  abbrev pub is_completion : Event V R → Bool
  is_completion (complete_task position handler) = true
  is_completion e = false

module _ {V : Type 0} (P : List (Task V) → InFlight → Type 0) where
  abbrev At : Serving V → Type 0
  At s = P s.running s.in_flight

  write-keeps :
      (answer : Result Error (Unit {0})) (m : JsonrpcMessage V) (s : Serving V)
      → At s
      → At (write answer m s)
  write-keeps (ok u) m s p = if-cases At _ _ _ (λ h. p) (λ h. p)
  write-keeps (err e) m s p = p

  end_round-keeps : (s : Serving V) → At s → At (end_round s)
  end_round-keeps s p = if-cases At _ _ _ (λ h. p) (λ h. p)

  connect_or_panic-keeps :
      (given : Answers V) (o : Option (JsonrpcResponse V × Option (ServerCapabilities V)))
      (s : Serving V)
      → At s
      → At (connect_or_panic given o s)
  connect_or_panic-keeps given none s p = p
  connect_or_panic-keeps given (some (r, none)) s p = write-keeps given.sink (response r) s p
  connect_or_panic-keeps given (some (r, some caps)) s p = elim (Result-cases given.on_connect) [
    | inl (u, done) ↦ rw (done, connect) (write-keeps given.sink (response r) _ p)
    | inr (e, failed) ↦ rw (failed, connect) p
  ]

  transmit_item-keeps :
      (answer : Result Error (Unit {0})) (queue : List (Option (JsonrpcMessage V))) (s : Serving V)
      → At s
      → At (transmit_item answer queue s)
  unfolding transmit_item
  transmit_item-keeps answer [] s p = p
  transmit_item-keeps answer (none ∷ rest) s p = end_round-keeps (record s { outbound = rest }) p
  transmit_item-keeps answer (some m ∷ rest) s p =
      write-keeps answer m (record s { outbound = rest }) p

  count_down_of-keeps :
      (o : Option (Option (JsonrpcMessage V) × List (Option (JsonrpcMessage V)))) (s : Serving V)
      → At s
      → At (count_down_of o s)
  unfolding count_down_of
  count_down_of-keeps none s p = p
  count_down_of-keeps (some (payload, rest)) s p = p

  queue_of-keeps :
      (o : Option (Option (JsonrpcMessage V) × List (Option (JsonrpcMessage V)))) (s : Serving V)
      → At s
      → At (queue_of o s)
  unfolding queue_of
  queue_of-keeps none s p = p
  queue_of-keeps (some (payload, rest)) s p =
      if-cases At s.stopped _ _ (λ h. p) (λ h. if-cases At (room s.outbound) _ s (λ k. p) (λ k. p))

  module _ {R : Type 0} (serde : Serde V R) where
    -- What an event may do to the requests keeps the predicate.
    pub record Keeps (s : Serving V) (e : Event V R) : Type 0 where
      pub starts :
          (j : RequestId) (body : Request V)
          → ((i : RequestId) → asked i s e ≡ one_if (j == i))
          → At (spawn j body s)
      pub ends :
          (task : Task V) (rest : List (Task V)) (position : ℕ)
          → is_completion e ≡ true
          → take_out position s.running ≡ some (task, rest)
          → P rest (finish task.id s.in_flight)
      pub marks :
          (j : RequestId) → cancelled_by serde e ≡ some j → P s.running (cancel j s.in_flight)

    send_notice-keeps :
        (answer : Result Error (Unit {0})) (queue : List RequestId) (s : Serving V)
        → At s
        → At (send_notice serde answer queue s)
    unfolding send_notice
    send_notice-keeps answer [] s p = p
    send_notice-keeps answer (j ∷ rest) s p = write-keeps answer _ (record s { notices = rest }) p

    gate_notification-keeps :
        (queue : List (ServerNotification V)) (s : Serving V)
        → At s
        → At (gate_notification serde queue s)
    unfolding gate_notification
    gate_notification-keeps [] s p = p
    gate_notification-keeps (n ∷ rest) s p =
        end_round-keeps (gated serde n (record s { notifications = rest }))
          (if-cases At _ _ (record s { notifications = rest }) (λ h. p) (λ h. p))

    complete_of-keeps :
        (handler : ServerHandler V R) (position : ℕ) (s : Serving V)
        → ((task : Task V) (rest : List (Task V))
            → take_out position s.running ≡ some (task, rest)
            → P rest (finish task.id s.in_flight))
        → At s
        → At (complete_of serde handler (take_out position s.running) s)
    unfolding complete_of
    complete_of-keeps handler position s f p = elim (Option-cases (take_out position s.running)) [
      | inl gone ↦ rw gone p
      | inr ((task, rest), found) ↦ rw found (f task rest found)
    ]

    module _ (versions : SupportedProtocolVersions) where
      notified-keeps :
          (n : Result Error (ClientNotification V)) (s : Serving V)
          → ((j : RequestId) → cancels_of n ≡ some j → P s.running (cancel j s.in_flight))
          → At s
          → At (notified n s)
      notified-keeps (ok (cancels none)) s c p = p
      notified-keeps (ok (cancels (some j))) s c p = c j refl
      notified-keeps (ok (initialized fields)) s c p = p
      notified-keeps (ok (roots_list_changed fields)) s c p = p
      notified-keeps (ok (status_changed fields)) s c p = p
      notified-keeps (ok (progressed fields)) s c p = p
      notified-keeps (err e) s c p = p

      receive_item-Keeps :
          (given : Answers V) (item : Option (Result Error (JsonrpcMessage V))) (s : Serving V)
          → s.stopped ≡ false
          → s.client_disconnected ≡ false
          → Keeps s (incoming item given)
          → At s
          → At (receive_item serde versions given item s)
      unfolding receive_item receive_message
      receive_item-Keeps given none s on open' c p =
          end_round-keeps (record s { client_disconnected = true; connection_closed = true }) p
      receive_item-Keeps given (some (err e)) s on open' c p =
          if-cases At (is_json_parse e) _ (stop s) (λ h. write-keeps given.sink _ s p) (λ h. p)
      receive_item-Keeps given (some (ok (request j body))) s on open' c p =
          if-cases At (is_initialize body) _ _
            (λ first.
              if-cases At s.initialized _ _ (λ h. write-keeps given.sink _ s p)
                (λ h.
                  connect_or_panic-keeps given
                    (handle_initialize_request serde given.on_initialize versions j body.params) s
                    p))
            (λ other.
              end_round-keeps (spawn j body s)
                (c.starts j body (λ i. asked-open i R given j body s on open')))
      receive_item-Keeps given (some (ok (response r))) s on open' c p =
          end_round-keeps (record s { responses = s.responses ++ r ∷ [] }) p
      receive_item-Keeps given (some (ok (notification n))) s on open' c p =
          end_round-keeps (notified _ s) (notified-keeps _ s c.marks p)

      unless_stopped-keeps :
          (s s' : Serving V) → At s → (s.stopped ≡ false → At s') → At (unless_stopped s s')
      unless_stopped-keeps s s' p q = if-cases At s.stopped s s' (λ h. p) q

      -- What the start, the end and each cancellation of a request keep, an event keeps.
      pub serve-Keeps :
          (s : Serving V) (e : Event V R) → Keeps s e → At s → At (serve serde versions s e)
      unfolding serve
      serve-Keeps s signal_stop c p = unless_stopped-keeps s (stop s) p (λ on. p)
      serve-Keeps s (incoming item given) c p = unless_stopped-keeps s _ p (λ on.
          if-cases At s.client_disconnected s _ (λ h. p)
            (λ open'. receive_item-Keeps given item s on open' c p))
      serve-Keeps s receive_notification c p =
          unless_stopped-keeps s _ p (λ on. gate_notification-keeps s.notifications s p)
      serve-Keeps s (transmit answer) c p =
          unless_stopped-keeps s _ p (λ on. transmit_item-keeps answer s.outbound s p)
      serve-Keeps s (transmit_notice answer) c p =
          unless_stopped-keeps s _ p (λ on. send_notice-keeps answer s.notices s p)
      serve-Keeps s (complete_task position handler) c p =
          complete_of-keeps handler position s
            (λ task rest found. c.ends task rest position refl found) p
      serve-Keeps s (count_down position) c p =
          count_down_of-keeps (take_out position s.finished) s p
      serve-Keeps s (queue_payload position) c p = queue_of-keeps (take_out position s.sending) s p
      serve-Keeps s (notify n) c p = unless_stopped-keeps s _ p (λ on.
          if-cases At (ltb (length s.notifications) server_notification_buffer) _ s (λ h. p)
            (λ h. p))
      serve-Keeps s (abandon j) c p =
          unless_stopped-keeps s (record s { notices = s.notices ++ j ∷ [] }) p (λ on. p)

module _ {V R : Type 0} (serde : Serde V R) (versions : SupportedProtocolVersions) where
  unless_stopped-stopped :
      (s s' : Serving V) → s.stopped ≡ true → (unless_stopped s s').stopped ≡ true
  unless_stopped-stopped s s' over =
      if-cases (λ (t : Serving V). t.stopped ≡ true) s.stopped s s' (λ h. over)
        (λ on. absurd (let h = sym over ∙ on in cc))

  complete_of-stopped :
      (handler : ServerHandler V R) (o : Option (Task V × List (Task V))) (s : Serving V)
      → s.stopped ≡ true
      → (complete_of serde handler o s).stopped ≡ true
  unfolding complete_of
  complete_of-stopped handler none s over = over
  complete_of-stopped handler (some (task, rest)) s over = over

  count_down_of-stopped :
      (o : Option (Option (JsonrpcMessage V) × List (Option (JsonrpcMessage V)))) (s : Serving V)
      → s.stopped ≡ true
      → (count_down_of o s).stopped ≡ true
  unfolding count_down_of
  count_down_of-stopped none s over = over
  count_down_of-stopped (some (payload, rest)) s over = over

  queue_of-stopped :
      (o : Option (Option (JsonrpcMessage V) × List (Option (JsonrpcMessage V)))) (s : Serving V)
      → s.stopped ≡ true
      → (queue_of o s).stopped ≡ true
  unfolding queue_of
  queue_of-stopped none s over = over
  queue_of-stopped (some (payload, rest)) s over =
      if-cases (λ (t : Serving V). t.stopped ≡ true) s.stopped _ _ (λ h. over)
        (λ on. absurd (let h = sym over ∙ on in cc))

  -- Nothing starts a stopped connection again.
  pub serve-stopped :
      (s : Serving V) (e : Event V R) → s.stopped ≡ true → (serve serde versions s e).stopped ≡ true
  unfolding serve
  serve-stopped s signal_stop over = unless_stopped-stopped s (stop s) over
  serve-stopped s (incoming item given) over = unless_stopped-stopped s _ over
  serve-stopped s receive_notification over = unless_stopped-stopped s _ over
  serve-stopped s (transmit answer) over = unless_stopped-stopped s _ over
  serve-stopped s (transmit_notice answer) over = unless_stopped-stopped s _ over
  serve-stopped s (complete_task position handler) over =
      complete_of-stopped handler (take_out position s.running) s over
  serve-stopped s (count_down position) over =
      count_down_of-stopped (take_out position s.finished) s over
  serve-stopped s (queue_payload position) over =
      queue_of-stopped (take_out position s.sending) s over
  serve-stopped s (notify n) over = unless_stopped-stopped s _ over
  serve-stopped s (abandon j) over = unless_stopped-stopped s _ over

  pub run-stopped :
      (s : Serving V) (es : List (Event V R))
      → s.stopped ≡ true
      → (run serde versions s es).stopped ≡ true
  unfolding run
  run-stopped s [] over = over
  run-stopped s (e ∷ es) over = run-stopped (serve serde versions s e) es (serve-stopped s e over)

  pub run-going :
      (s : Serving V) (es : List (Event V R))
      → (run serde versions s es).stopped ≡ false
      → s.stopped ≡ false
  run-going s es on = elim (Bool-cases s.stopped) [
    | inr going ↦ going
    | inl over ↦ absurd (let h = sym (run-stopped s es over) ∙ on in cc)
  ]
