-- ===== src/Serving/Ordering.antt =====
-- What a client does not get, and what it gets late.
use tmcp.Base.{
  ◌≡◌, refl, sym, ◌∙◌, subst, true, false, Option, none, some, List, [], ◌∷◌, ◌++◌, nat_eq, text_eq,
  ok, if-cases,
}
use mathlib.Core.List.{append-nil}
use tmcp.JsonRpc.{JsonrpcMessage, notification}
use tmcp.Serving.{Serde, ServerNotification, notification_permitted, create_jsonrpc_notification}
use tmcp.Serving.Dispatch.{ServerHandler}
use tmcp.Serving.Handshake.{SupportedProtocolVersions}
use tmcp.Serving.Loop.{
  Serving, Task, Event, signal_stop, incoming, receive_notification, transmit, transmit_notice,
  complete_task, count_down, queue_payload, notify, abandon, take_out, stop, serve, run,
  unless_stopped, complete_of, count_down_of, queue_of, transmit_item, gate_notification, room,
}
use tmcp.Serving.Preservation.{serve-stopped}

module _ {V R : Type 0} (serde : Serde V R) (versions : SupportedProtocolVersions) where
  unless_stopped-wire : (s s' : Serving V) → s.stopped ≡ true → (unless_stopped s s').wire ≡ s.wire
  unless_stopped-wire s s' over =
      if-cases (λ (t : Serving V). t.wire ≡ s.wire) s.stopped s s' (λ h. refl)
        (λ on. absurd (let h = sym over ∙ on in cc))

  complete_of-wire :
      (handler : ServerHandler V R) (o : Option (Task V × List (Task V))) (s : Serving V)
      → (complete_of serde handler o s).wire ≡ s.wire
  unfolding complete_of
  complete_of-wire handler none s = refl
  complete_of-wire handler (some (task, rest)) s = refl

  count_down_of-wire :
      (o : Option (Option (JsonrpcMessage V) × List (Option (JsonrpcMessage V)))) (s : Serving V)
      → (count_down_of o s).wire ≡ s.wire
  unfolding count_down_of
  count_down_of-wire none s = refl
  count_down_of-wire (some (payload, rest)) s = refl

  queue_of-wire :
      (o : Option (Option (JsonrpcMessage V) × List (Option (JsonrpcMessage V)))) (s : Serving V)
      → (queue_of o s).wire ≡ s.wire
  unfolding queue_of
  queue_of-wire none s = refl
  queue_of-wire (some (payload, rest)) s =
      if-cases (λ (t : Serving V). t.wire ≡ s.wire) s.stopped _ _ (λ h. refl)
        (λ h.
          if-cases (λ (t : Serving V). t.wire ≡ s.wire) (room s.outbound) _ s (λ k. refl)
            (λ k. refl))

  serve-wire :
      (s : Serving V) (e : Event V R) → s.stopped ≡ true → (serve serde versions s e).wire ≡ s.wire
  unfolding serve
  serve-wire s signal_stop over = unless_stopped-wire s (stop s) over
  serve-wire s (incoming item given) over = unless_stopped-wire s _ over
  serve-wire s receive_notification over = unless_stopped-wire s _ over
  serve-wire s (transmit answer) over = unless_stopped-wire s _ over
  serve-wire s (transmit_notice answer) over = unless_stopped-wire s _ over
  serve-wire s (complete_task position handler) over = complete_of-wire handler _ s
  serve-wire s (count_down position) over = count_down_of-wire _ s
  serve-wire s (queue_payload position) over = queue_of-wire _ s
  serve-wire s (notify n) over = unless_stopped-wire s _ over
  serve-wire s (abandon j) over = unless_stopped-wire s _ over

  run-wire :
      (s : Serving V) (es : List (Event V R))
      → s.stopped ≡ true
      → (run serde versions s es).wire ≡ s.wire
  unfolding run
  run-wire s [] over = refl
  run-wire s (e ∷ es) over =
      run-wire (serve serde versions s e) es (serve-stopped serde versions s e over)
      ∙ serve-wire s e over

  abbrev pub message_of : Option (JsonrpcMessage V) → List (JsonrpcMessage V)
  message_of none = []
  message_of (some m) = m ∷ []

  abbrev Sends : Option (JsonrpcMessage V) → List (Option (JsonrpcMessage V)) → Serving V → Type 0
  Sends item queue s =
      ((transmit_item (ok tt) queue s).stopped ≡ true)
      × ((transmit_item (ok tt) queue s).wire ≡ s.wire ++ message_of item)

  alone :
      (item : Option (JsonrpcMessage V)) (s : Serving V)
      → Sends item
          (item ∷ [])
          (record s { client_disconnected = true; in_flight_requests = 0; notices = [] })
  unfolding transmit_item
  alone none s = (refl, sym (append-nil s.wire))
  alone (some m) s = (refl, refl)

  last_item :
      (item : Option (JsonrpcMessage V)) (queue : List (Option (JsonrpcMessage V))) (s : Serving V)
      → s.client_disconnected ≡ true
      → s.in_flight_requests ≡ 0
      → s.notices ≡ []
      → queue ≡ item ∷ []
      → ((transmit_item (ok tt) queue s).stopped ≡ true)
        × ((transmit_item (ok tt) queue s).wire ≡ s.wire ++ message_of item)
  unfolding transmit_item
  last_item item queue s gone counted told e =
      let same : record s { client_disconnected = true; in_flight_requests = 0; notices = [] } ≡ s =
        (λ i. record s {
          client_disconnected = sym gone i;
          in_flight_requests = sym counted i;
          notices = sym told i;
        }) in
      subst
        (λ (t : Serving V).
          ((transmit_item (ok tt) queue t).stopped ≡ true)
          × ((transmit_item (ok tt) queue t).wire ≡ t.wire ++ message_of item))
        same
        (subst
          (λ q.
            Sends item q
              (record s { client_disconnected = true; in_flight_requests = 0; notices = [] }))
          (sym e) (alone item s))

  -- A response can be lost. When the client has closed its side, every task has counted down, and one
  -- last item is queued, the transmission of this item stops the loop, although other tasks still
  -- wait to queue their responses: nothing but the item is ever sent after this state.
  pub run-loses :
      (s : Serving V) (item : Option (JsonrpcMessage V)) (lost : JsonrpcMessage V)
      (others : List (Option (JsonrpcMessage V))) (es : List (Event V R))
      → s.stopped ≡ false
      → s.client_disconnected ≡ true
      → s.in_flight_requests ≡ 0
      → s.sending ≡ some lost ∷ others
      → s.outbound ≡ item ∷ []
      → s.notices ≡ []
      → (run serde versions s (transmit (ok tt) ∷ es)).wire ≡ s.wire ++ message_of item
  unfolding run serve
  run-loses s item lost others es on gone counted waiting queued told =
      let (over, sent) = last_item item s.outbound s gone counted told queued in
      if-cases (λ (t : Serving V). (run serde versions t es).wire ≡ s.wire ++ message_of item)
        s.stopped s (transmit_item (ok tt) s.outbound s) (λ h. absurd (let k = sym on ∙ h in cc))
        (λ h. run-wire (transmit_item (ok tt) s.outbound s) es over ∙ sent)

  abbrev overtaken :
      Serving V
      → ServerNotification V
      → JsonrpcMessage V
      → List (Option (JsonrpcMessage V))
      → Serving V
  overtaken s n m others = record s {
    stopped = false;
    client_disconnected = false;
    notifications = n ∷ [];
    sending = some m ∷ others;
    outbound = [];
  }

  -- A notification can be overtaken. A permitted notification that was emitted before a task queues
  -- its response is sent after this response, if the loop takes it from its channel later.
  pub run-overtakes :
      (s : Serving V) (n : ServerNotification V) (m : JsonrpcMessage V)
      (others : List (Option (JsonrpcMessage V)))
      → s.stopped ≡ false
      → s.client_disconnected ≡ false
      → s.notifications ≡ n ∷ []
      → notification_permitted s.capabilities n ≡ true
      → s.sending ≡ some m ∷ others
      → s.outbound ≡ []
      → (run serde versions s
          (queue_payload 0 ∷ receive_notification ∷ transmit (ok tt) ∷ transmit (ok tt) ∷ [])).wire
        ≡ (s.wire ++ m ∷ []) ++ notification (create_jsonrpc_notification serde n) ∷ []
  run-overtakes s n m others on open' emitted permitted waiting free =
      let same : overtaken s n m others ≡ s = (λ i. record s {
        stopped = sym on i;
        client_disconnected = sym open' i;
        notifications = sym emitted i;
        sending = sym waiting i;
        outbound = sym free i;
      }) in
      subst
        (λ (t : Serving V).
          (run serde versions t (
            queue_payload 0 ∷ receive_notification ∷ transmit (ok tt) ∷ transmit (ok tt) ∷ [])).wire
          ≡ (s.wire ++ m ∷ []) ++ notification (create_jsonrpc_notification serde n) ∷ [])
        same
        (unfold run serve queue_of take_out gate_notification transmit_item in rw permitted refl)
