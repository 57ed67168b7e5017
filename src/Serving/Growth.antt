-- ===== src/Serving/Growth.antt =====
-- What each step of a connection does to the number of answers to one request.
use tmcp.Base.{
  ℕ, ◌+◌, ◌-◌, ◌≤◌, ◌≡◌, refl, sym, ap, ◌∙◌, subst, inl, inr, false, ◌&&◌, Option, none, some, List,
  [], ◌∷◌, ◌++◌, arith, Bool-cases, Option-cases, ◌==◌, nat_eq, ==_iff, text_eq, Result, ok, err,
}
use tmcp.Errors.{Error}
use tmcp.Requests.{RequestId, request_id_eq}
use tmcp.JsonRpc.{JsonrpcMessage, notification, response}
use tmcp.JsonRpc.Responses.{response_id-jsonrpc_response}
use tmcp.Serving.{
  ServerNotification, Serde, is_cancelled, notification_permitted, create_jsonrpc_notification,
}
use tmcp.Serving.Dispatch.{ServerHandler, for_request, dispatch_request}
use tmcp.Serving.Loop.{
  Serving, Task, take_out, end_round, write, gate_notification, transmit_item, send_notice,
  complete_of, count_down_of, queue_of, gated, room, cancellation_notice, without_response,
}
use tmcp.Serving.Tokens.{IsUncancelled, is_cancelled-IsUncancelled}
use tmcp.Serving.Counts.{
  total-append, total-take_out, one_if, is_for, names, payload_names, asks, answers,
  answers-end_round, answers-write,
}
use tmcp.Base.Map.{get}

module _ {V : Type 0} (id : RequestId) where
  -- The count grows by `n` at most, and by `n` unless the connection stops or the request is
  -- cancelled.
  abbrev pub Grows : Serving V → Serving V → ℕ → Type 0
  Grows s s' n =
      (answers id s' ≤ answers id s + n)
      × (s'.stopped ≡ false → IsUncancelled id s.in_flight → answers id s' ≡ answers id s + n)

  pub grows : (s s' : Serving V) (n : ℕ) → answers id s' ≡ answers id s + n → Grows s s' n
  grows s s' n e = (omega (arith, e), λ h u. e)

  pub write-Grows :
      (answer : Result Error (Unit {0})) (m : JsonrpcMessage V) (s : Serving V)
      → Grows s (write answer m s) (names id m)
  write-Grows (ok u) m s = grows s (write (ok u) m s) (names id m) (answers-write id u m s)
  write-Grows (err e) m s = (unfold answers in omega arith, λ h u. absurd (cc))

  pub end_round-Grows :
      (s s' : Serving V) (n : ℕ) → answers id s' ≡ answers id s + n → Grows s (end_round s') n
  end_round-Grows s s' n e = grows s (end_round s') n (answers-end_round id s' ∙ e)

  pub transmit_item-Grows :
      (answer : Result Error (Unit {0})) (queue : List (Option (JsonrpcMessage V))) (s : Serving V)
      → s.outbound ≡ queue
      → Grows s (transmit_item answer queue s) 0
  unfolding transmit_item answers
  transmit_item-Grows answer [] s e = (omega arith, λ h u. omega arith)
  transmit_item-Grows answer (none ∷ rest) s e =
      end_round-Grows s (record s { outbound = rest }) 0 (rw e (omega arith))
  transmit_item-Grows answer (some m ∷ rest) s e =
      let (most, exact) = write-Grows answer m (record s { outbound = rest }) in
      (rw e (omega arith), λ h u. rw e (omega (arith, exact h u)))

  pub send_notice-Grows :
      {R : Type 0} (serde : Serde V R) (answer : Result Error (Unit {0})) (queue : List RequestId)
      (s : Serving V)
      → Grows s (send_notice serde answer queue s) 0
  unfolding send_notice answers
  send_notice-Grows serde answer [] s = grows s s 0 (omega arith)
  send_notice-Grows serde answer (j ∷ rest) s =
      write-Grows answer (cancellation_notice serde j) (record s { notices = rest })

  pub gate_notification-Grows :
      {R : Type 0} (serde : Serde V R) (queue : List (ServerNotification V)) (s : Serving V)
      → Grows s (gate_notification serde queue s) 0
  unfolding gate_notification answers
  gate_notification-Grows serde [] s = grows s s 0 (omega arith)
  gate_notification-Grows serde (n ∷ rest) s =
      let passes = notification_permitted s.capabilities n && room s.outbound in
      let message = some (notification (create_jsonrpc_notification serde n)) in
      end_round-Grows s (gated serde n (record s { notifications = rest })) 0
        (elim (Bool-cases passes) [
          | inl through ↦
              rw through (omega (arith, total-append (payload_names id) s.outbound (message ∷ [])))
          | inr held ↦ rw held (omega arith)
        ])

  pub count_down_of-Grows :
      (position : ℕ) (s : Serving V) → Grows s (count_down_of (take_out position s.finished) s) 0
  unfolding count_down_of answers
  count_down_of-Grows position s = elim (Option-cases (take_out position s.finished)) [
    | inl gone ↦ rw gone (grows s s 0 (omega arith))
    | inr ((payload, rest), found) ↦ rw found (
        grows s
          (record s {
            in_flight_requests = s.in_flight_requests - 1;
            finished = rest;
            sending = s.sending ++ payload ∷ [];
          })
          0
          (omega (
            arith,
            total-take_out (payload_names id) position s.finished payload rest found,
            total-append (payload_names id) s.sending (payload ∷ []),
          )))
  ]

  pub queue_of-Grows :
      (position : ℕ) (s : Serving V) → Grows s (queue_of (take_out position s.sending) s) 0
  unfolding queue_of answers
  queue_of-Grows position s = elim (Option-cases (take_out position s.sending)) [
    | inl gone ↦ rw gone (grows s s 0 (omega arith))
    | inr ((payload, rest), found) ↦
        let less = total-take_out (payload_names id) position s.sending payload rest found in
        rw found (elim (Bool-cases s.stopped) [
          | inl over ↦ rw over (omega (arith, less), λ h u. absurd (cc))
          | inr on ↦ elim (Bool-cases (room s.outbound)) [
            | inl free ↦
                let more = total-append (payload_names id) s.outbound (payload ∷ []) in
                rw (on, free) (omega (arith, less, more), λ h u. omega (arith, less, more))
            | inr full ↦ rw (on, full) (omega arith, λ h u. omega arith)
          ]
        ])
  ]

  names-respond :
      {R : Type 0} (serde : Serde V R) (h : ServerHandler V R) (t : Task V)
      → names id (response (dispatch_request serde h (for_request t.id) t.id t.method t.params))
        ≡ asks id t
  unfolding dispatch_request
  names-respond serde h t =
      ap (λ o. one_if (is_for id o)) (response_id-jsonrpc_response _ _ _ t.id _)

  pub complete_of-Grows :
      {R : Type 0} (serde : Serde V R) (h : ServerHandler V R) (position : ℕ) (s : Serving V)
      → Grows s (complete_of serde h (take_out position s.running) s) 0
  unfolding complete_of answers
  complete_of-Grows serde h position s = elim (Option-cases (take_out position s.running)) [
    | inl gone ↦ rw gone (grows s s 0 (omega arith))
    | inr ((task, rest), found) ↦
        let less = total-take_out (asks id) position s.running task rest found in
        let one = names-respond serde h task in
        let more =
          λ (p : Option (JsonrpcMessage V)). total-append (payload_names id) s.finished (p ∷ []) in
        let answer =
          dispatch_request serde h (for_request task.id) task.id task.method task.params in
        let token = get task.id s.in_flight.requests in
        rw found (elim (Bool-cases (is_cancelled token s.in_flight.cancelled_tokens)) [
          | inr kept ↦
              let grown = more (without_response false answer) in
              rw (kept, without_response)
                (omega (arith, less, one, grown), λ h u. omega (arith, less, one, grown))
          | inl dropped ↦
              rw (dropped, without_response)
                (
                  omega (arith, less, more none),
                  λ h u. elim (Bool-cases (task.id == id)) [
                    | inr other ↦
                        let free : asks id task ≡ 0 = rw other refl in
                        omega (arith, less, more none, free)
                    | inl same ↦ absurd (
                        let u' =
                          subst (λ i. IsUncancelled i s.in_flight)
                            (sym ((==_iff task.id id).0 same)) u in
                        let bad = is_cancelled-IsUncancelled task.id s.in_flight u' in cc)
                  ],
                )
        ])
  ]
