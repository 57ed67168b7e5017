-- ===== src/Serving/Cancellation.antt =====
-- A request that was cancelled in time gets no response.
use tmcp.Base.{
  ℕ, ◌+◌, ◌≤◌, ◌<◌, ◌≡◌, refl, sym, ◌∙◌, subst, ◌⊎◌, inl, inr, true, false, Option, none, some,
  List, [], ◌∷◌, arith, Bool-cases, Option-cases, is_some, ◌==◌, nat_eq, ==_iff, ==_self, mem,
  text_eq, ok, if-cases,
}
use tmcp.Requests.{RequestId, request_id_eq}
use tmcp.JsonRpc.{notification, Request, Notification, parse_typed_notification}
use tmcp.Serving.{cancels, Serde, InFlight, cancel, finish, is_cancelled}
use tmcp.Serving.Dispatch.{ServerHandler}
use tmcp.Serving.Handshake.{SupportedProtocolVersions}
use tmcp.Serving.Loop.{
  Serving, Task, Event, Answers, incoming, complete_task, take_out, serve, run, new_serving, spawn,
  complete_of, without_response, end_round, receive_item, receive_message, notified,
}
use tmcp.Serving.Counts.{
  total, total-append, total-take_out, one_if, names, payload_names, asks, answers, asked,
}
use tmcp.Serving.Growth.{complete_of-Grows}
use tmcp.Serving.Preservation.{serve-Keeps, is_completion}
use tmcp.Serving.Answers.{serve-Grows, asked_by, answers-run-le, answers-new_serving}
use tmcp.Base.Map.{get, get-insert, get-remove}

module _ {V R : Type 0} (serde : Serde V R) (versions : SupportedProtocolVersions)
    (id : RequestId) where
  -- A request that runs alone under its id is in flight.
  abbrev IsTracked : List (Task V) → InFlight → Type 0
  IsTracked tasks f = 0 < total (asks id) tasks → is_some (get id f.requests) ≡ true

  asking-le : (s : Serving V) → total (asks id) s.running ≤ answers id s
  unfolding answers
  asking-le s = omega arith

  spawn-IsTracked :
      (j : RequestId) (body : Request V) (s : Serving V)
      → IsTracked s.running s.in_flight
      → IsTracked (spawn j body s).running (spawn j body s).in_flight
  spawn-IsTracked j body s t more =
      let task : Task V = record { id = j; method = body.method; params = body.params } in
      let grown = total-append (asks id) s.running (task ∷ []) in
      let stored = get-insert j id s.in_flight.next_token s.in_flight.requests in
      elim (Bool-cases (j == id)) [
        | inl same ↦ rw stored (rw same refl)
        | inr other ↦
            let none_new : asks id task ≡ 0 = rw other refl in
            rw stored (rw other (t (omega (arith, more, grown, none_new))))
      ]

  ends-IsTracked :
      (s : Serving V) (task : Task V) (rest : List (Task V)) (position : ℕ)
      → answers id s ≤ 1
      → take_out position s.running ≡ some (task, rest)
      → IsTracked s.running s.in_flight
      → IsTracked rest (finish task.id s.in_flight)
  ends-IsTracked s task rest position once found t more =
      let less = total-take_out (asks id) position s.running task rest found in
      let kept = get-remove task.id id s.in_flight.requests in
      elim (Bool-cases (task.id == id)) [
        | inl same ↦
            let one : asks id task ≡ 1 = rw same refl in
            absurd (omega (arith, less, one, more, once, asking-le s))
        | inr other ↦
            let none_gone : asks id task ≡ 0 = rw other refl in
            rw kept (rw other (t (omega (arith, more, less, none_gone))))
      ]

  marks-IsTracked :
      (j : RequestId) (tasks : List (Task V)) (f : InFlight)
      → IsTracked tasks f
      → IsTracked tasks (cancel j f)
  marks-IsTracked j tasks f t more = elim (Option-cases (get j f.requests)) [
    | inl unknown ↦ rw (unknown, cancel) (t more)
    | inr (token, known) ↦ rw (known, cancel) (t more)
  ]

  serve-IsTracked :
      (s : Serving V) (e : Event V R)
      → answers id s ≤ 1
      → IsTracked s.running s.in_flight
      → IsTracked (serve serde versions s e).running (serve serde versions s e).in_flight
  serve-IsTracked s e once t =
      serve-Keeps IsTracked serde versions s e
        (record {
          starts = λ j body a. spawn-IsTracked j body s t;
          ends = λ task rest position done found. ends-IsTracked s task rest position once found t;
          marks = λ j c. marks-IsTracked j s.running s.in_flight t;
        })
        t

  run-IsTracked :
      (s : Serving V) (es : List (Event V R))
      → answers id s + asked_by serde versions id s es ≤ 1
      → IsTracked s.running s.in_flight
      → IsTracked (run serde versions s es).running (run serde versions s es).in_flight
  unfolding run asked_by
  run-IsTracked s [] once t = t
  run-IsTracked s (e ∷ es) once t =
      let s' = serve serde versions s e in
      run-IsTracked s' es (omega (arith, (serve-Grows serde versions id s e).0, once))
        (serve-IsTracked s e (omega (arith, once)) t)

  -- The only task with the id has a cancelled token, or there is none.
  abbrev IsDoomed : List (Task V) → InFlight → Type 0
  IsDoomed tasks f =
      (total (asks id) tasks ≡ 0)
      ⊎ ((total (asks id) tasks ≡ 1) × (is_cancelled (get id f.requests) f.cancelled_tokens ≡ true))

  -- No response with the id was made, and none will be.
  abbrev IsSilent : Serving V → Type 0
  IsSilent s = (answers id s ≤ total (asks id) s.running) × IsDoomed s.running s.in_flight

  spawn-IsDoomed :
      (j : RequestId) (body : Request V) (s : Serving V)
      → (j == id) ≡ false
      → IsDoomed s.running s.in_flight
      → IsDoomed (spawn j body s).running (spawn j body s).in_flight
  spawn-IsDoomed j body s other d =
      let task : Task V = record { id = j; method = body.method; params = body.params } in
      let grown = total-append (asks id) s.running (task ∷ []) in
      let stored = get-insert j id s.in_flight.next_token s.in_flight.requests in
      let none_new : asks id task ≡ 0 = rw other refl in
      elim d [
        | inl idle ↦ inl (omega (arith, idle, grown, none_new))
        | inr (one, marked) ↦ inr (omega (arith, one, grown, none_new), rw stored (rw other marked))
      ]

  is_cancelled-cancel :
      (j : RequestId) (f : InFlight) (o : Option ℕ)
      → is_cancelled o f.cancelled_tokens ≡ true
      → is_cancelled o (cancel j f).cancelled_tokens ≡ true
  unfolding mem
  is_cancelled-cancel j f none h = absurd (cc)
  is_cancelled-cancel j f (some t) h = elim (Option-cases (get j f.requests)) [
    | inl unknown ↦ rw (unknown, cancel) h
    | inr (token, known) ↦ rw (known, cancel) (ground (arith, h))
  ]

  requests-cancel : (j : RequestId) (f : InFlight) → (cancel j f).requests ≡ f.requests
  requests-cancel j f = elim (Option-cases (get j f.requests)) [
    | inl unknown ↦ rw (unknown, cancel) refl
    | inr (token, known) ↦ rw (known, cancel) refl
  ]

  marks-IsDoomed :
      (j : RequestId) (tasks : List (Task V)) (f : InFlight)
      → IsDoomed tasks f
      → IsDoomed tasks (cancel j f)
  marks-IsDoomed j tasks f (inl idle) = inl idle
  marks-IsDoomed j tasks f (inr (one, marked)) = inr (
    one,
    subst (λ m. is_cancelled (get id m) (cancel j f).cancelled_tokens ≡ true)
        (sym (requests-cancel j f)) (is_cancelled-cancel j f (get id f.requests) marked),
  )

  not_asked : (j : RequestId) (n : ℕ) → n ≡ 0 → n ≡ one_if (j == id) → (j == id) ≡ false
  not_asked j n zero_asked e = elim (Bool-cases (j == id)) [
    | inr other ↦ other
    | inl same ↦ absurd (let h = rw same at e in omega (arith, h, zero_asked))
  ]

  serve-running :
      (s : Serving V) (e : Event V R)
      → is_completion e ≡ false
      → total (asks id) s.running ≤ total (asks id) (serve serde versions s e).running
  serve-running s e going =
      serve-Keeps (λ r f. total (asks id) s.running ≤ total (asks id) r) serde versions s e
        (record {
          starts = λ j body a.
              let task : Task V = record { id = j; method = body.method; params = body.params } in
              omega (arith, total-append (asks id) s.running (task ∷ []));
          ends = λ task rest position done found. absurd (let h = sym going ∙ done in cc);
          marks = λ j c. omega arith;
        })
        (omega arith)

  -- The cancelled task ends without a response.
  dropped-IsSilent :
      (handler : ServerHandler V R) (s : Serving V) (task : Task V) (rest : List (Task V))
      → total (asks id) s.running ≡ 1 + total (asks id) rest
      → is_cancelled (get task.id s.in_flight.requests) s.in_flight.cancelled_tokens ≡ true
      → answers id s ≤ 1
      → total (asks id) s.running ≡ 1
      → IsSilent (complete_of serde handler (some (task, rest)) s)
  unfolding complete_of answers
  dropped-IsSilent handler s task rest less marked few one =
      rw (marked, without_response)
        (
          omega (arith, less, few, one, total-append (payload_names id) s.finished (none ∷ [])),
          inl (omega (arith, less, one)),
        )

  kept-IsDoomed :
      (s : Serving V) (task : Task V) (rest : List (Task V))
      → total (asks id) s.running ≡ total (asks id) rest
      → (task.id == id) ≡ false
      → IsDoomed s.running s.in_flight
      → IsDoomed rest (finish task.id s.in_flight)
  kept-IsDoomed s task rest same other (inl idle) = inl (omega (arith, same, idle))
  kept-IsDoomed s task rest same other (inr (one, marked)) =
      inr (
        omega (arith, same, one),
        rw (get-remove task.id id s.in_flight.requests) (rw other marked),
      )

  complete_of-IsSilent :
      (handler : ServerHandler V R) (position : ℕ) (s : Serving V)
      → IsSilent s
      → IsSilent (complete_of serde handler (take_out position s.running) s)
  complete_of-IsSilent handler position s q = elim (Option-cases (take_out position s.running)) [
    | inl gone ↦ rw gone (unfold complete_of in q)
    | inr ((task, rest), found) ↦
        let less = total-take_out (asks id) position s.running task rest found in
        elim (Bool-cases (task.id == id)) [
          | inr other ↦
              let free : asks id task ≡ 0 = rw other refl in
              let fewer = (complete_of-Grows id serde handler position s).0 in
              let fewer' = rw found at fewer in
              rw found (
                unfold complete_of in omega (arith, fewer', less, free, q.0),
                unfold complete_of in
                    kept-IsDoomed s task rest (omega (arith, less, free)) other q.1,
              )
          | inl same ↦
              let one : asks id task ≡ 1 = rw same refl in
              elim q.1 [
                | inl idle ↦ absurd (omega (arith, idle, less, one))
                | inr (single, marked) ↦ rw found (
                    dropped-IsSilent handler s task rest (omega (arith, less, one))
                      (subst
                        (λ i.
                          is_cancelled (get i s.in_flight.requests) s.in_flight.cancelled_tokens
                          ≡ true)
                        (sym ((==_iff task.id id).0 same)) marked)
                      (omega (arith, q.0, single)) single)
              ]
        ]
  ]

  completion-IsSilent :
      (s : Serving V) (e : Event V R)
      → is_completion e ≡ true
      → IsSilent s
      → IsSilent (serve serde versions s e)
  completion-IsSilent s (complete_task position handler) done q =
      unfold serve in complete_of-IsSilent handler position s q
  completion-IsSilent s _ done q = absurd (cc)

  serve-IsSilent :
      (s : Serving V) (e : Event V R)
      → asked id s e ≡ 0
      → IsSilent s
      → IsSilent (serve serde versions s e)
  serve-IsSilent s e none_asked q = elim (Bool-cases (is_completion e)) [
    | inr going ↦ (
      omega
          (arith, (serve-Grows serde versions id s e).0, none_asked, q.0, serve-running s e going),
      serve-Keeps IsDoomed serde versions s e
          (record {
            starts = λ j body a.
                spawn-IsDoomed j body s (not_asked j (asked id s e) none_asked (a id)) q.1;
            ends = λ task rest position done found. absurd (let h = sym going ∙ done in cc);
            marks = λ j c. marks-IsDoomed j s.running s.in_flight q.1;
          })
          q.1,
    )
    | inl done ↦ completion-IsSilent s e done q
  ]

  run-IsSilent :
      (s : Serving V) (es : List (Event V R))
      → asked_by serde versions id s es ≡ 0
      → IsSilent s
      → IsSilent (run serde versions s es)
  unfolding run asked_by
  run-IsSilent s [] none_asked q = q
  run-IsSilent s (e ∷ es) none_asked q =
      run-IsSilent (serve serde versions s e) es (omega (arith, none_asked))
        (serve-IsSilent s e (omega (arith, none_asked)) q)

  cancel-IsSilent :
      (s : Serving V)
      → answers id s ≤ 1
      → total (asks id) s.running ≡ 1
      → IsTracked s.running s.in_flight
      → IsSilent (record s { in_flight = cancel id s.in_flight })
  unfolding answers
  cancel-IsSilent s few one tracked = (
    omega (arith, few, one),
    elim (Option-cases (get id s.in_flight.requests)) [
      | inl unknown ↦ absurd (let h = rw unknown at (tracked (omega (arith, one))) in cc)
      | inr (token, known) ↦
          inr (one, rw (known, cancel) (rw known (unfold mem in rw (==_self token) refl)))
    ],
  )

  end_round-IsSilent : (s : Serving V) → IsSilent s → IsSilent (end_round s)
  unfolding answers
  end_round-IsSilent s q = if-cases IsSilent _ _ s (λ h. q) (λ h. q)

  serve-cancels :
      (s : Serving V) (n : Notification V) (given : Answers V)
      → s.stopped ≡ false
      → s.client_disconnected ≡ false
      → parse_typed_notification serde.string_value serde.parse_notification serde.object_value n
        ≡ ok (cancels (some id))
      → IsSilent (record s { in_flight = cancel id s.in_flight })
      → IsSilent (serve serde versions s (incoming (some (ok (notification n))) given))
  unfolding serve receive_item receive_message
  serve-cancels s n given on open' parsed q =
      if-cases IsSilent s.stopped s _ (λ over. absurd (let h = sym on ∙ over in cc))
        (λ h.
          if-cases IsSilent s.client_disconnected s _
            (λ gone. absurd (let k = sym open' ∙ gone in cc))
            (λ k.
              subst (λ r. IsSilent (end_round (notified r s))) (sym parsed)
                (end_round-IsSilent (record s { in_flight = cancel id s.in_flight }) q)))

  IsSilent-wire : (s : Serving V) → IsSilent s → total (names id) s.wire ≡ 0
  unfolding answers
  IsSilent-wire s q = omega (arith, q.0)

  -- A cancellation that reaches a request while its handler runs suppresses the response: if only one
  -- request with the id is ever read, and its task still runs when the notification is read, then no
  -- response with the id is sent, in any course of events.
  pub run-cancelled :
      (before after : List (Event V R)) (n : Notification V) (given : Answers V)
      → (run serde versions new_serving before).stopped ≡ false
      → (run serde versions new_serving before).client_disconnected ≡ false
      → asked_by serde versions id new_serving before ≡ 1
      → total (asks id) (run serde versions new_serving before).running ≡ 1
      → parse_typed_notification serde.string_value serde.parse_notification serde.object_value n
        ≡ ok (cancels (some id))
      → asked_by serde versions id
          (run serde versions new_serving before)
          (incoming (some (ok (notification n))) given ∷ after)
        ≡ 0
      → total
          (names id)
          (run serde versions
            (run serde versions new_serving before)
            (incoming (some (ok (notification n))) given ∷ after)).wire
        ≡ 0
  run-cancelled before after n given on open' once running parsed none_asked =
      let s = run serde versions new_serving before in
      let few : answers id s ≤ 1 = omega (
        arith,
        answers-run-le serde versions id new_serving before,
        answers-new_serving serde versions id,
        once,
      ) in
      let tracked : IsTracked s.running s.in_flight =
        run-IsTracked new_serving before
          (omega (arith, once, answers-new_serving serde versions id))
          (λ more. absurd (omega (arith, more))) in
      let e : Event V R = incoming (some (ok (notification n))) given in
      let none_later : asked_by serde versions id (serve serde versions s e) after ≡ 0 =
        unfold asked_by in omega (arith, none_asked) in
      unfold run in
      IsSilent-wire _ (
        run-IsSilent (serve serde versions s e) after none_later
          (serve-cancels s n given on open' parsed (cancel-IsSilent s few running tracked)))
