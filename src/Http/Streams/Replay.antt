-- ===== src/Http/Streams/Replay.antt =====
-- The stream against the list of all messages that were ever sent to it.
use tmcp.Base.{
  ℕ, ◌+◌, ◌-◌, ◌≤◌, ◌≡◌, refl, sym, ap, ◌∙◌, ◌⊎◌, inl, inr, true, false, ◌||◌, Option, none, some,
  List, [], ◌∷◌, ◌++◌, arith, ltb, leb, if◌then◌else◌, ltb→lt, ltb-false→le, Bool-cases, is_some,
  length, drop, filter, length-append, length-drop, nat_eq, ==_self, text_eq,
}
use mathlib.Core.List.{append_assoc, append-nil}
use tmcp.Base.Map.{get, contains_key, get-insert, get-remove}
use tmcp.Requests.{request_id_eq, RequestId}
use tmcp.Http.Streams.Numbered.{
  numbered, length-numbered, numbered-append, drop-append, drop-drop, drop_recent,
}
use tmcp.Http.Streams.{
  sse_replay_capacity, sse_stream_capacity, Channel, StreamState, SessionRoutes, try_send,
  send_to_stream, replay_events, attach_stream, deliver, record_event, try_send_ok, forward,
}

-- `sent` is what was sent to the stream so far. The state keeps the last of it for the replay, and
-- a live channel has what its consumer has not taken, without a gap.
pub record Represents {Message : Type 0} (state : StreamState Message) (sent : List Message)
    : Type 0 where
  pub counted : state.last_id ≡ length sent
  pub recent : state.replay ≡ drop (length sent - sse_replay_capacity) (numbered 0 sent)
  pub gapless :
      (ch : Channel Message)
      → state.tx ≡ some ch
      → (taken : ℕ) × (taken ≤ length sent) × (ch.queue ≡ drop taken (numbered 0 sent))

some_of : {Message : Type 0} (a b : Channel Message) → some a ≡ some b → a ≡ b
some_of a b e = cc

module _ {Message : Type 0} (slots : ℕ → ℕ) where
  accepts :
      (ch : Channel Message) (event : ℕ × Message)
      → ch.closed ≡ false
      → leb (slots sse_stream_capacity) (length ch.queue) ≡ false
      → try_send slots ch event ≡ some (record ch { queue = ch.queue ++ event ∷ [] })
  unfolding try_send
  accepts ch event live fits = ground arith

  -- A channel that is open and has room for all the events takes them.
  replay_events-filter :
      (last : ℕ) (events : List (ℕ × Message)) (ch : Channel Message)
      → ch.closed ≡ false
      → length ch.queue + length events ≤ slots sse_stream_capacity
      → replay_events slots last events ch
        ≡ record ch { queue = ch.queue ++ filter (λ event. ltb last event.0) events }
  unfolding replay_events try_send
  replay_events-filter last [] ch live room =
      ap (λ xs. record ch { queue = xs }) (sym (append-nil ch.queue))
  replay_events-filter last (event ∷ rest) ch live room = elim (Bool-cases (ltb last event.0)) [
    | inr older ↦ rw (older) (replay_events-filter last rest ch live (omega (arith, room)))
    | inl newer ↦
        let fits : leb (slots sse_stream_capacity) (length ch.queue) ≡ false =
          ground (arith, room) in
        let ch' : Channel Message = record ch { queue = ch.queue ++ event ∷ [] } in
        let accepted : try_send slots ch event ≡ some ch' = accepts ch event live fits in
        let step : (if ltb last event.0 then try_send_ok ch (try_send slots ch event) else ch)
            ≡ ch' =
          rw newer (ap (try_send_ok ch) accepted) in
        ap (replay_events slots last rest) step
        ∙ replay_events-filter last rest ch' live
            (omega (arith, room, length-append ch.queue (event ∷ [])))
        ∙ ap (λ xs. record ch { queue = xs })
            (append_assoc ch.queue (event ∷ []) (filter (λ x. ltb last x.0) rest) ∙ rw newer refl)
  ]

  length-replay :
      (k : ℕ) (sent : List Message) → length (drop k (numbered 0 sent)) ≡ length sent - k
  length-replay k sent = length-drop k (numbered 0 sent) ∙ ap (λ n. n - k) (length-numbered 0 sent)

  record_event-recent :
      (sent : List Message) (message : Message)
      → record_event
          (drop (length sent - sse_replay_capacity) (numbered 0 sent))
          (length sent + 1, message)
        ≡ drop
            (length (sent ++ message ∷ []) - sse_replay_capacity)
            (numbered 0 (sent ++ message ∷ []))
  record_event-recent sent message =
      let all_before = numbered 0 sent in
      let event : ℕ × Message = (length sent + 1, message) in
      let k = length sent - sse_replay_capacity in
      let grown = drop k all_before ++ event ∷ [] in
      let fits : k ≤ length all_before = omega (arith, length-numbered 0 sent) in
      let whole : numbered 0 (sent ++ message ∷ []) ≡ all_before ++ event ∷ [] =
        numbered-append 0 sent message ∙ ap (λ n. all_before ++ (n, message) ∷ []) (omega arith) in
      let total : length (sent ++ message ∷ []) ≡ length sent + 1 =
        length-append sent (message ∷ []) in
      let size : length grown ≡ (length sent - k) + 1 =
        length-append (drop k all_before) (event ∷ []) ∙ ap (λ n. n + 1) (length-replay k sent) in
      let kept : drop k (all_before ++ event ∷ []) ≡ grown =
        drop-append k all_before (event ∷ []) fits in
      elim (Bool-cases (ltb sse_replay_capacity (length grown))) [
        | inr room ↦
            let same : length (sent ++ message ∷ []) - sse_replay_capacity ≡ k =
              omega (arith, total, size, ltb-false→le sse_replay_capacity (length grown) room) in
            rw room (
              sym kept
              ∙ ap (drop k) (sym whole)
              ∙ ap (λ n. drop n (numbered 0 (sent ++ message ∷ []))) (sym same))
        | inl over ↦
            let next : length (sent ++ message ∷ []) - sse_replay_capacity ≡ k + 1 =
              omega (arith, total, size, ltb→lt sse_replay_capacity (length grown) over) in
            rw over (
              ap (drop 1) (sym kept)
              ∙ drop-drop 1 k (all_before ++ event ∷ [])
              ∙ ap (drop (k + 1)) (sym whole)
              ∙ ap (λ n. drop n (numbered 0 (sent ++ message ∷ []))) (sym next))
      ]

  try_send-queue :
      (c0 : Channel Message) (event : ℕ × Message) (ch : Channel Message)
      → try_send slots c0 event ≡ some ch
      → ch.queue ≡ c0.queue ++ event ∷ []
  unfolding try_send
  try_send-queue c0 event ch e =
      elim (Bool-cases (c0.closed || leb (slots sse_stream_capacity) (length c0.queue))) [
        | inl full ↦ absurd (let h = rw (full, try_send) at e in cc)
        | inr room ↦ ap (λ x. x.queue) (sym (some_of _ ch (rw (room, try_send) at e)))
      ]

  -- What a live channel holds after it took the next event.
  forward-gapless :
      (state : StreamState Message) (sent : List Message) (message : Message)
      (tx : Option (Channel Message)) (ch : Channel Message)
      → state.tx ≡ tx
      → Represents state sent
      → forward slots tx (state.last_id + 1, message) ≡ some ch
      → (taken : ℕ) × (taken ≤ length (sent ++ message ∷ []))
        × (ch.queue ≡ drop taken (numbered 0 (sent ++ message ∷ [])))
  unfolding try_send
  forward-gapless state sent message none ch live r e = absurd (cc)
  forward-gapless state sent message (some c0) ch live r e =
      let (taken, within, holds) = r.gapless c0 live in
      let event : ℕ × Message = (state.last_id + 1, message) in
      let queue : ch.queue ≡ c0.queue ++ event ∷ [] = try_send-queue c0 event ch e in
      (
        taken,
        omega (arith, within, length-append sent (message ∷ [])),
        queue
            ∙ ap (λ xs. xs ++ event ∷ []) holds
            ∙ sym (
                drop-append taken (numbered 0 sent) (event ∷ [])
                  (omega (arith, within, length-numbered 0 sent)))
            ∙ ap (drop taken) (
                ap (λ n. numbered 0 sent ++ (n, message) ∷ []) (omega (arith, r.counted))
                ∙ sym (numbered-append 0 sent message)),
      )

  -- If the state of a stream represents what was sent so far, a further message becomes the next
  -- event: it is kept for the replay, with the events before it up to the capacity, and a live
  -- channel that takes it has no gap.
  pub send_to_stream-Represents :
      (state : StreamState Message) (sent : List Message) (message : Message)
      → Represents state sent
      → Represents (send_to_stream slots message state) (sent ++ message ∷ [])
  unfolding send_to_stream
  send_to_stream-Represents state sent message r = record {
    counted = ap (λ n. n + 1) r.counted ∙ sym (length-append sent (message ∷ []));
    recent =
        ap (λ xs. record_event xs (state.last_id + 1, message)) r.recent
        ∙ ap
            (λ n.
              record_event (drop (length sent - sse_replay_capacity) (numbered 0 sent))
                (n + 1, message))
            r.counted
        ∙ record_event-recent sent message;
    gapless = λ ch e. forward-gapless state sent message state.tx ch refl r e;
  }

  -- A client that reconnects with the id of the last event of the stream that it saw gets every
  -- event that it missed, in order, and the stream still represents what was sent. The conditions
  -- are that the stream represented it before, that the client missed no more than the replay
  -- holds, and that a channel has room for the replay.
  pub attach_stream-resumes :
      (state : StreamState Message) (sent : List Message) (last : ℕ)
      → sse_replay_capacity ≤ slots sse_stream_capacity
      → Represents state sent
      → last ≤ length sent
      → length sent ≤ last + sse_replay_capacity
      → ((attach_stream slots (some last) state).tx
          ≡ some (record { queue = drop last (numbered 0 sent); closed = false }))
        × Represents (attach_stream slots (some last) state) sent
  unfolding attach_stream
  attach_stream-resumes state sent last room r seen near =
      let k = length sent - sse_replay_capacity in
      let empty : Channel Message = record { queue = []; closed = false } in
      let size : length state.replay ≤ sse_replay_capacity =
        omega (arith, ap length r.recent, length-replay k sent) in
      let opens : replay_events slots last state.replay empty
          ≡ record { queue = drop last (numbered 0 sent); closed = false } =
        replay_events-filter last state.replay empty refl (omega (arith, size, room))
        ∙ ap (λ xs. record empty { queue = xs })
            (ap (filter (λ event. ltb last event.0)) r.recent
              ∙ drop_recent last k sent
              ∙ ap (λ n. drop n (numbered 0 sent)) (omega (arith, near))) in
      (
        ap some opens,
        record {
          counted = r.counted;
          recent = r.recent;
          gapless = λ ch e.
              (last, seen, ap (λ x. x.queue) (sym (some_of _ ch e)) ∙ ap (λ x. x.queue) opens);
        },
      )

-- A message goes to exactly one place: a response whose request waits for it goes to that
-- request, which then waits no longer, and the stream is left alone; any other message becomes
-- the next event of the stream, and no request gets it. The condition is that the stream
-- represents what was sent before.
deliver-Represents :
    {Message : Type 0} (slots : ℕ → ℕ) (response_id : Option RequestId) (message : Message)
    (routes : SessionRoutes Message) (sent : List Message)
    → Represents routes.stream sent
    → ((id : RequestId) × (response_id ≡ some id)
        × (contains_key id routes.pending ≡ true)
        × (get id (deliver slots response_id message routes).answers ≡ some message)
        × (contains_key id (deliver slots response_id message routes).pending ≡ false)
        × ((deliver slots response_id message routes).stream ≡ routes.stream))
      ⊎ (Represents (deliver slots response_id message routes).stream (sent ++ message ∷ [])
          × ((deliver slots response_id message routes).answers ≡ routes.answers)
          × ((deliver slots response_id message routes).pending ≡ routes.pending))
unfolding deliver
deliver-Represents slots none message routes sent r =
    inr (send_to_stream-Represents slots routes.stream sent message r, refl, refl)
deliver-Represents slots (some id) message routes sent r =
    elim (Bool-cases (contains_key id routes.pending)) [
      | inr nobody ↦
          rw nobody (inr (send_to_stream-Represents slots routes.stream sent message r, refl, refl))
      | inl waits ↦ rw waits (
          inl (
            id,
            refl,
            waits,
            get-insert id id message routes.answers ∙ rw (==_self id) refl,
            ap is_some (get-remove id id routes.pending) ∙ rw (==_self id) refl,
            refl,
          ))
    ]
