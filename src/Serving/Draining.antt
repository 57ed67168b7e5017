-- ===== src/Serving/Draining.antt =====
-- After the client has closed its side, the connection finishes its work and stops.
use tmcp.Base.{
  ℕ, zero, suc, ◌+◌, ◌*◌, ◌<◌, ◌≡◌, refl, sym, ◌∙◌, inl, inr, true, false, Option, none, some, List,
  [], ◌∷◌, ◌++◌, arith, nat_beq, Option-cases, length, is_empty, length-append, nat_eq, text_eq,
  Result, ok, err, Result-cases, if-cases,
}
use tmcp.Errors.{Error}
use tmcp.Requests.{RequestId, request_id_eq}
use tmcp.JsonRpc.{JsonrpcMessage, JsonrpcResponse, response}
use tmcp.Serving.{ServerCapabilities, Serde, ServerNotification}
use tmcp.Serving.Dispatch.{ServerHandler}
use tmcp.Serving.Loop.{
  Serving, Answers, take_out, end_round, stop, write, connect, connect_or_panic, complete_of,
  count_down_of, queue_of, gate_notification, transmit_item, send_notice, gated, room,
}

pub length-take_out {ℓ} :
    {A : Type ℓ} (n : ℕ) (xs : List A) (x : A) (rest : List A)
    → take_out n xs ≡ some (x, rest)
    → length xs ≡ suc (length rest)
unfolding take_out
length-take_out n [] x rest e = absurd (cc)
length-take_out zero (y ∷ xs) x rest e = ground arith
length-take_out (suc n) (y ∷ xs) x rest e = elim (Option-cases (take_out n xs)) [
  | inl gone ↦ absurd (let h = rw (gone, take_out) at e in cc)
  | inr ((z, later), found) ↦
      let h = rw (found, take_out) at e in ground (arith, length-take_out n xs z later found)
]

is_empty-length {ℓ} : {A : Type ℓ} (xs : List A) → is_empty xs ≡ nat_beq (length xs) 0
is_empty-length [] = refl
is_empty-length (x ∷ xs) = ground arith

module _ {V : Type 0} where
  -- The steps that the work in hand takes at most.
  abbrev pub work : Serving V → ℕ
  work s =
      4 * length s.running
      + 3 * length s.finished
      + 2 * length s.sending
      + length s.outbound
      + length s.notices

  abbrev pub IsCounted : Serving V → Type 0
  IsCounted s = s.in_flight_requests ≡ length s.running + length s.finished

  -- The counter is right, and a connection that goes on without its client has work in hand.
  abbrev pub IsLive : Serving V → Type 0
  IsLive s = IsCounted s × (s.client_disconnected ≡ true → s.stopped ≡ false → 0 < work s)

  pub stop-IsLive : (s : Serving V) → IsCounted s → IsLive (stop s)
  stop-IsLive s c = (c, λ d on. absurd (cc))

  pub end_round-IsLive : (s : Serving V) → IsCounted s → IsLive (end_round s)
  end_round-IsLive s c =
      if-cases IsLive _ _ s (λ h. stop-IsLive s c)
        (λ h. (c, λ d on. ground (arith, is_empty-length s.outbound, is_empty-length s.notices)))

  pub write-IsLive :
      (answer : Result Error (Unit {0})) (m : JsonrpcMessage V) (s : Serving V)
      → IsCounted s
      → IsLive (write answer m s)
  write-IsLive (ok u) m s c = end_round-IsLive (record s { wire = s.wire ++ m ∷ [] }) c
  write-IsLive (err e) m s c = stop-IsLive s c

  pub connect_or_panic-IsLive :
      (given : Answers V) (o : Option (JsonrpcResponse V × Option (ServerCapabilities V)))
      (s : Serving V)
      → IsCounted s
      → IsLive (connect_or_panic given o s)
  connect_or_panic-IsLive given none s c = (c, λ d on. absurd (cc))
  connect_or_panic-IsLive given (some (r, none)) s c = write-IsLive given.sink (response r) s c
  connect_or_panic-IsLive given (some (r, some caps)) s c = elim (Result-cases given.on_connect) [
    | inl (u, done) ↦
        rw (done, connect)
          (write-IsLive given.sink (response r)
            (record s { capabilities = caps; initialized = true }) c)
    | inr (e, failed) ↦ rw (failed, connect) (c, λ d on. absurd (cc))
  ]

  pub transmit_item-IsLive :
      (answer : Result Error (Unit {0})) (queue : List (Option (JsonrpcMessage V))) (s : Serving V)
      → IsLive s
      → IsLive (transmit_item answer queue s)
  unfolding transmit_item
  transmit_item-IsLive answer [] s l = l
  transmit_item-IsLive answer (none ∷ rest) s l =
      end_round-IsLive (record s { outbound = rest }) l.0
  transmit_item-IsLive answer (some m ∷ rest) s l =
      write-IsLive answer m (record s { outbound = rest }) l.0

  pub count_down_of-IsLive :
      (position : ℕ) (s : Serving V)
      → IsLive s
      → IsLive (count_down_of (take_out position s.finished) s)
  unfolding count_down_of
  count_down_of-IsLive position s l = elim (Option-cases (take_out position s.finished)) [
    | inl gone ↦ rw gone l
    | inr ((payload, rest), found) ↦
        let less = length-take_out position s.finished payload rest found in
        rw found
          (omega (arith, l.0, less), λ d on. omega (arith, length-append s.sending (payload ∷ [])))
  ]

  pub queue_of-IsLive :
      (position : ℕ) (s : Serving V) → IsLive s → IsLive (queue_of (take_out position s.sending) s)
  unfolding queue_of
  queue_of-IsLive position s l = elim (Option-cases (take_out position s.sending)) [
    | inl gone ↦ rw gone l
    | inr ((payload, rest), found) ↦ rw found (
        if-cases IsLive s.stopped (record s { sending = rest }) _
          (λ over. (l.0, λ d on. absurd (let h = sym over ∙ on in cc)))
          (λ on.
            if-cases IsLive (room s.outbound)
              (record s { sending = rest; outbound = s.outbound ++ payload ∷ [] }) s
              (λ free. (l.0, λ d on'. omega (arith, length-append s.outbound (payload ∷ []))))
              (λ full. l)))
  ]

  module _ {R : Type 0} (serde : Serde V R) where
    pub send_notice-IsLive :
        (answer : Result Error (Unit {0})) (queue : List RequestId) (s : Serving V)
        → IsLive s
        → IsLive (send_notice serde answer queue s)
    unfolding send_notice
    send_notice-IsLive answer [] s l = l
    send_notice-IsLive answer (id ∷ rest) s l =
        write-IsLive answer _ (record s { notices = rest }) l.0

    pub gate_notification-IsLive :
        (queue : List (ServerNotification V)) (s : Serving V)
        → IsLive s
        → IsLive (gate_notification serde queue s)
    unfolding gate_notification
    gate_notification-IsLive [] s l = l
    gate_notification-IsLive (n ∷ rest) s l =
        end_round-IsLive (gated serde n (record s { notifications = rest }))
          (if-cases IsCounted _ _ (record s { notifications = rest }) (λ h. l.0) (λ h. l.0))

    pub complete_of-IsLive :
        (handler : ServerHandler V R) (position : ℕ) (s : Serving V)
        → IsLive s
        → IsLive (complete_of serde handler (take_out position s.running) s)
    unfolding complete_of
    complete_of-IsLive handler position s l = elim (Option-cases (take_out position s.running)) [
      | inl gone ↦ rw gone l
      | inr ((task, rest), found) ↦
          let less = length-take_out position s.running task rest found in
          let more = λ (p : Option (JsonrpcMessage V)). length-append s.finished (p ∷ []) in
          rw found (omega (arith, l.0, less, more _), λ d on. omega (arith, more _))
    ]
