-- ===== src/Serving/Gating.antt =====
-- Notifications reach the client only with the capability that they belong to.
use tmcp.Base.{
  ℕ, zero, suc, ◌≡◌, subst, inl, inr, Bool, true, false, Option, none, some, List, [], ◌∷◌, ◌++◌,
  Option-cases, All, All-append, nat_eq, text_eq, Result, ok, err, if-cases,
}
use tmcp.Errors.{Error}
use tmcp.Requests.{request_id_eq}
use tmcp.JsonRpc.{JsonrpcMessage, request, notification, response}
use tmcp.Serving.{
  ServerCapabilities, default_capabilities, Serde, ServerNotification, tool_list_changed,
  resource_list_changed, prompt_list_changed, elicitation_complete, task_status, resource_updated,
  logging_message, progress, cancelled, notification_permitted, create_jsonrpc_notification,
}
use tmcp.Serving.Loop.{Serving, take_out, end_round, stop, write}

All-impl {ℓ} :
    {A : Type ℓ} (P Q : A → Type 0) → ((a : A) → P a → Q a) → (xs : List A) → All P xs → All Q xs
All-impl P Q f [] h = tt
All-impl P Q f (x ∷ xs) h = (f x h.0, All-impl P Q f xs h.1)

-- A list without one of its elements.
pub All-take_out {ℓ κ} :
    {A : Type ℓ} (P : A → Type κ) (n : ℕ) (xs : List A) (x : A) (rest : List A)
    → take_out n xs ≡ some (x, rest)
    → All P xs
    → P x × All P rest
unfolding take_out
All-take_out P n [] x rest e h = absurd (cc)
All-take_out {A} P zero (y ∷ xs) x rest e h =
    let same : ◌≡◌ {A = A × List A} (y, xs) (x, rest) = cc in
    subst (λ (q : A × List A). P q.0 × All P q.1) same h
All-take_out {A} P (suc n) (y ∷ xs) x rest e h = elim (Option-cases (take_out n xs)) [
  | inl gone ↦ absurd (let k = rw (gone, take_out) at e in cc)
  | inr ((z, later), found) ↦
      let k = rw (found, take_out) at e in
      let same : ◌≡◌ {A = A × List A} (z, y ∷ later) (x, rest) = cc in
      let (head, tail) = All-take_out P n xs z later found h.1 in
      subst (λ (q : A × List A). P q.0 × All P q.1) same (head, (h.0, tail))
]

-- What is permitted without any capability is permitted with every one.
notification_permitted-default :
    {V : Type 0} (caps : ServerCapabilities V) (n : ServerNotification V)
    → notification_permitted default_capabilities n ≡ true
    → notification_permitted caps n ≡ true
unfolding notification_permitted
notification_permitted-default caps (tool_list_changed fields) h = absurd (cc)
notification_permitted-default caps (resource_list_changed fields) h = absurd (cc)
notification_permitted-default caps (prompt_list_changed fields) h = absurd (cc)
notification_permitted-default caps (elicitation_complete fields) h = h
notification_permitted-default caps (task_status fields) h = absurd (cc)
notification_permitted-default caps (resource_updated fields) h = absurd (cc)
notification_permitted-default caps (logging_message fields) h = absurd (cc)
notification_permitted-default caps (progress fields) h = h
notification_permitted-default caps (cancelled request_id reason) h = h

module _ {V R : Type 0} (serde : Serde V R) where
  -- A response, or a notification that the capabilities permit.
  abbrev pub IsPermitted : ServerCapabilities V → JsonrpcMessage V → Type 0
  IsPermitted caps (request j body) = ⊥
  IsPermitted caps (response r) = Unit
  IsPermitted caps (notification j) =
      (n : ServerNotification V) × (j ≡ create_jsonrpc_notification serde n)
      × (notification_permitted caps n ≡ true)

  abbrev pub IsPermittedPayload : ServerCapabilities V → Option (JsonrpcMessage V) → Type 0
  IsPermittedPayload caps none = Unit
  IsPermittedPayload caps (some m) = IsPermitted caps m

  -- The parts of a connection that the gate is about.
  pub record Gate (caps : ServerCapabilities V) (initialized stopped : Bool)
      (wire : List (JsonrpcMessage V))
      (outbound sending finished : List (Option (JsonrpcMessage V))) : Type 0 where
    pub on_wire : All (IsPermitted caps) wire
    pub in_outbound : All (IsPermittedPayload caps) outbound
    pub in_sending : All (IsPermittedPayload caps) sending
    pub in_finished : All (IsPermittedPayload caps) finished
    pub fresh : initialized ≡ false → stopped ≡ false → caps ≡ default_capabilities

  abbrev pub IsGated : Serving V → Type 0
  IsGated s = Gate s.capabilities s.initialized s.stopped s.wire s.outbound s.sending s.finished

  IsPermitted-default :
      (caps : ServerCapabilities V) (m : JsonrpcMessage V)
      → IsPermitted default_capabilities m
      → IsPermitted caps m
  IsPermitted-default caps (request j body) h = h
  IsPermitted-default caps (response r) h = tt
  IsPermitted-default caps (notification j) h =
      (h.0, h.1, notification_permitted-default caps h.0 h.2)

  IsPermittedPayload-default :
      (caps : ServerCapabilities V) (p : Option (JsonrpcMessage V))
      → IsPermittedPayload default_capabilities p
      → IsPermittedPayload caps p
  IsPermittedPayload-default caps none h = tt
  IsPermittedPayload-default caps (some m) h = IsPermitted-default caps m h

  -- The capabilities of a connection that was just initialized.
  pub recap :
      (caps : ServerCapabilities V) (s : Serving V)
      → IsGated s
      → s.initialized ≡ false
      → s.stopped ≡ false
      → IsGated (record s { capabilities = caps; initialized = true })
  recap caps s g new on =
      let e = g.fresh new on in
      record {
        on_wire =
            All-impl _ _ (IsPermitted-default caps) s.wire
              (subst (λ c. All (IsPermitted c) s.wire) e g.on_wire);
        in_outbound =
            All-impl _ _ (IsPermittedPayload-default caps) s.outbound
              (subst (λ c. All (IsPermittedPayload c) s.outbound) e g.in_outbound);
        in_sending =
            All-impl _ _ (IsPermittedPayload-default caps) s.sending
              (subst (λ c. All (IsPermittedPayload c) s.sending) e g.in_sending);
        in_finished =
            All-impl _ _ (IsPermittedPayload-default caps) s.finished
              (subst (λ c. All (IsPermittedPayload c) s.finished) e g.in_finished);
        fresh = λ h. absurd (cc);
      }

  pub stop-IsGated : (s : Serving V) → IsGated s → IsGated (stop s)
  stop-IsGated s g = record {
    on_wire = g.on_wire;
    in_outbound = g.in_outbound;
    in_sending = g.in_sending;
    in_finished = g.in_finished;
    fresh = λ h k. absurd (cc);
  }

  pub end_round-IsGated : (s : Serving V) → IsGated s → IsGated (end_round s)
  end_round-IsGated s g = if-cases IsGated _ _ s (λ h. stop-IsGated s g) (λ h. g)

  pub write-IsGated :
      (answer : Result Error (Unit {0})) (m : JsonrpcMessage V) (s : Serving V)
      → IsPermitted s.capabilities m
      → IsGated s
      → IsGated (write answer m s)
  write-IsGated (err e) m s p g = stop-IsGated s g
  write-IsGated (ok u) m s p g =
      end_round-IsGated (record s { wire = s.wire ++ m ∷ [] })
        (record {
          on_wire = All-append (IsPermitted s.capabilities) s.wire (m ∷ []) g.on_wire (p, tt);
          in_outbound = g.in_outbound;
          in_sending = g.in_sending;
          in_finished = g.in_finished;
          fresh = g.fresh;
        })
