-- ===== src/Serving/Counts.antt =====
-- How many answers to one request id the state of a connection holds: sent, queued or to come.
use tmcp.Base.{
  ℕ, zero, suc, ◌+◌, ◌≡◌, refl, ◌∙◌, inl, inr, Bool, true, false, ◌&&◌, ◌||◌, Option, none, some,
  List, [], ◌∷◌, ◌++◌, arith, nat_beq, if◌then◌else◌, Bool-cases, Option-cases, is_empty, ◌==◌,
  nat_eq, text_eq, Result, ok, err,
}
use tmcp.Requests.{RequestId, request_id_eq}
use tmcp.Errors.{Error}
use tmcp.JsonRpc.{Request, JsonrpcMessage, request, notification, response}
use tmcp.JsonRpc.Errors.{response_id}
use tmcp.Serving.Loop.{Event, Answers, incoming, Serving, Task, take_out, end_round, write}

module _ {ℓ} {A : Type ℓ} (weight : A → ℕ) where
  abbrev pub total : List A → ℕ
  total [] = 0
  total (x ∷ xs) = weight x + total xs

  pub total-append : (xs ys : List A) → total (xs ++ ys) ≡ total xs + total ys
  total-append [] ys = omega arith
  total-append (x ∷ xs) ys = omega (arith, total-append xs ys)

  pub total-take_out :
      (n : ℕ) (xs : List A) (x : A) (rest : List A)
      → take_out n xs ≡ some (x, rest)
      → total xs ≡ weight x + total rest
  unfolding take_out
  total-take_out n [] x rest e = absurd (cc)
  total-take_out zero (y ∷ xs) x rest e = ground arith
  total-take_out (suc n) (y ∷ xs) x rest e = elim (Option-cases (take_out n xs)) [
    | inl gone ↦ absurd (let h = rw (gone, take_out) at e in cc)
    | inr ((z, later), found) ↦
        let h = rw (found, take_out) at e in ground (arith, total-take_out n xs z later found)
  ]

abbrev pub one_if : Bool → ℕ
one_if true = 1
one_if false = 0

module _ (id : RequestId) where
  abbrev pub is_for : Option RequestId → Bool
  is_for none = false
  is_for (some j) = j == id

  module _ {V : Type 0} where
    abbrev pub names : JsonrpcMessage V → ℕ
    names (request j body) = 0
    names (notification n) = 0
    names (response r) = one_if (is_for (response_id r))

    abbrev pub payload_names : Option (JsonrpcMessage V) → ℕ
    payload_names none = 0
    payload_names (some m) = names m

    abbrev pub asks : Task V → ℕ
    asks t = one_if (t.id == id)

    unfoldable pub answers : Serving V → ℕ
    answers s =
        total names s.wire
        + total payload_names s.outbound
        + total payload_names s.sending
        + total payload_names s.finished
        + total asks s.running

    pub answers-end_round : (s : Serving V) → answers (end_round s) ≡ answers s
    unfolding answers
    answers-end_round s =
        let over =
          s.client_disconnected
          && nat_beq s.in_flight_requests 0
          && is_empty s.outbound
          && is_empty s.notices in
        elim (Bool-cases over) [ inl ended ↦ rw ended refl | inr on ↦ rw on refl ]

    pub answers-write :
        (u : Unit {0}) (m : JsonrpcMessage V) (s : Serving V)
        → answers (write (ok u) m s) ≡ answers s + names m
    answers-write u m s =
        answers-end_round (record s { wire = s.wire ++ m ∷ [] })
        ∙ unfold answers in omega (arith, total-append names s.wire (m ∷ []))

  module _ {V R : Type 0} where
    -- Whether the event reads a request with the id.
    abbrev pub asked : Serving V → Event V R → ℕ
    asked s (incoming (some (ok (request j body))) given) =
        if s.stopped || s.client_disconnected then 0 else one_if (j == id)
    asked s e = 0

  module _ {V : Type 0} (R : Type 0) where
    pub asked-open :
        (given : Answers V) (j : RequestId) (body : Request V) (s : Serving V)
        → s.stopped ≡ false
        → s.client_disconnected ≡ false
        → asked {R = R} s (incoming (some (ok (request j body))) given) ≡ one_if (j == id)
    asked-open given j body s on open' = simp (on, open')

    pub asked-shut :
        (given : Answers V) (item : Option (Result Error (JsonrpcMessage V))) (s : Serving V)
        → (s.stopped || s.client_disconnected) ≡ true
        → asked {R = R} s (incoming item given) ≡ 0
    asked-shut given none s h = refl
    asked-shut given (some (err e)) s h = refl
    asked-shut given (some (ok (request j body))) s h = rw h refl
    asked-shut given (some (ok (response r))) s h = refl
    asked-shut given (some (ok (notification n))) s h = refl
