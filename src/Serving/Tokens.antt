-- ===== src/Serving/Tokens.antt =====
-- The tokens of the requests in flight: each is new, and belongs to one request id.
use tmcp.Base.{
  ℕ, ◌<◌, ◌≡◌, refl, subst, inl, inr, true, false, some, arith, Bool-cases, Option-cases, ◌==◌,
  nat_eq, ==_iff, mem, text_eq,
}
use tmcp.Requests.{RequestId, request_id_eq}
use tmcp.Serving.{InFlight, no_requests, begin, finish, cancel, is_cancelled}
use tmcp.Base.Map.{get, get-insert, get-remove}

pub record IsSound (f : InFlight) : Type 0 where
  pub issued : (i : RequestId) (t : ℕ) → get i f.requests ≡ some t → t < f.next_token
  pub marked : (t : ℕ) → mem t f.cancelled_tokens ≡ true → t < f.next_token
  pub distinct :
      (i j : RequestId) (t : ℕ) → get i f.requests ≡ some t → get j f.requests ≡ some t → i ≡ j

-- The request was not cancelled.
abbrev pub IsUncancelled : RequestId → InFlight → Type 0
IsUncancelled id f = (t : ℕ) → get id f.requests ≡ some t → mem t f.cancelled_tokens ≡ false

abbrev pub IsCancelled : RequestId → InFlight → Type 0
IsCancelled id f = is_cancelled (get id f.requests) f.cancelled_tokens ≡ true

pub is_cancelled-IsUncancelled :
    (id : RequestId) (f : InFlight)
    → IsUncancelled id f
    → is_cancelled (get id f.requests) f.cancelled_tokens ≡ false
is_cancelled-IsUncancelled id f u = elim (Option-cases (get id f.requests)) [
  | inl unknown ↦ rw (unknown, is_cancelled) refl
  | inr (token, known) ↦ rw (known, is_cancelled) (u token known)
]

pub no_requests-IsSound : IsSound no_requests
no_requests-IsSound = record {
  issued = λ i t h. absurd (unfold get in cc);
  marked = λ t h. absurd (unfold mem in cc);
  distinct = λ i j t h k. absurd (unfold get in cc);
}

module _ (id : RequestId) (f : InFlight) (w : IsSound f) where
  pub begin-IsSound : IsSound (begin id f)
  begin-IsSound = record {
    issued =
        λ i t h. let h' = get-insert id i f.next_token f.requests in ground (arith, w.issued i t);
    marked = λ t h. omega (arith, w.marked t h);
    distinct = λ i j t h k.
        let h' = get-insert id i f.next_token f.requests in
        let k' = get-insert id j f.next_token f.requests in
        ground (arith, w.issued i t, w.issued j t, w.distinct i j t, ==_iff id i, ==_iff id j);
  }

  pub finish-IsSound : IsSound (finish id f)
  finish-IsSound = record {
    issued = λ i t h. let h' = get-remove id i f.requests in ground (arith, w.issued i t);
    marked = w.marked;
    distinct = λ i j t h k.
        let h' = get-remove id i f.requests in
        let k' = get-remove id j f.requests in ground (arith, w.distinct i j t);
  }

  pub cancel-IsSound : IsSound (cancel id f)
  cancel-IsSound = elim (Option-cases (get id f.requests)) [
    | inl unknown ↦ rw (unknown, cancel) w
    | inr (token, known) ↦
        rw (known, cancel)
          (record {
            issued = w.issued;
            marked = λ t h. unfold mem in ground (arith, w.marked t, w.issued id token);
            distinct = w.distinct;
          })
  ]

  module _ (j : RequestId) where
    pub begin-IsUncancelled : IsUncancelled j f → IsUncancelled j (begin id f)
    begin-IsUncancelled u t h =
        let h' = get-insert id j f.next_token f.requests in
        elim (Bool-cases (mem t f.cancelled_tokens)) [
          | inr free ↦ free
          | inl taken ↦ ground (arith, u t, w.marked t taken)
        ]

    pub finish-IsUncancelled : IsUncancelled j f → IsUncancelled j (finish id f)
    finish-IsUncancelled u t h = let h' = get-remove id j f.requests in ground (arith, u t)

    pub cancel-IsUncancelled : (id == j) ≡ false → IsUncancelled j f → IsUncancelled j (cancel id f)
    cancel-IsUncancelled other u = elim (Option-cases (get id f.requests)) [
      | inl unknown ↦ rw (unknown, cancel) u
      | inr (token, known) ↦
          rw (known, cancel)
            (λ t h. elim (Bool-cases (token == t)) [
              | inr differs ↦ unfold mem in rw differs (u t h)
              | inl same ↦ absurd (
                  let there =
                    subst (λ x. get id f.requests ≡ some x) ((==_iff token t).0 same) known in
                  let bad = (==_iff id j).1 (w.distinct id j t there h) in cc)
            ])
    ]
