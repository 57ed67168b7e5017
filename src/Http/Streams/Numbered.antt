-- ===== src/Http/Streams/Numbered.antt =====
-- The messages of a stream with their event ids.
use tmcp.Base.{
  ℕ, zero, suc, ◌+◌, ◌-◌, ◌≤◌, ◌≡◌, refl, sym, ap, ◌∙◌, subst, inl, inr, List, [], ◌∷◌, ◌++◌, arith,
  ltb, ltb→lt, ltb-false→le, Bool-cases, length, drop, filter, nat_eq, text_eq,
}
use tmcp.Requests.{request_id_eq}

module _ {Message : Type 0} where
  -- The messages with their event ids, the first of which comes after `n`.
  unfoldable pub numbered : ℕ → List Message → List (ℕ × Message)
  numbered n [] = []
  numbered n (message ∷ rest) = (suc n, message) ∷ numbered (suc n) rest

  pub length-numbered : (n : ℕ) (sent : List Message) → length (numbered n sent) ≡ length sent
  unfolding numbered
  length-numbered n [] = refl
  length-numbered n (message ∷ rest) = ap suc (length-numbered (suc n) rest)

  pub numbered-append :
      (n : ℕ) (sent : List Message) (message : Message)
      → numbered n (sent ++ message ∷ []) ≡ numbered n sent ++ (n + length sent + 1, message) ∷ []
  unfolding numbered
  numbered-append n [] message = ap (λ k. (k, message) ∷ []) (omega arith)
  numbered-append n (x ∷ rest) message = ap (◌∷◌ (suc n, x)) (
      numbered-append (suc n) rest message
      ∙ ap (λ k. numbered (suc n) rest ++ (k, message) ∷ []) (omega arith))

  pub drop-append :
      (k : ℕ) (xs ys : List (ℕ × Message)) → k ≤ length xs → drop k (xs ++ ys) ≡ drop k xs ++ ys
  drop-append zero xs ys h = refl
  drop-append (suc k) [] ys h = absurd (omega (arith, h))
  drop-append (suc k) (x ∷ xs) ys h = drop-append k xs ys (omega (arith, h))

  pub drop_nil : (j : ℕ) → drop {A = ℕ × Message} j [] ≡ []
  drop_nil zero = refl
  drop_nil (suc j) = refl

  pub drop-drop : (j k : ℕ) (xs : List (ℕ × Message)) → drop j (drop k xs) ≡ drop (k + j) xs
  drop-drop j zero xs = ap (λ n. drop n xs) (omega arith)
  drop-drop j (suc k) [] = drop_nil j ∙ sym (drop_nil (suc k + j))
  drop-drop j (suc k) (x ∷ xs) =
      drop-drop j k xs ∙ subst (λ n. drop (k + j) xs ≡ drop n (x ∷ xs)) (shift k j) refl
    where
      shift : (k j : ℕ) → suc (k + j) ≡ suc k + j
      shift k j = omega arith

  -- The events that have an id above `last`.
  pub drop-numbered :
      (last n : ℕ) (sent : List Message)
      → filter (λ event. ltb last event.0) (numbered n sent) ≡ drop (last - n) (numbered n sent)
  unfolding numbered
  drop-numbered last n [] = sym (drop_nil (last - n))
  drop-numbered last n (x ∷ rest) = elim (Bool-cases (ltb last (suc n))) [
    | inl newer ↦
        let gone : last - suc n ≡ 0 = omega (arith, ltb→lt last (suc n) newer) in
        let gone' : last - n ≡ 0 = omega (arith, ltb→lt last (suc n) newer) in
        rw (newer, gone')
          (ap (◌∷◌ (suc n, x))
            (drop-numbered last (suc n) rest ∙ ap (λ k. drop k (numbered (suc n) rest)) gone))
    | inr older ↦
        let one_more : last - n ≡ suc (last - suc n) =
          omega (arith, ltb-false→le last (suc n) older) in
        rw (older, one_more) (drop-numbered last (suc n) rest)
  ]

  pub numbered-drop :
      (k n : ℕ) (sent : List Message) → numbered (n + k) (drop k sent) ≡ drop k (numbered n sent)
  unfolding numbered
  numbered-drop zero n sent = ap (λ j. numbered j sent) (omega arith)
  numbered-drop (suc k) n [] = refl
  numbered-drop (suc k) n (x ∷ rest) =
      ap (λ j. numbered j (drop k rest)) (omega arith) ∙ numbered-drop k (suc n) rest

  -- The same for the part that the replay keeps.
  pub drop_recent :
      (last k : ℕ) (sent : List Message)
      → filter (λ event. ltb last event.0) (drop k (numbered 0 sent))
        ≡ drop (k + (last - k)) (numbered 0 sent)
  drop_recent last k sent =
      ap (λ xs. filter (λ event. ltb last event.0) xs) (sym (numbered-drop k 0 sent))
      ∙ drop-numbered last (0 + k) (drop k sent)
      ∙ ap (λ xs. drop (last - (0 + k)) xs) (numbered-drop k 0 sent)
      ∙ drop-drop (last - (0 + k)) k (numbered 0 sent)
      ∙ ap (λ j. drop j (numbered 0 sent)) (omega arith)
