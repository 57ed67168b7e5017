-- ===== src/Toolset/Registry/Descendants.antt =====
-- `collect_descendants` ends on a registry whose names grow from parent to child, and collects
-- exactly the groups below the root.
use tmcp.Base.{
  ℕ, zero, suc, ◌+◌, ◌≤◌, ◌<◌, ◌≡◌, refl, ◌∙◌, subst, ◌≢◌, ◌↔◌, ◌⊎◌, inl, inr, Bool, true, ◌||◌,
  Option, none, some, List, [], ◌∷◌, ◌++◌, arith, Bool-cases, Option-cases, length, All, ◌==◌,
  nat_eq, mem, mem-append, Text, text_beq_iff, text_eq, or-true,
}
use tmcp.Toolset.Registry.{
  GroupState, Groups, is_child_of, children, collect_each, collect_descendants, longest,
  collect_descendants_including_self,
}

-- A parent's name is shorter than its child's.
abbrev pub Grows : Text × GroupState → Type 0
Grows (name, s) = (p : Text) → s.parent ≡ some p → length p < length name

collect_each-ne-none :
    (below : Text → Option (List Text)) (names : List Text)
    → All (λ n. below n ≢ none) names
    → collect_each below names ≢ none
unfolding collect_each
collect_each-ne-none below [] h = cc
collect_each-ne-none below (n ∷ names) h = elim (Option-cases (below n)) [
  | inl e ↦ absurd (h.0 e)
  | inr (inner, e) ↦ elim (Option-cases (collect_each below names)) [
    | inl e' ↦ absurd (collect_each-ne-none below names h.1 e')
    | inr (rest, e') ↦ rw (e, e', collect_each) (cc)
  ]
]

pub is_child_of_iff :
    (root : Text) (s : GroupState) → (is_child_of root s ≡ true) ↔ (s.parent ≡ some root)
is_child_of_iff root s = elim (Option-cases s.parent) [
  | inl e ↦ rw e (ground arith)
  | inr (p, e) ↦ rw e (ground (arith, text_beq_iff p root))
]

-- A child in a part of the registry is longer than the root, and not longer than the longest.
children-Grows :
    (root : Text) (bound : ℕ) (groups : Groups)
    → All Grows groups
    → longest groups ≤ bound
    → All (λ n. (length root < length n) × (length n ≤ bound)) (children root groups)
unfolding children longest
children-Grows root bound [] h b = tt
children-Grows root bound ((name, s) ∷ groups) h b = elim (Bool-cases (is_child_of root s)) [
  | inr other ↦ rw other (children-Grows root bound groups h.1 (ground arith))
  | inl child ↦ rw child (
    (h.0 root ((is_child_of_iff root s).0 child), ground arith),
    children-Grows root bound groups h.1 (ground arith),
  )
]

All-map :
    {A : Type 0} (P Q : A → Type 0) (xs : List A) → ((x : A) → P x → Q x) → All P xs → All Q xs
All-map P Q [] f h = tt
All-map P Q (x ∷ xs) f h = (f x h.0, All-map P Q xs f h.1)

collect_descendants-ne-none :
    (depth : ℕ) (groups : Groups) (root : Text)
    → All Grows groups
    → longest groups < suc depth + length root
    → collect_descendants (suc depth) groups root ≢ none
unfolding collect_descendants
collect_descendants-ne-none zero groups root h b =
    collect_each-ne-none (collect_descendants zero groups) (children root groups) (
      All-map _ _ (children root groups) (λ n k. absurd (omega arith))
        (children-Grows root (longest groups) groups h (omega arith)))
collect_descendants-ne-none (suc depth) groups root h b =
    collect_each-ne-none (collect_descendants (suc depth) groups) (children root groups) (
      All-map _ _ (children root groups)
        (λ n k. collect_descendants-ne-none depth groups n h (omega arith))
        (children-Grows root (longest groups) groups h (omega arith)))

-- Below a root: its children, and what is below them.
pub data IsBelow (groups : Groups) : Text → Text → Type 0 where
  child : {root name : Text} → mem name (children root groups) ≡ true → IsBelow groups root name
  deeper :
      {root mid name : Text}
      → mem mid (children root groups) ≡ true
      → IsBelow groups mid name
      → IsBelow groups root name

collect_each-cons :
    (below : Text → Option (List Text)) (c : Text) (names ys : List Text)
    → collect_each below (c ∷ names) ≡ some ys
    → (inner : List Text) × (rest : List Text) × (below c ≡ some inner)
      × (collect_each below names ≡ some rest)
      × (ys ≡ inner ++ c ∷ rest)
unfolding collect_each
collect_each-cons below c names ys e = elim (Option-cases (below c)) [
  | inl e' ↦ absurd (let h = rw (e', collect_each) at e in cc)
  | inr (inner, i) ↦ elim (Option-cases (collect_each below names)) [
    | inl e' ↦ absurd (let h = rw (i, e', collect_each) at e in cc)
    | inr (rest, r) ↦ (inner, rest, i, r, let h = rw (i, r, collect_each) at e in cc)
  ]
]

mem-append_cons :
    (n c : Text) (inner rest : List Text)
    → mem n (inner ++ c ∷ rest) ≡ (mem n inner || (c == n || mem n rest))
unfolding mem
mem-append_cons n c inner rest = mem-append n inner (c ∷ rest)

pub mem_head : (c : Text) (xs : List Text) → mem c (c ∷ xs) ≡ true
unfolding mem
mem_head c xs = ground (arith, text_beq_iff c c)

pub mem_tail : (d c : Text) (xs : List Text) → mem d xs ≡ true → mem d (c ∷ xs) ≡ true
unfolding mem
mem_tail d c xs h = ground arith

or_left : {a : Bool} (b : Bool) → a ≡ true → (a || b) ≡ true
or_left b h = ground arith

or_middle : (a : Bool) {b : Bool} (c : Bool) → b ≡ true → (a || (b || c)) ≡ true
or_middle a c h = ground arith

or_right : (a b : Bool) {c : Bool} → c ≡ true → (a || (b || c)) ≡ true
or_right a b h = ground arith

collect_each-cases :
    (below : Text → Option (List Text)) (names ys : List Text) (n : Text)
    → collect_each below names ≡ some ys
    → mem n ys ≡ true
    → (c : Text) × (mem c names ≡ true)
      × ((c ≡ n) ⊎ ((xs : List Text) × (below c ≡ some xs) × (mem n xs ≡ true)))
collect_each-cases below [] ys n e m = absurd (unfold mem collect_each in ground arith)
collect_each-cases below (c ∷ names) ys n e m =
    let (inner, rest, i, r, same) = collect_each-cons below c names ys e in
    let m' = rw (same, mem-append_cons) at m in
    elim (or-true (mem n inner) (c == n || mem n rest) m') [
      | inl at_inner ↦ (c, mem_head c names, inr (inner, i, at_inner))
      | inr later ↦ elim (or-true (c == n) (mem n rest) later) [
        | inl here ↦ (c, mem_head c names, inl ((text_beq_iff c n).0 here))
        | inr at_rest ↦
            let (d, found, how) = collect_each-cases below names rest n r at_rest in
            (d, mem_tail d c names found, how)
      ]
    ]

collect_each-mem :
    (below : Text → Option (List Text)) (names ys : List Text) (c n : Text)
    → collect_each below names ≡ some ys
    → mem c names ≡ true
    → (c ≡ n) ⊎ ((xs : List Text) → below c ≡ some xs → mem n xs ≡ true)
    → mem n ys ≡ true
collect_each-mem below [] ys c n e m h = absurd (unfold mem in cc)
collect_each-mem below (d ∷ names) ys c n e m h =
    let (inner, rest, i, r, same) = collect_each-cons below d names ys e in
    rw (same, mem-append_cons)
      (elim (or-true (d == c) (mem c names) (unfold mem in m)) [
        | inr later ↦
            or_right (mem n inner) (d == n) (collect_each-mem below names rest c n r later h)
        | inl here ↦
            let same_name = (text_beq_iff d c).0 here in
            elim h [
              | inl is_c ↦
                  or_middle (mem n inner) (mem n rest) ((text_beq_iff d n).1 (same_name ∙ is_c))
              | inr inside ↦ or_left (d == n || mem n rest) (inside inner (rw (← same_name) i))
            ]
      ])

-- What is collected is exactly what stands below the root.
collect_descendants_sound :
    (depth : ℕ) (groups : Groups) (root n : Text) (xs : List Text)
    → collect_descendants depth groups root ≡ some xs
    → mem n xs ≡ true
    → IsBelow groups root n
unfolding collect_descendants
collect_descendants_sound zero groups root n xs e m = absurd (cc)
collect_descendants_sound (suc depth) groups root n xs e m =
    let (c, found, how) =
      collect_each-cases (collect_descendants depth groups) (children root groups) xs n e m in
    elim how [
      | inl same ↦ child (subst (λ x. mem x (children root groups) ≡ true) same found)
      | inr (ys, e', m') ↦ deeper found (collect_descendants_sound depth groups c n ys e' m')
    ]

collect_descendants_complete :
    (depth : ℕ) {groups : Groups} {root n : Text} (xs : List Text)
    → collect_descendants depth groups root ≡ some xs
    → IsBelow groups root n
    → mem n xs ≡ true
unfolding collect_descendants
collect_descendants_complete zero xs e d = absurd (cc)
collect_descendants_complete (suc depth) {groups} xs e (child {root} {name} m) =
    collect_each-mem (collect_descendants depth groups) (children root groups) xs name name e m
      (inl refl)
collect_descendants_complete (suc depth) {groups} xs e (deeper {root} {mid} {name} m d) =
    collect_each-mem (collect_descendants depth groups) (children root groups) xs mid name e m
      (inr (λ ys e'. collect_descendants_complete depth ys e' d))

pub collect_descendants_including_self_iff :
    (groups : Groups) (root n : Text)
    → All Grows groups
    → (mem n (collect_descendants_including_self groups root) ≡ true)
      ↔ ((root ≡ n) ⊎ IsBelow groups root n)
unfolding collect_descendants_including_self
collect_descendants_including_self_iff groups root n h =
    elim (Option-cases (collect_descendants (suc (longest groups)) groups root)) [
      | inl e ↦ absurd (collect_descendants-ne-none (longest groups) groups root h (omega arith) e)
      | inr (xs, e) ↦
          rw (e, collect_descendants_including_self, mem-append_cons) (to xs e, from xs e)
    ]
  where
    to :
        (xs : List Text)
        → collect_descendants (suc (longest groups)) groups root ≡ some xs
        → (mem n xs || (root == n || mem n [])) ≡ true
        → (root ≡ n) ⊎ IsBelow groups root n
    to xs e m = elim (or-true (mem n xs) (root == n || mem n []) m) [
      | inl below ↦ inr (collect_descendants_sound (suc (longest groups)) groups root n xs e below)
      | inr last ↦ elim (or-true (root == n) (mem n []) last) [
        | inl same ↦ inl ((text_beq_iff root n).0 same)
        | inr never ↦ absurd (unfold mem in cc)
      ]
    ]

    from :
        (xs : List Text)
        → collect_descendants (suc (longest groups)) groups root ≡ some xs
        → (root ≡ n) ⊎ IsBelow groups root n
        → (mem n xs || (root == n || mem n [])) ≡ true
    from xs e (inl same) = or_middle (mem n xs) (mem n []) ((text_beq_iff root n).1 same)
    from xs e (inr d) =
        or_left (root == n || mem n []) (collect_descendants_complete (suc (longest groups)) xs e d)
