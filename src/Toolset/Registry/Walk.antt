-- ===== src/Toolset/Registry/Walk.antt =====
-- The loop of `is_group_active_snapshot` ends, and decides whether a whole chain of parents is
-- active.
use tmcp.Base.{
  ℕ, zero, suc, ◌≤◌, ◌<◌, ◌≡◌, refl, ap, ◌≢◌, ◌↔◌, inl, inr, Bool, true, false, Option, none, some,
  List, [], ◌∷◌, arith, if◌then◌else◌, Bool-cases, Option-cases, length, ◌==◌, nat_eq, mem, Text,
  text_beq_iff, text_eq,
}
use tmcp.Base.Map.{get}
use tmcp.Toolset.Registry.{Snapshot, GroupSnapshot, parents_active, is_group_active_snapshot}

-- How many registered names the loop has not seen yet.
unseen : List Text → Snapshot → ℕ
unseen guard [] = 0
unseen guard ((name, _) ∷ groups) =
    let rest = unseen guard groups in if mem name guard then rest else suc rest

unseen-le : (guard : List Text) (groups : Snapshot) → unseen guard groups ≤ length groups
unfolding unseen
unseen-le guard [] = omega arith
unseen-le guard ((name, _) ∷ groups) = ground (arith, unseen-le guard groups)

unseen-cons-le :
    (p : Text) (guard : List Text) (groups : Snapshot)
    → unseen (p ∷ guard) groups ≤ unseen guard groups
unfolding unseen mem
unseen-cons-le p guard [] = omega arith
unseen-cons-le p guard ((name, _) ∷ groups) = ground (arith, unseen-cons-le p guard groups)

unseen-cons-lt :
    (p : Text) (guard : List Text) (groups : Snapshot) {s : GroupSnapshot}
    → get p groups ≡ some s
    → mem p guard ≡ false
    → unseen (p ∷ guard) groups < unseen guard groups
unfolding unseen mem get
unseen-cons-lt p guard [] h k = cc
unseen-cons-lt p guard ((name, t) ∷ groups) {s} h k = elim (Bool-cases (name == p)) [
  | inl e ↦ ground (arith, text_beq_iff name p, text_beq_iff p name, unseen-cons-le p guard groups)
  | inr e ↦ ground (
    arith,
    text_beq_iff name p,
    text_beq_iff p name,
    unseen-cons-lt p guard groups {s = s} (ground arith) k,
  )
]

-- The loop gives an answer in fewer rounds than `suc (length groups)`.
parents_active-ne-none :
    (fuel : ℕ) (groups : Snapshot) (guard : List Text) (current : GroupSnapshot)
    → unseen guard groups < fuel
    → parents_active fuel groups guard current ≢ none
unfolding parents_active
parents_active-ne-none zero groups guard current h = absurd (omega arith)
parents_active-ne-none (suc fuel) groups guard current h = elim (Option-cases current.parent) [
  | inl e ↦ rw (e, parents_active) (cc)
  | inr (p, e) ↦ elim (Bool-cases (mem p guard)) [
    | inl seen ↦ rw (e, seen, parents_active) (cc)
    | inr new ↦ elim (Option-cases (get p groups)) [
      | inl absent ↦ rw (e, new, absent, parents_active) (cc)
      | inr (s, found) ↦ elim (Bool-cases s.active) [
        | inr off ↦ rw (e, new, found, off, parents_active) (cc)
        | inl on ↦
            rw (e, new, found, on, parents_active)
              (parents_active-ne-none fuel groups (p ∷ guard) s
                (omega (arith, unseen-cons-lt p guard groups found new)))
      ]
    ]
  ]
]

-- The group is registered and active, and so is every group above it, `k` of them.
pub data IsEffectiveAt (groups : Snapshot) : ℕ → Text → Type 0 where
  root :
      {name : Text} (s : GroupSnapshot)
      → get name groups ≡ some s
      → s.active ≡ true
      → s.parent ≡ none
      → IsEffectiveAt groups zero name
  under :
      {k : ℕ} {name parent : Text} (s : GroupSnapshot)
      → get name groups ≡ some s
      → s.active ≡ true
      → s.parent ≡ some parent
      → IsEffectiveAt groups k parent
      → IsEffectiveAt groups (suc k) name

abbrev pub IsEffective : Snapshot → Text → Type 0
IsEffective groups name = (k : ℕ) × IsEffectiveAt groups k name

IsEffectiveAt-unique :
    {groups : Snapshot} {k j : ℕ} {name name' : Text}
    → name ≡ name'
    → IsEffectiveAt groups k name
    → IsEffectiveAt groups j name'
    → k ≡ j
IsEffectiveAt-unique e (root s f a p) (root t g b q) = refl
IsEffectiveAt-unique e (root s f a p) (under t g b q d) = absurd (cc)
IsEffectiveAt-unique e (under s f a p d) (root t g b q) = absurd (cc)
IsEffectiveAt-unique e (under s f a p d) (under t g b q d') =
    ap suc (IsEffectiveAt-unique (cc) d d')

-- A `true` of the loop is a chain of active parents.
parents_active_sound :
    (fuel : ℕ) (groups : Snapshot) (guard : List Text) (name : Text) (current : GroupSnapshot)
    → get name groups ≡ some current
    → current.active ≡ true
    → parents_active fuel groups guard current ≡ some true
    → IsEffective groups name
unfolding parents_active
parents_active_sound zero groups guard name current f a h = absurd (cc)
parents_active_sound (suc fuel) groups guard name current f a h =
    elim (Option-cases current.parent) [
      | inl e ↦ (0, root current f a e)
      | inr (p, e) ↦ elim (Bool-cases (mem p guard)) [
        | inl seen ↦ absurd (let h' = rw (e, seen, parents_active) at h in cc)
        | inr new ↦ elim (Option-cases (get p groups)) [
          | inl absent ↦ absurd (let h' = rw (e, new, absent, parents_active) at h in cc)
          | inr (s, found) ↦ elim (Bool-cases s.active) [
            | inr off ↦ absurd (let h' = rw (e, new, found, off, parents_active) at h in cc)
            | inl on ↦
                let (k, d) =
                  parents_active_sound fuel groups (p ∷ guard) p s found on
                    (rw (e, new, found, on, parents_active) at h) in
                (suc k, under current f a e d)
          ]
        ]
      ]
    ]

-- Every group that the loop has seen stands at least `k` below the top.
abbrev AtLeast : Snapshot → ℕ → List Text → Type 0
AtLeast groups k guard = (x : Text) (j : ℕ) → mem x guard ≡ true → IsEffectiveAt groups j x → k ≤ j

pub IsEffectiveAt-get :
    {groups : Snapshot} {k : ℕ} {name : Text}
    → IsEffectiveAt groups k name
    → (s : GroupSnapshot) × (get name groups ≡ some s) × (s.active ≡ true)
IsEffectiveAt-get (root s f a p) = (s, f, a)
IsEffectiveAt-get (under s f a p d) = (s, f, a)

AtLeast-cons :
    (groups : Snapshot) (k : ℕ) (guard : List Text) (p : Text)
    → IsEffectiveAt groups k p
    → AtLeast groups (suc k) guard
    → AtLeast groups k (p ∷ guard)
unfolding mem
AtLeast-cons groups k guard p d g x j m dx = elim (Bool-cases (p == x)) [
  | inl same ↦ omega (arith, IsEffectiveAt-unique ((text_beq_iff p x).0 same) d dx)
  | inr other ↦ omega (arith, g x j (rw other at m) dx)
]

-- Along such a chain the loop never stops early.
parents_active_complete :
    (fuel : ℕ) (groups : Snapshot) (guard : List Text) (k : ℕ) (name : Text)
    (current : GroupSnapshot)
    → get name groups ≡ some current
    → IsEffectiveAt groups k name
    → AtLeast groups k guard
    → parents_active fuel groups guard current ≢ some false
unfolding parents_active
parents_active_complete zero groups guard k name current f d g = cc
parents_active_complete (suc fuel) groups guard k name current f (root s f' a p) g =
    let e : current.parent ≡ none = ground arith in rw (e, parents_active) (cc)
parents_active_complete (suc fuel) groups guard k name current f
      (under {k = j} {parent = q} s f' a p d) g =
    let e : current.parent ≡ some q = ground arith in
    elim (Bool-cases (mem q guard)) [
      | inl seen ↦ absurd (omega (arith, g q j seen d))
      | inr new ↦
          let (t, found, on) = IsEffectiveAt-get d in
          rw (e, new, found, on, parents_active)
            (parents_active_complete fuel groups (q ∷ guard) j q t found d
              (AtLeast-cons groups j guard q d g))
    ]

abbrev answer_or_false : Option Bool → Bool
answer_or_false o = elim o [ none ↦ false | some answer ↦ answer ]

answer_true : (o : Option Bool) → answer_or_false o ≡ true → o ≡ some true
answer_true o h = ground arith

answer_of : (o : Option Bool) → o ≢ none → o ≢ some false → answer_or_false o ≡ true
answer_of o h k = ground arith

-- A group counts as active exactly when it is registered and active and so is every group above
-- it, also in a snapshot whose parents form a cycle.
pub is_group_active_snapshot_iff :
    (groups : Snapshot) (name : Text)
    → (is_group_active_snapshot groups name ≡ true) ↔ IsEffective groups name
unfolding is_group_active_snapshot
is_group_active_snapshot_iff groups name = (to, λ d. from d)
  where
    to : is_group_active_snapshot groups name ≡ true → IsEffective groups name
    to h = elim (Option-cases (get name groups)) [
      | inl absent ↦ absurd (let h' = rw (absent, is_group_active_snapshot) at h in cc)
      | inr (s, found) ↦ elim (Bool-cases s.active) [
        | inr off ↦ absurd (let h' = rw (found, off, is_group_active_snapshot) at h in cc)
        | inl on ↦ parents_active_sound (suc (length groups)) groups [] name s found on (
            answer_true (parents_active (suc (length groups)) groups [] s)
              (rw (found, on, is_group_active_snapshot) at h))
      ]
    ]

    from : IsEffective groups name → is_group_active_snapshot groups name ≡ true
    from (k, d) =
        let (s, found, on) = IsEffectiveAt-get d in
        rw (found, on, is_group_active_snapshot)
          (answer_of (parents_active (suc (length groups)) groups [] s)
            (parents_active-ne-none (suc (length groups)) groups [] s
              (omega (arith, unseen-le [] groups)))
            (parents_active_complete (suc (length groups)) groups [] k name s found d
              (λ x j m _. absurd (unfold mem in cc))))
