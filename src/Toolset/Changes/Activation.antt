-- ===== src/Toolset/Changes/Activation.antt =====
-- Activating a group: the flags afterwards.
use tmcp.Base.{
  ◌≡◌, refl, sym, ◌∙◌, subst, ◌⊎◌, inl, inr, Bool, true, false, ◌&&◌, not, some, List, [], ◌∷◌,
  arith, if◌then◌else◌, Bool-cases, and-true, ◌==◌, nat_eq, mem, Text, text_beq_iff, text_eq,
}
use mathlib.Core.List.{Memᴰ}
use tmcp.Base.Map.{get, modify, get-modify}
use tmcp.Toolset.Registry.{GroupState, Groups, GroupRegistry, children}
use tmcp.Toolset.Registry.Descendants.{
  is_child_of_iff, IsBelow, child, deeper, collect_descendants_including_self_iff,
}
use tmcp.Toolset.Registry.Nesting.{IsWellFormed, IsNested-Grows}
use tmcp.Toolset.Changes.{set_active, deactivate_all, exclude_sets}
use tmcp.Toolset.Changes.Flags.{
  flag, IsClosed, SameShape, SameShape-trans, modify-SameShape, deactivate_all-SameShape,
  flag-deactivate_all,
}
use tmcp.Toolset.Changes.Plans.{Pulls, Excludes, exclude_sets-Excludes, exclude_sets-mem}

-- No group that shares an exclusion set with `name` stands above it.
abbrev pub IsSeparate : GroupRegistry → Text → Type 0
IsSeparate r name =
    (set : List Text) (other : Text)
    → Memᴰ set r.exclusions
    → mem name set ≡ true
    → mem other set ≡ true
    → (other == name) ≡ false
    → ¬ IsBelow r.groups other name

-- A group under one that is below the root is below the root.
pub IsBelow-child :
    {groups : Groups} {top mid n : Text}
    → IsBelow groups top mid
    → mem n (children mid groups) ≡ true
    → IsBelow groups top n
IsBelow-child (child m) h = deeper m (child h)
IsBelow-child (deeper m d) h = deeper m (IsBelow-child d h)

pub mem-children :
    (groups : Groups) (n p : Text) (s : GroupState)
    → get n groups ≡ some s
    → s.parent ≡ some p
    → mem n (children p groups) ≡ true
unfolding children get mem
mem-children [] n p s e q = absurd (cc)
mem-children ((k, t) ∷ groups) n p s e q = elim (Bool-cases (k == n)) [
  | inl here ↦ let child_here = (is_child_of_iff p t).1 (ground arith) in rw child_here (rw here)
  | inr later ↦ let rest = mem-children groups n p s (rw later at e) q in ground arith
]

-- The groups that an activation pulls down, the groups without them, and with the target raised.
abbrev pub pulled : GroupRegistry → Text → List Text
pulled r name = exclude_sets r.groups name [] r.exclusions

abbrev pub lowered : GroupRegistry → Text → Groups
lowered r name = deactivate_all (pulled r name) r.groups

abbrev pub raised : GroupRegistry → Text → GroupState → Groups
raised r name target =
    let low = lowered r name in if not target.active then modify name (set_active true) low else low

module _ (r : GroupRegistry) (name : Text) (target : GroupState) where
  pub lowered-SameShape : IsWellFormed r → SameShape r.groups (lowered r name)
  lowered-SameShape w = deactivate_all-SameShape (pulled r name) r.groups w.nested

  pub raised-SameShape : IsWellFormed r → SameShape r.groups (raised r name target)
  raised-SameShape w = elim (Bool-cases target.active) [
    | inl on ↦ rw on (lowered-SameShape w)
    | inr off ↦ rw off (
        SameShape-trans (lowered-SameShape w)
          (modify-SameShape name true (lowered r name) (lowered-SameShape w).nested))
  ]

  pub flag-raised_other :
      (j : Text)
      → (name == j) ≡ false
      → flag (raised r name target) j ≡ (flag r.groups j && not (mem j (pulled r name)))
  flag-raised_other j ne = ground (
    arith,
    flag-deactivate_all j (pulled r name) r.groups,
    get-modify name j (set_active true) (lowered r name),
  )

module _ (r : GroupRegistry) (name : Text) (w : IsWellFormed r) (c : IsClosed r.groups)
    (sep : IsSeparate r name) where
  inside_iff :
      (other n : Text) → Pulls r.groups name other n → (other ≡ n) ⊎ IsBelow r.groups other n
  inside_iff other n p =
      (collect_descendants_including_self_iff r.groups other n (IsNested-Grows r.groups w.nested)).0
        p.inside

  pub pulled-Excludes :
      (n : Text) → mem n (pulled r name) ≡ true → Excludes r.groups name r.exclusions n
  pulled-Excludes n h = elim (exclude_sets-Excludes r.groups name n [] r.exclusions h) [
    | inl none_yet ↦ absurd (unfold mem in cc)
    | inr e ↦ e
  ]

  -- The plan does not pull down its own target.
  name-not-pulled : mem name (pulled r name) ≡ false
  name-not-pulled = elim (Bool-cases (mem name (pulled r name))) [
    | inr apart ↦ apart
    | inl h ↦
        let e = pulled-Excludes name h in
        absurd (elim (inside_iff e.other name e.pulls) [
          | inl same ↦ (let k = (text_beq_iff e.other name).1 same in let j = e.pulls.another in cc)
          | inr below ↦ sep e.set e.other e.listed e.concerned e.member e.pulls.another below
        ])
  ]

  -- What stands under a group that is pulled down is pulled down.
  pulled-child :
      (p n : Text)
      → mem p (pulled r name) ≡ true
      → mem n (children p r.groups) ≡ true
      → mem n (pulled r name) ≡ true
  pulled-child p n h m =
      let e = pulled-Excludes p h in
      exclude_sets-mem r.groups name [] e.listed e.concerned e.member (record {
        another = e.pulls.another;
        running = e.pulls.running;
        inside =
            (collect_descendants_including_self_iff r.groups e.other n
                (IsNested-Grows r.groups w.nested)).1
              (inr (below_of (inside_iff e.other p e.pulls)));
      })
    where
      below_of : {top : Text} → (top ≡ p) ⊎ IsBelow r.groups top p → IsBelow r.groups top n
      below_of {top} (inl same) = child (rw same m)
      below_of (inr d) = IsBelow-child d m

  module _ (target : GroupState) (registered : get name r.groups ≡ some target)
      (ready : (p : Text) → target.parent ≡ some p → flag r.groups p ≡ true) where
    pub flag-raised_self : flag (raised r name target) name ≡ true
    flag-raised_self = ground (
      arith,
      flag-deactivate_all name (pulled r name) r.groups,
      name-not-pulled,
      get-modify name name (set_active true) (lowered r name),
      (lowered-SameShape r name target w).keys name,
      text_beq_iff name name,
    )

    -- An active group after the change was not pulled down, and its parent was active before.
    kept :
        (j p : Text) (s0 : GroupState)
        → get j r.groups ≡ some s0
        → s0.parent ≡ some p
        → flag (raised r name target) j ≡ true
        → (mem j (pulled r name) ≡ false) × (flag r.groups p ≡ true)
    kept j p s0 f q on = elim (Bool-cases (name == j)) [
      | inl here ↦
          let same = (text_beq_iff name j).0 here in
          (rw (← same) name-not-pulled, ready p (ground arith))
      | inr apart ↦
          let both =
            and-true (flag r.groups j) (not (mem j (pulled r name)))
              (rw (flag-raised_other r name target j apart) at on) in
          (ground arith, c j s0 p f (ground arith) q)
    ]

    pub raised-IsClosed : IsClosed (raised r name target)
    raised-IsClosed j s p e on q =
        let (s0, f, same) = (raised-SameShape r name target w).parents j s e in
        let (apart, ready_parent) = kept j p s0 f (sym same ∙ q) (rw e on) in
        elim (Bool-cases (name == p)) [
          | inl here ↦
              subst (λ x. flag (raised r name target) x ≡ true) ((text_beq_iff name p).0 here)
                flag-raised_self
          | inr elsewhere ↦
              rw (flag-raised_other r name target p elsewhere, ready_parent)
                (not_pulled (mem p (pulled r name)) (λ h.
                  let k = pulled-child p j h (mem-children r.groups j p s0 f (sym same ∙ q)) in cc))
        ]
      where
        not_pulled : (b : Bool) → ¬ (b ≡ true) → not b ≡ true
        not_pulled true n = absurd (n refl)
        not_pulled false n = refl
