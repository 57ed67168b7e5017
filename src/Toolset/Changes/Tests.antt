-- ===== src/Toolset/Changes/Tests.antt =====
-- Runs of activation and deactivation, and the theorems at inputs that meet their hypotheses.
use tmcp.Base.{
  ◌≡◌, refl, sym, ◌∙◌, subst, inl, inr, Bool, true, false, Option, none, some, [], ◌∷◌, ◌++◌, arith,
  or-true, ◌==◌, nat_eq, mem, insert_new, Text, text, text_beq, text_beq_iff, text_eq, starts_with,
  Result, ok,
}
use mathlib.Core.List.{Memᴰ}
use tmcp.Errors.{Error}
use tmcp.Base.Map.{get, insert, contains_key, remove, modify, All-get}
use tmcp.Toolset.Registry.{
  Hook, GroupState, register_group, register_exclusion, is_active, is_group_active_snapshot,
  children, collect_descendants_including_self, collect_descendants, longest,
}
use tmcp.Toolset.Registry.Nesting.{IsWellFormed}
use tmcp.Toolset.Registry.Descendants.{IsBelow, child}
use tmcp.Toolset.State.{ToolSet}
use tmcp.Toolset.Changes.{
  activate_group, deactivate_group, plan_activation, apply_activation, plan_deactivation,
  apply_deactivation, run_activation_hooks, exclude_sets, exclude_others, exclude_other,
  deactivate_all, deactivation_hooks,
}
use tmcp.Toolset.Changes.Flags.{IsClosed, flag}
use tmcp.Toolset.Changes.Activation.{IsSeparate}
use tmcp.Toolset.Changes.Overlap.{
  IsBelow-parent, activate_group-IsExclusive, activate_group-self_displaced,
}
use tmcp.Toolset.Changes.Effects.{Activated, IsExclusive, activate_group-Activated}
use tmcp.Toolset.Changes.Deactivation.{Deactivated, deactivate_group-Deactivated}

-- All that the runs below compute with.
runs : Unit {0}
unfolding get insert remove modify mem insert_new text_beq starts_with register_group
    register_exclusion is_active is_group_active_snapshot children
    collect_descendants_including_self collect_descendants longest activate_group deactivate_group
    plan_activation apply_activation plan_deactivation apply_deactivation run_activation_hooks
    exclude_sets exclude_others exclude_other deactivate_all deactivation_hooks
runs = tt

abbrev pub state : Bool → Option Text → GroupState
state active parent = record {
  description = [];
  active = active;
  parent = parent;
  on_activate = some 7;
  on_deactivate = none;
}

abbrev pub a : Text
a = text "a"

abbrev pub a_b : Text
a_b = text "a.b"

abbrev pub x : Text
x = text "x"

-- Two rivals `a` and `x`, and `a.b` under the first.
abbrev pub rivals : Bool → Bool → Bool → ToolSet
rivals on_a on_b on_x = record {
  tools = [];
  registry = record {
    groups = (a, state on_a none) ∷ (a_b, state on_b (some a)) ∷ (x, state on_x none) ∷ [];
    exclusions = (a ∷ x ∷ []) ∷ [];
  };
}

abbrev silent : Hook → ToolSet → Unit {0} → Result Error (Unit {0}) × ToolSet × Unit {0}
silent h t w = (ok tt, t, w)

abbrev sent : Unit {0} → Result Error (Unit {0}) × Unit {0}
sent w = (ok tt, w)

-- Activating `x` stops `a` and `a.b`.
activates :
    activate_group silent sent x (rivals true true false) tt
    ≡ (ok true, rivals false false true, tt)
unfolding runs
activates = refl

deactivates :
    deactivate_group silent sent a (rivals true true false) tt
    ≡ (ok true, rivals false false false, tt)
unfolding runs
deactivates = refl

below : (q p : Text) → some q ≡ some p → q ≡ p
below q p e = cc

pub rivals-IsWellFormed : (i j k : Bool) → IsWellFormed (rivals i j k).registry
unfolding runs
rivals-IsWellFormed i j k = record {
  nested = record {
    distinct = (refl, (refl, (refl, tt)));
    linked = (
      λ p e. absurd (cc),
      (
        λ p e.
            subst
              (λ q.
                (contains_key q (rivals i j k).registry.groups ≡ true)
                × (starts_with (q ++ text ".") a_b ≡ true))
              (below a p e) (refl, refl),
        (λ p e. absurd (cc), tt),
      ),
    );
  };
  known = ((refl, (refl, tt)), tt);
}

-- `a.b` runs only under a running `a`.
pub rivals-IsClosed : (i k : Bool) → IsClosed (rivals true i k).registry.groups
rivals-IsClosed i k name s p e on q =
    All-get
      (λ entry.
        (p : Text) → entry.1.parent ≡ some p → flag (rivals true i k).registry.groups p ≡ true)
      name s (rivals true i k).registry.groups
      (
        λ p e. absurd (cc),
        (
          λ p e.
              subst (λ q. flag (rivals true i k).registry.groups q ≡ true) (below a p e)
                (unfold runs in refl),
          (λ p e. absurd (cc), tt),
        ),
      )
      e p q

x-top : (i j k : Bool) (other : Text) → ¬ IsBelow (rivals i j k).registry.groups other x
x-top i j k other d =
    let (s, p, f, q, how) = IsBelow-parent (rivals-IsWellFormed i j k).nested.distinct d in
    absurd (unfold runs in ground arith)

rivals-IsSeparate : (i j k : Bool) → IsSeparate (rivals i j k).registry x
rivals-IsSeparate i j k set other l m m' ne d = x-top i j k other d

activate_group-Activated_example : Activated (rivals true true false) (rivals false false true) x
activate_group-Activated_example =
    activate_group-Activated silent sent x (rivals true true false) (rivals false false true) tt tt
      true (λ h t w. refl) (rivals-IsWellFormed true true false) (rivals-IsClosed true false)
      (rivals-IsSeparate true true false) activates

deactivate_group-Deactivated_example :
    Deactivated (rivals true true false) (rivals false false false) a
deactivate_group-Deactivated_example =
    deactivate_group-Deactivated silent sent a (rivals true true false) (rivals false false false)
      tt tt true (λ h t w. refl) (rivals-IsWellFormed true true false) (rivals-IsClosed true false)
      deactivates

member_is_a :
    (p : Text)
    → mem p (a ∷ x ∷ []) ≡ true
    → is_active (rivals true true false).registry p ≡ true
    → p ≡ a
member_is_a p m on = elim (or-true (a == p) (mem p (x ∷ [])) (unfold mem in m)) [
  | inl same ↦ sym ((text_beq_iff a p).0 same)
  | inr rest ↦ elim (or-true (x == p) (mem p []) (unfold mem in rest)) [
    | inr never ↦ absurd (unfold mem in cc)
    | inl same ↦
        let off : is_active (rivals true true false).registry x ≡ false = unfold runs in refl in
        absurd (let on' = rw (← ((text_beq_iff x p).0 same)) at on in cc)
  ]
]

rivals-IsExclusive : IsExclusive (rivals true true false).registry
rivals-IsExclusive set p q (Memᴰ.head same) m m' on on' =
    member_is_a p (rw same at m) on ∙ sym (member_is_a q (rw same at m') on')
rivals-IsExclusive set p q (Memᴰ.tail l) m m' on on' = elim l [ ]

activate_group-IsExclusive_example : IsExclusive (rivals false false true).registry
activate_group-IsExclusive_example =
    activate_group-IsExclusive silent sent x (rivals true true false) (rivals false false true) tt
      tt true (λ h t w. refl) (rivals-IsWellFormed true true false) (rivals-IsClosed true false)
      (rivals-IsSeparate true true false) rivals-IsExclusive activates

-- A set that holds a group and the group under it.
abbrev overlapping : Bool → Bool → ToolSet
overlapping on_a on_b = record {
  tools = [];
  registry = record {
    groups = (rivals on_a on_b false).registry.groups;
    exclusions = (a ∷ a_b ∷ []) ∷ [];
  };
}

overlapping-IsWellFormed : (i j : Bool) → IsWellFormed (overlapping i j).registry
unfolding runs
overlapping-IsWellFormed i j = record {
  nested = (rivals-IsWellFormed i j false).nested;
  known = ((refl, (refl, tt)), tt);
}

overlaps :
    activate_group silent sent a_b (overlapping true false) tt
    ≡ (ok true, overlapping false true, tt)
unfolding runs
overlaps = refl

activate_group-self_displaced_example : is_active (overlapping false true).registry a_b ≡ false
activate_group-self_displaced_example =
    activate_group-self_displaced silent sent a_b a (a ∷ a_b ∷ []) (overlapping true false)
      (overlapping false true) tt tt true (λ h t w. refl) (overlapping-IsWellFormed true false)
      (rivals-IsClosed false false) (Memᴰ.head refl) (unfold runs in refl) (unfold runs in refl)
      (unfold runs in refl) (child {root = a} {name = a_b} (unfold runs in refl)) overlaps
