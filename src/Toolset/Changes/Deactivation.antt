-- ===== src/Toolset/Changes/Deactivation.antt =====
-- `ToolSet::deactivate_group`: the group and all below it stop, and nothing else changes.
use tmcp.Base.{
  ◌≡◌, refl, sym, ◌∙◌, ◌↔◌, ◌⊎◌, inl, inr, Bool, true, false, ◌&&◌, ◌||◌, not, some, List, [], ◌∷◌,
  arith, Bool-cases, Option-cases, and-true, any, ◌==◌, nat_eq, mem, Text, text_beq_iff, text_eq,
  Result, ok,
}
use tmcp.Errors.{Error}
use tmcp.Base.Map.{get, contains_key}
use tmcp.Toolset.Registry.{
  Hook, GroupState, GroupRegistry, children, is_active, collect_descendants_including_self,
}
use tmcp.Toolset.Registry.Nesting.{IsWellFormed, IsNested-Grows, AreKnown, All-map}
use tmcp.Toolset.Registry.Descendants.{IsBelow, child, collect_descendants_including_self_iff}
use tmcp.Toolset.State.{ToolSet}
use tmcp.Toolset.Changes.{
  GroupChangePlan, plan_deactivation, apply_deactivation, deactivate_group, deactivate_all,
  deactivation_hooks, is_active_state,
}
use tmcp.Toolset.Changes.Flags.{
  flag, IsClosed, SameShape, SameShape-refl, deactivate_all-SameShape, flag-deactivate_all,
  is_group_active_snapshot-flag,
}
use tmcp.Toolset.Changes.Activation.{IsBelow-child, mem-children}
use tmcp.Toolset.Changes.Running.{AreQuiet, AllSucceed, run_plan-Ran, run_plan-ok}

abbrev pub subtree : GroupRegistry → Text → List Text
subtree r name = collect_descendants_including_self r.groups name

abbrev deactivation_plan : GroupRegistry → Text → GroupState → GroupChangePlan
deactivation_plan r name target = record {
  target = name;
  to_deactivate = subtree r name;
  activate = false;
  hooks = deactivation_hooks r.groups (subtree r name);
  changed = target.active || any (λ group. is_active_state (get group r.groups)) (subtree r name);
}

plan_deactivation-eq :
    (r : GroupRegistry) (name : Text) (target : GroupState)
    → get name r.groups ≡ some target
    → plan_deactivation r name ≡ ok (deactivation_plan r name target)
unfolding plan_deactivation
plan_deactivation-eq r name target f = rw (f, plan_deactivation) refl

plan_deactivation-target :
    (r : GroupRegistry) (name : Text) (plan : GroupChangePlan)
    → plan_deactivation r name ≡ ok plan
    → (target : GroupState) × (get name r.groups ≡ some target)
      × (plan ≡ deactivation_plan r name target)
unfolding plan_deactivation
plan_deactivation-target r name plan e = elim (Option-cases (get name r.groups)) [
  | inl absent ↦ absurd (let h = rw (absent, plan_deactivation) at e in cc)
  | inr (target, f) ↦ (target, f, let h = rw (f, plan_deactivation) at e in cc)
]

any-false :
    (p : Text → Bool) (xs : List Text) (x : Text) → any p xs ≡ false → mem x xs ≡ true → p x ≡ false
unfolding mem
any-false p [] x h m = absurd (cc)
any-false p (y ∷ xs) x h m = elim (Bool-cases (y == x)) [
  | inl same ↦ rw (← ((text_beq_iff y x).0 same)) (ground arith)
  | inr ne ↦ any-false p xs x (ground arith) (rw ne at m)
]

-- The change of one registry into another by lowering the flags of a list of names.
record Lowers (names : List Text) (r r' : GroupRegistry) : Type 0 where
  exclusions : r'.exclusions ≡ r.exclusions
  shape : SameShape r.groups r'.groups
  flags : (j : Text) → flag r'.groups j ≡ (flag r.groups j && not (mem j names))

apply_deactivation-Lowers :
    (r : GroupRegistry) (name : Text) (target : GroupState)
    → IsWellFormed r
    → get name r.groups ≡ some target
    → (r' : GroupRegistry) × (b : Bool) × (apply_deactivation r (deactivation_plan r name target)
        ≡ ok (r', b))
      × Lowers (subtree r name) r r'
unfolding apply_deactivation
apply_deactivation-Lowers r name target w f =
    let running : Text → Bool = λ group. is_active_state (get group r.groups) in
    elim (Bool-cases (target.active || any running (subtree r name))) [
      | inl changes ↦ (
        record r { groups = deactivate_all (subtree r name) r.groups },
        true,
        rw (changes, f, apply_deactivation) refl,
        record {
          exclusions = refl;
          shape = deactivate_all-SameShape (subtree r name) r.groups w.nested;
          flags = λ j. flag-deactivate_all j (subtree r name) r.groups;
        },
      )
      | inr still ↦ (
        r,
        false,
        rw (still, apply_deactivation) refl,
        record {
          exclusions = refl;
          shape = SameShape-refl r.groups w.nested;
          flags = λ j. unchanged j (Bool-cases (mem j (subtree r name))) (ground arith);
        },
      )
    ]
  where
    unchanged :
        (j : Text)
        → (mem j (subtree r name) ≡ true) ⊎ (mem j (subtree r name) ≡ false)
        → any (λ group. is_active_state (get group r.groups)) (subtree r name) ≡ false
        → flag r.groups j ≡ (flag r.groups j && not (mem j (subtree r name)))
    unchanged j (inr out) h = rw out (ground arith)
    unchanged j (inl inside) h =
        rw (any-false (λ group. is_active_state (get group r.groups)) (subtree r name) j h inside)
          (ground arith)

-- The groups after `deactivate_group(name)` has returned a value.
pub record Deactivated (t t' : ToolSet) (name : Text) : Type 0 where
  pub tools : t'.tools ≡ t.tools
  pub exclusions : t'.registry.exclusions ≡ t.registry.exclusions
  pub well_formed : IsWellFormed t'.registry
  pub closed : IsClosed t'.registry.groups
  pub stopped :
      (n : Text) → (name ≡ n) ⊎ IsBelow t.registry.groups name n → is_active t'.registry n ≡ false
  pub untouched :
      (n : Text)
      → ¬ ((name ≡ n) ⊎ IsBelow t.registry.groups name n)
      → is_active t'.registry n ≡ is_active t.registry n

module _ (r r' : GroupRegistry) (name : Text) (w : IsWellFormed r) (c : IsClosed r.groups)
    (low : Lowers (subtree r name) r r') where
  subtree_iff :
      (n : Text) → (mem n (subtree r name) ≡ true) ↔ ((name ≡ n) ⊎ IsBelow r.groups name n)
  subtree_iff n =
      collect_descendants_including_self_iff r.groups name n (IsNested-Grows r.groups w.nested)

  subtree-child :
      (p n : Text)
      → mem p (subtree r name) ≡ true
      → mem n (children p r.groups) ≡ true
      → mem n (subtree r name) ≡ true
  subtree-child p n h m = (subtree_iff n).1 (inr (below ((subtree_iff p).0 h)))
    where
      below : (name ≡ p) ⊎ IsBelow r.groups name p → IsBelow r.groups name n
      below (inl same) = child (rw same m)
      below (inr d) = IsBelow-child d m

  lowered-IsClosed : IsClosed r'.groups
  lowered-IsClosed j s p e on q =
      let (s0, f, same) = low.shape.parents j s e in
      let flag_j : flag r'.groups j ≡ true = rw e on in
      let both =
        and-true (flag r.groups j) (not (mem j (subtree r name))) (sym (low.flags j) ∙ flag_j) in
      let before : flag r.groups p ≡ true = c j s0 p f (rw f at both.0) (sym same ∙ q) in
      low.flags p
      ∙ rw before (
          outside p j (mem-children r.groups j p s0 f (sym same ∙ q)) both.1
            (Bool-cases (mem p (subtree r name))))
    where
      outside :
          (p j : Text)
          → mem j (children p r.groups) ≡ true
          → not (mem j (subtree r name)) ≡ true
          → (mem p (subtree r name) ≡ true) ⊎ (mem p (subtree r name) ≡ false)
          → not (mem p (subtree r name)) ≡ true
      outside p j m out (inr h) = rw h refl
      outside p j m out (inl h) = absurd (ground (arith, subtree-child p j h m))

  lowered-IsWellFormed : IsWellFormed r'
  lowered-IsWellFormed = record {
    nested = low.shape.nested;
    known = rw (low.exclusions) (
        All-map (AreKnown r.groups) (AreKnown r'.groups) r.exclusions
          (λ set known.
            All-map (λ g. contains_key g r.groups ≡ true) (λ g. contains_key g r'.groups ≡ true) set
              (λ g k. low.shape.keys g ∙ k) known)
          w.known);
  }

  is_active-after : (n : Text) → is_active r' n ≡ flag r'.groups n
  unfolding is_active
  is_active-after n = is_group_active_snapshot-flag r'.groups n low.shape.nested lowered-IsClosed

  is_active-before : (n : Text) → is_active r n ≡ flag r.groups n
  unfolding is_active
  is_active-before n = is_group_active_snapshot-flag r.groups n w.nested c

  stopped_flag : (n : Text) → (name ≡ n) ⊎ IsBelow r.groups name n → is_active r' n ≡ false
  stopped_flag n h = is_active-after n ∙ low.flags n ∙ ground (arith, (subtree_iff n).1 h)

  untouched_flag :
      (n : Text) → ¬ ((name ≡ n) ⊎ IsBelow r.groups name n) → is_active r' n ≡ is_active r n
  untouched_flag n h =
      is_active-after n
      ∙ low.flags n
      ∙ elim (Bool-cases (mem n (subtree r name))) [
        | inl inside ↦ absurd (h ((subtree_iff n).0 inside))
        | inr out ↦ rw out (ground arith)
      ]
      ∙ sym (is_active-before n)

Lowers-Deactivated :
    (t : ToolSet) (r' : GroupRegistry) (name : Text)
    → IsWellFormed t.registry
    → IsClosed t.registry.groups
    → Lowers (subtree t.registry name) t.registry r'
    → Deactivated t (record t { registry = r' }) name
Lowers-Deactivated t r' name w c low = record {
  tools = refl;
  exclusions = low.exclusions;
  well_formed = lowered-IsWellFormed t.registry r' name w c low;
  closed = lowered-IsClosed t.registry r' name w c low;
  stopped = stopped_flag t.registry r' name w c low;
  untouched = untouched_flag t.registry r' name w c low;
}

module _ {W : Type 0} (call : Hook → ToolSet → W → Result Error (Unit {0}) × ToolSet × W)
    (notify : W → Result Error (Unit {0}) × W) where
  -- When `deactivate_group` returns a value, the group and every group below it are inactive,
  -- every other group is as it was, and the registry is well formed with the parent of every
  -- active group active. The conditions are that the registry was so before and that the hooks
  -- leave the tool set alone.
  pub deactivate_group-Deactivated :
      (name : Text) (t t' : ToolSet) (w w' : W) (b : Bool)
      → AreQuiet call notify
      → IsWellFormed t.registry
      → IsClosed t.registry.groups
      → deactivate_group call notify name t w ≡ (ok b, t', w')
      → Deactivated t t' name
  unfolding deactivate_group
  deactivate_group-Deactivated name t t' w w' b quiet wf c e =
      let ran =
        run_plan-Ran call notify apply_deactivation (plan_deactivation t.registry name) t t' w w' b
          quiet e in
      let (target, f, same) = plan_deactivation-target t.registry name ran.plan ran.is_planned in
      let (r', b', applied, low) = apply_deactivation-Lowers t.registry name target wf f in
      let equal : ran.registry ≡ r' =
        same_registry ran.plan ran.registry target b' r' same ran.applied applied in
      rw ran.left (rw equal (Lowers-Deactivated t r' name wf c low))
    where
      same_registry :
          (plan : GroupChangePlan) (registry : GroupRegistry) (target : GroupState) (b' : Bool)
          (r' : GroupRegistry)
          → plan ≡ deactivation_plan t.registry name target
          → apply_deactivation t.registry plan ≡ ok (registry, b)
          → apply_deactivation t.registry (deactivation_plan t.registry name target) ≡ ok (r', b')
          → registry ≡ r'
      same_registry plan registry target b' r' same a a' = cc

  -- If no hook and no notice fails, the hooks leave the tool set alone and the registry is well
  -- formed, deactivating a registered group returns a value.
  deactivate_group-ok :
      (name : Text) (t : ToolSet) (w : W) (target : GroupState)
      → AreQuiet call notify
      → AllSucceed call notify
      → IsWellFormed t.registry
      → get name t.registry.groups ≡ some target
      → (b : Bool) × ((deactivate_group call notify name t w).0 ≡ ok b)
  unfolding deactivate_group
  deactivate_group-ok name t w target quiet all_ok wf f =
      let (r', b, applied, low) = apply_deactivation-Lowers t.registry name target wf f in
      (
        b,
        rw (plan_deactivation-eq t.registry name target f) (
            run_plan-ok call notify apply_deactivation (deactivation_plan t.registry name target) t
              w r' b quiet all_ok applied),
      )
