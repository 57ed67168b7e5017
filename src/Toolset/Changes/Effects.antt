-- ===== src/Toolset/Changes/Effects.antt =====
-- `ToolSet::activate_group`: what holds of the groups once it has returned.
use mathlib.Core.List.{Memᴰ}
use tmcp.Errors.{Error}
use tmcp.Toolset.Changes.Running.{AreQuiet, AllSucceed, run_plan-Ran, run_plan-ok, run_plan-err}
use tmcp.Base.{
  ◌≡◌, refl, sym, ◌∙◌, subst, ◌⊎◌, inl, inr, Bool, true, false, ◌&&◌, ◌||◌, not, some, List, [],
  ◌∷◌, ◌++◌, arith, if◌then◌else◌, Bool-cases, Option-cases, is_empty, ◌==◌, nat_eq, mem, Text,
  text_eq, ok, ◌↔◌, Result, err,
}
use tmcp.Base.Map.{get, contains_key}
use tmcp.Toolset.Registry.{GroupState, GroupRegistry, snapshot, is_group_active_snapshot, is_active}
use tmcp.Toolset.Registry.Nesting.{IsWellFormed, AreKnown, All-map}
use tmcp.Toolset.State.{ToolSet}
use tmcp.Toolset.Changes.{
  GroupChangePlan, exclude_sets, plan_activation, apply_activation, deactivate_all,
  deactivation_hooks, hook_list, Hook, Error, activate_group,
}
use tmcp.Toolset.Changes.Flags.{flag, IsClosed, SameShape, is_group_active_snapshot-flag}
use tmcp.Toolset.Changes.Plans.{Excludes, exclude_sets-mem}
use tmcp.Toolset.Changes.Activation.{
  IsSeparate, pulled, raised, raised-SameShape, flag-raised_self, flag-raised_other,
  raised-IsClosed, pulled-Excludes,
}

abbrev activation_plan : GroupRegistry → Text → GroupState → GroupChangePlan
activation_plan r name target =
    let found = exclude_sets r.groups name [] r.exclusions in
    record {
      target = name;
      to_deactivate = found;
      activate = not target.active;
      hooks =
          deactivation_hooks r.groups found
          ++ (if target.active then [] else hook_list target.on_activate);
      changed = not (is_empty found) || not target.active;
    }

-- A plan is made exactly for a registered group whose parent, if it has one, is active.
pub record CanActivate (r : GroupRegistry) (name : Text) (target : GroupState) : Type 0 where
  pub registered : get name r.groups ≡ some target
  pub ready : (p : Text) → target.parent ≡ some p → is_active r p ≡ true

plan_activation-eq :
    (r : GroupRegistry) (name : Text) (target : GroupState)
    → CanActivate r name target
    → plan_activation r name ≡ ok (activation_plan r name target)
unfolding plan_activation is_active
plan_activation-eq r name target c = elim (Option-cases target.parent) [
  | inl top ↦ rw (c.registered, top, plan_activation) refl
  | inr (p, e) ↦ rw (c.registered, e, c.ready p e, plan_activation) refl
]

plan_activation-CanActivate :
    (r : GroupRegistry) (name : Text) (plan : GroupChangePlan)
    → plan_activation r name ≡ ok plan
    → (target : GroupState) × CanActivate r name target × (plan ≡ activation_plan r name target)
unfolding plan_activation is_active
plan_activation-CanActivate r name plan e = elim (Option-cases (get name r.groups)) [
  | inl absent ↦ absurd (let h = rw (absent, plan_activation) at e in cc)
  | inr (target, f) ↦ elim (Option-cases target.parent) [
    | inl top ↦ (
      target,
      record { registered = f; ready = λ p q. absurd (cc) },
      let h = rw (f, top, plan_activation) at e in cc,
    )
    | inr (p, q) ↦ elim (Bool-cases (is_group_active_snapshot (snapshot r.groups) p)) [
      | inr off ↦ absurd (let h = rw (f, q, off, plan_activation) at e in cc)
      | inl on ↦ (
        target,
        record {
          registered = f;
          ready =
              λ p' q'. subst (λ x. is_group_active_snapshot (snapshot r.groups) x ≡ true) (cc) on;
        },
        let h = rw (f, q, on, plan_activation) at e in cc,
      )
    ]
  ]
]

apply_activation-raised :
    (r : GroupRegistry) (name : Text) (target : GroupState)
    → get name r.groups ≡ some target
    → (b : Bool) × (apply_activation r (activation_plan r name target)
        ≡ ok (record r { groups = raised r name target }, b))
unfolding apply_activation
apply_activation-raised r name target e =
    let found = pulled r name in
    elim (Bool-cases (not (is_empty found) || not target.active)) [
      | inl changes ↦ (true, rw (changes, e, apply_activation) refl)
      | inr still ↦ (false, unchanged found refl still)
    ]
  where
    unchanged :
        (found : List Text)
        → pulled r name ≡ found
        → (not (is_empty found) || not target.active) ≡ false
        → apply_activation r (activation_plan r name target)
          ≡ ok (record r { groups = raised r name target }, false)
    unchanged (n ∷ found) p q = absurd (cc)
    unchanged [] p q =
        let on : target.active ≡ true = ground arith in
        rw (p, on, apply_activation) (unfold deactivate_all in refl)

-- The groups after `activate_group(name)` has returned a value.
pub record Activated (t t' : ToolSet) (name : Text) : Type 0 where
  pub tools : t'.tools ≡ t.tools
  pub exclusions : t'.registry.exclusions ≡ t.registry.exclusions
  pub well_formed : IsWellFormed t'.registry
  pub closed : IsClosed t'.registry.groups
  pub running : is_active t'.registry name ≡ true
  pub displaced :
      (n : Text)
      → (name == n) ≡ false
      → Excludes t.registry.groups name t.registry.exclusions n
      → is_active t'.registry n ≡ false
  pub untouched :
      (n : Text)
      → (name == n) ≡ false
      → ¬ Excludes t.registry.groups name t.registry.exclusions n
      → is_active t'.registry n ≡ is_active t.registry n

abbrev pub raised_registry : GroupRegistry → Text → GroupState → GroupRegistry
raised_registry r name target = record r { groups = raised r name target }

module _ (r : GroupRegistry) (name : Text) (target : GroupState) (w : IsWellFormed r)
    (c : IsClosed r.groups) (sep : IsSeparate r name) (can : CanActivate r name target) where
  ready_flags : (p : Text) → target.parent ≡ some p → flag r.groups p ≡ true
  ready_flags p e =
      sym (is_group_active_snapshot-flag r.groups p w.nested c) ∙ unfold is_active in can.ready p e

  raised_shape : SameShape r.groups (raised r name target)
  raised_shape = raised-SameShape r name target w

  IsClosed-raised : IsClosed (raised r name target)
  IsClosed-raised = raised-IsClosed r name w c sep target can.registered ready_flags

  is_active-raised :
      (n : Text) → is_active (raised_registry r name target) n ≡ flag (raised r name target) n
  unfolding is_active
  is_active-raised n =
      is_group_active_snapshot-flag (raised r name target) n raised_shape.nested IsClosed-raised

  is_active-before : (n : Text) → is_active r n ≡ flag r.groups n
  unfolding is_active
  is_active-before n = is_group_active_snapshot-flag r.groups n w.nested c

  raised-IsWellFormed : IsWellFormed (raised_registry r name target)
  raised-IsWellFormed = record {
    nested = raised_shape.nested;
    known =
        All-map (AreKnown r.groups) (AreKnown (raised r name target)) r.exclusions
          (λ set known.
            All-map (λ g. contains_key g r.groups ≡ true)
              (λ g. contains_key g (raised r name target) ≡ true) set
              (λ g k. raised_shape.keys g ∙ k) known)
          w.known;
  }

  flag_other :
      (n : Text)
      → (name == n) ≡ false
      → flag (raised r name target) n ≡ (flag r.groups n && not (mem n (pulled r name)))
  flag_other n ne = flag-raised_other r name target n ne

  pulled-of_Excludes :
      (n : Text) → Excludes r.groups name r.exclusions n → mem n (pulled r name) ≡ true
  pulled-of_Excludes n e = exclude_sets-mem r.groups name [] e.listed e.concerned e.member e.pulls

  displaced_flag :
      (n : Text)
      → (name == n) ≡ false
      → Excludes r.groups name r.exclusions n
      → is_active (raised_registry r name target) n ≡ false
  displaced_flag n ne e =
      is_active-raised n ∙ ground (arith, flag_other n ne, pulled-of_Excludes n e)

  untouched_flag :
      (n : Text)
      → (name == n) ≡ false
      → ¬ Excludes r.groups name r.exclusions n
      → is_active (raised_registry r name target) n ≡ is_active r n
  untouched_flag n ne e =
      is_active-raised n ∙ kept (Bool-cases (mem n (pulled r name))) ∙ sym (is_active-before n)
    where
      kept :
          (mem n (pulled r name) ≡ true) ⊎ (mem n (pulled r name) ≡ false)
          → flag (raised r name target) n ≡ flag r.groups n
      kept (inl h) = absurd (e (pulled-Excludes r name w c sep n h))
      kept (inr h) = ground (arith, flag_other n ne)

raised-Activated :
    (t : ToolSet) (name : Text) (target : GroupState)
    → IsWellFormed t.registry
    → IsClosed t.registry.groups
    → IsSeparate t.registry name
    → CanActivate t.registry name target
    → Activated t (record t { registry = raised_registry t.registry name target }) name
raised-Activated t name target w c sep can = record {
  tools = refl;
  exclusions = refl;
  well_formed = raised-IsWellFormed t.registry name target w c sep can;
  closed = IsClosed-raised t.registry name target w c sep can;
  running =
      is_active-raised t.registry name target w c sep can name
      ∙ flag-raised_self t.registry name w c sep target can.registered
          (ready_flags t.registry name target w c sep can);
  displaced = displaced_flag t.registry name target w c sep can;
  untouched = untouched_flag t.registry name target w c sep can;
}

module _ {W : Type 0} (call : Hook → ToolSet → W → Result Error (Unit {0}) × ToolSet × W)
    (notify : W → Result Error (Unit {0}) × W) where
  pub Ran-raised :
      (name : Text) (t t' : ToolSet) (w w' : W) (b : Bool)
      → AreQuiet call notify
      → activate_group call notify name t w ≡ (ok b, t', w')
      → (target : GroupState) × CanActivate t.registry name target
        × (t' ≡ record t { registry = raised_registry t.registry name target })
  unfolding activate_group
  Ran-raised name t t' w w' b quiet e =
      let ran =
        run_plan-Ran call notify apply_activation (plan_activation t.registry name) t t' w w' b
          quiet e in
      let (target, can, same) =
        plan_activation-CanActivate t.registry name ran.plan ran.is_planned in
      let (b', applied) = apply_activation-raised t.registry name target can.registered in
      (
        target,
        can,
        applied_left t t' name target ran.plan ran.registry b b' same ran.applied applied ran.left,
      )
    where
      applied_left :
          (t t' : ToolSet) (name : Text) (target : GroupState) (plan : GroupChangePlan)
          (registry : GroupRegistry) (b b' : Bool)
          → plan ≡ activation_plan t.registry name target
          → apply_activation t.registry plan ≡ ok (registry, b)
          → apply_activation t.registry (activation_plan t.registry name target)
            ≡ ok (raised_registry t.registry name target, b')
          → t' ≡ record t { registry = registry }
          → t' ≡ record t { registry = raised_registry t.registry name target }
      applied_left t t' name target plan registry b b' same a a' left =
          let equal : registry ≡ raised_registry t.registry name target = cc in rw (← equal) left

  -- When `activate_group` returns a value, the group is active; every other member of its
  -- exclusion sets that was active is inactive with all that stands below it; all other groups
  -- are as they were; and the registry is well formed, with the parent of every active group
  -- active. The conditions are that the registry was well formed with the parent of every active
  -- group active, that no exclusion set holds the group together with one above it, and that the
  -- hooks leave the tool set alone.
  pub activate_group-Activated :
      (name : Text) (t t' : ToolSet) (w w' : W) (b : Bool)
      → AreQuiet call notify
      → IsWellFormed t.registry
      → IsClosed t.registry.groups
      → IsSeparate t.registry name
      → activate_group call notify name t w ≡ (ok b, t', w')
      → Activated t t' name
  activate_group-Activated name t t' w w' b quiet wf c sep e =
      let (target, can, left) = Ran-raised name t t' w w' b quiet e in
      rw left (raised-Activated t name target wf c sep can)

  -- If no hook and no notice fails and the hooks leave the tool set alone, `activate_group`
  -- returns a value exactly for a registered group whose parent, if it has one, is active.
  activate_group-ok_iff :
      (name : Text) (t : ToolSet) (w : W)
      → AreQuiet call notify
      → AllSucceed call notify
      → ((b : Bool) × ((activate_group call notify name t w).0 ≡ ok b))
        ↔ ((target : GroupState) × CanActivate t.registry name target)
  activate_group-ok_iff name t w quiet all_ok = (to, λ p. from p.0 p.1)
    where
      to :
          (b : Bool) × ((activate_group call notify name t w).0 ≡ ok b)
          → (target : GroupState) × CanActivate t.registry name target
      to (b, e) =
          let run = activate_group call notify name t w in
          let (target, can, left) =
            Ran-raised name t run.1 w run.2 b quiet (λ i. (e i, run.1, run.2)) in
          (target, can)

      from :
          (target : GroupState)
          → CanActivate t.registry name target
          → (b : Bool) × ((activate_group call notify name t w).0 ≡ ok b)
      from target can =
          let (b, applied) = apply_activation-raised t.registry name target can.registered in
          (
            b,
            unfold activate_group in
                rw (plan_activation-eq t.registry name target can) (
                  run_plan-ok call notify apply_activation (activation_plan t.registry name target)
                    t w (raised_registry t.registry name target) b quiet all_ok applied),
          )

  -- If the notice does not fail and the hooks leave the tool set alone, an error of
  -- `activate_group`, a failing hook's included, leaves the tool set as it was.
  activate_group-err :
      (name : Text) (t t' : ToolSet) (w w' : W) (e : Error)
      → AreQuiet call notify
      → ((w : W) → (notify w).0 ≡ ok tt)
      → activate_group call notify name t w ≡ (err e, t', w')
      → t' ≡ t
  unfolding activate_group
  activate_group-err name t t' w w' e quiet sends h =
      run_plan-err call notify apply_activation (plan_activation t.registry name) t t' w w' e quiet
        sends h

-- At most one group of each exclusion set is active.
abbrev pub IsExclusive : GroupRegistry → Type 0
IsExclusive r =
    (set : List Text) (a b : Text)
    → Memᴰ set r.exclusions
    → mem a set ≡ true
    → mem b set ≡ true
    → is_active r a ≡ true
    → is_active r b ≡ true
    → a ≡ b

-- A group that runs after an activation ran before, or is the one that was activated.
pub Activated-running :
    {t t' : ToolSet} {name : Text} (n : Text)
    → Activated t t' name
    → is_active t'.registry n ≡ true
    → (name == n) ≡ false
    → (is_active t.registry n ≡ true) × (¬ Excludes t.registry.groups name t.registry.exclusions n)
Activated-running {t} {t'} {name} n a on ne =
    let apart : ¬ Excludes t.registry.groups name t.registry.exclusions n =
      λ e. let off = a.displaced n ne e in cc in
    (sym (a.untouched n ne apart) ∙ on, apart)
