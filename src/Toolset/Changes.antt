-- ===== src/Toolset/Changes.antt =====
-- toolset.rs: activating and deactivating groups: a plan from the registry, the hooks, and the
-- change. The calls hold `activation_lock`, so one runs at a time.
pub mod Flags
pub mod Plans
pub mod Activation
pub mod Running
pub mod Effects
pub mod Overlap
pub mod Deactivation
pub mod Tests
use tmcp.Base.{
  zero, suc, ◌+◌, Bool, true, false, ◌&&◌, ◌||◌, not, Option, none, some, List, [], ◌∷◌, ◌++◌,
  arith, if◌then◌else◌, any, is_empty, Eq, ◌==◌, nat_eq, mem, insert_new, Text, text_eq, Result, ok,
  err, ◌>>=◌, ◌>>◌, ok_or,
}
use tmcp.Base.Map.{get, contains_key, modify}
use tmcp.Errors.{Error, group_not_found, group_inactive}
use tmcp.Toolset.Registry.{
  Hook, GroupState, Groups, GroupRegistry, Snapshot, snapshot, is_group_active_snapshot,
  collect_descendants_including_self,
}
use tmcp.Toolset.State.{ToolSet}

pub record GroupChangePlan : Type 0 where
  pub target : Text
  pub to_deactivate : List Text
  pub activate : Bool
  pub hooks : List Hook
  pub changed : Bool

-- `to_deactivate` with `deactivation_set`, which holds the same names.
unfoldable pub add_groups : List Text → List Text → List Text
add_groups found [] = found
add_groups found (group ∷ rest) = add_groups (insert_new group found) rest

-- One round of the loop over an exclusion set.
unfoldable pub exclude_other : Groups → Text → List Text → Text → List Text
unfolding add_groups
exclude_other groups name found other =
    if not (other == name) && is_group_active_snapshot (snapshot groups) other
    then add_groups found (collect_descendants_including_self groups other)
    else found

-- The loop over one exclusion set.
unfoldable pub exclude_others : Groups → Text → List Text → List Text → List Text
exclude_others groups name found [] = found
exclude_others groups name found (other ∷ rest) =
    exclude_others groups name (exclude_other groups name found other) rest

-- The loop over the exclusion sets.
unfoldable pub exclude_sets : Groups → Text → List Text → List (List Text) → List Text
exclude_sets groups name found [] = found
exclude_sets groups name found (exclusion ∷ rest) =
    exclude_sets groups name
      (if mem name exclusion then exclude_others groups name found exclusion else found) rest

-- `Some` gives one hook to push.
abbrev hook_list : Option Hook → List Hook
hook_list none = []
hook_list (some hook) = hook ∷ []

abbrev deactivation_hook : Option GroupState → List Hook
deactivation_hook none = []
deactivation_hook (some state) = if state.active then hook_list state.on_deactivate else []

unfoldable pub deactivation_hooks : Groups → List Text → List Hook
deactivation_hooks groups [] = []
deactivation_hooks groups (group ∷ rest) =
    deactivation_hook (get group groups) ++ deactivation_hooks groups rest

abbrev check_parent_active : Groups → Text → Option Text → Result Error (Unit {0})
check_parent_active groups name none = ok tt
check_parent_active groups name (some parent) =
    if is_group_active_snapshot (snapshot groups) parent
    then ok tt
    else err (group_inactive name parent)

unfoldable pub plan_activation : GroupRegistry → Text → Result Error GroupChangePlan
plan_activation r name = do
  target ← ok_or (get name r.groups) (group_not_found name)
  check_parent_active r.groups name target.parent
  let found = exclude_sets r.groups name [] r.exclusions
  ok (record {
    target = name;
    to_deactivate = found;
    activate = not target.active;
    hooks =
        deactivation_hooks r.groups found
        ++ (if target.active then [] else hook_list target.on_activate);
    changed = not (is_empty found) || not target.active;
  })

abbrev pub is_active_state : Option GroupState → Bool
is_active_state none = false
is_active_state (some state) = state.active

unfoldable pub plan_deactivation : GroupRegistry → Text → Result Error GroupChangePlan
plan_deactivation r name = do
  target ← ok_or (get name r.groups) (group_not_found name)
  let found = collect_descendants_including_self r.groups name
  ok (record {
    target = name;
    to_deactivate = found;
    activate = false;
    hooks = deactivation_hooks r.groups found;
    changed = target.active || any (λ group. is_active_state (get group r.groups)) found;
  })

abbrev pub set_active : Bool → GroupState → GroupState
set_active b s = record s { active = b }

unfoldable pub deactivate_all : List Text → Groups → Groups
deactivate_all [] groups = groups
deactivate_all (group ∷ rest) groups = deactivate_all rest (modify group (set_active false) groups)

-- The flag that is returned says whether the state changed.
unfoldable pub apply_activation :
    GroupRegistry → GroupChangePlan → Result Error (GroupRegistry × Bool)
apply_activation r plan =
    if plan.changed
    then if contains_key plan.target r.groups
      then (let lowered = deactivate_all plan.to_deactivate r.groups in
          let raised =
            if plan.activate then modify plan.target (set_active true) lowered else lowered in
          ok (record r { groups = raised }, true))
      else err (group_not_found plan.target)
    else ok (r, false)

unfoldable pub apply_deactivation :
    GroupRegistry → GroupChangePlan → Result Error (GroupRegistry × Bool)
apply_deactivation r plan =
    if plan.changed
    then if contains_key plan.target r.groups
      then ok (record r { groups = deactivate_all plan.to_deactivate r.groups }, true)
      else err (group_not_found plan.target)
    else ok (r, false)

-- What the hooks and the connection's context do is not this crate's code. A hook may change the
-- tool set and the world around it, and fails with an error. `notify` is `ServerCtx::notify`.
module _ {W : Type 0} (call : Hook → ToolSet → W → Result Error (Unit {0}) × ToolSet × W)
    (notify : W → Result Error (Unit {0}) × W) where
  unfoldable pub run_activation_hooks :
      List Hook → ToolSet → W → Result Error (Unit {0}) × ToolSet × W
  run_activation_hooks [] t w = (ok tt, t, w)
  run_activation_hooks (hook ∷ hooks) t w =
      let (result, t', w') = call hook t w in
      elim result [ ok _ ↦ run_activation_hooks hooks t' w' | err e ↦ (err e, t', w') ]

  -- The list-changed notice, if anything changed; its failure is returned.
  abbrev notify_changed : Bool → ToolSet → W → Result Error Bool × ToolSet × W
  notify_changed false t w = (ok false, t, w)
  notify_changed true t w = let (sent, w') = notify w in (sent >> ok true, t, w')

  abbrev finish_change :
      Result Error (GroupRegistry × Bool) → ToolSet → W → Result Error Bool × ToolSet × W
  finish_change (err e) t w = (err e, t, w)
  finish_change (ok (r, changed)) t w = notify_changed changed (record t { registry = r }) w

  -- The hooks of a plan, then its change to the registry as the hooks left it.
  abbrev run_plan :
      (GroupRegistry → GroupChangePlan → Result Error (GroupRegistry × Bool))
      → Result Error GroupChangePlan
      → ToolSet
      → W
      → Result Error Bool × ToolSet × W
  run_plan apply (err e) t w = (err e, t, w)
  run_plan apply (ok plan) t w =
      let (result, t', w') = run_activation_hooks plan.hooks t w in
      elim result [ ok _ ↦ finish_change (apply t'.registry plan) t' w' | err e ↦ (err e, t', w') ]

  unfoldable pub activate_group : Text → ToolSet → W → Result Error Bool × ToolSet × W
  activate_group name t w = run_plan apply_activation (plan_activation t.registry name) t w

  unfoldable pub deactivate_group : Text → ToolSet → W → Result Error Bool × ToolSet × W
  deactivate_group name t w = run_plan apply_deactivation (plan_deactivation t.registry name) t w
