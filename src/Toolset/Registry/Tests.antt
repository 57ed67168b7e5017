-- ===== src/Toolset/Registry/Tests.antt =====
-- The theorems on the registry at concrete groups.
use tmcp.Base.{
  ◌≡◌, refl, ◌↔◌, true, false, none, some, [], ◌∷◌, ◌++◌, nat_eq, mem, insert_new, text, text_beq,
  text_eq, starts_with, ok,
}
use tmcp.Base.Map.{get, insert, remove}
use tmcp.Toolset.Registry.{
  GroupConfig, GroupRegistry, register_group, register_exclusion, exclusion_entries, check_parent,
  initial_state, snapshot, is_group_active_snapshot,
}
use tmcp.Toolset.Registry.Walk.{IsEffective, is_group_active_snapshot_iff}
use tmcp.Toolset.Registry.Nesting.{IsWellFormed, register_group-IsWellFormed}
use tmcp.Toolset.Changes.Tests.{a, a_b, x, rivals, rivals-IsWellFormed}

runs : Unit {0}
unfolding get insert remove mem insert_new text_beq starts_with register_group register_exclusion
    exclusion_entries check_parent
runs = tt

abbrev before : GroupRegistry
before = (rivals true false false).registry

abbrev config : GroupConfig
config = record {
  name = text "a.c";
  description = text "c";
  parent = some a;
  on_activate = none;
  on_deactivate = none;
  show_deactivator = true;
}

abbrev grown : GroupRegistry
grown = record before { groups = insert (text "a.c") (initial_state config) before.groups }

registers : register_group before config ≡ ok grown
unfolding runs
registers = refl

is_group_active_snapshot_iff_example :
    (is_group_active_snapshot (snapshot before.groups) a ≡ true)
    ↔ IsEffective (snapshot before.groups) a
is_group_active_snapshot_iff_example = is_group_active_snapshot_iff (snapshot before.groups) a

register_group-IsWellFormed_example : IsWellFormed grown
register_group-IsWellFormed_example =
    register_group-IsWellFormed before grown config (rivals-IsWellFormed true false false) registers

abbrev excluding : GroupRegistry
excluding = record before { exclusions = before.exclusions ++ (a_b ∷ x ∷ []) ∷ [] }
