-- ===== src/Toolset/Tools/Tests.antt =====
-- The theorems on registering tools and groups at concrete tool sets.
use tmcp.Base.{
  ◌≡◌, refl, true, false, none, some, [], ◌∷◌, if◌then◌else◌, nat_eq, mem, insert_new, Text, text,
  text_beq, text_eq, starts_with, ok, err,
}
use tmcp.Base.Map.{get, insert, contains_key, remove}
use tmcp.Errors.{tool_not_found, invalid_configuration}
use tmcp.Toolset.Names.{
  split_tool_name, qualified_name, validate_group_path, split_dots, validate_segments, rsplit_once,
  validate_group_segment,
}
use tmcp.Toolset.Names.Laws.{IsSegment}
use tmcp.Toolset.Registry.{
  GroupConfig, ensure_group_exists, is_active, check_parent, register_group as register_in_registry,
  unregister_group,
}
use tmcp.Toolset.State.{Tool, user, group, always, explicit, ToolSet}
use tmcp.Toolset.Tools.{
  validate_tool_registration, register_entry, auto_entries, validate_entries, check_free,
  insert_all, register_auto_tools, register_group, call_tool,
}
use tmcp.Toolset.Tools.Entries.{call_tool-register_entry, stored, entry_of}
use tmcp.Toolset.Tools.Groups.{register_group-err}
use tmcp.Toolset.Changes.Tests.{a, rivals, rivals-IsWellFormed}

runs : Unit {0}
unfolding get insert remove mem insert_new text_beq starts_with register_in_registry
    unregister_group check_parent ensure_group_exists split_tool_name qualified_name
    validate_group_path split_dots validate_segments rsplit_once validate_group_segment
    validate_tool_registration register_entry auto_entries validate_entries check_free insert_all
    register_auto_tools register_group
runs = tt

abbrev pub set : ToolSet
set = rivals true true false

abbrev pub run_tool : Tool
run_tool = record { name = text "run"; description = none; other = 3 }

abbrev pub run : Text
run = text "a.run"

abbrev pub with_run : ToolSet
with_run = stored set run run_tool (group a) (some (user 9)) explicit

pub registers_run : register_entry set run run_tool (group a) (some (user 9)) explicit ≡ ok with_run
unfolding runs
registers_run = refl

call_tool-register_entry_example :
    ((base : Text) × IsSegment base × (run ≡ qualified_name a base))
    × (contains_key a with_run.registry.groups ≡ true)
    × (call_tool with_run run
        ≡ (if is_active with_run.registry a then ok (user 9) else err (tool_not_found run)))
call_tool-register_entry_example =
    call_tool-register_entry set with_run run a run_tool (user 9) registers_run

abbrev config : GroupConfig
config = record {
  name = text "z";
  description = text "last";
  parent = none;
  on_activate = none;
  on_deactivate = none;
  show_deactivator = true;
}

-- A tool has the name that the group's activation tool would have.
abbrev clash : ToolSet
clash = record set {
  tools = (text "z.activate", entry_of (text "z.activate") run_tool always none explicit) ∷ [];
}

clashes :
    register_group clash config
    ≡ (clash, err (invalid_configuration (text "tool already registered: z.activate")))
unfolding runs
clashes = refl

register_group-err_example : clash ≡ clash
register_group-err_example =
    register_group-err clash clash config
      (invalid_configuration (text "tool already registered: z.activate"))
      (rivals-IsWellFormed true true false) clashes

abbrev grown : ToolSet
grown = (register_group set config).0
