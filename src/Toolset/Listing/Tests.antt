-- ===== src/Toolset/Listing/Tests.antt =====
-- The theorems on the listing at concrete tool sets.
use tmcp.Base.{
  ◌≡◌, refl, ◌↔◌, true, Option, none, some, List, [], ◌∷◌, nat_eq, mem, text, text_beq, text_eq, ok,
}
use tmcp.Base.Map.{get, insert}
use tmcp.Toolset.Registry.{is_group_active_snapshot, parents_active}
use tmcp.Toolset.State.{Tool, ToolHandler, user, group, is_visible, explicit}
use tmcp.Toolset.Tools.{visible_handler}
use tmcp.Toolset.Tools.Tests.{set, run, run_tool, with_run, registers_run}
use tmcp.Toolset.Listing.{
  visible_tools, insert_tool, sort_tools, text_leb, parse_digits, parse_usize, parse_cursor_offset,
  list_tools,
}
use tmcp.Toolset.Listing.Pages.{
  IsIndexed, register_entry-IsIndexed, is_listed, list_tools-visible_handler,
}

runs : Unit {0}
unfolding get insert text_beq mem is_group_active_snapshot parents_active is_visible visible_tools
    insert_tool sort_tools text_leb parse_digits parse_usize parse_cursor_offset list_tools
runs = tt

with_run-IsIndexed : IsIndexed with_run.tools
with_run-IsIndexed =
    register_entry-IsIndexed set with_run run run_tool (group (text "a")) (some (user 9)) explicit
      (record { distinct = tt; named = tt }) registers_run

abbrev full : List Tool
full = record run_tool { name = run } ∷ []

lists : list_tools with_run none ≡ ok full
unfolding runs
lists = refl

list_tools-visible_handler_example :
    ((handler : Option ToolHandler) × (visible_handler with_run run ≡ ok handler))
    ↔ (is_listed run full ≡ true)
list_tools-visible_handler_example =
    list_tools-visible_handler with_run full run with_run-IsIndexed lists
