-- ===== src/Toolset/Tools/Groups.antt =====
-- `ToolSet::register_group`: all or nothing.
use tmcp.Base.{
  ◌≡◌, refl, true, none, some, List, arith, All, nat_eq, Text, text, text_eq, Result, ok, err, ◌>>◌,
  >>=-eq-ok,
}
use tmcp.Base.Map.{get}
use tmcp.Errors.{Error}
use tmcp.Toolset.Names.{validate_group_path, qualified_name}
use tmcp.Toolset.Registry.{
  GroupRegistry, GroupConfig, initial_state, register_group as register_in_registry,
}
use tmcp.Toolset.Registry.Nesting.{IsWellFormed, unregister-register_group}
use tmcp.Toolset.State.{activate, deactivate, ToolEntry, ToolSet}
use tmcp.Toolset.Tools.{finish_group, add_group, register_auto_tools, register_group, call_tool}

abbrev Entries : Type 0
Entries = List (Text × ToolEntry)

-- The two ways in which the call fails, and the one in which it succeeds.
pub record Registration (t t' : ToolSet) (c : GroupConfig) : Type 0 where
  pub registry : GroupRegistry
  pub registered : register_in_registry t.registry c ≡ ok registry
  pub generated : register_auto_tools (record t { registry = registry }) c ≡ ok t'

module _ (t t' : ToolSet) (c : GroupConfig) where
  finish_group-err :
      (r : GroupRegistry) (made : Result Error ToolSet) (e : Error)
      → IsWellFormed t.registry
      → register_in_registry t.registry c ≡ ok r
      → finish_group t c r made ≡ (t', err e)
      → t' ≡ t
  finish_group-err r (ok u) e w a h = absurd (ground arith)
  finish_group-err r (err x) e w a h = ground (arith, unregister-register_group t.registry r c w a)

  add_group-err :
      (made : Result Error GroupRegistry) (e : Error)
      → IsWellFormed t.registry
      → (validate_group_path c.name >> register_in_registry t.registry c) ≡ made
      → add_group t c made ≡ (t', err e)
      → t' ≡ t
  add_group-err (err x) e w a h = ground arith
  add_group-err (ok r) e w a h =
      let (u, valid, made) = >>=-eq-ok (validate_group_path c.name) _ a in
      finish_group-err r (register_auto_tools (record t { registry = r }) c) e w made h

-- A failed registration of a group, also one whose generated tools clash with a tool that is
-- there, leaves the tool set exactly as it was, if the registry was well formed.
pub register_group-err :
    (t t' : ToolSet) (c : GroupConfig) (e : Error)
    → IsWellFormed t.registry
    → register_group t c ≡ (t', err e)
    → t' ≡ t
unfolding register_group
register_group-err t t' c e w h =
    add_group-err t t' c (validate_group_path c.name >> register_in_registry t.registry c) e w refl
      h

-- No tool has the name of an entry.
abbrev AreFree : Entries → Entries → Type 0
AreFree tools entries = All (λ entry. get entry.0 tools ≡ none) entries

abbrev activate_name : GroupConfig → Text
activate_name c = qualified_name c.name (text "activate")

abbrev deactivate_name : GroupConfig → Text
deactivate_name c = qualified_name c.name (text "deactivate")

-- The tool set after a group was registered.
pub record Grouped (t t' : ToolSet) (c : GroupConfig) : Type 0 where
  pub well_formed : IsWellFormed t'.registry
  pub inactive : get c.name t'.registry.groups ≡ some (initial_state c)
  pub activates : call_tool t' (qualified_name c.name (text "activate")) ≡ ok (activate c.name)
  pub deactivates :
      c.show_deactivator ≡ true
      → call_tool t' (qualified_name c.name (text "deactivate")) ≡ ok (deactivate c.name)
  pub kept : (k : Text) (old : ToolEntry) → get k t.tools ≡ some old → get k t'.tools ≡ some old
