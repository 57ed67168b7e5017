-- ===== src/Toolset/Tools.antt =====
-- toolset.rs: registering tools and groups with their generated tools, and finding a handler.
pub mod Entries
pub mod Groups
pub mod Tests
use tmcp.Base.{
  zero, suc, ◌+◌, Bool, true, false, not, Option, none, some, List, [], ◌∷◌, ◌++◌, map, arith,
  if◌then◌else◌, is_empty, Eq, ◌==◌, nat_eq, Text, text, text_eq, Result, ok, err, ◌>>=◌, ◌>>◌,
  ok_or,
}
use mathlib.Core.Option
use tmcp.Base.Map.{get, contains_key, insert, remove}
use tmcp.Errors.{Error, invalid_configuration, tool_not_found}
use tmcp.Toolset.Names.{split_tool_name, qualified_name, validate_group_path}
use tmcp.Toolset.Registry.{
  Snapshot, GroupConfig, GroupRegistry, snapshot, ensure_group_exists, unregister_group,
  register_group as register_in_registry,
}
use tmcp.Toolset.State.{
  Tool, ToolHandler, activate, deactivate, Visibility, always, group, when, is_visible, ToolOrigin,
  auto_group, explicit, ToolEntry, ToolSet,
}

-- `group_path != Some(group_name)`
abbrev is_group_path : Option Text → Text → Bool
is_group_path none name = false
is_group_path (some path) name = path == name

abbrev ensure_path_exists : GroupRegistry → Option Text → Result Error (Unit {0})
ensure_path_exists r none = ok tt
ensure_path_exists r (some path) = ensure_group_exists r path

abbrev check_visibility : GroupRegistry → Text → Option Text → Visibility → Result Error (Unit {0})
check_visibility r name path (group g) =
    if is_group_path path g
    then ensure_group_exists r g
    else err (
        invalid_configuration
          (text "tool '" ++ name ++ text "' must be prefixed with group '" ++ g ++ text "'"))
check_visibility r name path _ = ensure_path_exists r path

unfoldable pub validate_tool_registration :
    GroupRegistry → Text → Visibility → Result Error (Unit {0})
validate_tool_registration r name visibility = do
  parts ← split_tool_name name
  check_visibility r name parts.0 visibility

-- An explicit tool may replace a generated one; nothing else may be replaced.
abbrev pub may_replace : ToolOrigin → ToolOrigin → Bool
may_replace auto_group explicit = true
may_replace _ _ = false

-- `if !b { return Err(e) }`
abbrev pub guard : Bool → Error → Result Error (Unit {0})
guard true e = ok tt
guard false e = err e

abbrev pub is_taken : Option ToolEntry → ToolOrigin → Bool
is_taken none origin = false
is_taken (some existing) origin = not (may_replace existing.origin origin)

unfoldable pub register_entry :
    ToolSet → Text → Tool → Visibility → Option ToolHandler → ToolOrigin → Result Error ToolSet
register_entry t name tool visibility handler origin = do
  validate_tool_registration t.registry name visibility
  guard (not (is_taken (get name t.tools) origin))
      (invalid_configuration (text "tool already registered: " ++ name))
  ok (record t {
    tools =
        insert name
          (record {
            tool = record tool { name = name };
            visibility = visibility;
            handler = handler;
            origin = origin;
          })
          t.tools;
  })

unfoldable pub unregister : ToolSet → Text → ToolSet × Option Tool
unregister t name =
    (record t { tools = remove name t.tools }, Option.map (λ entry. entry.tool) (get name t.tools))

abbrev pub activation_tool : Text → Text → Bool → Tool
activation_tool name description activates = record {
  name = name;
  description =
      if is_empty description
      then none
      else some ((if activates then text "Activate " else text "Deactivate ") ++ description);
  other = 0;
}

abbrev auto_entry : Text → Text → Bool → ToolHandler → Text × ToolEntry
auto_entry name description activates handler = (
  name,
  record {
    tool = activation_tool name description activates;
    visibility = always;
    handler = some handler;
    origin = auto_group;
  },
)

-- The generated tools of a group.
unfoldable pub auto_entries : GroupConfig → List (Text × ToolEntry)
auto_entries c =
    auto_entry (qualified_name c.name (text "activate")) c.description true (activate c.name)
    ∷ (if c.show_deactivator
        then auto_entry (qualified_name c.name (text "deactivate")) c.description false
            (deactivate c.name)
          ∷ []
        else [])

unfoldable pub validate_entries : GroupRegistry → List (Text × ToolEntry) → Result Error (Unit {0})
validate_entries r [] = ok tt
validate_entries r ((name, entry) ∷ rest) = do
  validate_tool_registration r name entry.visibility
  validate_entries r rest

unfoldable pub check_free :
    List (Text × ToolEntry) → List (Text × ToolEntry) → Result Error (Unit {0})
check_free tools [] = ok tt
check_free tools ((name, entry) ∷ rest) =
    if contains_key name tools
    then err (invalid_configuration (text "tool already registered: " ++ name))
    else check_free tools rest

unfoldable pub insert_all :
    List (Text × ToolEntry) → List (Text × ToolEntry) → List (Text × ToolEntry)
insert_all [] tools = tools
insert_all ((name, entry) ∷ rest) tools = insert_all rest (insert name entry tools)

unfoldable pub register_auto_tools : ToolSet → GroupConfig → Result Error ToolSet
register_auto_tools t c = do
  validate_entries t.registry (auto_entries c)
  check_free t.tools (auto_entries c)
  ok (record t { tools = insert_all (auto_entries c) t.tools })

-- The state after the call, and its result: a failure of the generated tools takes the group back.
abbrev finish_group :
    ToolSet → GroupConfig → GroupRegistry → Result Error ToolSet → ToolSet × Result Error (Unit {0})
finish_group t c r (ok t') = (t', ok tt)
finish_group t c r (err e) = (record t { registry = unregister_group r c.name }, err e)

abbrev add_group :
    ToolSet → GroupConfig → Result Error GroupRegistry → ToolSet × Result Error (Unit {0})
add_group t c (err e) = (t, err e)
add_group t c (ok r) = finish_group t c r (register_auto_tools (record t { registry = r }) c)

unfoldable pub register_group : ToolSet → GroupConfig → ToolSet × Result Error (Unit {0})
register_group t c = add_group t c (validate_group_path c.name >> register_in_registry t.registry c)

-- The handler of a tool that is visible now: `none` inside for a tool that has no dynamic handler.
unfoldable pub visible_handler : ToolSet → Text → Result Error (Option ToolHandler)
visible_handler t name = elim (get name t.tools) [
  | none ↦ err (tool_not_found name)
  | some entry ↦
      if is_visible entry.visibility (snapshot t.registry.groups)
      then ok entry.handler
      else err (tool_not_found name)
]

-- `call_tool`: the handler that it runs on the arguments, or the error.
unfoldable pub call_tool : ToolSet → Text → Result Error ToolHandler
call_tool t name = do handler ← visible_handler t name; ok_or handler (tool_not_found name)
