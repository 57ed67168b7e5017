-- ===== src/Toolset/State.antt =====
-- toolset.rs: the tool set, its entries and their visibility.
use tmcp.Base.{ℕ, Bool, true, Option, List, nat_eq, Text, text_eq}
use tmcp.Toolset.Registry.{Snapshot, GroupRegistry, is_group_active_snapshot}

-- A handler is a closure that the user registers: a number stands for the shared pointer to it.
-- The handlers that a group generates are named by what they do.
pub data ToolHandler : Type 0 where
  user : ℕ → ToolHandler
  activate deactivate : Text → ToolHandler

-- The part of a tool that this code reads or writes; `other` stands for its remaining fields, with
-- 0 for those of `Tool::new` over the default schema.
pub record Tool : Type 0 where
  pub name : Text
  pub description : Option Text
  pub other : ℕ

-- A predicate sees the groups through `ToolSetView::is_group_active` alone.
pub data Visibility : Type 0 where
  always : Visibility
  group : Text → Visibility
  when : ((Text → Bool) → Bool) → Visibility

unfoldable pub is_visible : Visibility → Snapshot → Bool
is_visible always view = true
is_visible (group name) view = is_group_active_snapshot view name
is_visible (when predicate) view = predicate (is_group_active_snapshot view)

pub data ToolOrigin : Type 0 where
  auto_group explicit : ToolOrigin

pub record ToolEntry : Type 0 where
  pub tool : Tool
  pub visibility : Visibility
  pub handler : Option ToolHandler
  pub origin : ToolOrigin

pub record ToolSet : Type 0 where
  pub tools : List (Text × ToolEntry)
  pub registry : GroupRegistry
