-- ===== src/Toolset/Overview.antt =====
-- toolset.rs: `list_groups`, with the number of tools of each group.
pub mod Agreement
use tmcp.Base.{
  ℕ, zero, suc, ◌+◌, Bool, true, false, Option, none, some, List, [], ◌∷◌, map, arith,
  if◌then◌else◌, Eq, ◌==◌, nat_eq, Text, text_eq, ◌>>=◌, ◌>>◌,
}
use tmcp.Base.Map.{get, insert}
use tmcp.Toolset.Names.{tool_group_name}
use tmcp.Toolset.Registry.{GroupState, Groups, GroupRegistry}
use tmcp.Toolset.State.{ToolEntry, ToolSet}
use tmcp.Toolset.Listing.{text_leb}

pub record GroupInfo : Type 0 where
  pub name : Text
  pub description : Text
  pub active : Bool
  pub parent : Option Text
  pub tool_count : ℕ

-- `*counts.get(name).unwrap_or(&0)`
abbrev pub or_zero : Option ℕ → ℕ
or_zero none = 0
or_zero (some n) = n

abbrev pub count_of : Text → List (Text × ℕ) → ℕ
count_of group counts = or_zero (get group counts)

-- `*counts.entry(group).or_insert(0) += 1`
abbrev pub count_group : Option Text → List (Text × ℕ) → List (Text × ℕ)
count_group none counts = counts
count_group (some group) counts = insert group (count_of group counts + 1) counts

unfoldable pub count_groups : List (Text × ToolEntry) → List (Text × ℕ) → List (Text × ℕ)
count_groups [] counts = counts
count_groups ((name, entry) ∷ rest) counts =
    count_groups rest (count_group (tool_group_name name) counts)

unfoldable pub group_tool_counts : ToolSet → List (Text × ℕ)
unfolding count_groups
group_tool_counts t = count_groups t.tools []

abbrev pub group_info : List (Text × ℕ) → Text × GroupState → GroupInfo
group_info counts (name, state) = record {
  name = name;
  description = state.description;
  active = state.active;
  parent = state.parent;
  tool_count = count_of name counts;
}

-- A stable sort by name.
unfoldable pub insert_info : GroupInfo → List GroupInfo → List GroupInfo
insert_info x [] = x ∷ []
insert_info x (y ∷ ys) =
    let later = insert_info x ys in if text_leb x.name y.name then x ∷ y ∷ ys else y ∷ later

unfoldable pub sort_infos : List GroupInfo → List GroupInfo
unfolding insert_info
sort_infos [] = []
sort_infos (x ∷ xs) = insert_info x (sort_infos xs)

unfoldable pub list_groups : ToolSet → List GroupInfo
unfolding sort_infos
list_groups t = sort_infos (map (group_info (group_tool_counts t)) t.registry.groups)
