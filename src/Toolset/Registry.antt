-- ===== src/Toolset/Registry.antt =====
-- toolset.rs: the group registry (`GroupRegistry` behind `ToolGroups`), its snapshot, the test
-- whether a group is active, and the descendants of a group.
-- A hook is a closure that the user registers: a number stands for the shared pointer to it.
-- `HashMap` is an association list, so a theorem for every list covers every iteration order.
pub mod Walk
pub mod Nesting
pub mod Descendants
pub mod Tests
use tmcp.Base.{
  ℕ, zero, suc, ◌+◌, Bool, true, false, not, Option, none, some, List, [], ◌∷◌, ◌++◌, arith, ltb,
  if◌then◌else◌, length, filter, Eq, ◌==◌, nat_eq, mem, insert_new, Text, text, text_eq,
  starts_with, Result, ok, err, ◌>>=◌, ◌>>◌,
}
use tmcp.Base.Map.{get, contains_key, insert, remove, map_values}
use tmcp.Errors.{Error, invalid_configuration, group_not_found}

abbrev pub Hook : Type 0
Hook = ℕ

pub record GroupConfig : Type 0 where
  pub name : Text
  pub description : Text
  pub parent : Option Text
  pub on_activate : Option Hook
  pub on_deactivate : Option Hook
  pub show_deactivator : Bool

pub record GroupState : Type 0 where
  pub description : Text
  pub active : Bool
  pub parent : Option Text
  pub on_activate : Option Hook
  pub on_deactivate : Option Hook

abbrev pub Groups : Type 0
Groups = List (Text × GroupState)

pub record GroupRegistry : Type 0 where
  pub groups : Groups
  pub exclusions : List (List Text)

pub record GroupSnapshot : Type 0 where
  pub active : Bool
  pub parent : Option Text

abbrev pub Snapshot : Type 0
Snapshot = List (Text × GroupSnapshot)

abbrev pub snapshot_state : GroupState → GroupSnapshot
snapshot_state s = record { active = s.active; parent = s.parent }

abbrev pub snapshot : Groups → Snapshot
snapshot groups = map_values snapshot_state groups

-- The checks that a parent is there and is the path above the new name.
unfoldable pub check_parent : Groups → Text → Option Text → Result Error (Unit {0})
check_parent groups name none = ok tt
check_parent groups name (some parent) =
    if contains_key parent groups
    then if starts_with (parent ++ text ".") name
      then ok tt
      else err (
          invalid_configuration (
            text "group '" ++ name ++ text "' must be nested under parent '" ++ parent ++ text "'"))
    else err (group_not_found parent)

abbrev pub initial_state : GroupConfig → GroupState
initial_state c = record {
  description = c.description;
  active = false;
  parent = c.parent;
  on_activate = c.on_activate;
  on_deactivate = c.on_deactivate;
}

unfoldable pub register_group : GroupRegistry → GroupConfig → Result Error GroupRegistry
unfolding check_parent
register_group r c =
    if contains_key c.name r.groups
    then err (invalid_configuration (text "group already registered: " ++ c.name))
    else (do
      check_parent r.groups c.name c.parent
      ok (record r { groups = insert c.name (initial_state c) r.groups }))

unfoldable pub unregister_group : GroupRegistry → Text → GroupRegistry
unregister_group r name = record {
  groups = remove name r.groups;
  exclusions = filter (λ exclusion. not (mem name exclusion)) r.exclusions;
}

-- The loop of `register_exclusion`: every name is registered, and each is kept once.
unfoldable pub exclusion_entries : Groups → List Text → List Text → Result Error (List Text)
exclusion_entries registered entries [] = ok entries
exclusion_entries registered entries (group ∷ rest) =
    let next = exclusion_entries registered (insert_new group entries) rest in
    if contains_key group registered then next else err (group_not_found group)

unfoldable pub register_exclusion : GroupRegistry → List Text → Result Error GroupRegistry
unfolding exclusion_entries
register_exclusion r names =
    if ltb (length names) 2
    then err (invalid_configuration (text "exclusion sets require at least two groups"))
    else (do
      entries ← exclusion_entries r.groups [] names
      ok (record r { exclusions = r.exclusions ++ entries ∷ [] }))

unfoldable pub ensure_group_exists : GroupRegistry → Text → Result Error (Unit {0})
ensure_group_exists r name =
    if contains_key name r.groups then ok tt else err (group_not_found name)

-- The `while let` loop over the parents, with the set of the parents it has seen. `none` means
-- that the fuel ran out.
unfoldable pub parents_active : ℕ → Snapshot → List Text → GroupSnapshot → Option Bool
parents_active zero groups guard current = none
parents_active (suc fuel) groups guard current = elim current.parent [
  | none ↦ some true
  | some parent ↦ elim (mem parent guard) [
    | true ↦ some false
    | false ↦ elim (get parent groups) [
      | none ↦ some false
      | some state ↦ elim state.active [
        | false ↦ some false
        | true ↦ parents_active fuel groups (parent ∷ guard) state
      ]
    ]
  ]
]

-- One round more than there are groups: each round sees a new parent that is registered.
unfoldable pub is_group_active_snapshot : Snapshot → Text → Bool
unfolding parents_active
is_group_active_snapshot groups name = elim (get name groups) [
  | none ↦ false
  | some current ↦ elim current.active [
    | false ↦ false
    | true ↦ elim (parents_active (suc (length groups)) groups [] current) [
      | none ↦ false
      | some answer ↦ answer
    ]
  ]
]

unfoldable pub is_active : GroupRegistry → Text → Bool
is_active r name = is_group_active_snapshot (snapshot r.groups) name

-- `state.parent.as_deref() == Some(root)`
abbrev pub is_child_of : Text → GroupState → Bool
is_child_of root s = elim s.parent [ none ↦ false | some p ↦ p == root ]

unfoldable pub children : Text → Groups → List Text
children root [] = []
children root ((name, s) ∷ groups) =
    let rest = children root groups in if is_child_of root s then name ∷ rest else rest

-- The loop over the children: what is below each comes first, then the child.
unfoldable pub collect_each : (Text → Option (List Text)) → List Text → Option (List Text)
collect_each below [] = some []
collect_each below (name ∷ names) = elim (below name) [
  | none ↦ none
  | some inner ↦ elim (collect_each below names) [
    | none ↦ none
    | some rest ↦ some (inner ++ name ∷ rest)
  ]
]

-- The recursion, to a bounded depth: `none` means that it would go deeper.
unfoldable pub collect_descendants : ℕ → Groups → Text → Option (List Text)
unfolding children collect_each
collect_descendants zero groups root = none
collect_descendants (suc depth) groups root =
    collect_each (collect_descendants depth groups) (children root groups)

-- The longest name bounds the depth, since a child's name is longer than its parent's.
unfoldable pub longest : Groups → ℕ
longest [] = 0
longest ((name, _) ∷ groups) =
    let rest = longest groups in if ltb rest (length name) then length name else rest

unfoldable pub collect_descendants_including_self : Groups → Text → List Text
collect_descendants_including_self groups root =
    elim (collect_descendants (suc (longest groups)) groups root) [
      | none ↦ root ∷ []
      | some below ↦ below ++ root ∷ []
    ]
