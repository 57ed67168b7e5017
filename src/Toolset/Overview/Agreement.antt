-- ===== src/Toolset/Overview/Agreement.antt =====
-- What the overview of the groups says of the tool set.
use tmcp.Base.{
  ℕ, ◌+◌, ◌≡◌, refl, sym, ap, ◌∙◌, subst, inl, inr, Bool, false, Option, none, some, List, [], ◌∷◌,
  map, arith, if◌then◌else◌, Bool-cases, All, ◌==◌, nat_eq, ==_self, Text, text_beq_iff, text_eq,
}
use tmcp.Base.Map.{get, get-insert, HasDistinctKeys}
use tmcp.Toolset.Names.{tool_group_name}
use tmcp.Toolset.Registry.{GroupState, Groups, is_active}
use tmcp.Toolset.Registry.Nesting.{IsWellFormed, All-map}
use tmcp.Toolset.State.{ToolEntry, ToolSet}
use tmcp.Toolset.Changes.Flags.{IsClosed, is_group_active_snapshot-flag}
use tmcp.Toolset.Changes.{is_active_state}
use tmcp.Toolset.Listing.{text_leb}
use tmcp.Toolset.Overview.{
  GroupInfo, or_zero, count_of, count_group, count_groups, group_tool_counts, group_info,
  insert_info, sort_infos, list_groups,
}

-- The tools whose names are in the group.
abbrev pub is_in_group : Text → Option Text → Bool
is_in_group group none = false
is_in_group group (some other) = other == group

unfoldable pub tools_in_group : Text → List (Text × ToolEntry) → ℕ
tools_in_group group [] = 0
tools_in_group group ((name, entry) ∷ rest) =
    (if is_in_group group (tool_group_name name) then 1 else 0) + tools_in_group group rest

count_of-count_group :
    (group : Text) (o : Option Text) (counts : List (Text × ℕ))
    → count_of group (count_group o counts)
      ≡ (if is_in_group group o then 1 else 0) + count_of group counts
count_of-count_group group none counts = omega arith
count_of-count_group group (some other) counts =
    ap or_zero (get-insert other group (count_of other counts + 1) counts)
    ∙ elim (Bool-cases (other == group)) [
      | inl same ↦ rw same (
          subst (λ g. count_of other counts + 1 ≡ 1 + count_of g counts)
            ((text_beq_iff other group).0 same) (omega arith))
      | inr apart ↦ rw apart (omega arith)
    ]

count_of-count_groups :
    (group : Text) (tools : List (Text × ToolEntry)) (counts : List (Text × ℕ))
    → count_of group (count_groups tools counts)
      ≡ tools_in_group group tools + count_of group counts
unfolding count_groups tools_in_group
count_of-count_groups group [] counts = omega arith
count_of-count_groups group ((name, entry) ∷ rest) counts =
    count_of-count_groups group rest (count_group (tool_group_name name) counts)
    ∙ ap (λ n. tools_in_group group rest + n)
        (count_of-count_group group (tool_group_name name) counts)
    ∙ omega arith

All-insert_info :
    (P : GroupInfo → Type 0) (x : GroupInfo) (l : List GroupInfo)
    → P x
    → All P l
    → All P (insert_info x l)
unfolding insert_info
All-insert_info P x [] p h = (p, tt)
All-insert_info P x (y ∷ ys) p h = elim (Bool-cases (text_leb x.name y.name)) [
  | inl first ↦ rw first (p, h)
  | inr later ↦ rw later (h.0, All-insert_info P x ys p h.1)
]

All-sort_infos : (P : GroupInfo → Type 0) (l : List GroupInfo) → All P l → All P (sort_infos l)
unfolding sort_infos
All-sort_infos P [] h = tt
All-sort_infos P (x ∷ l) h = All-insert_info P x (sort_infos l) h.0 (All-sort_infos P l h.1)

own_entries :
    (groups : Groups) → HasDistinctKeys groups → All (λ e. get e.0 groups ≡ some e.1) groups
unfolding get
own_entries [] d = tt
own_entries ((k, s) ∷ rest) d = (
  rw (==_self k) refl,
  All-map (λ e. get e.0 rest ≡ some e.1) _ rest
      (λ e found. elim (Bool-cases (k == e.0)) [
        | inr other ↦ rw other found
        | inl same ↦
            let absent = subst (λ x. get x rest ≡ none) ((text_beq_iff k e.0).0 same) d.0 in
            absurd (let h = sym absent ∙ found in cc)
      ])
      (own_entries rest d.1),
)

All-mapped :
    (P : GroupInfo → Type 0) (f : Text × GroupState → GroupInfo) (l : Groups)
    → All (λ e. P (f e)) l
    → All P (map f l)
All-mapped P f [] h = tt
All-mapped P f (x ∷ l) h = (h.0, All-mapped P f l h.1)

-- The overview tells of each group whether it is active, as the visibility of its tools sees it,
-- and how many tools have a name in it, if the registry is well formed and the parent of every
-- active group is active.
list_groups-is_active :
    (t : ToolSet)
    → IsWellFormed t.registry
    → IsClosed t.registry.groups
    → All
        (λ info.
          (info.active ≡ is_active t.registry info.name)
          × (info.tool_count ≡ tools_in_group info.name t.tools))
        (list_groups t)
unfolding list_groups group_tool_counts
list_groups-is_active t w c =
    let groups = t.registry.groups in
    let counts = group_tool_counts t in
    All-sort_infos _ (map (group_info counts) groups) (
      All-mapped _ (group_info counts) groups (
        All-map (λ e. get e.0 groups ≡ some e.1) _ groups
          (λ e found. (
            unfold is_active in
                sym
                  (is_group_active_snapshot-flag groups e.0 w.nested c ∙ ap is_active_state found),
            count_of-count_groups e.0 t.tools [] ∙ (unfold get in omega arith),
          ))
          (own_entries groups w.nested.distinct)))
