-- ===== src/Toolset/Changes/Flags.antt =====
-- What the changes do to the active flags, and what they leave alone.
use tmcp.Base.{
  ℕ, zero, suc, ◌<◌, ◌≡◌, refl, ◌∙◌, inl, inr, Bool, true, false, ◌&&◌, not, Option, none, some,
  List, [], ◌∷◌, arith, if◌then◌else◌, Bool-cases, Option-cases, is_some, length, All, nat_eq, mem,
  Text, text_eq,
}
use mathlib.Core.Option
use tmcp.Base.Map.{
  get, contains_key, modify, get-modify, get-map_values, modify-HasDistinctKeys, All-modify,
  All-get,
}
use tmcp.Toolset.Registry.{GroupState, Groups, snapshot, snapshot_state, is_group_active_snapshot}
use tmcp.Toolset.Registry.Walk.{
  IsEffective, root, under, is_group_active_snapshot_iff, IsEffectiveAt-get,
}
use tmcp.Toolset.Registry.Nesting.{IsLinked, IsNested, All-map, IsNested-Grows}
use tmcp.Toolset.Registry.Descendants.{Grows}
use tmcp.Toolset.Changes.{set_active, deactivate_all, is_active_state, Snapshot}

-- The flag of a group, without its parents.
abbrev pub flag : Groups → Text → Bool
flag groups name = is_active_state (get name groups)

map-set_active_twice :
    (o : Option GroupState)
    → Option.map (set_active false) (Option.map (set_active false) o)
      ≡ Option.map (set_active false) o
map-set_active_twice none = refl
map-set_active_twice (some s) = refl

pub get-deactivate_all :
    (j : Text) (names : List Text) (groups : Groups)
    → get j (deactivate_all names groups)
      ≡ (if mem j names then Option.map (set_active false) (get j groups) else get j groups)
unfolding deactivate_all mem
get-deactivate_all j [] groups = refl
get-deactivate_all j (n ∷ names) groups = ground (
  arith,
  get-deactivate_all j names (modify n (set_active false) groups),
  get-modify n j (set_active false) groups,
  map-set_active_twice (get j groups),
)

flag_of_map :
    (b : Bool) (o : Option GroupState)
    → is_active_state (Option.map (set_active b) o) ≡ (b && is_some o)
flag_of_map b none = ground arith
flag_of_map b (some s) = ground arith

pub flag-deactivate_all :
    (j : Text) (names : List Text) (groups : Groups)
    → flag (deactivate_all names groups) j ≡ (flag groups j && not (mem j names))
flag-deactivate_all j names groups =
    ground (arith, get-deactivate_all j names groups, flag_of_map false (get j groups))

-- A change of flags: the same names with the same parents, in a registry that is well formed.
pub record SameShape (groups groups' : Groups) : Type 0 where
  pub nested : IsNested groups'
  pub keys : (j : Text) → contains_key j groups' ≡ contains_key j groups
  pub parents :
      (j : Text) (s' : GroupState)
      → get j groups' ≡ some s'
      → (s : GroupState) × (get j groups ≡ some s) × (s'.parent ≡ s.parent)

pub SameShape-refl : (groups : Groups) → IsNested groups → SameShape groups groups
SameShape-refl groups h = record { nested = h; keys = λ j. refl; parents = λ j s e. (s, e, refl) }

pub SameShape-trans : {a b c : Groups} → SameShape a b → SameShape b c → SameShape a c
SameShape-trans h k = record {
  nested = k.nested;
  keys = λ j. k.keys j ∙ h.keys j;
  parents =
      λ j s e. let (t, f, p) = k.parents j s e in let (u, g, q) = h.parents j t f in (u, g, p ∙ q);
}

contains_key-modify :
    (k j : Text) (b : Bool) (groups : Groups)
    → contains_key j (modify k (set_active b) groups) ≡ contains_key j groups
contains_key-modify k j b groups = ground (arith, get-modify k j (set_active b) groups)

modify-parent :
    (k j : Text) (b : Bool) (groups : Groups) (s' : GroupState)
    → get j (modify k (set_active b) groups) ≡ some s'
    → (s : GroupState) × (get j groups ≡ some s) × (s'.parent ≡ s.parent)
modify-parent k j b groups s' e = elim (Option-cases (get j groups)) [
  | inl f ↦ absurd (ground (arith, get-modify k j (set_active b) groups))
  | inr (s, f) ↦ (s, f, ground (arith, get-modify k j (set_active b) groups))
]

pub modify-SameShape :
    (k : Text) (b : Bool) (groups : Groups)
    → IsNested groups
    → SameShape groups (modify k (set_active b) groups)
modify-SameShape k b groups h = record {
  nested = record {
    distinct = modify-HasDistinctKeys k (set_active b) groups h.distinct;
    linked =
        All-modify (IsLinked (modify k (set_active b) groups)) k (set_active b) groups
          (λ j v link. link)
          (All-map (IsLinked groups) (IsLinked (modify k (set_active b) groups)) groups
            (λ entry link p e. (contains_key-modify k p b groups ∙ (link p e).0, (link p e).1))
            h.linked);
  };
  keys = λ j. contains_key-modify k j b groups;
  parents = λ j s e. modify-parent k j b groups s e;
}

pub deactivate_all-SameShape :
    (names : List Text) (groups : Groups)
    → IsNested groups
    → SameShape groups (deactivate_all names groups)
unfolding deactivate_all
deactivate_all-SameShape [] groups h = SameShape-refl groups h
deactivate_all-SameShape (n ∷ names) groups h =
    let first = modify-SameShape n false groups h in
    SameShape-trans first (deactivate_all-SameShape names _ first.nested)

-- An active group has an active parent.
abbrev pub IsClosed : Groups → Type 0
IsClosed groups =
    (name : Text) (s : GroupState) (p : Text)
    → get name groups ≡ some s
    → s.active ≡ true
    → s.parent ≡ some p
    → flag groups p ≡ true

flag-state :
    (groups : Groups) (name : Text)
    → flag groups name ≡ true
    → (s : GroupState) × (get name groups ≡ some s) × (s.active ≡ true)
flag-state groups name h = elim (Option-cases (get name groups)) [
  | inl e ↦ absurd (ground arith)
  | inr (s, e) ↦ (s, e, ground arith)
]

pub get-snapshot :
    (groups : Groups) (name : Text)
    → get name (snapshot groups) ≡ Option.map snapshot_state (get name groups)
get-snapshot groups name = get-map_values name snapshot_state groups

flag-IsEffective :
    (size : ℕ) (groups : Groups) (name : Text)
    → length name < size
    → All Grows groups
    → IsClosed groups
    → flag groups name ≡ true
    → IsEffective (snapshot groups) name
flag-IsEffective zero groups name b g c h = absurd (omega arith)
flag-IsEffective (suc size) groups name b g c h =
    let (s, e, on) = flag-state groups name h in
    let found : get name (snapshot groups) ≡ some (snapshot_state s) =
      ground (arith, get-snapshot groups name) in
    elim (Option-cases s.parent) [
      | inl top ↦ (0, root (snapshot_state s) found on top)
      | inr (p, q) ↦
          let shorter = All-get Grows name s groups g e p q in
          let (k, d) = flag-IsEffective size groups p (omega arith) g c (c name s p e on q) in
          (suc k, under (snapshot_state s) found on q d)
    ]

-- Where every active group has an active parent, a group's own flag is the whole answer.
pub is_group_active_snapshot-flag :
    (groups : Groups) (name : Text)
    → IsNested groups
    → IsClosed groups
    → is_group_active_snapshot (snapshot groups) name ≡ flag groups name
is_group_active_snapshot-flag groups name h c =
    let iff = is_group_active_snapshot_iff (snapshot groups) name in
    elim (Bool-cases (flag groups name)) [
      | inl on ↦ rw on (
          iff.1 (
            flag-IsEffective (suc (length name)) groups name (omega arith) (IsNested-Grows groups h)
              c on))
      | inr off ↦ rw off (
          false_of_not (λ active.
            effective_flag (snapshot groups) groups name (get-snapshot groups name) off
              (iff.0 active)))
    ]
  where
    false_of_not : {b : Bool} → ¬ (b ≡ true) → b ≡ false
    false_of_not {b} n = elim (Bool-cases b) [ inl t ↦ absurd (n t) | inr f ↦ f ]

    effective_flag :
        (snap : Snapshot) (groups : Groups) (name : Text)
        → get name snap ≡ Option.map snapshot_state (get name groups)
        → flag groups name ≡ false
        → IsEffective snap name
        → ⊥
    effective_flag snap groups name same off (k, d) =
        let (s, e, on) = IsEffectiveAt-get d in ground arith
