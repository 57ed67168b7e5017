-- ===== src/Toolset/Registry/Nesting.antt =====
-- The shape that registration keeps: distinct names, and each group's parent is registered under
-- the path above the group's own.
use tmcp.Base.{
  ◌≡◌, true, some, List, [], ◌∷◌, ◌++◌, arith, length-append, All, nat_eq, Text, text, text_eq,
  starts_with, length-starts_with, ok, none, Option-cases, subst, sym, inr, insert_new, Bool-cases,
  mem, filter, inl, ltb, false, not, >>=-eq-ok, All-append, length, text_beq_iff, ap, refl,
}
use tmcp.Base.Map.{
  contains_key, insert, HasDistinctKeys, get-insert, insert-HasDistinctKeys, get, All-insert,
  remove-insert,
}
use tmcp.Toolset.Registry.{
  GroupState, Groups, GroupConfig, GroupRegistry, check_parent, initial_state, register_group,
  exclusion_entries, register_exclusion, unregister_group,
}
use tmcp.Toolset.Registry.Descendants.{Grows}

abbrev pub IsLinked : Groups → Text × GroupState → Type 0
IsLinked groups (name, s) =
    (p : Text)
    → s.parent ≡ some p
    → (contains_key p groups ≡ true) × (starts_with (p ++ text ".") name ≡ true)

pub record IsNested (groups : Groups) : Type 0 where
  pub distinct : HasDistinctKeys groups
  pub linked : All (IsLinked groups) groups

-- Exclusion sets name registered groups.
abbrev pub AreKnown : Groups → List Text → Type 0
AreKnown groups names = All (λ g. contains_key g groups ≡ true) names

pub record IsWellFormed (r : GroupRegistry) : Type 0 where
  pub nested : IsNested r.groups
  pub known : All (AreKnown r.groups) r.exclusions

pub All-map {ℓ} :
    {A : Type ℓ} (P Q : A → Type 0) (xs : List A) → ((x : A) → P x → Q x) → All P xs → All Q xs
All-map P Q [] f h = tt
All-map P Q (x ∷ xs) f h = (f x h.0, All-map P Q xs f h.1)

pub IsNested-Grows : (groups : Groups) → IsNested groups → All Grows groups
IsNested-Grows groups h =
    All-map (IsLinked groups) Grows groups
      (λ entry link p e. omega (
        arith,
        length-starts_with (p ++ text ".") entry.0 (link p e).1,
        length-append p (text "."),
      ))
      h.linked

contains_key-insert :
    (k j : Text) (s : GroupState) (groups : Groups)
    → contains_key j groups ≡ true
    → contains_key j (insert k s groups) ≡ true
contains_key-insert k j s groups h = ground (arith, get-insert k j s groups)

check_parent-IsLinked :
    (groups : Groups) (c : GroupConfig)
    → check_parent groups c.name c.parent ≡ ok tt
    → IsLinked groups (c.name, initial_state c)
unfolding check_parent
check_parent-IsLinked groups c e p same = ground arith

IsLinked-insert :
    (groups : Groups) (c : GroupConfig)
    → check_parent groups c.name c.parent ≡ ok tt
    → IsNested groups
    → IsNested (insert c.name (initial_state c) groups)
IsLinked-insert groups c e h = record {
  distinct = insert-HasDistinctKeys c.name (initial_state c) groups h.distinct;
  linked =
      All-map (IsLinked groups) (IsLinked (insert c.name (initial_state c) groups))
        (insert c.name (initial_state c) groups)
        (λ entry link p same.
          (contains_key-insert c.name p (initial_state c) groups (link p same).0, (link p same).1))
        (All-insert (IsLinked groups) c.name (initial_state c) groups h.linked
          (check_parent-IsLinked groups c e));
}

AreKnown-insert :
    (k : Text) (s : GroupState) (groups : Groups) (sets : List (List Text))
    → All (AreKnown groups) sets
    → All (AreKnown (insert k s groups)) sets
AreKnown-insert k s groups sets h =
    All-map (AreKnown groups) (AreKnown (insert k s groups)) sets
      (λ names known.
        All-map (λ g. contains_key g groups ≡ true) (λ g. contains_key g (insert k s groups) ≡ true)
          names (λ g. contains_key-insert k g s groups) known)
      h

-- What a registration that succeeds has checked, and the registry that it makes.
pub record Registers (r : GroupRegistry) (c : GroupConfig) (r' : GroupRegistry) : Type 0 where
  pub fresh : get c.name r.groups ≡ none
  pub placed : check_parent r.groups c.name c.parent ≡ ok tt
  pub added : r' ≡ record r { groups = insert c.name (initial_state c) r.groups }

pub register_group-Registers :
    (r r' : GroupRegistry) (c : GroupConfig) → register_group r c ≡ ok r' → Registers r c r'
unfolding register_group
register_group-Registers r r' c e = elim (Option-cases (get c.name r.groups)) [
  | inr (s, f) ↦ absurd (ground arith)
  | inl f ↦
      let e' = rw (f, register_group) at e in
      let (u, placed, added) = >>=-eq-ok (check_parent r.groups c.name c.parent) _ e' in
      record { fresh = f; placed = placed; added = cc }
]

-- Registering a group keeps the registry well formed: distinct names, each parent registered and
-- a path above its child, exclusion sets of registered names.
pub register_group-IsWellFormed :
    (r r' : GroupRegistry) (c : GroupConfig)
    → IsWellFormed r
    → register_group r c ≡ ok r'
    → IsWellFormed r'
register_group-IsWellFormed r r' c w e =
    let g = register_group-Registers r r' c e in
    subst IsWellFormed (sym g.added) (record {
      nested = IsLinked-insert r.groups c g.placed w.nested;
      known = AreKnown-insert c.name (initial_state c) r.groups r.exclusions w.known;
    })

AreKnown-insert_new :
    (groups : Groups) (name : Text) (entries : List Text)
    → contains_key name groups ≡ true
    → AreKnown groups entries
    → AreKnown groups (insert_new name entries)
unfolding insert_new
AreKnown-insert_new groups name entries known k = elim (Bool-cases (mem name entries)) [
  | inl old ↦ rw (old, insert_new) k
  | inr new ↦
      rw (new, insert_new)
        (All-append (λ g. contains_key g groups ≡ true) entries (name ∷ []) k (known, tt))
]

exclusion_entries-AreKnown :
    (groups : Groups) (entries names result : List Text)
    → AreKnown groups entries
    → exclusion_entries groups entries names ≡ ok result
    → AreKnown groups result
unfolding exclusion_entries
exclusion_entries-AreKnown groups entries [] result k e = subst (AreKnown groups) (ground arith) k
exclusion_entries-AreKnown groups entries (name ∷ names) result k e =
    elim (Bool-cases (contains_key name groups)) [
      | inr absent ↦ absurd (let h = rw (absent, exclusion_entries) at e in cc)
      | inl known ↦
          exclusion_entries-AreKnown groups (insert_new name entries) names result
            (AreKnown-insert_new groups name entries known k) (rw (known, exclusion_entries) at e)
    ]

-- Registering an exclusion set keeps the registry well formed: distinct names, each parent
-- registered and a path above its child, exclusion sets of registered names.
register_exclusion-IsWellFormed :
    (r r' : GroupRegistry) (names : List Text)
    → IsWellFormed r
    → register_exclusion r names ≡ ok r'
    → IsWellFormed r'
unfolding register_exclusion
register_exclusion-IsWellFormed r r' names w e = elim (Bool-cases (ltb (length names) 2)) [
  | inl few ↦ absurd (let h = rw (few, register_exclusion) at e in cc)
  | inr enough ↦
      let e' = rw (enough, register_exclusion) at e in
      let (entries, found, made) = >>=-eq-ok (exclusion_entries r.groups [] names) _ e' in
      let same : record r { exclusions = r.exclusions ++ entries ∷ [] } ≡ r' = cc in
      subst IsWellFormed same (record {
        nested = w.nested;
        known =
            All-append (AreKnown r.groups) r.exclusions (entries ∷ []) w.known
              (exclusion_entries-AreKnown r.groups [] names entries tt found, tt);
      })
]

mem-AreKnown :
    (k : Text) (groups : Groups) (names : List Text)
    → get k groups ≡ none
    → AreKnown groups names
    → mem k names ≡ false
unfolding mem
mem-AreKnown k groups [] absent h = refl
mem-AreKnown k groups (n ∷ names) absent h =
    ground (arith, text_beq_iff n k, mem-AreKnown k groups names absent h.1)

filter-without :
    (k : Text) (groups : Groups) (sets : List (List Text))
    → get k groups ≡ none
    → All (AreKnown groups) sets
    → filter (λ exclusion. not (mem k exclusion)) sets ≡ sets
filter-without k groups [] absent h = refl
filter-without k groups (names ∷ sets) absent h =
    rw (mem-AreKnown k groups names absent h.0)
      (ap (◌∷◌ names) (filter-without k groups sets absent h.1))

-- Taking back a group that was just registered in a well-formed registry gives the registry as it
-- was.
pub unregister-register_group :
    (r r' : GroupRegistry) (c : GroupConfig)
    → IsWellFormed r
    → register_group r c ≡ ok r'
    → unregister_group r' c.name ≡ r
unfolding unregister_group
unregister-register_group r r' c w e =
    let g = register_group-Registers r r' c e in
    rw (g.added, remove-insert c.name (initial_state c) r.groups g.fresh)
      (λ i. record {
        groups = r.groups;
        exclusions = filter-without c.name r.groups r.exclusions g.fresh w.known i;
      })
