-- ===== src/Toolset/Changes/Plans.antt =====
-- What a plan to activate a group pulls down: every other active member of its exclusion sets, with
-- all that stands below.
use tmcp.Base.{
  ◌≡◌, refl, sym, subst, ◌⊎◌, inl, inr, true, false, ◌||◌, List, [], ◌∷◌, arith, if◌then◌else◌,
  Bool-cases, or-true, ◌==◌, nat_eq, mem, insert_new, mem-insert_new, Text, text_beq_iff, text_eq,
}
use mathlib.Core.List.{Memᴰ}
use tmcp.Toolset.Registry.{
  Groups, snapshot, is_group_active_snapshot, collect_descendants_including_self,
}
use tmcp.Toolset.Registry.Descendants.{mem_head, mem_tail}
use tmcp.Toolset.Changes.{exclude_other, add_groups, exclude_others, exclude_sets}

mem-add_groups :
    (n : Text) (found groups : List Text)
    → mem n (add_groups found groups) ≡ (mem n found || mem n groups)
unfolding add_groups mem
mem-add_groups n found [] = ground arith
mem-add_groups n found (g ∷ groups) =
    ground (arith, mem-add_groups n (insert_new g found) groups, mem-insert_new n g found)

module _ (groups : Groups) (name : Text) where
  -- The group `other` is another active group, and `n` is in its subtree.
  pub record Pulls (other n : Text) : Type 0 where
    pub another : (other == name) ≡ false
    pub running : is_group_active_snapshot (snapshot groups) other ≡ true
    pub inside : mem n (collect_descendants_including_self groups other) ≡ true

  exclude_other-grows :
      (n o : Text) (found : List Text)
      → mem n found ≡ true
      → mem n (exclude_other groups name found o) ≡ true
  unfolding exclude_other
  exclude_other-grows n o found h =
      ground (arith, mem-add_groups n found (collect_descendants_including_self groups o))

  exclude_other-Pulls :
      (n o : Text) (found : List Text)
      → mem n (exclude_other groups name found o) ≡ true
      → (mem n found ≡ true) ⊎ Pulls o n
  exclude_other-Pulls n o found h = elim (Bool-cases (mem n found)) [
    | inl old ↦ inl old
    | inr new ↦ inr (record {
      another = unfold exclude_other in ground arith;
      running = unfold exclude_other in ground arith;
      inside =
          unfold exclude_other in
          ground (arith, mem-add_groups n found (collect_descendants_including_self groups o));
    })
  ]

  exclude_other-mem :
      (n o : Text) (found : List Text)
      → Pulls o n
      → mem n (exclude_other groups name found o) ≡ true
  unfolding exclude_other
  exclude_other-mem n o found p =
      ground (arith, mem-add_groups n found (collect_descendants_including_self groups o))

  exclude_others-grows :
      (n : Text) (found others : List Text)
      → mem n found ≡ true
      → mem n (exclude_others groups name found others) ≡ true
  unfolding exclude_others
  exclude_others-grows n found [] h = h
  exclude_others-grows n found (o ∷ others) h =
      exclude_others-grows n (exclude_other groups name found o) others
        (exclude_other-grows n o found h)

  exclude_others-Pulls :
      (n : Text) (found others : List Text)
      → mem n (exclude_others groups name found others) ≡ true
      → (mem n found ≡ true) ⊎ ((o : Text) × (mem o others ≡ true) × Pulls o n)
  unfolding exclude_others
  exclude_others-Pulls n found [] h = inl h
  exclude_others-Pulls n found (o ∷ others) h =
      elim (exclude_others-Pulls n (exclude_other groups name found o) others h) [
        | inr (q, m, p) ↦ inr (q, mem_tail q o others m, p)
        | inl now ↦ elim (exclude_other-Pulls n o found now) [
          | inl old ↦ inl old
          | inr p ↦ inr (o, mem_head o others, p)
        ]
      ]

  exclude_others-mem :
      (n o : Text) (found others : List Text)
      → mem o others ≡ true
      → Pulls o n
      → mem n (exclude_others groups name found others) ≡ true
  unfolding exclude_others
  exclude_others-mem n o found [] m p = absurd (unfold mem in cc)
  exclude_others-mem n o found (q ∷ others) m p =
      elim (or-true (q == o) (mem o others) (unfold mem in m)) [
        | inr later ↦ exclude_others-mem n o (exclude_other groups name found q) others later p
        | inl here ↦ exclude_others-grows n (exclude_other groups name found q) others (
            exclude_other-mem n q found
              (subst (λ x. Pulls x n) (sym ((text_beq_iff q o).0 here)) p))
      ]

  -- One of the exclusion sets that hold `name` holds such a group `other`.
  pub record Excludes (sets : List (List Text)) (n : Text) : Type 0 where
    pub set : List Text
    pub listed : Memᴰ set sets
    pub concerned : mem name set ≡ true
    pub other : Text
    pub member : mem other set ≡ true
    pub pulls : Pulls other n

  Excludes-tail :
      {set : List Text} {sets : List (List Text)} {n : Text}
      → Excludes sets n
      → Excludes (set ∷ sets) n
  Excludes-tail e = record {
    set = e.set;
    listed = Memᴰ.tail e.listed;
    concerned = e.concerned;
    other = e.other;
    member = e.member;
    pulls = e.pulls;
  }

  abbrev exclude_set : List Text → List Text → List Text
  exclude_set found set = if mem name set then exclude_others groups name found set else found

  exclude_set-grows :
      (n : Text) (found set : List Text) → mem n found ≡ true → mem n (exclude_set found set) ≡ true
  exclude_set-grows n found set h = ground (arith, exclude_others-grows n found set)

  exclude_sets-grows :
      (n : Text) (found : List Text) (sets : List (List Text))
      → mem n found ≡ true
      → mem n (exclude_sets groups name found sets) ≡ true
  unfolding exclude_sets
  exclude_sets-grows n found [] h = h
  exclude_sets-grows n found (set ∷ sets) h =
      exclude_sets-grows n (exclude_set found set) sets (exclude_set-grows n found set h)

  pub exclude_sets-Excludes :
      (n : Text) (found : List Text) (sets : List (List Text))
      → mem n (exclude_sets groups name found sets) ≡ true
      → (mem n found ≡ true) ⊎ Excludes sets n
  unfolding exclude_sets
  exclude_sets-Excludes n found [] h = inl h
  exclude_sets-Excludes n found (set ∷ sets) h =
      elim (exclude_sets-Excludes n (exclude_set found set) sets h) [
        | inr e ↦ inr (Excludes-tail e)
        | inl now ↦ elim (Bool-cases (mem name set)) [
          | inr apart ↦ inl (rw apart at now)
          | inl concerned ↦ elim (exclude_others-Pulls n found set (rw concerned at now)) [
            | inl old ↦ inl old
            | inr (o, m, p) ↦ inr (record {
              set = set;
              listed = Memᴰ.head refl;
              concerned = concerned;
              other = o;
              member = m;
              pulls = p;
            })
          ]
        ]
      ]

  pub exclude_sets-mem :
      {n other : Text} {set : List Text} (found : List Text) {sets : List (List Text)}
      → Memᴰ set sets
      → mem name set ≡ true
      → mem other set ≡ true
      → Pulls other n
      → mem n (exclude_sets groups name found sets) ≡ true
  unfolding exclude_sets
  exclude_sets-mem {n} {other} {set} found {sets = []} l c m p = elim l [ ]
  exclude_sets-mem {n} {other} {set} found {sets = t ∷ sets} (Memᴰ.head same) c m p =
      exclude_sets-grows n (exclude_set found t) sets
        (rw (← same) (rw c (exclude_others-mem n other found set m p)))
  exclude_sets-mem {n} {other} {set} found {sets = t ∷ sets} (Memᴰ.tail l) c m p =
      exclude_sets-mem (exclude_set found t) l c m p
