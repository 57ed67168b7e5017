-- ===== src/Toolset/Changes/Overlap.antt =====
-- Exclusion sets under activation: at most one member stays active; and what happens where a set
-- holds a group together with one above it.
use tmcp.Toolset.Registry.{
  Snapshot, GroupSnapshot, snapshot_state, Hook, GroupState, Groups, GroupRegistry, children,
  snapshot, is_group_active_snapshot, is_active, is_child_of,
}
use tmcp.Toolset.Registry.Walk.{
  IsEffectiveAt, root, under, IsEffectiveAt-get, is_group_active_snapshot_iff,
}
use tmcp.Toolset.Changes.Flags.{
  get-snapshot, SameShape, is_group_active_snapshot-flag, flag, IsClosed,
}
use tmcp.Toolset.Changes.Plans.{exclude_sets-mem, Excludes}
use tmcp.Toolset.Changes.Activation.{
  raised, pulled, raised-SameShape, flag-raised_other, IsSeparate,
}
use tmcp.Toolset.Registry.Descendants.{
  Grows, IsBelow, child, deeper, is_child_of_iff, collect_descendants_including_self_iff,
}
use tmcp.Base.Map.{All-get, get, HasDistinctKeys}
use tmcp.Toolset.Changes.Effects.{
  CanActivate, raised_registry, Ran-raised, Activated, Activated-running, activate_group-Activated,
  IsExclusive,
}
use tmcp.Base.{
  ℕ, ◌<◌, ◌≡◌, refl, sym, ap, ◌∙◌, subst, ◌⊎◌, inl, inr, Bool, true, false, some, List, [], ◌∷◌,
  arith, Bool-cases, Option-cases, or-true, length, ◌==◌, nat_eq, mem, Text, text_beq_iff, text_eq,
  Result, ok,
}
use mathlib.Core.List.{Memᴰ}
use tmcp.Errors.{Error}
use tmcp.Toolset.Registry.Nesting.{IsWellFormed, IsNested-Grows}
use tmcp.Toolset.State.{ToolSet}
use tmcp.Toolset.Changes.{activate_group}
use tmcp.Toolset.Changes.Running.{AreQuiet}

beq_false_sym : (a b : Text) → (a == b) ≡ false → (b == a) ≡ false
beq_false_sym a b h = elim (Bool-cases (b == a)) [
  | inr f ↦ f
  | inl t ↦ absurd (let e = (text_beq_iff a b).1 (sym ((text_beq_iff b a).0 t)) in cc)
]

-- An active member of a set that holds `name` is pulled down.
Excludes-member :
    (r : GroupRegistry) (name other : Text) (set : List Text)
    → IsWellFormed r
    → Memᴰ set r.exclusions
    → mem name set ≡ true
    → mem other set ≡ true
    → (name == other) ≡ false
    → is_active r other ≡ true
    → Excludes r.groups name r.exclusions other
unfolding is_active
Excludes-member r name other set w listed m m' ne on = record {
  set = set;
  listed = listed;
  concerned = m;
  other = other;
  member = m';
  pulls = record {
    another = beq_false_sym name other ne;
    running = on;
    inside =
        (collect_descendants_including_self_iff r.groups other other
            (IsNested-Grows r.groups w.nested)).1
          (inl refl);
  };
}

module _ {t t' : ToolSet} {name : Text} (a : Activated t t' name)
    (w : IsWellFormed t.registry) where
  -- No other member of a set that holds `name` runs.
  alone :
      (set : List Text) (other : Text)
      → Memᴰ set t.registry.exclusions
      → mem name set ≡ true
      → mem other set ≡ true
      → is_active t'.registry other ≡ true
      → name ≡ other
  alone set other listed m m' on = elim (Bool-cases (name == other)) [
    | inl same ↦ (text_beq_iff name other).0 same
    | inr ne ↦
        let (before, apart) = Activated-running other a on ne in
        absurd (apart (Excludes-member t.registry name other set w listed m m' ne before))
  ]

  Activated-IsExclusive : IsExclusive t.registry → IsExclusive t'.registry
  Activated-IsExclusive x set p q l m m' on on' =
      let listed = subst (Memᴰ set) a.exclusions l in
      elim (Bool-cases (name == p)) [
        | inl here ↦
            let same = (text_beq_iff name p).0 here in
            sym same ∙ alone set q listed (rw same m) m' on'
        | inr ne ↦ elim (Bool-cases (name == q)) [
          | inl here ↦
              let same = (text_beq_iff name q).0 here in
              sym (alone set p listed (rw same m') m on) ∙ same
          | inr ne' ↦
              x set p q listed m m' (Activated-running p a on ne).0
                (Activated-running q a on' ne').0
        ]
      ]

module _ {W : Type 0} (call : Hook → ToolSet → W → Result Error (Unit {0}) × ToolSet × W)
    (notify : W → Result Error (Unit {0}) × W) where
  -- Activation keeps mutual exclusion: where at most one group of each exclusion set was active,
  -- so it is when `activate_group` has returned a value. The other conditions are that the
  -- registry was well formed with the parent of every active group active, that no exclusion set
  -- holds the group together with one above it, and that the hooks leave the tool set alone.
  pub activate_group-IsExclusive :
      (name : Text) (t t' : ToolSet) (w w' : W) (b : Bool)
      → AreQuiet call notify
      → IsWellFormed t.registry
      → IsClosed t.registry.groups
      → IsSeparate t.registry name
      → IsExclusive t.registry
      → activate_group call notify name t w ≡ (ok b, t', w')
      → IsExclusive t'.registry
  activate_group-IsExclusive name t t' w w' b quiet wf c sep x e =
      Activated-IsExclusive (activate_group-Activated call notify name t t' w w' b quiet wf c sep e)
        wf x

children-parent :
    (groups : Groups) (n p : Text)
    → HasDistinctKeys groups
    → mem n (children p groups) ≡ true
    → (s : GroupState) × (get n groups ≡ some s) × (s.parent ≡ some p)
unfolding children
children-parent [] n p d m = absurd (unfold mem children in cc)
children-parent ((k, t) ∷ groups) n p d m = elim (Bool-cases (is_child_of p t)) [
  | inr other ↦ later (children-parent groups n p d.1 (rw (other, children) at m))
  | inl here ↦
      elim (or-true (k == n) (mem n (children p groups)) (unfold mem in rw (here, children) at m)) [
        | inr m' ↦ later (children-parent groups n p d.1 m')
        | inl same ↦ (t, unfold get in rw same, (is_child_of_iff p t).0 here)
      ]
]
  where
    later :
        (s : GroupState) × (get n groups ≡ some s) × (s.parent ≡ some p)
        → (s : GroupState) × (get n ((k, t) ∷ groups) ≡ some s) × (s.parent ≡ some p)
    later (s, f, q) = (s, unfold get in ground (arith, text_beq_iff k n), q)

-- The parent of a group below the root is the root, or is below it.
pub IsBelow-parent :
    {groups : Groups} {top n : Text}
    → HasDistinctKeys groups
    → IsBelow groups top n
    → (s : GroupState) × (p : Text) × (get n groups ≡ some s)
      × (s.parent ≡ some p)
      × ((top ≡ p) ⊎ IsBelow groups top p)
IsBelow-parent {groups} {top} {n} d (child m) =
    let (s, f, q) = children-parent groups n top d m in (s, top, f, q, inl refl)
IsBelow-parent d (deeper {mid = mid} m b) =
    let (s, p, f, q, how) = IsBelow-parent d b in
    (
      s,
      p,
      f,
      q,
      inr (elim how [ inl same ↦ subst (IsBelow _ _) same (child m) | inr below ↦ deeper m below ]),
    )

IsBelow-flag :
    {groups : Groups} {top n : Text}
    → IsClosed groups
    → HasDistinctKeys groups
    → IsBelow groups top n
    → flag groups n ≡ true
    → flag groups top ≡ true
IsBelow-flag {groups} {top} {n} c d (child m) on =
    let (s, f, q) = children-parent groups n top d m in c n s top f (ground arith) q
IsBelow-flag {groups} {top} c d (deeper {mid = mid} m b) on =
    let (s, f, q) = children-parent groups mid top d m in
    let on' = IsBelow-flag c d b on in c mid s top f (ground arith) q

-- An effective group has an active parent.
IsEffectiveAt-parent :
    {snap : Snapshot} {k : ℕ} {n : Text} (s : GroupSnapshot) (p : Text)
    → IsEffectiveAt snap k n
    → get n snap ≡ some s
    → s.parent ≡ some p
    → (t : GroupSnapshot) × (get p snap ≡ some t) × (t.active ≡ true)
IsEffectiveAt-parent s p (root t f a q) e e' = absurd (cc)
IsEffectiveAt-parent {snap} s p (under {parent = p'} t f a q d) e e' =
    let (u, g, on) = IsEffectiveAt-get d in
    let same : p' ≡ p = cc in (u, subst (λ x. get x snap ≡ some u) same g, on)

-- A group whose parent's flag is down does not count as active.
inactive_parent :
    (groups : Groups) (n p : Text) (s : GroupState)
    → get n groups ≡ some s
    → s.parent ≡ some p
    → flag groups p ≡ false
    → is_group_active_snapshot (snapshot groups) n ≡ false
inactive_parent groups n p s f q off =
    elim (Bool-cases (is_group_active_snapshot (snapshot groups) n)) [
      | inr e ↦ e
      | inl e ↦
          let (k, d) = (is_group_active_snapshot_iff (snapshot groups) n).0 e in
          let (t, g, on) =
            IsEffectiveAt-parent (snapshot_state s) p d (ground (arith, get-snapshot groups n)) q in
          absurd (ground (arith, get-snapshot groups p))
    ]

module _ (r : GroupRegistry) (name other : Text) (set : List Text) (target : GroupState)
    (w : IsWellFormed r) (c : IsClosed r.groups) (listed : Memᴰ set r.exclusions)
    (m : mem name set ≡ true) (m' : mem other set ≡ true) (ne : (other == name) ≡ false)
    (below : IsBelow r.groups other name) (can : CanActivate r name target) where
  -- The parent of `name` is pulled down.
  pulled_parent :
      (p : Text)
      → (other ≡ p) ⊎ IsBelow r.groups other p
      → flag r.groups p ≡ true
      → mem p (pulled r name) ≡ true
  pulled_parent p how on = exclude_sets-mem r.groups name [] listed m m' (record {
    another = ne;
    running =
        is_group_active_snapshot-flag r.groups other w.nested c
        ∙ elim how [ inl same ↦ rw same on | inr b ↦ IsBelow-flag c w.nested.distinct b on ];
    inside =
        (collect_descendants_including_self_iff r.groups other p
            (IsNested-Grows r.groups w.nested)).1
          how;
  })

  overlap_flag : is_active (raised_registry r name target) name ≡ false
  unfolding is_active
  overlap_flag =
      let (s, p, f, q, how) = IsBelow-parent w.nested.distinct below in
      let same : target ≡ s = ground (arith, can.registered) in
      let ready =
        sym (is_group_active_snapshot-flag r.groups p w.nested c)
        ∙ can.ready p (ap (λ x. x.parent) same ∙ q) in
      let shorter = All-get Grows name s r.groups (IsNested-Grows r.groups w.nested) f p q in
      let apart : (name == p) ≡ false = shorter_ne name p shorter in
      let shape = raised-SameShape r name target w in
      let (s', f') = kept_key shape s f in
      let (s0, f0, q0) = shape.parents name s' f' in
      inactive_parent (raised r name target) name p s' f' (q0 ∙ ground arith)
        (ground (arith, flag-raised_other r name target p apart, pulled_parent p how ready))
    where
      shorter_ne : (a b : Text) → length b < length a → (a == b) ≡ false
      shorter_ne a b h = elim (Bool-cases (a == b)) [
        | inr e ↦ e
        | inl e ↦ absurd (omega (arith, ap length ((text_beq_iff a b).0 e)))
      ]

      kept_key :
          SameShape r.groups (raised r name target)
          → (s : GroupState) → get name r.groups ≡ some s
          → (s' : GroupState) × (get name (raised r name target) ≡ some s')
      kept_key shape s f = elim (Option-cases (get name (raised r name target))) [
        | inr found ↦ found
        | inl e ↦ absurd (ground (arith, shape.keys name))
      ]

module _ {W : Type 0} (call : Hook → ToolSet → W → Result Error (Unit {0}) × ToolSet × W)
    (notify : W → Result Error (Unit {0}) × W) where
  -- Where an exclusion set holds a group together with one above it, a call that activates the
  -- lower one and returns a value leaves that group inactive: the plan pulls its parent down. The
  -- conditions are that the registry was well formed with the parent of every active group active
  -- and that the hooks leave the tool set alone.
  pub activate_group-self_displaced :
      (name other : Text) (set : List Text) (t t' : ToolSet) (w w' : W) (b : Bool)
      → AreQuiet call notify
      → IsWellFormed t.registry
      → IsClosed t.registry.groups
      → Memᴰ set t.registry.exclusions
      → mem name set ≡ true
      → mem other set ≡ true
      → (other == name) ≡ false
      → IsBelow t.registry.groups other name
      → activate_group call notify name t w ≡ (ok b, t', w')
      → is_active t'.registry name ≡ false
  activate_group-self_displaced name other set t t' w w' b quiet wf c l m m' ne below e =
      let (target, can, left) = Ran-raised call notify name t t' w w' b quiet e in
      rw left (overlap_flag t.registry name other set target wf c l m m' ne below can)
