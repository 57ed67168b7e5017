-- ===== src/Toolset/Names/Laws.antt =====
-- What a valid path is, and that tool names split into the parts they were built from.
use tmcp.Base.{
  ℕ, ◌≡◌, refl, sym, ap, ◌∙◌, subst, ◌≢◌, ◌↔◌, inl, inr, false, Option, none, some, List, [], ◌∷◌,
  ◌++◌, arith, nat_beq, nat_beq_iff, Bool-cases, Option-cases, All, nat_eq, Text, text_eq, ok,
}
use tmcp.Toolset.Names.{
  dot, cons_head, contains_dot, split_dots, validate_group_segment, validate_segments,
  validate_group_path, rsplit_once, split_tool_name, qualified_name,
}

-- A segment is one name: not empty, with no dot inside.
cons_head-ne-nil : (c : ℕ) (ss : List Text) → cons_head c ss ≢ []
cons_head-ne-nil c [] = cc
cons_head-ne-nil c (s ∷ ss) = cc

abbrev pub IsSegment : Text → Type 0
IsSegment s = (s ≢ []) × (contains_dot s ≡ false)

-- Segments joined by dots.
unfoldable pub join_dots : List Text → Text
join_dots [] = []
join_dots (s ∷ []) = s
join_dots (s ∷ t ∷ rest) = s ++ dot ∷ join_dots (t ∷ rest)

validate_group_segment_iff : (s : Text) → (validate_group_segment s ≡ ok tt) ↔ IsSegment s
unfolding validate_group_segment
validate_group_segment_iff [] = ground arith
validate_group_segment_iff (c ∷ s) = ground arith

validate_segments_iff : (ss : List Text) → (validate_segments ss ≡ ok tt) ↔ All IsSegment ss
unfolding validate_segments
validate_segments_iff [] = ground arith
validate_segments_iff (s ∷ ss) =
    ground (arith, validate_group_segment_iff s, validate_segments_iff ss)

join_dots-cons_head :
    (c : ℕ) (ss : List Text) → ss ≢ [] → join_dots (cons_head c ss) ≡ c ∷ join_dots ss
unfolding join_dots
join_dots-cons_head c [] h = absurd (h refl)
join_dots-cons_head c (s ∷ []) h = refl
join_dots-cons_head c (s ∷ t ∷ rest) h = refl

split_dots-ne-nil : (s : Text) → split_dots s ≢ []
unfolding split_dots
split_dots-ne-nil [] = cc
split_dots-ne-nil (c ∷ s) = elim (Bool-cases (nat_beq c dot)) [
  | inl e ↦ rw e cc
  | inr e ↦ rw e (cons_head-ne-nil c (split_dots s))
]

join_dots-nil : (ss : List Text) → ss ≢ [] → join_dots ([] ∷ ss) ≡ dot ∷ join_dots ss
unfolding join_dots
join_dots-nil [] h = absurd (h refl)
join_dots-nil (s ∷ ss) h = refl

join-split_dots : (s : Text) → join_dots (split_dots s) ≡ s
unfolding split_dots
join-split_dots [] = unfold join_dots in refl
join-split_dots (c ∷ s) = ground (
  arith,
  join-split_dots s,
  join_dots-nil (split_dots s),
  join_dots-cons_head c (split_dots s),
  split_dots-ne-nil s,
  nat_beq_iff c dot,
)

split_dots-segment : (s : Text) → contains_dot s ≡ false → split_dots s ≡ s ∷ []
unfolding split_dots
split_dots-segment [] h = refl
split_dots-segment (c ∷ s) h = ground (arith, split_dots-segment s)

split_dots-append :
    (s t : Text) → contains_dot s ≡ false → split_dots (s ++ dot ∷ t) ≡ s ∷ split_dots t
unfolding split_dots
split_dots-append [] t h = refl
split_dots-append (c ∷ s) t h = ground (arith, split_dots-append s t)

-- Splitting undoes joining.
split-join_dots :
    (s : Text) (ss : List Text) → All IsSegment (s ∷ ss) → split_dots (join_dots (s ∷ ss)) ≡ s ∷ ss
unfolding join_dots
split-join_dots s [] h = split_dots-segment s h.0.1
split-join_dots s (t ∷ ss) h =
    split_dots-append s (join_dots (t ∷ ss)) h.0.1 ∙ ap (◌∷◌ s) (split-join_dots t ss h.1)

join_dots-ne-nil : (s : Text) (ss : List Text) → IsSegment s → join_dots (s ∷ ss) ≢ []
unfolding join_dots
join_dots-ne-nil [] ss h = absurd (h.0 refl)
join_dots-ne-nil (c ∷ s) [] h = cc
join_dots-ne-nil (c ∷ s) (t ∷ ss) h = cc

-- A path is accepted exactly when it is one or more segments joined by dots.
validate_group_path_iff :
    (group : Text)
    → (validate_group_path group ≡ ok tt)
      ↔ ((s : Text) × (ss : List Text) × All IsSegment (s ∷ ss) × (group ≡ join_dots (s ∷ ss)))
unfolding validate_group_path
validate_group_path_iff group = (to group, λ p. from group p.0 p.1 p.2 p.3)
  where
    parts :
        (g : Text) (ss : List Text)
        → split_dots g ≡ ss
        → ss ≢ []
        → validate_segments ss ≡ ok tt
        → (s : Text) × (rest : List Text) × All IsSegment (s ∷ rest) × (g ≡ join_dots (s ∷ rest))
    parts g [] e h v = absurd (h refl)
    parts g (s ∷ rest) e h v =
        (s, rest, (validate_segments_iff (s ∷ rest)).0 v, sym (join-split_dots g) ∙ ap join_dots e)

    to :
        (g : Text)
        → validate_group_path g ≡ ok tt
        → (s : Text) × (rest : List Text) × All IsSegment (s ∷ rest) × (g ≡ join_dots (s ∷ rest))
    to [] v = cc
    to (c ∷ g) v = parts (c ∷ g) (split_dots (c ∷ g)) refl (split_dots-ne-nil (c ∷ g)) v

    from :
        (g s : Text) (rest : List Text)
        → All IsSegment (s ∷ rest)
        → g ≡ join_dots (s ∷ rest)
        → validate_group_path g ≡ ok tt
    from [] s rest h e = absurd (join_dots-ne-nil s rest h.0 (sym e))
    from (c ∷ g) s rest h e =
        let split = ap split_dots e ∙ split-join_dots s rest h in
        subst (λ x. validate_segments x ≡ ok tt) (sym split)
          ((validate_segments_iff (s ∷ rest)).1 h)

rsplit_once-none : (s : Text) → contains_dot s ≡ false → rsplit_once s ≡ none
unfolding rsplit_once
rsplit_once-none [] h = refl
rsplit_once-none (c ∷ s) h = ground (arith, rsplit_once-none s)

rsplit_once-append :
    (s t : Text) → contains_dot t ≡ false → rsplit_once (s ++ dot ∷ t) ≡ some (s, t)
unfolding rsplit_once
rsplit_once-append [] t h = rw (rsplit_once-none t h) (ground arith)
rsplit_once-append (c ∷ s) t h = rw (rsplit_once-append s t h) refl

rsplit_once-eq-none : (s : Text) → rsplit_once s ≡ none → contains_dot s ≡ false
unfolding rsplit_once
rsplit_once-eq-none [] h = refl
rsplit_once-eq-none (c ∷ s) h = ground (arith, rsplit_once-eq-none s)

rsplit_once-eq-some :
    (s a b : Text) → rsplit_once s ≡ some (a, b) → (s ≡ a ++ dot ∷ b) × (contains_dot b ≡ false)
unfolding rsplit_once
rsplit_once-eq-some [] a b h = cc
rsplit_once-eq-some (c ∷ s) a b h = elim (Option-cases (rsplit_once s)) [
  | inl e ↦ ground (arith, rsplit_once-eq-none s e, nat_beq_iff c dot)
  | inr (r, e) ↦ ground (arith, rsplit_once-eq-some s r.0 r.1 e)
]

-- A tool name built from a valid group path and a base name splits into the two again.
split_tool_name-qualified_name :
    (group base : Text)
    → validate_group_path group ≡ ok tt
    → IsSegment base
    → split_tool_name (qualified_name group base) ≡ ok (some group, base)
unfolding split_tool_name qualified_name
split_tool_name-qualified_name [] base v h = unfold validate_group_path in cc
split_tool_name-qualified_name (c ∷ group) [] v h = absurd (h.0 refl)
split_tool_name-qualified_name (c ∷ group) (d ∷ base) v h =
    rw (rsplit_once-append (c ∷ group) (d ∷ base) h.1, split_tool_name) (rw v)

-- How a name is made of its parts.
pub record Splits (name : Text) (group : Option Text) (base : Text) : Type 0 where
  pub base_segment : IsSegment base
  pub ungrouped : group ≡ none → name ≡ base
  pub grouped :
      (g : Text) → group ≡ some g → (validate_group_path g ≡ ok tt) × (name ≡ qualified_name g base)

base_only-Splits :
    (name : Text) (group : Option Text) (base : Text)
    → rsplit_once name ≡ none
    → split_tool_name name ≡ ok (group, base)
    → Splits name group base
unfolding split_tool_name
base_only-Splits [] group base n e = unfold rsplit_once in cc
base_only-Splits (c ∷ name) group base n e =
    let h = rw (n, split_tool_name) at e in
    record {
      base_segment = ((ground arith), ground (arith, rsplit_once-eq-none (c ∷ name) n));
      ungrouped = λ _. ground arith;
      grouped = λ g k. absurd (ground arith);
    }

qualified-Splits :
    (name : Text) (group : Option Text) (base before after : Text)
    → rsplit_once name ≡ some (before, after)
    → split_tool_name name ≡ ok (group, base)
    → Splits name group base
unfolding split_tool_name qualified_name
qualified-Splits name group base [] after n e =
    let h = rw (n, split_tool_name) at e in absurd (unfold validate_group_path in ground arith)
qualified-Splits name group base (c ∷ before) after n e =
    let h = rw (n, split_tool_name) at e in
    let (joined, plain) = rsplit_once-eq-some name (c ∷ before) after n in
    record {
      base_segment = ((ground arith), ground arith);
      ungrouped = λ k. absurd (ground arith);
      grouped = λ g k. (ground arith, ground arith);
    }

pub split_tool_name-Splits :
    (name : Text) (group : Option Text) (base : Text)
    → split_tool_name name ≡ ok (group, base)
    → Splits name group base
split_tool_name-Splits name group base e = elim (Option-cases (rsplit_once name)) [
  | inl n ↦ base_only-Splits name group base n e
  | inr (r, n) ↦ qualified-Splits name group base r.0 r.1 n e
]
