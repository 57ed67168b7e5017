-- ===== src/Toolset/Listing/Order.antt =====
-- The order of the listing, and the tools in it.
use tmcp.Base.{
  ◌≡◌, refl, ◌⊎◌, inl, inr, true, false, List, [], ◌∷◌, arith, Bool-cases, nat_eq, Text, text_eq,
}
use mathlib.Core.List.{Perm}
use mathlib.Core.List.Perm
use tmcp.Toolset.State.{Tool}
use tmcp.Toolset.Listing.{text_leb, insert_tool, sort_tools}

text_leb-total : (s t : Text) → text_leb s t ≡ false → text_leb t s ≡ true
unfolding text_leb
text_leb-total [] t h = absurd (cc)
text_leb-total (a ∷ s) [] h = refl
text_leb-total (a ∷ s) (b ∷ t) h = ground (arith, text_leb-total s t)

-- Names never fall.
abbrev pub IsSorted : List Tool → Type 0
IsSorted [] = Unit
IsSorted (x ∷ []) = Unit
IsSorted (x ∷ y ∷ ys) = (text_leb x.name y.name ≡ true) × IsSorted (y ∷ ys)

insert_tool-IsSorted : (x : Tool) (ys : List Tool) → IsSorted ys → IsSorted (insert_tool x ys)
unfolding insert_tool
insert_tool-IsSorted x [] h = tt
insert_tool-IsSorted x (y ∷ []) h = elim (Bool-cases (text_leb x.name y.name)) [
  | inl le ↦ rw le (le, tt)
  | inr gt ↦ rw gt (text_leb-total x.name y.name gt, tt)
]
insert_tool-IsSorted x (y ∷ z ∷ zs) h = elim (Bool-cases (text_leb x.name y.name)) [
  | inl le ↦ rw le (le, h)
  | inr gt ↦
      rw gt
        (tail_sorted (Bool-cases (text_leb x.name z.name)) gt (insert_tool-IsSorted x (z ∷ zs) h.1))
]
  where
    tail_sorted :
        (text_leb x.name z.name ≡ true) ⊎ (text_leb x.name z.name ≡ false)
        → text_leb x.name y.name ≡ false
        → IsSorted (insert_tool x (z ∷ zs))
        → IsSorted (y ∷ insert_tool x (z ∷ zs))
    tail_sorted (inl le) gt r = rw le (text_leb-total x.name y.name gt, rw le at r)
    tail_sorted (inr gt') gt r = rw gt' (h.0, rw gt' at r)

insert_tool-perm : (x : Tool) (ys : List Tool) → Perm (insert_tool x ys) (x ∷ ys)
unfolding insert_tool
insert_tool-perm x [] = Perm.refl (x ∷ [])
insert_tool-perm x (y ∷ ys) = elim (Bool-cases (text_leb x.name y.name)) [
  | inl le ↦ rw le (Perm.refl (x ∷ y ∷ ys))
  | inr gt ↦ rw gt (Perm.trans (Perm.cons y (insert_tool-perm x ys)) (Perm.swap _ _ _))
]

pub sort_tools-IsSorted : (xs : List Tool) → IsSorted (sort_tools xs)
unfolding sort_tools
sort_tools-IsSorted [] = tt
sort_tools-IsSorted (x ∷ xs) = insert_tool-IsSorted x (sort_tools xs) (sort_tools-IsSorted xs)

pub sort_tools-perm : (xs : List Tool) → Perm (sort_tools xs) xs
unfolding sort_tools
sort_tools-perm [] = Perm.refl []
sort_tools-perm (x ∷ xs) =
    Perm.trans (insert_tool-perm x (sort_tools xs)) (Perm.cons x (sort_tools-perm xs))
