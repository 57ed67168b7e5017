-- ===== src/Base/Equality.antt =====
-- Types with a Boolean equality test, as an interface.
use Prim.Native.Nat.{ℕ}
use mathlib.Core.Path.{◌≡◌, refl}
use mathlib.Core.Logic.{◌↔◌, inl, inr}
use mathlib.Core.Bool.{Bool, true, ◌||◌, ◌&&◌, false}
use tmcp.Base.Tests.{nat_beq, nat_beq_iff, Bool-cases, if◌then◌else◌}
use tmcp.Base.Lists.{filter}
use mathlib.Core.List.{List, [], ◌∷◌, ◌++◌}
use native.Mathlib.Omega.{arith}

-- A test that decides equality.
pub record Eq {ℓ} (A : Type ℓ) : Type ℓ where
  pub equals : (x y : A) → Bool
  pub equals_iff : (x y : A) → (equals x y ≡ true) ↔ (x ≡ y)

instance abbrev pub nat_eq : Eq ℕ
nat_eq = record { equals = nat_beq; equals_iff = nat_beq_iff }

infix 50 ◌==◌
-- The test of the type at hand.
abbrev pub ◌==◌ {ℓ} : {A : Type ℓ} ⦃test : Eq A⦄ (x y : A) → Bool
◌==◌ ⦃test⦄ x y = test.equals x y

module _ {ℓ} {A : Type ℓ} ⦃e : Eq A⦄ where
  pub ==_iff : (a b : A) → ((a == b) ≡ true) ↔ (a ≡ b)
  ==_iff a b = e.equals_iff a b

  pub ==_self : (a : A) → (a == a) ≡ true
  ==_self a = (e.equals_iff a a).1 refl

module _ {ℓ} {A : Type ℓ} ⦃e : Eq A⦄ where
  -- `contains`, on a list or a set.
  unfoldable pub mem : A → List A → Bool
  mem a [] = false
  mem a (x ∷ xs) = x == a || mem a xs

  pub mem-append : (a : A) (xs ys : List A) → mem a (xs ++ ys) ≡ (mem a xs || mem a ys)
  unfolding mem
  mem-append a [] ys = refl
  mem-append a (x ∷ xs) ys = ground (arith, mem-append a xs ys)

  pub mem-filter : (a : A) (p : A → Bool) (xs : List A) → mem a (filter p xs) ≡ (mem a xs && p a)
  unfolding mem
  mem-filter a p [] = refl
  mem-filter a p (x ∷ xs) = elim (Bool-cases (x == a)) [
    | inl same ↦
        rw (((e.equals_iff x a).0 same)) (ground (arith, e.equals_iff a a, mem-filter a p xs))
    | inr other ↦ ground (arith, mem-filter a p xs)
  ]

  -- `HashSet::insert` on a set that is kept in insertion order.
  unfoldable pub insert_new : A → List A → List A
  insert_new a xs = if mem a xs then xs else xs ++ a ∷ []

  pub mem-insert_new : (a x : A) (xs : List A) → mem a (insert_new x xs) ≡ (x == a || mem a xs)
  unfolding insert_new
  mem-insert_new a x xs = elim (Bool-cases (mem x xs)) [
    | inl old ↦ elim (Bool-cases (x == a)) [
      | inl same ↦ rw (old, same) (rw (← ((e.equals_iff x a).0 same)) old)
      | inr other ↦ rw (old, other)
    ]
    | inr new ↦ rw (new, mem-append a xs (x ∷ [])) (unfold mem in ground arith)
  ]
