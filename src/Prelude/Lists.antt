-- ===== src/Prelude/Lists.antt =====
-- Lists measured by native numbers, and predicates on lists by recursion.
use Prim.Native.Nat.{ℕ, suc, ◌+◌}
use mathlib.Core.Path.{◌≡◌, sym, subst}
use mathlib.Core.Logic.{◌⊎◌, ◌↔◌, inl, inr}
use mathlib.Core.Bool.{Bool, true}
use mathlib.Core.List.{List, [], ◌∷◌, ◌++◌}
use native.Mathlib.Omega.{arith}
use gotfr_sec.Prelude.Tests.{Bool-cases, if◌then◌else◌}

module _ {ℓ} {A : Type ℓ} where
  abbrev pub length : List A → ℕ
  length [] = 0
  length (x ∷ xs) = suc (length xs)

  pub length-append : (xs ys : List A) → length (xs ++ ys) ≡ length xs + length ys
  length-append [] ys = omega arith
  length-append (x ∷ xs) ys = omega (arith, length-append xs ys)

  -- A comprehension `[x for x in xs if test x]`.
  abbrev pub select : (A → Bool) → List A → List A
  select test [] = []
  select test (x ∷ xs) = let rest = select test xs in if test x then x ∷ rest else rest

-- A predicate holds of every element.
abbrev pub All {ℓ κ} : {A : Type ℓ} → (A → Type κ) → List A → Type κ
All Good [] = Unit
All Good (item ∷ rest) = Good item × All Good rest

module _ {ℓ κ} {A : Type ℓ} (Good : A → Type κ) where
  pub All-append :
      (before after : List A) → All Good before → All Good after → All Good (before ++ after)
  All-append [] after hb ha = ha
  All-append (item ∷ before) after (here, there) ha = (here, All-append before after there ha)

abbrev pub Member : {A : Type 0} → A → List A → Type 0
Member a [] = ⊥
Member a (x ∷ xs) = (a ≡ x) ⊎ Member a xs

pub All-Member :
    {A : Type 0} (P : A → Type 0) (xs : List A) → All P xs → (a : A) → Member a xs → P a
All-Member P [] h a m = absurd m
All-Member P (x ∷ xs) h a (inl e) = subst P (sym e) h.0
All-Member P (x ∷ xs) h a (inr m) = All-Member P xs h.1 a m

pub Member-select :
    {A : Type 0} (test : A → Bool) (a : A) (xs : List A)
    → Member a (select test xs) ↔ (Member a xs × (test a ≡ true))
Member-select test a [] = (λ h. absurd h, λ h. absurd h.0)
Member-select test a (x ∷ xs) = elim (Bool-cases (test x)) [
  | inl kept ↦ rw kept (
    elim [
      | inl e ↦ (inl e, rw e kept)
      | inr m ↦ (inr ((Member-select test a xs).0 m).0, ((Member-select test a xs).0 m).1)
    ],
    λ (m, passes). elim m [
      | inl e ↦ inl e
      | inr m' ↦ inr ((Member-select test a xs).1 (m', passes))
    ],
  )
  | inr dropped ↦ rw dropped (
    λ m. (inr ((Member-select test a xs).0 m).0, ((Member-select test a xs).0 m).1),
    λ (m, passes). elim m [
      | inl e ↦ absurd (cc)
      | inr m' ↦ (Member-select test a xs).1 (m', passes)
    ],
  )
]
