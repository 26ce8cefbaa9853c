-- ===== src/Base/Select.antt =====
-- Tests over the elements of a list, and the elements that pass one.
use mathlib.Core.Path.{◌≡◌, refl, subst}
use mathlib.Core.Logic.{inl, inr}
use mathlib.Core.Bool.{Bool, true, false, ◌||◌}
use mathlib.Core.Option.{Option, none, some}
use mathlib.Core.List.{List, [], ◌∷◌, ◌++◌}
use native.Mathlib.Omega.{arith}
use vpn_cloude.Base.Tests.{if◌then◌else◌, Bool-cases}
use vpn_cloude.Base.Lists.{All, Any}

module _ {ℓ} {A : Type ℓ} where
  unfoldable pub any : (A → Bool) → List A → Bool
  any test [] = false
  any test (x ∷ xs) = test x || any test xs

  unfoldable pub keep : (A → Bool) → List A → List A
  keep test [] = []
  keep test (x ∷ xs) = let rest = keep test xs in if test x then x ∷ rest else rest

  unfoldable pub find : (A → Bool) → List A → Option A
  find test [] = none
  find test (x ∷ xs) = let rest = find test xs in if test x then some x else rest

  -- What is found passes the test.
  pub find-test : (test : A → Bool) (xs : List A) (a : A) → find test xs ≡ some a → test a ≡ true
  unfolding find
  find-test test [] a e = absurd (ground (arith, e))
  find-test test (x ∷ xs) a e = ground (arith, e, find-test test xs a)

  -- What holds of the one that is found holds of some element.
  pub find-Any :
      (P : A → Type 0) (test : A → Bool) (xs : List A) (a : A)
      → P a
      → find test xs ≡ some a
      → Any P xs
  unfolding find
  find-Any P test [] a h e = absurd (ground (arith, e))
  find-Any P test (x ∷ xs) a h e = elim (Bool-cases (test x)) [
    | inl here ↦ inl (subst P (ground (arith, here, e)) h)
    | inr later ↦ inr (find-Any P test xs a h (ground (arith, later, e)))
  ]

  -- What holds of every element holds of the one that is found.
  pub find-All {κ} :
      (P : A → Type κ) (test : A → Bool) (xs : List A) (a : A)
      → All P xs
      → find test xs ≡ some a
      → P a
  unfolding find
  find-All P test [] a h e = absurd (ground (arith, e))
  find-All P test (x ∷ xs) a h e = ground (arith, h, e, find-All P test xs a h.1)

  pub keep-All {κ} :
      (P : A → Type κ) (test : A → Bool) (xs : List A)
      → ((x : A) → test x ≡ true → P x)
      → All P (keep test xs)
  unfolding keep
  keep-All P test [] h = tt
  keep-All P test (x ∷ xs) h = ground (arith, h x, keep-All P test xs h)

  pub All-keep {κ} :
      (P : A → Type κ) (test : A → Bool) (xs : List A) → All P xs → All P (keep test xs)
  unfolding keep
  All-keep P test [] h = tt
  All-keep P test (x ∷ xs) h = ground (arith, h, All-keep P test xs h.1)

  pub any-append :
      (test : A → Bool) (xs ys : List A) → any test (xs ++ ys) ≡ (any test xs || any test ys)
  unfolding any
  any-append test [] ys = refl
  any-append test (x ∷ xs) ys = ground (arith, any-append test xs ys)

  abbrev pub place : (A → A → Bool) → A → List A → List A
  place before x [] = x ∷ []
  place before x (y ∷ ys) =
      let later = place before x ys in if before y x then y ∷ later else x ∷ y ∷ ys

  -- ORDER BY, with the relation that puts its first argument strictly before its second.
  unfoldable pub order_by : (A → A → Bool) → List A → List A
  order_by before [] = []
  order_by before (x ∷ xs) = place before x (order_by before xs)

  place-All {κ} :
      (P : A → Type κ) (before : A → A → Bool) (x : A) (xs : List A)
      → P x
      → All P xs
      → All P (place before x xs)
  place-All P before x [] h hs = (h, tt)
  place-All P before x (y ∷ ys) h hs = ground (arith, h, hs, place-All P before x ys h hs.1)

  pub order_by-All {κ} :
      (P : A → Type κ) (before : A → A → Bool) (xs : List A) → All P xs → All P (order_by before xs)
  unfolding order_by
  order_by-All P before [] h = tt
  order_by-All P before (x ∷ xs) h =
      place-All P before x (order_by before xs) h.0 (order_by-All P before xs h.1)
