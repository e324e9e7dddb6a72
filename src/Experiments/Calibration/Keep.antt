-- ===== src/Experiments/Calibration/Keep.antt =====
-- How many elements of a list `keep` keeps.
use mathlib.Core.Logic.{∥∥₁_elim}
use mathlib.Core.List.{Perm, Permᴰ}
use native.Mathlib.Nat.{ℕ_set}
use kavach_ai.Common.{
  ℕ, ◌+◌, Bool, true, false, ◌≡◌, refl, ap, ◌∙◌, List, [], ◌∷◌, ◌++◌, map, length, All, arith,
  if◌then◌else◌,
}
use kavach_ai.Experiments.Calibration.{keep}

module _ {A : Type 0} where
  abbrev pub count : (A → Bool) → List A → ℕ
  unfolding keep
  count test xs = length (keep test xs)

  pub count-cons :
      (test : A → Bool) (x : A) (xs : List A)
      → count test (x ∷ xs) ≡ (if test x then 1 else 0) + count test xs
  unfolding keep
  count-cons test x xs = by_test (test x)
    where
      by_test :
          (b : Bool)
          → length (if b then x ∷ keep test xs else keep test xs)
            ≡ (if b then 1 else 0) + length (keep test xs)
      by_test true = omega arith
      by_test false = omega arith

  pub count-append :
      (test : A → Bool) (xs ys : List A) → count test (xs ++ ys) ≡ count test xs + count test ys
  unfolding keep
  count-append test [] ys = omega arith
  count-append test (x ∷ xs) ys =
      omega (arith, count-cons test x (xs ++ ys), count-cons test x xs, count-append test xs ys)

  pub count-none :
      (test : A → Bool) (xs : List A) → All (λ x. test x ≡ false) xs → count test xs ≡ 0
  unfolding keep
  count-none test [] h = refl
  count-none test (x ∷ xs) (e, h) =
      omega
        (arith, count-cons test x xs, ap {B = ℕ} (λ b. if b then 1 else 0) e, count-none test xs h)

  Permᴰ-count : (test : A → Bool) {xs ys : List A} → Permᴰ xs ys → count test xs ≡ count test ys
  unfolding keep
  Permᴰ-count test Permᴰ.nil = refl
  Permᴰ-count test (Permᴰ.cons {b} {l₁ = xs} {l₂ = ys} e p) =
      rw e (omega (arith, count-cons test b xs, count-cons test b ys, Permᴰ-count test p))
  Permᴰ-count test (Permᴰ.swap {a'} {b'} {l = xs} e f) =
      rw (e, f)
        (omega (
          arith,
          count-cons test b' (a' ∷ xs),
          count-cons test a' xs,
          count-cons test a' (b' ∷ xs),
          count-cons test b' xs,
        ))
  Permᴰ-count test (Permᴰ.trans p q) = Permᴰ-count test p ∙ Permᴰ-count test q

  -- A count does not depend on the order.
  pub Perm-count : (test : A → Bool) {xs ys : List A} → Perm xs ys → count test xs ≡ count test ys
  Perm-count test p = ∥∥₁_elim p (ℕ_set _ _) (Permᴰ-count test)

pub count-map :
    {A B : Type 0} (test : B → Bool) (f : A → B) (xs : List A)
    → count test (map f xs) ≡ count (λ x. test (f x)) xs
unfolding keep
count-map test f [] = refl
count-map test f (x ∷ xs) = omega (
  arith,
  count-cons test (f x) (map f xs),
  count-cons (λ y. test (f y)) x xs,
  count-map test f xs,
)
