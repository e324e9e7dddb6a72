-- ===== src/Common/Numbers.antt =====
-- Signed integers over the native numbers, and the values of Python's `float`.
use Prim.Native.Nat.{ℕ, suc, ◌+◌, ◌-◌, ◌*◌, ◌≤◌, ◌^◌}
use mathlib.Core.Bool.{Bool, true, false}
use kavach_ai.Common.Tests.{ltb, leb, eqb}

-- `negsuc n` is -(n + 1).
pub data ℤ : Type 0 where
  pos : ℕ → ℤ
  negsuc : ℕ → ℤ

abbrev pub pos_part : ℤ → ℕ
pos_part (pos n) = n
pos_part (negsuc _) = 0

abbrev pub neg_part : ℤ → ℕ
neg_part (pos _) = 0
neg_part (negsuc n) = suc n

infix 50 ◌≤ℤ◌ ◌<ℤ◌
abbrev pub ◌≤ℤ◌ : ℤ → ℤ → Type 0
a ≤ℤ b = pos_part a + neg_part b ≤ pos_part b + neg_part a

abbrev pub ◌<ℤ◌ : ℤ → ℤ → Type 0
a <ℤ b = suc (pos_part a + neg_part b) ≤ pos_part b + neg_part a

abbrev pub leb_ℤ : ℤ → ℤ → Bool
leb_ℤ a b = leb (pos_part a + neg_part b) (pos_part b + neg_part a)

abbrev pub ltb_ℤ : ℤ → ℤ → Bool
ltb_ℤ a b = ltb (pos_part a + neg_part b) (pos_part b + neg_part a)

abbrev pub eqb_ℤ : ℤ → ℤ → Bool
eqb_ℤ a b = eqb (pos_part a + neg_part b) (pos_part b + neg_part a)

-- A finite double is a whole multiple of 2^-1074, so `finite z` stands for z * 2^-1074, exactly.
pub data Float : Type 0 where
  nan inf neg_inf : Float
  finite : ℤ → Float

-- how many of those units make 1
unfoldable pub float_unit : ℕ
float_unit = 2 ^ 1074

-- `math.isfinite`
abbrev pub isfinite : Float → Bool
isfinite (finite _) = true
isfinite _ = false

-- A whole number on the scale of `finite`.
abbrev pub scaled : ℤ → ℤ
scaled (pos n) = pos (n * float_unit)
scaled (negsuc n) = negsuc (suc n * float_unit - 1)

-- `a <= b` for finite doubles and the infinities; false at nan
abbrev pub le_float : Float → Float → Bool
le_float nan _ = false
le_float neg_inf nan = false
le_float neg_inf _ = true
le_float inf inf = true
le_float inf _ = false
le_float (finite a) (finite b) = leb_ℤ a b
le_float (finite _) inf = true
le_float (finite _) _ = false

abbrev pub lt_float : Float → Float → Bool
lt_float nan _ = false
lt_float neg_inf nan = false
lt_float neg_inf neg_inf = false
lt_float neg_inf _ = true
lt_float inf _ = false
lt_float (finite a) (finite b) = ltb_ℤ a b
lt_float (finite _) inf = true
lt_float (finite _) _ = false

-- `n == x` for an int and a double
abbrev pub eq_int_float : ℤ → Float → Bool
eq_int_float n (finite z) = eqb_ℤ (scaled n) z
eq_int_float n _ = false
