-- ===== src/Py/Merging.antt =====
-- Laws of setting a key and of merging dicts.
use text.Mathlib.Text.{◌==◌}
use kavach_ai.Common.{
  String, ◌≡◌, refl, inl, inr, Option, none, some, All, if◌then◌else◌, eq_iff, arith, Bool-cases,
}
use kavach_ai.Py.Values.{Value, Fields, end, field, values, lookup, HasUniqueKeys}
use kavach_ai.Py.Subscript.{put, merge}

pub lookup-put :
    (j k : String) (v : Value) (d : Fields)
    → lookup j (put k v d) ≡ (if k == j then some v else lookup j d)
unfolding lookup put
lookup-put j k v end = refl
lookup-put j k v (field i w d) =
    ground (arith, lookup-put j k v d, eq_iff i k, eq_iff k j, eq_iff i j)

pub put-HasUniqueKeys :
    (k : String) (v : Value) (d : Fields) → HasUniqueKeys d → HasUniqueKeys (put k v d)
unfolding put
put-HasUniqueKeys k v end h = (unfold lookup in refl, tt)
put-HasUniqueKeys k v (field j w d) (missing, h) =
    ground (arith, put-HasUniqueKeys k v d h, lookup-put j k v d, eq_iff j k, eq_iff k j)

pub merge-HasUniqueKeys : (d e : Fields) → HasUniqueKeys d → HasUniqueKeys (merge d e)
unfolding merge
merge-HasUniqueKeys d end h = h
merge-HasUniqueKeys d (field k v e) h =
    merge-HasUniqueKeys (put k v d) e (put-HasUniqueKeys k v d h)

module _ (P : Value → Type 0) where
  put-All :
      (k : String) (v : Value) (d : Fields) → P v → All P (values d) → All P (values (put k v d))
  unfolding put
  put-All k v end p h = (p, tt)
  put-All k v (field j w d) p (q, h) = elim (Bool-cases (j == k)) [
    | inl same ↦ rw same (p, h)
    | inr other ↦ rw other (q, put-All k v d p h)
  ]

  pub merge-All : (d e : Fields) → All P (values d) → All P (values e) → All P (values (merge d e))
  unfolding merge
  merge-All d end h k = h
  merge-All d (field j v e) h (p, k) = merge-All (put j v d) e (put-All j v d p h) k

-- the right dict's value, or else the left one's
abbrev pub first_some : Option Value → Option Value → Option Value
first_some (some v) _ = some v
first_some none o = o

pub lookup-merge :
    (j : String) (d e : Fields)
    → HasUniqueKeys e
    → lookup j (merge d e) ≡ first_some (lookup j e) (lookup j d)
unfolding lookup merge
lookup-merge j d end h = refl
lookup-merge j d (field k v e) (missing, h) =
    ground (arith, lookup-merge j (put k v d) e h, lookup-put j k v d, eq_iff k j)
