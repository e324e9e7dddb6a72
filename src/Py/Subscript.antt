-- ===== src/Py/Subscript.antt =====
-- `v[k]`, and equality and merging of values.
use text.Mathlib.Text.{◌==◌}
use kavach_ai.Common.{
  String, ℤ, pos, Float, inf, neg_inf, finite, eq_int_float, eqb_ℤ, Bool, true, false, ◌&&◌, ◌≡◌,
  refl, none, some, if◌then◌else◌, eqb, length, eq_iff, arith,
}
use kavach_ai.Py.Values.{
  Value, null, bool, int, float, str, list, dict, Items, nil, cons, Fields, end, field, keys,
  lookup, eq_int, eq_text,
}
use kavach_ai.Py.Raises.{Result, ok, raised, key_error, type_error}

-- `v[k]` for a text `k`
unfoldable pub subscript : Value → String → Result Value
subscript (dict d) k = elim (lookup k d) [ none ↦ raised key_error | some v ↦ ok v ]
subscript _ k = raised type_error

pub subscript_found :
    (d : Fields) (k : String) {v : Value} → lookup k d ≡ some v → subscript (dict d) k ≡ ok v
unfolding subscript
subscript_found d k e = rw (e, subscript) refl

pub subscript_sound :
    (v : Value) (k : String) {w : Value}
    → subscript v k ≡ ok w
    → (d : Fields) × (v ≡ dict d) × (lookup k d ≡ some w)
unfolding subscript
subscript_sound (dict d) k h = (d, refl, ground arith)
subscript_sound v k h = absurd (cc h)

pub eq_text_sound : (s : String) (v : Value) → eq_text s v ≡ true → v ≡ str s
eq_text_sound s (str t) h = ground (arith, eq_iff s t)
eq_text_sound s v h = cc

-- `x == y` for doubles: nan equals nothing
unfoldable pub eq_float : Float → Float → Bool
eq_float inf inf = true
eq_float neg_inf neg_inf = true
eq_float (finite a) (finite b) = eqb_ℤ a b
eq_float _ _ = false

-- `True` and `False` are the numbers 1 and 0
abbrev pub bool_int : Bool → ℤ
bool_int true = pos 1
bool_int false = pos 0

-- `v == w`; dicts compare by their keys and values, in any order
unfoldable mutual
  unfolding eq_float

  pub eq_value : Value → Value → Bool
  eq_value null null = true
  eq_value null _ = false
  eq_value (bool b) w = eq_int (bool_int b) w
  eq_value (int n) w = eq_int n w
  eq_value (float x) (float y) = eq_float x y
  eq_value (float x) (int n) = eq_int_float n x
  eq_value (float x) (bool b) = eq_int_float (bool_int b) x
  eq_value (float x) _ = false
  eq_value (str s) (str t) = s == t
  eq_value (str s) _ = false
  eq_value (list vs) (list ws) = eq_items vs ws
  eq_value (list vs) _ = false
  eq_value (dict d) (dict e) = eqb (length (keys d)) (length (keys e)) && eq_fields d e
  eq_value (dict d) _ = false

  pub eq_items : Items → Items → Bool
  eq_items nil nil = true
  eq_items nil (cons w ws) = false
  eq_items (cons v vs) nil = false
  eq_items (cons v vs) (cons w ws) = eq_value v w && eq_items vs ws

  pub eq_fields : Fields → Fields → Bool
  eq_fields end e = true
  eq_fields (field k v d) e =
      elim (lookup k e) [ none ↦ false | some w ↦ eq_value v w ] && eq_fields d e

-- `d[k] = v`
unfoldable pub put : String → Value → Fields → Fields
put k v end = field k v end
put k v (field j w d) = if j == k then field j v d else field j w (put k v d)

-- `{**d, **e}`
unfoldable pub merge : Fields → Fields → Fields
merge d end = d
merge d (field k v e) = merge (put k v d) e
