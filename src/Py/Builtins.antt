-- ===== src/Py/Builtins.antt =====
-- Truth, length and numbered elements of a value, and a method call on what may be no dict.
use text.Mathlib.Text.{◌==◌}
use kavach_ai.Common.{
  ℕ, zero, suc, String, chars, pos, eq_int_float, eqb_ℤ, Bool, true, false, not, List, [], ◌∷◌,
  length, letters,
}
use kavach_ai.Py.Values.{
  Value, null, bool, int, float, str, list, dict, nil, cons, end, field, keys, items, get,
}
use kavach_ai.Py.Raises.{Result, ok, raised, type_error, attribute_error, key_error, other_error}

-- `bool(v)`
unfoldable pub truthy : Value → Bool
truthy null = false
truthy (bool b) = b
truthy (int n) = not (eqb_ℤ n (pos 0))
truthy (float x) = not (eq_int_float (pos 0) x)
truthy (str s) = not (s == "")
truthy (list nil) = false
truthy (list (cons _ _)) = true
truthy (dict end) = false
truthy (dict (field _ _ _)) = true

-- `len(v)`
unfoldable pub len : Value → Result ℕ
len (str s) = ok (chars s)
len (list vs) = ok (length (items vs))
len (dict d) = ok (length (keys d))
len _ = raised type_error

-- an element by its number, or an IndexError
abbrev pub nth : ℕ → List Value → Result Value
nth i [] = raised (other_error "IndexError" "")
nth zero (v ∷ vs) = ok v
nth (suc i) (v ∷ vs) = nth i vs

-- the texts as values
abbrev pub texts_of : List String → List Value
texts_of [] = []
texts_of (s ∷ ss) = str s ∷ texts_of ss

-- `v[i]` for a number i of at least 0; a dict here has text keys only
unfoldable pub element : Value → ℕ → Result Value
element (list vs) i = nth i (items vs)
element (str s) i = nth i (texts_of (letters s))
element (dict d) i = raised key_error
element _ i = raised type_error

-- `v.get(k)`
unfoldable pub get_of : Value → String → Result Value
get_of (dict d) k = ok (get k d)
get_of _ k = raised attribute_error
