-- ===== src/Py/Values.antt =====
-- Python values, dictionaries with text keys in insertion order, and lookups in them.
use text.Mathlib.Text.{◌==◌}
use kavach_ai.Common.{
  String, ℤ, pos, Float, eq_int_float, eqb_ℤ, Bool, true, false, ◌≡◌, List, [], ◌∷◌, Option, none,
  some, if◌then◌else◌,
}

mutual
  pub data Value : Type 0 where
    null : Value
    bool : Bool → Value
    int : ℤ → Value
    float : Float → Value
    str : String → Value
    list : Items → Value
    dict : Fields → Value

  pub data Items : Type 0 where
    nil : Items
    cons : Value → Items → Items

  pub data Fields : Type 0 where
    end : Fields
    field : String → Value → Fields → Fields

abbrev pub items : Items → List Value
items nil = []
items (cons v vs) = v ∷ items vs

-- `d.keys()` and `d.values()`
abbrev pub keys : Fields → List String
keys end = []
keys (field k v d) = k ∷ keys d

abbrev pub values : Fields → List Value
values end = []
values (field k v d) = v ∷ values d

-- `d[k]`, where a missing key is `none`
unfoldable pub lookup : String → Fields → Option Value
lookup k end = none
lookup k (field j v d) = if j == k then some v else lookup k d

-- `d.get(k, default)`
unfoldable pub get_or : String → Value → Fields → Value
unfolding lookup
get_or k default d = elim (lookup k d) [ none ↦ default | some v ↦ v ]

-- `d.get(k)`
unfoldable pub get : String → Fields → Value
unfolding get_or
get k = get_or k null

-- `isinstance(v, int)`: a bool is an int
abbrev pub isinstance_int : Value → Bool
isinstance_int (bool _) = true
isinstance_int (int _) = true
isinstance_int _ = false

abbrev pub isinstance_bool : Value → Bool
isinstance_bool (bool _) = true
isinstance_bool _ = false

-- `v == s` for a text
abbrev pub eq_text : String → Value → Bool
eq_text s (str t) = s == t
eq_text s _ = false

-- `n == v` for an int: bools and doubles compare by their numbers
abbrev pub eq_int : ℤ → Value → Bool
eq_int n (int m) = eqb_ℤ n m
eq_int n (bool true) = eqb_ℤ n (pos 1)
eq_int n (bool false) = eqb_ℤ n (pos 0)
eq_int n (float x) = eq_int_float n x
eq_int n _ = false

-- a dict holds a key once
abbrev pub HasKey : String → Fields → Type 0
HasKey k d = lookup k d ≡ none → ⊥

abbrev pub HasUniqueKeys : Fields → Type 0
HasUniqueKeys end = Unit
HasUniqueKeys (field k v d) = (lookup k d ≡ none) × HasUniqueKeys d
