-- ===== src/Example/Codec.antt =====
-- Small encodings with an inverse, which stand in for base64 and JSON in the example runtime.
use Prim.Native.Char.{Char, code}
use Prim.Native.String.{String, [], ◌∷◌}
use text.Mathlib.Text.{◌==◌}
use text.Mathlib.TextEquality.{Char-path}
use kavach_ai.Common.{
  ℕ, zero, suc, ◌+◌, ◌*◌, ◌/◌, ◌%◌, Bool-cases, inl, inr, ◌⊎◌, ◌≢◌, ◌≡◌, refl, Lacks, List,
  if◌then◌else◌, eqb, arith, pos, negsuc, All,
}
use kavach_ai.Py.{Value, null, str, int, bool, float, list, dict, Fields, end, field, values}
use kavach_ai.Api.Runtime.{IsScalar}

-- two letters for a character: a mark, and the character if it is not `=`, `.` or `/`
abbrev pair : Char → String → String
pair c rest =
    if eqb (code c) b'='
    then "q" ∷ "q" ∷ rest
    else if eqb (code c) b'.'
    then "d" ∷ "d" ∷ rest
    else if eqb (code c) b'/'
    then "s" ∷ "s" ∷ rest
    else "x" ∷ c ∷ rest

abbrev unpair : Char → Char → Char
unpair a c =
    if eqb (code a) b'q'
    then "="
    else if eqb (code a) b'd'
    then "."
    else if eqb (code a) b's'
    then "/"
    else c

unfoldable pub escape : String → String
escape [] = ""
escape (c ∷ s) = pair c (escape s)

unfoldable pub unescape : String → String
unescape [] = ""
unescape (a ∷ []) = ""
unescape (a ∷ c ∷ s) = unpair a c ∷ unescape s

-- what `pair` tells apart
Pair-cases :
    (c : Char)
    → (c ≡ "=")
      ⊎ ((c ≡ ".")
          ⊎ ((c ≡ "/")
              ⊎ (((rest : String) → pair c rest ≡ "x" ∷ c ∷ rest)
                  × ((code c ≢ b'=') × ((code c ≢ b'.') × (code c ≢ b'/'))))))
Pair-cases c = elim (Bool-cases (eqb (code c) b'=')) [
  | inl h ↦ inl (Char-path c "=" (ground arith))
  | inr h ↦ elim (Bool-cases (eqb (code c) b'.')) [
    | inl k ↦ inr (inl (Char-path c "." (ground arith)))
    | inr k ↦ elim (Bool-cases (eqb (code c) b'/')) [
      | inl l ↦ inr (inr (inl (Char-path c "/" (ground arith))))
      | inr l ↦
          inr
            (inr (inr ((λ rest. rw (h, k, l) refl), (ground arith, (ground arith, ground arith)))))
    ]
  ]
]

pub unescape-escape : (s : String) → unescape (escape s) ≡ s
unfolding escape unescape
unescape-escape [] = refl
unescape-escape (c ∷ s) = elim (Pair-cases c) [
  | inl e ↦ rw (e, unescape-escape s) refl
  | inr (inl e) ↦ rw (e, unescape-escape s) refl
  | inr (inr (inl e)) ↦ rw (e, unescape-escape s) refl
  | inr (inr (inr (e, _))) ↦ rw (e (escape s), unescape-escape s) refl
]

-- no pair holds a character that no mark is and that `pair` replaces
abbrev IsReplaced : ℕ → Type 0
IsReplaced n = (n ≡ b'=') ⊎ ((n ≡ b'.') ⊎ (n ≡ b'/'))

Lacks-pair :
    (n : ℕ) (c : Char) (rest : String) → IsReplaced n → Lacks n rest → Lacks n (pair c rest)
Lacks-pair n c rest r h = elim (Pair-cases c) [
  | inl e ↦ rw e (ground (arith, r), (ground (arith, r), h))
  | inr (inl e) ↦ rw e (ground (arith, r), (ground (arith, r), h))
  | inr (inr (inl e)) ↦ rw e (ground (arith, r), (ground (arith, r), h))
  | inr (inr (inr (e, (p, (q, l))))) ↦
      rw (e rest) (ground (arith, r), (ground (arith, r, p, q, l), h))
]

pub Lacks-escape : (n : ℕ) (s : String) → IsReplaced n → Lacks n (escape s)
unfolding escape
Lacks-escape n [] r = tt
Lacks-escape n (c ∷ s) r = Lacks-pair n c (escape s) r (Lacks-escape n s r)

-- a text with its end marked, in front of another
unfoldable pub put_text : String → String → String
put_text [] rest = "e" ∷ rest
put_text (c ∷ s) rest = "x" ∷ c ∷ put_text s rest

abbrev push : Char → List String → List String
push c List.[] = List.[]
push c (List.◌∷◌ s ss) = List.◌∷◌ (c ∷ s) ss

unfoldable pub texts : String → List String
texts [] = List.[]
texts (a ∷ []) = List.◌∷◌ "" List.[]
texts (a ∷ c ∷ s) =
    let rest = texts (c ∷ s) in
    let after = texts s in if eqb (code a) b'e' then List.◌∷◌ "" rest else push c after

texts-put_text : (s rest : String) → texts (put_text s rest) ≡ List.◌∷◌ s (texts rest)
unfolding texts put_text
texts-put_text [] [] = refl
texts-put_text [] (c ∷ rest) = refl
texts-put_text (c ∷ s) rest = rw (texts-put_text s rest) refl

-- so many strokes
unfoldable pub strokes : ℕ → String
strokes zero = ""
strokes (suc n) = "1" ∷ strokes n

-- so many marks of a hundred in front of a text
unfoldable pub hundreds : ℕ → String → String
hundreds zero s = s
hundreds (suc n) s = "h" ∷ hundreds n s

unfoldable pub numeral : ℕ → String
unfolding strokes hundreds
numeral n = hundreds (n / 100) (strokes (n % 100))

-- the number that a numeral denotes
unfoldable pub amount : String → ℕ
amount [] = 0
amount (c ∷ s) = (if eqb (code c) b'h' then 100 else 1) + amount s

amount-strokes : (n : ℕ) → amount (strokes n) ≡ n
unfolding strokes amount
amount-strokes zero = refl
amount-strokes (suc n) = omega (arith, amount-strokes n)

amount-hundreds : (n : ℕ) (s : String) → amount (hundreds n s) ≡ 100 * n + amount s
unfolding hundreds amount
amount-hundreds zero s = omega arith
amount-hundreds (suc n) s = omega (arith, amount-hundreds n s)

amount-numeral : (n : ℕ) → amount (numeral n) ≡ n
unfolding numeral
amount-numeral n =
    omega (arith, amount-hundreds (n / 100) (strokes (n % 100)), amount-strokes (n % 100))

unfoldable pub dump_fields : Fields → String
dump_fields end = ""
dump_fields (field k (str s) d) = put_text k (put_text "s" (put_text s (dump_fields d)))
dump_fields (field k (int (pos n)) d) =
    put_text k (put_text "p" (put_text (numeral n) (dump_fields d)))
dump_fields (field k (int (negsuc n)) d) =
    put_text k (put_text "n" (put_text (numeral n) (dump_fields d)))
dump_fields (field k _ d) = put_text k (put_text "z" (put_text "" (dump_fields d)))

abbrev read_value : String → String → Value
read_value t s =
    if t == "s"
    then str s
    else if t == "p"
    then int (pos (amount s))
    else if t == "n"
    then int (negsuc (amount s))
    else null

unfoldable pub read_fields : List String → Fields
read_fields (List.◌∷◌ k (List.◌∷◌ t (List.◌∷◌ s rest))) =
    field k (read_value t s) (read_fields rest)
read_fields _ = end

read_fields-put_text :
    (k t s rest : String)
    → read_fields (texts (put_text k (put_text t (put_text s rest))))
      ≡ field k (read_value t s) (read_fields (texts rest))
unfolding read_fields
read_fields-put_text k t s rest =
    rw
      (
        texts-put_text k (put_text t (put_text s rest)),
        texts-put_text t (put_text s rest),
        texts-put_text s rest,
      )
      refl

pub read_fields-dump_fields :
    (d : Fields) → All IsScalar (values d) → read_fields (texts (dump_fields d)) ≡ d
unfolding dump_fields read_fields texts
read_fields-dump_fields end h = refl
read_fields-dump_fields (field k (str s) d) (_, h) =
    rw (read_fields-put_text k "s" s (dump_fields d), read_fields-dump_fields d h) refl
read_fields-dump_fields (field k (int (pos n)) d) (_, h) =
    rw
      (
        read_fields-put_text k "p" (numeral n) (dump_fields d),
        read_fields-dump_fields d h,
        amount-numeral n,
      )
      refl
read_fields-dump_fields (field k (int (negsuc n)) d) (_, h) =
    rw
      (
        read_fields-put_text k "n" (numeral n) (dump_fields d),
        read_fields-dump_fields d h,
        amount-numeral n,
      )
      refl
read_fields-dump_fields (field k null d) (x, h) = absurd x
read_fields-dump_fields (field k (bool b) d) (x, h) = absurd x
read_fields-dump_fields (field k (float b) d) (x, h) = absurd x
read_fields-dump_fields (field k (list b) d) (x, h) = absurd x
read_fields-dump_fields (field k (dict b) d) (x, h) = absurd x
