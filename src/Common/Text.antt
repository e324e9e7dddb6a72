-- ===== src/Common/Text.antt =====
-- Texts character by character: joining, splitting at a character, prefixes.
use Prim.Native.Nat.{ℕ, zero, suc, ◌+◌}
use Prim.Native.Char.{Char, code}
use Prim.Native.String
use Prim.Native.String.{String, [], ◌∷◌}
use mathlib.Core.Path.{◌≡◌, refl}
use mathlib.Core.Logic.{◌≢◌}
use mathlib.Core.Bool.{Bool, true, false, ◌&&◌}
use mathlib.Core.List.{List}
use native.Mathlib.Omega.{arith}
use text.Mathlib.TextLemmas.{nil-append, cons-append}
use kavach_ai.Common.Tests.{eqb, if◌then◌else◌}

-- `s + t`
abbrev pub cat : String → String → String
cat = String.◌++◌

-- a character put in front of the first piece
abbrev push_first : Char → List String → List String
push_first c List.[] = List.[]
push_first c (List.◌∷◌ s rest) = List.◌∷◌ (c ∷ s) rest

-- `s.split(sep)` for a separator of one character, given by its code
unfoldable pub split : ℕ → String → List String
split sep [] = List.◌∷◌ "" List.[]
split sep (c ∷ s) =
    let rest = split sep s in if eqb (code c) sep then List.◌∷◌ "" rest else push_first c rest

-- `s.startswith(prefix)`
unfoldable pub starts_with : String → String → Bool
starts_with [] s = true
starts_with (c ∷ p) [] = false
starts_with (c ∷ p) (d ∷ s) = eqb (code c) (code d) && starts_with p s

-- `s[n:]`
unfoldable pub drop_chars : ℕ → String → String
drop_chars zero s = s
drop_chars (suc n) [] = ""
drop_chars (suc n) (c ∷ s) = drop_chars n s

-- no character of the text has this code
abbrev pub Lacks : ℕ → String → Type 0
Lacks sep [] = Unit
Lacks sep (c ∷ s) = (code c ≢ sep) × Lacks sep s

abbrev pub one : String → List String
one s = List.◌∷◌ s List.[]

pub split-Lacks : (sep : ℕ) (s : String) → Lacks sep s → split sep s ≡ one s
unfolding split
split-Lacks sep [] h = refl
split-Lacks sep (c ∷ s) (p, h) = ground (arith, split-Lacks sep s h)

-- A text with one separator in it splits into the two parts around it.
pub split-cat :
    (sep : Char) (a b : String)
    → Lacks (code sep) a
    → Lacks (code sep) b
    → split (code sep) (cat a (sep ∷ b)) ≡ List.◌∷◌ a (one b)
unfolding split
split-cat sep [] b h k = rw nil-append (ground (arith, split-Lacks (code sep) b k))
split-cat sep (c ∷ a) b (p, h) k = rw cons-append (ground (arith, split-cat sep a b h k))

pub starts_with-cat : (p s : String) → starts_with p (cat p s) ≡ true
unfolding starts_with
starts_with-cat [] s = refl
starts_with-cat (c ∷ p) s = rw cons-append (ground (arith, starts_with-cat p s))

-- the number of characters, as a recursion that `drop_chars` follows
abbrev pub chars : String → ℕ
chars [] = 0
chars (c ∷ s) = suc (chars s)

pub drop_chars-cat : (p s : String) → drop_chars (chars p) (cat p s) ≡ s
unfolding drop_chars
drop_chars-cat [] s = nil-append s
drop_chars-cat (c ∷ p) s = rw cons-append (drop_chars-cat p s)

-- the one-character texts that iterating over a text gives
abbrev pub letters : String → List String
letters [] = List.[]
letters (c ∷ s) = List.◌∷◌ (c ∷ "") (letters s)

pub Lacks-cat : (sep : ℕ) (a b : String) → Lacks sep a → Lacks sep b → Lacks sep (cat a b)
Lacks-cat sep [] b h k = rw nil-append k
Lacks-cat sep (c ∷ a) b (p, h) k = rw cons-append (p, Lacks-cat sep a b h k)

pub chars-cat : (a b : String) → chars (cat a b) ≡ chars a + chars b
chars-cat [] b = rw nil-append (omega arith)
chars-cat (c ∷ a) b = rw cons-append (omega (arith, chars-cat a b))
