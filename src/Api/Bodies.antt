-- ===== src/Api/Bodies.antt =====
-- The request bodies of main.py and the constraints on their fields. A body that does not fit its
-- model is answered 422 by FastAPI before the handler runs.
use Prim.Native.Char.{Char, code}
use Prim.Native.String.{String, [], ◌∷◌}
use kavach_ai.Common.{
  ℕ, starts_with, drop_chars, chars, ℤ, pos, leb_ℤ, ltb_ℤ, leb, eqb, Bool, true, ◌&&◌, ◌||◌,
}
use kavach_ai.Py.{str, int, Fields, end, field}

pub record Login : Type 0 where
  pub username : String
  pub password : String

pub record Payment : Type 0 where
  pub amount_minor : ℤ
  pub recipient : String
  pub request_id : String

pub record Confirmation : Type 0 where
  pub transaction_id : String

unfoldable pub is_digit : Char → Bool
is_digit c = leb b'0' (code c) && leb (code c) b'9'

-- `[a-zA-Z0-9_-]`
unfoldable pub is_word : Char → Bool
unfolding is_digit
is_word c =
    is_digit c
    || leb b'a' (code c) && leb (code c) b'z'
    || leb b'A' (code c) && leb (code c) b'Z'
    || eqb (code c) b'_'
    || eqb (code c) b'-'

unfoldable pub every : (Char → Bool) → String → Bool
every p [] = true
every p (c ∷ s) = p c && every p s

-- `^p{lo,hi}$`
unfoldable pub repeats : (Char → Bool) → ℕ → ℕ → String → Bool
unfolding every
repeats p lo hi s = leb lo (chars s) && leb (chars s) hi && every p s

-- `^prefix[0-9]{1,4}$`, for a prefix of n characters
unfoldable pub numbered : String → ℕ → String → Bool
unfolding repeats is_digit
numbered stem n s = starts_with stem s && repeats is_digit 1 4 (drop_chars n s)

unfoldable pub login_valid : Login → Bool
unfolding numbered
login_valid b = numbered "synthetic-user-" 15 b.username && leb (chars b.password) 100

unfoldable pub payment_valid : Payment → Bool
unfolding numbered repeats is_word
payment_valid b =
    ltb_ℤ (pos 0) b.amount_minor
    && leb_ℤ b.amount_minor (pos 1_000_000)
    && numbered "synthetic-merchant-" 19 b.recipient
    && repeats is_word 1 64 b.request_id

unfoldable pub confirmation_valid : Confirmation → Bool
confirmation_valid b = leb 10 (chars b.transaction_id) && leb (chars b.transaction_id) 2048

-- `body.model_dump()`
unfoldable pub dump_payment : Payment → Fields
dump_payment b =
    field "amount_minor" (int b.amount_minor)
      (field "recipient" (str b.recipient) (field "request_id" (str b.request_id) end))
