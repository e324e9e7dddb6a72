-- ===== src/Workload/Issue/Words.antt =====
-- The names that the generator writes against the patterns of the service's request models.
use Prim.Native.Char.{Char}
use Prim.Native.String.{[], ◌∷◌}
use text.Mathlib.TextLemmas.{nil-append, cons-append}
use kavach_ai.Common.{
  ℕ, ◌+◌, ◌≤◌, ◌<◌, String, cat, chars, chars-cat, starts_with, drop_chars, starts_with-cat,
  drop_chars-cat, Bool, true, ◌&&◌, ◌≡◌, refl, pos, arith, and_true,
}
use kavach_ai.Api.Runtime.{Runtime, IsRuntime}
use kavach_ai.Api.Bodies.{is_digit, is_word, every, repeats, numbered, login_valid, payment_valid}

every-cat : (p : Char → Bool) (a b : String) → every p (cat a b) ≡ (every p a && every p b)
unfolding every
every-cat p [] b = rw nil-append refl
every-cat p (c ∷ a) b = rw cons-append (ground (arith, every-cat p a b))

is_word_of_digit : (c : Char) → is_digit c ≡ true → is_word c ≡ true
unfolding is_word
is_word_of_digit c h = rw h refl

every_word_of_digits : (s : String) → every is_digit s ≡ true → every is_word s ≡ true
unfolding every
every_word_of_digits [] h = refl
every_word_of_digits (c ∷ s) h =
    let (first, rest) = and_true _ _ h in
    rw (is_word_of_digit c first) (every_word_of_digits s rest)

trace_word : every is_word "trace-" ≡ true
unfolding every is_word
trace_word = refl

merchant_valid : numbered "synthetic-merchant-" 19 "synthetic-merchant-1" ≡ true
unfolding numbered starts_with drop_chars
merchant_valid = refl

module _ (rt : Runtime) (laws : IsRuntime rt) where
  -- a user name of the generator, with its number below 10000
  pub login_valid_user :
      (n : ℕ)
      → n < 10000
      → login_valid
          (record { username = cat "synthetic-user-" (rt.decimal n); password = "synthetic-only" })
        ≡ true
  unfolding login_valid
  login_valid_user n h =
      let digits = laws.decimal_digits n 4 (omega arith) (omega arith) in
      rw
        (
          starts_with-cat "synthetic-user-" (rt.decimal n),
          drop_chars-cat "synthetic-user-" (rt.decimal n),
        )
        (ground arith)

  -- a request id of a stem and a number
  numbered_word :
      (stem : String) (n : ℕ)
      → every is_word stem ≡ true
      → chars stem ≤ 57
      → n < 10000000
      → repeats is_word 1 64 (cat stem (rt.decimal n)) ≡ true
  unfolding repeats
  numbered_word stem n stem_word short h =
      let digits = laws.decimal_digits n 7 (omega arith) (omega arith) in
      let word = every_word_of_digits (rt.decimal n) (ground arith) in
      let size : chars (cat stem (rt.decimal n)) ≡ chars stem + chars (rt.decimal n) =
        chars-cat stem (rt.decimal n) in
      rw (size, every-cat is_word stem (rt.decimal n), word, stem_word) (ground arith)

  -- a payment of an amount in the bounds with such a request id
  pub numbered_payment_valid :
      (stem : String) (amount n : ℕ)
      → every is_word stem ≡ true
      → chars stem ≤ 57
      → 1 ≤ amount
      → amount ≤ 1000000
      → n < 10000000
      → payment_valid (record {
        amount_minor = pos amount;
        recipient = "synthetic-merchant-1";
        request_id = cat stem (rt.decimal n);
      })
        ≡ true
  unfolding payment_valid
  numbered_payment_valid stem amount n stem_word short a b h =
      rw (numbered_word stem n stem_word short h, merchant_valid) (ground arith)

  -- the payload of a row with a drawn amount
  pub payment_valid_row :
      (amount n : ℕ)
      → 1 ≤ amount
      → amount ≤ 1000000
      → n < 10000000
      → payment_valid (record {
        amount_minor = pos amount;
        recipient = "synthetic-merchant-1";
        request_id = cat "trace-" (rt.decimal n);
      })
        ≡ true
  payment_valid_row amount n = numbered_payment_valid "trace-" amount n trace_word (omega arith)
