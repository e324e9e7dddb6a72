-- ===== src/Example/Runtime.antt =====
-- A runtime with small functions in place of HMAC, SHA-256, JSON and base64.
use kavach_ai.Common.{
  ℕ, ◌≡◌, ◌∙◌, ◌≤◌, inl, inr, refl, ap, String, cat, true, [], some, pos, finite, arith,
}
use kavach_ai.Py.{dict, ok}
use kavach_ai.Api.Reply.{http_error}
use kavach_ai.Api.Bodies.{repeats, is_digit, every}
use kavach_ai.Api.Runtime.{Runtime, IsRuntime, equal_signs, missing_padding}
use kavach_ai.Api.Token.{rstrip_equals}
use kavach_ai.Api.Token.Laws.{rstrip-cat}
use kavach_ai.Example.Codec.{
  escape, unescape, unescape-escape, Lacks-escape, texts, dump_fields, read_fields,
  read_fields-dump_fields,
}

abbrev pub padded : String → String
padded s = cat (escape s) (equal_signs (missing_padding (escape s)))

abbrev pub small_runtime : Runtime
small_runtime = record {
  hmac_hex = λ key message. "0f";
  sha256 = λ s. [];
  dumps = dump_fields;
  loads = λ s. ok (dict (read_fields (texts s)));
  b64encode = padded;
  b64decode = λ s. some (unescape (rstrip_equals s));
  divide = λ m n. finite (pos m);
  decimal = λ n. "7";
  format = λ v. "";
  elsewhere = λ verb path. http_error 404 "Not Found";
}

unescape-padded : (s : String) → unescape (rstrip_equals (padded s)) ≡ s
unescape-padded s =
    ap unescape
      (rstrip-cat (escape s) (missing_padding (escape s)) (Lacks-escape b'=' s (inl refl)))
    ∙ unescape-escape s

one_digit : (k : ℕ) → 1 ≤ k → repeats is_digit 1 k "7" ≡ true
unfolding repeats every is_digit
one_digit k h = ground arith

pub small_runtime-IsRuntime : IsRuntime small_runtime
small_runtime-IsRuntime = record {
  hmac_dotless = λ key message. ground arith;
  hmac_slashless = λ key message. ground arith;
  hmac_ascii = λ key message. refl;
  b64body = escape;
  b64encode_lem = λ s. refl;
  b64body_unpadded = λ s. Lacks-escape b'=' s (inl refl);
  b64body_dotless = λ s. Lacks-escape b'.' s (inr (inl refl));
  b64body_slashless = λ s. Lacks-escape b'/' s (inr (inr refl));
  b64decode-b64encode = λ s. ap some (unescape-padded s);
  loads-dumps =
      λ d unique scalars. (d, ap (λ e. ok (dict e)) (read_fields-dump_fields d scalars), λ k. refl);
  decimal_digits = λ n k h below. one_digit k h;
  divide_nonneg = λ m n. ground arith;
}
