-- ===== src/Experiments/Runner/Checksums.antt =====
-- checksums.json, which `run` of experiments/run.py writes last: the digest of every file that is in the
-- run's folder by then.
use text.Mathlib.Text.{◌==◌}
use kavach_ai.Common.{
  String, false, ◌≡◌, refl, ap, ◌∙◌, Option, none, some, List, [], ◌∷◌, ◌++◌, All, if◌then◌else◌,
  eq_iff,
}
use kavach_ai.Py.{str, Fields, end, lookup, put, lookup-put}

-- what `folder.rglob("*")` gives: a path in the folder, with its contents if it is a file
pub record Entry : Type 0 where
  pub path : String
  pub contents : Option String

module _ (sha256_hex : String → String) where
  -- one more key, if the path is a file's
  abbrev pub add_digest : Option String → String → Fields → Fields
  add_digest none path digests = digests
  add_digest (some contents) path digests = put path (str (sha256_hex contents)) digests

  -- the comprehension, from the digests so far on
  unfoldable pub digests_after : Fields → List Entry → Fields
  digests_after digests [] = digests
  digests_after digests (e ∷ entries) = digests_after (add_digest e.contents e.path digests) entries

  unfoldable pub checksums : List Entry → Fields
  unfolding digests_after
  checksums entries = digests_after end entries

  add_digest-other :
      (o : Option String) (path other : String) (digests : Fields)
      → (path == other) ≡ false
      → lookup other (add_digest o path digests) ≡ lookup other digests
  add_digest-other none path other digests h = refl
  add_digest-other (some contents) path other digests h =
      lookup-put other path (str (sha256_hex contents)) digests
      ∙ ap (λ b. if b then some (str (sha256_hex contents)) else lookup other digests) h

  digests_after-others :
      (path : String) (digests : Fields) (entries : List Entry)
      → All (λ e. (e.path == path) ≡ false) entries
      → lookup path (digests_after digests entries) ≡ lookup path digests
  unfolding digests_after
  digests_after-others path digests [] h = refl
  digests_after-others path digests (e ∷ entries) (other, h) =
      digests_after-others path (add_digest e.contents e.path digests) entries h
      ∙ add_digest-other e.contents e.path path digests other

  digests_after-file :
      (digests : Fields) (before after : List Entry) (path contents : String)
      → All (λ e. (e.path == path) ≡ false) after
      → lookup path (
          digests_after digests
            (before ++ record { path = path; contents = some contents } ∷ after))
        ≡ some (str (sha256_hex contents))
  unfolding digests_after
  digests_after-file digests [] after path contents h =
      digests_after-others path (put path (str (sha256_hex contents)) digests) after h
      ∙ lookup-put path path (str (sha256_hex contents)) digests
      ∙ ap (λ b. if b then some (str (sha256_hex contents)) else lookup path digests)
          ((eq_iff path path).1 refl)
  digests_after-file digests (e ∷ before) after path contents h =
      digests_after-file (add_digest e.contents e.path digests) before after path contents h

  -- Each file whose path does not come again has its digest.
  pub checksums-file :
      (before after : List Entry) (path contents : String)
      → All (λ e. (e.path == path) ≡ false) after
      → lookup path (checksums (before ++ record { path = path; contents = some contents } ∷ after))
        ≡ some (str (sha256_hex contents))
  unfolding checksums
  checksums-file before after path contents h = digests_after-file end before after path contents h
