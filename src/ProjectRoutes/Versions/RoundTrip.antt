-- ===== src/ProjectRoutes/Versions/RoundTrip.antt =====
-- The header `ETag` of a response, sent back as `If-Match`, about `_etag` and `_expected_version` of
-- api/projects.py.
use Prim.Native.Char.{Char}
use Prim.Native.String.{[], ◌∷◌, ◌++◌}
use Prim.Native.String.append
use ai_auto_platform.Prelude.{
  ℕ, ◌≡◌, refl, ap, ◌∙◌, false, some, String, rstrip, is_space, is_empty, before_last_quote,
  unquote, remove_prefix, else_case,
}
use ai_auto_platform.Errors.{ok}
use ai_auto_platform.Common.Libraries.{Libraries, pos}
use ai_auto_platform.ProjectRoutes.Versions.{etag_of, expected_version}

abbrev char : Char
char = "\""

is_empty-append : (s : String) (c : Char) → is_empty (s ++ (c ∷ [])) ≡ false
is_empty-append [] c = rw (append.nil (c ∷ [])) refl
is_empty-append (d ∷ s) c = rw (append.cons d s (c ∷ [])) refl

rstrip-append : (s : String) → rstrip (s ++ "\"") ≡ s ++ "\""
unfolding rstrip is_space
rstrip-append [] = ap rstrip (append.nil "\"")
rstrip-append (c ∷ s) =
    rw (append.cons c s "\"") (
      rw (rstrip-append s) (rw (is_empty-append s _) (else_case (is_space c) "" (c ∷ (s ++ "\"")))))

before_last_quote-append : (s : String) → before_last_quote (s ++ "\"") ≡ some s
unfolding before_last_quote
before_last_quote-append [] = ap before_last_quote (append.nil "\"")
before_last_quote-append (c ∷ s) =
    ap before_last_quote (append.cons c s "\"")
    ∙ rw (before_last_quote-append s) (rw (is_empty-append s _) refl)

-- A quoted text as its first quote in front of the rest.
abbrev quote_rest : String → String
quote_rest s = s ++ "\""

quoted : (s : String) → "\"" ++ quote_rest s ≡ (char ∷ quote_rest s)
quoted s = append.cons char [] (quote_rest s) ∙ ap (λ t. char ∷ t) (append.nil (quote_rest s))

-- The tag of a version, sent back, is the version, if `int` reads what `str` has written, which is
-- not empty.
pub expected_version-etag_of :
    (lib : Libraries) (version : ℕ)
    → is_empty (lib.show_int version) ≡ false
    → lib.parse_int (lib.show_int version) ≡ some (pos version)
    → expected_version lib (some (etag_of lib version)) ≡ ok (pos version)
unfolding expected_version etag_of unquote remove_prefix
expected_version-etag_of lib version written read = rw (quoted (lib.show_int version)) (
    rw (rstrip-append (lib.show_int version))
      (rw (before_last_quote-append (lib.show_int version)) (rw written (rw read refl))))
