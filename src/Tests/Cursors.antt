-- ===== src/Tests/Cursors.antt =====
-- Libraries that write a number as so many letters, a pair with a comma, and pad with signs.
use Prim.Native.Char.{Char, code}
use Prim.Native.String.{[], ◌∷◌, ◌++◌}
use Prim.Native.String.append
use Prim.Native.String.count
use ai_auto_platform.Prelude.{
  ℕ, zero, suc, ◌+◌, ◌%◌, ◌≤◌, ◌≡◌, refl, ap, ◌∙◌, false, Option, none, some, String, arith,
  is_empty, count, rstrip_char, ends_with_char, ◌==◌, if◌then◌else◌,
}
use ai_auto_platform.ProjectRoutes.Cursors.{Loaded, CursorLibraries, equals_signs, padding}
use ai_auto_platform.ProjectRoutes.Cursors.RoundTrip.{ReadsBack, pair_text, rstrip_char-append}

pub unary : ℕ → String
unary zero = []
unary (suc n) = "a" ∷ unary n

abbrev prepend : Char → Option (Loaded × Loaded) → Option (Loaded × Loaded)
prepend c (some (Loaded.text s, t)) = some (Loaded.text (c ∷ s), t)
prepend c _ = none

pub split : String → Option (Loaded × Loaded)
split [] = none
split (c ∷ s) =
    let rest = split s in
    if code c == b',' then some (Loaded.text [], Loaded.text s) else prepend c rest

abbrev pub cursors : CursorLibraries
cursors = record {
  isoformat = unary;
  fromisoformat = λ s. some (count s);
  uuid_text = unary;
  parse_uuid = λ s. some (count s);
  dumps_pair = λ a b. a ++ ("," ∷ b);
  loads_pair = split;
  b64encode = λ s. s ++ equals_signs (padding (count s));
  b64decode = λ s. some (rstrip_char b'=' s);
}

count-unary : (n : ℕ) → count (unary n) ≡ n
unfolding unary
count-unary zero = count.nil
count-unary (suc n) = count.cons "a" (unary n) ∙ ap suc (count-unary n)

split-unary :
    (n : ℕ) (b : String)
    → split (unary n ++ ("," ∷ b)) ≡ some (Loaded.text (unary n), Loaded.text b)
unfolding unary split
split-unary zero b = ap split (append.nil ("," ∷ b))
split-unary (suc n) b = ap split (append.cons "a" (unary n) ("," ∷ b)) ∙ rw (split-unary n b) refl

ends-unary : (m : ℕ) → ends_with_char b'=' (unary m) ≡ false
unfolding unary ends_with_char
ends-unary zero = refl
ends-unary (suc zero) = refl
ends-unary (suc (suc m)) = ends-unary (suc m)

ends-comma : (m : ℕ) → ends_with_char b'=' ("," ∷ unary m) ≡ false
unfolding unary ends_with_char
ends-comma zero = refl
ends-comma (suc m) = ends-unary (suc m)

not_empty : (n : ℕ) (b : String) → is_empty (unary n ++ ("," ∷ b)) ≡ false
unfolding unary
not_empty zero b = ap is_empty (append.nil ("," ∷ b))
not_empty (suc n) b = ap is_empty (append.cons "a" (unary n) ("," ∷ b))

ends-pair : (n m : ℕ) → ends_with_char b'=' (unary n ++ ("," ∷ unary m)) ≡ false
unfolding unary ends_with_char
ends-pair zero m = ap (ends_with_char b'=') (append.nil ("," ∷ unary m)) ∙ ends-comma m
ends-pair (suc n) m =
    ap (ends_with_char b'=') (append.cons "a" (unary n) ("," ∷ unary m))
    ∙ rw (not_empty n (unary m)) (ends-pair n m)

padding-bounds : (n : ℕ) → (padding n ≤ 3) × ((n + padding n) % 4 ≡ 0)
padding-bounds n = (omega arith, omega arith)

pub cursors-ReadsBack : ReadsBack cursors
cursors-ReadsBack = record {
  times = λ t. ap some (count-unary t);
  ids = λ id. ap some (count-unary id);
  pairs = λ t id. split-unary t (unary id);
  bytes = λ t id. ap some (rstrip_char-append _ (padding _) (ends-pair t id));
  written = λ t id.
      ap is_empty (rstrip_char-append _ (padding _) (ends-pair t id)) ∙ not_empty t (unary id);
  pads = λ t id. record {
    body = pair_text cursors t id;
    signs = padding (count (pair_text cursors t id));
    whole = refl;
    few = (padding-bounds _).0;
    unsigned = ends-pair t id;
    aligned = (padding-bounds _).1;
  };
}
