-- ===== src/ProjectRoutes/Cursors/RoundTrip.antt =====
-- A cursor that is decoded again, about `_encode_cursor` and `_decode_cursor` of api/projects.py.
use Prim.Native.Char.{Char, code}
use Prim.Native.String.{[], ◌∷◌, ◌++◌}
use Prim.Native.String.append
use ai_auto_platform.Prelude.{
  ℕ, zero, suc, ◌+◌, ◌%◌, ◌≤◌, ◌==◌, ◌≡◌, refl, ap, ◌∙◌, sym, false, some, String, arith, is_empty,
  count, rstrip_char, ends_with_char, else_case,
}
use ai_auto_platform.Errors.{ok}
use ai_auto_platform.Db.Models.{ProjectModel}
use ai_auto_platform.ProjectRoutes.Cursors.{
  Loaded, CursorLibraries, encode_cursor, decode_cursor, equals_signs, padding,
}

-- A text whose length is a multiple of 4, with at most three signs `=` at its end.
pub record Padded (s : String) : Type 0 where
  pub body : String
  pub signs : ℕ
  pub whole : s ≡ body ++ equals_signs signs
  pub few : signs ≤ 3
  pub unsigned : ends_with_char b'=' body ≡ false
  pub aligned : (count body + signs) % 4 ≡ 0

-- What a cursor of a time and an id writes as JSON.
abbrev pub pair_text : CursorLibraries → ℕ → ℕ → String
pair_text lib t id = lib.dumps_pair (lib.isoformat t) (lib.uuid_text id)

-- The libraries read back what they have written, and base64 pads its texts, which are not empty.
pub record ReadsBack (lib : CursorLibraries) : Type 0 where
  pub times : (t : ℕ) → lib.fromisoformat (lib.isoformat t) ≡ some t
  pub ids : (id : ℕ) → lib.parse_uuid (lib.uuid_text id) ≡ some id
  pub pairs :
      (t id : ℕ)
      → lib.loads_pair (pair_text lib t id)
        ≡ some (Loaded.text (lib.isoformat t), Loaded.text (lib.uuid_text id))
  pub bytes :
      (t id : ℕ) → lib.b64decode (lib.b64encode (pair_text lib t id)) ≡ some (pair_text lib t id)
  pub written :
      (t id : ℕ) → is_empty (rstrip_char b'=' (lib.b64encode (pair_text lib t id))) ≡ false
  pub pads : (t id : ℕ) → Padded (lib.b64encode (pair_text lib t id))

rstrip_char-equals_signs : (n : ℕ) → rstrip_char b'=' (equals_signs n) ≡ []
unfolding rstrip_char equals_signs
rstrip_char-equals_signs zero = refl
rstrip_char-equals_signs (suc n) = rw (rstrip_char-equals_signs n) refl

last_unsigned :
    (c d : Char) (s : String)
    → ends_with_char b'=' (c ∷ (d ∷ s)) ≡ false
    → ends_with_char b'=' (d ∷ s) ≡ false
unfolding ends_with_char
last_unsigned c d s h = h

rstrip_char-cons :
    (c : Char) (t : String)
    → (code c == b'=') ≡ false
    → rstrip_char b'=' t ≡ []
    → rstrip_char b'=' (c ∷ t) ≡ c ∷ []
unfolding rstrip_char
rstrip_char-cons c t other gone = rw other (ap (λ r. c ∷ r) gone)

-- What `rstrip("=")` leaves.
pub rstrip_char-append :
    (s : String) (n : ℕ)
    → ends_with_char b'=' s ≡ false
    → rstrip_char b'=' (s ++ equals_signs n) ≡ s
unfolding rstrip_char ends_with_char
rstrip_char-append [] n h =
    ap (rstrip_char b'=') (append.nil (equals_signs n)) ∙ rstrip_char-equals_signs n
rstrip_char-append (c ∷ []) n h =
    ap (rstrip_char b'=') (append.cons c [] (equals_signs n))
    ∙ rstrip_char-cons c ([] ++ equals_signs n) h (rstrip_char-append [] n refl)
rstrip_char-append (c ∷ (d ∷ s)) n h = rw (append.cons c (d ∷ s) (equals_signs n)) (
    rw (rstrip_char-append (d ∷ s) n (last_unsigned c d s h))
      (else_case (code c == 61) [] (c ∷ (d ∷ s))))

pub padding-signs : (n k : ℕ) → k ≤ 3 → (n + k) % 4 ≡ 0 → padding n ≡ k
padding-signs n k few aligned = omega (arith, few, aligned)

-- The cursor of a project, decoded, is the time of its creation and its id, if the libraries read
-- back what they have written and base64 pads its texts to a multiple of 4.
pub decode_cursor-encode_cursor :
    (lib : CursorLibraries) (p : ProjectModel)
    → ReadsBack lib
    → decode_cursor lib (encode_cursor lib p) ≡ ok (p.created_at, p.id)
unfolding decode_cursor encode_cursor
decode_cursor-encode_cursor lib p h =
    let c = h.pads p.created_at p.id in
    let bare = ap (rstrip_char b'=') c.whole ∙ rstrip_char-append c.body c.signs c.unsigned in
    rw bare (
      rw (padding-signs (count c.body) c.signs c.few c.aligned) (
        rw (sym c.whole)
          (rw (h.bytes _) (rw (h.pairs _ _) (rw (h.times p.created_at) (rw (h.ids p.id) refl))))))

pub is_empty-encode_cursor :
    (lib : CursorLibraries) (p : ProjectModel)
    → ReadsBack lib
    → is_empty (encode_cursor lib p) ≡ false
unfolding encode_cursor
is_empty-encode_cursor lib p h = h.written p.created_at p.id
