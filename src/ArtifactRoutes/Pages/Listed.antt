-- ===== src/ArtifactRoutes/Pages/Listed.antt =====
-- The artifacts of a page can be read: `list_artifacts` and `get_artifact` of api/artifacts.py.
use ai_auto_platform.Prelude.{
  ℕ, zero, suc, ◌+◌, ◌≡◌, refl, subst, ap, arith, Bool, false, Option, none, some, inl, inr, List,
  [], ◌∷◌, String, map, select, order_by, insert_by, limit, is_empty, find_by, All, Distinct,
  Bool-cases, find_by-has_key,
}
use ai_auto_platform.Errors.{ok, Result-cases}
use ai_auto_platform.Db.Models.{ProjectModel, ArtifactModel, Json}
use ai_auto_platform.Artifact.Rows.{serialize_artifact}
use ai_auto_platform.Exec.{World, Context, ◌>>=◌}
use ai_auto_platform.Upload.Authorize.{authorized_project}
use ai_auto_platform.ProjectRoutes.Cursors.{CursorLibraries}
use ai_auto_platform.ArtifactRoutes.Visible.{is_artifact, is_gone, visible_artifact}
use ai_auto_platform.ArtifactRoutes.Download.{get_artifact}
use ai_auto_platform.ArtifactRoutes.Pages.{
  ArtifactPage, is_listed, is_newer, is_older, decode_artifact_cursor, older_artifacts,
  artifact_page, list_artifacts,
}

module _ {A : Type 0} (P : A → Type 0) where
  All-select : (p : A → Bool) (xs : List A) → All P xs → All P (select p xs)
  All-select p [] a = tt
  All-select p (x ∷ xs) a = elim (Bool-cases (p x)) [
    | inl e ↦ rw e (a.0, All-select p xs a.1)
    | inr e ↦ rw e (All-select p xs a.1)
  ]

  All-limit : (n : ℕ) (xs : List A) → All P xs → All P (limit n xs)
  All-limit zero xs a = tt
  All-limit (suc n) [] a = tt
  All-limit (suc n) (x ∷ xs) a = (a.0, All-limit n xs a.1)

  All-insert_by :
      (before : A → A → Bool) (x : A) (xs : List A) → P x → All P xs → All P (insert_by before x xs)
  All-insert_by before x [] h a = (h, tt)
  All-insert_by before x (y ∷ ys) h a = elim (Bool-cases (before x y)) [
    | inl e ↦ rw e (h, a)
    | inr e ↦ rw e (a.0, All-insert_by before x ys h a.1)
  ]

  All-order_by : (before : A → A → Bool) (xs : List A) → All P xs → All P (order_by before xs)
  All-order_by before [] a = tt
  All-order_by before (x ∷ xs) a =
      All-insert_by before x (order_by before xs) a.0 (All-order_by before xs a.1)

abbrev pub artifact_id : ArtifactModel → ℕ
artifact_id a = a.id

All-weaken :
    {A : Type 0} (P Q : A → Type 0) (xs : List A) → ((x : A) → P x → Q x) → All P xs → All Q xs
All-weaken P Q [] f a = tt
All-weaken P Q (x ∷ xs) f a = (f x a.0, All-weaken P Q xs f a.1)

same_ok : {A : Type 0} (P : A → Type 0) (x y : A) → ok x ≡ ok y → P x → P y
same_ok P x y e p = let same : x ≡ y = cc in subst P same p

module _ (org proj : ℕ) where
  -- A listed artifact is the one that the query of `_visible_artifact` finds under its id.
  record IsVisible (xs : List ArtifactModel) (a : ArtifactModel) : Type 0 where
    found : find_by (is_artifact org proj a.id) xs ≡ some a
    there : is_gone a ≡ false

  earlier :
      (b : ArtifactModel) (xs : List ArtifactModel)
      → Distinct artifact_id (b ∷ xs)
      → (a : ArtifactModel) → IsVisible xs a
      → IsVisible (b ∷ xs) a
  earlier b xs d a v = elim (Bool-cases (is_artifact org proj a.id b)) [
    | inl e ↦
        let same : b.id ≡ a.id = ground arith in
        let missing = rw same at (d.0) in
        let present = find_by-has_key artifact_id (is_artifact org proj a.id) a xs d.1 v.found in cc
    | inr e ↦ record { found = rw e (v.found); there = v.there }
  ]

  select-is_listed :
      (xs : List ArtifactModel)
      → Distinct artifact_id xs
      → All (IsVisible xs) (select (is_listed org proj) xs)
  select-is_listed [] d = tt
  select-is_listed (x ∷ xs) d =
      let rest = All-weaken _ _ _ (earlier x xs d) (select-is_listed xs d.1) in
      elim (Bool-cases (is_listed org proj x)) [
        | inl e ↦ rw e (record { found = ground arith; there = ground arith }, rest)
        | inr e ↦ rw e rest
      ]

  older_artifacts-All :
      (P : ArtifactModel → Type 0) (lib : CursorLibraries) (cursor : Option String)
      (rows selected : List ArtifactModel)
      → older_artifacts lib cursor rows ≡ ok selected
      → All P rows
      → All P selected
  unfolding older_artifacts
  older_artifacts-All P lib none rows selected e a = same_ok (All P) rows selected e a
  older_artifacts-All P lib (some cursor) rows selected e a = elim (Bool-cases (is_empty cursor)) [
    | inl h ↦ same_ok (All P) rows selected (rw h at e) a
    | inr h ↦
        let e' = rw h at e in
        elim (Result-cases (decode_artifact_cursor lib cursor)) [
          | inl (key, k) ↦
              let e'' = rw k at e' in
              same_ok (All P) _ selected e'' (All-select P (is_older key) rows a)
          | inr (x, k) ↦ let e'' = rw k at e' in cc
        ]
  ]

  module _ {R : Type 0} (ctx : Context) where
    -- An item of a page is the body of the answer to a request for the artifact.
    pub record IsReadable (w : World R) (item : Json) : Type 0 where
      pub id : ℕ
      pub version : ℕ
      pub read : get_artifact ctx org proj id w ≡ (
        ok (record { status_code = 200; content = item; replayed = none; etag = some version }),
        w,
      )

    read_visible :
        (w : World R) (project : ProjectModel) (a : ArtifactModel)
        → authorized_project org proj ctx.actor_id false w.pending ≡ ok project
        → IsVisible w.pending.artifacts a
        → IsReadable w (serialize_artifact a)
    unfolding get_artifact visible_artifact ◌>>=◌ serialize_artifact
    read_visible w project a e v = record {
      id = a.id;
      version = a.version;
      read = rw e (rw (v.found) (rw (v.there) refl));
    }

    map-IsReadable :
        (w : World R) (project : ProjectModel) (xs : List ArtifactModel)
        → authorized_project org proj ctx.actor_id false w.pending ≡ ok project
        → All (IsVisible w.pending.artifacts) xs
        → All (IsReadable w) (map serialize_artifact xs)
    map-IsReadable w project [] e a = tt
    map-IsReadable w project (x ∷ xs) e a =
        (read_visible w project x e a.0, map-IsReadable w project xs e a.1)

    -- Every item of a page that a user is shown is what the same user gets who asks for that
    -- artifact, whatever the page's size and cursor; the ids of the artifacts are distinct.
    pub list_artifacts-get_artifact :
        (lib : CursorLibraries) (n : ℕ) (cursor : Option String) (w : World R) (page : ArtifactPage)
        → Distinct artifact_id w.pending.artifacts
        → list_artifacts ctx lib org proj n cursor w ≡ (ok page, w)
        → All (IsReadable w) page.items
    unfolding list_artifacts artifact_page
    list_artifacts-get_artifact lib n cursor w page d e =
        elim (Result-cases (authorized_project org proj ctx.actor_id false w.pending)) [
          | inr (x, k) ↦ let e' = rw k at (ap (λ r. r.0) e) in cc
          | inl (project, k) ↦
              let e' = rw k at (ap (λ r. r.0) e) in
              elim (Result-cases
                (older_artifacts lib cursor (select (is_listed org proj) w.pending.artifacts))) [
                  | inr (x, j) ↦ let e'' = rw j at e' in cc
                  | inl (rows, j) ↦
                      let e'' = rw j at e' in
                      let listed = All-limit _ n _ (
                        All-limit _ (1 + n) _ (
                          All-order_by _ is_newer rows (
                            older_artifacts-All _ lib cursor _ rows j
                              (select-is_listed w.pending.artifacts d)))) in
                      same_ok (λ (p : ArtifactPage). All (IsReadable w) p.items) _ page e''
                        (map-IsReadable w project _ k listed)
                ]
        ]
