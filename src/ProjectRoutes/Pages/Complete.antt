-- ===== src/ProjectRoutes/Pages/Complete.antt =====
-- All the pages that a client gets by following `X-Next-Cursor`, about `list_projects` of
-- api/projects.py.
use ai_auto_platform.Prelude.{
  ℕ, zero, suc, ◌-◌, ◌≤◌, ◌≡◌, refl, sym, ap, ◌∙◌, subst, arith, Option, some, none, inl, inr, List,
  [], ◌∷◌, ◌++◌, String, ltb, length, select, order_by, limit, Distinct, Bool-cases,
}
use ai_auto_platform.Errors.{Result, ok, ◌>>=◌}
use ai_auto_platform.Db.Models.{Db, ProjectModel, OrganizationMemberModel}
use ai_auto_platform.Organization.Access.{require_organization_member}
use ai_auto_platform.ProjectRoutes.Cursors.{CursorLibraries, encode_cursor}
use ai_auto_platform.ProjectRoutes.Cursors.RoundTrip.{
  ReadsBack, decode_cursor-encode_cursor, is_empty-encode_cursor,
}
use ai_auto_platform.ProjectRoutes.Pages.{
  is_before, is_after, listed_projects, cursor_rows, page_of, list_projects,
}
use ai_auto_platform.ProjectRoutes.Pages.Order.{
  project_id, cursor_key, Ascends, order_by-Ascends, select-order_by, select-is_after, cut,
  limit-short,
}

abbrev or_stop : Option String → (String → Result (List ProjectModel)) → Result (List ProjectModel)
or_stop none more = ok []
or_stop (some cursor) more = more cursor

-- A client asks for pages of `n` projects until there is no next cursor, at most `fuel` times.
unfoldable pub all_pages :
    CursorLibraries → ℕ → ℕ → ℕ → Db → (fuel : ℕ) → Option String → Result (List ProjectModel)
all_pages lib organization_id actor_id n db zero cursor = ok []
all_pages lib organization_id actor_id n db (suc fuel) cursor = do
  (projects, next) ← list_projects lib organization_id actor_id n cursor db
  rest ← or_stop next (λ c. all_pages lib organization_id actor_id n db fuel (some c))
  ok (projects ++ rest)

append-nil : (xs : List ProjectModel) → xs ++ [] ≡ xs
append-nil [] = refl
append-nil (x ∷ xs) = ap (λ ys. x ∷ ys) (append-nil xs)

append_assoc : (xs ys zs : List ProjectModel) → (xs ++ ys) ++ zs ≡ xs ++ (ys ++ zs)
append_assoc [] ys zs = refl
append_assoc (x ∷ xs) ys zs = ap (λ vs. x ∷ vs) (append_assoc xs ys zs)

shorter :
    (xs : List ProjectModel) (x : ProjectModel) (ys : List ProjectModel)
    → suc (length ys) ≤ length (xs ++ x ∷ ys)
shorter [] x ys = omega arith
shorter (z ∷ xs) x ys = omega (arith, shorter xs x ys)

before_suc : (n : ℕ) → suc n - 1 ≡ n
before_suc n = omega arith

module _ (lib : CursorLibraries) (reads : ReadsBack lib) where
  cursor_rows-encode_cursor :
      (p : ProjectModel) (rows : List ProjectModel)
      → cursor_rows lib (some (encode_cursor lib p)) rows
        ≡ ok (select (is_after (cursor_key p)) rows)
  unfolding cursor_rows
  cursor_rows-encode_cursor p rows =
      rw (is_empty-encode_cursor lib p reads) (rw (decode_cursor-encode_cursor lib p reads) refl)

  cursor_rows-none : (rows : List ProjectModel) → cursor_rows lib none rows ≡ ok rows
  unfolding cursor_rows
  cursor_rows-none rows = refl

  module _ (org actor n : ℕ) (db : Db) (m : OrganizationMemberModel)
      (there : require_organization_member org actor db ≡ ok m)
      (distinct : Distinct project_id (listed_projects org actor m.role db)) where
    abbrev rows : List ProjectModel
    rows = listed_projects org actor m.role db

    -- The rows behind the last project of a page.
    rows_after :
        (done : List ProjectModel) (last : ProjectModel) (rest : List ProjectModel)
        → order_by is_before rows ≡ done ++ last ∷ rest
        → order_by is_before (select (is_after (cursor_key last)) rows) ≡ rest
    rows_after done last rest whole =
        select-order_by (is_after (cursor_key last)) rows distinct
        ∙ rw whole
            (select-is_after done last rest (subst Ascends whole (order_by-Ascends rows distinct)))

    pages_from :
        (fuel : ℕ) (cursor : Option String) (selected done rest : List ProjectModel)
        → suc (length rest) ≤ fuel
        → cursor_rows lib cursor rows ≡ ok selected
        → order_by is_before selected ≡ rest
        → order_by is_before rows ≡ done ++ rest
        → all_pages lib org actor (suc n) db fuel cursor ≡ ok rest
    unfolding all_pages list_projects page_of
    pages_from zero cursor selected done rest enough chosen sorted whole =
        elim (none_left enough) [ ]
      where
        none_left : suc (length rest) ≤ 0 → ⊥
        none_left e = omega (arith, e)
    pages_from (suc fuel) cursor selected done rest enough chosen sorted whole =
        elim (Bool-cases (ltb (suc n) (length (limit (suc (suc n)) rest)))) [
          | inr short ↦ rw there (
              rw chosen (
                rw sorted
                  (rw short (rw (limit-short (suc n) rest short) (ap ok (append-nil rest))))))
          | inl long ↦
              let c = cut n rest long in
              let page = c.front ++ c.last ∷ [] in
              let split = c.whole ∙ sym (append_assoc c.front (c.last ∷ []) c.rest) in
              let last_there =
                whole
                ∙ ap (λ xs. done ++ xs) c.whole
                ∙ sym (append_assoc done c.front (c.last ∷ c.rest)) in
              let still =
                whole ∙ ap (λ xs. done ++ xs) split ∙ sym (append_assoc done page c.rest) in
              let fewer : suc (length c.rest) ≤ fuel =
                omega (arith, enough, ap length c.whole, shorter c.front c.last c.rest) in
              let next =
                pages_from fuel (some (encode_cursor lib c.last))
                  (select (is_after (cursor_key c.last)) rows) (done ++ page) c.rest fewer
                  (cursor_rows-encode_cursor c.last rows)
                  (rows_after (done ++ c.front) c.last c.rest last_there) still in
              rw there (
                rw chosen (
                  rw sorted (
                    rw long (
                      rw (c.page)
                        (rw (before_suc n) (rw (c.shown) (rw next (ap ok (sym split)))))))))
        ]

    -- Whoever is a member of the organization and follows the cursors gets every project that is
    -- listed for them exactly once and in order, for pages of at least one project, if the ids of
    -- the listed projects are distinct, the libraries read back what they have written, and the
    -- client asks once more often than there are projects.
    pub all_pages-order_by :
        (fuel : ℕ)
        → suc (length (order_by is_before rows)) ≤ fuel
        → all_pages lib org actor (suc n) db fuel none ≡ ok (order_by is_before rows)
    all_pages-order_by fuel enough =
        pages_from fuel none rows [] (order_by is_before rows) enough (cursor_rows-none rows) refl
          refl
