-- ===== src/ProjectRoutes/Requests/Codes.antt =====
-- The codes of the projects of an organization, about the writes of api/projects.py to its table.
use ai_auto_platform.Prelude.{
  ◌==◌, ◌≡◌, sym, false, ◌&&◌, Bool, none, inl, inr, List, [], ◌∷◌, ◌++◌, String, arith, str_eq,
  eq_iff, All, All-append, All-replace_by, find_by, exists_by, replace_by, Bool-cases, Distinct,
  Distinct-append, Distinct-replace_by, exists_by-has_key,
}
use ai_auto_platform.Errors.{ok}
use ai_auto_platform.Db.Models.{Db, ProjectModel}
use ai_auto_platform.ProjectRoutes.Rows.{has_project_id, has_code}
use ai_auto_platform.ProjectRoutes.Create.{check_new_project}
use ai_auto_platform.ProjectRoutes.Updates.Flushed.{project_key}

-- Two projects of one organization with one code.
abbrev clash : ProjectModel → ProjectModel → Bool
clash p q = q.organization_id == p.organization_id && str_eq q.code p.code

abbrev NoClash : List ProjectModel → Type 0
NoClash [] = Unit
NoClash (x ∷ xs) = All (λ y. clash x y ≡ false) xs × NoClash xs

-- The ids are distinct, and no two projects of an organization have the same code.
abbrev pub IsCoded : List ProjectModel → Type 0
IsCoded xs = Distinct project_key xs × NoClash xs

str_eq_sym : (s t : String) → str_eq s t ≡ false → str_eq t s ≡ false
str_eq_sym s t h = elim (Bool-cases (str_eq t s)) [
  | inr f ↦ f
  | inl e ↦ let same = (eq_iff s t).1 (sym ((eq_iff t s).0 e)) in cc
]

clash_sym : (p q : ProjectModel) → clash p q ≡ false → clash q p ≡ false
clash_sym p q h = elim (Bool-cases (q.organization_id == p.organization_id)) [
  | inl e ↦
      let other : str_eq q.code p.code ≡ false = ground (arith, h, e) in
      ground (arith, str_eq_sym q.code p.code other)
  | inr e ↦ ground (arith, e)
]

exists_by-All :
    (p : ProjectModel → Bool) (xs : List ProjectModel)
    → exists_by p xs ≡ false
    → All (λ x. p x ≡ false) xs
exists_by-All p [] h = tt
exists_by-All p (x ∷ xs) h = (ground (arith, h), exists_by-All p xs (ground (arith, h)))

NoClash-append :
    (p : ProjectModel) (xs : List ProjectModel)
    → All (λ x. clash p x ≡ false) xs
    → NoClash xs
    → NoClash (xs ++ p ∷ [])
NoClash-append p [] a n = (tt, tt)
NoClash-append p (x ∷ xs) a n = (
  All-append (λ y. clash x y ≡ false) xs (p ∷ []) n.0 (clash_sym p x a.0, tt),
  NoClash-append p xs a.1 n.1,
)

-- The projects behind one of this id, in a table of distinct ids.
others_free :
    (new : ProjectModel) (xs : List ProjectModel)
    → find_by (has_project_id new.id) xs ≡ none
    → All (λ x. has_code new x ≡ false) xs
    → All (λ x. clash new x ≡ false) xs
others_free new [] absent a = tt
others_free new (x ∷ xs) absent a =
    (ground (arith, absent, a.0), others_free new xs (ground (arith, absent)) a.1)

NoClash-replace_by :
    (new : ProjectModel) (xs : List ProjectModel)
    → Distinct project_key xs
    → All (λ x. has_code new x ≡ false) xs
    → NoClash xs
    → NoClash (replace_by (has_project_id new.id) new xs)
NoClash-replace_by new [] d a n = tt
NoClash-replace_by new (x ∷ xs) d a n = elim (Bool-cases (x.id == new.id)) [
  | inl e ↦
      let same : x.id ≡ new.id = ground (arith, e) in
      rw e (others_free new xs (rw same at (d.0)) a.1, n.1)
  | inr e ↦
      let free : clash new x ≡ false = ground (arith, e, a.0) in
      rw e (
        All-replace_by (λ y. clash x y ≡ false) (has_project_id new.id) new xs n.0
            (clash_sym new x free),
        NoClash-replace_by new xs d.1 a.1 n.1,
      )
]

pub insert-IsCoded :
    (p : ProjectModel) (db : Db)
    → check_new_project p db ≡ ok tt
    → IsCoded db.projects
    → IsCoded (db.projects ++ p ∷ [])
unfolding check_new_project
insert-IsCoded p db h c =
    let new_id : exists_by (has_project_id p.id) db.projects ≡ false = ground (arith, h) in
    let new_code : exists_by (clash p) db.projects ≡ false = ground (arith, h) in
    (
      Distinct-append project_key p db.projects c.0
          (exists_by-has_key project_key p.id db.projects new_id),
      NoClash-append p db.projects (exists_by-All (clash p) db.projects new_code) c.1,
    )

-- A row that a flush has let pass is written over another of its id.
pub put-IsCoded :
    (new : ProjectModel) (xs : List ProjectModel)
    → exists_by (has_code new) xs ≡ false
    → IsCoded xs
    → IsCoded (replace_by (has_project_id new.id) new xs)
put-IsCoded new xs free c = (
  Distinct-replace_by project_key new xs c.0,
  NoClash-replace_by new xs c.0 (exists_by-All (has_code new) xs free) c.1,
)
