-- ===== src/Upload/Lifecycle/Invariants.antt =====
-- Predicates on the table of sessions through steps: ids, reservations and the limits of an
-- organization (`_active_quota` of api/upload_sessions.py).
use ai_auto_platform.Prelude.{
  ℕ, ◌+◌, ◌≤◌, ◌<◌, ◌≡◌, refl, true, some, inl, inr, List, [], ◌∷◌, ◌++◌, arith, Bool-cases,
  if◌then◌else◌, find_by, replace_by, All, All-append, All-replace_by, All-find_by, sum_by-append,
  sum_by-replace_by, Distinct, Distinct-append, Distinct-replace_by, ◌==◌,
}
use ai_auto_platform.Db.Models.{UploadSessionModel}
use ai_auto_platform.Artifact.Domain.{UploadSessionStatus, is_active}
use ai_auto_platform.Common.Settings.{Settings}
use ai_auto_platform.Upload.Rows.{has_id, is_reserving, active_count, active_bytes}
use ai_auto_platform.Upload.Lifecycle.{
  Advance, Annotation, Admitted, Step, admit, advance, annotate, Reach, here, next, session_id, ◌⟶◌,
}

-- An active session reserves its declared size, any other nothing.
abbrev pub IsReserved : UploadSessionModel → Type 0
IsReserved u = u.reserved_bytes ≡ (if is_active u.status then u.expected_size else 0)

-- The limits of one organization.
abbrev pub IsWithinQuota : Settings → ℕ → List UploadSessionModel → Type 0
IsWithinQuota cfg org us =
    (active_count org us ≤ cfg.upload_max_active_per_organization)
    × (active_bytes org us ≤ cfg.upload_max_reserved_bytes_per_organization)

-- No edge leads from a session that is not active to one that is.
pub edge-active : {s t : UploadSessionStatus} → s ⟶ t → is_active t ≡ true → is_active s ≡ true
edge-active ◌⟶◌.initialize h = refl
edge-active ◌⟶◌.checkpoint h = refl
edge-active ◌⟶◌.publish h = refl
edge-active ◌⟶◌.abort_pending h = refl
edge-active ◌⟶◌.abort_uploading h = refl
edge-active ◌⟶◌.abort_again h = h
edge-active (◌⟶◌.expire a) h = a

Advance-IsReserved :
    (old new : UploadSessionModel) → Advance old new → IsReserved old → IsReserved new
Advance-IsReserved old new a h = ground (arith, edge-active a.edge)

Annotation-IsReserved :
    (old new : UploadSessionModel) → Annotation old new → IsReserved old → IsReserved new
Annotation-IsReserved old new a h = ground (arith, a.same_size, a.same_status, a.same_reservation)

Admitted-IsReserved :
    {cfg : Settings} {us : List UploadSessionModel} (u : UploadSessionModel)
    → Admitted cfg us u
    → IsReserved u
Admitted-IsReserved u a = ground arith

-- The row that a write replaces, under the new row's id.
written_row :
    (old new : UploadSessionModel) (us : List UploadSessionModel)
    → find_by (has_id old.id) us ≡ some old
    → new.id ≡ old.id
    → find_by (has_id new.id) us ≡ some old
written_row old new us f same = rw same f

module _ (cfg : Settings) (org : ℕ) where
  admit-IsWithinQuota :
      (u : UploadSessionModel) (us : List UploadSessionModel)
      → Admitted cfg us u
      → IsWithinQuota cfg org us
      → IsWithinQuota cfg org (us ++ u ∷ [])
  admit-IsWithinQuota u us a h = elim (Bool-cases (u.organization_id == org)) [
    | inl e ↦
        let same : u.organization_id ≡ org = ground arith in
        let count : active_count org us < cfg.upload_max_active_per_organization =
          rw same at (a.fits_count) in
        let bytes : active_bytes org us + u.reserved_bytes
            ≤ cfg.upload_max_reserved_bytes_per_organization =
          rw same at (a.fits_bytes) in
        (
          rw (sum_by-append (is_reserving org) (λ _. 1) us (u ∷ [])) (ground arith),
          rw (sum_by-append (is_reserving org) (λ v. v.reserved_bytes) us (u ∷ [])) (ground arith),
        )
    | inr e ↦ (
      rw (sum_by-append (is_reserving org) (λ _. 1) us (u ∷ [])) (ground arith),
      rw (sum_by-append (is_reserving org) (λ v. v.reserved_bytes) us (u ∷ [])) (ground arith),
    )
  ]

  Advance-IsWithinQuota :
      (old new : UploadSessionModel) (us : List UploadSessionModel)
      → find_by (has_id new.id) us ≡ some old
      → Advance old new
      → IsWithinQuota cfg org us
      → IsWithinQuota cfg org (replace_by (has_id new.id) new us)
  Advance-IsWithinQuota old new us f a h =
      let count = sum_by-replace_by (has_id new.id) (is_reserving org) (λ _. 1) new old us f in
      let bytes =
        sum_by-replace_by (has_id new.id) (is_reserving org) (λ v. v.reserved_bytes) new old us f in
      let active = edge-active a.edge in (ground (arith, active), ground (arith, active))

  annotate-IsWithinQuota :
      (old new : UploadSessionModel) (us : List UploadSessionModel)
      → find_by (has_id new.id) us ≡ some old
      → Annotation old new
      → IsWithinQuota cfg org us
      → IsWithinQuota cfg org (replace_by (has_id new.id) new us)
  annotate-IsWithinQuota old new us f a h =
      let count = sum_by-replace_by (has_id new.id) (is_reserving org) (λ _. 1) new old us f in
      let bytes =
        sum_by-replace_by (has_id new.id) (is_reserving org) (λ v. v.reserved_bytes) new old us f in
      (ground arith, ground arith)

module _ {cfg : Settings} where
  Step-Distinct :
      {us vs : List UploadSessionModel}
      → Step cfg us vs
      → Distinct session_id us
      → Distinct session_id vs
  Step-Distinct {us} (admit u a) d = Distinct-append session_id u us d a.is_new
  Step-Distinct {us} (advance old new f a) d = Distinct-replace_by session_id new us d
  Step-Distinct {us} (annotate old new f a) d = Distinct-replace_by session_id new us d

  Step-IsReserved :
      {us vs : List UploadSessionModel} → Step cfg us vs → All IsReserved us → All IsReserved vs
  Step-IsReserved {us} (admit u a) h =
      All-append IsReserved us (u ∷ []) h (Admitted-IsReserved u a, tt)
  Step-IsReserved {us} (advance old new f a) h =
      All-replace_by IsReserved (has_id new.id) new us h
        (Advance-IsReserved old new a (All-find_by IsReserved (has_id old.id) us old h f))
  Step-IsReserved {us} (annotate old new f a) h =
      All-replace_by IsReserved (has_id new.id) new us h
        (Annotation-IsReserved old new a (All-find_by IsReserved (has_id old.id) us old h f))

  Step-IsWithinQuota :
      (org : ℕ) {us vs : List UploadSessionModel}
      → Step cfg us vs
      → IsWithinQuota cfg org us
      → IsWithinQuota cfg org vs
  Step-IsWithinQuota org {us} (admit u a) h = admit-IsWithinQuota cfg org u us a h
  Step-IsWithinQuota org {us} (advance old new f a) h =
      Advance-IsWithinQuota cfg org old new us (written_row old new us f a.same_id) a h
  Step-IsWithinQuota org {us} (annotate old new f a) h =
      annotate-IsWithinQuota cfg org old new us (written_row old new us f a.same_id) a h

  pub Reach-Distinct :
      {us vs : List UploadSessionModel}
      → Reach cfg us vs
      → Distinct session_id us
      → Distinct session_id vs
  Reach-Distinct here d = d
  Reach-Distinct (next r s) d = Step-Distinct s (Reach-Distinct r d)

  pub Reach-IsReserved :
      {us vs : List UploadSessionModel} → Reach cfg us vs → All IsReserved us → All IsReserved vs
  Reach-IsReserved here h = h
  Reach-IsReserved (next r s) h = Step-IsReserved s (Reach-IsReserved r h)

  pub Reach-IsWithinQuota :
      (org : ℕ) {us vs : List UploadSessionModel}
      → Reach cfg us vs
      → IsWithinQuota cfg org us
      → IsWithinQuota cfg org vs
  Reach-IsWithinQuota org here h = h
  Reach-IsWithinQuota org (next r s) h = Step-IsWithinQuota org s (Reach-IsWithinQuota org r h)
