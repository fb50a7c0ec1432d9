-- ===== src/Upload/Parts/Repeats.antt =====
-- Registering a part again, about `register_upload_part` of api/upload_sessions.py.
use ai_auto_platform.Prelude.{
  ℕ, ◌≡◌, refl, arith, Bool, true, ◌&&◌, none, some, List, [], ◌∷◌, ◌++◌, ◌==◌, str_eq, find_by,
  if◌then◌else◌, Bool-cases, inl, inr,
}
use ai_auto_platform.Errors.{ok, err, domain_error, upload_part_conflict}
use ai_auto_platform.Db.Models.{UploadSessionModel, UploadPartModel}
use ai_auto_platform.Exec.{World, Context, write, commit, pure, raise, ◌>>=◌}
use ai_auto_platform.Common.Reliability.{record_audit, record_outbox}
use ai_auto_platform.Upload.Payloads.{UploadPartRegister}
use ai_auto_platform.Upload.Parts.{is_part, new_part, register_new, register_or_compare}

find_by-append_last :
    (p : UploadPartModel → Bool) (x : UploadPartModel) (xs : List UploadPartModel)
    → find_by p xs ≡ none
    → p x ≡ true
    → find_by p (xs ++ x ∷ []) ≡ some x
find_by-append_last p x [] h e = ground arith
find_by-append_last p x (y ∷ xs) h e = ground (arith, find_by-append_last p x xs)

-- A part that has been registered is found, durably, under its number; registering it again then
-- writes nothing: with the same tag and size it is returned, with others it is a conflict.
pub register_or_compare-again :
    {R : Type 0} (ctx ctx' : Context) (org project number : ℕ) (u : UploadSessionModel)
    → (p p' : UploadPartRegister) (w : World R)
    → find_by (is_part u.id number) w.pending.upload_parts ≡ none
    → let part = new_part ctx org u.id number p in
      let after = (register_or_compare ctx org project u number p none w).1 in
      (find_by (is_part u.id number) after.durable.upload_parts ≡ some part)
      × (register_or_compare ctx' org project u number p' (some part) after ≡ (
        if str_eq p.etag p'.etag && p.size_bytes == p'.size_bytes
            then ok part
            else err (domain_error upload_part_conflict 409),
        after,
      ))
unfolding register_or_compare register_new new_part record_audit record_outbox ◌>>=◌ write commit
    pure raise
register_or_compare-again ctx ctx' org project number u p p' w h = (
  find_by-append_last (is_part u.id number) (new_part ctx org u.id number p) w.pending.upload_parts
      h (ground arith),
  elim (Bool-cases (str_eq p.etag p'.etag && p.size_bytes == p'.size_bytes)) [
    | inl same ↦ rw same refl
    | inr other ↦ rw other refl
  ],
)
