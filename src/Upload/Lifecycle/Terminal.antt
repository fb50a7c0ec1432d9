-- ===== src/Upload/Lifecycle/Terminal.antt =====
-- Terminal states of upload sessions through steps (`is_terminal` of modules/artifact/domain.py).
use ai_auto_platform.Prelude.{
  ℕ, ◌≡◌, refl, ap, subst, sym, ◌∙◌, true, some, inl, inr, List, [], ◌∷◌, arith, Bool-cases,
  find_by, replace_by, ◌==◌, find_by-append, find_by-replace_by_self, find_by-replace_by_ne,
}
use ai_auto_platform.Db.Models.{UploadSessionModel}
use ai_auto_platform.Artifact.Domain.{UploadSessionStatus, is_terminal}
use ai_auto_platform.Common.Settings.{Settings}
use ai_auto_platform.Upload.Rows.{has_id}
use ai_auto_platform.Upload.Lifecycle.{
  Step, admit, advance, annotate, Reach, here, next, session_id, ◌⟶◌,
}

pub edge-terminal : {s t : UploadSessionStatus} → s ⟶ t → is_terminal s ≡ true → t ≡ s
edge-terminal ◌⟶◌.initialize h = cc
edge-terminal ◌⟶◌.checkpoint h = cc
edge-terminal ◌⟶◌.publish h = cc
edge-terminal ◌⟶◌.abort_pending h = cc
edge-terminal ◌⟶◌.abort_uploading h = cc
edge-terminal ◌⟶◌.abort_again h = refl
edge-terminal (◌⟶◌.expire {s} a) h = ground arith

-- The session with this id is there, in this state.
pub record InState (id : ℕ) (s : UploadSessionStatus) (us : List UploadSessionModel) : Type 0 where
  pub row : UploadSessionModel
  pub found : find_by (has_id id) us ≡ some row
  pub in_state : row.status ≡ s

-- A write that keeps terminal states keeps the session in its terminal state.
written-InState :
    (id : ℕ) (s : UploadSessionStatus) (us : List UploadSessionModel)
    → (old new : UploadSessionModel) → is_terminal s ≡ true
    → find_by (has_id old.id) us ≡ some old
    → new.id ≡ old.id
    → (is_terminal old.status ≡ true → new.status ≡ old.status)
    → InState id s us
    → InState id s (replace_by (has_id new.id) new us)
written-InState id s us old new final f same_id keeps h = elim (Bool-cases (new.id == id)) [
  | inl e ↦
      let same : new.id ≡ id = ground arith in
      let here_now : find_by (has_id new.id) us ≡ some old = rw same_id f in
      let old_row : old ≡ h.row = ground (arith, rw same at here_now, h.found) in
      let now : old.status ≡ s = ap (λ (u : UploadSessionModel). u.status) old_row ∙ h.in_state in
      let ended = subst (λ t. is_terminal t ≡ true) (sym now) final in
      record {
        row = new;
        found =
            subst (λ k. find_by (has_id k) (replace_by (has_id new.id) new us) ≡ some new) same
              (find_by-replace_by_self session_id new old us here_now);
        in_state = keeps ended ∙ now;
      }
  | inr e ↦ record {
    row = h.row;
    found = rw (find_by-replace_by_ne session_id id new us e) (h.found);
    in_state = h.in_state;
  }
]

module _ {cfg : Settings} (id : ℕ) (s : UploadSessionStatus) (final : is_terminal s ≡ true) where
  Step-InState :
      {us vs : List UploadSessionModel} → Step cfg us vs → InState id s us → InState id s vs
  Step-InState {us} (admit u a) h = record {
    row = h.row;
    found = find_by-append (has_id id) h.row us (u ∷ []) h.found;
    in_state = h.in_state;
  }
  Step-InState {us} (advance old new f a) h =
      written-InState id s us old new final f a.same_id (edge-terminal a.edge) h
  Step-InState {us} (annotate old new f a) h =
      written-InState id s us old new final f a.same_id (λ _. a.same_status) h

  pub Reach-InState :
      {us vs : List UploadSessionModel} → Reach cfg us vs → InState id s us → InState id s vs
  Reach-InState here h = h
  Reach-InState (next r t) h = Step-InState t (Reach-InState r h)
