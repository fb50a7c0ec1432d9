-- ===== src/Upload/Payloads/Bounds.antt =====
-- Accepted payloads, about the validators of api/upload_sessions.py.
use ai_auto_platform.Prelude.{ℕ, ◌≤◌, ◌<◌, ◌≡◌, arith, true, some, List, [], ◌∷◌, All, length}
use ai_auto_platform.Upload.Payloads.{
  UploadCompleteRequest, numbers_of, is_sorted, all_unique, validate_complete,
}

-- Each number is below all that follow it.
abbrev pub IsAscending : List ℕ → Type 0
IsAscending [] = Unit
IsAscending (n ∷ ns) = All (λ k. n < k) ns × IsAscending ns

below-weaken : (m n : ℕ) (ns : List ℕ) → m < n → All (λ k. n < k) ns → All (λ k. m < k) ns
below-weaken m n [] h a = tt
below-weaken m n (k ∷ ns) h a = (ground arith, below-weaken m n ns h a.1)

ascending : (ns : List ℕ) → is_sorted ns ≡ true → all_unique ns ≡ true → IsAscending ns
unfolding is_sorted all_unique
ascending [] s u = tt
ascending (n ∷ []) s u = (tt, tt)
ascending (n ∷ k ∷ ns) s u =
    let rest = ascending (k ∷ ns) (ground arith) (ground arith) in
    let less : n < k = ground arith in ((less, below-weaken n k ns less rest.0), rest)

-- A list of parts that the validator accepts reaches the handler unchanged, is not empty, has at
-- most 10,000 entries, and its part numbers ascend strictly: none stands twice.
pub validate_complete-IsAscending :
    (r r' : UploadCompleteRequest)
    → validate_complete r ≡ some r'
    → (r' ≡ r) × (1 ≤ length r.parts) × (length r.parts ≤ 10_000) × IsAscending (numbers_of r.parts)
unfolding validate_complete
validate_complete-IsAscending r r' h = (
  ground arith,
  ground arith,
  ground arith,
  ascending (numbers_of r.parts) (ground arith) (ground arith),
)
