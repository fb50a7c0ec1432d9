-- ===== src/Artifact/Completion.antt =====
-- modules/artifact/completion.py: the size and the digest of a stored object, from its stream.
-- `hashlib`'s object is the bytes that it has been given: `update(a)` and then `update(b)` is
-- `update(a + b)`, as its documentation has it.
pub mod Streams
use ai_auto_platform.Prelude.{
  ℕ, ◌+◌, Bool, not, Option, List, [], ◌∷◌, ◌++◌, String, ◌==◌, if◌then◌else◌, length,
}
use ai_auto_platform.Errors.{Result, ok}
use ai_auto_platform.Exec.{Action, pure, call, ◌>>=◌}
use ai_auto_platform.Common.Libraries.{Libraries}
use ai_auto_platform.Artifact.Storage.{
  ObjectStoragePort, ObjectMetadata, Stored, stored, storage_error,
}

pub record VerificationResult : Type 0 where
  pub metadata : ObjectMetadata
  pub verified_sha256 : String

-- The loop over the chunks: the bytes given to the digest, and `streamed_size`.
unfoldable pub read_stream : List ℕ → ℕ → List (List ℕ) → List ℕ × ℕ
read_stream digest size [] = (digest, size)
read_stream digest size ([] ∷ chunks) = read_stream digest size chunks
read_stream digest size ((b ∷ chunk) ∷ chunks) =
    read_stream (digest ++ b ∷ chunk) (size + length (b ∷ chunk)) chunks

unfoldable pub verify_stream : Libraries → ObjectMetadata → List (List ℕ) → VerificationResult
unfolding read_stream
verify_stream lib m chunks =
    let (digest, size) = read_stream [] 0 chunks in
    record {
      metadata = if not (size == m.size_bytes) then record m { size_bytes = size } else m;
      verified_sha256 = lib.bytes_sha256 digest;
    }

abbrev pub verify_chunks :
    Libraries → ObjectMetadata → Stored (List (List ℕ)) → Stored VerificationResult
verify_chunks lib m (stored chunks) = stored (verify_stream lib m chunks)
verify_chunks lib m (storage_error e) = storage_error e

module _ {R : Type 0} where
  abbrev pub stream_object :
      Libraries
      → ObjectStoragePort R
      → String
      → Stored ObjectMetadata
      → Action R (Stored VerificationResult)
  stream_object lib port key (storage_error e) = pure (storage_error e)
  stream_object lib port key (stored m) = do
    chunks ← call (port.read_chunks key)
    pure (verify_chunks lib m chunks)

  unfoldable pub verify_object :
      Libraries → ObjectStoragePort R → String → Action R (Stored VerificationResult)
  unfolding verify_stream
  verify_object lib port key = do m ← call (port.head key); stream_object lib port key m
