-- ===== src/Artifact/Completion/Streams.antt =====
-- The chunks of a stream and its bytes, about `verify_object` of modules/artifact/completion.py.
use mathlib.Core.List.{append_assoc, append-nil}
use ai_auto_platform.Prelude.{ℕ, ◌+◌, ◌≡◌, ◌∙◌, arith, List, [], ◌∷◌, ◌++◌, length}
use ai_auto_platform.Common.Libraries.{Libraries}
use ai_auto_platform.Artifact.Storage.{ObjectMetadata}
use ai_auto_platform.Artifact.Completion.{read_stream, verify_stream}

-- The bytes of an object that is read in chunks.
abbrev pub bytes_of : List (List ℕ) → List ℕ
bytes_of [] = []
bytes_of (chunk ∷ chunks) = chunk ++ bytes_of chunks

length-append : (xs ys : List ℕ) → length (xs ++ ys) ≡ length xs + length ys
length-append [] ys = omega arith
length-append (x ∷ xs) ys = omega (arith, length-append xs ys)

read_stream-bytes_of :
    (chunks : List (List ℕ)) (digest : List ℕ) (size : ℕ)
    → read_stream digest size chunks ≡ (digest ++ bytes_of chunks, size + length (bytes_of chunks))
unfolding read_stream
read_stream-bytes_of [] digest size = ground (arith, append-nil digest)
read_stream-bytes_of ([] ∷ chunks) digest size = read_stream-bytes_of chunks digest size
read_stream-bytes_of ((b ∷ chunk) ∷ chunks) digest size =
    let rest = read_stream-bytes_of chunks (digest ++ b ∷ chunk) (size + length (b ∷ chunk)) in
    rest
    ∙ ground (
      arith,
      append_assoc digest (b ∷ chunk) (bytes_of chunks),
      length-append (b ∷ chunk) (bytes_of chunks),
    )

-- What `verify_object` makes of a stream depends on its bytes only and not on its chunks: the size
-- is their number, whatever the storage's metadata says, and the digest is that of all of them in
-- order.
pub verify_stream-bytes_of :
    (lib : Libraries) (m : ObjectMetadata) (chunks : List (List ℕ))
    → verify_stream lib m chunks ≡ record {
      metadata = record m { size_bytes = length (bytes_of chunks) };
      verified_sha256 = lib.bytes_sha256 (bytes_of chunks);
    }
unfolding verify_stream
verify_stream-bytes_of lib m chunks = rw (read_stream-bytes_of chunks [] 0) (ground arith)
