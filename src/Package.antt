-- ===== src/Package.antt =====
-- pkg/proof/package.go: the portable, unanchored evidence package.
pub mod Depth
pub mod Layout
pub mod Paths
pub mod Reading
pub mod Framing
pub mod Writing
pub mod RoundTrip
pub mod Create
pub mod Member
use sigmaproof.Prelude.{
  ℕ, zero, suc, ◌+◌, ◌-◌, ◌*◌, ◌%◌, Bool, true, false, ◌||◌, ◌&&◌, not, Option, none, some, List,
  [], ◌∷◌, ◌++◌, length, replicate, ltb, leb, ◌==◌, if◌then◌else◌, ok, err, ◌>>=◌, ◌>>◌, ℤ,
}
use sigmaproof.Bytes.{Bytes, bytes_equal, slice, at, codes, copy, copy_at, copy_range}
use sigmaproof.Bytes.Words.{put_uint64, uint64}
use sigmaproof.Errors.{
  Error, Outcome, unsupported, unsupported_joined, index_outside_manifest, incorrect_path_length,
  invalid_package_length, invalid_package_magic, invalid_path_framing, package_reader_required,
}
use sigmaproof.Sha.{Sha256}
use sigmaproof.Reader.{Reader, read_limited}
use sigmaproof.Commitment
use sigmaproof.Commitment.{Witness, Digest}
use sigmaproof.Batch
use sigmaproof.Batch.{Manifest}
use sigmaproof.Merkle.{Hash}
use Depth.{path_length}

abbrev pub package_version : ℕ
package_version = 1

abbrev pub max_package_bytes : ℕ
max_package_bytes = 170 + 16 * 32

abbrev pub magic : Bytes
magic = codes "SIGMAPRF"

pub record Package : Type 0 where
  pub witness : Witness
  pub manifest : Manifest
  pub index : ℕ
  pub path : List Hash

-- The loop of `MarshalBinary` over the path.
unfoldable pub write_path : ℕ → Bytes → List Hash → Bytes
write_path i out [] = out
write_path i out (h ∷ hs) =
    write_path (i + 1) (copy_range (169 + i * 32) (169 + (i + 1) * 32) out h) hs

-- The writes into a buffer of zeros, in their order. The last byte stays zero: no anchors.
unfoldable pub write_package : Bytes → Bytes → ℕ → List Hash → Bytes
write_package witness manifest index path =
    let out0 = copy (replicate (170 + length path * 32) 0) magic in
    let out1 = copy_at 8 out0 (package_version ∷ []) in
    let out2 = copy_range 9 99 out1 witness in
    let out3 = copy_range 99 160 out2 manifest in
    let out4 = copy_range 160 168 out3 (put_uint64 index) in
    let out5 = copy_at 168 out4 (length path % 256 ∷ []) in write_path 0 out5 path

-- `errors.Join(ErrUnsupported, err)`
unfoldable pub join_unsupported : Outcome Bytes → Outcome Bytes
join_unsupported (ok b) = ok b
join_unsupported (err e) = err (unsupported_joined e)

-- `MarshalBinary` behind the two primitive encoders.
unfoldable pub finish : Package → Bytes → Bytes → Outcome Bytes
finish p witness manifest =
    if leb p.manifest.size p.index
    then err index_outside_manifest
    else if not (length p.path == path_length p.index p.manifest.size)
    then err incorrect_path_length
    else ok (write_package witness manifest p.index p.path)

unfoldable pub marshal_binary : Package → Outcome Bytes
marshal_binary p = do
  witness ← join_unsupported (Commitment.encode p.witness)
  manifest ← Batch.marshal_binary p.manifest
  finish p witness manifest

-- The loop of `Parse` over the path: the rounds left and the index.
unfoldable pub read_path : ℕ → ℕ → Bytes → List Hash
read_path zero i d = []
read_path (suc n) i d =
    copy (replicate 32 0) (slice (169 + i * 32) (169 + (i + 1) * 32) d) ∷ read_path n (i + 1) d

-- The bytes that decide whether the profile is supported, read before the strict parsers run.
unfoldable pub is_unsupported : Bytes → Bool
is_unsupported d =
    not (at 31 d == 1)
    || not (at 32 d == 1)
    || (not (at 33 d == 1) && not (at 33 d == 2))
    || not (at 34 d == 0)
    || not (at 116 d == 1)
    || not (at 117 d == 1)
    || not (at 118 d == 1)
    || not (at 119 d == 1)

-- `Parse` behind the two primitive parsers.
unfoldable pub assemble : Bytes → Witness → Manifest → Outcome Package
assemble d witness manifest =
    let index = uint64 (slice 160 168 d) in
    if leb manifest.size index
    then err index_outside_manifest
    else if not (at 168 d == path_length index manifest.size)
    then err incorrect_path_length
    else ok (record {
      witness = witness;
      manifest = manifest;
      index = index;
      path = read_path (at 168 d) 0 d;
    })

unfoldable pub parse : Bytes → Outcome Package
parse d =
    if ltb (length d) 170 || ltb max_package_bytes (length d)
    then err invalid_package_length
    else if not (bytes_equal (slice 0 8 d) magic)
    then err invalid_package_magic
    else if not (at 8 d == package_version)
    then err unsupported
    else if ltb 16 (at 168 d) || not (length d == 170 + 32 * at 168 d)
    then err invalid_path_framing
    else if not (at (length d - 1) d == 0)
    then err unsupported
    else if is_unsupported d
    then err unsupported
    else do
      witness ← Commitment.parse (slice 9 99 d)
      manifest ← Batch.parse (slice 99 160 d)
      assemble d witness manifest

unfoldable pub read : Option Reader → Outcome Package
read none = err package_reader_required
read (some r) = do d ← read_limited r (max_package_bytes + 1); parse d

module _ ⦃sha : Sha256⦄ where
  unfoldable pub create_unanchored : Option Reader → ℕ → ℤ → Option Bytes → Outcome Package
  create_unanchored document representation max random = do
    (w, c) ← Commitment.new document representation max random
    m ← Batch.new (c ∷ [])
    ok (record { witness = w; manifest = m; index = 0; path = [] })
