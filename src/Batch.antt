-- ===== src/Batch.antt =====
-- pkg/proof/batch/manifest.go: the SEP-5 manifest of a batch of commitments.
pub mod Codec
pub mod Membership
use sigmaproof.Prelude.{
  ℕ, ◌+◌, ◌^◌, Bool, true, false, ◌||◌, not, List, [], ◌∷◌, ◌++◌, length, replicate, ltb, ◌==◌,
  if◌then◌else◌, ok, err, ◌>>=◌, ◌>>◌,
}
use sigmaproof.Bytes.{Bytes, bytes_equal, slice, at, codes, copy, copy_at, IsU64}
use sigmaproof.Bytes.Words.{put_uint64, uint64}
use sigmaproof.Errors.{
  Outcome, unsupported_manifest_version, unsupported_commitment_profile,
  unsupported_commitment_algorithm, unsupported_tree_algorithm, batch_size_outside_limits,
  invalid_manifest_length, invalid_manifest_domain,
}
use sigmaproof.Sha.{Sha256, sum, IsHash}
use sigmaproof.Commitment
use sigmaproof.Commitment.{Digest}
use sigmaproof.Merkle
use sigmaproof.Merkle.{Hash}

abbrev pub version : ℕ
version = 1

abbrev pub rfc6962_sha256 : ℕ
rfc6962_sha256 = 1

abbrev pub max_leaves : ℕ
max_leaves = 2 ^ 16

abbrev pub encoded_size : ℕ
encoded_size = 61

abbrev pub domain : Bytes
domain = codes "sigmaproof:batch" ++ (0 ∷ [])

pub record Manifest : Type 0 where
  pub version_byte : ℕ
  pub commitment_version : ℕ
  pub commitment_algorithm : ℕ
  pub tree_algorithm : ℕ
  pub size : ℕ
  pub root : Hash

unfoldable pub validate : Manifest → Outcome (Unit {0})
validate m =
    if not (m.version_byte == version)
    then err unsupported_manifest_version
    else if not (m.commitment_version == Commitment.version)
    then err unsupported_commitment_profile
    else if not (m.commitment_algorithm == Commitment.sha256)
    then err unsupported_commitment_algorithm
    else if not (m.tree_algorithm == rfc6962_sha256)
    then err unsupported_tree_algorithm
    else if m.size == 0 || ltb max_leaves m.size
    then err batch_size_outside_limits
    else ok tt

-- The writes of `MarshalBinary` into a buffer of zeros, in their order.
unfoldable pub write_manifest : Manifest → Bytes
write_manifest m =
    let out0 = copy (replicate encoded_size 0) domain in
    let out1 = copy_at 17 out0 (m.version_byte ∷ []) in
    let out2 = copy_at 18 out1 (m.commitment_version ∷ []) in
    let out3 = copy_at 19 out2 (m.commitment_algorithm ∷ []) in
    let out4 = copy_at 20 out3 (m.tree_algorithm ∷ []) in
    let out5 = copy_at 21 out4 (put_uint64 m.size) in copy_at 29 out5 m.root

unfoldable pub marshal_binary : Manifest → Outcome Bytes
marshal_binary m = do validate m; ok (write_manifest m)

-- The fields that `Parse` reads at fixed offsets.
unfoldable pub fields : Bytes → Manifest
fields d = record {
  version_byte = at 17 d;
  commitment_version = at 18 d;
  commitment_algorithm = at 19 d;
  tree_algorithm = at 20 d;
  size = uint64 (slice 21 29 d);
  root = copy (replicate 32 0) (slice 29 61 d);
}

unfoldable pub parse : Bytes → Outcome Manifest
parse d =
    if not (length d == encoded_size)
    then err invalid_manifest_length
    else if not (bytes_equal (slice 0 17 d) domain)
    then err invalid_manifest_domain
    else do validate (fields d); ok (fields d)

-- The manifest before its root is computed.
unfoldable pub blank : ℕ → Hash → Manifest
blank size root = record {
  version_byte = version;
  commitment_version = Commitment.version;
  commitment_algorithm = Commitment.sha256;
  tree_algorithm = rfc6962_sha256;
  size = size;
  root = root;
}

module _ ⦃sha : Sha256⦄ where
  unfoldable pub new : List Digest → Outcome Manifest
  new commitments = do
    validate (blank (length commitments) (replicate 32 0))
    ok (blank (length commitments) (Merkle.root commitments))

  unfoldable pub digest : Manifest → Outcome Bytes
  digest m = do b ← marshal_binary m; ok (sum b)

  unfoldable pub verify : Manifest → Digest → ℕ → List Hash → Outcome (Unit {0})
  verify m c index path = do validate m; Merkle.verify c index m.size path m.root
