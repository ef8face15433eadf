-- ===== src/Tests/Batch.antt =====
-- A batch of two commitments.
use sigmaproof.Prelude.{
  ◌^◌, ◌≤◌, ◌<◌, ◌≡◌, ◌⊎◌, ◌↔◌, refl, List, [], ◌∷◌, ◌++◌, some, get_elem?, ok, err, arith, All,
  replicate,
}
use sigmaproof.Bytes.{Bytes, codes, bytes_equal}
use sigmaproof.Bytes.Words.{put_uint64, uint64}
use sigmaproof.Merkle.Tree.{root-IsHash}
use sigmaproof.Errors.{batch_size_outside_limits, invalid_manifest_length}
use sigmaproof.Sha.{Collision, IsHash}
use sigmaproof.Merkle
use sigmaproof.Merkle.{
  Hash, leaf, node, root, root_fuel, path_fuel, rebuild, rebuild_up, verify_end,
}
use sigmaproof.Merkle.Split.{split, len64, len_bits}
use sigmaproof.Commitment.{Digest}
use sigmaproof.Batch.{
  Manifest, new, blank, validate, marshal_binary, write_manifest, parse, fields, verify, digest,
}
use sigmaproof.Batch.Codec.{manifest_parse_iff}
use sigmaproof.Batch.Membership.{new_iff, verify-new_member, verify_member, digest_binding}
use sigmaproof.Tests.Toy.{toy, toy_digest}

abbrev commitments : List Digest
commitments = replicate 32 1 ∷ replicate 32 2 ∷ []

abbrev manifest : Manifest
manifest = blank 2 (root commitments)

abbrev siblings : List Hash
siblings = leaf (replicate 32 1) ∷ []

new_runs : new commitments ≡ ok manifest
unfolding new validate blank
new_runs = refl

empty_batch : new [] ≡ err batch_size_outside_limits
unfolding new validate blank
empty_batch = refl

short_manifest : parse (0 ∷ []) ≡ err invalid_manifest_length
unfolding parse
short_manifest = refl

path_runs : Merkle.path commitments 1 ≡ ok siblings
unfolding Merkle.path path_fuel root root_fuel split len64 len_bits
path_runs = refl

verify_runs : verify manifest (replicate 32 2) 1 siblings ≡ ok tt
unfolding verify validate blank Merkle.verify verify_end rebuild rebuild_up root root_fuel node leaf
    split len64 len_bits bytes_equal
verify_runs = refl

siblings-IsHash : All IsHash siblings
unfolding leaf
siblings-IsHash = (refl, tt)

manifest-IsHash : IsHash manifest.root
unfolding blank
manifest-IsHash = root-IsHash commitments (omega arith)

-- The root under the digest of these runs.
abbrev root_bytes : Bytes
root_bytes = 1 ∷ 0 ∷ replicate 30 1

abbrev encoded : Bytes
encoded =
    codes "sigmaproof:batch" ++ (0 ∷ 1 ∷ 1 ∷ 1 ∷ 1 ∷ 0 ∷ 0 ∷ 0 ∷ 0 ∷ 0 ∷ 0 ∷ 0 ∷ 2 ∷ root_bytes)

parse_runs : parse encoded ≡ ok (blank 2 root_bytes)
unfolding parse fields validate blank uint64 bytes_equal
parse_runs = refl

marshal_runs : marshal_binary manifest ≡ ok encoded
unfolding marshal_binary write_manifest validate blank put_uint64 root root_fuel node leaf split
    len64 len_bits
marshal_runs = refl

digest_runs : digest manifest ≡ ok (toy_digest encoded)
unfolding digest marshal_binary write_manifest validate blank put_uint64 root root_fuel node leaf
    split len64 len_bits
digest_runs = refl

new_iff_example :
    (new commitments ≡ ok manifest)
    ↔ ((0 < 2) × (2 ≤ 2 ^ 16) × (manifest ≡ blank 2 (root commitments)))
new_iff_example = new_iff commitments manifest

verify-new_member_example : verify manifest (replicate 32 2) 1 siblings ≡ ok tt
verify-new_member_example =
    verify-new_member commitments manifest 1 (replicate 32 2) siblings new_runs refl path_runs

verify_member_example : (get_elem? commitments 1 ≡ some (replicate 32 2)) ⊎ Collision
verify_member_example =
    verify_member commitments manifest 1 (replicate 32 2) siblings new_runs siblings-IsHash
      verify_runs

manifest_parse_iff_example :
    (parse encoded ≡ ok manifest) ↔ (IsHash manifest.root × (marshal_binary manifest ≡ ok encoded))
manifest_parse_iff_example = manifest_parse_iff encoded manifest (omega arith)

digest_binding_example : (manifest ≡ manifest) ⊎ Collision
digest_binding_example =
    digest_binding manifest manifest (toy_digest encoded) manifest-IsHash manifest-IsHash
      digest_runs digest_runs
