-- ===== src/Tests/Package.antt =====
-- A created package: its 170 bytes, read back.
use sigmaproof.Prelude.{
  ◌≤◌, ◌≡◌, ◌↔◌, refl, [], ◌∷◌, ◌++◌, length, some, ok, err, arith, replicate, Option, pos,
}
use sigmaproof.Bytes.{Bytes, bytes_equal, codes}
use sigmaproof.Bytes.Words.{put_uint64, uint64}
use sigmaproof.Errors.{invalid_package_length}
use sigmaproof.Reader.{Reader, stream, read_limited}
use sigmaproof.Merkle.{leaf, root, root_fuel}
use sigmaproof.Merkle.Split.{split, len64, len_bits}
use sigmaproof.Commitment
use sigmaproof.Commitment.{
  Witness, preimage, read_random, hash_document, hash_read, compute, new_witness, original,
}
use sigmaproof.Batch
use sigmaproof.Batch.{Manifest, blank, validate, write_manifest}
use sigmaproof.Package.{
  Package, create_unanchored, marshal_binary, finish, join_unsupported, write_package, write_path,
  parse, is_unsupported, assemble, read_path,
}
use sigmaproof.Package.Depth.{path_length, path_length_loop, path_length-le, verify-path_length}
use sigmaproof.Package.Writing.{IsPackage}
use sigmaproof.Package.RoundTrip.{package_parse_iff}
use sigmaproof.Tests.Commitment.{witness, nonce}
use sigmaproof.Tests.Merkle.{entries, siblings, verify_last}
use sigmaproof.Tests.Toy.{toy, toy_digest}

abbrev pub document : Option Reader
document = some (stream (1 ∷ 2 ∷ 3 ∷ []))

-- The leaf over the commitment, under the digest of these runs.
abbrev pub created : Package
created = record {
  witness = witness;
  manifest = record {
    version_byte = 1;
    commitment_version = 1;
    commitment_algorithm = 1;
    tree_algorithm = 1;
    size = 1;
    root = toy_digest (0 ∷ toy_digest (preimage witness));
  };
  index = 0;
  path = [];
}

pub create_runs : create_unanchored document original (pos 3) (some nonce) ≡ ok created
unfolding create_unanchored Commitment.new read_random hash_document hash_read read_limited compute
    Commitment.encode preimage new_witness Batch.new validate blank root root_fuel leaf
create_runs = refl

abbrev pub encoded : Bytes
encoded =
    codes "SIGMAPRF"
    ++ (1
        ∷ (codes "sigmaproof:commitment"
            ++ (0
                ∷ 1
                ∷ 1
                ∷ 1
                ∷ 0
                ∷ 1
                ∷ 2
                ∷ 3
                ∷ (replicate 29 0
                    ++ (replicate 32 5
                        ++ (codes "sigmaproof:batch"
                            ++ (0
                                ∷ 1
                                ∷ 1
                                ∷ 1
                                ∷ 1
                                ∷ 0
                                ∷ 0
                                ∷ 0
                                ∷ 0
                                ∷ 0
                                ∷ 0
                                ∷ 0
                                ∷ 1
                                ∷ 0
                                ∷ (codes "sigmaproof:commitment"
                                    ++ (0
                                        ∷ 1
                                        ∷ 1
                                        ∷ 1
                                        ∷ 0
                                        ∷ 1
                                        ∷ 2
                                        ∷ 3
                                        ∷ 0
                                        ∷ 0
                                        ∷ replicate 10 0)))))))))

marshal_runs : marshal_binary created ≡ ok encoded
unfolding marshal_binary finish join_unsupported write_package write_path Commitment.encode preimage
    Batch.marshal_binary validate write_manifest put_uint64 path_length path_length_loop
marshal_runs = refl

pub parse_runs : parse encoded ≡ ok created
unfolding parse is_unsupported assemble read_path Commitment.parse Commitment.fields
    Commitment.encode preimage Batch.parse Batch.fields validate uint64 path_length path_length_loop
    bytes_equal
parse_runs = refl

short_package : parse (0 ∷ []) ≡ err invalid_package_length
unfolding parse
short_package = refl

path_lengths : (path_length 4 5 ≡ 1) × (path_length 0 5 ≡ 3) × (path_length 0 65536 ≡ 16)
unfolding path_length path_length_loop split len64 len_bits
path_lengths = (refl, refl, refl)

package_parse_iff_example :
    (parse encoded ≡ ok created) ↔ (IsPackage created × (marshal_binary created ≡ ok encoded))
package_parse_iff_example = package_parse_iff encoded created (omega arith)

path_length-le_example : path_length 0 65536 ≤ 16
path_length-le_example = path_length-le 16 0 65536 (omega arith) (omega arith)

verify-path_length_example : length siblings ≡ path_length 2 3
verify-path_length_example =
    verify-path_length (9 ∷ []) 2 3 siblings (root entries) (omega arith) verify_last
