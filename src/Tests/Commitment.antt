-- ===== src/Tests/Commitment.antt =====
-- A three-byte document: its witness, its commitment, and the limits on its reader.
use sigmaproof.Prelude.{◌≡◌, ◌⊎◌, ◌↔◌, refl, [], ◌∷◌, some, ok, err, Option, pos, negsuc, replicate}
use sigmaproof.Bytes.{Bytes, bytes_equal}
use sigmaproof.Errors.{document_too_long, invalid_byte_limit, read_failed, document_mismatch}
use sigmaproof.Sha.{Collision, sum}
use sigmaproof.Reader.{Reader, stream, broken, read_limited}
use sigmaproof.Commitment.{
  Witness, Digest, IsWitness, preimage, encode, parse, compute, hash_read, hash_document,
  read_random, new_witness, new, verify, check_document, check_commitment,
}
use sigmaproof.Commitment.Codec.{parse-encode_iff}
use sigmaproof.Commitment.Document.{Fits, hash_document_iff}
use sigmaproof.Commitment.Binding.{compute_binding, verify_binding}
use sigmaproof.Tests.Toy.{toy, toy_digest}

abbrev document : Option Reader
document = some (stream (1 ∷ 2 ∷ 3 ∷ []))

abbrev pub nonce : Bytes
nonce = replicate 32 5

abbrev pub witness : Witness
witness = record {
  version_byte = 1;
  algorithm = 1;
  representation = 1;
  metadata = 0;
  document_digest = toy_digest (1 ∷ 2 ∷ 3 ∷ []);
  nonce = nonce;
}

abbrev commitment : Digest
commitment = toy_digest (preimage witness)

new_runs : new document 1 (pos 3) (some nonce) ≡ ok (witness, commitment)
unfolding new read_random hash_document hash_read read_limited compute encode preimage new_witness
new_runs = refl

verify_runs : verify document witness commitment (pos 3) ≡ ok tt
unfolding verify check_document check_commitment hash_document hash_read read_limited compute encode
    preimage bytes_equal
verify_runs = refl

compute_runs : compute witness ≡ ok commitment
unfolding compute encode preimage
compute_runs = refl

too_long : hash_document document (pos 2) ≡ err document_too_long
unfolding hash_document hash_read read_limited
too_long = refl

negative_limit : hash_document document (negsuc 0) ≡ err invalid_byte_limit
unfolding hash_document
negative_limit = refl

broken_reader : hash_document (some (broken (1 ∷ []))) (pos 5) ≡ err read_failed
unfolding hash_document hash_read read_limited
broken_reader = refl

other_document : verify (some (stream [])) witness commitment (pos 3) ≡ err document_mismatch
unfolding verify check_document check_commitment hash_document hash_read read_limited compute encode
    preimage bytes_equal
other_document = refl

sizes : IsWitness witness
sizes = record { digest_size = refl; nonce_size = refl }

parse-encode_iff_example :
    (parse (preimage witness) ≡ ok witness)
    ↔ (IsWitness witness × (encode witness ≡ ok (preimage witness)))
parse-encode_iff_example = parse-encode_iff (preimage witness) witness

hash_document_iff_example :
    (hash_document document (pos 3) ≡ ok (toy_digest (1 ∷ 2 ∷ 3 ∷ [])))
    ↔ ((b : Bytes) × Fits document (pos 3) b × (toy_digest (1 ∷ 2 ∷ 3 ∷ []) ≡ sum b))
hash_document_iff_example = hash_document_iff document (pos 3) (toy_digest (1 ∷ 2 ∷ 3 ∷ []))

compute_binding_example : (witness ≡ witness) ⊎ Collision
compute_binding_example =
    compute_binding witness witness commitment sizes sizes compute_runs compute_runs

verify_binding_example :
    ((b : Bytes) × Fits document (pos 3) b × Fits document (pos 3) b) ⊎ Collision
verify_binding_example =
    verify_binding document document witness witness commitment (pos 3) (pos 3) sizes sizes
      verify_runs verify_runs
