-- ===== src/Commitment.antt =====
-- pkg/proof/commitment/commitment.go: the SEP-2 preimage, its commitment, and the document check.
pub mod Codec
pub mod Document
pub mod Binding
use sigmaproof.Prelude.{
  ℕ, zero, suc, ◌+◌, Bool, true, false, ◌||◌, ◌&&◌, not, Option, none, some, List, [], ◌∷◌, ◌++◌,
  length, replicate, ltb, ◌==◌, if◌then◌else◌, ok, err, ◌>>=◌, ◌>>◌, ℤ, pos, negsuc, max_int64,
}
use sigmaproof.Bytes.{Bytes, bytes_equal, slice, at, codes}
use sigmaproof.Errors.{
  Outcome, unsupported_commitment_version, unsupported_digest_algorithm, unsupported_representation,
  unsupported_metadata, commitment_mismatch, document_mismatch, reader_required, invalid_byte_limit,
  document_too_long, invalid_preimage_framing, random_failed,
}
use sigmaproof.Sha.{Sha256, sum, IsHash}
use sigmaproof.Reader.{Reader, read_limited}

abbrev pub version : ℕ
version = 1

abbrev pub sha256 : ℕ
sha256 = 1

abbrev pub metadata_absent : ℕ
metadata_absent = 0

abbrev pub original : ℕ
original = 1

abbrev pub derived : ℕ
derived = 2

abbrev pub domain : Bytes
domain = codes "sigmaproof:commitment" ++ (0 ∷ [])

abbrev pub Digest : Type 0
Digest = Bytes

pub record Witness : Type 0 where
  pub version_byte : ℕ
  pub algorithm : ℕ
  pub representation : ℕ
  pub metadata : ℕ
  pub document_digest : Digest
  pub nonce : Bytes

-- The two array fields of the struct have 32 bytes.
pub record IsWitness (w : Witness) : Type 0 where
  pub digest_size : IsHash w.document_digest
  pub nonce_size : IsHash w.nonce

-- What `Encode` appends, when it accepts the witness.
unfoldable pub preimage : Witness → Bytes
preimage w =
    domain
    ++ (w.version_byte
        ∷ w.algorithm
        ∷ w.representation
        ∷ w.metadata
        ∷ (w.document_digest ++ w.nonce))

unfoldable pub encode : Witness → Outcome Bytes
encode w =
    if not (w.version_byte == version)
    then err unsupported_commitment_version
    else if not (w.algorithm == sha256)
    then err unsupported_digest_algorithm
    else if not (w.representation == original) && not (w.representation == derived)
    then err unsupported_representation
    else if not (w.metadata == metadata_absent)
    then err unsupported_metadata
    else ok (preimage w)

-- The fields that `Parse` takes from fixed offsets.
unfoldable pub fields : Bytes → Witness
fields d = record {
  version_byte = at 22 d;
  algorithm = at 23 d;
  representation = at 24 d;
  metadata = at 25 d;
  document_digest = slice 26 58 d;
  nonce = slice 58 90 d;
}

unfoldable pub parse : Bytes → Outcome Witness
parse d =
    if not (length d == 90) || not (bytes_equal (slice 0 22 d) domain)
    then err invalid_preimage_framing
    else do b ← encode (fields d); ok (fields d)

module _ ⦃sha : Sha256⦄ where
  unfoldable pub compute : Witness → Outcome Digest
  compute w = do b ← encode w; ok (sum b)

  unfoldable pub hash_read : ℕ → Bytes → Outcome Digest
  hash_read max d = if ltb max (length d) then err document_too_long else ok (sum d)

  unfoldable pub hash_document : Option Reader → ℤ → Outcome Digest
  hash_document none max = err reader_required
  hash_document (some document) (negsuc n) = err invalid_byte_limit
  hash_document (some document) (pos max) =
      if max == max_int64
      then err invalid_byte_limit
      else do d ← read_limited document (max + 1); hash_read max d

  -- `rand.Read` into the nonce: the bytes it gave, or none where it failed.
  unfoldable pub read_random : Option Bytes → Outcome Bytes
  read_random none = err random_failed
  read_random (some nonce) = ok nonce

  unfoldable pub new_witness : ℕ → Digest → Bytes → Witness
  new_witness representation document_digest nonce = record {
    version_byte = version;
    algorithm = sha256;
    representation = representation;
    metadata = metadata_absent;
    document_digest = document_digest;
    nonce = nonce;
  }

  -- The array of zeros that a struct starts with.
  abbrev zeros : Bytes
  zeros = replicate 32 0

  unfoldable pub new : Option Reader → ℕ → ℤ → Option Bytes → Outcome (Witness × Digest)
  new document representation max random = do
    b ← encode (new_witness representation zeros zeros)
    d ← hash_document document max
    nonce ← read_random random
    c ← compute (new_witness representation d nonce)
    ok (new_witness representation d nonce, c)

  unfoldable pub check_document : Witness → Digest → Outcome (Unit {0})
  check_document w d =
      if not (bytes_equal d w.document_digest) then err document_mismatch else ok tt

  unfoldable pub check_commitment : Digest → Digest → Outcome (Unit {0})
  check_commitment actual expected =
      if not (bytes_equal actual expected) then err commitment_mismatch else ok tt

  unfoldable pub verify : Option Reader → Witness → Digest → ℤ → Outcome (Unit {0})
  verify document w expected max = do
    actual ← compute w
    check_commitment actual expected
    d ← hash_document document max
    check_document w d
