-- ===== src/Commitment/Document.antt =====
-- `hash_document`, and that a new commitment verifies.
use mathlib.Core.Path.{subst}
use sigmaproof.Prelude.{
  some_eq, ℕ, ◌+◌, ◌≤◌, ◌≡◌, ◌≢◌, ◌↔◌, ap, sym, ◌∙◌, Option, none, some, length, ok, err, take_all,
  arith, ok-injective, ℤ, pos, negsuc, max_int64, inl, inr, length-take, Result-cases, Option-cases,
}
use sigmaproof.Bytes.{Bytes, bytes_equal_iff}
use sigmaproof.Errors.{Error}
use sigmaproof.Sha.{Sha256, sum, IsHash, sum-IsHash}
use sigmaproof.Reader.{Reader, stream, broken, read_limited}
use sigmaproof.Commitment.{
  Witness, Digest, IsWitness, compute, hash_read, hash_document, read_random, new_witness, new,
  verify, check_document, check_commitment,
}

-- The bytes that a document reader holds, when it can be hashed under the limit.
pub data Fits : Option Reader → ℤ → Bytes → Type 0 where
  fits :
      (b : Bytes) (max : ℕ) → max ≢ max_int64 → length b ≤ max → Fits (some (stream b)) (pos max) b

module _ ⦃sha : Sha256⦄ where
  hash_document_stream :
      (b : Bytes) (max : ℕ)
      → max ≢ max_int64
      → length b ≤ max
      → hash_document (some (stream b)) (pos max) ≡ ok (sum b)
  unfolding hash_document read_limited hash_read
  hash_document_stream b max n h = ground (arith, take_all (max + 1) b (omega arith))

  hash_document_inv :
      (document : Option Reader) (max : ℤ) (h : Digest)
      → hash_document document max ≡ ok h
      → (b : Bytes) × Fits document max b × (h ≡ sum b)
  unfolding hash_document read_limited hash_read
  hash_document_inv none max h e = cc
  hash_document_inv (some document) (negsuc n) h e = cc
  hash_document_inv (some (stream b)) (pos max) h e =
      let size : length b ≤ max = ground (arith, length-take (max + 1) b) in
      (b, fits b max (ground arith) size, ground (arith, take_all (max + 1) b (omega arith)))
  hash_document_inv (some (broken b)) (pos max) h e =
      absurd (ground (arith, length-take (max + 1) b))

  hash_document-Fits :
      {document : Option Reader} {max : ℤ} {b : Bytes}
      → Fits document max b
      → hash_document document max ≡ ok (sum b)
  hash_document-Fits (fits b max n size) = hash_document_stream b max n size

  -- A document is hashed exactly when its reader is there and gives bytes that end without an
  -- error, at most as many as the limit, which is neither negative nor the largest int64. The
  -- result is the digest of just those bytes.
  pub hash_document_iff :
      (document : Option Reader) (max : ℤ) (h : Digest)
      → (hash_document document max ≡ ok h) ↔ ((b : Bytes) × Fits document max b × (h ≡ sum b))
  hash_document_iff document max h =
      (hash_document_inv document max h, λ (b, f, e). hash_document-Fits f ∙ ap ok (sym e))

  -- The steps of a successful `new`.
  pub new_inv :
      (document : Option Reader) (rep : ℕ) (max : ℤ) (random : Option Bytes) (w : Witness)
      (c : Digest)
      → new document rep max random ≡ ok (w, c)
      → (d : Digest) × (nonce : Bytes) × (hash_document document max ≡ ok d)
        × (random ≡ some nonce)
        × (compute w ≡ ok c)
        × (w ≡ new_witness rep d nonce)
  unfolding new read_random
  new_inv document rep max random w c e = elim (Result-cases (hash_document document max)) [
    | inl (d, h) ↦ elim (Option-cases random) [
      | inl n ↦ absurd (ground arith)
      | inr (nonce, n) ↦ (d, nonce, h, n, ground arith, ground arith)
    ]
    | inr (x, h) ↦ absurd (ground arith)
  ]

  verify_step :
      (document : Option Reader) (w : Witness) (a c d : Digest) (max : ℤ)
      → compute w ≡ ok a
      → hash_document document max ≡ ok d
      → (verify document w c max ≡ ok tt) ↔ ((a ≡ c) × (d ≡ w.document_digest))
  unfolding verify check_document check_commitment
  verify_step document w a c d max p q = (
    λ e. ground (arith, bytes_equal_iff a c, bytes_equal_iff d w.document_digest),
    λ (e, f). ground (arith, bytes_equal_iff a c, bytes_equal_iff d w.document_digest),
  )

  -- `verify` succeeds exactly when the witness computes to the expected commitment and the
  -- document hashes, under the limit, to the digest of the witness.
  pub verify_iff :
      (document : Option Reader) (w : Witness) (c : Digest) (max : ℤ)
      → (verify document w c max ≡ ok tt)
        ↔ ((compute w ≡ ok c) × (hash_document document max ≡ ok w.document_digest))
  unfolding verify
  verify_iff document w c max = elim (Result-cases (compute w)) [
    | inr (x, p) ↦ (λ e. absurd (verify_compute p e), λ (q, r). absurd (cc))
    | inl (a, p) ↦ elim (Result-cases (hash_document document max)) [
      | inr (x, q) ↦ (λ e. absurd (verify_hash p q e), λ (r, s). absurd (cc))
      | inl (d, q) ↦
          let (to, from) = verify_step document w a c d max p q in
          (
            λ e. let (r, s) = to e in (p ∙ ap ok r, q ∙ ap ok s),
            λ (r, s). from (ok-injective (sym p ∙ r), ok-injective (sym q ∙ s)),
          )
    ]
  ]
    where
      verify_compute : {x : Error} → compute w ≡ err x → verify document w c max ≡ ok tt → ⊥
      verify_compute p e = ground arith

      verify_hash :
          {a : Digest} {x : Error}
          → compute w ≡ ok a
          → hash_document document max ≡ err x
          → verify document w c max ≡ ok tt
          → ⊥
      verify_hash p q e = ground arith

  -- A commitment that `new` returns verifies against the same document under the same limit.
  pub verify-new :
      (document : Option Reader) (rep : ℕ) (max : ℤ) (random : Option Bytes) (w : Witness)
      (c : Digest)
      → new document rep max random ≡ ok (w, c)
      → verify document w c max ≡ ok tt
  unfolding new_witness
  verify-new document rep max random w c e =
      let (d, nonce, h, n, p, q) = new_inv document rep max random w c e in
      (verify_iff document w c max).1 (p, h ∙ ap (λ t. ok t.document_digest) (sym q))

  -- The hash, the commitment and the field sizes of a new witness, for a nonce of 32 bytes.
  pub new_sizes :
      (document : Option Reader) (rep : ℕ) (max : ℤ) (nonce : Bytes) (w : Witness) (c : Digest)
      → IsHash nonce
      → new document rep max (some nonce) ≡ ok (w, c)
      → (hash_document document max ≡ ok w.document_digest) × (compute w ≡ ok c) × IsWitness w
  unfolding new_witness
  new_sizes document rep max nonce w c hn e =
      let (d, nonce', h, n, p, q) = new_inv document rep max (some nonce) w c e in
      let (b, f, same) = hash_document_inv document max d h in
      let nonce_size : IsHash nonce' = subst IsHash (some_eq n) hn in
      let sizes : IsWitness (new_witness rep d nonce') = record {
        digest_size = subst IsHash (sym same) (sum-IsHash b);
        nonce_size = nonce_size;
      } in
      (h ∙ ap (λ t. ok t.document_digest) (sym q), p, subst IsWitness (sym q) sizes)
