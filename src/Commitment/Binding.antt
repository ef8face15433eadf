-- ===== src/Commitment/Binding.antt =====
-- A commitment binds its witness and its document, up to a collision of SHA-256.
use sigmaproof.Prelude.{◌≡◌, ◌⊎◌, inl, inr, sym, ap, ◌∙◌, Option, ok, >>=-eq-ok, ok-injective, ℤ}
use mathlib.Core.Path.{subst}
use sigmaproof.Bytes.{Bytes}
use sigmaproof.Sha.{Sha256, sum, Collision, sum_injective}
use sigmaproof.Reader.{Reader}
use sigmaproof.Commitment.{Witness, Digest, IsWitness, preimage, fields, encode, compute, verify}
use sigmaproof.Commitment.Codec.{encode_iff, fields-preimage, IsSupported}
use sigmaproof.Commitment.Document.{Fits, hash_document_iff, verify_iff}

preimage_injective : (v w : Witness) → IsWitness v → IsWitness w → preimage v ≡ preimage w → v ≡ w
preimage_injective v w hv hw e = sym (fields-preimage v hv) ∙ ap fields e ∙ fields-preimage w hw

module _ ⦃sha : Sha256⦄ where
  pub compute_iff :
      (w : Witness) (c : Digest) → compute w ≡ ok c → IsSupported w × (c ≡ sum (preimage w))
  unfolding compute
  compute_iff w c e =
      let (b, p, q) = >>=-eq-ok (encode w) (λ b. ok (sum b)) e in
      let (s, r) = (encode_iff w b).0 p in (s, sym (ok-injective q) ∙ ap sum (sym r))

  -- Two witnesses of the struct's sizes that compute to one commitment are the same, or show a
  -- collision.
  pub compute_binding :
      (v w : Witness) (c : Digest)
      → IsWitness v
      → IsWitness w
      → compute v ≡ ok c
      → compute w ≡ ok c
      → (v ≡ w) ⊎ Collision
  compute_binding v w c hv hw p q =
      elim (sum_injective (preimage v) (preimage w)
        (sym (compute_iff v c p).1 ∙ (compute_iff w c q).1)) [
          | inl e ↦ inl (preimage_injective v w hv hw e)
          | inr x ↦ inr x
        ]

  -- Two documents that verify against one commitment, with whatever witnesses of the struct's
  -- sizes and under whatever limits, give the same bytes, or there is a collision.
  pub verify_binding :
      (document other : Option Reader) (v w : Witness) (c : Digest) (max max' : ℤ)
      → IsWitness v
      → IsWitness w
      → verify document v c max ≡ ok tt
      → verify other w c max' ≡ ok tt
      → ((b : Bytes) × Fits document max b × Fits other max' b) ⊎ Collision
  verify_binding document other v w c max max' hv hw p q =
      let (cv, dv) = (verify_iff document v c max).0 p in
      let (cw, dw) = (verify_iff other w c max').0 q in
      let (a, fa, ea) = (hash_document_iff document max v.document_digest).0 dv in
      let (b, fb, eb) = (hash_document_iff other max' w.document_digest).0 dw in
      elim (compute_binding v w c hv hw cv cw) [
        | inr x ↦ inr x
        | inl same ↦ elim (sum_injective a b (sym ea ∙ ap (λ t. t.document_digest) same ∙ eb)) [
          | inr x ↦ inr x
          | inl e ↦ inl (a, fa, subst (Fits other max') (sym e) fb)
        ]
      ]
