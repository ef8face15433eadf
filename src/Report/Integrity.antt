-- ===== src/Report/Integrity.antt =====
-- What a report says, exactly.
use mathlib.Core.Path.{subst}
use mathlib.Core.Bool.{false≢true}
use sigmaproof.Prelude.{
  ◌≡◌, ◌↔◌, ◌⊎◌, inl, inr, refl, ap, sym, ◌∙◌, true, false, Option, some, ok, err, ℤ, Result-cases,
  ok-injective, arith, All, List, get_elem?, none, ◌+◌, >>=-eq-ok,
}
use sigmaproof.Errors.{Error}
use sigmaproof.Bytes.{Bytes}
use sigmaproof.Sha.{Sha256, Collision, IsHash, sum_injective}
use sigmaproof.Reader.{Reader, read_limited}
use sigmaproof.Commitment
use sigmaproof.Commitment.{Digest}
use sigmaproof.Commitment.Document.{verify_iff, hash_document_iff, Fits}
use sigmaproof.Batch
use sigmaproof.Batch.Membership.{verify_member}
use sigmaproof.Package
use sigmaproof.Package.{Package}
use sigmaproof.Package.RoundTrip.{parse-path_sizes}
use sigmaproof.Report.{
  unavailable, is_verified, integrity_verified, format_failure, inclusion_check, document_check,
  verify_commitment, verify_decoded, verify,
}

-- The facts that a report of verified integrity stands for.
pub record Integrity ⦃sha : Sha256⦄ (document encoded : Option Reader) (max : ℤ) (p : Package)
    (c : Digest) : Type 0 where
  pub decodes : Package.read encoded ≡ ok p
  pub commits : Commitment.compute p.witness ≡ ok c
  pub belongs : Batch.verify p.manifest c p.index p.path ≡ ok tt
  pub hashes : Commitment.hash_document document max ≡ ok p.witness.document_digest

module _ ⦃sha : Sha256⦄ where
  commitment_report :
      (document : Option Reader) (p : Package) (max : ℤ) (c : Digest)
      → (integrity_verified (verify_commitment document p max (ok c)) ≡ true) ↔ (
          (Batch.verify p.manifest c p.index p.path ≡ ok tt)
          × (Commitment.verify document p.witness c max ≡ ok tt))
  unfolding integrity_verified verify_commitment inclusion_check document_check is_verified
  commitment_report document p max c = (λ e. ground arith, λ (a, b). ground arith)

  format_failure-unverified : (e : Error) → integrity_verified (format_failure e) ≡ false
  unfolding integrity_verified format_failure is_verified
  format_failure-unverified e = ground arith

  commitment_failure-unverified :
      (document : Option Reader) (p : Package) (max : ℤ) (e : Error)
      → integrity_verified (verify_commitment document p max (err e)) ≡ false
  unfolding integrity_verified verify_commitment is_verified
  commitment_failure-unverified document p max e = refl

  verify_unread :
      (document encoded : Option Reader) (max : ℤ) {e : Error}
      → Package.read encoded ≡ err e
      → verify document encoded max ≡ format_failure e
  unfolding verify verify_decoded
  verify_unread document encoded max r = rw r

  verify-read :
      (document encoded : Option Reader) (max : ℤ) {p : Package}
      → Package.read encoded ≡ ok p
      → verify document encoded max
        ≡ verify_commitment document p max (Commitment.compute p.witness)
  unfolding verify verify_decoded
  verify-read document encoded max r = rw r

  Integrity-parts :
      (document encoded : Option Reader) (max : ℤ)
      → integrity_verified (verify document encoded max) ≡ true
      → (p : Package) × (c : Digest) × Integrity document encoded max p c
  Integrity-parts document encoded max e = elim (Result-cases (Package.read encoded)) [
    | inr (x, r) ↦ absurd (
        false≢true (
          sym (format_failure-unverified x)
          ∙ ap integrity_verified (sym (verify_unread document encoded max r))
          ∙ e))
    | inl (p, r) ↦
        let e' = ap integrity_verified (sym (verify-read document encoded max r)) ∙ e in
        elim (Result-cases (Commitment.compute p.witness)) [
          | inr (x, c) ↦ absurd (
              false≢true (
                sym (commitment_failure-unverified document p max x)
                ∙ ap (λ t. integrity_verified (verify_commitment document p max t)) (sym c)
                ∙ e'))
          | inl (c, q) ↦
              let (belongs, doc) =
                (commitment_report document p max c).0 (
                  ap (λ t. integrity_verified (verify_commitment document p max t)) (sym q) ∙ e') in
              (
                p,
                c,
                record {
                  decodes = r;
                  commits = q;
                  belongs = belongs;
                  hashes = ((verify_iff document p.witness c max).0 doc).1;
                },
              )
        ]
  ]

  Integrity-of :
      (document encoded : Option Reader) (max : ℤ) (p : Package) (c : Digest)
      → Integrity document encoded max p c
      → integrity_verified (verify document encoded max) ≡ true
  Integrity-of document encoded max p c h =
      ap integrity_verified (verify-read document encoded max h.decodes)
      ∙ ap (λ t. integrity_verified (verify_commitment document p max t)) h.commits
      ∙ (commitment_report document p max c).1
          (h.belongs, (verify_iff document p.witness c max).1 (h.commits, h.hashes))

  -- A report says that integrity is verified exactly when the package decodes, its witness
  -- computes to a commitment that belongs to its manifest at its index with its path, and the
  -- document hashes, under the limit, to the digest of the witness.
  pub Integrity-iff :
      (document encoded : Option Reader) (max : ℤ)
      → (integrity_verified (verify document encoded max) ≡ true)
        ↔ ((p : Package) × (c : Digest) × Integrity document encoded max p c)
  Integrity-iff document encoded max =
      (Integrity-parts document encoded max, λ (p, c, h). Integrity-of document encoded max p c h)

  -- Two documents that verify against one package, under whatever limits, give the same bytes, or
  -- there is a collision.
  pub integrity_binding :
      (document other encoded : Option Reader) (max max' : ℤ)
      → integrity_verified (verify document encoded max) ≡ true
      → integrity_verified (verify other encoded max') ≡ true
      → ((b : Bytes) × Fits document max b × Fits other max' b) ⊎ Collision
  integrity_binding document other encoded max max' e f =
      let (p, c, h) = Integrity-parts document encoded max e in
      let (q, c', k) = Integrity-parts other encoded max' f in
      let (a, fa, ea) = (hash_document_iff document max p.witness.document_digest).0 h.hashes in
      let (b, fb, eb) = (hash_document_iff other max' q.witness.document_digest).0 k.hashes in
      let same : p ≡ q = ok-injective (sym h.decodes ∙ k.decodes) in
      elim (sum_injective a b (sym ea ∙ ap (λ t. t.witness.document_digest) same ∙ eb)) [
        | inr x ↦ inr x
        | inl r ↦ inl (a, fa, subst (Fits other max') (sym r) fb)
      ]

  read-path_sizes :
      (encoded : Option Reader) (p : Package) → Package.read encoded ≡ ok p → All IsHash p.path
  unfolding Package.read
  read-path_sizes none p e = cc
  read-path_sizes (some r) p e =
      let (d, _, q) = >>=-eq-ok (read_limited r (Package.max_package_bytes + 1)) Package.parse e in
      parse-path_sizes d p q

  -- If integrity is verified for a package that carries the manifest of a batch, then the document
  -- has the digest of a witness whose commitment stands in that batch at the index of the package,
  -- or there is a collision.
  pub integrity_member :
      (document encoded : Option Reader) (max : ℤ) (cs : List Digest) (p : Package)
      → Package.read encoded ≡ ok p
      → Batch.new cs ≡ ok p.manifest
      → integrity_verified (verify document encoded max) ≡ true
      → ((c : Digest) × (Commitment.compute p.witness ≡ ok c)
          × (get_elem? cs p.index ≡ some c)
          × (Commitment.hash_document document max ≡ ok p.witness.document_digest))
        ⊎ Collision
  integrity_member document encoded max cs p r n e =
      let (q, c, h) = Integrity-parts document encoded max e in
      let same : q ≡ p = ok-injective (sym h.decodes ∙ r) in
      let g : Integrity document encoded max p c =
        subst (λ t. Integrity document encoded max t c) same h in
      elim (verify_member cs p.manifest p.index c p.path n (read-path_sizes encoded p r)
        g.belongs) [ inl there ↦ inl (c, g.commits, there, g.hashes) | inr x ↦ inr x ]

  -- Whatever the inputs, the anchor check is never reported as verified: its status is
  -- `unavailable`.
  pub anchor_unavailable :
      (document encoded : Option Reader) (max : ℤ)
      → (verify document encoded max).anchor.status ≡ unavailable
  unfolding verify verify_decoded verify_commitment format_failure
  anchor_unavailable document encoded max = ground arith
