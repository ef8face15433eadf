-- ===== src/Batch/Membership.antt =====
-- Manifests that `new` builds, and membership relative to them.
use mathlib.Core.Path.{subst}
use sigmaproof.Prelude.{
  ℕ, ◌≤◌, ◌<◌, ◌^◌, ◌≡◌, ◌↔◌, ◌⊎◌, inl, inr, refl, ap, sym, ◌∙◌, List, length, ok, ◌>>◌, arith, All,
  some, get_elem?, >>=-eq-ok, ok-injective, replicate,
}
use sigmaproof.Bytes.{Bytes}
use sigmaproof.Sha.{Sha256, sum, IsHash, Collision, sum_injective}
use sigmaproof.Merkle
use sigmaproof.Merkle.{Hash}
use sigmaproof.Merkle.Complete.{verify-path}
use sigmaproof.Merkle.Sound.{verify_sound}
use sigmaproof.Merkle.Tree.{root-IsHash}
use sigmaproof.Commitment.{Digest}
use sigmaproof.Batch.{Manifest, blank, validate, marshal_binary, new, digest, verify}
use sigmaproof.Batch.Codec.{IsValid, validate_iff, marshal_binary_iff, fields-layout}
use sigmaproof.Batch

module _ ⦃sha : Sha256⦄ where
  -- `new` succeeds exactly on 1 to 65536 commitments, with the current versions, their number and
  -- their Merkle root.
  pub new_iff :
      (cs : List Digest) (m : Manifest)
      → (new cs ≡ ok m)
        ↔ ((0 < length cs) × (length cs ≤ 2 ^ 16) × (m ≡ blank (length cs) (Merkle.root cs)))
  unfolding new blank
  new_iff cs m = (to, from)
    where
      zero_root : Manifest
      zero_root = blank (length cs) (replicate 32 0)

      to :
          (validate zero_root >> ok (blank (length cs) (Merkle.root cs))) ≡ ok m
          → (0 < length cs) × (length cs ≤ 2 ^ 16) × (m ≡ blank (length cs) (Merkle.root cs))
      to e =
          let (u, p, q) =
            >>=-eq-ok (validate zero_root) (λ _. ok (blank (length cs) (Merkle.root cs))) e in
          let v = (validate_iff zero_root).0 p in (v.nonempty, v.bounded, sym (ok-injective q))

      from :
          (0 < length cs) × (length cs ≤ 2 ^ 16) × (m ≡ blank (length cs) (Merkle.root cs))
          → (validate zero_root >> ok (blank (length cs) (Merkle.root cs))) ≡ ok m
      from (p, b, e) = rw ((validate_iff zero_root).1 (omega arith)) (ap ok (sym e))

  pub verify-IsValid :
      (m : Manifest) (c : Digest) (i : ℕ) (path : List Hash)
      → (verify m c i path ≡ ok tt) ↔ (IsValid m × (Merkle.verify c i m.size path m.root ≡ ok tt))
  unfolding verify
  verify-IsValid m c i path = (
    λ e.
        let (u, p, q) = >>=-eq-ok (validate m) (λ _. Merkle.verify c i m.size path m.root) e in
        ((validate_iff m).0 p, q),
    λ (v, e). rw ((validate_iff m).1 v) e,
  )

  blank-IsValid : (n : ℕ) (r : Hash) → 0 < n → n ≤ 2 ^ 16 → IsValid (blank n r)
  unfolding blank
  blank-IsValid n r p q = omega arith

  pub new-IsValid :
      (cs : List Digest) (m : Manifest)
      → new cs ≡ ok m
      → IsValid m × IsHash m.root × (m.size ≡ length cs)
  unfolding blank
  new-IsValid cs m e =
      let (p, b, same) = (new_iff cs m).0 e in
      subst (λ t. IsValid t × IsHash t.root × (t.size ≡ length cs)) (sym same)
        (blank-IsValid (length cs) (Merkle.root cs) p b, root-IsHash cs (omega arith), refl)

  -- Every commitment of a new manifest verifies at its index with the path of the Merkle tree.
  pub verify-new_member :
      (cs : List Digest) (m : Manifest) (i : ℕ) (c : Digest) (path : List Hash)
      → new cs ≡ ok m
      → get_elem? cs i ≡ some c
      → Merkle.path cs i ≡ ok path
      → verify m c i path ≡ ok tt
  verify-new_member cs m i c path e g q =
      let (p, b, same) = (new_iff cs m).0 e in
      let there = verify-path cs i c path (omega arith) g q in
      let member : verify (blank (length cs) (Merkle.root cs)) c i path ≡ ok tt =
        (verify-IsValid _ c i path).1 (blank-IsValid _ _ p b, unfold blank in there) in
      rw same member

  -- What verifies against a new manifest, with siblings of 32 bytes each, is the commitment at
  -- that index of the batch, or there is a collision.
  pub verify_member :
      (cs : List Digest) (m : Manifest) (i : ℕ) (c : Digest) (path : List Hash)
      → new cs ≡ ok m
      → All IsHash path
      → verify m c i path ≡ ok tt
      → (get_elem? cs i ≡ some c) ⊎ Collision
  verify_member cs m i c path e hs v =
      let (p, b, same) = (new_iff cs m).0 e in
      let (_, t) =
        (verify-IsValid (blank (length cs) (Merkle.root cs)) c i path).0 (rw same at v) in
      verify_sound cs i c path (omega arith) hs (unfold blank in t)

  -- Two manifests of the struct's sizes with one digest are the same, or show a collision.
  pub digest_binding :
      (m n : Manifest) (h : Bytes)
      → IsHash m.root
      → IsHash n.root
      → digest m ≡ ok h
      → digest n ≡ ok h
      → (m ≡ n) ⊎ Collision
  unfolding digest
  digest_binding m n h rm rn p q =
      let (a, pa, qa) = >>=-eq-ok (marshal_binary m) (λ b. ok (sum b)) p in
      let (b, pb, qb) = >>=-eq-ok (marshal_binary n) (λ b. ok (sum b)) q in
      let (vm, la) = (marshal_binary_iff m a rm).0 pa in
      let (vn, lb) = (marshal_binary_iff n b rn).0 pb in
      elim (sum_injective a b (ok-injective (qa ∙ sym qb))) [
        | inr x ↦ inr x
        | inl e ↦ inl (
            sym (fields-layout m rm (omega (arith, vm.bounded)))
            ∙ ap Batch.fields (la ∙ e ∙ sym lb)
            ∙ fields-layout n rn (omega (arith, vn.bounded)))
      ]
