-- ===== src/Merkle/Tree.antt =====
-- `root`: enough rounds, the recursion of the source without rounds, and its agreement with the
-- Merkle tree hash of RFC 6962, section 2.1.
use sigmaproof.Prelude.{
  ℕ, zero, suc, ◌+◌, ◌^◌, ◌≤◌, ◌<◌, ◌≡◌, refl, ap₂, ◌∙◌, ◌↔◌, List, [], ◌∷◌, ◌++◌, length, take,
  drop, arith, length-take, length-drop,
}
use sigmaproof.Bytes.{Bytes}
use sigmaproof.Sha.{Sha256, sum, IsHash, sum-IsHash}
use sigmaproof.Merkle.{Hash, leaf, node, root_fuel, root}
use sigmaproof.Merkle.Split.{split, IsSplit, split-IsSplit, IsSplit-unique}

-- The two parts of a list at a position inside it.
pub record Parts (es : List Bytes) (k : ℕ) : Type 0 where
  pub front : length (take k es) ≡ k
  pub back : length (drop k es) + k ≡ length es
  pub positive : 0 < k
  pub below : k < length es

pub IsSplit-Parts : (es : List Bytes) (k : ℕ) → IsSplit (length es) k → Parts es k
IsSplit-Parts es k s = omega (arith, s.below, s.half, length-take k es, length-drop k es)

pub split-Parts :
    (es : List Bytes) → 2 ≤ length es → length es ≤ 2 ^ 64 → Parts es (split (length es))
split-Parts es p u = IsSplit-Parts es _ (split-IsSplit _ p u)

module _ ⦃sha : Sha256⦄ where
  pub leaf-IsHash : (e : Bytes) → IsHash (leaf e)
  unfolding leaf
  leaf-IsHash e = sum-IsHash _

  pub node-IsHash : (l r : Hash) → IsHash (node l r)
  unfolding node
  node-IsHash l r = sum-IsHash _

  -- Two numbers of rounds that both suffice give one root.
  root_fuel_enough :
      (f g : ℕ) (es : List Bytes)
      → length es ≤ f
      → length es ≤ g
      → length es ≤ 2 ^ 64
      → root_fuel f es ≡ root_fuel g es
  unfolding root_fuel
  root_fuel_enough zero zero es p q u = refl
  root_fuel_enough zero (suc g) [] p q u = refl
  root_fuel_enough zero (suc g) (e ∷ es) p q u = absurd (omega arith)
  root_fuel_enough (suc f) zero [] p q u = refl
  root_fuel_enough (suc f) zero (e ∷ es) p q u = absurd (omega arith)
  root_fuel_enough (suc f) (suc g) [] p q u = refl
  root_fuel_enough (suc f) (suc g) (e ∷ []) p q u = refl
  root_fuel_enough (suc f) (suc g) (e ∷ e' ∷ es) p q u =
      let all : List Bytes = e ∷ e' ∷ es in
      let s : Parts all (split (length all)) = split-Parts all (omega arith) u in
      ap₂ node (root_fuel_enough f g _ (omega arith) (omega arith) (omega arith))
        (root_fuel_enough f g _ (omega arith) (omega arith) (omega arith))

  root_fuel-root :
      (f : ℕ) (es : List Bytes) → length es ≤ f → length es ≤ 2 ^ 64 → root_fuel f es ≡ root es
  unfolding root
  root_fuel-root f es p u = root_fuel_enough f (length es) es p (omega arith) u

  root-node_cons :
      (e e' : Bytes) (es : List Bytes) (k : ℕ)
      → k ≡ split (length (e ∷ e' ∷ es))
      → length (e ∷ e' ∷ es) ≤ 2 ^ 64
      → root (e ∷ e' ∷ es) ≡ node (root (take k (e ∷ e' ∷ es))) (root (drop k (e ∷ e' ∷ es)))
  root-node_cons e e' es k q u =
      let all : List Bytes = e ∷ e' ∷ es in
      let s : Parts all (split (length all)) = split-Parts all (omega arith) u in
      rw q (
        unfold root root_fuel in
        ap₂ node (root_fuel-root (suc (length es)) _ (omega arith) (omega arith))
          (root_fuel-root (suc (length es)) _ (omega arith) (omega arith)))

  -- The recursion of the source, with no rounds: the root of two or more entries is the node over
  -- the roots of the two parts that `split` gives.
  pub root-node :
      (es : List Bytes) (k : ℕ)
      → IsSplit (length es) k
      → length es ≤ 2 ^ 64
      → root es ≡ node (root (take k es)) (root (drop k es))
  root-node [] k s u = absurd (omega (arith, s.below))
  root-node (e ∷ []) k s u = absurd (omega (arith, s.below, s.half))
  root-node (e ∷ e' ∷ es) k s u =
      root-node_cons e e' es k (IsSplit-unique _ k _ s (split-IsSplit _ (omega arith) u)) u

  pub root-leaf : (e : Bytes) → root (e ∷ []) ≡ leaf e
  unfolding root root_fuel
  root-leaf e = refl

  pub root-IsHash : (es : List Bytes) → length es ≤ 2 ^ 64 → IsHash (root es)
  root-IsHash [] u = unfold root root_fuel in sum-IsHash []
  root-IsHash (e ∷ []) u = rw (root-leaf e) (leaf-IsHash e)
  root-IsHash (e ∷ e' ∷ es) u = rw (root-node_cons e e' es _ refl u) (node-IsHash _ _)

  -- MTH of RFC 6962: an inductive description that names no algorithm. The two parts of a list of
  -- n > 1 entries meet at the power of two below n that is at least n / 2. A leaf is hashed behind a
  -- byte 0, and the hashes of the two parts behind a byte 1.
  pub data Mth : List Bytes → Hash → Type 0 where
    empty : Mth [] (sum [])
    single : (e : Bytes) → Mth (e ∷ []) (sum (0 ∷ e))
    join :
        (es : List Bytes) (k : ℕ) (l r : Hash)
        → IsSplit (length es) k
        → Mth (take k es) l
        → Mth (drop k es) r
        → Mth es (sum (1 ∷ (l ++ r)))

  Mth-root : (f : ℕ) (es : List Bytes) → length es ≤ f → length es ≤ 2 ^ 64 → Mth es (root es)
  unfolding leaf node
  Mth-root f [] p u = unfold root root_fuel in empty
  Mth-root f (e ∷ []) p u = rw (root-leaf e) (single e)
  Mth-root zero (e ∷ e' ∷ es) p u = absurd (omega arith)
  Mth-root (suc f) (e ∷ e' ∷ es) p u =
      let all : List Bytes = e ∷ e' ∷ es in
      let k = split (length all) in
      let s : Parts all k = split-Parts all (omega arith) u in
      rw (root-node_cons e e' es k refl u) (
        join all k _ _ (split-IsSplit _ (omega arith) u)
          (Mth-root f (take k all) (omega arith) (omega arith))
          (Mth-root f (drop k all) (omega arith) (omega arith)))

  root_of_Mth : {es : List Bytes} {h : Hash} → Mth es h → length es ≤ 2 ^ 64 → root es ≡ h
  unfolding leaf node
  root_of_Mth empty u = unfold root root_fuel in refl
  root_of_Mth (single e) u = root-leaf e
  root_of_Mth (join es k l r s a b) u =
      root-node es k s u
      ∙ ap₂ node (root_of_Mth a (omega (arith, length-take k es)))
          (root_of_Mth b (omega (arith, length-drop k es)))

  -- For lists of at most 2^64 entries, `root` computes the Merkle tree hash of RFC 6962: a hash
  -- stands in that relation to the list exactly when it is the value of `root`.
  pub Mth-root_iff : (es : List Bytes) (h : Hash) → length es ≤ 2 ^ 64 → Mth es h ↔ (root es ≡ h)
  Mth-root_iff es h u =
      (λ m. root_of_Mth m u, λ e. rw e at (Mth-root (length es) es (omega arith) u))
