-- ===== src/Merkle/Siblings.antt =====
-- `path`: its recursion without rounds, its error, and its result on every index of the tree.
use mathlib.Core.Path.{subst}
use sigmaproof.Prelude.{All, All-append, length-take, length-drop, ok-injective, sym, ◌∙◌}
use sigmaproof.Sha.{IsHash}
use sigmaproof.Merkle.Tree.{root-IsHash}
use sigmaproof.Prelude.{
  ℕ, zero, suc, ◌-◌, ◌^◌, ◌≤◌, ◌<◌, ◌≡◌, refl, List, [], ◌∷◌, ◌++◌, length, take, drop, arith, ok,
  err, ◌>>=◌, ltb, le→leb, gt→leb, lt→ltb, ge→ltb, ne→==, ltb→lt, ltb→ge, Bool-cases, inl, inr,
}
use sigmaproof.Bytes.{Bytes}
use sigmaproof.Errors.{index_outside_tree}
use sigmaproof.Sha.{Sha256}
use sigmaproof.Merkle.{Hash, root, path_fuel, path}
use sigmaproof.Merkle.Split.{split, IsSplit, split-IsSplit}
use sigmaproof.Merkle.Tree.{Parts, split-Parts}

module _ ⦃sha : Sha256⦄ where
  path_fuel_outside :
      (f : ℕ) (es : List Bytes) (i : ℕ)
      → length es ≤ i
      → path_fuel (suc f) es i ≡ err index_outside_tree
  unfolding path_fuel
  path_fuel_outside f es i h = rw (le→leb _ _ h)

  path_fuel_one : (f : ℕ) (e : Bytes) → path_fuel (suc f) (e ∷ []) 0 ≡ ok []
  unfolding path_fuel
  path_fuel_one f e = refl

  -- One level down on each side.
  path_fuel_front :
      (f : ℕ) (es : List Bytes) (i : ℕ)
      → 2 ≤ length es
      → i < length es
      → i < split (length es)
      → path_fuel (suc f) es i ≡ (
          path_fuel f (take (split (length es)) es) i >>= λ path.
          ok (path ++ (root (drop (split (length es)) es) ∷ [])))
  unfolding path_fuel
  path_fuel_front f es i p q h = rw (gt→leb _ _ q, ne→== 1 (length es) p, lt→ltb _ _ h)

  path_fuel_back :
      (f : ℕ) (es : List Bytes) (i : ℕ)
      → 2 ≤ length es
      → i < length es
      → split (length es) ≤ i
      → path_fuel (suc f) es i ≡ (
          path_fuel f (drop (split (length es)) es) (i - split (length es)) >>= λ path.
          ok (path ++ (root (take (split (length es)) es) ∷ [])))
  unfolding path_fuel
  path_fuel_back f es i p q h = rw (gt→leb _ _ q, ne→== 1 (length es) p, ge→ltb _ _ h)

  -- What `path` returns, as a relation with no rounds and no failure: the siblings from the leaf
  -- up to the root.
  pub data Siblings : List Bytes → ℕ → List Hash → Type 0 where
    at_leaf : (e : Bytes) → Siblings (e ∷ []) 0 []
    in_front :
        (es : List Bytes) (i k : ℕ) (p : List Hash)
        → IsSplit (length es) k
        → i < k
        → Siblings (take k es) i p
        → Siblings es i (p ++ (root (drop k es) ∷ []))
    in_back :
        (es : List Bytes) (i k : ℕ) (p : List Hash)
        → IsSplit (length es) k
        → k ≤ i
        → Siblings (drop k es) (i - k) p
        → Siblings es i (p ++ (root (take k es) ∷ []))

  path_fuel-Siblings :
      (f : ℕ) (es : List Bytes) (i : ℕ)
      → length es ≤ f
      → length es ≤ 2 ^ 64
      → i < length es
      → (p : List Hash) × (path_fuel f es i ≡ ok p) × Siblings es i p
  path_fuel-Siblings zero es i h u q = absurd (omega arith)
  path_fuel-Siblings (suc f) [] i h u q = absurd (omega arith)
  path_fuel-Siblings (suc f) (e ∷ []) zero h u q = ([], path_fuel_one f e, at_leaf e)
  path_fuel-Siblings (suc f) (e ∷ []) (suc i) h u q = absurd (omega arith)
  path_fuel-Siblings (suc f) (e ∷ e' ∷ es) i h u q =
      let all : List Bytes = e ∷ e' ∷ es in
      let k = split (length all) in
      let s : Parts all k = split-Parts all (omega arith) u in
      let k_split : IsSplit (length all) k = split-IsSplit _ (omega arith) u in
      elim (Bool-cases (ltb i k)) [
        | inl inside ↦
            let lt : i < k = ltb→lt _ _ inside in
            let (p, below, rel) =
              path_fuel-Siblings f (take k all) i (omega arith) (omega arith) (omega arith) in
            (
              p ++ (root (drop k all) ∷ []),
              rw (path_fuel_front f all i (omega arith) q lt, below),
              in_front all i k p k_split lt rel,
            )
        | inr outside ↦
            let ge : k ≤ i = ltb→ge _ _ outside in
            let (p, below, rel) =
              path_fuel-Siblings f (drop k all) (i - k) (omega arith) (omega arith) (omega arith) in
            (
              p ++ (root (take k all) ∷ []),
              rw (path_fuel_back f all i (omega arith) q ge, below),
              in_back all i k p k_split ge rel,
            )
      ]

  -- On every index of a tree of at most 2^64 entries `path` succeeds, with the siblings of that
  -- leaf from the leaf up to the root.
  pub path-Siblings :
      (es : List Bytes) (i : ℕ)
      → length es ≤ 2 ^ 64
      → i < length es
      → (p : List Hash) × (path es i ≡ ok p) × Siblings es i p
  unfolding path
  path-Siblings es i u q = path_fuel-Siblings (suc (length es)) es i (omega arith) u q

  -- An index at or behind the number of entries is an error.
  pub path_outside : (es : List Bytes) (i : ℕ) → length es ≤ i → path es i ≡ err index_outside_tree
  unfolding path
  path_outside es i h = path_fuel_outside (length es) es i h

  -- The one leaf of a tree has no siblings.
  pub path_single : (e : Bytes) → path (e ∷ []) 0 ≡ ok []
  unfolding path
  path_single e = path_fuel_one 1 e

  Siblings-IsHash :
      {es : List Bytes} {i : ℕ} {p : List Hash}
      → Siblings es i p
      → length es ≤ 2 ^ 64
      → All IsHash p
  Siblings-IsHash (at_leaf e) u = tt
  Siblings-IsHash (in_front es i k p s q rel) u =
      All-append IsHash p (root (drop k es) ∷ [])
        (Siblings-IsHash rel (omega (arith, length-take k es)))
        (root-IsHash (drop k es) (omega (arith, length-drop k es)), tt)
  Siblings-IsHash (in_back es i k p s q rel) u =
      All-append IsHash p (root (take k es) ∷ [])
        (Siblings-IsHash rel (omega (arith, length-drop k es)))
        (root-IsHash (take k es) (omega (arith, length-take k es)), tt)

  -- The siblings that `path` returns have 32 bytes each.
  pub path-IsHash :
      (es : List Bytes) (i : ℕ) (p : List Hash)
      → length es ≤ 2 ^ 64
      → i < length es
      → path es i ≡ ok p
      → All IsHash p
  path-IsHash es i p u q e =
      let (p', e', rel) = path-Siblings es i u q in
      subst (All IsHash) (ok-injective (sym e' ∙ e)) (Siblings-IsHash rel u)
