-- ===== src/Package/Depth.antt =====
-- `pathLength` of package.go, and that it is the length of every path that verifies.
use native.Mathlib.Decide.{dec_lt}
use native.Mathlib.Nat.{le_trans, pow-le-pow_right}
use sigmaproof.Prelude.{
  ℕ, zero, suc, ◌+◌, ◌-◌, ◌^◌, ◌≤◌, ◌<◌, ◌≡◌, refl, ap, sym, ◌∙◌, List, length, ltb, if◌then◌else◌,
  ok, arith, lt→ltb, ge→ltb, Bool-cases, inl, inr, ltb→lt, ltb→ge, get_elem?, some,
}
use sigmaproof.Bytes.{Bytes}
use sigmaproof.Sha.{Sha256}
use sigmaproof.Merkle.{Hash, rebuild, verify, path, root}
use sigmaproof.Merkle.Split.{split, IsSplit, split-IsSplit, IsSplit-halves}
use sigmaproof.Merkle.Complete.{verify-path}
use sigmaproof.Merkle.Sound.{rebuild-Level, leaf_level, front_level, back_level, verify_inv}

-- The loop over `index`, `size` and `depth`; its `k` is the expression of merkle's `split`.
unfoldable pub path_length_loop : ℕ → ℕ → ℕ → ℕ → ℕ
path_length_loop zero index size depth = depth
path_length_loop (suc fuel) index size depth =
    let k = split size in
    let inside = ltb index k in
    let rest =
      path_length_loop fuel (if inside then index else index - k) (if inside then k else size - k)
        (depth + 1) in
    if ltb 1 size then rest else depth

-- Each round at least halves a power of two above the size, so 64 rounds do for a uint64.
unfoldable pub path_length : ℕ → ℕ → ℕ
path_length index size = path_length_loop 64 index size 0

loop_leaf : (f i n depth : ℕ) → n ≤ 1 → path_length_loop f i n depth ≡ depth
unfolding path_length_loop
loop_leaf zero i n depth h = refl
loop_leaf (suc f) i n depth h = rw (ge→ltb 1 n h)

loop_front :
    (f i n depth : ℕ)
    → 2 ≤ n
    → i < split n
    → path_length_loop (suc f) i n depth ≡ path_length_loop f i (split n) (depth + 1)
unfolding path_length_loop
loop_front f i n depth h p = rw (lt→ltb 1 n h, lt→ltb _ _ p)

loop_back :
    (f i n depth : ℕ)
    → 2 ≤ n
    → split n ≤ i
    → path_length_loop (suc f) i n depth
      ≡ path_length_loop f (i - split n) (n - split n) (depth + 1)
unfolding path_length_loop
loop_back f i n depth h p = rw (lt→ltb 1 n h, ge→ltb _ _ p)

-- One round, as a case split: no round, or one into the front or the back part.
data Round (f i n depth : ℕ) : Type 0 where
  done : n ≤ 1 → Round f i n depth
  front :
      2 ≤ n
      → i < split n
      → ((e : ℕ) → path_length_loop (suc f) i n e ≡ path_length_loop f i (split n) (e + 1))
      → Round f i n depth
  back :
      2 ≤ n
      → split n ≤ i
      → ((e : ℕ)
          → path_length_loop (suc f) i n e ≡ path_length_loop f (i - split n) (n - split n) (e + 1))
      → Round f i n depth

round : (f i n depth : ℕ) → Round f i n depth
round f i n depth = elim (dec_lt 1 n) [
  | no stop ↦ done (omega arith)
  | yes more ↦ elim (Bool-cases (ltb i (split n))) [
    | inl inside ↦ front more (ltb→lt _ _ inside) (λ e. loop_front f i n e more (ltb→lt _ _ inside))
    | inr outside ↦
        back more (ltb→ge _ _ outside) (λ e. loop_back f i n e more (ltb→ge _ _ outside))
  ]
]

-- The depth is only counted, so one more at the start is one more at the end.
loop_depth :
    (f i n depth : ℕ) → path_length_loop f i n (depth + 1) ≡ path_length_loop f i n depth + 1
loop_depth zero i n depth = unfold path_length_loop in refl
loop_depth (suc f) i n depth = elim (round f i n depth) [
  | done stop ↦ rw (loop_leaf (suc f) i n depth stop, loop_leaf (suc f) i n (depth + 1) stop)
  | front more inside step ↦
      rw (step depth, step (depth + 1)) (loop_depth f i (split n) (depth + 1))
  | back more outside step ↦
      rw (step depth, step (depth + 1)) (loop_depth f (i - split n) (n - split n) (depth + 1))
]

loop-le : (f d i n depth : ℕ) → n ≤ 2 ^ d → n ≤ 2 ^ 64 → path_length_loop f i n depth ≤ depth + d
loop-le f zero i n depth h u = rw (loop_leaf f i n depth h) (omega arith)
loop-le zero (suc d) i n depth h u = unfold path_length_loop in omega arith
loop-le (suc f) (suc d) i n depth h u = elim (round f i n depth) [
  | done stop ↦ rw (loop_leaf (suc f) i n depth stop) (omega arith)
  | front more inside step ↦
      let s : IsSplit n (split n) = split-IsSplit n more u in
      let (a, b) = IsSplit-halves n (split n) d s h in
      rw (step depth)
        (omega (arith, loop-le f d i (split n) (depth + 1) a (omega (arith, s.below))))
  | back more outside step ↦
      let s : IsSplit n (split n) = split-IsSplit n more u in
      let (a, b) = IsSplit-halves n (split n) d s h in
      rw (step depth)
        (omega (arith, loop-le f d (i - split n) (n - split n) (depth + 1) b (omega arith)))
]

-- A tree of at most 2^d leaves, with d at most 64, has paths of at most d siblings.
pub path_length-le : (d i n : ℕ) → d ≤ 64 → n ≤ 2 ^ d → path_length i n ≤ d
unfolding path_length
path_length-le d i n k h =
    omega (arith, loop-le 64 d i n 0 h (le_trans h (pow-le-pow_right {n = 2} (omega arith) k)))

pub path_length_single : (i n : ℕ) → i ≡ 0 → n ≡ 1 → path_length i n ≡ 0
unfolding path_length
path_length_single i n a b = loop_leaf 64 i n 0 (omega arith)

module _ ⦃sha : Sha256⦄ where
  rebuild-loop :
      (d i n used : ℕ) (entry : Bytes) (siblings : List Hash) (h : Hash) (v : ℕ)
      → 0 < n
      → n ≤ 2 ^ d
      → n ≤ 2 ^ 64
      → rebuild entry siblings (suc d) i n used ≡ ok (h, v)
      → path_length_loop d i n used ≡ v
  rebuild-loop zero i n used entry siblings h v p q u e =
      elim (rebuild-Level entry siblings zero i n used h v p e) [
        | leaf_level one eh ev ↦ loop_leaf zero i n used (omega arith) ∙ sym ev
        | front_level child s w two lt below g eh ev ↦ absurd (omega arith)
        | back_level child s w two ge below g eh ev ↦ absurd (omega arith)
      ]
  rebuild-loop (suc d) i n used entry siblings h v p q u e =
      elim (rebuild-Level entry siblings (suc d) i n used h v p e) [
        | leaf_level one eh ev ↦ loop_leaf (suc d) i n used (omega arith) ∙ sym ev
        | front_level child s w two lt below g eh ev ↦
            let sp : IsSplit n (split n) = split-IsSplit n two u in
            let (a, b) = IsSplit-halves n (split n) d sp q in
            loop_front d i n used two lt
            ∙ loop_depth d i (split n) used
            ∙ ap (λ t. t + 1)
                (rebuild-loop d i (split n) used entry siblings child w (omega (arith, sp.half)) a
                  (omega (arith, sp.below)) below)
            ∙ sym ev
        | back_level child s w two ge below g eh ev ↦
            let sp : IsSplit n (split n) = split-IsSplit n two u in
            let (a, b) = IsSplit-halves n (split n) d sp q in
            loop_back d i n used two ge
            ∙ loop_depth d (i - split n) (n - split n) used
            ∙ ap (λ t. t + 1)
                (rebuild-loop d (i - split n) (n - split n) used entry siblings child w
                  (omega (arith, sp.below)) b (omega arith) below)
            ∙ sym ev
      ]

  -- Merkle's `Verify` and the package agree on the length of a path: whatever `verify` accepts,
  -- for a size of at most 2^64, has exactly `path_length` siblings.
  pub verify-path_length :
      (entry : Bytes) (i n : ℕ) (siblings : List Hash) (expected : Hash)
      → n ≤ 2 ^ 64
      → verify entry i n siblings expected ≡ ok tt
      → length siblings ≡ path_length i n
  unfolding path_length
  verify-path_length entry i n siblings expected u e =
      let (p, q, r) = verify_inv entry i n siblings expected e in
      sym (rebuild-loop 64 i n 0 entry siblings expected _ (omega arith) u u r)

  -- And the path that `path` returns for an index of a tree of at most 2^64 entries has it too.
  pub path-path_length :
      (es : List Bytes) (i : ℕ) (entry : Bytes) (p : List Hash)
      → length es ≤ 2 ^ 64
      → get_elem? es i ≡ some entry
      → path es i ≡ ok p
      → length p ≡ path_length i (length es)
  path-path_length es i entry p u g e =
      verify-path_length entry i (length es) p (root es) u (verify-path es i entry p u g e)
