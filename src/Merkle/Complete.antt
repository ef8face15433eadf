-- ===== src/Merkle/Complete.antt =====
-- `verify` accepts what `path` returns.
use sigmaproof.Prelude.{
  ℕ, zero, suc, ◌+◌, ◌-◌, ◌^◌, ◌≤◌, ◌<◌, ◌≡◌, refl, sym, ◌∙◌, List, [], ◌∷◌, ◌++◌, length, take,
  drop, arith, length-append, ok, ◌>>=◌, if◌then◌else◌, gt→leb, lt→ltb, ge→ltb, ne→==, append_assoc,
  some, get_elem?, get_elem?-take, get_elem?_lt, ok-injective, append-nil, get_elem?-drop, ==_refl,
  Bool, true, false,
}
use native.Mathlib.Nat.{add-zero}
use mathlib.Core.Path.{subst}
use sigmaproof.Bytes.{Bytes, bytes_equal_refl}
use sigmaproof.Sha.{Sha256}
use sigmaproof.Merkle.{Hash, root, path, node, leaf, rebuild, rebuild_up, verify, verify_end}
use sigmaproof.Merkle.Split.{split, IsSplit, split-IsSplit, IsSplit-unique, IsSplit-halves}
use sigmaproof.Merkle.Tree.{Parts, IsSplit-Parts, root-node, root-leaf}
use sigmaproof.Merkle.Siblings.{Siblings, at_leaf, in_front, in_back, path-Siblings}

module _ ⦃sha : Sha256⦄ where
  rebuild_one :
      (entry : Bytes) (siblings : List Hash) (f i used : ℕ)
      → rebuild entry siblings (suc f) i 1 used ≡ ok (leaf entry, used)
  unfolding rebuild
  rebuild_one entry siblings f i used = refl

  pub rebuild_front :
      (entry : Bytes) (siblings : List Hash) (f i n used : ℕ)
      → 2 ≤ n
      → i < split n
      → rebuild entry siblings (suc f) i n used
        ≡ (rebuild entry siblings f i (split n) used >>= rebuild_up siblings true)
  unfolding rebuild
  rebuild_front entry siblings f i n used p h = rw (ne→== 1 n p, lt→ltb _ _ h)

  pub rebuild_back :
      (entry : Bytes) (siblings : List Hash) (f i n used : ℕ)
      → 2 ≤ n
      → split n ≤ i
      → rebuild entry siblings (suc f) i n used
        ≡ (rebuild entry siblings f (i - split n) (n - split n) used >>= rebuild_up siblings false)
  unfolding rebuild
  rebuild_back entry siblings f i n used p h = rw (ne→== 1 n p, ge→ltb _ _ h)

  get_elem?_mid :
      (pre p : List Hash) (h : Hash) (post : List Hash)
      → get_elem? (pre ++ (p ++ (h ∷ post))) (length pre + length p) ≡ some h
  get_elem?_mid [] [] h post = refl
  get_elem?_mid [] (x ∷ p) h post =
      let e : 0 + suc (length p) ≡ suc (0 + length p) = omega arith in
      rw e (get_elem?_mid [] p h post)
  get_elem?_mid (x ∷ pre) p h post =
      let e : suc (length pre) + length p ≡ suc (length pre + length p) = omega arith in
      rw e (get_elem?_mid pre p h post)

  -- The step back up takes the sibling behind those that the level below has used.
  rebuild_up_mid :
      (inside : Bool) (pre p : List Hash) (h : Hash) (post : List Hash) (child : Hash)
      → rebuild_up (pre ++ (p ++ (h ∷ post))) inside (child, length pre + length p)
        ≡ ok (if inside then node child h else node h child, length pre + length p + 1)
  unfolding rebuild_up
  rebuild_up_mid inside pre p h post child = rw (get_elem?_mid pre p h post, rebuild_up)

  length_snoc :
      (pre p : List Hash) (h : Hash)
      → length pre + length p + 1 ≡ length pre + length (p ++ (h ∷ []))
  length_snoc pre p h = omega (arith, length-append p (h ∷ []))

  pub length-Siblings :
      (d : ℕ) (es : List Bytes) (i : ℕ) (p : List Hash)
      → Siblings es i p
      → length es ≤ 2 ^ d
      → length p ≤ d
  length-Siblings zero es i p (at_leaf e) u = omega arith
  length-Siblings (suc d) es i p (at_leaf e) u = omega arith
  length-Siblings zero es i _ (in_front _ _ k p s h rel) u =
      let q : Parts es k = IsSplit-Parts es k s in absurd (omega arith)
  length-Siblings zero es i _ (in_back _ _ k p s h rel) u =
      let q : Parts es k = IsSplit-Parts es k s in absurd (omega arith)
  length-Siblings (suc d) es i _ (in_front _ _ k p s h rel) u =
      let q : Parts es k = IsSplit-Parts es k s in
      let (a, b) = IsSplit-halves (length es) k d s u in
      omega (
        arith,
        length-append p (root (drop k es) ∷ []),
        length-Siblings d (take k es) i p rel (omega arith),
      )
  length-Siblings (suc d) es i _ (in_back _ _ k p s h rel) u =
      let q : Parts es k = IsSplit-Parts es k s in
      let (a, b) = IsSplit-halves (length es) k d s u in
      omega (
        arith,
        length-append p (root (take k es) ∷ []),
        length-Siblings d (drop k es) (i - k) p rel (omega arith),
      )

  -- One level of `rebuild` on a list of siblings `pre ++ (p ++ [h]) ++ post`, of which the level
  -- below has used `p`.
  rebuild_level :
      (inside : Bool) (entry : Bytes) (f i i' n n' : ℕ) (pre p : List Hash) (h : Hash)
      (post siblings : List Hash) (child : Hash)
      → siblings ≡ pre ++ (p ++ (h ∷ post))
      → rebuild entry siblings (suc f) i n (length pre)
        ≡ (rebuild entry siblings f i' n' (length pre) >>= rebuild_up siblings inside)
      → rebuild entry siblings f i' n' (length pre) ≡ ok (child, length pre + length p)
      → rebuild entry siblings (suc f) i n (length pre)
        ≡ ok (if inside then node child h else node h child, length pre + length (p ++ (h ∷ [])))
  rebuild_level inside entry f i i' n n' pre p h post siblings child e step below =
      rw (step, below)
        (rw e (rw (← length_snoc pre p h) (rebuild_up_mid inside pre p h post child)))

  regroup :
      (pre p : List Hash) (h : Hash) (post : List Hash)
      → pre ++ ((p ++ (h ∷ [])) ++ post) ≡ pre ++ (p ++ (h ∷ post))
  regroup pre p h post = rw (append_assoc p (h ∷ []) post)

  -- The level that the split of the size selects.
  pub rebuild_front_at :
      (entry : Bytes) (siblings : List Hash) (f i n k used : ℕ)
      → IsSplit n k
      → n ≤ 2 ^ 64
      → i < k
      → rebuild entry siblings (suc f) i n used
        ≡ (rebuild entry siblings f i k used >>= rebuild_up siblings true)
  rebuild_front_at entry siblings f i n k used s u h =
      let two : 2 ≤ n = omega (arith, s.below, s.half) in
      let e : k ≡ split n = IsSplit-unique n k _ s (split-IsSplit n two u) in
      rw e (rebuild_front entry siblings f i n used two (rw e at h))

  pub rebuild_back_at :
      (entry : Bytes) (siblings : List Hash) (f i n k used : ℕ)
      → IsSplit n k
      → n ≤ 2 ^ 64
      → k ≤ i
      → rebuild entry siblings (suc f) i n used
        ≡ (rebuild entry siblings f (i - k) (n - k) used >>= rebuild_up siblings false)
  rebuild_back_at entry siblings f i n k used s u h =
      let two : 2 ≤ n = omega (arith, s.below, s.half) in
      let e : k ≡ split n = IsSplit-unique n k _ s (split-IsSplit n two u) in
      rw e (rebuild_back entry siblings f i n used two (rw e at h))

  rebuild-Siblings :
      (d : ℕ) (es : List Bytes) (i n : ℕ) (p : List Hash) (entry : Bytes)
      (pre post siblings : List Hash)
      → Siblings es i p
      → n ≡ length es
      → siblings ≡ pre ++ (p ++ post)
      → get_elem? es i ≡ some entry
      → n ≤ 2 ^ d
      → n ≤ 2 ^ 64
      → rebuild entry siblings (suc d) i n (length pre) ≡ ok (root es, length pre + length p)
  rebuild-Siblings d es i n p entry pre post siblings (at_leaf e) m q g u v =
      let one : n ≡ 1 = omega arith in
      rw one
        (rw (rebuild_one entry siblings d 0 (length pre)) (cc (root-leaf e, add-zero (length pre))))
  rebuild-Siblings zero es i n _ entry pre post siblings (in_front _ _ k p s h rel) m q g u v =
      let parts : Parts es k = IsSplit-Parts es k s in absurd (omega arith)
  rebuild-Siblings zero es i n _ entry pre post siblings (in_back _ _ k p s h rel) m q g u v =
      let parts : Parts es k = IsSplit-Parts es k s in absurd (omega arith)
  rebuild-Siblings (suc d) es i n _ entry pre post siblings (in_front _ _ k p s h rel) m q g u v =
      let parts : Parts es k = IsSplit-Parts es k s in
      let s' : IsSplit n k = rw m s in
      let (a, b) = IsSplit-halves n k d s' u in
      let e = q ∙ regroup pre p (root (drop k es)) post in
      rebuild_level true entry (suc d) i i n k pre p _ post siblings _ e
        (rebuild_front_at entry siblings (suc d) i n k (length pre) s' v h)
        (rebuild-Siblings d (take k es) i k p entry pre (root (drop k es) ∷ post) siblings rel
          (sym parts.front) e (get_elem?-take k i es h ∙ g) a (omega arith))
      ∙ rw (root-node es k s (omega arith))
  rebuild-Siblings (suc d) es i n _ entry pre post siblings (in_back _ _ k p s h rel) m q g u v =
      let parts : Parts es k = IsSplit-Parts es k s in
      let s' : IsSplit n k = rw m s in
      let (a, b) = IsSplit-halves n k d s' u in
      let e = q ∙ regroup pre p (root (take k es)) post in
      let there : k + (i - k) ≡ i = omega arith in
      rebuild_level false entry (suc d) i (i - k) n (n - k) pre p _ post siblings _ e
        (rebuild_back_at entry siblings (suc d) i n k (length pre) s' v h)
        (rebuild-Siblings d (drop k es) (i - k) (n - k) p entry pre (root (take k es) ∷ post)
          siblings rel (omega arith) e (get_elem?-drop k (i - k) es ∙ rw there g) b (omega arith))
      ∙ rw (root-node es k s (omega arith))

  verify_end_ok :
      (siblings : List Hash) (h : Hash) → verify_end siblings h (h, 0 + length siblings) ≡ ok tt
  unfolding verify_end
  verify_end_ok siblings h =
      let e : 0 + length siblings ≡ length siblings = omega arith in
      rw (e, ==_refl (length siblings), bytes_equal_refl h)

  -- For an entry of a tree of at most 2^64 entries, `verify` accepts the path that `path` returns,
  -- with the entry, its index, the number of entries and the root.
  pub verify-path :
      (es : List Bytes) (i : ℕ) (entry : Bytes) (p : List Hash)
      → length es ≤ 2 ^ 64
      → get_elem? es i ≡ some entry
      → path es i ≡ ok p
      → verify entry i (length es) p (root es) ≡ ok tt
  verify-path es i entry p u g e =
      let q : i < length es = get_elem?_lt i es g in
      let (p', e', rel') = path-Siblings es i u q in
      let rel : Siblings es i p = subst (Siblings es i) (ok-injective (sym e' ∙ e)) rel' in
      let short : length p ≤ 64 = length-Siblings 64 es i p rel u in
      let rebuilt : rebuild entry p 65 i (length es) 0 ≡ ok (root es, 0 + length p) =
        rebuild-Siblings 64 es i (length es) p entry [] [] p rel refl (sym (append-nil p)) g u u in
      unfold verify in
      rw (ne→== 0 (length es) (omega arith), gt→leb _ _ q, ge→ltb 64 (length p) short, rebuilt)
        (verify_end_ok p (root es))
