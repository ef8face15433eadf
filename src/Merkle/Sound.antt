-- ===== src/Merkle/Sound.antt =====
-- What `verify` accepts is in the tree, or shows a collision of SHA-256.
use mathlib.Core.Path.{subst}
use sigmaproof.Prelude.{
  ℕ, zero, suc, ◌+◌, ◌-◌, ◌^◌, ◌≤◌, ◌<◌, ◌≡◌, ◌⊎◌, inl, inr, refl, ap, sym, ◌∙◌, List, [], ◌∷◌,
  ◌++◌, length, take, drop, arith, ok, ◌>>=◌, ltb, ◌==◌, if◌then◌else◌, Bool, true, false, All,
  some, get_elem?, get_elem?-take, get_elem?-drop, Bool-cases, Option-cases, ltb→lt, ltb→ge,
  >>=-eq-ok, ==_iff, All-get_elem?,
}
use sigmaproof.Bytes.{Bytes, bytes_equal_iff}
use sigmaproof.Sha.{Sha256, IsHash, Collision, sum_injective, append_split}
use sigmaproof.Merkle.{Hash, root, node, leaf, rebuild, rebuild_up, verify, verify_end}
use sigmaproof.Merkle.Split.{split, IsSplit, split-IsSplit}
use sigmaproof.Merkle.Tree.{
  Parts, IsSplit-Parts, root-node, root-leaf, leaf-IsHash, node-IsHash, root-IsHash,
}
use sigmaproof.Merkle.Complete.{rebuild_front, rebuild_back}

module _ ⦃sha : Sha256⦄ where
  pub leaf_injective : (a b : Bytes) → leaf a ≡ leaf b → (a ≡ b) ⊎ Collision
  unfolding leaf
  leaf_injective a b e = elim (sum_injective (0 ∷ a) (0 ∷ b) e) [ inl p ↦ inl (cc) | inr c ↦ inr c ]

  pub node_injective :
      (a b x y : Hash) → IsHash a → IsHash x → node a b ≡ node x y → ((a ≡ x) × (b ≡ y)) ⊎ Collision
  unfolding node
  node_injective a b x y p q e = elim (sum_injective (1 ∷ (a ++ b)) (1 ∷ (x ++ y)) e) [
    | inl s ↦ inl (append_split 32 a b x y p q (cc))
    | inr c ↦ inr c
  ]

  -- A leaf is no inner node, or there is a collision.
  pub rebuild_up_inv :
      (siblings : List Hash) (inside : Bool) (child h : Hash) (u v : ℕ)
      → rebuild_up siblings inside (child, u) ≡ ok (h, v)
      → (s : Hash) × (get_elem? siblings u ≡ some s)
        × (h ≡ (if inside then node child s else node s child))
        × (v ≡ u + 1)
  unfolding rebuild_up
  rebuild_up_inv siblings inside child h u v e = elim (Option-cases (get_elem? siblings u)) [
    | inl n ↦ ground arith
    | inr (s, g) ↦ (s, g, ground arith, ground arith)
  ]

  -- One level of a successful `rebuild`.
  pub data Level (entry : Bytes) (siblings : List Hash) (f i n used : ℕ) (h : Hash) (v : ℕ)
      : Type 0 where
    leaf_level : n ≡ 1 → h ≡ leaf entry → v ≡ used → Level entry siblings f i n used h v
    front_level :
        (child s : Hash) (u : ℕ)
        → 2 ≤ n
        → i < split n
        → rebuild entry siblings f i (split n) used ≡ ok (child, u)
        → get_elem? siblings u ≡ some s
        → h ≡ node child s
        → v ≡ u + 1
        → Level entry siblings f i n used h v
    back_level :
        (child s : Hash) (u : ℕ)
        → 2 ≤ n
        → split n ≤ i
        → rebuild entry siblings f (i - split n) (n - split n) used ≡ ok (child, u)
        → get_elem? siblings u ≡ some s
        → h ≡ node s child
        → v ≡ u + 1
        → Level entry siblings f i n used h v

  pub rebuild-one :
      (entry : Bytes) (siblings : List Hash) (f i n used : ℕ)
      → n ≡ 1
      → rebuild entry siblings (suc f) i n used ≡ ok (leaf entry, used)
  unfolding rebuild
  rebuild-one entry siblings f i n used e = rw e

  pub rebuild-Level :
      (entry : Bytes) (siblings : List Hash) (f i n used : ℕ) (h : Hash) (v : ℕ)
      → 0 < n
      → rebuild entry siblings (suc f) i n used ≡ ok (h, v)
      → Level entry siblings f i n used h v
  rebuild-Level entry siblings f i n used h v p e = elim (Bool-cases (n == 1)) [
    | inl one ↦
        let one' : n ≡ 1 = (==_iff n 1).0 one in
        let q = sym (rebuild-one entry siblings f i n used one') ∙ e in leaf_level one' (cc) (cc)
    | inr more ↦
        let two : 2 ≤ n = ground arith in
        elim (Bool-cases (ltb i (split n))) [
          | inl inside ↦
              let lt = ltb→lt _ _ inside in
              let ((child, u), below, up) =
                >>=-eq-ok (rebuild entry siblings f i (split n) used) (rebuild_up siblings true)
                  (sym (rebuild_front entry siblings f i n used two lt) ∙ e) in
              let (s, g, eh, ev) = rebuild_up_inv siblings true child h u v up in
              front_level child s u two lt below g eh ev
          | inr outside ↦
              let ge = ltb→ge _ _ outside in
              let ((child, u), below, up) =
                >>=-eq-ok (rebuild entry siblings f (i - split n) (n - split n) used)
                  (rebuild_up siblings false)
                  (sym (rebuild_back entry siblings f i n used two ge) ∙ e) in
              let (s, g, eh, ev) = rebuild_up_inv siblings false child h u v up in
              back_level child s u two ge below g eh ev
        ]
  ]

  pub rebuild-IsHash :
      (entry : Bytes) (siblings : List Hash) (f i n used : ℕ) (h : Hash) (v : ℕ)
      → 0 < n
      → rebuild entry siblings f i n used ≡ ok (h, v)
      → IsHash h
  rebuild-IsHash entry siblings zero i n used h v p e = unfold rebuild in cc
  rebuild-IsHash entry siblings (suc f) i n used h v p e =
      elim (rebuild-Level entry siblings f i n used h v p e) [
        | leaf_level one eh ev ↦ rw eh (leaf-IsHash entry)
        | front_level child s u two lt below g eh ev ↦ rw eh (node-IsHash child s)
        | back_level child s u two ge below g eh ev ↦ rw eh (node-IsHash s child)
      ]

  singleton :
      (es : List Bytes) (i : ℕ)
      → i < length es
      → length es ≡ 1
      → (e : Bytes) × (es ≡ e ∷ []) × (i ≡ 0)
  singleton [] i p q = absurd (omega arith)
  singleton (e ∷ []) i p q = (e, refl, omega arith)
  singleton (e ∷ e' ∷ es) i p q = absurd (omega arith)

  sound_leaf :
      (es : List Bytes) (i : ℕ) (entry : Bytes)
      → i < length es
      → length es ≡ 1
      → leaf entry ≡ root es
      → (get_elem? es i ≡ some entry) ⊎ Collision
  sound_leaf [] i entry p q e = absurd (omega arith)
  sound_leaf (x ∷ []) zero entry p q e = elim (leaf_injective entry x (e ∙ root-leaf x)) [
    | inl same ↦ inl (ap some (sym same))
    | inr c ↦ inr c
  ]
  sound_leaf (x ∷ []) (suc i) entry p q e = absurd (omega arith)
  sound_leaf (x ∷ y ∷ es) i entry p q e = absurd (omega arith)

  rebuild_sound :
      (f : ℕ) (es : List Bytes) (i n : ℕ) (entry : Bytes) (siblings : List Hash) (used : ℕ)
      (h : Hash) (v : ℕ)
      → n ≡ length es
      → n ≤ 2 ^ 64
      → i < n
      → All IsHash siblings
      → rebuild entry siblings f i n used ≡ ok (h, v)
      → h ≡ root es
      → (get_elem? es i ≡ some entry) ⊎ Collision
  rebuild_sound zero es i n entry siblings used h v m u p hs e r = unfold rebuild in cc
  rebuild_sound (suc f) es i n entry siblings used h v m u p hs e r =
      elim (rebuild-Level entry siblings f i n used h v (omega arith) e) [
        | leaf_level one eh ev ↦ sound_leaf es i entry (omega arith) (omega arith) (sym eh ∙ r)
        | front_level child s w two lt below g eh ev ↦
            let split_n : IsSplit n (split n) = split-IsSplit n two u in
            let split_es = subst (λ t. IsSplit t (split n)) m split_n in
            let parts : Parts es (split n) = IsSplit-Parts es (split n) split_es in
            let whole = sym eh ∙ r ∙ root-node es (split n) split_es (omega arith) in
            elim (node_injective child s _ _
              (rebuild-IsHash entry siblings f i (split n) used child w (omega arith) below)
              (root-IsHash (take (split n) es) (omega arith)) whole) [
                | inl (same, _) ↦
                    elim (rebuild_sound f (take (split n) es) i (split n) entry siblings used child
                      w (sym parts.front) (omega arith) lt hs below same) [
                        | inl found ↦ inl (sym (get_elem?-take (split n) i es lt) ∙ found)
                        | inr c ↦ inr c
                      ]
                | inr c ↦ inr c
              ]
        | back_level child s w two ge below g eh ev ↦
            let split_n : IsSplit n (split n) = split-IsSplit n two u in
            let split_es = subst (λ t. IsSplit t (split n)) m split_n in
            let parts : Parts es (split n) = IsSplit-Parts es (split n) split_es in
            let whole = sym eh ∙ r ∙ root-node es (split n) split_es (omega arith) in
            let there : split n + (i - split n) ≡ i = omega arith in
            elim (node_injective s child _ _ (All-get_elem? IsHash siblings w hs g)
              (root-IsHash (take (split n) es) (omega arith)) whole) [
                | inl (_, same) ↦
                    elim (rebuild_sound f (drop (split n) es) (i - split n) (n - split n) entry
                      siblings used child w (omega arith) (omega arith) (omega arith) hs below
                      same) [
                        | inl found ↦
                            inl (
                              rw there at (sym (get_elem?-drop (split n) (i - split n) es)) ∙ found)
                        | inr c ↦ inr c
                      ]
                | inr c ↦ inr c
              ]
      ]

  verify_end_inv :
      (siblings : List Hash) (expected got : Hash) (used : ℕ)
      → verify_end siblings expected (got, used) ≡ ok tt
      → (got ≡ expected) × (used ≡ length siblings)
  unfolding verify_end
  verify_end_inv siblings expected got used e = ground (arith, bytes_equal_iff got expected)

  verify_guards :
      (entry : Bytes) (i n : ℕ) (siblings : List Hash) (expected : Hash)
      → verify entry i n siblings expected ≡ ok tt
      → (i < n)
        × (length siblings ≤ 64)
        × ((rebuild entry siblings 65 i n 0 >>= verify_end siblings expected) ≡ ok tt)
  unfolding verify
  verify_guards entry i n siblings expected e = ground arith

  -- What a successful `verify` has computed.
  pub verify_inv :
      (entry : Bytes) (i n : ℕ) (siblings : List Hash) (expected : Hash)
      → verify entry i n siblings expected ≡ ok tt
      → (i < n)
        × (length siblings ≤ 64)
        × (rebuild entry siblings 65 i n 0 ≡ ok (expected, length siblings))
  verify_inv entry i n siblings expected e =
      let (p, q, b) = verify_guards entry i n siblings expected e in
      let ((got, used), r, t) =
        >>=-eq-ok (rebuild entry siblings 65 i n 0) (verify_end siblings expected) b in
      let (same, all_used) = verify_end_inv siblings expected got used t in (p, q, cc)

  -- If `verify` accepts an entry and an index against the size and the root of a list of at most
  -- 2^64 entries, with siblings of 32 bytes each, then the entry stands at that index of the list,
  -- or two different inputs with one SHA-256 digest are at hand.
  pub verify_sound :
      (es : List Bytes) (i : ℕ) (entry : Bytes) (siblings : List Hash)
      → length es ≤ 2 ^ 64
      → All IsHash siblings
      → verify entry i (length es) siblings (root es) ≡ ok tt
      → (get_elem? es i ≡ some entry) ⊎ Collision
  verify_sound es i entry siblings u hs e =
      let (p, _, r) = verify_inv entry i (length es) siblings (root es) e in
      rebuild_sound 65 es i (length es) entry siblings 0 _ _ refl u p hs r refl
