-- ===== src/Merkle.antt =====
-- pkg/proof/merkle/merkle.go: the RFC 6962 tree over SHA-256.
pub mod Split
pub mod Tree
pub mod Siblings
pub mod Complete
pub mod Sound
pub mod Rounds
use sigmaproof.Prelude.{
  ℕ, zero, suc, ◌+◌, ◌-◌, ◌/◌, ◌%◌, ◌^◌, Bool, true, false, ◌||◌, Option, none, some, List, [], ◌∷◌,
  ◌++◌, length, take, drop, get_elem?, ltb, leb, ◌==◌, if◌then◌else◌, ok, err, ◌>>=◌, ◌>>◌, not,
}
use sigmaproof.Bytes.{Bytes, bytes_equal}
use sigmaproof.Errors.{
  Outcome, index_outside_tree, invalid_size_or_index, path_too_deep, truncated_path,
  extra_path_nodes, root_mismatch, out_of_fuel,
}
use sigmaproof.Sha.{Sha256, sum}
use Split.{split}

abbrev pub Hash : Type 0
Hash = Bytes

module _ ⦃sha : Sha256⦄ where
  unfoldable pub leaf : Bytes → Hash
  leaf entry = sum (0 ∷ entry)

  -- The two arrays fill the 64 bytes behind the tag.
  unfoldable pub node : Hash → Hash → Hash
  node left right = sum (1 ∷ (left ++ right))

  -- A call needs no more rounds than there are entries.
  unfoldable pub root_fuel : ℕ → List Bytes → Hash
  root_fuel zero entries = sum []
  root_fuel (suc fuel) [] = sum []
  root_fuel (suc fuel) (e ∷ []) = leaf e
  root_fuel (suc fuel) (e ∷ e' ∷ es) =
      let k = split (length (e ∷ e' ∷ es)) in
      node (root_fuel fuel (take k (e ∷ e' ∷ es))) (root_fuel fuel (drop k (e ∷ e' ∷ es)))

  unfoldable pub root : List Bytes → Hash
  root entries = root_fuel (length entries) entries

  unfoldable pub path_fuel : ℕ → List Bytes → ℕ → Outcome (List Hash)
  path_fuel zero entries index = err out_of_fuel
  path_fuel (suc fuel) entries index =
      let k = split (length entries) in
      let inside = ltb index k in
      let below =
        path_fuel fuel (if inside then take k entries else drop k entries)
          (if inside then index else index - k) in
      let sibling = root (if inside then drop k entries else take k entries) in
      let extended = below >>= λ path. ok (path ++ (sibling ∷ [])) in
      if leb (length entries) index
      then err index_outside_tree
      else if length entries == 1
      then ok []
      else extended

  unfoldable pub path : List Bytes → ℕ → Outcome (List Hash)
  path entries index = path_fuel (suc (length entries)) entries index

  -- The part of `rebuild` behind the recursive call: take the next sibling and hash.
  unfoldable pub rebuild_up : List Hash → Bool → Hash × ℕ → Outcome (Hash × ℕ)
  rebuild_up siblings inside (child, used) = elim (get_elem? siblings used) [
    | none ↦ err truncated_path
    | some sibling ↦ ok (if inside then node child sibling else node sibling child, used + 1)
  ]

  -- The closure of `Verify`; `used` is passed on instead of shared.
  unfoldable pub rebuild : Bytes → List Hash → ℕ → ℕ → ℕ → ℕ → Outcome (Hash × ℕ)
  rebuild entry siblings zero i n used = err out_of_fuel
  rebuild entry siblings (suc fuel) i n used =
      let k = split n in
      let inside = ltb i k in
      let child =
        rebuild entry siblings fuel (if inside then i else i - k) (if inside then k else n - k)
          used in
      let up = child >>= rebuild_up siblings inside in if n == 1 then ok (leaf entry, used) else up

  unfoldable pub verify_end : List Hash → Hash → Hash × ℕ → Outcome (Unit {0})
  verify_end siblings expected (got, used) =
      if not (used == length siblings)
      then err extra_path_nodes
      else if not (bytes_equal got expected)
      then err root_mismatch
      else ok tt

  -- A tree over less than 2^64 entries is at most 64 deep, so 65 rounds are enough.
  unfoldable pub verify : Bytes → ℕ → ℕ → List Hash → Hash → Outcome (Unit {0})
  verify entry index size siblings expected =
      if size == 0 || leb size index
      then err invalid_size_or_index
      else if ltb 64 (length siblings)
      then err path_too_deep
      else (rebuild entry siblings 65 index size 0 >>= verify_end siblings expected)
