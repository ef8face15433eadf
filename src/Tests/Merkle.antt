-- ===== src/Tests/Merkle.antt =====
-- The tree of three entries: runs of `root`, `path` and `verify`.
use sigmaproof.Prelude.{
  ◌-◌, ◌^◌, ◌≡◌, ◌≢◌, ◌⊎◌, ◌↔◌, refl, List, [], ◌∷◌, length, some, get_elem?, ok, err, arith, All,
}
use sigmaproof.Bytes.{Bytes, bytes_equal}
use sigmaproof.Errors.{out_of_fuel, extra_path_nodes}
use sigmaproof.Sha.{Collision}
use sigmaproof.Merkle.{
  Hash, leaf, node, root, root_fuel, path, path_fuel, rebuild, rebuild_up, verify, verify_end,
}
use sigmaproof.Merkle.Split.{split, len64, len_bits, IsSplit, split-IsSplit}
use sigmaproof.Merkle.Tree.{Mth, Mth-root_iff}
use sigmaproof.Merkle.Siblings.{Siblings, path-Siblings}
use sigmaproof.Merkle.Complete.{verify-path}
use sigmaproof.Merkle.Sound.{verify_sound}
use sigmaproof.Merkle.Rounds.{verify-ne-out_of_fuel}
use sigmaproof.Tests.Toy.{toy}

abbrev pub entries : List Bytes
entries = (7 ∷ []) ∷ (8 ∷ []) ∷ (9 ∷ []) ∷ []

-- The last leaf is alone on its side.
abbrev pub siblings : List Hash
siblings = node (leaf (7 ∷ [])) (leaf (8 ∷ [])) ∷ []

path_of_last : path entries 2 ≡ ok siblings
unfolding path path_fuel root root_fuel split len64 len_bits
path_of_last = refl

root_of_three : root entries ≡ node (node (leaf (7 ∷ [])) (leaf (8 ∷ []))) (leaf (9 ∷ []))
unfolding root root_fuel split len64 len_bits
root_of_three = refl

pub verify_last : verify (9 ∷ []) 2 3 siblings (root entries) ≡ ok tt
unfolding verify verify_end rebuild rebuild_up root root_fuel node leaf split len64 len_bits
    bytes_equal
verify_last = refl

verify_extra : verify (7 ∷ []) 0 1 siblings (leaf (7 ∷ [])) ≡ err extra_path_nodes
unfolding verify verify_end rebuild rebuild_up node leaf split len64 len_bits bytes_equal
verify_extra = refl

splits :
    (split 2 ≡ 1) × (split 3 ≡ 2) × (split 4 ≡ 2) × (split 5 ≡ 4) × (split (2 ^ 64 - 1) ≡ 2 ^ 63)
unfolding split len64 len_bits
splits = (refl, refl, refl, refl, refl)

split-IsSplit_example : IsSplit 5 (split 5)
split-IsSplit_example = split-IsSplit 5 (omega arith) (omega arith)

Mth-root_iff_example : Mth entries (root entries) ↔ (root entries ≡ root entries)
Mth-root_iff_example = Mth-root_iff entries (root entries) (omega arith)

path-Siblings_example : (p : List Hash) × (path entries 2 ≡ ok p) × Siblings entries 2 p
path-Siblings_example = path-Siblings entries 2 (omega arith) (omega arith)

verify-path_example : verify (9 ∷ []) 2 3 siblings (root entries) ≡ ok tt
verify-path_example = verify-path entries 2 (9 ∷ []) siblings (omega arith) refl path_of_last

siblings-IsHash : All (λ h. length h ≡ 32) siblings
unfolding node leaf
siblings-IsHash = (refl, tt)

verify_sound_example : (get_elem? entries 2 ≡ some (9 ∷ [])) ⊎ Collision
verify_sound_example =
    verify_sound entries 2 (9 ∷ []) siblings (omega arith) siblings-IsHash verify_last

verify-ne-out_of_fuel_example : verify (9 ∷ []) 2 3 siblings (root entries) ≢ err out_of_fuel
verify-ne-out_of_fuel_example =
    verify-ne-out_of_fuel (9 ∷ []) 2 3 siblings (root entries) (omega arith)
