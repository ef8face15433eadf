-- ===== src/Tests/Toy.antt =====
-- A digest function for the runs: the first 32 bytes, padded with zeros. It collides freely, as the
-- interface allows.
use sigmaproof.Prelude.{◌≡◌, refl, ap, [], ◌∷◌, length, replicate, suc}
use sigmaproof.Bytes.{Bytes, copy}
use sigmaproof.Sha.{Sha256}

length-copy : (out src : Bytes) → length (copy out src) ≡ length out
length-copy [] src = refl
length-copy (x ∷ out) [] = refl
length-copy (x ∷ out) (s ∷ src) = ap suc (length-copy out src)

abbrev pub toy_digest : Bytes → Bytes
toy_digest d = copy (replicate 32 0) d

pub length-toy_digest : (d : Bytes) → length (toy_digest d) ≡ 32
length-toy_digest d = length-copy (replicate 32 0) d

instance abbrev pub toy : Sha256
toy = record { digest = toy_digest; length-digest = length-toy_digest }
