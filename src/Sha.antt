-- ===== src/Sha.antt =====
-- SHA-256 as the code uses it: a function from bytes to 32 bytes. Nothing else is assumed of it;
-- what depends on collisions says so by handing one over.
use sigmaproof.Prelude.{
  ℕ, ◌≡◌, ◌≢◌, ◌⊎◌, inl, inr, length, ◌++◌, ap, take, drop, take_left, drop_left,
}
use sigmaproof.Bytes.{Bytes, bytes-cases}

pub record Sha256 : Type 0 where
  pub digest : Bytes → Bytes
  pub length-digest : (d : Bytes) → length (digest d) ≡ 32

-- A `[32]byte`.
abbrev pub IsHash : Bytes → Type 0
IsHash h = length h ≡ 32

module _ ⦃sha : Sha256⦄ where
  -- `sha256.Sum256`
  abbrev pub sum : Bytes → Bytes
  sum d = sha.digest d

  pub sum-IsHash : (d : Bytes) → IsHash (sum d)
  sum-IsHash d = sha.length-digest d

  -- Two inputs with one digest.
  pub record Collision : Type 0 where
    pub left : Bytes
    pub right : Bytes
    pub different : left ≢ right
    pub same : sum left ≡ sum right

  -- Equal digests come from equal inputs, or show a collision.
  pub sum_injective : (a b : Bytes) → sum a ≡ sum b → (a ≡ b) ⊎ Collision
  sum_injective a b e = elim (bytes-cases a b) [
    | inl p ↦ inl p
    | inr n ↦ inr (record { left = a; right = b; different = n; same = e })
  ]

-- Two concatenations of parts of the same length have the same parts.
pub append_split :
    (n : ℕ) (a b x y : Bytes) → length a ≡ n → length x ≡ n → a ++ b ≡ x ++ y → (a ≡ x) × (b ≡ y)
append_split n a b x y p q e = (
  cc (ap (take n) e, take_left n a b p, take_left n x y q),
  cc (ap (drop n) e, drop_left n a b p, drop_left n x y q),
)
