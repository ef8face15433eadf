-- ===== src/Agent/Runner/Bounded.antt =====
-- `bounded_bytes`: which documents are read, and what they give.
use sigmaproof.Prelude.{
  ℕ, ◌+◌, ◌≤◌, ◌<◌, ◌≡◌, ◌≢◌, refl, ap, ◌∙◌, ◌↔◌, length, ok, arith, take, take_all, length-take,
  max_int64,
}
use sigmaproof.Bytes.{Bytes}
use sigmaproof.Reader.{Reader, stream, broken, read_limited}
use sigmaproof.Agent.Runner.{bounded_bytes, bounded_read, read_all}

-- A document that is read: it ends without an error, within a limit that can be counted past.
pub record IsBounded (r : Reader) (max : ℕ) (b : Bytes) : Type 0 where
  pub source : r ≡ stream b
  pub positive : 0 < max
  pub countable : max ≢ max_int64
  pub within : length b ≤ max

read_inv : (r : Reader) (max : ℕ) (b : Bytes) → bounded_bytes r max ≡ ok b → IsBounded r max b
unfolding bounded_bytes bounded_read read_all read_limited
read_inv (stream d) max b e =
    let size : length d ≤ max = ground (arith, length-take (max + 1) d) in
    let all : take (max + 1) d ≡ d = take_all (max + 1) d (omega arith) in
    record {
      source = ground (arith, all);
      positive = ground arith;
      countable = ground arith;
      within = ground (arith, all);
    }
read_inv (broken d) max b e = absurd (ground (arith, length-take (max + 1) d))

read_of :
    (d b : Bytes) (max : ℕ)
    → 0 < max
    → max ≢ max_int64
    → length b ≤ max
    → d ≡ b
    → bounded_bytes (stream d) max ≡ ok b
unfolding bounded_bytes bounded_read read_all read_limited
read_of d b max p n h e =
    ground (arith, take_all (max + 1) d (omega (arith, ap (length {A = ℕ}) e)))

-- `bounded_bytes` gives exactly the bytes of a document that ends without an error, under a
-- positive limit below the largest int64 that they do not exceed.
pub bounded_bytes_iff :
    (r : Reader) (max : ℕ) (b : Bytes) → (bounded_bytes r max ≡ ok b) ↔ IsBounded r max b
bounded_bytes_iff r max b = (
  read_inv r max b,
  λ h.
      ap (λ t. bounded_bytes t max) h.source ∙ read_of b b max h.positive h.countable h.within refl,
)
