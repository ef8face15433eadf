-- ===== src/Merkle/Split.antt =====
-- `split` of merkle.go: the largest power of two below the size, by `bits.Len64`.
use sigmaproof.Prelude.{
  ℕ, zero, suc, ◌+◌, ◌-◌, ◌*◌, ◌/◌, ◌%◌, ◌^◌, ◌≤◌, ◌<◌, ◌≡◌, arith, ◌==◌, if◌then◌else◌, refl, ap,
  sym, ◌∙◌,
}
use native.Mathlib.Decide.{dec_lt}
use native.Mathlib.Nat.{pow-suc, pow-le-pow_right, le_antisymm}

-- How many bits a number below 2 ^ fuel has.
unfoldable pub len_bits : ℕ → ℕ → ℕ
len_bits zero x = 0
len_bits (suc fuel) x = let rest = len_bits fuel (x / 2) in if x == 0 then 0 else suc rest

-- `bits.Len64`
unfoldable pub len64 : ℕ → ℕ
len64 x = len_bits 64 x

-- The callers' sizes are 2 at least: at 1 the source would shift by a negative count, a panic.
unfoldable pub split : ℕ → ℕ
split size = 2 ^ (len64 ((size + 2 ^ 64 - 1) % 2 ^ 64) - 1)

two_pow_suc : (n : ℕ) → 2 ^ suc n ≡ 2 * 2 ^ n
two_pow_suc n = omega (arith, pow-suc 2 n)

len_bits_zero : (fuel : ℕ) → len_bits fuel 0 ≡ 0
unfolding len_bits
len_bits_zero zero = refl
len_bits_zero (suc fuel) = refl

-- A positive number of `l` bits lies from half of 2 ^ l up to 2 ^ l.
record Bits (x l : ℕ) : Type 0 where
  below : x < 2 ^ l
  above : 2 ^ l ≤ 2 * x
  positive : 0 < l

len_bits_step : (fuel x : ℕ) → 0 < x → len_bits (suc fuel) x ≡ suc (len_bits fuel (x / 2))
unfolding len_bits
len_bits_step fuel x p = ground arith

Bits-one : Bits 1 1
Bits-one = omega arith

Bits-double : (x l : ℕ) → Bits (x / 2) l → Bits x (suc l)
Bits-double x l b = omega (arith, two_pow_suc l)

len_bits-Bits : (fuel x : ℕ) → 0 < x → x < 2 ^ fuel → Bits x (len_bits fuel x)
len_bits-Bits zero x p h = absurd (omega arith)
len_bits-Bits (suc fuel) x p h = elim (dec_lt 0 (x / 2)) [
  | yes q ↦
      rw (len_bits_step fuel x p)
        (Bits-double x _ (len_bits-Bits fuel (x / 2) q (omega (arith, two_pow_suc fuel))))
  | no q ↦
      let one : x ≡ 1 = omega arith in
      let rest : x / 2 ≡ 0 = omega arith in
      rw (len_bits_step fuel x p) (rw rest (rw (len_bits_zero fuel, one) Bits-one))
]

len_bits-le : (fuel x : ℕ) → len_bits fuel x ≤ fuel
unfolding len_bits
len_bits-le zero x = omega arith
len_bits-le (suc fuel) x = ground (arith, len_bits-le fuel (x / 2))

-- The size less one, without the wrap that only a size of 0 meets.
pred_wrap : (n : ℕ) → 0 < n → n ≤ 2 ^ 64 → (n + 2 ^ 64 - 1) % 2 ^ 64 ≡ n - 1
pred_wrap n p h = omega arith

-- What `split` gives for a size of at least two: a power of two below the size, and no less than
-- half of it.
pub record IsSplit (n k : ℕ) : Type 0 where
  pub exponent : ℕ
  pub exponent_small : exponent < 64
  pub power : k ≡ 2 ^ exponent
  pub below : k < n
  pub half : n ≤ 2 * k

IsSplit-at : (n l : ℕ) → 2 ≤ n → l ≤ 64 → Bits (n - 1) l → IsSplit n (2 ^ (l - 1))
IsSplit-at n zero h s b = absurd (omega arith)
IsSplit-at n (suc l) h s b =
    let e : suc l - 1 ≡ l = omega arith in
    rw e (record {
      exponent = l;
      exponent_small = s;
      power = refl;
      below = omega (arith, two_pow_suc l);
      half = omega (arith, two_pow_suc l);
    })

-- For every size from 2 to 2^64, `split` is a power of two (of an exponent below 64) that is
-- less than the size and at least half of it.
pub split-IsSplit : (n : ℕ) → 2 ≤ n → n ≤ 2 ^ 64 → IsSplit n (split n)
unfolding split len64
split-IsSplit n h u = rw (pred_wrap n (omega arith) u) (
    IsSplit-at n (len_bits 64 (n - 1)) h (len_bits-le 64 _)
      (len_bits-Bits 64 (n - 1) (omega arith) (omega arith)))

exponent-le : (n i j : ℕ) → n ≤ 2 * 2 ^ i → 2 ^ j < n → j ≤ i
exponent-le n i j h k = elim (dec_lt i j) [
  | yes p ↦ absurd (omega (arith, two_pow_suc i, pow-le-pow_right {n = 2} (omega arith) p))
  | no p ↦ omega arith
]

-- There is one such power.
pub IsSplit-unique : (n k m : ℕ) → IsSplit n k → IsSplit n m → k ≡ m
IsSplit-unique n k m a b =
    a.power
    ∙ ap (λ e. 2 ^ e)
        (le_antisymm
          (exponent-le n b.exponent a.exponent (rw b.power at b.half) (rw a.power at a.below))
          (exponent-le n a.exponent b.exponent (rw a.power at a.half) (rw b.power at b.below)))
    ∙ sym b.power

-- A level down, both parts fit one power of two less.
pub IsSplit-halves : (n k d : ℕ) → IsSplit n k → n ≤ 2 ^ suc d → (k ≤ 2 ^ d) × (n - k ≤ 2 ^ d)
IsSplit-halves n k d s h =
    let e : s.exponent ≤ d =
      exponent-le n d s.exponent (omega (arith, two_pow_suc d)) (rw s.power at s.below) in
    let small : k ≤ 2 ^ d = rw s.power (pow-le-pow_right {n = 2} (omega arith) e) in
    (small, omega (arith, s.half))
