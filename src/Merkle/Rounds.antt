-- ===== src/Merkle/Rounds.antt =====
-- `verify` ends: 65 rounds are enough for every size of at most 2^64.
use sigmaproof.Prelude.{
  ℕ, zero, suc, ◌-◌, ◌^◌, ◌≤◌, ◌<◌, ◌≢◌, inl, inr, List, arith, ok, err, ◌>>=◌, ltb, ◌==◌, Bool,
  true, false, Bool-cases, ltb→lt, ltb→ge, ==_iff,
}
use sigmaproof.Bytes.{Bytes}
use sigmaproof.Errors.{Outcome, out_of_fuel}
use sigmaproof.Sha.{Sha256}
use sigmaproof.Merkle.{Hash, rebuild, rebuild_up, verify, verify_end}
use sigmaproof.Merkle.Split.{split, IsSplit, split-IsSplit, IsSplit-halves}
use sigmaproof.Merkle.Complete.{rebuild_front, rebuild_back}
use sigmaproof.Merkle.Sound.{rebuild-one}

module _ ⦃sha : Sha256⦄ where
  bind-ne-out_of_fuel :
      {A B : Type 0} (m : Outcome A) (k : A → Outcome B)
      → m ≢ err out_of_fuel
      → ((a : A) → k a ≢ err out_of_fuel)
      → (m >>= k) ≢ err out_of_fuel
  bind-ne-out_of_fuel (ok a) k h t = t a
  bind-ne-out_of_fuel (err e) k h t = λ p. h (cc)

  rebuild_up-ne-out_of_fuel :
      (siblings : List Hash) (inside : Bool) (c : Hash × ℕ)
      → rebuild_up siblings inside c ≢ err out_of_fuel
  unfolding rebuild_up
  rebuild_up-ne-out_of_fuel siblings inside (child, used) = ground arith

  rebuild-ne-out_of_fuel :
      (d : ℕ) (entry : Bytes) (siblings : List Hash) (i n used : ℕ)
      → 0 < n
      → n ≤ 2 ^ d
      → n ≤ 2 ^ 64
      → rebuild entry siblings (suc d) i n used ≢ err out_of_fuel
  rebuild-ne-out_of_fuel zero entry siblings i n used p h u =
      rw (rebuild-one entry siblings 0 i n used (omega arith)) (λ e. cc)
  rebuild-ne-out_of_fuel (suc d) entry siblings i n used p h u = elim (Bool-cases (n == 1)) [
    | inl one ↦ rw (rebuild-one entry siblings (suc d) i n used ((==_iff n 1).0 one)) (λ e. cc)
    | inr more ↦
        let two : 2 ≤ n = ground arith in
        let s : IsSplit n (split n) = split-IsSplit n two u in
        let (a, b) = IsSplit-halves n (split n) d s h in
        elim (Bool-cases (ltb i (split n))) [
          | inl inside ↦
              rw (rebuild_front entry siblings (suc d) i n used two (ltb→lt _ _ inside)) (
                bind-ne-out_of_fuel _ (rebuild_up siblings true)
                  (rebuild-ne-out_of_fuel d entry siblings i (split n) used (omega (arith, s.half))
                    a (omega (arith, s.below)))
                  (rebuild_up-ne-out_of_fuel siblings true))
          | inr outside ↦
              rw (rebuild_back entry siblings (suc d) i n used two (ltb→ge _ _ outside)) (
                bind-ne-out_of_fuel _ (rebuild_up siblings false)
                  (rebuild-ne-out_of_fuel d entry siblings (i - split n) (n - split n) used
                    (omega (arith, s.below)) b (omega arith))
                  (rebuild_up-ne-out_of_fuel siblings false))
        ]
  ]

  verify_end-ne-out_of_fuel :
      (siblings : List Hash) (expected : Hash) (c : Hash × ℕ)
      → verify_end siblings expected c ≢ err out_of_fuel
  unfolding verify_end
  verify_end-ne-out_of_fuel siblings expected (got, used) = ground arith

  -- For every entry, index, siblings and root, and every size of at most 2^64, `verify` gives an
  -- answer of the source: its bounded recursion never runs out of rounds.
  pub verify-ne-out_of_fuel :
      (entry : Bytes) (i n : ℕ) (siblings : List Hash) (expected : Hash)
      → n ≤ 2 ^ 64
      → verify entry i n siblings expected ≢ err out_of_fuel
  unfolding verify
  verify-ne-out_of_fuel entry i n siblings expected u = ground (arith, answered)
    where
      answered :
          0 < n
          → (rebuild entry siblings 65 i n 0 >>= verify_end siblings expected) ≢ err out_of_fuel
      answered p =
          bind-ne-out_of_fuel _ (verify_end siblings expected)
            (rebuild-ne-out_of_fuel 64 entry siblings i n 0 p u u)
            (verify_end-ne-out_of_fuel siblings expected)
