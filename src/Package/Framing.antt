-- ===== src/Package/Framing.antt =====
-- The tests of `parse`, in front of the primitive parsers and behind them.
use sigmaproof.Prelude.{
  ℕ, ◌+◌, ◌-◌, ◌*◌, ◌≤◌, ◌<◌, ◌≡◌, ◌↔◌, ◌⊎◌, inl, inr, refl, ap, sym, ◌∙◌, length, arith, Bool,
  true, false, ◌||◌, not, ltb, leb, ◌==◌, if◌then◌else◌, ok, err, ◌>>=◌, ok-injective,
}
use sigmaproof.Bytes.{Bytes, slice, at, bytes_equal, bytes_equal_iff}
use sigmaproof.Bytes.Words.{uint64}
use sigmaproof.Errors.{
  Outcome, index_outside_manifest, incorrect_path_length, invalid_package_length,
  invalid_package_magic, invalid_path_framing, unsupported,
}
use sigmaproof.Commitment
use sigmaproof.Commitment.{Witness, IsWitness, preimage}
use sigmaproof.Batch
use sigmaproof.Batch.{Manifest}
use sigmaproof.Package.{
  Package, magic, read_path, is_unsupported, max_package_bytes, assemble, parse,
}
use sigmaproof.Package.Depth.{path_length}

-- The tests of `parse` in front of the primitive parsers.
pub record Framed (d : Bytes) : Type 0 where
  pub size : length d ≡ 170 + 32 * at 168 d
  pub small : at 168 d ≤ 16
  pub magic_bytes : slice 0 8 d ≡ magic
  pub version_byte : at 8 d ≡ 1
  pub no_anchor : at (length d - 1) d ≡ 0

abbrev pub parse_parts : Bytes → Outcome Package
parse_parts d = do
  witness ← Commitment.parse (slice 9 99 d)
  manifest ← Batch.parse (slice 99 160 d)
  assemble d witness manifest

-- The tests over the values that they compare: the length, the magic, the version, the number of
-- siblings, the last byte and the profile.
abbrev tests : ℕ → Bool → ℕ → ℕ → ℕ → Bool → Outcome Package → Outcome Package
tests n magic_matches version count last unsupported_profile rest =
    if ltb n 170 || ltb max_package_bytes n
    then err invalid_package_length
    else if not magic_matches
    then err invalid_package_magic
    else if not (version == 1)
    then err unsupported
    else if ltb 16 count || not (n == 170 + 32 * count)
    then err invalid_path_framing
    else if not (last == 0)
    then err unsupported
    else if unsupported_profile
    then err unsupported
    else rest

tests_inv :
    (n : ℕ) (b : Bool) (v c z : ℕ) (u : Bool) (rest : Outcome Package) (p : Package)
    → tests n b v c z u rest ≡ ok p
    → (b ≡ true) × (v ≡ 1) × (c ≤ 16) × (n ≡ 170 + 32 * c) × (z ≡ 0) × (u ≡ false) × (rest ≡ ok p)
tests_inv n b v c z u rest p e = ground arith

tests_pass :
    (n c : ℕ) (rest : Outcome Package)
    → c ≤ 16
    → n ≡ 170 + 32 * c
    → tests n true 1 c 0 false rest ≡ rest
tests_pass n c rest h e = ground arith

parse-tests :
    (d : Bytes)
    → parse d
      ≡ tests
          (length d)
          (bytes_equal (slice 0 8 d) magic)
          (at 8 d)
          (at 168 d)
          (at (length d - 1) d)
          (is_unsupported d)
          (parse_parts d)
unfolding parse
parse-tests d = refl

pub parse_guards :
    (d : Bytes) (p : Package)
    → parse d ≡ ok p
    → Framed d × (is_unsupported d ≡ false) × (parse_parts d ≡ ok p)
parse_guards d p e =
    let (b, v, c, n, z, u, r) = tests_inv _ _ _ _ _ _ (parse_parts d) p (sym (parse-tests d) ∙ e) in
    (
      record {
        size = n;
        small = c;
        magic_bytes = (bytes_equal_iff (slice 0 8 d) magic).0 b;
        version_byte = v;
        no_anchor = z;
      },
      u,
      r,
    )

pub parse-Framed : (d : Bytes) → Framed d → is_unsupported d ≡ false → parse d ≡ parse_parts d
parse-Framed d f u =
    parse-tests d
    ∙ cc (
      u,
      f.version_byte,
      f.no_anchor,
      (bytes_equal_iff (slice 0 8 d) magic).1 f.magic_bytes,
      tests_pass (length d) (at 168 d) (parse_parts d) f.small f.size,
    )

-- The package that `assemble` reads.
abbrev pub read_package : Bytes → Witness → Manifest → Package
read_package d w m = record {
  witness = w;
  manifest = m;
  index = uint64 (slice 160 168 d);
  path = read_path (at 168 d) 0 d;
}

two_tests_pass :
    (i n c l : ℕ) {a : Package}
    → i < n
    → c ≡ l
    → ◌≡◌ {A = Outcome Package}
        (if leb n i
          then err index_outside_manifest
          else if not (c == l)
          then err incorrect_path_length
          else ok a)
        (ok a)
two_tests_pass i n c l q r = ground arith

two_tests_inv :
    (i n c l : ℕ) (r : Outcome Package) (p : Package)
    → ◌≡◌ {A = Outcome Package}
        (if leb n i
          then err index_outside_manifest
          else if not (c == l)
          then err incorrect_path_length
          else r)
        (ok p)
    → (i < n) × (c ≡ l) × (r ≡ ok p)
two_tests_inv i n c l r p e = ground arith

two_tests :
    (i n c l : ℕ) (a p : Package)
    → ((if leb n i
          then err index_outside_manifest
          else if not (c == l)
          then err incorrect_path_length
          else ok a)
        ≡ ok p)
      ↔ ((i < n) × (c ≡ l) × (a ≡ p))
two_tests i n c l a p = (
  λ e. let (q, r, s) = two_tests_inv i n c l (ok a) p e in (q, r, ok-injective s),
  λ (q, r, s). two_tests_pass i n c l q r ∙ ap ok s,
)

pub assemble_iff :
    (d : Bytes) (w : Witness) (m : Manifest) (p : Package)
    → (assemble d w m ≡ ok p) ↔ (
        (uint64 (slice 160 168 d) < m.size)
        × (at 168 d ≡ path_length (uint64 (slice 160 168 d)) m.size)
        × (read_package d w m ≡ p))
unfolding assemble
assemble_iff d w m p = two_tests _ _ _ _ (read_package d w m) p

-- The profile is supported when the two bytes sequences start with supported versions.
pub is_unsupported-false :
    (d : Bytes)
    → at 31 d ≡ 1
    → at 32 d ≡ 1
    → (at 33 d ≡ 1) ⊎ (at 33 d ≡ 2)
    → at 34 d ≡ 0
    → at 116 d ≡ 1
    → at 117 d ≡ 1
    → at 118 d ≡ 1
    → at 119 d ≡ 1
    → is_unsupported d ≡ false
unfolding is_unsupported
is_unsupported-false d a b (inl c) e f g h i = rw (a, b, c, e, f, g, h, i)
is_unsupported-false d a b (inr c) e f g h i = rw (a, b, c, e, f, g, h, i)
