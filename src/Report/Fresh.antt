-- ===== src/Report/Fresh.antt =====
-- A package that was just created can be written, and verifies against its document.
use sigmaproof.Prelude.{ℕ, ◌+◌, ◌≤◌, ◌≡◌, ◌∙◌, true, Option, some, length, ok, ℤ, arith, take_all}
use sigmaproof.Bytes.{Bytes}
use sigmaproof.Sha.{Sha256, IsHash}
use sigmaproof.Reader.{Reader, stream, read_limited}
use sigmaproof.Package
use sigmaproof.Package.{Package, create_unanchored}
use sigmaproof.Package.RoundTrip.{parse-marshal_binary}
use sigmaproof.Package.Create.{create_inv, Created-marshals, Created-belongs}
use sigmaproof.Report.{integrity_verified, verify}
use sigmaproof.Report.Integrity.{Integrity-iff}

module _ ⦃sha : Sha256⦄ where
  pub read_stream :
      (d : Bytes)
      → length d ≤ Package.max_package_bytes
      → Package.read (some (stream d)) ≡ Package.parse d
  unfolding Package.read read_limited
  read_stream d h = rw (take_all (Package.max_package_bytes + 1) d (omega arith))

  -- With 32 random bytes, a package that `create_unanchored` returns can be written, and what is
  -- written, read back, verifies the integrity of the same document under the same limit.
  pub create_then_verify :
      (document : Option Reader) (rep : ℕ) (max : ℤ) (nonce : Bytes) (p : Package)
      → IsHash nonce
      → create_unanchored document rep max (some nonce) ≡ ok p
      → (d : Bytes) × (Package.marshal_binary p ≡ ok d)
        × (integrity_verified (verify document (some (stream d)) max) ≡ true)
  create_then_verify document rep max nonce p hn e =
      let c = create_inv document rep max nonce p hn e in
      let (d, written, size, sizes) = Created-marshals p c in
      (
        d,
        written,
        (Integrity-iff document (some (stream d)) max).1 (
          p,
          c.commitment,
          record {
            decodes = read_stream d (omega arith) ∙ parse-marshal_binary p d sizes written;
            commits = c.commits;
            belongs = Created-belongs p c;
            hashes = c.document_hash;
          },
        ),
      )
