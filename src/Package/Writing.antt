-- ===== src/Package/Writing.antt =====
-- What `marshal_binary` of a package has checked and written when it succeeds.
use sigmaproof.Prelude.{◌<◌, ◌≡◌, ◌↔◌, length, All, arith, ok, err, ◌>>=◌, >>=-eq-ok}
use sigmaproof.Bytes.{Bytes, IsU64}
use sigmaproof.Errors.{Outcome}
use sigmaproof.Sha.{IsHash}
use sigmaproof.Commitment
use sigmaproof.Commitment.{Witness, IsWitness, preimage}
use sigmaproof.Batch
use sigmaproof.Batch.{Manifest}
use sigmaproof.Package.{Package, join_unsupported, finish, marshal_binary, write_package}
use sigmaproof.Package.Depth.{path_length}

-- The array fields have their sizes, and the index is a uint64.
pub record IsPackage (p : Package) : Type 0 where
  pub witness_sizes : IsWitness p.witness
  pub root_size : IsHash p.manifest.root
  pub path_sizes : All IsHash p.path
  pub index_word : IsU64 p.index

-- What a package that is marshalled satisfies, and its bytes.
pub record Marshals (p : Package) (d w m : Bytes) : Type 0 where
  pub witness_bytes : Commitment.encode p.witness ≡ ok w
  pub manifest_bytes : Batch.marshal_binary p.manifest ≡ ok m
  pub index_inside : p.index < p.manifest.size
  pub path_exact : length p.path ≡ path_length p.index p.manifest.size
  pub written : write_package w m p.index p.path ≡ d

join_unsupported_inv : (r : Outcome Bytes) (b : Bytes) → join_unsupported r ≡ ok b → r ≡ ok b
unfolding join_unsupported
join_unsupported_inv (ok a) b e = e
join_unsupported_inv (err x) b e = cc

finish_iff :
    (p : Package) (w m d : Bytes)
    → (finish p w m ≡ ok d) ↔ (
        (p.index < p.manifest.size)
        × (length p.path ≡ path_length p.index p.manifest.size)
        × (write_package w m p.index p.path ≡ d))
unfolding finish
finish_iff p w m d = (λ e. ground arith, λ e. ground arith)

pub marshal_inv :
    (p : Package) (d : Bytes)
    → marshal_binary p ≡ ok d
    → (w : Bytes) × (m : Bytes) × Marshals p d w m
unfolding marshal_binary
marshal_inv p d e =
    let (w, ew, r) =
      >>=-eq-ok (join_unsupported (Commitment.encode p.witness))
        (λ w. Batch.marshal_binary p.manifest >>= λ m. finish p w m) e in
    let (m, em, f) = >>=-eq-ok (Batch.marshal_binary p.manifest) (λ m. finish p w m) r in
    let (inside, exact, bytes) = (finish_iff p w m d).0 f in
    (
      w,
      m,
      record {
        witness_bytes = join_unsupported_inv _ w ew;
        manifest_bytes = em;
        index_inside = inside;
        path_exact = exact;
        written = bytes;
      },
    )

pub marshal_of : (p : Package) (d w m : Bytes) → Marshals p d w m → marshal_binary p ≡ ok d
unfolding marshal_binary join_unsupported
marshal_of p d w m s =
    rw (s.witness_bytes, s.manifest_bytes)
      ((finish_iff p w m d).1 (s.index_inside, s.path_exact, s.written))
