-- ===== src/Tests/Report.antt =====
-- Reports on the created package and its document.
use sigmaproof.Prelude.{◌≡◌, ◌⊎◌, ◌↔◌, refl, [], ◌∷◌, some, get_elem?, ok, err, true, Option, pos}
use sigmaproof.Bytes.{Bytes, bytes_equal}
use sigmaproof.Errors.{Error}
use sigmaproof.Sha.{Collision}
use sigmaproof.Reader.{Reader, stream, read_limited}
use sigmaproof.Merkle
use sigmaproof.Merkle.{leaf, root, root_fuel, rebuild, verify_end}
use sigmaproof.Commitment
use sigmaproof.Commitment.{
  Digest, preimage, hash_document, hash_read, compute, original, check_document, check_commitment,
}
use sigmaproof.Commitment.Document.{Fits}
use sigmaproof.Batch
use sigmaproof.Batch.{validate, blank}
use sigmaproof.Package
use sigmaproof.Package.{Package}
use sigmaproof.Report.{verified, failed, unsupported, verify, integrity_verified}
use sigmaproof.Report.Integrity.{Integrity, Integrity-iff, integrity_binding, integrity_member}
use sigmaproof.Report.Format.{IsUnsupported, format_iff}
use sigmaproof.Report.Fresh.{create_then_verify}
use sigmaproof.Tests.Commitment.{nonce}
use sigmaproof.Tests.Package.{document, created, encoded, create_runs, parse_runs}
use sigmaproof.Tests.Toy.{toy, toy_digest}

abbrev package_reader : Option Reader
package_reader = some (stream encoded)

read_runs : Package.read package_reader ≡ ok created
unfolding Package.read read_limited
read_runs = parse_runs

verify_runs : integrity_verified (verify document package_reader (pos 3)) ≡ true
unfolding preimage
verify_runs = (Integrity-iff document package_reader (pos 3)).1 (
  created,
  toy_digest (preimage created.witness),
  record {
    decodes = read_runs;
    commits = unfold compute Commitment.encode in refl;
    belongs =
        unfold Batch.verify validate Merkle.verify verify_end rebuild leaf bytes_equal in refl;
    hashes = unfold hash_document hash_read read_limited in refl;
  },
)

create_then_verify_example :
    (d : Bytes) × (Package.marshal_binary created ≡ ok d)
    × (integrity_verified (verify document (some (stream d)) (pos 3)) ≡ true)
create_then_verify_example =
    create_then_verify document original (pos 3) nonce created refl create_runs

Integrity-iff_example :
    (integrity_verified (verify document package_reader (pos 3)) ≡ true)
    ↔ ((p : Package) × (c : Digest) × Integrity document package_reader (pos 3) p c)
Integrity-iff_example = Integrity-iff document package_reader (pos 3)

integrity_binding_example :
    ((b : Bytes) × Fits document (pos 3) b × Fits document (pos 3) b) ⊎ Collision
integrity_binding_example =
    integrity_binding document document package_reader (pos 3) (pos 3) verify_runs verify_runs

batch_runs : Batch.new (toy_digest (preimage created.witness) ∷ []) ≡ ok created.manifest
unfolding Batch.new validate blank root root_fuel leaf
batch_runs = refl

integrity_member_example :
    ((c : Digest) × (compute created.witness ≡ ok c)
      × (get_elem? (toy_digest (preimage created.witness) ∷ []) created.index ≡ some c)
      × (hash_document document (pos 3) ≡ ok created.witness.document_digest))
    ⊎ Collision
integrity_member_example =
    integrity_member document package_reader (pos 3) (toy_digest (preimage created.witness) ∷ [])
      created read_runs batch_runs verify_runs

format_iff_example :
    (((verify document package_reader (pos 3)).format.status ≡ verified)
      ↔ ((p : Package) × (Package.read package_reader ≡ ok p)))
    × (((verify document package_reader (pos 3)).format.status ≡ unsupported)
        ↔ ((e : Error) × (Package.read package_reader ≡ err e) × IsUnsupported e))
    × (((verify document package_reader (pos 3)).format.status ≡ failed)
        ↔ ((e : Error) × (Package.read package_reader ≡ err e) × ¬ IsUnsupported e))
format_iff_example = format_iff document package_reader (pos 3)
