-- ===== src/Report.antt =====
-- pkg/proof/verify.go: the report of a verification, one check for each layer.
pub mod Format
pub mod Integrity
pub mod Fresh
use Prim.Native.String.{String}
use sigmaproof.Prelude.{Bool, true, false, ◌&&◌, Option, ok, err, ℤ}
use sigmaproof.Errors.{Error, Outcome, unsupported_joined}
use sigmaproof.Errors
use sigmaproof.Sha.{Sha256}
use sigmaproof.Reader.{Reader}
use sigmaproof.Commitment
use sigmaproof.Commitment.{Digest}
use sigmaproof.Batch
use sigmaproof.Package
use sigmaproof.Package.{Package}

pub data Status : Type 0 where
  verified failed unavailable unsupported : Status

-- A fixed sentence, or what `err.Error()` gives.
pub data Reason : Type 0 where
  text : String → Reason
  message : Error → Reason

pub record Check : Type 0 where
  pub status : Status
  pub reason : Reason

pub record Report : Type 0 where
  pub format : Check
  pub document : Check
  pub inclusion : Check
  pub anchor : Check

abbrev pub initial_report : Report
initial_report = record {
  format = record { status = unavailable; reason = text "package has not been decoded" };
  document = record { status = unavailable; reason = text "document digest has not been checked" };
  inclusion = record {
    status = unavailable;
    reason = text "batch membership has not been checked";
  };
  anchor = record {
    status = unavailable;
    reason = text "anchor authentication was not performed; no anchor verifier is implemented";
  };
}

unfoldable pub is_verified : Status → Bool
is_verified verified = true
is_verified failed = false
is_verified unavailable = false
is_verified unsupported = false

unfoldable pub integrity_verified : Report → Bool
integrity_verified r =
    is_verified r.format.status && is_verified r.document.status && is_verified r.inclusion.status

-- `errors.Is(err, ErrUnsupported)`
unfoldable pub is_unsupported_error : Error → Bool
is_unsupported_error Errors.unsupported = true
is_unsupported_error (unsupported_joined e) = true
is_unsupported_error _ = false

unfoldable pub format_failure : Error → Report
format_failure e = record initial_report {
  format = record {
    status = elim (is_unsupported_error e) [ true ↦ unsupported | false ↦ failed ];
    reason = message e;
  };
}

-- The report once the package has been decoded.
abbrev pub decoded : Report
decoded = record initial_report {
  format = record {
    status = verified;
    reason = text "experimental unanchored package structure is valid";
  };
  anchor = record {
    status = unavailable;
    reason = text "unanchored package contains no independently authenticated publication evidence";
  };
}

unfoldable pub inclusion_check : Outcome (Unit {0}) → Check
inclusion_check (err e) = record {
  status = failed;
  reason = text "document commitment does not match the carried batch proof";
}
inclusion_check (ok u) = record {
  status = verified;
  reason =
      text "commitment belongs to the carried manifest; manifest is not externally authenticated";
}

unfoldable pub document_check : Outcome (Unit {0}) → Check
document_check (err e) = record { status = failed; reason = message e }
document_check (ok u) = record {
  status = verified;
  reason = text "exact document bytes match the private witness";
}

module _ ⦃sha : Sha256⦄ where
  unfoldable pub verify_commitment : Option Reader → Package → ℤ → Outcome Digest → Report
  verify_commitment document p max (err e) = record decoded {
    inclusion = record { status = failed; reason = message e };
  }
  verify_commitment document p max (ok c) = record decoded {
    inclusion = inclusion_check (Batch.verify p.manifest c p.index p.path);
    document = document_check (Commitment.verify document p.witness c max);
  }

  unfoldable pub verify_decoded : Option Reader → ℤ → Outcome Package → Report
  verify_decoded document max (err e) = format_failure e
  verify_decoded document max (ok p) =
      verify_commitment document p max (Commitment.compute p.witness)

  unfoldable pub verify : Option Reader → Option Reader → ℤ → Report
  verify document encoded_package max = verify_decoded document max (Package.read encoded_package)
