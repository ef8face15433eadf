-- ===== src/Report/Format.antt =====
-- The format check of a report.
use sigmaproof.Prelude.{
  Bool-cases, ◌≡◌, ◌≢◌, err-injective, ◌↔◌, ◌⊎◌, inl, inr, refl, ap, ◌∙◌, Bool, true, false, Option,
  ok, err, ℤ, arith,
}
use sigmaproof.Errors
use sigmaproof.Errors.{Error, Outcome, unsupported_joined}
use sigmaproof.Sha.{Sha256}
use sigmaproof.Reader.{Reader}
use sigmaproof.Package
use sigmaproof.Package.{Package}
use sigmaproof.Report.{
  Status, verified, failed, unsupported, is_unsupported_error, format_failure, verify_commitment,
  verify_decoded, verify,
}

-- The unsupported-profile error, alone or joined to another.
abbrev pub IsUnsupported : Error → Type 0
IsUnsupported e = (e ≡ Errors.unsupported) ⊎ ((x : Error) × (e ≡ unsupported_joined x))

is_unsupported_error-IsUnsupported : (e : Error) → is_unsupported_error e ≡ true → IsUnsupported e
unfolding is_unsupported_error
is_unsupported_error-IsUnsupported Errors.unsupported h = inl refl
is_unsupported_error-IsUnsupported (unsupported_joined x) h = inr (x, refl)
is_unsupported_error-IsUnsupported e h = cc h

IsUnsupported-is_unsupported_error : (e : Error) → IsUnsupported e → is_unsupported_error e ≡ true
unfolding is_unsupported_error
IsUnsupported-is_unsupported_error e (inl h) = ap is_unsupported_error h
IsUnsupported-is_unsupported_error e (inr (x, h)) = ap is_unsupported_error h

is_unsupported_error_iff :
    (e : Error)
    → ((is_unsupported_error e ≡ true) ↔ IsUnsupported e)
      × ((is_unsupported_error e ≡ false) ↔ ¬ IsUnsupported e)
is_unsupported_error_iff e = (
  (is_unsupported_error-IsUnsupported e, IsUnsupported-is_unsupported_error e),
  (
    λ h u. cc (h, IsUnsupported-is_unsupported_error e u),
    λ n. elim (Bool-cases (is_unsupported_error e)) [
      | inl is ↦ absurd (n (is_unsupported_error-IsUnsupported e is))
      | inr other ↦ other
    ],
  ),
)

abbrev failure_status : Bool → Status
failure_status true = unsupported
failure_status false = failed

abbrev decode_status : Outcome Package → Status
decode_status (ok p) = verified
decode_status (err e) = failure_status (is_unsupported_error e)

failure_iff :
    (b : Bool)
    → (failure_status b ≢ verified)
      × ((failure_status b ≡ unsupported) ↔ (b ≡ true))
      × ((failure_status b ≡ failed) ↔ (b ≡ false))
failure_iff true = (λ e. cc, (λ e. refl, λ e. refl), (λ e. cc, λ e. cc))
failure_iff false = (λ e. cc, (λ e. cc, λ e. cc), (λ e. refl, λ e. refl))

decode_iff :
    (r : Outcome Package)
    → ((decode_status r ≡ verified) ↔ ((p : Package) × (r ≡ ok p)))
      × ((decode_status r ≡ unsupported)
          ↔ ((e : Error) × (r ≡ err e) × (is_unsupported_error e ≡ true)))
      × ((decode_status r ≡ failed)
          ↔ ((e : Error) × (r ≡ err e) × (is_unsupported_error e ≡ false)))
decode_iff (ok p) = (
  (λ e. (p, refl), λ e. refl),
  (λ e. absurd (cc), λ (x, q, u). absurd (cc)),
  (λ e. absurd (cc), λ (x, q, u). absurd (cc)),
)
decode_iff (err x) =
    let (never, to_unsupported, to_failed) = failure_iff (is_unsupported_error x) in
    (
      (λ e. absurd (never e), λ (p, q). absurd (cc)),
      (
        λ e. (x, refl, to_unsupported.0 e),
        λ (y, q, u). to_unsupported.1 (ap is_unsupported_error (err-injective q) ∙ u),
      ),
      (
        λ e. (x, refl, to_failed.0 e),
        λ (y, q, u). to_failed.1 (ap is_unsupported_error (err-injective q) ∙ u),
      ),
    )

module _ ⦃sha : Sha256⦄ where
  format-decode_status :
      (document encoded : Option Reader) (max : ℤ)
      → (verify document encoded max).format.status ≡ decode_status (Package.read encoded)
  unfolding verify verify_decoded verify_commitment format_failure
  format-decode_status document encoded max = ground arith

  -- The format check says exactly how decoding went: verified when the package decodes,
  -- unsupported when decoding fails with the unsupported-profile error, alone or joined to
  -- another, and failed on every other error.
  pub format_iff :
      (document encoded : Option Reader) (max : ℤ)
      → (((verify document encoded max).format.status ≡ verified)
          ↔ ((p : Package) × (Package.read encoded ≡ ok p)))
        × (((verify document encoded max).format.status ≡ unsupported)
            ↔ ((e : Error) × (Package.read encoded ≡ err e) × IsUnsupported e))
        × (((verify document encoded max).format.status ≡ failed)
            ↔ ((e : Error) × (Package.read encoded ≡ err e) × ¬ IsUnsupported e))
  format_iff document encoded max =
      let (whole, some_unsupported, some_failed) = decode_iff (Package.read encoded) in
      let test = is_unsupported_error_iff in
      rw (format-decode_status document encoded max) (
        whole,
        (
          λ h. let (e, r, u) = some_unsupported.0 h in (e, r, (test e).0.0 u),
          λ (e, r, u). some_unsupported.1 (e, r, (test e).0.1 u),
        ),
        (
          λ h. let (e, r, u) = some_failed.0 h in (e, r, (test e).1.0 u),
          λ (e, r, u). some_failed.1 (e, r, (test e).1.1 u),
        ),
      )
