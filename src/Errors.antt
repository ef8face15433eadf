-- ===== src/Errors.antt =====
-- The errors of pkg/proof and its packages, one constructor for each message.
use sigmaproof.Prelude.{Result}

pub data Error : Type 0 where
  -- merkle
  index_outside_tree invalid_size_or_index path_too_deep : Error
  truncated_path extra_path_nodes root_mismatch : Error
  -- commitment
  unsupported_commitment_version unsupported_digest_algorithm : Error
  unsupported_representation unsupported_metadata : Error
  commitment_mismatch document_mismatch : Error
  reader_required invalid_byte_limit document_too_long invalid_preimage_framing : Error
  -- batch
  unsupported_manifest_version unsupported_commitment_profile : Error
  unsupported_commitment_algorithm unsupported_tree_algorithm batch_size_outside_limits : Error
  invalid_manifest_length invalid_manifest_domain : Error
  -- proof: `unsupported` is ErrUnsupported, and `unsupported_joined` joins it to another error.
  unsupported : Error
  unsupported_joined : Error → Error
  index_outside_manifest incorrect_path_length : Error
  invalid_package_length invalid_package_magic invalid_path_framing package_reader_required : Error
  -- what a reader or the random source returned
  read_failed random_failed : Error
  -- no Go value: a bounded loop of the model ran out of rounds
  out_of_fuel : Error

abbrev pub Outcome : Type 0 → Type 0
Outcome = Result Error
