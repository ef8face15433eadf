-- ===== src/Tests/Fields.antt =====
-- A writer of lists of texts for the runs: each number is raised by one, and a zero ends a text.
use sigmaproof.Prelude.{ℕ, zero, suc, ◌+◌, ◌≡◌, refl, ap, ◌∙◌, List, [], ◌∷◌, length, arith}
use sigmaproof.Bytes.{Bytes}

abbrev pub write_field : Bytes → Bytes → Bytes
write_field [] rest = 0 ∷ rest
write_field (n ∷ d) rest = suc n ∷ write_field d rest

abbrev pub write_fields : List Bytes → Bytes
write_fields [] = []
write_fields (d ∷ ds) = write_field d (write_fields ds)

abbrev push_front : ℕ → List Bytes → List Bytes
push_front n [] = (n ∷ []) ∷ []
push_front n (d ∷ ds) = (n ∷ d) ∷ ds

abbrev pub read_fields : Bytes → List Bytes
read_fields [] = []
read_fields (zero ∷ d) = [] ∷ read_fields d
read_fields (suc n ∷ d) = push_front n (read_fields d)

read_field-write : (d rest : Bytes) → read_fields (write_field d rest) ≡ d ∷ read_fields rest
read_field-write [] rest = refl
read_field-write (n ∷ d) rest = ap (push_front n) (read_field-write d rest)

pub read_fields-write : (ds : List Bytes) → read_fields (write_fields ds) ≡ ds
read_fields-write [] = refl
read_fields-write (d ∷ ds) =
    read_field-write d (write_fields ds) ∙ ap (λ t. d ∷ t) (read_fields-write ds)

pub length-write_field : (d rest : Bytes) → length (write_field d rest) ≡ length d + 1 + length rest
length-write_field [] rest = omega arith
length-write_field (n ∷ d) rest = omega (arith, length-write_field d rest)
