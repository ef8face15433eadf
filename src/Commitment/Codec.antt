-- ===== src/Commitment/Codec.antt =====
-- `parse` and `encode` are inverse to each other.
use sigmaproof.Prelude.{
  ◌≡◌, ◌↔◌, ◌⊎◌, ◌≤◌, refl, ap, sym, ◌∙◌, ◌∷◌, ◌++◌, length, ok, ◌>>=◌, take_left, drop_left,
  take_all, length-append, arith, >>=-eq-ok, take, drop, ok-injective,
}
use sigmaproof.Bytes.{Bytes, bytes_equal_iff, slice, at}
use sigmaproof.Bytes.Slices.{at-slice, append-slice, slice_all, length-slice}
use sigmaproof.Commitment.{Witness, IsWitness, domain, preimage, encode, fields, parse}

-- The field values that `encode` accepts.
pub record IsSupported (w : Witness) : Type 0 where
  pub version_one : w.version_byte ≡ 1
  pub sha256_one : w.algorithm ≡ 1
  pub source : (w.representation ≡ 1) ⊎ (w.representation ≡ 2)
  pub no_metadata : w.metadata ≡ 0

-- `encode` accepts exactly the supported witnesses, and gives their preimage.
pub encode_iff : (w : Witness) (b : Bytes) → (encode w ≡ ok b) ↔ (IsSupported w × (preimage w ≡ b))
unfolding encode
encode_iff w b = (λ e. ground arith, λ (s, p). ground arith)

pub length-preimage : (w : Witness) → IsWitness w → length (preimage w) ≡ 90
unfolding preimage
length-preimage w h =
    omega (arith, length-append w.document_digest w.nonce, h.digest_size, h.nonce_size)

pub fields-preimage : (w : Witness) → IsWitness w → fields (preimage w) ≡ w
unfolding fields preimage
fields-preimage w h =
    let whole = w.document_digest ++ w.nonce in
    let size : length whole ≤ 64 =
      omega (arith, length-append w.document_digest w.nonce, h.digest_size, h.nonce_size) in
    let front : take 32 whole ≡ w.document_digest =
      take_left 32 w.document_digest w.nonce h.digest_size in
    let back : drop 32 (take 64 whole) ≡ w.nonce =
      rw (take_all 64 whole size) (drop_left 32 w.document_digest w.nonce h.digest_size) in
    λ i. record {
      version_byte = w.version_byte;
      algorithm = w.algorithm;
      representation = w.representation;
      metadata = w.metadata;
      document_digest = front i;
      nonce = back i;
    }

four_bytes :
    (d : Bytes)
    → length d ≡ 90
    → at 22 d ∷ at 23 d ∷ at 24 d ∷ at 25 d ∷ slice 26 90 d ≡ slice 22 90 d
four_bytes d n =
    ap (λ t. at 22 d ∷ at 23 d ∷ at 24 d ∷ t) (at-slice 25 90 d (omega arith) (omega arith))
    ∙ ap (λ t. at 22 d ∷ at 23 d ∷ t) (at-slice 24 90 d (omega arith) (omega arith))
    ∙ ap (λ t. at 22 d ∷ t) (at-slice 23 90 d (omega arith) (omega arith))
    ∙ at-slice 22 90 d (omega arith) (omega arith)

pub preimage-fields : (d : Bytes) → length d ≡ 90 → slice 0 22 d ≡ domain → preimage (fields d) ≡ d
unfolding preimage fields
preimage-fields d n e =
    ap (λ t. domain ++ (at 22 d ∷ at 23 d ∷ at 24 d ∷ at 25 d ∷ t))
      (append-slice 26 58 90 d (omega arith) (omega arith))
    ∙ ap (λ t. domain ++ t) (four_bytes d n)
    ∙ ap (λ t. t ++ slice 22 90 d) (sym e)
    ∙ append-slice 0 22 90 d (omega arith) (omega arith)
    ∙ slice_all d 90 n

fields-IsWitness : (d : Bytes) → length d ≡ 90 → IsWitness (fields d)
unfolding fields
fields-IsWitness d n = record {
  digest_size = omega (arith, length-slice 26 58 d);
  nonce_size = omega (arith, length-slice 58 90 d);
}

parse_guards :
    (d : Bytes) (w : Witness)
    → parse d ≡ ok w
    → (length d ≡ 90)
      × (slice 0 22 d ≡ domain)
      × ((encode (fields d) >>= λ b. ok (fields d)) ≡ ok w)
unfolding parse
parse_guards d w e = ground (arith, bytes_equal_iff (slice 0 22 d) domain)

parse_framed :
    (d : Bytes) {b : Bytes}
    → length d ≡ 90
    → slice 0 22 d ≡ domain
    → encode (fields d) ≡ ok b
    → parse d ≡ ok (fields d)
unfolding parse
parse_framed d n e f = ground (arith, bytes_equal_iff (slice 0 22 d) domain)

pub parse-encode : (w : Witness) (d : Bytes) → IsWitness w → encode w ≡ ok d → parse d ≡ ok w
parse-encode w d h e =
    let p : preimage w ≡ d = ((encode_iff w d).0 e).1 in
    let back : fields d ≡ w = rw p at (fields-preimage w h) in
    rw back at (
      parse_framed d {b = d} (rw p at (length-preimage w h)) (rw (← p) (unfold preimage in refl))
        (rw back e))

pub encode-parse : (d : Bytes) (w : Witness) → parse d ≡ ok w → IsWitness w × (encode w ≡ ok d)
encode-parse d w e =
    let (n, dom, r) = parse_guards d w e in
    let (b, enc, same) = >>=-eq-ok (encode (fields d)) (λ b. ok (fields d)) r in
    let w_fields : fields d ≡ w = ok-injective same in
    let p : preimage (fields d) ≡ b = ((encode_iff (fields d) b).0 enc).1 in
    let enc_d : encode (fields d) ≡ ok d = enc ∙ ap ok (sym p ∙ preimage-fields d n dom) in
    (rw w_fields at (fields-IsWitness d n), rw w_fields at enc_d)

-- `parse` and `encode` are inverse to each other, both ways: bytes parse to a witness exactly when
-- that witness has fields of the struct's sizes and encodes to just those bytes.
pub parse-encode_iff :
    (d : Bytes) (w : Witness) → (parse d ≡ ok w) ↔ (IsWitness w × (encode w ≡ ok d))
parse-encode_iff d w = (encode-parse d w, λ (h, e). parse-encode w d h e)
