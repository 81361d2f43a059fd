-- ===== src/Ber/Decoder/RoundTrip.antt =====
-- `BerDecoder_decodeLength` of mms/asn1/ber_decode.cc on the length octets of the encoder.
use grid_goose_sv.Prelude.{
  ℕ, suc, ◌+◌, ◌*◌, ◌/◌, ◌%◌, ◌^◌, ◌≤◌, ◌<◌, ◌≡◌, refl, ap, ◌∙◌, arith, bit_and, List, [], ◌∷◌,
  ◌++◌, length, ltb, ◌==◌, drop, drop-suc, get_elem?-drop, false, ok, Bool-cases, inl, inr,
}
use grid_goose_sv.Memory.{read}
use grid_goose_sv.Ber.Length.{length_octets}
use grid_goose_sv.Ber.Bytes.Bits.{top_bit}
use grid_goose_sv.Ber.Decoder.{long_form, within_bounds, decode_length_recursive, decode_length}
use native.Mathlib.Numerals.{add-one}

-- The array goes on with `bytes` from a position on.
abbrev pub Holds : List ℕ → ℕ → List ℕ → Type 0
Holds buffer buf_pos bytes = (rest : List ℕ) × (drop buf_pos buffer ≡ bytes ++ rest)

pub Holds-tail :
    (buffer : List ℕ) (buf_pos b : ℕ) (bs : List ℕ)
    → Holds buffer buf_pos (b ∷ bs)
    → Holds buffer (buf_pos + 1) bs
Holds-tail buffer buf_pos b bs h = (h.0, rw (add-one buf_pos) (drop-suc buffer buf_pos h.1))

pub Holds-read :
    (buffer : List ℕ) (buf_pos b : ℕ) (bs : List ℕ)
    → Holds buffer buf_pos (b ∷ bs)
    → read buffer buf_pos ≡ ok b
Holds-read buffer buf_pos b bs h = rw (get_elem?-drop buffer buf_pos h.1)

long_form-suc :
    (rounds : ℕ) (buffer : List ℕ) (buf_pos max_buf_pos length b : ℕ) (bs : List ℕ)
    → Holds buffer buf_pos (b ∷ bs)
    → buf_pos < max_buf_pos
    → buf_pos + length ≤ max_buf_pos
    → length * 256 + b < 2 ^ 31
    → long_form (suc rounds) buffer buf_pos max_buf_pos length
      ≡ long_form rounds buffer (buf_pos + 1) max_buf_pos (length * 256 + b)
unfolding long_form
long_form-suc rounds buffer buf_pos max_buf_pos length b bs h p q s =
    ground (arith, Holds-read buffer buf_pos b bs h)

-- The first octet decides the form; `rounds` is the number of octets of the long form.
decode-short :
    (fuel : ℕ) (buffer : List ℕ) (buf_pos max_buf_pos n depth : ℕ)
    → Holds buffer buf_pos (n ∷ [])
    → n < 128
    → buf_pos + 1 + n ≤ max_buf_pos
    → decode_length_recursive (suc fuel) buffer buf_pos max_buf_pos depth ≡ ok (buf_pos + 1, n)
unfolding decode_length_recursive within_bounds
decode-short fuel buffer buf_pos max_buf_pos n depth h small fits =
    ground (arith, Holds-read buffer buf_pos n [] h, top_bit n)

decode-long :
    (fuel : ℕ) (buffer : List ℕ) (buf_pos max_buf_pos len1 depth p n : ℕ) (bs : List ℕ)
    → Holds buffer buf_pos (len1 ∷ bs)
    → (bit_and len1 0x80 == 0) ≡ false
    → (bit_and len1 0x7f == 0) ≡ false
    → buf_pos < max_buf_pos
    → long_form (bit_and len1 0x7f) buffer (buf_pos + 1) max_buf_pos 0 ≡ ok (p, n)
    → p + n ≤ max_buf_pos
    → decode_length_recursive (suc fuel) buffer buf_pos max_buf_pos depth ≡ ok (p, n)
unfolding decode_length_recursive within_bounds
decode-long fuel buffer buf_pos max_buf_pos len1 depth p n bs h e1 e2 before long fits =
    ground (arith, Holds-read buffer buf_pos len1 bs h)

-- The octets of the long form, read one after the other.
value_of : ℕ → List ℕ → ℕ
value_of length [] = length
value_of length (b ∷ bs) = value_of (length * 256 + b) bs

value_of-ge : (length : ℕ) (bs : List ℕ) → length ≤ value_of length bs
unfolding value_of
value_of-ge length [] = omega arith
value_of-ge length (b ∷ bs) = omega (arith, value_of-ge (length * 256 + b) bs)

long_form-value :
    (bs : List ℕ) (buffer : List ℕ) (buf_pos max_buf_pos n : ℕ)
    → Holds buffer buf_pos bs
    → value_of n bs < 2 ^ 31
    → buf_pos + length bs + value_of n bs ≤ max_buf_pos
    → long_form (length bs) buffer buf_pos max_buf_pos n ≡ ok (buf_pos + length bs, value_of n bs)
unfolding value_of
long_form-value [] buffer buf_pos max_buf_pos n h small fits =
    let e : buf_pos ≡ buf_pos + 0 = omega arith in unfold long_form in ap (λ (p : ℕ). ok (p, n)) e
long_form-value (b ∷ bs) buffer buf_pos max_buf_pos n h small fits =
    let ge = value_of-ge (n * 256 + b) bs in
    let e : buf_pos + 1 + length bs ≡ buf_pos + suc (length bs) = omega arith in
    long_form-suc (length bs) buffer buf_pos max_buf_pos n b bs h (omega arith) (omega arith)
      (omega arith)
    ∙ long_form-value bs buffer (buf_pos + 1) max_buf_pos (n * 256 + b)
        (Holds-tail buffer buf_pos b bs h) small (omega arith)
    ∙ ap (λ (p : ℕ). ok (p, value_of (n * 256 + b) bs)) e

-- `0x80 + length bs` in front of the octets `bs`.
decode-octets :
    (fuel : ℕ) (buffer : List ℕ) (buf_pos max_buf_pos len1 n depth : ℕ) (bs : List ℕ)
    → Holds buffer buf_pos (len1 ∷ bs)
    → (bit_and len1 0x80 == 0) ≡ false
    → bit_and len1 0x7f ≡ length bs
    → 1 ≤ length bs
    → value_of 0 bs ≡ n
    → n < 2 ^ 31
    → buf_pos + length (len1 ∷ bs) + n ≤ max_buf_pos
    → decode_length_recursive (suc fuel) buffer buf_pos max_buf_pos depth
      ≡ ok (buf_pos + length (len1 ∷ bs), n)
decode-octets fuel buffer buf_pos max_buf_pos len1 n depth bs h top low some_bytes value small
      fits =
    let e : buf_pos + 1 + length bs ≡ buf_pos + suc (length bs) = omega arith in
    decode-long fuel buffer buf_pos max_buf_pos len1 depth (buf_pos + suc (length bs)) n bs h top
      (ground arith) (omega arith)
      (rw low (
        long_form-value bs buffer (buf_pos + 1) max_buf_pos 0 (Holds-tail buffer buf_pos len1 bs h)
          (omega arith) (omega arith)
        ∙ rw (e, value)))
      (omega arith)

-- Where an array holds the length octets of a number below 2 ^ 24 whose contents end inside the
-- bound, the decoder returns that number and the position behind the octets.
pub decode_length-octets :
    (buffer : List ℕ) (buf_pos max_buf_pos n : ℕ)
    → Holds buffer buf_pos (length_octets n)
    → n < 2 ^ 24
    → buf_pos + length (length_octets n) + n ≤ max_buf_pos
    → decode_length buffer buf_pos max_buf_pos ≡ ok (buf_pos + length (length_octets n), n)
unfolding length_octets decode_length value_of
decode_length-octets buffer buf_pos max_buf_pos n h small fits =
    rw (add-one (2 * max_buf_pos)) (elim (Bool-cases (ltb n 128)) [
      | inl a ↦ rw a (
          decode-short (2 * max_buf_pos) buffer buf_pos max_buf_pos n 0 (rw a at h) (ground arith)
            (rw a at fits))
      | inr a ↦ elim (Bool-cases (ltb n 256)) [
        | inl b ↦
            rw (a, b)
              (decode-octets (2 * max_buf_pos) buffer buf_pos max_buf_pos 0x81 n 0 (n ∷ [])
                (rw (a, b) at h) refl refl (omega arith) (omega arith) (omega arith)
                (rw (a, b) at fits))
        | inr b ↦ elim (Bool-cases (ltb n 65535)) [
          | inl d ↦
              rw (a, b, d)
                (decode-octets (2 * max_buf_pos) buffer buf_pos max_buf_pos 0x82 n 0
                  (n / 256 ∷ n % 256 ∷ []) (rw (a, b, d) at h) refl refl (omega arith) (omega arith)
                  (omega arith) (rw (a, b, d) at fits))
          | inr d ↦
              rw (a, b, d)
                (decode-octets (2 * max_buf_pos) buffer buf_pos max_buf_pos 0x83 n 0
                  (n / 65536 % 256 ∷ n % 65536 / 256 ∷ n % 256 ∷ []) (rw (a, b, d) at h) refl refl
                  (omega arith) (omega arith) (omega arith) (rw (a, b, d) at fits))
        ]
      ]
    ])
