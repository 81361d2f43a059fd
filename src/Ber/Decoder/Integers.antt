-- ===== src/Ber/Decoder/Integers.antt =====
-- The integer decoders of mms/asn1/ber_decode.cc on the octets of the encoders.
use grid_goose_sv.Prelude.{
  ℕ, ◌+◌, ◌-◌, ◌*◌, ◌/◌, ◌%◌, ◌^◌, ◌<◌, ◌≡◌, refl, ap, ◌∙◌, arith, bit_and, List, [], ◌∷◌, length,
  ◌==◌, if◌then◌else◌, All, reverse, true, ok, Bool-cases, inl, inr,
}
use grid_goose_sv.Ber.Bytes.{le_bytes, is_redundant}
use grid_goose_sv.Ber.Bytes.Bits.{top_bit}
use grid_goose_sv.Ber.Bytes.Compress.{trim}
use grid_goose_sv.Ber.Encoder.Integers.{uint32_octets, int32_octets}
use grid_goose_sv.Ber.Decoder.{decode_uint32_loop, decode_uint32, decode_int32}
use grid_goose_sv.Ber.Decoder.Safety.{IsByte}
use grid_goose_sv.Ber.Decoder.RoundTrip.{Holds, Holds-tail, Holds-read}
use native.Mathlib.Nat.{add_assoc, add-zero}

abbrev shift_in : ℕ → ℕ → ℕ
shift_in value b = (value * 256 % 2 ^ 32 + b) % 2 ^ 32

-- The 32-bit word after all octets are shifted in.
pub shift_all : ℕ → List ℕ → ℕ
shift_all value [] = value
shift_all value (b ∷ bs) = shift_all (shift_in value b) bs

-- The word that a sign bit extends to.
abbrev pub sign_word : ℕ → ℕ
sign_word b = if bit_and b 0x80 == 0x80 then 2 ^ 32 - 1 else 0

decode_loop-shift_all :
    (bs : List ℕ) (i value : ℕ) (buffer : List ℕ) (buf_pos : ℕ)
    → Holds buffer (buf_pos + i) bs
    → decode_uint32_loop (length bs) i value buffer buf_pos ≡ ok (shift_all value bs)
unfolding decode_uint32_loop shift_all
decode_loop-shift_all [] i value buffer buf_pos h = refl
decode_loop-shift_all (b ∷ bs) i value buffer buf_pos h =
    rw (Holds-read buffer (buf_pos + i) b bs h) (
      decode_loop-shift_all bs (i + 1) (shift_in value b) buffer buf_pos
        (rw (← add_assoc buf_pos i 1) (Holds-tail buffer (buf_pos + i) b bs h)))

redundant_sign :
    (b0 b1 : ℕ)
    → b0 < 256
    → b1 < 256
    → is_redundant b0 b1 ≡ true
    → (sign_word b1 ≡ sign_word b0) × (shift_in (sign_word b0) b0 ≡ sign_word b0)
unfolding is_redundant
redundant_sign b0 b1 h0 h1 e = ground (arith, top_bit b0, top_bit b1)

-- Dropping redundant octets does not change the extended value.
shift_all-trim :
    (b : ℕ) (bs : List ℕ)
    → All IsByte (b ∷ bs)
    → shift_all (sign_word b) (trim (b ∷ bs)) ≡ shift_all (sign_word b) (b ∷ bs)
unfolding trim shift_all
shift_all-trim b [] h = refl
shift_all-trim b (b1 ∷ bs) h = elim (Bool-cases (is_redundant b b1)) [
  | inl e ↦
      let (same, kept) = redundant_sign b b1 h.0 h.1.0 e in
      rw (e, kept) (rw same at (shift_all-trim b1 bs h.1))
  | inr e ↦ rw e
]

-- The first octet that is kept has the same sign.
trim-sign :
    (b : ℕ) (bs : List ℕ)
    → All IsByte (b ∷ bs)
    → (c : ℕ) × (cs : List ℕ) × (trim (b ∷ bs) ≡ c ∷ cs) × (sign_word c ≡ sign_word b)
unfolding trim
trim-sign b [] h = (b, [], refl, refl)
trim-sign b (b1 ∷ bs) h = elim (Bool-cases (is_redundant b b1)) [
  | inl e ↦
      let (c, cs, shape, sign) = trim-sign b1 bs h.1 in
      (c, cs, rw e shape, sign ∙ (redundant_sign b b1 h.0 h.1.0 e).0)
  | inr e ↦ (b, b1 ∷ bs, rw e refl, refl)
]

-- Where an array holds the octets that the encoder writes for an unsigned number below 2 ^ 32,
-- the decoder returns that number.
pub decode_uint32-octets :
    (buffer : List ℕ) (buf_pos v : ℕ)
    → Holds buffer buf_pos (uint32_octets v)
    → v < 2 ^ 32
    → decode_uint32 buffer (length (uint32_octets v)) buf_pos ≡ ok v
unfolding decode_uint32 uint32_octets le_bytes
decode_uint32-octets buffer buf_pos v h small =
    decode_loop-shift_all (uint32_octets v) 0 0 buffer buf_pos (rw (add-zero buf_pos) h)
    ∙ ap ok
        (shift_all-trim 0 (reverse (le_bytes 4 v)) (omega arith) ∙ unfold shift_all in omega arith)

-- Four octets fill the word, whatever it held.
four_octets :
    (s v : ℕ)
    → v < 2 ^ 32
    → shift_all s (v / 256 / 256 / 256 % 256 ∷ v / 256 / 256 % 256 ∷ v / 256 % 256 ∷ v % 256 ∷ [])
      ≡ v
unfolding shift_all
four_octets s v h = omega arith

-- Where an array holds the octets that the encoder writes for a signed number, given by its bit
-- pattern below 2 ^ 32, the decoder returns that number.
pub decode_int32-octets :
    (buffer : List ℕ) (buf_pos v : ℕ)
    → Holds buffer buf_pos (int32_octets v)
    → v < 2 ^ 32
    → decode_int32 buffer (length (int32_octets v)) buf_pos ≡ ok v
unfolding decode_int32 int32_octets le_bytes
decode_int32-octets buffer buf_pos v h small =
    let top = v / 256 / 256 / 256 % 256 in
    let rest : List ℕ = v / 256 / 256 % 256 ∷ v / 256 % 256 ∷ v % 256 ∷ [] in
    let (c, cs, shape, sign) = trim-sign top rest (omega arith) in
    rw (Holds-read buffer buf_pos c cs (rw shape at h), sign)
      (decode_loop-shift_all (int32_octets v) 0 (sign_word top) buffer buf_pos
          (rw (add-zero buf_pos) h)
        ∙ ap ok (shift_all-trim top rest (omega arith) ∙ four_octets (sign_word top) v small))
