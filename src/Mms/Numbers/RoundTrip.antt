-- ===== src/Mms/Numbers/RoundTrip.antt =====
-- MmsValue_newIntegerFromInt32 and MmsValue_toInt64 of mms/iso_mms/common/mms_value.cc, and the
-- encoding of what the first one makes.
use grid_goose_sv.Prelude.{
  ℕ, ◌+◌, ◌-◌, ◌/◌, ◌%◌, ◌^◌, ◌<◌, ◌≡◌, refl, ap, arith, List, [], ◌∷◌, take-append, ltb, length,
  length-append, subst, if◌then◌else◌, ok,
}
use grid_goose_sv.Ber.Bytes.{le_bytes}
use grid_goose_sv.Ber.Bytes.Bits.{top_bit}
use grid_goose_sv.Ber.Encoder.Integers.{int32_octets}
use grid_goose_sv.Ber.Encoder.Strings.{tlv}
use grid_goose_sv.Ber.Integer.{to_int64, sign_extension}
use grid_goose_sv.Ber.Integer.RoundTrip.{word_of, signed_read, to_int32-create_from_int32}
use grid_goose_sv.Mms.Value.{MmsValue}
use grid_goose_sv.Mms.Numbers.{new_integer_from_int32, value_to_int64}
use grid_goose_sv.Memory.{Writes}
use grid_goose_sv.Ber.Primitive.{Asn1PrimitiveValue}
use grid_goose_sv.Ber.Bytes.Compress.{length-trim}
use grid_goose_sv.Ber.Integer.RoundTrip.{IsStored}
use grid_goose_sv.Mms.Encode.{encode_mms_data}
use grid_goose_sv.Mms.Encode.Octets.{mms_octets, WellSized}
use grid_goose_sv.Mms.Encode.Laws.{encode_mms_data-octets}

-- A bit pattern of 32 bits, extended to 64 bits with its sign.
abbrev pub extended : ℕ → ℕ
extended v = if ltb v (2 ^ 31) then v else v + (2 ^ 64 - 2 ^ 32)

extended_word :
    (v : ℕ)
    → v < 2 ^ 32
    → word_of 64
        (sign_extension 64 (v / 256 / 256 / 256 % 256))
        (v / 256 / 256 / 256 % 256 ∷ v / 256 / 256 % 256 ∷ v / 256 % 256 ∷ v % 256 ∷ [])
      ≡ extended v
unfolding word_of sign_extension
extended_word v h = ground (arith, top_bit (v / 256 / 256 / 256 % 256))

-- The octets of a number in the value that is made of it.
stored-WellSized :
    (v : ℕ) (p : Asn1PrimitiveValue)
    → IsStored (int32_octets v) p
    → length (int32_octets v) < 128
    → WellSized (MmsValue.integer p) × (mms_octets (MmsValue.integer p) ≡ tlv 0x85 (int32_octets v))
unfolding WellSized mms_octets
stored-WellSized v p s short =
    let (rest, front) = s.octets in
    let long = ap length front in
    (
      (omega (arith, s.size, long, length-append (int32_octets v) rest), omega (arith, s.size)),
      ap (tlv 0x85) (rw (s.size, front) (take-append _ rest)),
    )

short_octets : (v : ℕ) → length (int32_octets v) < 128
unfolding int32_octets le_bytes
short_octets v = omega (arith, length-trim _ _)

-- A signed number of 32 bits becomes a value that the encoder writes as an INTEGER with the octets of
-- the number, and that is read as a number of 64 bits with the same sign and value.
pub value_to_int64-new_integer_from_int32 :
    (v : ℕ)
    → v < 2 ^ 32
    → (m : MmsValue) × (new_integer_from_int32 v ≡ ok m)
      × Writes (encode_mms_data m) (tlv 0x85 (int32_octets v))
      × (value_to_int64 m ≡ ok (extended v))
unfolding new_integer_from_int32 value_to_int64 to_int64
value_to_int64-new_integer_from_int32 v small =
    let (p, run, s, read_back) = to_int32-create_from_int32 v small in
    let top = v / 256 / 256 / 256 % 256 in
    let low : List ℕ = v / 256 / 256 % 256 ∷ v / 256 % 256 ∷ v % 256 ∷ [] in
    let (c, first, loop) =
      signed_read 64 top low p (omega arith) (omega arith) (unfold int32_octets le_bytes in s) in
    let (sized, octets) = stored-WellSized v p s (short_octets v) in
    (
      MmsValue.integer p,
      rw run refl,
      subst (Writes (encode_mms_data (MmsValue.integer p))) octets
          (encode_mms_data-octets (MmsValue.integer p) sized),
      rw (first, loop) (ap ok (extended_word v small)),
    )
