-- ===== src/Mms/Encode/Laws.antt =====
-- `MmsValue_encodeMmsData` of mms/iso_mms/server/mms_access_result.cc and the octets of a value.
use grid_goose_sv.Prelude.{
  ℕ, ◌+◌, ◌/◌, ◌≤◌, ◌<◌, ◌≡◌, ◌≢◌, refl, sym, ap, ◌∙◌, arith, List, [], ◌∷◌, ◌++◌, length, take,
  reverse, Outcome, ok, ◌>>=◌, length-append, length-take,
}
use grid_goose_sv.Memory.{Cursor, put, put_all, Writes, Writes-then, put-Writes}
use grid_goose_sv.Ber.Length.{
  encode_length, encode_tl, length_octets, determine_length_size, encode_length-Writes,
}
use grid_goose_sv.Ber.Encoder.{
  bit_string_bytes, determine_encoded_bit_string_size, encode_uint32, encode_float,
}
use grid_goose_sv.Ber.Encoder.Integers.{
  uint32_octets, uint32_determine_encoded_size_lem, encode_uint32-Writes, length-uint32_octets,
}
use grid_goose_sv.Ber.Encoder.Strings.{
  tlv, length-tlv, encode_tl-Writes, encode_boolean-Writes, encode_string_with_tag-Writes,
  encode_octet_string-Writes, encode_asn1_primitive_value-Writes, string_size,
}
use grid_goose_sv.Ber.Encoder.BitString.{
  bit_string_contents, length-bit_string_contents, encode_bit_string-Writes,
}
use grid_goose_sv.Ber.Encoder.Floats.{encode_float-Writes, length-reverse}
use grid_goose_sv.Mms.Value.{string_of, MmsValue, Components}
use grid_goose_sv.Mms.Encode.{mms_data_size, components_size, encode_mms_data, encode_components}
use grid_goose_sv.Mms.Encode.Octets.{mms_octets, components_octets, WellSized, ComponentsWellSized}

short_length : (n : ℕ) → n < 128 → determine_length_size n ≡ 1
unfolding determine_length_size
short_length n h = ground arith

take_all : (n : ℕ) (xs : List ℕ) → n ≤ length xs → length (take n xs) ≡ n
take_all n xs h = omega (arith, length-take n xs)

-- Contents given by a count and an array.
tlv-take :
    (tag n : ℕ) (xs : List ℕ)
    → n ≤ length xs
    → tag ∷ (length_octets n ++ take n xs) ≡ tlv tag (take n xs)
tlv-take tag n xs h = rw (take_all n xs h)

length-tlv-take :
    (tag n : ℕ) (xs : List ℕ)
    → n ≤ length xs
    → n ≢ 65535
    → length (tlv tag (take n xs)) ≡ 1 + determine_length_size n + n
length-tlv-take tag n xs h k =
    length-tlv tag (take n xs) (rw (take_all n xs h) k) ∙ rw (take_all n xs h)

short_take :
    (tag n : ℕ) (xs : List ℕ) → n ≤ length xs → n < 128 → 2 + n ≡ length (tlv tag (take n xs))
short_take tag n xs h k = omega (arith, length-tlv-take tag n xs h (omega arith), short_length n k)

short_tlv : (tag : ℕ) (xs : List ℕ) → length xs < 128 → length (tlv tag xs) ≡ 2 + length xs
short_tlv tag xs h = omega (arith, length-tlv tag xs (omega arith), short_length (length xs) h)

bit_string_size :
    (n : ℕ) (bits : List ℕ)
    → bit_string_bytes n ≤ length bits
    → length (length_octets (bit_string_bytes n + 1)) ≡ determine_length_size (bit_string_bytes n)
    → determine_encoded_bit_string_size n ≡ length (tlv 0x84 (bit_string_contents n bits))
unfolding determine_encoded_bit_string_size
bit_string_size n bits h e = rw (length-bit_string_contents n bits h) (
    omega (
      arith,
      length-append (length_octets (bit_string_bytes n + 1)) (bit_string_contents n bits),
      length-bit_string_contents n bits h,
    ))

mutual
  unfolding mms_data_size components_size mms_octets components_octets WellSized ComponentsWellSized

  data_size : (v : MmsValue) → WellSized v → mms_data_size v ≡ ok (length (mms_octets v))
  data_size (MmsValue.boolean b) h = refl
  data_size (MmsValue.structure cs) h =
      rw (parts_size cs h.0) (ap ok (omega (arith, length-tlv 0xa2 (components_octets cs) h.1)))
  data_size (MmsValue.array cs) h =
      rw (parts_size cs h.0) (ap ok (omega (arith, length-tlv 0xa1 (components_octets cs) h.1)))
  data_size (MmsValue.data_access_error e) h =
      rw (uint32_determine_encoded_size_lem e)
        (ap ok (omega (arith, short_tlv 0x80 (uint32_octets e), length-uint32_octets e)))
  data_size (MmsValue.visible_string s size) h = ap ok (string_size 0x8a (string_of s) h)
  data_size (MmsValue.unsigned v) h = ap ok (short_take 0x86 v.size v.octets h.0 h.1)
  data_size (MmsValue.integer v) h = ap ok (short_take 0x85 v.size v.octets h.0 h.1)
  data_size (MmsValue.utc_time t) h = ap ok (short_take 0x91 8 t h (omega arith))
  data_size (MmsValue.bit_string n bits) h = ap ok (bit_string_size n bits h.0 h.1)
  data_size (MmsValue.binary_time n octets) h = ap ok (short_take 0x8c n octets h.0 h.1)
  data_size (MmsValue.octet_string n max_size octets) h =
      ap ok (sym (length-tlv-take 0x89 n octets h.0 h.1))
  data_size (MmsValue.float exponent_width format_width octets) h = ap ok (
      omega (
        arith,
        short_tlv 0x87 (exponent_width ∷ reverse (take (format_width / 8) octets)),
        length-reverse (take (format_width / 8) octets),
        take_all (format_width / 8) octets h.0,
      ))
  data_size (MmsValue.mms_string s size) h = ap ok (string_size 0x90 s h)
  data_size MmsValue.generalized_time h = refl
  data_size MmsValue.bcd h = refl
  data_size MmsValue.obj_id h = refl

  parts_size :
      (cs : Components)
      → ComponentsWellSized cs
      → components_size cs ≡ ok (length (components_octets cs))
  parts_size Components.nil h = refl
  parts_size (Components.cons v cs) h =
      rw (data_size v h.0, parts_size cs h.1)
        (ap ok (sym (length-append (mms_octets v) (components_octets cs))))
  parts_size (Components.null_cons cs) h = absurd h

-- On a value that is `WellSized`, the pass that only adds up sizes gives the number of octets
-- of the encoding.
pub mms_data_size-octets :
    (v : MmsValue) → WellSized v → mms_data_size v ≡ ok (length (mms_octets v))
mms_data_size-octets v h = data_size v h

-- A constructed value: tag, length octets, then whatever writes the contents.
constructed-Writes :
    (tag : ℕ) (w : Cursor → Outcome Cursor) (contents : List ℕ)
    → Writes w contents
    → Writes (λ c. put tag c >>= λ d. encode_length (length contents) d >>= w) (tlv tag contents)
constructed-Writes tag w contents h =
    Writes-then (put tag) (λ d. encode_length (length contents) d >>= w) (tag ∷ [])
      (length_octets (length contents) ++ contents) (put-Writes tag)
      (Writes-then (encode_length (length contents)) w (length_octets (length contents)) contents
        (encode_length-Writes (length contents)) h)

nothing-Writes : Writes ok []
nothing-Writes c = unfold put_all in refl

-- An encoder of a header that is followed by its contents.
headed-Writes :
    (tag n : ℕ) (w : Cursor → Outcome Cursor) (contents : List ℕ)
    → length contents ≡ n
    → Writes w contents
    → Writes (λ c. encode_tl tag n c >>= w) (tlv tag contents)
headed-Writes tag n w contents e h = rw (← e) (
    Writes-then (encode_tl tag (length contents)) w (tag ∷ length_octets (length contents)) contents
      (encode_tl-Writes tag (length contents)) h)

mutual
  unfolding encode_mms_data encode_components mms_octets components_octets WellSized
      ComponentsWellSized

  data_Writes : (v : MmsValue) → WellSized v → Writes (encode_mms_data v) (mms_octets v)
  data_Writes (MmsValue.boolean b) h c = encode_boolean-Writes 0x83 b c
  data_Writes (MmsValue.structure cs) h c = rw (parts_size cs h.0) (
      constructed-Writes 0xa2 (encode_components cs) (components_octets cs) (parts_Writes cs h.0) c)
  data_Writes (MmsValue.array cs) h c = rw (parts_size cs h.0) (
      constructed-Writes 0xa1 (encode_components cs) (components_octets cs) (parts_Writes cs h.0) c)
  data_Writes (MmsValue.data_access_error e) h c = rw (uint32_determine_encoded_size_lem e) (
      headed-Writes 0x80 (length (uint32_octets e)) (encode_uint32 e) (uint32_octets e) refl
        (encode_uint32-Writes e) c)
  data_Writes (MmsValue.visible_string s size) h c =
      encode_string_with_tag-Writes 0x8a (string_of s) c
  data_Writes (MmsValue.unsigned v) h c =
      encode_asn1_primitive_value-Writes 0x86 v h.0 c
      ∙ ap (λ t. put_all t c) (tlv-take 0x86 v.size v.octets h.0)
  data_Writes (MmsValue.integer v) h c =
      encode_asn1_primitive_value-Writes 0x85 v h.0 c
      ∙ ap (λ t. put_all t c) (tlv-take 0x85 v.size v.octets h.0)
  data_Writes (MmsValue.utc_time t) h c =
      encode_octet_string-Writes 0x91 8 t h c ∙ ap (λ t. put_all t c) (tlv-take 0x91 8 t h)
  data_Writes (MmsValue.bit_string n bits) h c =
      encode_bit_string-Writes 0x84 n bits h.0 c
      ∙ ap (λ (k : ℕ). put_all (0x84 ∷ (length_octets k ++ bit_string_contents n bits)) c)
          (sym (length-bit_string_contents n bits h.0))
  data_Writes (MmsValue.binary_time n octets) h c =
      encode_octet_string-Writes 0x8c n octets h.0 c
      ∙ ap (λ t. put_all t c) (tlv-take 0x8c n octets h.0)
  data_Writes (MmsValue.octet_string n max_size octets) h c =
      encode_octet_string-Writes 0x89 n octets h.0 c
      ∙ ap (λ t. put_all t c) (tlv-take 0x89 n octets h.0)
  data_Writes (MmsValue.float exponent_width format_width octets) h c =
      headed-Writes 0x87 (format_width / 8 + 1) (encode_float octets format_width exponent_width)
        (exponent_width ∷ reverse (take (format_width / 8) octets))
        (omega (
          arith,
          length-reverse (take (format_width / 8) octets),
          take_all (format_width / 8) octets h.0,
        ))
        (encode_float-Writes octets format_width exponent_width h.0) c
  data_Writes (MmsValue.mms_string s size) h c = encode_string_with_tag-Writes 0x90 s c
  data_Writes MmsValue.generalized_time h c = nothing-Writes c
  data_Writes MmsValue.bcd h c = nothing-Writes c
  data_Writes MmsValue.obj_id h c = nothing-Writes c

  parts_Writes :
      (cs : Components)
      → ComponentsWellSized cs
      → Writes (encode_components cs) (components_octets cs)
  parts_Writes Components.nil h c = nothing-Writes c
  parts_Writes (Components.cons v cs) h c =
      Writes-then (encode_mms_data v) (encode_components cs) (mms_octets v) (components_octets cs)
        (data_Writes v h.0) (parts_Writes cs h.1) c
  parts_Writes (Components.null_cons cs) h c = absurd h

-- The encoder writes exactly the octets of a value that is `WellSized`, and is undefined exactly
-- where writing them is.
pub encode_mms_data-octets :
    (v : MmsValue) → WellSized v → Writes (encode_mms_data v) (mms_octets v)
encode_mms_data-octets v h = data_Writes v h
