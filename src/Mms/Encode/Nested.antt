-- ===== src/Mms/Encode/Nested.antt =====
-- The nesting of the BER encoding that mms/iso_mms/server/mms_access_result.cc writes, against the
-- length octets of X.690, 8.1.3.
use grid_goose_sv.Prelude.{
  ℕ, ◌+◌, ◌*◌, ◌/◌, ◌%◌, ◌^◌, ◌≤◌, ◌<◌, ◌≡◌, refl, arith, List, [], ◌∷◌, ◌++◌, length, take,
  reverse, length-append, All, ltb, lt→ltb, true, false, if◌then◌else◌,
}
use native.Mathlib.Decide.{dec_lt}
use grid_goose_sv.Memory.{Writes}
use grid_goose_sv.Ber.Length.{length_octets}
use grid_goose_sv.Ber.Encoder.BitString.{bit_string_contents}
use grid_goose_sv.Ber.Encoder.Integers.{uint32_octets}
use grid_goose_sv.Ber.Encoder.Strings.{tlv, characters}
use grid_goose_sv.Mms.Value.{string_of, MmsValue, Components}
use grid_goose_sv.Mms.Encode.{encode_mms_data}
use grid_goose_sv.Mms.Encode.Octets.{mms_octets, components_octets, WellSized}
use grid_goose_sv.Mms.Encode.Laws.{encode_mms_data-octets}

-- A number with its highest octet first, behind what has been read of it.
abbrev pub big_endian : ℕ → List ℕ → ℕ
big_endian n [] = n
big_endian n (b ∷ bs) = big_endian (n * 256 + b) bs

-- The octets announce a length: one octet below 128, or the number of the octets behind it.
pub data Announces (n : ℕ) : List ℕ → Type 0 where
  short_form : n < 128 → Announces n (n ∷ [])
  long_form :
      {bs : List ℕ}
      → length bs < 127
      → All (λ b. b < 256) bs
      → big_endian 0 bs ≡ n
      → Announces n ((128 + length bs) ∷ bs)

length_octets-Announces : (n : ℕ) → n < 2 ^ 24 → Announces n (length_octets n)
unfolding length_octets
length_octets-Announces n h = elim (dec_lt n 128) [
  | yes small ↦ rw (lt→ltb n 128 small) (short_form small)
  | no more ↦
      let no1 : ltb n 128 ≡ false = ground arith in
      elim (dec_lt n 256) [
        | yes one ↦
            let yes1 : ltb n 256 ≡ true = lt→ltb n 256 one in
            rw (no1, yes1) (long_form {bs = n ∷ []} (omega arith) (omega arith) (omega arith))
        | no more1 ↦
            let no2 : ltb n 256 ≡ false = ground arith in
            elim (dec_lt n 65535) [
              | yes two ↦
                  let yes2 : ltb n 65535 ≡ true = lt→ltb n 65535 two in
                  rw (no1, no2, yes2)
                    (long_form {bs = n / 256 ∷ n % 256 ∷ []} (omega arith) (omega arith)
                      (omega arith))
              | no more2 ↦
                  let no3 : ltb n 65535 ≡ false = ground arith in
                  rw (no1, no2, no3)
                    (long_form {bs = n / 65536 % 256 ∷ n % 65536 / 256 ∷ n % 256 ∷ []} (omega arith)
                      (omega arith) (omega arith))
            ]
      ]
]

-- A tag, the length of the contents, and the contents.
pub record IsTlv (tag : ℕ) (contents octets : List ℕ) : Type 0 where
  pub announced : List ℕ
  pub announces : Announces (length contents) announced
  pub parts : octets ≡ tag ∷ (announced ++ contents)

-- The octets of the value are of this form, with its tag and contents, and so are those of all
-- values inside it.
unfoldable mutual
  pub IsNested : MmsValue → Type 0
  IsNested (MmsValue.boolean b) =
      IsTlv 0x83 ((if b then 1 else 0) ∷ []) (mms_octets (MmsValue.boolean b))
  IsNested (MmsValue.structure cs) =
      AllNested cs × IsTlv 0xa2 (components_octets cs) (mms_octets (MmsValue.structure cs))
  IsNested (MmsValue.array cs) =
      AllNested cs × IsTlv 0xa1 (components_octets cs) (mms_octets (MmsValue.array cs))
  IsNested (MmsValue.data_access_error e) =
      IsTlv 0x80 (uint32_octets e) (mms_octets (MmsValue.data_access_error e))
  IsNested (MmsValue.visible_string s size) =
      IsTlv 0x8a (characters (string_of s)) (mms_octets (MmsValue.visible_string s size))
  IsNested (MmsValue.unsigned v) =
      IsTlv 0x86 (take v.size v.octets) (mms_octets (MmsValue.unsigned v))
  IsNested (MmsValue.integer v) =
      IsTlv 0x85 (take v.size v.octets) (mms_octets (MmsValue.integer v))
  IsNested (MmsValue.utc_time t) = IsTlv 0x91 (take 8 t) (mms_octets (MmsValue.utc_time t))
  IsNested (MmsValue.bit_string n bits) =
      IsTlv 0x84 (bit_string_contents n bits) (mms_octets (MmsValue.bit_string n bits))
  IsNested (MmsValue.binary_time n octets) =
      IsTlv 0x8c (take n octets) (mms_octets (MmsValue.binary_time n octets))
  IsNested (MmsValue.octet_string n max_size octets) =
      IsTlv 0x89 (take n octets) (mms_octets (MmsValue.octet_string n max_size octets))
  IsNested (MmsValue.float exponent_width format_width octets) =
      IsTlv 0x87 (exponent_width ∷ reverse (take (format_width / 8) octets))
        (mms_octets (MmsValue.float exponent_width format_width octets))
  IsNested (MmsValue.mms_string s size) =
      IsTlv 0x90 (characters s) (mms_octets (MmsValue.mms_string s size))
  IsNested MmsValue.generalized_time = mms_octets MmsValue.generalized_time ≡ []
  IsNested MmsValue.bcd = mms_octets MmsValue.bcd ≡ []
  IsNested MmsValue.obj_id = mms_octets MmsValue.obj_id ≡ []

  pub AllNested : Components → Type 0
  AllNested Components.nil = Unit
  AllNested (Components.cons v cs) = IsNested v × AllNested cs
  AllNested (Components.null_cons cs) = Unit

tlv_bound : (tag : ℕ) (contents : List ℕ) → length contents ≤ length (tlv tag contents)
tlv_bound tag contents = omega (arith, length-append (length_octets (length contents)) contents)

tlv-IsTlv :
    (tag : ℕ) (contents : List ℕ)
    → length (tlv tag contents) < 2 ^ 24
    → IsTlv tag contents (tlv tag contents)
tlv-IsTlv tag contents h = record {
  announced = length_octets (length contents);
  announces = length_octets-Announces (length contents) (omega (arith, tlv_bound tag contents));
  parts = refl;
}

mutual
  unfolding IsNested AllNested mms_octets components_octets

  nested : (v : MmsValue) → length (mms_octets v) < 2 ^ 24 → IsNested v
  nested (MmsValue.boolean b) h = record {
    announced = 1 ∷ [];
    announces = short_form (omega arith);
    parts = refl;
  }
  nested (MmsValue.structure cs) h =
      (all_nested cs (omega (arith, tlv_bound 0xa2 (components_octets cs))), tlv-IsTlv 0xa2 _ h)
  nested (MmsValue.array cs) h =
      (all_nested cs (omega (arith, tlv_bound 0xa1 (components_octets cs))), tlv-IsTlv 0xa1 _ h)
  nested (MmsValue.data_access_error e) h = tlv-IsTlv 0x80 _ h
  nested (MmsValue.visible_string s size) h = tlv-IsTlv 0x8a _ h
  nested (MmsValue.unsigned v) h = tlv-IsTlv 0x86 _ h
  nested (MmsValue.integer v) h = tlv-IsTlv 0x85 _ h
  nested (MmsValue.utc_time t) h = tlv-IsTlv 0x91 _ h
  nested (MmsValue.bit_string n bits) h = tlv-IsTlv 0x84 _ h
  nested (MmsValue.binary_time n octets) h = tlv-IsTlv 0x8c _ h
  nested (MmsValue.octet_string n max_size octets) h = tlv-IsTlv 0x89 _ h
  nested (MmsValue.float exponent_width format_width octets) h = tlv-IsTlv 0x87 _ h
  nested (MmsValue.mms_string s size) h = tlv-IsTlv 0x90 _ h
  nested MmsValue.generalized_time h = refl
  nested MmsValue.bcd h = refl
  nested MmsValue.obj_id h = refl

  all_nested : (cs : Components) → length (components_octets cs) < 2 ^ 24 → AllNested cs
  all_nested Components.nil h = tt
  all_nested (Components.cons v cs) h =
      let both = length-append (mms_octets v) (components_octets cs) in
      (nested v (omega (arith, both)), all_nested cs (omega (arith, both)))
  all_nested (Components.null_cons cs) h = tt

-- On a value that is `WellSized`, with an encoding shorter than 2 ^ 24 octets, the encoder writes
-- exactly the octets of the nested BER encoding, and is undefined exactly where writing these is; at
-- every level they are the tag, length octets that announce the length of the contents by X.690, and
-- the contents.
pub encode_mms_data-Writes :
    (v : MmsValue)
    → WellSized v
    → length (mms_octets v) < 2 ^ 24
    → Writes (encode_mms_data v) (mms_octets v) × IsNested v
encode_mms_data-Writes v h small = (encode_mms_data-octets v h, nested v small)
