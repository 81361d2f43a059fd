-- ===== src/Mms/Encode/Octets.antt =====
-- The BER encoding of a value of mms/iso_mms/server/mms_access_result.cc as a list of octets, and
-- the sizes at which the code reserves as much.
use grid_goose_sv.Prelude.{
  ℕ, ◌+◌, ◌/◌, ◌≤◌, ◌<◌, ◌≢◌, ◌≡◌, List, [], ◌∷◌, ◌++◌, length, take, reverse, if◌then◌else◌,
}
use grid_goose_sv.Ber.Length.{length_octets, determine_length_size}
use grid_goose_sv.Ber.Encoder.{bit_string_bytes}
use grid_goose_sv.Ber.Encoder.Integers.{uint32_octets}
use grid_goose_sv.Ber.Encoder.Strings.{tlv, characters}
use grid_goose_sv.Ber.Encoder.BitString.{bit_string_contents}
use grid_goose_sv.Mms.Value.{string_of, MmsValue, Components}

unfoldable mutual
  pub mms_octets : MmsValue → List ℕ
  mms_octets (MmsValue.boolean b) = 0x83 ∷ 1 ∷ (if b then 1 else 0) ∷ []
  mms_octets (MmsValue.structure cs) = tlv 0xa2 (components_octets cs)
  mms_octets (MmsValue.array cs) = tlv 0xa1 (components_octets cs)
  mms_octets (MmsValue.data_access_error e) = tlv 0x80 (uint32_octets e)
  mms_octets (MmsValue.visible_string s size) = tlv 0x8a (characters (string_of s))
  mms_octets (MmsValue.unsigned v) = tlv 0x86 (take v.size v.octets)
  mms_octets (MmsValue.integer v) = tlv 0x85 (take v.size v.octets)
  mms_octets (MmsValue.utc_time t) = tlv 0x91 (take 8 t)
  mms_octets (MmsValue.bit_string n bits) = tlv 0x84 (bit_string_contents n bits)
  mms_octets (MmsValue.binary_time n octets) = tlv 0x8c (take n octets)
  mms_octets (MmsValue.octet_string n max_size octets) = tlv 0x89 (take n octets)
  mms_octets (MmsValue.float exponent_width format_width octets) =
      tlv 0x87 (exponent_width ∷ reverse (take (format_width / 8) octets))
  mms_octets (MmsValue.mms_string s size) = tlv 0x90 (characters s)
  mms_octets MmsValue.generalized_time = []
  mms_octets MmsValue.bcd = []
  mms_octets MmsValue.obj_id = []

  pub components_octets : Components → List ℕ
  components_octets Components.nil = []
  components_octets (Components.cons v cs) = mms_octets v ++ components_octets cs
  components_octets (Components.null_cons cs) = []

-- The lengths at which the reserved size differs from the encoding are excluded: 65535 of any
-- contents, and for a bit string the byte counts before which one more octet takes a longer form.
-- The arrays hold what their sizes say, and the fixed-size types have short lengths.
unfoldable mutual
  pub WellSized : MmsValue → Type 0
  WellSized (MmsValue.boolean b) = Unit
  WellSized (MmsValue.structure cs) =
      ComponentsWellSized cs × (length (components_octets cs) ≢ 65535)
  WellSized (MmsValue.array cs) = ComponentsWellSized cs × (length (components_octets cs) ≢ 65535)
  WellSized (MmsValue.data_access_error e) = Unit
  WellSized (MmsValue.visible_string s size) = length (characters (string_of s)) ≢ 65535
  WellSized (MmsValue.unsigned v) = (v.size ≤ length v.octets) × (v.size < 128)
  WellSized (MmsValue.integer v) = (v.size ≤ length v.octets) × (v.size < 128)
  WellSized (MmsValue.utc_time t) = 8 ≤ length t
  WellSized (MmsValue.bit_string n bits) =
      (bit_string_bytes n ≤ length bits)
      × (length (length_octets (bit_string_bytes n + 1))
          ≡ determine_length_size (bit_string_bytes n))
  WellSized (MmsValue.binary_time n octets) = (n ≤ length octets) × (n < 128)
  WellSized (MmsValue.octet_string n max_size octets) = (n ≤ length octets) × (n ≢ 65535)
  WellSized (MmsValue.float exponent_width format_width octets) =
      (format_width / 8 ≤ length octets) × (format_width / 8 < 127)
  WellSized (MmsValue.mms_string s size) = length (characters s) ≢ 65535
  WellSized MmsValue.generalized_time = Unit
  WellSized MmsValue.bcd = Unit
  WellSized MmsValue.obj_id = Unit

  -- No component is NULL.
  pub ComponentsWellSized : Components → Type 0
  ComponentsWellSized Components.nil = Unit
  ComponentsWellSized (Components.cons v cs) = WellSized v × ComponentsWellSized cs
  ComponentsWellSized (Components.null_cons cs) = ⊥
