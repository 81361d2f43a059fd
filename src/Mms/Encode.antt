-- ===== src/Mms/Encode.antt =====
-- `MmsValue_encodeMmsData` of mms/iso_mms/server/mms_access_result.cc with its helpers for arrays and
-- structures. The flag `encode` selects one of two computations: the size alone (`mms_data_size`), or
-- the octets at the cursor (`encode_mms_data`). A component that is NULL is dereferenced by the code,
-- a fault.
pub mod Octets
pub mod Laws
pub mod Nested
use grid_goose_sv.Prelude.{ℕ, ◌+◌, ◌/◌, ◌%◌, List, length, Bool, Outcome, ok, fault, ◌>>=◌}
use grid_goose_sv.Memory.{Cursor, put}
use grid_goose_sv.Ber.Length.{encode_length, encode_tl, determine_length_size}
use grid_goose_sv.Ber.Encoder.{
  encode_boolean, encode_string_with_tag, encode_asn1_primitive_value, encode_octet_string,
  encode_bit_string, encode_uint32, encode_float, determine_encoded_bit_string_size,
  determine_encoded_string_size, uint32_determine_encoded_size,
}
use grid_goose_sv.Ber.Primitive.{Asn1PrimitiveValue}
use grid_goose_sv.Mms.Value.{string_of, MmsValue, Components}

unfoldable mutual
  -- MmsValue_encodeMmsData with `encode` false
  pub mms_data_size : MmsValue → Outcome ℕ
  mms_data_size (MmsValue.boolean b) = ok 3
  mms_data_size (MmsValue.structure cs) = do
    n ← components_size cs
    ok (1 + n + determine_length_size n)
  mms_data_size (MmsValue.array cs) = do
    n ← components_size cs
    ok (1 + n + determine_length_size n)
  mms_data_size (MmsValue.data_access_error e) = do n ← uint32_determine_encoded_size e; ok (2 + n)
  mms_data_size (MmsValue.visible_string s size) = ok (determine_encoded_string_size (string_of s))
  mms_data_size (MmsValue.unsigned v) = ok (2 + v.size)
  mms_data_size (MmsValue.integer v) = ok (2 + v.size)
  mms_data_size (MmsValue.utc_time t) = ok 10
  mms_data_size (MmsValue.bit_string n bits) = ok (determine_encoded_bit_string_size n)
  mms_data_size (MmsValue.binary_time n octets) = ok (2 + n)
  mms_data_size (MmsValue.octet_string n max_size octets) = ok (1 + determine_length_size n + n)
  mms_data_size (MmsValue.float exponent_width format_width octets) = ok (format_width / 8 + 1 + 2)
  mms_data_size (MmsValue.mms_string s size) = ok (determine_encoded_string_size s)
  mms_data_size MmsValue.generalized_time = ok 0
  mms_data_size MmsValue.bcd = ok 0
  mms_data_size MmsValue.obj_id = ok 0

  -- the loop that adds up the sizes of the components
  pub components_size : Components → Outcome ℕ
  components_size Components.nil = ok 0
  components_size (Components.cons v cs) = do
    n ← mms_data_size v
    rest ← components_size cs
    ok (n + rest)
  components_size (Components.null_cons cs) = fault

unfoldable mutual
  -- MmsValue_encodeMmsData with `encode` true
  pub encode_mms_data : MmsValue → Cursor → Outcome Cursor
  encode_mms_data (MmsValue.boolean b) c = encode_boolean 0x83 b c
  encode_mms_data (MmsValue.structure cs) c = do
    n ← components_size cs
    c1 ← put 0xa2 c
    c2 ← encode_length n c1
    encode_components cs c2
  encode_mms_data (MmsValue.array cs) c = do
    n ← components_size cs
    c1 ← put 0xa1 c
    c2 ← encode_length n c1
    encode_components cs c2
  encode_mms_data (MmsValue.data_access_error e) c = do
    n ← uint32_determine_encoded_size e
    c1 ← encode_tl 0x80 n c
    encode_uint32 e c1
  encode_mms_data (MmsValue.visible_string s size) c = encode_string_with_tag 0x8a (string_of s) c
  encode_mms_data (MmsValue.unsigned v) c = encode_asn1_primitive_value 0x86 v c
  encode_mms_data (MmsValue.integer v) c = encode_asn1_primitive_value 0x85 v c
  encode_mms_data (MmsValue.utc_time t) c = encode_octet_string 0x91 t 8 c
  encode_mms_data (MmsValue.bit_string n bits) c = encode_bit_string 0x84 n bits c
  encode_mms_data (MmsValue.binary_time n octets) c = encode_octet_string 0x8c octets n c
  encode_mms_data (MmsValue.octet_string n max_size octets) c = encode_octet_string 0x89 octets n c
  encode_mms_data (MmsValue.float exponent_width format_width octets) c = do
    c1 ← encode_tl 0x87 (format_width / 8 + 1) c
    encode_float octets format_width exponent_width c1
  encode_mms_data (MmsValue.mms_string s size) c = encode_string_with_tag 0x90 s c
  encode_mms_data MmsValue.generalized_time c = ok c
  encode_mms_data MmsValue.bcd c = ok c
  encode_mms_data MmsValue.obj_id c = ok c

  -- the loop that encodes the components
  pub encode_components : Components → Cursor → Outcome Cursor
  encode_components Components.nil c = ok c
  encode_components (Components.cons v cs) c = do c1 ← encode_mms_data v c; encode_components cs c1
  encode_components (Components.null_cons cs) c = fault
