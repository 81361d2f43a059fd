-- ===== src/Examples.antt =====
-- The theorems at concrete inputs: a publisher as the application sets it up, and bytes as they
-- stand in a frame.
pub mod Samples
pub mod Receiver
pub mod Sequence
pub mod Subscriber
pub mod Application
pub mod Common
pub mod SvApplication
use grid_goose_sv.Prelude.{
  ℕ, ◌+◌, ◌-◌, ◌/◌, ◌<◌, ◌^◌, ◌≡◌, ◌≢◌, refl, arith, List, [], ◌∷◌, ◌++◌, length, take, drop,
  replicate, length-replicate, reverse, true, false, ltb, if◌then◌else◌, Option, none, some, ok,
  failed, Ensures,
}
use grid_goose_sv.Memory.{Writes, Cursor, put_all}
use grid_goose_sv.Ber.Length.{length_octets, determine_length_size, length-length_octets}
use grid_goose_sv.Ber.Bytes.{revert_byte_order, compress_integer, le_bytes, is_redundant}
use grid_goose_sv.Ber.Bytes.Revert.{revert_byte_order-eq-reverse}
use grid_goose_sv.Ber.Bytes.Compress.{trim, compress_integer-trim}
use grid_goose_sv.Ber.Encoder.{
  bit_string_bytes, encode_bit_string, encode_float, encode_uint32_with_tl, encode_int32,
  uint32_determine_encoded_size, determine_encoded_string_size,
}
use grid_goose_sv.Ber.Encoder.Integers.{
  uint32_octets, int32_octets, encode_uint32_with_tl-Writes, encode_int32-Writes,
  uint32_determine_encoded_size_lem,
}
use grid_goose_sv.Ber.Encoder.Strings.{tlv, characters, string_size}
use grid_goose_sv.Ber.Encoder.BitString.{
  bit_string_contents, clear_last, padding_bits, encode_bit_string-Writes,
}
use grid_goose_sv.Ber.Encoder.Floats.{encode_float-Writes}
use grid_goose_sv.Ber.Decoder.{decode_length, decode_uint32, decode_int32}
use grid_goose_sv.Ber.Decoder.Safety.{InBounds, decode_length-InBounds}
use grid_goose_sv.Ber.Decoder.RoundTrip.{decode_length-octets}
use grid_goose_sv.Ber.Decoder.Integers.{decode_uint32-octets, decode_int32-octets}
use grid_goose_sv.Mms.Value.{MmsValue, Components}
use grid_goose_sv.Mms.BitString.{set_bit_string_bit, get_bit_string_bit}
use grid_goose_sv.Mms.BitString.Bits.{get-set_bit_string_bit}
use grid_goose_sv.Mms.BitString.{set_bit_string_from_integer, get_bit_string_as_integer}
use grid_goose_sv.Mms.BitString.Integer.{get-set_bit_string_from_integer}
use grid_goose_sv.Prelude.{◌==◌}
use grid_goose_sv.Mms.UtcTime.{set_utc_time_ms, get_utc_time_in_ms, get_utc_time_in_ms-set}
use grid_goose_sv.Mms.Encode.{mms_data_size, encode_mms_data}
use grid_goose_sv.Mms.Encode.Octets.{mms_octets, components_octets, WellSized}
use grid_goose_sv.Mms.Encode.Laws.{mms_data_size-octets}
use grid_goose_sv.Mms.Encode.Nested.{IsNested, encode_mms_data-Writes}
use grid_goose_sv.Goose.Publisher.{
  GoosePublisher, CommParameters, goose_max_message_size, create_goose_payload, publish, create_ex,
  go_id_or_cb_ref,
}
use grid_goose_sv.Goose.Publisher.Payload.{
  IsPublishable, EntriesWellSized, goose_pdu, pdu_fields, data_set_octets, create_goose_payload-pdu,
}
use grid_goose_sv.Goose.Publisher.Publish.{
  HasFrame, header_with_length, published, publish-published, publish-HasFrame,
}
use grid_goose_sv.Goose.Publisher.Create.{header_octets, create_ex-HasFrame}

-- Lengths below 1000 raise none of the exceptions.
short : (n : ℕ) → ltb n 1000 ≡ true → n ≢ 65535
short n h e = absurd (ground arith)

short-lt : (n : ℕ) → ltb n 1000 ≡ true → n < 2 ^ 32
short-lt n h = ground arith

abbrev empty_buffer : Cursor
empty_buffer = record { buffer = replicate 64 0; pos = 3 }

-- The structure of a Boolean and a bit string of 13 bits.
abbrev sample_value : MmsValue
sample_value = MmsValue.structure (
    Components.cons (MmsValue.boolean true)
      (Components.cons (MmsValue.bit_string 13 (0xa5 ∷ 0xff ∷ [])) Components.nil))

sample_value-WellSized : WellSized sample_value
unfolding WellSized components_octets mms_octets bit_string_bytes bit_string_contents length_octets
    determine_length_size clear_last padding_bits
sample_value-WellSized = ((tt, ((omega arith, refl), tt)), short _ refl)

abbrev sample_set : List (Option MmsValue)
sample_set = some (MmsValue.boolean true) ∷ none ∷ some sample_value ∷ []

abbrev sample_publisher : GoosePublisher
sample_publisher = record {
  buffer = replicate 1518 0;
  length_field = 20;
  payload_start = 26;
  payload_length = some 0;
  go_id = none;
  go_cb_ref = some (0x69 ∷ 0x65 ∷ 0x64 ∷ []);
  data_set_ref = some (0x64 ∷ 0x73 ∷ []);
  conf_rev = 1;
  st_num = 7;
  sq_num = 4294967295;
  time_allowed_to_live = 500;
  needs_commission = false;
  simulation = false;
  timestamp = 1 ∷ 2 ∷ 3 ∷ 4 ∷ 5 ∷ 6 ∷ 7 ∷ 0x0a ∷ [];
}

pub sample_publisher-HasFrame : HasFrame sample_publisher
sample_publisher-HasFrame = record {
  allocated = length-replicate {A = ℕ} 1518 0;
  field_at = omega arith;
  header_long = omega arith;
  header_short = omega arith;
}

pub sample_set-IsPublishable : IsPublishable sample_publisher sample_set
unfolding EntriesWellSized data_set_octets mms_octets components_octets pdu_fields goose_pdu
    length_octets go_id_or_cb_ref uint32_octets trim le_bytes is_redundant WellSized
    bit_string_bytes bit_string_contents clear_last padding_bits
sample_set-IsPublishable = record {
  entries = (tt, (sample_value-WellSized, tt));
  time = omega arith;
  cb_ref = short _ refl;
  set_ref = short _ refl;
  id = short _ refl;
  contents = short _ refl;
  total = short _ refl;
  countable = short-lt _ refl;
}

publish-published_example : publish sample_publisher sample_set ≡ (
    if ltb (goose_max_message_size - 26) (length (goose_pdu sample_publisher sample_set))
    then ok (record sample_publisher { payload_length = none }, none)
    else ok (
      published sample_publisher (goose_pdu sample_publisher sample_set),
      some (
          drop 14
            (header_with_length sample_publisher (length (goose_pdu sample_publisher sample_set)))
          ++ goose_pdu sample_publisher sample_set),
    ))
publish-published_example =
    publish-published sample_publisher sample_set sample_publisher-HasFrame sample_set-IsPublishable

publish-HasFrame_example : Ensures (λ r. HasFrame r.0) (publish sample_publisher sample_set)
publish-HasFrame_example =
    publish-HasFrame sample_publisher sample_set sample_publisher-HasFrame sample_set-IsPublishable

create_goose_payload-pdu_example :
    create_goose_payload sample_publisher sample_set 20 empty_buffer ≡ (
      if ltb 20 (length (goose_pdu sample_publisher sample_set))
      then failed
      else put_all (goose_pdu sample_publisher sample_set) empty_buffer)
create_goose_payload-pdu_example =
    create_goose_payload-pdu sample_publisher sample_set 20 empty_buffer sample_set-IsPublishable

abbrev sample_parameters : CommParameters
sample_parameters = record {
  vlan_priority = 4;
  vlan_id = 300;
  app_id = 0x1000;
  dst_address = 0x01 ∷ 0x0c ∷ 0xcd ∷ 0x01 ∷ 0x00 ∷ 0x01 ∷ [];
}

abbrev sample_address : List ℕ
sample_address = 2 ∷ 0 ∷ 0 ∷ 0 ∷ 0 ∷ 9 ∷ []

create_ex-HasFrame_example :
    (self : GoosePublisher) × (create_ex
        (some sample_parameters)
        sample_address
        (replicate 1518 7)
        1000
        true
      ≡ ok self)
    × HasFrame self
    × (take self.payload_start self.buffer ≡ header_octets sample_parameters sample_address true)
    × (self.st_num ≡ 1)
    × (self.sq_num ≡ 0)
create_ex-HasFrame_example =
    create_ex-HasFrame (some sample_parameters) sample_address (replicate 1518 7) 1000 true refl
      refl (length-replicate {A = ℕ} 1518 7)

encode_mms_data-Writes_example :
    Writes (encode_mms_data sample_value) (mms_octets sample_value) × IsNested sample_value
unfolding components_octets mms_octets bit_string_bytes bit_string_contents length_octets
    determine_length_size clear_last padding_bits
encode_mms_data-Writes_example =
    encode_mms_data-Writes sample_value sample_value-WellSized (omega arith)

mms_data_size-octets_example : mms_data_size sample_value ≡ ok (length (mms_octets sample_value))
mms_data_size-octets_example = mms_data_size-octets sample_value sample_value-WellSized

-- An indefinite length with an element inside, and the end marker.
abbrev indefinite_bytes : List ℕ
indefinite_bytes = 0x61 ∷ 0x80 ∷ 0x83 ∷ 0x01 ∷ 0xff ∷ 0x00 ∷ 0x00 ∷ 0x55 ∷ []

decode_length-InBounds_example : Ensures (InBounds 1 8) (decode_length indefinite_bytes 1 8)
decode_length-InBounds_example =
    decode_length-InBounds indefinite_bytes 1 8
      (
        omega arith,
        (
          omega arith,
          (
            omega arith,
            (omega arith, (omega arith, (omega arith, (omega arith, (omega arith, tt))))),
          ),
        ),
      )
      (omega arith) (omega arith)

abbrev long_contents : List ℕ
long_contents = 0x61 ∷ 0x81 ∷ 0xc8 ∷ replicate 200 0x55

decode_length-octets_example :
    decode_length long_contents 1 203 ≡ ok (1 + length (length_octets 200), 200)
decode_length-octets_example =
    decode_length-octets long_contents 1 203 200 (replicate 200 0x55, unfold length_octets in refl)
      (omega arith) (unfold length_octets in omega arith)

decode_uint32-octets_example :
    decode_uint32
      (0x85 ∷ 5 ∷ 0 ∷ 0xff ∷ 0xff ∷ 0xff ∷ 0xfe ∷ 0x86 ∷ [])
      (length (uint32_octets 4294967294))
      2
    ≡ ok 4294967294
decode_uint32-octets_example =
    decode_uint32-octets (0x85 ∷ 5 ∷ 0 ∷ 0xff ∷ 0xff ∷ 0xff ∷ 0xfe ∷ 0x86 ∷ []) 2 4294967294
      (0x86 ∷ [], unfold uint32_octets trim le_bytes is_redundant in refl) (omega arith)

-- -129 in two's complement, in two octets.
decode_int32-octets_example :
    decode_int32 (0x85 ∷ 2 ∷ 0xff ∷ 0x7f ∷ []) (length (int32_octets 4294967167)) 2 ≡ ok 4294967167
decode_int32-octets_example =
    decode_int32-octets (0x85 ∷ 2 ∷ 0xff ∷ 0x7f ∷ []) 2 4294967167
      ([], unfold int32_octets trim le_bytes is_redundant in refl) (omega arith)

encode_float-Writes_example :
    encode_float (1 ∷ 2 ∷ 3 ∷ 4 ∷ []) 32 8 empty_buffer
    ≡ put_all (8 ∷ reverse (take (32 / 8) (1 ∷ 2 ∷ 3 ∷ 4 ∷ []))) empty_buffer
encode_float-Writes_example =
    encode_float-Writes (1 ∷ 2 ∷ 3 ∷ 4 ∷ []) 32 8 (omega arith) empty_buffer

encode_bit_string-Writes_example :
    encode_bit_string 0x84 13 (0xa5 ∷ 0xff ∷ []) empty_buffer
    ≡ put_all
        (0x84
          ∷ (length_octets (bit_string_bytes 13 + 1) ++ bit_string_contents 13 (0xa5 ∷ 0xff ∷ [])))
        empty_buffer
encode_bit_string-Writes_example =
    encode_bit_string-Writes 0x84 13 (0xa5 ∷ 0xff ∷ []) (unfold bit_string_bytes in omega arith)
      empty_buffer

compress_integer-trim_example :
    (out : List ℕ) × (compress_integer (0 ∷ 0 ∷ 0x80 ∷ 1 ∷ [])
      ≡ ok (out, length (trim (0 ∷ 0 ∷ 0x80 ∷ 1 ∷ []))))
    × (length out ≡ 4)
    × (take (length (trim (0 ∷ 0 ∷ 0x80 ∷ 1 ∷ []))) out ≡ trim (0 ∷ 0 ∷ 0x80 ∷ 1 ∷ []))
compress_integer-trim_example = compress_integer-trim 0 (0 ∷ 0x80 ∷ 1 ∷ [])

get_utc_time_in_ms-set_example :
    get_utc_time_in_ms (set_utc_time_ms 1700000000999 0x0a) ≡ ok 1700000000999
get_utc_time_in_ms-set_example = get_utc_time_in_ms-set 1700000000999 0x0a (omega arith)

get-set_bit_string_bit_example :
    (next : List ℕ) × (set_bit_string_bit 13 (0xa5 ∷ 0xf8 ∷ []) 12 false ≡ ok next)
    × (length next ≡ 2)
    × (get_bit_string_bit 13 next 11
        ≡ (if 11 == 12 then ok false else get_bit_string_bit 13 (0xa5 ∷ 0xf8 ∷ []) 11))
get-set_bit_string_bit_example =
    get-set_bit_string_bit 13 (0xa5 ∷ 0xf8 ∷ []) 12 11 false (omega arith, (omega arith, tt))
      (omega arith) (omega arith)

get-set_bit_string_from_integer_example :
    (next : List ℕ) × (set_bit_string_from_integer 13 (0xa5 ∷ 0xf8 ∷ []) 5000 ≡ ok next)
    × (get_bit_string_as_integer 13 next ≡ ok 5000)
get-set_bit_string_from_integer_example =
    get-set_bit_string_from_integer 13 (0xa5 ∷ 0xf8 ∷ []) 5000 (omega arith, (omega arith, tt))
      (omega arith) (omega arith) (omega arith)
