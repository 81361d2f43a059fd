-- ===== src/Examples/Receiver.antt =====
-- The theorems on the receiver at a message of the publisher.
use grid_goose_sv.Prelude.{
  ℕ, ◌+◌, ◌≡◌, refl, arith, List, [], ◌∷◌, ◌++◌, length, replicate, drop, take, true, false, not,
  leb, ◌&&◌, some, ok, All, Ensures, ◌>>=◌,
}
use grid_goose_sv.Ber.Length.{length_octets}
use grid_goose_sv.Prelude.{ok-subst, subst}
use grid_goose_sv.Goose.Receiver.DataSet.Padding.{Padded, AllPadded}
use grid_goose_sv.Ber.Decoder.{
  decode_length, decode_length_recursive, long_form, within_bounds, max_depth,
}
use grid_goose_sv.Ber.Encoder.{bit_string_bytes}
use grid_goose_sv.Ber.Encoder.BitString.{bit_string_contents, clear_last, padding_bits}
use grid_goose_sv.Ber.Encoder.Integers.{uint32_octets}
use grid_goose_sv.Ber.Bytes.{le_bytes, is_redundant}
use grid_goose_sv.Ber.Bytes.Compress.{trim}
use grid_goose_sv.Ber.Decoder.{
  decode_length, decode_length_recursive, within_bounds, decode_boolean, read_bytes,
}
use grid_goose_sv.Ber.Decoder.Fields.{Field, field_octets}
use grid_goose_sv.Ber.Decoder.Safety.{IsByte}
use grid_goose_sv.Mms.Value.{MmsValue, Components}
use grid_goose_sv.Mms.UtcTime.{set_utc_time}
use grid_goose_sv.Mms.Encode.Octets.{mms_octets, components_octets}
use grid_goose_sv.Goose.Publisher.{GoosePublisher, go_id_or_cb_ref}
use grid_goose_sv.Goose.Publisher.Payload.{goose_pdu, pdu_fields, data_set_octets}
use grid_goose_sv.Goose.Publisher.Publish.{header_with_length}
use grid_goose_sv.Goose.Publisher.Create.{header_octets}
use grid_goose_sv.Goose.Subscriber.{
  GooseSubscriber, create_subscriber, copy_string_max, new_utc_time, is_valid,
}
use grid_goose_sv.Goose.Receiver.{
  Payload, new_payload, take_message, kept_values, parse_data_set, parse_goose_payload,
  parse_goose_message, parse_fields, note_frame,
}
use grid_goose_sv.Goose.Receiver.DataSet.{
  FloatConversions, parse_all_data, parse_element, parse_utc_time,
}
use grid_goose_sv.Goose.Receiver.DataSet.Elements.{HasSizes, HasRoom, AllHaveRoom}
use grid_goose_sv.Goose.Receiver.DataSet.Safety.{SafeData, parse_all_data-SafeData}
use grid_goose_sv.Goose.Receiver.Unknown.{parse_all_data_unknown_value}
use grid_goose_sv.Goose.Receiver.Unknown.Safety.{parse_all_data_unknown_value-Ends}
use grid_goose_sv.Goose.Receiver.Arrays.{HasDataSet, IsReady}
use grid_goose_sv.Goose.Receiver.Safety.{Handled, parse_goose_payload-Handled}
use grid_goose_sv.Goose.Receiver.Validity.{is_repeated, is_parsed, take_message-validity}
use grid_goose_sv.Goose.Receiver.Header.{read_fields, parse_fields-read_fields}
use grid_goose_sv.Goose.RoundTrip.{received, parse_goose_payload-received}
use grid_goose_sv.Goose.RoundTrip.Fields.{IsReceivable}
use grid_goose_sv.Goose.RoundTrip.Packet.{packet_head, parse_goose_message-received}
use grid_goose_sv.Examples.{sample_publisher, sample_set, sample_parameters, sample_address}

-- Conversions that lose every number.
abbrev pub no_conversions : FloatConversions
no_conversions = record { to_float = λ octets. replicate 4 0; to_double = λ octets. replicate 8 0 }

no_conversions-HasSizes : HasSizes no_conversions
no_conversions-HasSizes = record { float_size = λ octets. refl; double_size = λ octets. refl }

abbrev sample_components : Components
sample_components =
    Components.cons (MmsValue.boolean false)
      (Components.cons (MmsValue.utc_time (replicate 8 0)) Components.nil)

-- A subscriber for the reference "ied", with a data set of a Boolean and a time.
abbrev pub sample_subscriber : GooseSubscriber
sample_subscriber =
    create_subscriber (0x69 ∷ 0x65 ∷ 0x64 ∷ []) (some (MmsValue.structure sample_components))

sample_publisher-IsReceivable : IsReceivable sample_publisher sample_set
unfolding goose_pdu pdu_fields data_set_octets mms_octets components_octets length_octets
    go_id_or_cb_ref uint32_octets trim le_bytes is_redundant bit_string_bytes bit_string_contents
    clear_last padding_bits
sample_publisher-IsReceivable = record {
  time_allowed_to_live = omega arith;
  st_num = omega arith;
  sq_num = omega arith;
  conf_rev = omega arith;
  time = omega arith;
  total = omega arith;
}

parse_goose_payload-received_example :
    parse_goose_payload no_conversions
      (sample_subscriber ∷ [])
      (goose_pdu sample_publisher sample_set ++ (0 ∷ 0 ∷ []))
      (length (goose_pdu sample_publisher sample_set))
      1000
    ≡ received no_conversions (sample_subscriber ∷ []) sample_publisher sample_set (0 ∷ 0 ∷ []) 1000
parse_goose_payload-received_example =
    parse_goose_payload-received no_conversions (sample_subscriber ∷ []) sample_publisher sample_set
      (0 ∷ 0 ∷ []) 1000 sample_publisher-IsReceivable

-- A data set of one Boolean and a time, and an octet behind it.
abbrev pub sample_octets : List ℕ
sample_octets = 0x83 ∷ 1 ∷ 1 ∷ 0x91 ∷ 8 ∷ 1 ∷ 2 ∷ 3 ∷ 4 ∷ 5 ∷ 6 ∷ 7 ∷ 8 ∷ 0 ∷ []

sample_octets-IsByte : All IsByte sample_octets
sample_octets-IsByte = omega arith

sample_components-AllHaveRoom : AllHaveRoom sample_components
unfolding AllHaveRoom HasRoom
sample_components-AllHaveRoom = (tt, (refl, tt))

-- A data set of one Boolean and a bit string of 13 bits, and an octet behind it.
abbrev bit_octets : List ℕ
bit_octets = 0x83 ∷ 1 ∷ 1 ∷ 0x84 ∷ 3 ∷ 3 ∷ 0xa5 ∷ 0xf8 ∷ 0 ∷ []

abbrev bit_components : Components
bit_components =
    Components.cons (MmsValue.boolean false)
      (Components.cons (MmsValue.bit_string 13 (0 ∷ 0 ∷ [])) Components.nil)

bit_components-AllHaveRoom : AllHaveRoom bit_components
unfolding AllHaveRoom HasRoom
bit_components-AllHaveRoom = (tt, (omega arith, tt))

length_at : (p k : ℕ) → decode_length bit_octets 1 8 ≡ ok (p, k) → p + k ≡ 3
unfolding decode_length decode_length_recursive long_form within_bounds max_depth
length_at p k e = ok-subst (λ r. r.0 + r.1 ≡ 3) (2, 1) (p, k) e refl

second_length : (q p k : ℕ) → q ≡ 3 → decode_length bit_octets (q + 1) 8 ≡ ok (p, k) → k ≡ 3
unfolding decode_length decode_length_recursive long_form within_bounds max_depth
second_length q p k e h =
    ok-subst (λ r. r.1 ≡ 3) (5, 3) (p, k)
      (subst (λ i. decode_length bit_octets (i + 1) 8 ≡ ok (p, k)) e h) refl

bit_components-AllPadded : AllPadded bit_components bit_octets 0 8
unfolding Padded AllPadded
bit_components-AllPadded = λ tag p k e1 e2. (
  tt,
  λ tag' p' k' e3 e4.
      (λ t padding e5 e6. omega (arith, second_length (p + k) p' k' (length_at p k e2) e4), tt),
)

parse_all_data-SafeData_example :
    Ensures SafeData (parse_all_data no_conversions bit_components bit_octets 0 8)
parse_all_data-SafeData_example =
    parse_all_data-SafeData no_conversions bit_components bit_octets 0 8 no_conversions-HasSizes
      (omega arith) (omega arith) (omega arith) bit_components-AllHaveRoom bit_components-AllPadded

parse_all_data_unknown_value-Ends_example :
    Ensures
      (λ (v : MmsValue). Unit {0})
      (parse_all_data_unknown_value (13 + 2) sample_octets 13 true)
parse_all_data_unknown_value-Ends_example =
    parse_all_data_unknown_value-Ends sample_octets 13 true sample_octets-IsByte (omega arith)
      (omega arith)

abbrev sample_message : List ℕ
sample_message = 0x61 ∷ 4 ∷ sample_octets

sample_components-AllPadded : (buffer : List ℕ) (n : ℕ) → AllPadded sample_components buffer 0 n
unfolding Padded AllPadded
sample_components-AllPadded buffer n = λ tag p k e1 e2. (tt, λ tag' p' k' e3 e4. (tt, tt))

sample_subscriber-IsReady : IsReady sample_message sample_subscriber
unfolding create_subscriber copy_string_max new_utc_time le_bytes HasDataSet
sample_subscriber-IsReady = (
  record {
    go_cb_ref = refl;
    dat_set = refl;
    go_id = refl;
    go_cb_ref_len = omega arith;
    timestamp = refl;
  },
  (sample_components-AllHaveRoom, λ pos n. sample_components-AllPadded (drop pos sample_message) n),
)

parse_goose_payload-Handled_example :
    Ensures (Handled 1) (
      parse_goose_payload no_conversions (sample_subscriber ∷ []) (0x61 ∷ 4 ∷ sample_octets) 6 1000)
parse_goose_payload-Handled_example =
    parse_goose_payload-Handled no_conversions (sample_subscriber ∷ []) (0x61 ∷ 4 ∷ sample_octets) 6
      1000 no_conversions-HasSizes (omega arith) (omega arith) (omega arith)
      (sample_subscriber-IsReady, tt)

-- A message with the state number 7 and the sequence number 3, and the subscriber after it.
abbrev sample_payload : Payload
sample_payload = record (new_payload []) {
  time_allowed_to_live = 500;
  st_num = 7;
  sq_num = 3;
  data_set_buffer_pos = some 0;
  data_set_buffer_length = 13;
}

abbrev pub updated_subscriber : GooseSubscriber
updated_subscriber = record sample_subscriber {
  time_allowed_to_live = 500;
  timestamp = replicate 8 0;
  data_set_values = some (
      MmsValue.structure (
        Components.cons (MmsValue.boolean true) (
          Components.cons (MmsValue.utc_time (1 ∷ 2 ∷ 3 ∷ 4 ∷ 5 ∷ 6 ∷ 7 ∷ 8 ∷ []))
            Components.nil)));
  state_valid = true;
  st_num = 7;
  sq_num = 3;
  invalidity_time = 1500;
}

sample_taken :
    take_message no_conversions sample_subscriber sample_payload sample_octets 1000
    ≡ ok updated_subscriber
unfolding take_message set_utc_time kept_values parse_data_set parse_all_data parse_element
    create_subscriber copy_string_max new_utc_time le_bytes decode_length decode_length_recursive
    within_bounds decode_boolean read_bytes parse_utc_time
sample_taken = refl

take_message-validity_example : is_valid updated_subscriber 1500 ≡ (
    not (is_repeated sample_subscriber sample_payload)
    && is_parsed (kept_values sample_subscriber 0) updated_subscriber.parse_error
    && leb 1500 (1000 + 500))
take_message-validity_example =
    take_message-validity no_conversions sample_subscriber updated_subscriber sample_payload
      sample_octets 1000 1500 sample_taken

abbrev sample_fields : List Field
sample_fields = (0x85, 7 ∷ []) ∷ (0x87, 1 ∷ []) ∷ []

parse_fields-read_fields_example :
    parse_fields 3 (0x85 ∷ 1 ∷ 7 ∷ 0x87 ∷ 1 ∷ 1 ∷ 0xff ∷ []) 0 6 6 (new_payload [])
    ≡ read_fields (0x85 ∷ 1 ∷ 7 ∷ 0x87 ∷ 1 ∷ 1 ∷ 0xff ∷ []) 0 sample_fields (new_payload [])
unfolding field_octets length_octets
parse_fields-read_fields_example =
    parse_fields-read_fields sample_fields 3 (0x85 ∷ 1 ∷ 7 ∷ 0x87 ∷ 1 ∷ 1 ∷ 0xff ∷ []) 0 6
      (new_payload []) (0xff ∷ [], refl) refl (omega arith) (omega arith)

-- The publisher with the frame header in its buffer.
abbrev framed_publisher : GoosePublisher
framed_publisher = record sample_publisher {
  buffer = header_octets sample_parameters sample_address true ++ replicate 1492 0;
}

framed_publisher-IsReceivable : IsReceivable framed_publisher sample_set
unfolding goose_pdu pdu_fields data_set_octets mms_octets components_octets length_octets
    go_id_or_cb_ref uint32_octets trim le_bytes is_redundant bit_string_bytes bit_string_contents
    clear_last padding_bits
framed_publisher-IsReceivable = record {
  time_allowed_to_live = omega arith;
  st_num = omega arith;
  sq_num = omega arith;
  conf_rev = omega arith;
  time = omega arith;
  total = omega arith;
}

parse_goose_message-received_example :
    parse_goose_message no_conversions
      (sample_subscriber ∷ [])
      ((drop 14
            (header_with_length framed_publisher (length (goose_pdu framed_publisher sample_set)))
          ++ goose_pdu framed_publisher sample_set)
        ++ [])
      100
      1000
    ≡ (note_frame
          (sample_subscriber ∷ [])
          0x1000
          (drop 6 (packet_head sample_parameters (length (goose_pdu framed_publisher sample_set))))
          (take 6 (packet_head sample_parameters (length (goose_pdu framed_publisher sample_set))))
        >>= λ noted. received no_conversions noted framed_publisher sample_set [] 1000 >>= λ r.
            ok (r.0, some r.1))
unfolding header_octets goose_pdu pdu_fields data_set_octets mms_octets components_octets
    length_octets go_id_or_cb_ref uint32_octets trim le_bytes is_redundant bit_string_bytes
    bit_string_contents clear_last padding_bits
parse_goose_message-received_example =
    parse_goose_message-received no_conversions (sample_subscriber ∷ []) sample_parameters
      sample_address framed_publisher sample_set [] 100 1000 refl refl refl refl refl
      framed_publisher-IsReceivable (omega arith) (omega arith)
