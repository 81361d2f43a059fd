-- ===== src/Examples/Sequence.antt =====
-- Two messages in a row of a publisher whose sequence number is the last of 32 bits.
use grid_goose_sv.Prelude.{
  ℕ, ◌+◌, ◌-◌, ◌^◌, ◌≡◌, refl, ◌∙◌, arith, List, [], ◌++◌, length, drop, false, not, leb, ltb, ◌==◌,
  ◌&&◌, some, ok,
}
use grid_goose_sv.Ber.Length.{length_octets}
use grid_goose_sv.Ber.Encoder.{bit_string_bytes}
use grid_goose_sv.Ber.Encoder.BitString.{bit_string_contents, clear_last, padding_bits}
use grid_goose_sv.Ber.Encoder.Integers.{uint32_octets}
use grid_goose_sv.Ber.Bytes.{le_bytes, is_redundant}
use grid_goose_sv.Ber.Bytes.Compress.{trim}
use grid_goose_sv.Ber.Decoder.{
  decode_length, decode_length_recursive, within_bounds, decode_boolean, read_bytes,
}
use grid_goose_sv.Mms.UtcTime.{set_utc_time}
use grid_goose_sv.Mms.Encode.Octets.{mms_octets, components_octets}
use grid_goose_sv.Goose.Publisher.{GoosePublisher, publish, go_id_or_cb_ref}
use grid_goose_sv.Goose.Publisher.Payload.{goose_pdu, pdu_fields, data_set_octets}
use grid_goose_sv.Goose.Publisher.Publish.{header_with_length, published, publish-published}
use grid_goose_sv.Goose.Subscriber.{
  GooseSubscriber, create_subscriber, copy_string_max, new_utc_time, is_valid,
}
use grid_goose_sv.Goose.Receiver.{Payload, new_payload, take_message, kept_values, parse_data_set}
use grid_goose_sv.Goose.Receiver.DataSet.{parse_all_data, parse_element, parse_utc_time}
use grid_goose_sv.Goose.Receiver.Validity.{is_parsed}
use grid_goose_sv.Goose.RoundTrip.Sequence.{Carries, publish-take_message}
use grid_goose_sv.Examples.{
  sample_publisher, sample_set, sample_publisher-HasFrame, sample_set-IsPublishable,
}
use grid_goose_sv.Examples.Receiver.{
  no_conversions, sample_octets, sample_subscriber, updated_subscriber,
}

abbrev sample_pdu : List ℕ
sample_pdu = goose_pdu sample_publisher sample_set

abbrev sample_packet : List ℕ
sample_packet = drop 14 (header_with_length sample_publisher (length sample_pdu)) ++ sample_pdu

abbrev next_publisher : GoosePublisher
next_publisher = published sample_publisher sample_pdu

sample_pdu-fits : ltb 1492 (length sample_pdu) ≡ false
unfolding goose_pdu pdu_fields data_set_octets mms_octets components_octets length_octets
    go_id_or_cb_ref uint32_octets trim le_bytes is_redundant bit_string_bytes bit_string_contents
    clear_last padding_bits
sample_pdu-fits = refl

sample_sent : publish sample_publisher sample_set ≡ ok (next_publisher, some sample_packet)
sample_sent =
    publish-published sample_publisher sample_set sample_publisher-HasFrame sample_set-IsPublishable
    ∙ rw sample_pdu-fits refl

abbrev payload_of : ℕ → Payload
payload_of n = record (new_payload []) {
  time_allowed_to_live = 500;
  st_num = 7;
  sq_num = n;
  data_set_buffer_pos = some 0;
  data_set_buffer_length = 13;
}

abbrev first_taken : GooseSubscriber
first_taken = record updated_subscriber { sq_num = 4294967295 }

abbrev second_taken : GooseSubscriber
second_taken = record first_taken { sq_num = 1; state_valid = false; invalidity_time = 2000 }

sample_first :
    take_message no_conversions sample_subscriber (payload_of 4294967295) sample_octets 1000
    ≡ ok first_taken
unfolding take_message set_utc_time kept_values parse_data_set parse_all_data parse_element
    create_subscriber copy_string_max new_utc_time le_bytes decode_length decode_length_recursive
    within_bounds decode_boolean read_bytes parse_utc_time
sample_first = refl

sample_second :
    take_message no_conversions first_taken (payload_of 1) sample_octets 1500 ≡ ok second_taken
unfolding take_message set_utc_time kept_values parse_data_set parse_all_data parse_element
    create_subscriber copy_string_max new_utc_time le_bytes decode_length decode_length_recursive
    within_bounds decode_boolean read_bytes parse_utc_time
sample_second = refl

next_publisher-Carries : Carries next_publisher (payload_of 1)
unfolding published
next_publisher-Carries = record { st_num = refl; sq_num = refl }

publish-take_message_example : is_valid second_taken 1600 ≡ (
    not (4294967295 == 2 ^ 32 - 1)
    && is_parsed (kept_values first_taken 0) second_taken.parse_error
    && leb 1600 (1500 + 500))
publish-take_message_example =
    publish-take_message no_conversions sample_publisher next_publisher sample_set sample_packet
      sample_subscriber first_taken second_taken (payload_of 4294967295) (payload_of 1)
      sample_octets sample_octets 1000 1500 1600 (omega arith) sample_sent
      (record { st_num = refl; sq_num = refl }) next_publisher-Carries sample_first sample_second
