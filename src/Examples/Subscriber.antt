-- ===== src/Examples/Subscriber.antt =====
-- The theorems on the receiver of sampled values at the sample ASDU.
use grid_goose_sv.Prelude.{
  ℕ, ◌^◌, ◌≡◌, ◌<◌, refl, arith, List, [], ◌∷◌, ◌++◌, length, length-replicate, replicate, true,
  some, ok,
}
use grid_goose_sv.Ber.Length.{length_octets}
use grid_goose_sv.Ber.Decoder.Fields.{field_octets}
use grid_goose_sv.Sv.Publisher.Values.{
  set_int32, set_int64, set_float, set_float64, set_timestamp, set_quality,
}
use grid_goose_sv.Sv.Subscriber.{SubscriberAsdu, no_asdu, Delivery, parse_asdu}
use grid_goose_sv.Sv.Subscriber.Getters.{
  get_int32, get_int64, get_float32, get_float64, get_sample_timestamp, get_quality,
}
use grid_goose_sv.Sv.RoundTrip.{IsReadBack, get-set_samples}
use grid_goose_sv.Sv.RoundTrip.PublishedFields.{sample_fields, published_fields}
use grid_goose_sv.Sv.RoundTrip.Asdu.{IsSample, parse_asdu-IsSample}
use grid_goose_sv.Examples.Samples.{sample_asdu}

-- An ASDU of the subscriber whose samples begin at octet 80, as those of the publisher do.
abbrev received_asdu : SubscriberAsdu
received_asdu = record no_asdu.asdu { data_buffer = some 80 }

abbrev eight : List ℕ
eight = 1 ∷ 2 ∷ 3 ∷ 4 ∷ 5 ∷ 6 ∷ 7 ∷ 8 ∷ []

get-set_samples_example :
    IsReadBack
      (set_int32 sample_asdu 8 4294967295 (replicate 128 9))
      (get_int32 received_asdu 8)
      4294967295
    × IsReadBack
        (set_int64 sample_asdu 8 4294967296 (replicate 128 9))
        (get_int64 received_asdu 8)
        4294967296
    × IsReadBack
        (set_float sample_asdu 8 (1 ∷ 2 ∷ 3 ∷ 4 ∷ []) (replicate 128 9))
        (get_float32 received_asdu 8)
        (1 ∷ 2 ∷ 3 ∷ 4 ∷ [])
    × IsReadBack
        (set_float64 sample_asdu 8 eight (replicate 128 9))
        (get_float64 received_asdu 8)
        eight
    × IsReadBack
        (set_timestamp sample_asdu 8 eight (replicate 128 9))
        (get_sample_timestamp received_asdu 8)
        eight
    × IsReadBack
        (set_quality sample_asdu 8 0x0800 (replicate 128 9))
        (get_quality received_asdu 8)
        0x0800
get-set_samples_example =
    get-set_samples sample_asdu received_asdu 80 8 4294967295 4294967296 0x0800 (1 ∷ 2 ∷ 3 ∷ 4 ∷ [])
      eight eight (replicate 128 9) refl refl (omega (arith, length-replicate {A = ℕ} 128 9))
      (omega arith) (omega arith) (omega arith) refl refl refl

abbrev sample_data : List ℕ
sample_data = replicate 40 7

abbrev sample_message : List ℕ
sample_message = field_octets (published_fields sample_asdu eight sample_data)

sample_message-short : length sample_message < 2 ^ 24
unfolding field_octets published_fields sample_fields length_octets
sample_message-short = omega arith

parse_asdu-IsSample_example :
    (d : Delivery) × IsSample sample_asdu sample_data d
    × (parse_asdu true (0x30 ∷ 90 ∷ (sample_message ++ (0 ∷ []))) 2 (length sample_message) []
        ≡ ok (d.buffer, [] ++ (d ∷ [])))
parse_asdu-IsSample_example =
    parse_asdu-IsSample sample_asdu eight sample_data (0x30 ∷ 90 ∷ (sample_message ++ (0 ∷ []))) 2
      [] (omega arith) (omega arith) (0 ∷ [], refl) sample_message-short
