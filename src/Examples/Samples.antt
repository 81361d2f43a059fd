-- ===== src/Examples/Samples.antt =====
-- The theorems on sampled values at a publisher with two ASDUs.
use grid_goose_sv.Prelude.{
  ◌+◌, ◌≡◌, refl, arith, [], ◌∷◌, length, replicate, true, false, none, some, ok, ◌>>=◌,
}
use grid_goose_sv.Memory.{draw, solid}
use grid_goose_sv.Ber.Length.{determine_length_size, length_octets}
use grid_goose_sv.Sv.Publisher.{
  SvAsdu, SvPublisher, Encoding, encode_to_buffer, get_encoded_size, setup_complete, finish_setup,
}
use grid_goose_sv.Sv.Publisher.Layout.{uint16_octets, asdu_fields}
use grid_goose_sv.Sv.Publisher.Setup.{
  IsEncodable, asdu_pattern, asdus_pattern, placed_all, apdu_head, sv_apdu, setup_complete-apdu,
}
use grid_goose_sv.Sv.Publisher.Pointers.{PointsTo, encode_to_buffer-PointsTo}
use grid_goose_sv.Examples.{short}

abbrev pub sample_asdu : SvAsdu
sample_asdu = record {
  sv_id = 0x73 ∷ 0x76 ∷ 0x30 ∷ [];
  datset = none;
  data_size = 40;
  has_refr_tm = true;
  has_smp_rate = true;
  has_smp_mod = false;
  data_buffer = some 80;
  smp_synch = 1;
  smp_cnt = 3999;
  smp_cnt_limit = 4000;
  conf_rev = 1;
  refr_tm = none;
  smp_mod = 0;
  smp_rate = 4000;
  smp_cnt_buf = some 60;
  smp_synch_buf = none;
}

sample_asdu-IsEncodable : IsEncodable sample_asdu
unfolding get_encoded_size determine_length_size
sample_asdu-IsEncodable = record {
  id = short _ refl;
  set = short _ refl;
  samples = short _ refl;
  total = short _ refl;
}

abbrev sample_sv_publisher : SvPublisher
sample_sv_publisher = record {
  buffer = replicate 1518 0;
  length_field = 20;
  payload_start = 26;
  payload_length = 0;
  asdu_list = sample_asdu ∷ sample_asdu ∷ [];
}

setup_complete-apdu_example : setup_complete sample_sv_publisher ≡ (
    draw
      (sv_apdu sample_sv_publisher.asdu_list)
      (record { buffer = sample_sv_publisher.buffer; pos = 26 })
    >>= λ c. finish_setup sample_sv_publisher (
      placed_all sample_sv_publisher.asdu_list
          (26 + length (apdu_head sample_sv_publisher.asdu_list)),
      c,
    ))
unfolding asdus_pattern asdu_pattern asdu_fields length_octets get_encoded_size
    determine_length_size
setup_complete-apdu_example =
    setup_complete-apdu sample_sv_publisher (sample_asdu-IsEncodable, (sample_asdu-IsEncodable, tt))
      (short _ refl)

encode_to_buffer-PointsTo_example :
    (e : Encoding) × (encode_to_buffer sample_asdu
        (record { asdu = sample_asdu; cursor = record { buffer = replicate 200 9; pos = 30 } })
      ≡ ok e)
    × (e.cursor.pos ≡ 30 + length (asdu_pattern sample_asdu))
    × PointsTo sample_asdu 30 e.asdu.smp_cnt_buf (solid (uint16_octets 3999))
    × PointsTo sample_asdu 30 e.asdu.smp_synch_buf (solid (1 ∷ []))
    × PointsTo sample_asdu 30 e.asdu.data_buffer (replicate 40 none)
unfolding asdu_pattern asdu_fields length_octets get_encoded_size determine_length_size
encode_to_buffer-PointsTo_example =
    encode_to_buffer-PointsTo sample_asdu (record { buffer = replicate 200 9; pos = 30 })
      sample_asdu-IsEncodable (omega arith)
