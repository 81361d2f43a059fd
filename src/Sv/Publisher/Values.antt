-- ===== src/Sv/Publisher/Values.antt =====
-- The values that the user of sampled_values/sv_publisher.cc puts into an ASDU. Each function takes
-- the ASDU and the frame buffer that its pointers lead into; a write through NULL is a fault. A signed
-- integer is its bit pattern, a floating-point number the octets that the machine holds.
use grid_goose_sv.Prelude.{
  ℕ, ◌+◌, ◌/◌, ◌%◌, ◌^◌, List, [], ◌∷◌, true, Option, none, some, Outcome, ok, fault, ◌>>=◌,
  or_fault, ◌==◌, if◌then◌else◌,
}
use grid_goose_sv.Memory.{Cursor, put_all}
use grid_goose_sv.Ber.Bytes.{store, revert_byte_order}
use grid_goose_sv.Ber.Encoder.{copy_bytes}
use grid_goose_sv.Ber.Decoder.{read_bytes}
use grid_goose_sv.Iec61850.Timestamp.{
  Timestamp, val, create_from_byte_array, set_time_in_nanoseconds, set_time_in_milliseconds,
  set_subsecond_precision,
}
use grid_goose_sv.Sv.Publisher.{SvAsdu, encode_uint16_fixed_size, encode_uint32_fixed_size}

-- SVPublisher_ASDU_resetBuffer
unfoldable reset_buffer : SvAsdu → SvAsdu
reset_buffer self = record self { data_size = 0 }

-- The functions SVPublisher_ASDU_add…: the index of the new value, which takes `size` octets.
unfoldable pub add_value : ℕ → SvAsdu → SvAsdu × ℕ
add_value size self = (record self { data_size = self.data_size + size }, self.data_size)

unfoldable add_int8 : SvAsdu → SvAsdu × ℕ
add_int8 self = add_value 1 self

unfoldable add_int32 : SvAsdu → SvAsdu × ℕ
add_int32 self = add_value 4 self

unfoldable add_int64 : SvAsdu → SvAsdu × ℕ
add_int64 self = add_value 8 self

unfoldable pub add_float : SvAsdu → SvAsdu × ℕ
add_float self = add_value 4 self

unfoldable add_float64 : SvAsdu → SvAsdu × ℕ
add_float64 self = add_value 8 self

unfoldable pub add_timestamp : SvAsdu → SvAsdu × ℕ
add_timestamp self = add_value 8 self

unfoldable add_quality : SvAsdu → SvAsdu × ℕ
add_quality self = add_value 4 self

-- What an encoder does to the buffer from a position on.
abbrev pub write_at : (Cursor → Outcome Cursor) → List ℕ → ℕ → Outcome (List ℕ)
write_at w buffer i = do c ← w (record { buffer = buffer; pos = i }); ok c.buffer

-- SVPublisher_ASDU_setINT8
unfoldable set_int8 : SvAsdu → ℕ → ℕ → List ℕ → Outcome (List ℕ)
set_int8 self index value buffer = do
  p ← or_fault self.data_buffer
  store buffer (p + index) (value % 256)

-- SVPublisher_ASDU_setINT32
unfoldable pub set_int32 : SvAsdu → ℕ → ℕ → List ℕ → Outcome (List ℕ)
set_int32 self index value buffer = do
  p ← or_fault self.data_buffer
  write_at (encode_uint32_fixed_size value) buffer (p + index)

-- encodeInt64FixedSize
unfoldable pub encode_int64_fixed_size : ℕ → Cursor → Outcome Cursor
encode_int64_fixed_size value c = do
  c1 ← encode_uint32_fixed_size (value / 2 ^ 32) c
  encode_uint32_fixed_size (value % 2 ^ 32) c1

-- SVPublisher_ASDU_setINT64
unfoldable pub set_int64 : SvAsdu → ℕ → ℕ → List ℕ → Outcome (List ℕ)
set_int64 self index value buffer = do
  p ← or_fault self.data_buffer
  write_at (encode_int64_fixed_size value) buffer (p + index)

-- The setters of floating-point numbers: the octets are reversed in place and copied.
unfoldable pub set_reversed : ℕ → SvAsdu → ℕ → List ℕ → List ℕ → Outcome (List ℕ)
set_reversed size self index value buffer = do
  buf ← revert_byte_order 0 size value
  p ← or_fault self.data_buffer
  write_at (copy_bytes size 0 buf) buffer (p + index)

-- SVPublisher_ASDU_setFLOAT
unfoldable pub set_float : SvAsdu → ℕ → List ℕ → List ℕ → Outcome (List ℕ)
set_float self index value buffer = set_reversed 4 self index value buffer

-- SVPublisher_ASDU_setFLOAT64
unfoldable pub set_float64 : SvAsdu → ℕ → List ℕ → List ℕ → Outcome (List ℕ)
set_float64 self index value buffer = set_reversed 8 self index value buffer

-- SVPublisher_ASDU_setTimestamp
unfoldable pub set_timestamp : SvAsdu → ℕ → List ℕ → List ℕ → Outcome (List ℕ)
set_timestamp self index value buffer = do
  p ← or_fault self.data_buffer
  write_at (copy_bytes 8 0 value) buffer (p + index)

-- SVPublisher_ASDU_setQuality
unfoldable pub set_quality : SvAsdu → ℕ → ℕ → List ℕ → Outcome (List ℕ)
set_quality self index value buffer = do
  p ← or_fault self.data_buffer
  write_at (put_all (0 ∷ 0 ∷ value / 0x100 ∷ value % 0x100 ∷ [])) buffer (p + index)

-- The counter in the buffer, where the ASDU has been encoded.
unfoldable pub write_smp_cnt : Option ℕ → ℕ → List ℕ → Outcome (List ℕ)
write_smp_cnt none value buffer = ok buffer
write_smp_cnt (some p) value buffer = write_at (encode_uint16_fixed_size value) buffer p

unfoldable pub show_smp_cnt : SvAsdu → List ℕ → Outcome (SvAsdu × List ℕ)
show_smp_cnt self buffer = do b ← write_smp_cnt self.smp_cnt_buf self.smp_cnt buffer; ok (self, b)

-- SVPublisher_ASDU_setSmpCnt
unfoldable set_smp_cnt : SvAsdu → ℕ → List ℕ → Outcome (SvAsdu × List ℕ)
set_smp_cnt self value buffer = show_smp_cnt (record self { smp_cnt = value }) buffer

-- SVPublisher_ASDU_setSmpCntWrap
unfoldable set_smp_cnt_wrap : SvAsdu → ℕ → SvAsdu
set_smp_cnt_wrap self value = record self { smp_cnt_limit = value }

-- SVPublisher_ASDU_increaseSmpCnt; the remainder by 0 is undefined.
unfoldable pub increase_smp_cnt : SvAsdu → List ℕ → Outcome (SvAsdu × List ℕ)
increase_smp_cnt self buffer =
    if self.smp_cnt_limit == 0
    then fault
    else show_smp_cnt (record self { smp_cnt = (self.smp_cnt + 1) % self.smp_cnt_limit }) buffer

-- SVPublisher_ASDU_enableRefrTm
unfoldable enable_refr_tm : SvAsdu → SvAsdu
enable_refr_tm self = record self { has_refr_tm = true }

-- SVPublisher_ASDU_setRefrTmByTimestamp
unfoldable set_refr_tm_by_timestamp : SvAsdu → List ℕ → List ℕ → Outcome (SvAsdu × List ℕ)
set_refr_tm_by_timestamp self value buffer = elim self.refr_tm [
  | none ↦ ok (record self { has_refr_tm = true }, buffer)
  | some p ↦ (do
    b ← write_at (copy_bytes 8 0 value) buffer p
    ok (record self { has_refr_tm = true }, b))
]

-- The functions that set the reference time in place, as a `Timestamp` in the frame buffer.
unfoldable change_refr_tm : (Timestamp → Timestamp) → SvAsdu → List ℕ → Outcome (SvAsdu × List ℕ)
change_refr_tm change self buffer = elim self.refr_tm [
  | none ↦ ok (record self { has_refr_tm = true }, buffer)
  | some p ↦ (do
    octets ← read_bytes 8 buffer p
    time ← create_from_byte_array octets
    b ← write_at (copy_bytes 8 0 (val (change time))) buffer p
    ok (record self { has_refr_tm = true }, b))
]

-- SVPublisher_ASDU_setRefrTmNs
unfoldable set_refr_tm_ns : SvAsdu → ℕ → List ℕ → Outcome (SvAsdu × List ℕ)
set_refr_tm_ns self refr_tm_ns buffer =
    change_refr_tm (λ t. set_subsecond_precision (set_time_in_nanoseconds t refr_tm_ns) 20) self
      buffer

-- SVPublisher_ASDU_setRefrTm
unfoldable set_refr_tm : SvAsdu → ℕ → List ℕ → Outcome (SvAsdu × List ℕ)
set_refr_tm self refr_tm buffer =
    change_refr_tm (λ t. set_subsecond_precision (set_time_in_milliseconds t refr_tm) 10) self
      buffer

-- SVPublisher_ASDU_setSmpMod
unfoldable set_smp_mod : SvAsdu → ℕ → SvAsdu
set_smp_mod self smp_mod = record self { has_smp_mod = true; smp_mod = smp_mod }

-- SVPublisher_ASDU_setSmpRate
unfoldable set_smp_rate : SvAsdu → ℕ → SvAsdu
set_smp_rate self smp_rate = record self { has_smp_rate = true; smp_rate = smp_rate }

-- SVPublisher_ASDU_setSmpSynch: the argument of 16 bits is cut to 8, and the pointer is not tested.
unfoldable set_smp_synch : SvAsdu → ℕ → List ℕ → Outcome (SvAsdu × List ℕ)
set_smp_synch self smp_synch buffer = do
  p ← or_fault self.smp_synch_buf
  b ← store buffer p (smp_synch % 256)
  ok (record self { smp_synch = smp_synch % 256 }, b)
