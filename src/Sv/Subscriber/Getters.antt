-- ===== src/Sv/Subscriber/Getters.antt =====
-- The getters of sampled_values/sv_subscriber.cc, on an ASDU and the buffer that its pointers lead into;
-- a read through NULL is a fault. A signed integer is its bit pattern, a floating-point number the
-- octets that the machine holds.
use grid_goose_sv.Prelude.{
  ℕ, ◌+◌, ◌*◌, ◌/◌, ◌^◌, List, [], ◌∷◌, reverse, Bool, true, false, Option, none, some, Outcome, ok,
  ◌>>=◌, or_fault,
}
use grid_goose_sv.Memory.{read}
use grid_goose_sv.Ber.Decoder.{read_bytes}
use grid_goose_sv.Sv.Subscriber.{SubscriberAsdu}

-- The number that `size` octets give, most significant first: memcpy_reverse into an integer.
unfoldable pub big_endian : ℕ → List ℕ → ℕ
big_endian value [] = value
big_endian value (b ∷ bs) = big_endian (value * 256 + b) bs

unfoldable pub read_number : ℕ → Option ℕ → ℕ → List ℕ → Outcome ℕ
read_number size pointer index buffer = do
  p ← or_fault pointer
  octets ← read_bytes size buffer (p + index)
  ok (big_endian 0 octets)

-- memcpy_reverse into a floating-point number.
unfoldable pub read_reversed : ℕ → Option ℕ → ℕ → List ℕ → Outcome (List ℕ)
read_reversed size pointer index buffer = do
  p ← or_fault pointer
  octets ← read_bytes size buffer (p + index)
  ok (reverse octets)

-- SVSubscriber_ASDU_getSmpSynch
unfoldable pub get_smp_synch : SubscriberAsdu → List ℕ → Outcome ℕ
get_smp_synch self buffer = do p ← or_fault self.smp_synch; read buffer p

-- SVSubscriber_ASDU_getSmpCnt
unfoldable pub get_smp_cnt : SubscriberAsdu → List ℕ → Outcome ℕ
get_smp_cnt self buffer = read_number 2 self.smp_cnt 0 buffer

-- decodeUtcTimeToNsTime, where the time quality is not asked for.
unfoldable pub decode_utc_time_to_ns_time : List ℕ → ℕ → Outcome ℕ
decode_utc_time_to_ns_time buffer p = do
  b0 ← read buffer p
  b1 ← read buffer (p + 1)
  b2 ← read buffer (p + 2)
  b3 ← read buffer (p + 3)
  b4 ← read buffer (p + 4)
  b5 ← read buffer (p + 5)
  b6 ← read buffer (p + 6)
  let timeval32 = b3 + b2 * 0x100 + b1 * 0x10000 + b0 * 0x1000000
  let fraction = b6 + b5 * 0x100 + b4 * 0x10000
  ok (timeval32 * 1000000000 + fraction * 1000000000 / 2 ^ 24)

-- SVSubscriber_ASDU_getRefrTmAsNs
unfoldable pub get_refr_tm_as_ns : SubscriberAsdu → List ℕ → Outcome ℕ
get_refr_tm_as_ns self buffer = elim self.refr_tm [
  | none ↦ ok 0
  | some p ↦ decode_utc_time_to_ns_time buffer p
]

-- SVSubscriber_ASDU_getRefrTmAsMs
unfoldable pub get_refr_tm_as_ms : SubscriberAsdu → List ℕ → Outcome ℕ
get_refr_tm_as_ms self buffer = do ns ← get_refr_tm_as_ns self buffer; ok (ns / 1000000)

abbrev is_set : Option ℕ → Bool
is_set none = false
is_set (some p) = true

-- SVSubscriber_ASDU_hasRefrTm and the like
unfoldable pub has_refr_tm : SubscriberAsdu → Bool
has_refr_tm self = is_set self.refr_tm

unfoldable pub has_dat_set : SubscriberAsdu → Bool
has_dat_set self = is_set self.dat_set

unfoldable pub has_smp_rate : SubscriberAsdu → Bool
has_smp_rate self = is_set self.smp_rate

unfoldable pub has_smp_mod : SubscriberAsdu → Bool
has_smp_mod self = is_set self.smp_mod

-- SVSubscriber_ASDU_getConfRev
unfoldable pub get_conf_rev : SubscriberAsdu → List ℕ → Outcome ℕ
get_conf_rev self buffer = read_number 4 self.conf_rev 0 buffer

-- SVSubscriber_ASDU_getSmpMod: one octet.
unfoldable pub get_smp_mod : SubscriberAsdu → List ℕ → Outcome ℕ
get_smp_mod self buffer = do p ← or_fault self.smp_mod; read buffer p

-- SVSubscriber_ASDU_getSmpRate
unfoldable pub get_smp_rate : SubscriberAsdu → List ℕ → Outcome ℕ
get_smp_rate self buffer = read_number 2 self.smp_rate 0 buffer

-- SVSubscriber_ASDU_getINT8 and getINT8U
unfoldable pub get_int8 : SubscriberAsdu → ℕ → List ℕ → Outcome ℕ
get_int8 self index buffer = do p ← or_fault self.data_buffer; read buffer (p + index)

-- SVSubscriber_ASDU_getINT16 and getINT16U
unfoldable pub get_int16 : SubscriberAsdu → ℕ → List ℕ → Outcome ℕ
get_int16 self index buffer = read_number 2 self.data_buffer index buffer

-- SVSubscriber_ASDU_getINT32 and getINT32U
unfoldable pub get_int32 : SubscriberAsdu → ℕ → List ℕ → Outcome ℕ
get_int32 self index buffer = read_number 4 self.data_buffer index buffer

-- SVSubscriber_ASDU_getINT64 and getINT64U
unfoldable pub get_int64 : SubscriberAsdu → ℕ → List ℕ → Outcome ℕ
get_int64 self index buffer = read_number 8 self.data_buffer index buffer

-- SVSubscriber_ASDU_getFLOAT32
unfoldable pub get_float32 : SubscriberAsdu → ℕ → List ℕ → Outcome (List ℕ)
get_float32 self index buffer = read_reversed 4 self.data_buffer index buffer

-- SVSubscriber_ASDU_getFLOAT64
unfoldable pub get_float64 : SubscriberAsdu → ℕ → List ℕ → Outcome (List ℕ)
get_float64 self index buffer = read_reversed 8 self.data_buffer index buffer

-- SVSubscriber_ASDU_getTimestamp
unfoldable pub get_sample_timestamp : SubscriberAsdu → ℕ → List ℕ → Outcome (List ℕ)
get_sample_timestamp self index buffer = do
  p ← or_fault self.data_buffer
  read_bytes 8 buffer (p + index)

-- SVSubscriber_ASDU_getQuality
unfoldable pub get_quality : SubscriberAsdu → ℕ → List ℕ → Outcome ℕ
get_quality self index buffer = do
  p ← or_fault self.data_buffer
  b3 ← read buffer (p + index + 3)
  b2 ← read buffer (p + index + 2)
  ok (b3 + b2 * 0x100)
