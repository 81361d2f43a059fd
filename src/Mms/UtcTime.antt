-- ===== src/Mms/UtcTime.antt =====
-- The UTC time of mms/iso_mms/common/mms_value.cc: four octets of seconds and three of a binary
-- fraction, both big-endian, and an octet of quality. The first argument of `set_utc_time_ms` is the
-- value array, of which every octet is written.
use grid_goose_sv.Prelude.{
  ℕ, ◌+◌, ◌*◌, ◌/◌, ◌%◌, ◌^◌, ◌<◌, ◌≡◌, arith, ap, List, [], ◌∷◌, ◌++◌, reverse, Outcome, ok, fault,
  ◌>>=◌,
}
use grid_goose_sv.Memory.{read}
use grid_goose_sv.Ber.Bytes.{le_bytes}
use grid_goose_sv.Ber.Decoder.{read_bytes}

-- setUtcTimeMs; `timeval / 1000` is cut to a `uint32_t`.
unfoldable pub set_utc_time_ms : ℕ → ℕ → List ℕ
set_utc_time_ms timeval time_quality =
    let timeval32 = timeval / 1000 % 2 ^ 32 in
    let remainder = timeval % 1000 in
    let fraction = remainder * 16777 + remainder * 216 / 1000 in
    reverse (le_bytes 4 timeval32)
    ++ (fraction / 2 ^ 16 % 256 ∷ fraction / 2 ^ 8 % 256 ∷ fraction % 256 ∷ time_quality ∷ [])

-- MmsValue_setUtcTimeMs: ten bits of accuracy.
unfoldable pub new_utc_time_by_ms_time : ℕ → List ℕ
new_utc_time_by_ms_time timeval = set_utc_time_ms timeval 0x0a

-- MmsValue_getUtcTimeInMs
unfoldable pub get_utc_time_in_ms : List ℕ → Outcome ℕ
get_utc_time_in_ms value_array = do
  b0 ← read value_array 0
  b1 ← read value_array 1
  b2 ← read value_array 2
  b3 ← read value_array 3
  let timeval32 = ((b0 * 256 + b1) * 256 + b2) * 256 + b3
  b4 ← read value_array 4
  b5 ← read value_array 5
  b6 ← read value_array 6
  let fraction = b4 * 2 ^ 16 + b5 * 2 ^ 8 + b6
  ok (timeval32 * 1000 + fraction / 16777)

-- MmsValue_setUtcTime: the seconds are written, the rest stays.
unfoldable pub set_utc_time : List ℕ → ℕ → Outcome (List ℕ)
set_utc_time (a ∷ b ∷ c ∷ d ∷ rest) timeval = ok (reverse (le_bytes 4 timeval) ++ rest)
set_utc_time value_array timeval = fault

-- MmsValue_setUtcTimeByBuffer, with a buffer that is not NULL: eight octets are copied.
unfoldable pub set_utc_time_by_buffer : List ℕ → ℕ → Outcome (List ℕ)
set_utc_time_by_buffer buffer buf_pos = read_bytes 8 buffer buf_pos

seconds_octets :
    (s : ℕ)
    → s < 2 ^ 32
    → ((s % 2 ^ 32 / 256 / 256 / 256 % 256 * 256 + s % 2 ^ 32 / 256 / 256 % 256) * 256
            + s % 2 ^ 32 / 256 % 256)
          * 256
        + s % 2 ^ 32 % 256
      ≡ s
seconds_octets s h = omega arith

-- The constants 16777 and 216 are such that no millisecond is lost.
fraction_octets :
    (r : ℕ)
    → r < 1000
    → ((r * 16777 + r * 216 / 1000) / 65536 % 256 * 65536
          + (r * 16777 + r * 216 / 1000) / 256 % 256 * 256
          + (r * 16777 + r * 216 / 1000) % 256)
        / 16777
      ≡ r
fraction_octets r h = omega arith

-- A time in milliseconds whose seconds fit 32 bits is read back exactly as it was set.
pub get_utc_time_in_ms-set :
    (timeval time_quality : ℕ)
    → timeval / 1000 < 2 ^ 32
    → get_utc_time_in_ms (set_utc_time_ms timeval time_quality) ≡ ok timeval
unfolding get_utc_time_in_ms set_utc_time_ms le_bytes
get_utc_time_in_ms-set timeval time_quality h =
    ap ok (omega (arith, seconds_octets (timeval / 1000) h, fraction_octets (timeval % 1000)))
