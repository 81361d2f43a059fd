-- ===== src/Iec61850/Timestamp.antt =====
-- The time stamps of iec61850/common/iec61850_common.cc: four octets of seconds, three of a binary
-- fraction and one of quality, the field `octet_i` for `val[i]`. NULL is not modelled as an argument.
pub mod Flags
pub mod Times
use grid_goose_sv.Prelude.{
  ℕ, ◌+◌, ◌*◌, ◌/◌, ◌%◌, ◌^◌, bit_and, bit_or, List, [], ◌∷◌, ◌++◌, take, ◌==◌, if◌then◌else◌, Bool,
  true, false, Outcome, ok, fault,
}
use grid_goose_sv.Mms.Value.{MmsValue}

pub record Timestamp : Type 0 where
  pub octet_0 : ℕ
  pub octet_1 : ℕ
  pub octet_2 : ℕ
  pub octet_3 : ℕ
  pub octet_4 : ℕ
  pub octet_5 : ℕ
  pub octet_6 : ℕ
  pub octet_7 : ℕ

-- Timestamp_create: `calloc`.
abbrev pub create_timestamp : Timestamp
create_timestamp = record {
  octet_0 = 0;
  octet_1 = 0;
  octet_2 = 0;
  octet_3 = 0;
  octet_4 = 0;
  octet_5 = 0;
  octet_6 = 0;
  octet_7 = 0;
}

-- Timestamp_createFromByteArray, and the copies of eight octets.
unfoldable pub create_from_byte_array : List ℕ → Outcome Timestamp
create_from_byte_array (a ∷ b ∷ c ∷ d ∷ e ∷ f ∷ g ∷ h ∷ rest) = ok (record {
  octet_0 = a;
  octet_1 = b;
  octet_2 = c;
  octet_3 = d;
  octet_4 = e;
  octet_5 = f;
  octet_6 = g;
  octet_7 = h;
})
create_from_byte_array byte_array = fault

-- The array `val`.
unfoldable pub val : Timestamp → List ℕ
val self =
    self.octet_0 ∷ self.octet_1 ∷ self.octet_2 ∷ self.octet_3 ∷ self.octet_4 ∷ self.octet_5
    ∷ self.octet_6 ∷ self.octet_7 ∷ []

-- Timestamp_clearFlags
unfoldable pub clear_flags : Timestamp → Timestamp
clear_flags self = record self { octet_7 = 0 }

-- The tests and the changes of one flag in an octet: `mask` has its bit, `others` all but its bit.
abbrev pub has_flag : ℕ → ℕ → Bool
has_flag mask octet = if bit_and octet mask == 0 then false else true

abbrev pub with_flag : ℕ → ℕ → Bool → ℕ → ℕ
with_flag mask others value octet = if value then bit_or octet mask else bit_and octet others

-- Timestamp_isLeapSecondKnown
unfoldable pub is_leap_second_known : Timestamp → Bool
is_leap_second_known self = has_flag 0x80 self.octet_7

-- Timestamp_setLeapSecondKnown
unfoldable pub set_leap_second_known : Timestamp → Bool → Timestamp
set_leap_second_known self value = record self { octet_7 = with_flag 0x80 0x7f value self.octet_7 }

-- Timestamp_hasClockFailure
unfoldable pub has_clock_failure : Timestamp → Bool
has_clock_failure self = has_flag 0x40 self.octet_7

-- Timestamp_setClockFailure
unfoldable pub set_clock_failure : Timestamp → Bool → Timestamp
set_clock_failure self value = record self { octet_7 = with_flag 0x40 0xbf value self.octet_7 }

-- Timestamp_isClockNotSynchronized
unfoldable pub is_clock_not_synchronized : Timestamp → Bool
is_clock_not_synchronized self = has_flag 0x20 self.octet_7

-- Timestamp_setClockNotSynchronized
unfoldable pub set_clock_not_synchronized : Timestamp → Bool → Timestamp
set_clock_not_synchronized self value = record self {
  octet_7 = with_flag 0x20 0xdf value self.octet_7;
}

-- Timestamp_getSubsecondPrecision
unfoldable pub get_subsecond_precision : Timestamp → ℕ
get_subsecond_precision self = bit_and self.octet_7 0x1f

-- Timestamp_setSubsecondPrecision, of a number that is not negative.
unfoldable pub set_subsecond_precision : Timestamp → ℕ → Timestamp
set_subsecond_precision self subsecond_precision = record self {
  octet_7 = (bit_and self.octet_7 0xe0 + bit_and (subsecond_precision % 256) 0x1f) % 256;
}

-- The octets of the seconds, cut to a `uint32_t`.
abbrev pub with_seconds : Timestamp → ℕ → Timestamp
with_seconds self timeval32 = record self {
  octet_0 = timeval32 / 0x1000000 % 256;
  octet_1 = timeval32 / 0x10000 % 256;
  octet_2 = timeval32 / 0x100 % 256;
  octet_3 = timeval32 % 256;
}

-- The octets of the fraction of a second.
abbrev pub with_fraction : Timestamp → ℕ → Timestamp
with_fraction self fraction_of_second = record self {
  octet_4 = fraction_of_second / 2 ^ 16 % 256;
  octet_5 = fraction_of_second / 2 ^ 8 % 256;
  octet_6 = fraction_of_second % 256;
}

-- Timestamp_setTimeInSeconds
unfoldable pub set_time_in_seconds : Timestamp → ℕ → Timestamp
set_time_in_seconds self seconds = with_fraction (with_seconds self seconds) 0

-- Timestamp_setTimeInMilliseconds
unfoldable pub set_time_in_milliseconds : Timestamp → ℕ → Timestamp
set_time_in_milliseconds self millis =
    let remainder = millis % 1000 in
    with_fraction (with_seconds self (millis / 1000 % 2 ^ 32))
      (remainder * 16777 + remainder * 216 / 1000)

-- Timestamp_setTimeInNanoseconds
unfoldable pub set_time_in_nanoseconds : Timestamp → ℕ → Timestamp
set_time_in_nanoseconds self ns_time =
    with_fraction (with_seconds self (ns_time / 1000000000 % 2 ^ 32))
      (ns_time % 1000000000 * 2 ^ 24 / 1000000000)

-- Timestamp_getTimeInSeconds
unfoldable pub get_time_in_seconds : Timestamp → ℕ
get_time_in_seconds self =
    self.octet_3 + self.octet_2 * 0x100 + self.octet_1 * 0x10000 + self.octet_0 * 0x1000000

abbrev pub fraction_of : Timestamp → ℕ
fraction_of self = self.octet_4 * 2 ^ 16 + self.octet_5 * 2 ^ 8 + self.octet_6

-- Timestamp_getTimeInMs
unfoldable pub get_time_in_ms : Timestamp → ℕ
unfolding get_time_in_seconds
get_time_in_ms self = get_time_in_seconds self * 1000 + fraction_of self / 16777

-- Timestamp_getTimeInNs
unfoldable pub get_time_in_ns : Timestamp → ℕ
unfolding get_time_in_seconds
get_time_in_ns self = get_time_in_seconds self * 1000000000 + fraction_of self * 1000000000 / 2 ^ 24

-- Timestamp_setByMmsUtcTime
unfoldable pub set_by_mms_utc_time : Timestamp → MmsValue → Outcome Timestamp
set_by_mms_utc_time self (MmsValue.utc_time t) = create_from_byte_array t
set_by_mms_utc_time self v = ok self

-- Timestamp_toMmsValue, for the value that is returned.
unfoldable pub to_mms_value : Timestamp → MmsValue
unfolding val
to_mms_value self = MmsValue.utc_time (val self)

-- Timestamp_fromMmsValue; NULL is `failed`.
unfoldable pub from_mms_value : MmsValue → Outcome Timestamp
from_mms_value (MmsValue.utc_time t) = create_from_byte_array t
from_mms_value v = Outcome.failed
