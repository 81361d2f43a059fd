-- ===== src/Examples/Common.antt =====
-- The theorems on integers, time stamps and names at concrete inputs.
use grid_goose_sv.Prelude.{
  ◌+◌, ◌≤◌, ◌≡◌, ◌≢◌, ◌↔◌, arith, [], ◌∷◌, ◌++◌, drop, ltb, if◌then◌else◌, true, none, some, ok,
  failed, fault, replicate,
}
use grid_goose_sv.Ber.Primitive.{Asn1PrimitiveValue}
use grid_goose_sv.Ber.Encoder.Integers.{int32_octets, uint32_octets}
use grid_goose_sv.Ber.Encoder.Strings.{tlv}
use grid_goose_sv.Ber.Integer.{
  create_from_int32, create_from_uint32, create_from_int64, to_int32, to_uint32, to_int64,
}
use grid_goose_sv.Ber.Integer.RoundTrip.{IsStored, int64_octets, create-IsStored}
use grid_goose_sv.Mms.Value.{MmsValue}
use grid_goose_sv.Memory.{Writes}
use grid_goose_sv.Mms.Encode.{encode_mms_data}
use grid_goose_sv.Mms.Numbers.{new_integer_from_int32, value_to_int64}
use grid_goose_sv.Mms.Numbers.RoundTrip.{extended, value_to_int64-new_integer_from_int32}
use grid_goose_sv.Iec61850.Timestamp.{
  create_timestamp, set_time_in_seconds, set_time_in_milliseconds, set_time_in_nanoseconds,
  get_time_in_seconds, get_time_in_ms, get_time_in_ns, set_leap_second_known, set_clock_failure,
  set_clock_not_synchronized, set_subsecond_precision,
}
use grid_goose_sv.Iec61850.Timestamp.Times.{get-set_time}
use grid_goose_sv.Iec61850.Timestamp.Flags.{flags_of, set-flags_of}
use grid_goose_sv.Iec61850.Quality.{
  quality_to_mms_value, quality_from_mms_value, dbpos_to_mms_value, dbpos_from_mms_value,
  from-to_mms_value,
}
use grid_goose_sv.Iec61850.Constraint.{
  mx, no_constraint, constraint_to_string, constraint_from_string, constraint_to-from_string,
}
use grid_goose_sv.Iec61850.Names.{create_named}
use grid_goose_sv.Iec61850.Names.Variable.{mms_name, create_named-mms_name}

create-IsStored_example :
    ((p : Asn1PrimitiveValue) × (create_from_int32 4294967295 ≡ ok p)
      × IsStored (int32_octets 4294967295) p
      × (to_int32 p ≡ ok 4294967295))
    × ((p : Asn1PrimitiveValue) × (create_from_uint32 4294967295 ≡ ok p)
        × IsStored (uint32_octets 4294967295) p
        × (to_uint32 p ≡ ok 4294967295))
    × ((p : Asn1PrimitiveValue) × (create_from_int64 18446744073709551488 ≡ ok p)
        × IsStored (int64_octets 18446744073709551488) p
        × (to_int64 p ≡ ok 18446744073709551488))
create-IsStored_example =
    create-IsStored 4294967295 18446744073709551488 (omega arith) (omega arith)

value_to_int64-new_integer_from_int32_example :
    (m : MmsValue) × (new_integer_from_int32 4294967168 ≡ ok m)
    × Writes (encode_mms_data m) (tlv 0x85 (int32_octets 4294967168))
    × (value_to_int64 m ≡ ok (extended 4294967168))
value_to_int64-new_integer_from_int32_example =
    value_to_int64-new_integer_from_int32 4294967168 (omega arith)

get-set_time_example :
    (get_time_in_seconds (set_time_in_seconds create_timestamp 1700000000) ≡ 1700000000)
    × (get_time_in_ms (set_time_in_milliseconds create_timestamp 1700000000999) ≡ 1700000000999)
    × (get_time_in_ns (set_time_in_nanoseconds create_timestamp 1700000000123456789)
        ≤ 1700000000123456789)
    × (1700000000123456789
        ≤ get_time_in_ns (set_time_in_nanoseconds create_timestamp 1700000000123456789) + 60)
    × ((set_time_in_seconds create_timestamp 1700000000).octet_7 ≡ 0)
    × ((set_time_in_milliseconds create_timestamp 1700000000999).octet_7 ≡ 0)
    × ((set_time_in_nanoseconds create_timestamp 1700000000123456789).octet_7 ≡ 0)
get-set_time_example =
    get-set_time create_timestamp 1700000000 1700000000999 1700000000123456789 (omega arith)
      (omega arith) (omega arith)

set-flags_of_example :
    let (leap, failure, unsynchronized, precision) = flags_of create_timestamp in
    (flags_of (set_leap_second_known create_timestamp true)
      ≡ (true, failure, unsynchronized, precision))
    × (flags_of (set_clock_failure create_timestamp true) ≡ (leap, true, unsynchronized, precision))
    × (flags_of (set_clock_not_synchronized create_timestamp true)
        ≡ (leap, failure, true, precision))
    × (flags_of (set_subsecond_precision create_timestamp 24) ≡ (leap, failure, unsynchronized, 24))
set-flags_of_example = set-flags_of create_timestamp true 24 (omega arith) (omega arith)

from-to_mms_value_example :
    ((v : MmsValue) × (quality_to_mms_value 2051 none ≡ ok v)
      × (quality_from_mms_value v ≡ ok 2051))
    × ((v : MmsValue) × (dbpos_to_mms_value none 2 ≡ ok v) × (dbpos_from_mms_value v ≡ ok 2))
from-to_mms_value_example = from-to_mms_value 2051 2 (omega arith) (omega arith)

constraint_to-from_string_example :
    (constraint_to_string mx ≡ some (77, 88))
    ↔ ((constraint_from_string 77 88 ≡ mx) × (mx ≢ no_constraint))
constraint_to-from_string_example = constraint_to-from_string mx 77 88

-- A.B, and the letters ST.
create_named-mms_name_example :
    let made = mms_name 83 84 (65 ∷ 46 ∷ 66 ∷ []) ++ (0 ∷ []) in
    (create_named 83 84 (65 ∷ 46 ∷ 66 ∷ []) none ≡ (if ltb 62 3 then failed else ok made))
    × (create_named 83 84 (65 ∷ 46 ∷ 66 ∷ []) (some (replicate 9 1)) ≡ (
        if ltb 62 3
        then failed
        else if ltb 9 7
        then fault
        else ok (made ++ drop 7 (replicate 9 1))))
create_named-mms_name_example = create_named-mms_name 83 84 (65 ∷ 46 ∷ 66 ∷ []) (replicate 9 1)
