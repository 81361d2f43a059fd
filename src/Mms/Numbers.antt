-- ===== src/Mms/Numbers.antt =====
-- The constructors and the accessors of numbers, Booleans and strings in
-- mms/iso_mms/common/mms_value.cc. A read of another field of the union than the value has is a fault.
-- The conversions between `float` and `double`, as octets in memory, are parameters.
pub mod RoundTrip
use grid_goose_sv.Prelude.{
  ℕ, ◌+◌, ◌*◌, ◌%◌, ◌^◌, List, [], ◌∷◌, take, replicate, leb, ◌==◌, if◌then◌else◌, Bool, Option,
  none, some, Outcome, ok, fault, ◌>>=◌,
}
use grid_goose_sv.Memory.{read}
use grid_goose_sv.Ber.Primitive.{Asn1PrimitiveValue, memcpy}
use grid_goose_sv.Ber.Integer.{create_int32, create_int64, create_from_int32, to_int64, to_uint32}
use grid_goose_sv.Mms.Value.{string_of, MmsValue, empty_components}

-- MmsValue_newIntegerFromInt32
unfoldable pub new_integer_from_int32 : ℕ → Outcome MmsValue
new_integer_from_int32 integer = do p ← create_from_int32 integer; ok (MmsValue.integer p)

-- MmsValue_newBoolean
unfoldable pub new_boolean : Bool → MmsValue
new_boolean boolean = MmsValue.boolean boolean

-- MmsValue_newInteger, of a size in bits.
unfoldable pub new_integer : ℕ → MmsValue
new_integer size = MmsValue.integer (if leb size 32 then create_int32 else create_int64)

-- MmsValue_newUnsigned
unfoldable pub new_unsigned : ℕ → MmsValue
new_unsigned size = MmsValue.unsigned (if leb size 32 then create_int32 else create_int64)

-- MmsValue_createEmptyStructure
unfoldable pub create_empty_structure : ℕ → MmsValue
create_empty_structure size = MmsValue.structure (empty_components size)

-- MmsValue_newOctetString, for a maximal size that is not negative.
unfoldable pub new_octet_string : ℕ → ℕ → MmsValue
new_octet_string size max_size =
    MmsValue.octet_string (size % 2 ^ 16) max_size (replicate max_size 0)

-- MmsValue_newFloat: `malloc` leaves the other octets of the field as they are.
unfoldable pub new_float : List ℕ → List ℕ → Outcome MmsValue
new_float junk value = do octets ← memcpy junk value 4; ok (MmsValue.float 8 32 octets)

-- MmsValue_newDouble
unfoldable pub new_double : List ℕ → Outcome MmsValue
new_double value = do octets ← memcpy (replicate 8 0) value 8; ok (MmsValue.float 11 64 octets)

-- MmsValue_setBoolean
unfoldable pub set_boolean : MmsValue → Bool → Outcome MmsValue
set_boolean (MmsValue.boolean b) bool_value = ok (MmsValue.boolean bool_value)
set_boolean v bool_value = fault

-- MmsValue_getBoolean
unfoldable pub get_boolean : MmsValue → Outcome Bool
get_boolean (MmsValue.boolean b) = ok b
get_boolean v = fault

-- MmsValue_toInt64
unfoldable pub value_to_int64 : MmsValue → Outcome ℕ
value_to_int64 (MmsValue.integer p) = to_int64 p
value_to_int64 (MmsValue.unsigned p) = to_int64 p
value_to_int64 v = ok 0

-- MmsValue_toUint32
unfoldable pub value_to_uint32 : MmsValue → Outcome ℕ
value_to_uint32 (MmsValue.integer p) = to_uint32 p
value_to_uint32 (MmsValue.unsigned p) = to_uint32 p
value_to_uint32 v = ok 0

-- MmsValue_getOctetStringSize
unfoldable pub get_octet_string_size : MmsValue → Outcome ℕ
get_octet_string_size (MmsValue.octet_string size max_size octets) = ok size
get_octet_string_size v = fault

-- MmsValue_toString
unfoldable pub value_to_string : MmsValue → Option (List ℕ)
value_to_string (MmsValue.visible_string s size) = string_of s
value_to_string (MmsValue.mms_string s size) = s
value_to_string v = none

module _ (to_double to_float : List ℕ → List ℕ) where
  -- MmsValue_setFloat
  unfoldable pub set_float_value : MmsValue → List ℕ → Outcome MmsValue
  set_float_value (MmsValue.float exponent_width format_width octets) value = do
    stored ←
        (if format_width == 32
          then memcpy octets value 4
          else if format_width == 64
          then memcpy octets (to_double value) 8
          else ok octets)
    ok (MmsValue.float exponent_width format_width stored)
  set_float_value v value = ok v

  -- MmsValue_setDouble
  unfoldable pub set_double_value : MmsValue → List ℕ → Outcome MmsValue
  set_double_value (MmsValue.float exponent_width format_width octets) value = do
    stored ←
        (if format_width == 32
          then memcpy octets (to_float value) 4
          else if format_width == 64
          then memcpy octets value 8
          else ok octets)
    ok (MmsValue.float exponent_width format_width stored)
  set_double_value v value = ok v

  -- MmsValue_toFloat
  unfoldable pub value_to_float : MmsValue → List ℕ
  value_to_float (MmsValue.float exponent_width format_width octets) =
      if format_width == 32
      then take 4 octets
      else if format_width == 64
      then to_float (take 8 octets)
      else replicate 4 0
  value_to_float v = replicate 4 0

-- MmsValue_getBinaryTimeAsUtcMs: `<< 24` and the sums are in a `uint32_t`.
unfoldable pub get_binary_time_as_utc_ms : MmsValue → Outcome ℕ
get_binary_time_as_utc_ms (MmsValue.binary_time size octets) = do
  b0 ← read octets 0
  b1 ← read octets 1
  b2 ← read octets 2
  b3 ← read octets 3
  let ms_since_midnight = (b0 * 2 ^ 24 + b1 * 2 ^ 16 + b2 * 2 ^ 8 + b3) % 2 ^ 32
  timestamp ←
      (if size == 6
        then (do
          b4 ← read octets 4
          b5 ← read octets 5
          ok ((b4 * 256 + b5) * 86400000 + 441763200000))
        else ok 0)
  ok (timestamp + ms_since_midnight)
get_binary_time_as_utc_ms v = fault
