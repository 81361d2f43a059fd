-- ===== src/Ber/Integer.antt =====
-- mms/asn1/ber_integer.cc: machine integers as primitive values and back. A signed number is its bit
-- pattern. The local arrays of the setters are overwritten whole before they are read.
pub mod RoundTrip
use grid_goose_sv.Prelude.{
  ℕ, zero, suc, ◌+◌, ◌*◌, ◌%◌, ◌^◌, ◌-◌, bit_and, List, [], ◌∷◌, ◌++◌, length, leb, ltb, ◌==◌,
  if◌then◌else◌, Bool, true, false, Outcome, ok, fault, ◌>>=◌,
}
use grid_goose_sv.Memory.{read}
use grid_goose_sv.Ber.Bytes.{le_bytes, revert_byte_order, compress_integer}
use grid_goose_sv.Ber.Primitive.{Asn1PrimitiveValue, create, memcpy}

-- setIntegerValue: the value, and whether it fits. `value_buffer` has `bufferSize` octets.
unfoldable pub set_integer_value : Asn1PrimitiveValue → List ℕ → Outcome (Asn1PrimitiveValue × Bool)
set_integer_value self value_buffer = do
  reverted ← revert_byte_order 0 (length value_buffer) value_buffer
  (compressed, size) ← compress_integer reverted
  if leb size self.max_size
      then (do
        octets ← memcpy self.octets compressed size
        ok (record self { size = size % 256; octets = octets }, true))
      else ok (self, false)

-- BerInteger_createInt32
abbrev pub create_int32 : Asn1PrimitiveValue
create_int32 = create 5

-- BerInteger_createFromBuffer
unfoldable pub create_from_buffer : List ℕ → ℕ → Outcome Asn1PrimitiveValue
create_from_buffer buf size = do
  let self = create (if ltb 8 size then size else 8)
  octets ← memcpy self.octets buf size
  ok (record self { size = size % 256; octets = octets })

-- BerInteger_setFromBerInteger
unfoldable pub set_from_ber_integer :
    Asn1PrimitiveValue → Asn1PrimitiveValue → Outcome (Asn1PrimitiveValue × Bool)
set_from_ber_integer self value =
    if leb value.size self.max_size
    then (do
      octets ← memcpy self.octets value.octets value.size
      ok (record self { size = value.size; octets = octets }, true))
    else ok (self, false)

-- BerInteger_setInt32
unfoldable pub set_int32_value : Asn1PrimitiveValue → ℕ → Outcome (Asn1PrimitiveValue × Bool)
set_int32_value self value = set_integer_value self (le_bytes 4 value)

-- BerInteger_createFromInt32
unfoldable pub create_from_int32 : ℕ → Outcome Asn1PrimitiveValue
create_from_int32 value = do (self, stored) ← set_int32_value create_int32 value; ok self

-- BerInteger_setUint16
unfoldable pub set_uint16_value : Asn1PrimitiveValue → ℕ → Outcome (Asn1PrimitiveValue × Bool)
set_uint16_value self value = set_integer_value self (le_bytes 2 value ++ (0 ∷ []))

-- BerInteger_setUint8
unfoldable pub set_uint8_value : Asn1PrimitiveValue → ℕ → Outcome (Asn1PrimitiveValue × Bool)
set_uint8_value self value = set_integer_value self (le_bytes 1 value)

-- BerInteger_setUint32
unfoldable pub set_uint32_value : Asn1PrimitiveValue → ℕ → Outcome (Asn1PrimitiveValue × Bool)
set_uint32_value self value = set_integer_value self (le_bytes 4 value ++ (0 ∷ []))

-- BerInteger_createFromUint32
unfoldable pub create_from_uint32 : ℕ → Outcome Asn1PrimitiveValue
create_from_uint32 value = do (self, stored) ← set_uint32_value create_int32 value; ok self

-- BerInteger_createInt64
abbrev pub create_int64 : Asn1PrimitiveValue
create_int64 = create 9

-- BerInteger_setInt64
unfoldable pub set_int64_value : Asn1PrimitiveValue → ℕ → Outcome (Asn1PrimitiveValue × Bool)
set_int64_value self value = set_integer_value self (le_bytes 8 value)

-- BerInteger_createFromInt64
unfoldable pub create_from_int64 : ℕ → Outcome Asn1PrimitiveValue
create_from_int64 value = do (self, stored) ← set_int64_value create_int64 value; ok self

-- The loops that shift the octets into a word of `bits` bits, with `n` rounds left.
unfoldable pub shift_octets : ℕ → ℕ → ℕ → ℕ → List ℕ → Outcome ℕ
shift_octets bits zero i value buf = ok value
shift_octets bits (suc n) i value buf = do
  b ← read buf i
  shift_octets bits n (i + 1) ((value * 256 % 2 ^ bits + b) % 2 ^ bits) buf

-- What the words of BerInteger_toInt32 and toInt64 are set to before the loop.
unfoldable pub sign_extension : ℕ → ℕ → ℕ
sign_extension bits b = if bit_and b 0x80 == 0 then 0 else 2 ^ bits - 1

-- BerInteger_toInt32
unfoldable pub to_int32 : Asn1PrimitiveValue → Outcome ℕ
to_int32 self = do
  b ← read self.octets 0
  shift_octets 32 self.size 0 (sign_extension 32 b) self.octets

-- BerInteger_toUint32
unfoldable pub to_uint32 : Asn1PrimitiveValue → Outcome ℕ
to_uint32 self = shift_octets 32 self.size 0 0 self.octets

-- BerInteger_toInt64
unfoldable pub to_int64 : Asn1PrimitiveValue → Outcome ℕ
to_int64 self = do
  b ← read self.octets 0
  shift_octets 64 self.size 0 (sign_extension 64 b) self.octets
