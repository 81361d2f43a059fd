-- ===== src/Mms/BitString.antt =====
-- The bit string accessors of mms/iso_mms/common/mms_value.cc, on the number of bits and the octets
-- of a bit string. Positions are not negative; the code makes no use of others.
pub mod Bits
pub mod Integer
use grid_goose_sv.Prelude.{
  ℕ, zero, suc, ◌+◌, ◌-◌, ◌*◌, ◌/◌, ◌%◌, ◌^◌, bit_and, bit_or, List, Bool, true, false, ltb, leb,
  ◌==◌, not, if◌then◌else◌, Outcome, ok, failed, fault, ◌>>=◌, replicate,
}
use grid_goose_sv.Memory.{read}
use grid_goose_sv.Ber.Bytes.{store}

-- bitStringByteSize
unfoldable pub bit_string_byte_size : ℕ → ℕ
bit_string_byte_size bit_size = bit_size / 8 + (if ltb 0 (bit_size % 8) then 1 else 0)

-- MmsValue_newBitString, for a size that is not negative: the octets are zero.
unfoldable pub new_bit_string : ℕ → ℕ × List ℕ
new_bit_string bit_size = (bit_size, replicate (bit_string_byte_size bit_size) 0)

-- The octet after `|= bitMask` or `&= ~bitMask`.
unfoldable pub change_bit : Bool → ℕ → ℕ → ℕ
change_bit value mask b = if value then bit_or b mask else bit_and b (255 - mask)

-- MmsValue_setBitStringBit
unfoldable pub set_bit_string_bit : ℕ → List ℕ → ℕ → Bool → Outcome (List ℕ)
set_bit_string_bit size buf bit_pos value =
    if ltb bit_pos size
    then (do
      b ← read buf (bit_pos / 8)
      store buf (bit_pos / 8) (change_bit value (2 ^ (7 - bit_pos % 8)) b))
    else ok buf

-- The test of MmsValue_getBitStringBit.
unfoldable pub test_bit : ℕ → ℕ → Bool
test_bit mask b = ltb 0 (bit_and b mask)

-- MmsValue_getBitStringBit
unfoldable pub get_bit_string_bit : ℕ → List ℕ → ℕ → Outcome Bool
get_bit_string_bit size buf bit_pos =
    if ltb bit_pos size
    then (do b ← read buf (bit_pos / 8); ok (test_bit (2 ^ (7 - bit_pos % 8)) b))
    else ok false

-- `value += (1 << i)`; shifting by 32 or more is undefined.
unfoldable pub add_power : ℕ → ℕ → Outcome ℕ
add_power value i = if ltb i 32 then ok ((value + 2 ^ i) % 2 ^ 32) else fault

-- The loop of MmsValue_getBitStringAsInteger from `bit_pos` on, with `rounds` left.
unfoldable pub as_integer_loop : ℕ → ℕ → List ℕ → ℕ → ℕ → Outcome ℕ
as_integer_loop zero size buf bit_pos value = ok value
as_integer_loop (suc rounds) size buf bit_pos value = do
  bit ← get_bit_string_bit size buf bit_pos
  next ← (if bit then add_power value bit_pos else ok value)
  as_integer_loop rounds size buf (bit_pos + 1) next

-- MmsValue_getBitStringAsInteger
unfoldable pub get_bit_string_as_integer : ℕ → List ℕ → Outcome ℕ
get_bit_string_as_integer size buf = as_integer_loop size size buf 0 0

-- The loop of MmsValue_getBitStringAsIntegerBigEndian, from the last bit down.
unfoldable pub as_integer_big_endian_loop : ℕ → ℕ → List ℕ → ℕ → ℕ → Outcome ℕ
as_integer_big_endian_loop zero size buf i value = ok value
as_integer_big_endian_loop (suc bit_pos) size buf i value = do
  bit ← get_bit_string_bit size buf bit_pos
  next ← (if bit then add_power value i else ok value)
  as_integer_big_endian_loop bit_pos size buf (i + 1) next

-- MmsValue_getBitStringAsIntegerBigEndian
unfoldable pub get_bit_string_as_integer_big_endian : ℕ → List ℕ → Outcome ℕ
get_bit_string_as_integer_big_endian size buf = as_integer_big_endian_loop size size buf 0 0

-- The loop of MmsValue_setBitStringFromInteger.
unfoldable pub from_integer_loop : ℕ → ℕ → List ℕ → ℕ → ℕ → Outcome (List ℕ)
from_integer_loop zero size buf bit_pos int_value = ok buf
from_integer_loop (suc rounds) size buf bit_pos int_value = do
  next ← set_bit_string_bit size buf bit_pos (int_value % 2 == 1)
  from_integer_loop rounds size next (bit_pos + 1) (int_value / 2)

-- MmsValue_setBitStringFromInteger
unfoldable pub set_bit_string_from_integer : ℕ → List ℕ → ℕ → Outcome (List ℕ)
set_bit_string_from_integer size buf int_value = from_integer_loop size size buf 0 int_value

-- The loop of MmsValue_setBitStringFromIntegerBigEndian.
unfoldable pub from_integer_big_endian_loop : ℕ → ℕ → List ℕ → ℕ → Outcome (List ℕ)
from_integer_big_endian_loop zero size buf int_value = ok buf
from_integer_big_endian_loop (suc bit_pos) size buf int_value = do
  next ← set_bit_string_bit size buf bit_pos (int_value % 2 == 1)
  from_integer_big_endian_loop bit_pos size next (int_value / 2)

-- MmsValue_setBitStringFromIntegerBigEndian
unfoldable pub set_bit_string_from_integer_big_endian : ℕ → List ℕ → ℕ → Outcome (List ℕ)
set_bit_string_from_integer_big_endian size buf int_value =
    from_integer_big_endian_loop size size buf int_value
