-- ===== src/Ber/Encoder.antt =====
-- The encoders of mms/asn1/ber_encoder.cc on a little-endian machine. Each writes at the cursor and
-- moves it on; a C string is the list of its characters before the terminator, and NULL is `none`.
pub mod Integers
pub mod Strings
pub mod BitString
pub mod Floats
use grid_goose_sv.Prelude.{
  ℕ, zero, suc, ◌+◌, ◌-◌, ◌*◌, ◌/◌, ◌%◌, ◌^◌, bit_and, List, [], ◌∷◌, length, drop, take, ltb, ◌==◌,
  if◌then◌else◌, set, Bool, true, false, Option, none, some, Outcome, ok, fault, ◌>>=◌,
}
use grid_goose_sv.Memory.{Cursor, put, read}
use grid_goose_sv.Ber.Length.{encode_length, encode_tl, determine_length_size}
use grid_goose_sv.Ber.Bytes.{le_bytes, revert_byte_order, compress_integer, store}
use grid_goose_sv.Ber.Primitive.{Asn1PrimitiveValue}

-- `for (i = 0; i < n; i++) buffer[bufPos++] = source[i]`, with `n` rounds left at index `i`.
unfoldable pub copy_bytes : ℕ → ℕ → List ℕ → Cursor → Outcome Cursor
copy_bytes zero i source c = ok c
copy_bytes (suc n) i source c = do b ← read source i; c1 ← put b c; copy_bytes n (i + 1) source c1

-- BerEncoder_encodeBoolean
unfoldable pub encode_boolean : ℕ → Bool → Cursor → Outcome Cursor
encode_boolean tag value c = do
  c1 ← put tag c
  c2 ← put 1 c1
  if value then put 0x01 c2 else put 0x00 c2

-- BerEncoder_encodeStringWithTag
unfoldable pub encode_string_with_tag : ℕ → Option (List ℕ) → Cursor → Outcome Cursor
encode_string_with_tag tag none c = do c1 ← put tag c; put 0 c1
encode_string_with_tag tag (some string) c = do
  c1 ← put tag c
  c2 ← encode_length (length string) c1
  copy_bytes (length string) 0 string c2

-- BerEncoder_encodeAsn1PrimitiveValue
unfoldable pub encode_asn1_primitive_value : ℕ → Asn1PrimitiveValue → Cursor → Outcome Cursor
encode_asn1_primitive_value tag value c = do
  c1 ← put tag c
  c2 ← encode_length value.size c1
  copy_bytes value.size 0 value.octets c2

-- BerEncoder_encodeOctetString
unfoldable pub encode_octet_string : ℕ → List ℕ → ℕ → Cursor → Outcome Cursor
encode_octet_string tag octet_string octet_string_size c = do
  c1 ← put tag c
  c2 ← encode_length octet_string_size c1
  copy_bytes octet_string_size 0 octet_string c2

-- The number of bytes that hold `bit_string_size` bits.
unfoldable pub bit_string_bytes : ℕ → ℕ
bit_string_bytes bit_string_size =
    if bit_string_size % 8 == 0 then bit_string_size / 8 else bit_string_size / 8 + 1

-- `paddingMask += (1 << i)` for `i` from 0 on, in a `uint8_t`, with `n` rounds left.
unfoldable pub padding_mask : ℕ → ℕ → ℕ → ℕ
padding_mask zero i mask = mask
padding_mask (suc n) i mask = padding_mask n (i + 1) ((mask + 2 ^ i) % 256)

-- `buffer[bufPos - 1] = buffer[bufPos - 1] & paddingMask`
unfoldable pub clear_padding : ℕ → Cursor → Outcome Cursor
clear_padding mask c = do
  last ← read c.buffer (c.pos - 1)
  buffer ← store c.buffer (c.pos - 1) (bit_and last mask)
  ok (record { buffer = buffer; pos = c.pos })

-- BerEncoder_encodeBitString
unfoldable pub encode_bit_string : ℕ → ℕ → List ℕ → Cursor → Outcome Cursor
encode_bit_string tag bit_string_size bit_string c = do
  c1 ← put tag c
  let byte_size = bit_string_bytes bit_string_size
  let padding = byte_size * 8 - bit_string_size
  c2 ← encode_length (byte_size + 1) c1
  c3 ← put (padding % 256) c2
  c4 ← copy_bytes byte_size 0 bit_string c3
  clear_padding (255 - padding_mask padding 0 0) c4

-- BerEncoder_determineEncodedBitStringSize
unfoldable pub determine_encoded_bit_string_size : ℕ → ℕ
determine_encoded_bit_string_size bit_string_size =
    2 + determine_length_size (bit_string_bytes bit_string_size) + bit_string_bytes bit_string_size

-- `valueBuffer` of the unsigned encoders: a zero octet, then the value in network byte order, with
-- the redundant octets taken off; the array and the number of its octets that count.
unfoldable pub uint32_value_buffer : ℕ → Outcome (List ℕ × ℕ)
uint32_value_buffer value = do
  value_buffer ← revert_byte_order 1 4 (0 ∷ le_bytes 4 value)
  compress_integer value_buffer

-- BerEncoder_encodeUInt32
unfoldable pub encode_uint32 : ℕ → Cursor → Outcome Cursor
encode_uint32 value c = do
  (value_buffer, size) ← uint32_value_buffer value
  copy_bytes size 0 value_buffer c

-- The first loop of BerEncoder_encodeInt32, `valueBuffer[3 - i] = valueArray[i]`.
unfoldable pub reverse_copy : ℕ → ℕ → List ℕ → List ℕ → Outcome (List ℕ)
reverse_copy zero i value_array value_buffer = ok value_buffer
reverse_copy (suc n) i value_array value_buffer = do
  b ← read value_array i
  value_buffer1 ← store value_buffer (3 - i) b
  reverse_copy n (i + 1) value_array value_buffer1

-- BerEncoder_encodeInt32; the value is the bit pattern of the `int32_t`, below 2 ^ 32, and `junk` is
-- what the uninitialised local array holds.
unfoldable pub encode_int32 : List ℕ → ℕ → Cursor → Outcome Cursor
encode_int32 junk value c = do
  value_buffer ← reverse_copy 4 0 (le_bytes 4 value) junk
  (value_buffer1, size) ← compress_integer value_buffer
  copy_bytes size 0 value_buffer1 c

-- BerEncoder_encodeUInt32WithTL
unfoldable pub encode_uint32_with_tl : ℕ → ℕ → Cursor → Outcome Cursor
encode_uint32_with_tl tag value c = do
  (value_buffer, size) ← uint32_value_buffer value
  c1 ← put tag c
  c2 ← put (size % 256) c1
  copy_bytes size 0 value_buffer c2

-- BerEncoder_UInt32determineEncodedSize
unfoldable pub uint32_determine_encoded_size : ℕ → Outcome ℕ
uint32_determine_encoded_size value = do (value_buffer, size) ← uint32_value_buffer value; ok size

-- BerEncoder_encodeFloat: the octets of the number, `formatWidth` bits in the machine's byte order,
-- are copied behind the exponent width and reversed in place.
unfoldable pub encode_float : List ℕ → ℕ → ℕ → Cursor → Outcome Cursor
encode_float float_value format_width exponent_width c = do
  let byte_size = format_width / 8
  c1 ← put exponent_width c
  c2 ← copy_bytes byte_size 0 float_value c1
  buffer ← revert_byte_order (c.pos + 1) byte_size c2.buffer
  ok (record { buffer = buffer; pos = c.pos + 1 + byte_size })

-- BerEncoder_determineEncodedStringSize
unfoldable pub determine_encoded_string_size : Option (List ℕ) → ℕ
determine_encoded_string_size none = 2
determine_encoded_string_size (some string) =
    1 + determine_length_size (length string) + length string
