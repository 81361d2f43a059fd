-- ===== src/Goose/Receiver/DataSet.antt =====
-- parseAllData and parseAllDataUnknownValue of goose/goose_receiver.cc. A pointer `buffer + bufPos` is
-- the rest of the array from that position on. The APDU is shorter than 2 ^ 15 octets, so that the
-- `int16_t` and `uint16_t` sizes do not wrap; the allocator succeeds. What the compiler does to
-- convert between `float` and `double` is a parameter.
pub mod Padding
pub mod Elements
pub mod Safety
use grid_goose_sv.Prelude.{
  ℕ, zero, suc, ◌+◌, ◌-◌, ◌*◌, ◌≤◌, List, [], ◌∷◌, ◌++◌, length, take, drop, replicate, reverse,
  Bool, true, false, not, ltb, leb, ◌==◌, ◌&&◌, ◌||◌, if◌then◌else◌, Option, none, some, Outcome,
  ok, failed, fault, stuck, ◌>>=◌, on_failure,
}
use grid_goose_sv.Memory.{read}
use grid_goose_sv.Ber.Primitive.{Asn1PrimitiveValue, create, memcpy}
use grid_goose_sv.Ber.Bytes.{store}
use grid_goose_sv.Ber.Decoder.{decode_length, decode_boolean, read_bytes}
use grid_goose_sv.Mms.Value.{
  MmsValue, Components, array_size, empty_components, set_component, new_binary_time,
}
use grid_goose_sv.Mms.BitString.{new_bit_string}
use grid_goose_sv.Goose.Subscriber.{GooseParseError}

-- The conversions, on the octets of the numbers in memory.
pub record FloatConversions : Type 0 where
  pub to_float : List ℕ → List ℕ
  pub to_double : List ℕ → List ℕ

-- BerDecoder_decodeFloat and BerDecoder_decodeDouble: behind the exponent width, the octets of the
-- number in the reverse order.
unfoldable pub decode_float : List ℕ → ℕ → Outcome (List ℕ)
decode_float buffer buf_pos = do octets ← read_bytes 4 buffer (buf_pos + 1); ok (reverse octets)

unfoldable pub decode_double : List ℕ → ℕ → Outcome (List ℕ)
decode_double buffer buf_pos = do octets ← read_bytes 8 buffer (buf_pos + 1); ok (reverse octets)

-- The error for a tag that is not that of the value's type.
unfoldable pub other_tag : ℕ → ℕ → GooseParseError
other_tag tag element_length =
    if tag == 0x80
    then GooseParseError.no_error
    else if tag == 0x91
    then (if element_length == 8
        then GooseParseError.type_mismatch
        else GooseParseError.length_mismatch)
    else if (tag == 0xa1)
        || (tag == 0xa2)
        || (tag == 0x83)
        || (tag == 0x84)
        || (tag == 0x85)
        || (tag == 0x86)
        || (tag == 0x87)
        || (tag == 0x89)
        || (tag == 0x8a)
        || (tag == 0x8c)
    then GooseParseError.type_mismatch
    else GooseParseError.unknown_tag

abbrev pub is_no_error : GooseParseError → Bool
is_no_error GooseParseError.no_error = true
is_no_error GooseParseError.unknown_tag = false
is_no_error GooseParseError.tag_decode = false
is_no_error GooseParseError.sub_level = false
is_no_error GooseParseError.overflow = false
is_no_error GooseParseError.underflow = false
is_no_error GooseParseError.type_mismatch = false
is_no_error GooseParseError.length_mismatch = false

-- What an element becomes, with the error.
abbrev pub Parsed : Type 0
Parsed = MmsValue × GooseParseError

-- case 0x84
unfoldable pub parse_bit_string : ℕ → List ℕ → List ℕ → ℕ → ℕ → Outcome Parsed
parse_bit_string size bits buffer buf_pos element_length = do
  padding ← read buffer buf_pos
  if size + 8 + padding == 8 * element_length
      then (do
        octets ← memcpy bits (drop (buf_pos + 1) buffer) (element_length - 1)
        ok (MmsValue.bit_string size octets, GooseParseError.no_error))
      else ok (MmsValue.bit_string size bits, GooseParseError.length_mismatch)

-- cases 0x85 and 0x86
unfoldable pub parse_integer :
    Asn1PrimitiveValue → List ℕ → ℕ → ℕ → Outcome (Asn1PrimitiveValue × GooseParseError)
parse_integer v buffer buf_pos element_length =
    if leb element_length v.max_size
    then (do
      octets ← memcpy v.octets (drop buf_pos buffer) element_length
      ok (record v { size = element_length; octets = octets }, GooseParseError.no_error))
    else ok (v, GooseParseError.length_mismatch)

-- case 0x87, with MmsValue_setDouble and MmsValue_setFloat.
unfoldable pub parse_float : FloatConversions → ℕ → ℕ → List ℕ → List ℕ → ℕ → ℕ → Outcome Parsed
parse_float fc exponent_width format_width old buffer buf_pos element_length =
    if element_length == 9
    then (do
      octets ← decode_double buffer buf_pos
      value ←
          (if format_width == 32
            then memcpy old (fc.to_float octets) 4
            else if format_width == 64
            then memcpy old octets 8
            else ok old)
      ok (MmsValue.float exponent_width format_width value, GooseParseError.no_error))
    else if element_length == 5
    then (do
      octets ← decode_float buffer buf_pos
      value ←
          (if format_width == 32
            then memcpy old octets 4
            else if format_width == 64
            then memcpy old (fc.to_double octets) 8
            else ok old)
      ok (MmsValue.float exponent_width format_width value, GooseParseError.no_error))
    else ok (MmsValue.float exponent_width format_width old, GooseParseError.length_mismatch)

-- case 0x89
unfoldable pub parse_octet_string : ℕ → List ℕ → List ℕ → ℕ → ℕ → Outcome Parsed
parse_octet_string max_size old buffer buf_pos element_length =
    if leb element_length max_size
    then (do
      octets ← memcpy old (drop buf_pos buffer) element_length
      ok (MmsValue.octet_string element_length max_size octets, GooseParseError.no_error))
    else (do
      octets ← read_bytes element_length buffer buf_pos
      ok (MmsValue.octet_string element_length element_length octets, GooseParseError.no_error))

-- createNewStringFromBufferElement: a new array with the terminator behind the octets.
unfoldable pub create_new_string : List ℕ → ℕ → ℕ → Outcome Parsed
create_new_string buffer buf_pos element_length = do
  octets ← read_bytes element_length buffer buf_pos
  ok (MmsValue.visible_string (some (octets ++ (0 ∷ []))) element_length, GooseParseError.no_error)

-- case 0x8a: a string that is not longer than the old one is written into its array.
unfoldable pub parse_visible_string : Option (List ℕ) → ℕ → List ℕ → ℕ → ℕ → Outcome Parsed
parse_visible_string none size buffer buf_pos element_length =
    create_new_string buffer buf_pos element_length
parse_visible_string (some old) size buffer buf_pos element_length =
    if leb element_length size
    then (do
      copied ← memcpy old (drop buf_pos buffer) element_length
      stored ← store copied element_length 0
      ok (MmsValue.visible_string (some stored) size, GooseParseError.no_error))
    else create_new_string buffer buf_pos element_length

-- case 0x8c
unfoldable pub parse_binary_time : ℕ → List ℕ → List ℕ → ℕ → ℕ → Outcome Parsed
parse_binary_time size old buffer buf_pos element_length =
    if (element_length == 4) || (element_length == 6)
    then (do
      octets ← memcpy old (drop buf_pos buffer) element_length
      ok (MmsValue.binary_time size octets, GooseParseError.no_error))
    else ok (MmsValue.binary_time size old, GooseParseError.no_error)

-- case 0x91, on a value of that type; MmsValue_setUtcTimeByBuffer
unfoldable pub parse_utc_time : List ℕ → List ℕ → ℕ → ℕ → Outcome Parsed
parse_utc_time old buffer buf_pos element_length =
    if element_length == 8
    then (do
      octets ← read_bytes 8 buffer buf_pos
      ok (MmsValue.utc_time octets, GooseParseError.no_error))
    else ok (MmsValue.utc_time old, GooseParseError.length_mismatch)

abbrev as_value : (Asn1PrimitiveValue → MmsValue) → Asn1PrimitiveValue × GooseParseError → Parsed
as_value f (v, pe) = (f v, pe)

-- The result of a nested call.
abbrev sub_error : GooseParseError → GooseParseError
sub_error pe = if is_no_error pe then GooseParseError.no_error else GooseParseError.sub_level

-- The end of the loop of parseAllData at an element: an error leaves the loop in front of
-- `elementIndex++`, so that the test behind the loop finds too few elements.
abbrev pub AllData : Type 0
AllData = Components × GooseParseError

module _ (fc : FloatConversions) where
  unfoldable mutual
    -- The `switch` of parseAllData.
    pub parse_element : MmsValue → ℕ → List ℕ → ℕ → ℕ → Outcome Parsed
    parse_element (MmsValue.array cs) tag buffer buf_pos element_length =
        let nested = parse_all_data cs (drop buf_pos buffer) 0 element_length in
        if tag == 0xa1
        then (nested >>= λ r. ok (MmsValue.array r.0, sub_error r.1))
        else ok (MmsValue.array cs, other_tag tag element_length)
    parse_element (MmsValue.structure cs) tag buffer buf_pos element_length =
        let nested = parse_all_data cs (drop buf_pos buffer) 0 element_length in
        if tag == 0xa2
        then (nested >>= λ r. ok (MmsValue.structure r.0, sub_error r.1))
        else ok (MmsValue.structure cs, other_tag tag element_length)
    parse_element (MmsValue.boolean b) tag buffer buf_pos element_length =
        if tag == 0x83
        then (decode_boolean buffer buf_pos >>= λ value.
            ok (MmsValue.boolean value, GooseParseError.no_error))
        else ok (MmsValue.boolean b, other_tag tag element_length)
    parse_element (MmsValue.bit_string size bits) tag buffer buf_pos element_length =
        if tag == 0x84
        then parse_bit_string size bits buffer buf_pos element_length
        else ok (MmsValue.bit_string size bits, other_tag tag element_length)
    parse_element (MmsValue.integer v) tag buffer buf_pos element_length =
        if tag == 0x85
        then (parse_integer v buffer buf_pos element_length >>= λ r.
            ok (as_value MmsValue.integer r))
        else ok (MmsValue.integer v, other_tag tag element_length)
    parse_element (MmsValue.unsigned v) tag buffer buf_pos element_length =
        if tag == 0x86
        then (parse_integer v buffer buf_pos element_length >>= λ r.
            ok (as_value MmsValue.unsigned r))
        else ok (MmsValue.unsigned v, other_tag tag element_length)
    parse_element (MmsValue.float exponent_width format_width octets) tag buffer buf_pos
          element_length =
        if tag == 0x87
        then parse_float fc exponent_width format_width octets buffer buf_pos element_length
        else ok (MmsValue.float exponent_width format_width octets, other_tag tag element_length)
    parse_element (MmsValue.octet_string size max_size octets) tag buffer buf_pos element_length =
        if tag == 0x89
        then parse_octet_string max_size octets buffer buf_pos element_length
        else ok (MmsValue.octet_string size max_size octets, other_tag tag element_length)
    parse_element (MmsValue.visible_string s size) tag buffer buf_pos element_length =
        if tag == 0x8a
        then parse_visible_string s size buffer buf_pos element_length
        else ok (MmsValue.visible_string s size, other_tag tag element_length)
    parse_element (MmsValue.binary_time size octets) tag buffer buf_pos element_length =
        if tag == 0x8c
        then parse_binary_time size octets buffer buf_pos element_length
        else ok (MmsValue.binary_time size octets, other_tag tag element_length)
    parse_element (MmsValue.utc_time octets) tag buffer buf_pos element_length =
        if tag == 0x91
        then parse_utc_time octets buffer buf_pos element_length
        else ok (MmsValue.utc_time octets, other_tag tag element_length)
    parse_element (MmsValue.mms_string s size) tag buffer buf_pos element_length =
        ok (MmsValue.mms_string s size, other_tag tag element_length)
    parse_element (MmsValue.data_access_error e) tag buffer buf_pos element_length =
        ok (MmsValue.data_access_error e, other_tag tag element_length)
    parse_element MmsValue.generalized_time tag buffer buf_pos element_length =
        ok (MmsValue.generalized_time, other_tag tag element_length)
    parse_element MmsValue.bcd tag buffer buf_pos element_length =
        ok (MmsValue.bcd, other_tag tag element_length)
    parse_element MmsValue.obj_id tag buffer buf_pos element_length =
        ok (MmsValue.obj_id, other_tag tag element_length)

    -- parseAllData from `buf_pos` on, with the elements that are left.
    pub parse_all_data : Components → List ℕ → ℕ → ℕ → Outcome AllData
    parse_all_data Components.nil buffer buf_pos all_data_length =
        if ltb buf_pos all_data_length
        then (read buffer buf_pos >>= λ tag. ok (Components.nil, GooseParseError.overflow))
        else ok (Components.nil, GooseParseError.no_error)
    parse_all_data (Components.null_cons cs) buffer buf_pos all_data_length =
        if ltb buf_pos all_data_length
        then (read buffer buf_pos >>= λ tag.
            ok (Components.null_cons cs, GooseParseError.type_mismatch))
        else ok (Components.null_cons cs, GooseParseError.underflow)
    parse_all_data (Components.cons v cs) buffer buf_pos all_data_length =
        let element = parse_element v in
        let rest = parse_all_data cs buffer in
        if ltb buf_pos all_data_length
        then (do
          tag ← read buffer buf_pos
          on_failure (decode_length buffer (buf_pos + 1) all_data_length)
              (ok (Components.cons v cs, GooseParseError.underflow))
              (λ r. element tag buffer r.0 r.1 >>= λ p.
                if is_no_error p.1
                then (rest (r.0 + r.1) all_data_length >>= λ q. ok (Components.cons p.0 q.0, q.1))
                else ok (Components.cons p.0 cs, GooseParseError.underflow)))
        else ok (Components.cons v cs, GooseParseError.underflow)
