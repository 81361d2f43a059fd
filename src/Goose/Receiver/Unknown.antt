-- ===== src/Goose/Receiver/Unknown.antt =====
-- parseAllDataUnknownValue of goose/goose_receiver.cc; `failed` is the result NULL. The flag
-- `dataSetValuesSelfAllocated` is set by the caller in `Payload`, where the whole call succeeds.
pub mod Safety
use grid_goose_sv.Prelude.{
  ◌++◌, ℕ, zero, suc, ◌+◌, ◌-◌, ◌*◌, List, [], ◌∷◌, length, drop, replicate, Bool, true, false, ltb,
  leb, ◌==◌, ◌||◌, if◌then◌else◌, Option, none, some, Outcome, ok, failed, fault, stuck, ◌>>=◌,
}
use grid_goose_sv.Memory.{read}
use grid_goose_sv.Ber.Primitive.{Asn1PrimitiveValue, create, memcpy}
use grid_goose_sv.Ber.Decoder.{decode_length, decode_boolean, read_bytes}
use grid_goose_sv.Mms.Value.{MmsValue, Components, empty_components, set_component, new_binary_time}
use grid_goose_sv.Mms.BitString.{bit_string_byte_size}
use grid_goose_sv.Goose.Receiver.DataSet.{decode_float, decode_double}

-- The tags of the first `switch`.
unfoldable pub is_known_tag : ℕ → Bool
is_known_tag tag =
    (tag == 0x80)
    || (tag == 0xa1)
    || (tag == 0xa2)
    || (tag == 0x83)
    || (tag == 0x84)
    || (tag == 0x85)
    || (tag == 0x86)
    || (tag == 0x87)
    || (tag == 0x89)
    || (tag == 0x8a)
    || (tag == 0x8c)
    || (tag == 0x91)

-- The first loop: the number of elements.
unfoldable pub count_elements : ℕ → List ℕ → ℕ → ℕ → ℕ → Outcome ℕ
count_elements zero buffer buf_pos all_data_length element_index = stuck
count_elements (suc fuel) buffer buf_pos all_data_length element_index =
    let rest = count_elements fuel buffer in
    if ltb buf_pos all_data_length
    then (do
      tag ← read buffer buf_pos
      r ← decode_length buffer (buf_pos + 1) all_data_length
      if is_known_tag tag then rest (r.0 + r.1) all_data_length (element_index + 1) else failed)
    else ok element_index

-- case 0x84
unfoldable pub new_bit_string_from : List ℕ → ℕ → ℕ → Outcome MmsValue
new_bit_string_from buffer buf_pos element_length =
    if ltb 1 element_length
    then (do
      padding ← read buffer buf_pos
      let size = (element_length - 1) * 8 - padding
      octets ←
          (if ltb 7 padding
            then failed
            else memcpy (replicate (bit_string_byte_size size) 0) (drop (buf_pos + 1) buffer)
                (element_length - 1))
      ok (MmsValue.bit_string size octets))
    else failed

-- cases 0x85 and 0x86: MmsValue_newInteger with BerInteger_createInt32 or BerInteger_createInt64.
unfoldable pub new_integer_from : List ℕ → ℕ → ℕ → Outcome Asn1PrimitiveValue
new_integer_from buffer buf_pos element_length = if ltb 8 element_length then failed else (do
  let v = create (if leb (element_length * 8) 32 then 5 else 9)
  octets ← memcpy v.octets (drop buf_pos buffer) element_length
  ok (record v { size = element_length; octets = octets }))

-- The other cases that make a value; `none` where none is made.
unfoldable pub new_value_from : ℕ → List ℕ → ℕ → ℕ → Outcome (Option MmsValue)
new_value_from tag buffer buf_pos element_length =
    if tag == 0x83
    then (do b ← decode_boolean buffer buf_pos; ok (some (MmsValue.boolean b)))
    else if tag == 0x84
    then (do v ← new_bit_string_from buffer buf_pos element_length; ok (some v))
    else if tag == 0x85
    then (do v ← new_integer_from buffer buf_pos element_length; ok (some (MmsValue.integer v)))
    else if tag == 0x86
    then (do v ← new_integer_from buffer buf_pos element_length; ok (some (MmsValue.unsigned v)))
    else if tag == 0x87
    then (if element_length == 9
        then (do v ← decode_double buffer buf_pos; ok (some (MmsValue.float 11 64 v)))
        else if element_length == 5
        then (do v ← decode_float buffer buf_pos; ok (some (MmsValue.float 8 32 v)))
        else ok none)
    else if tag == 0x89
    then (do
      v ← read_bytes element_length buffer buf_pos
      ok (some (MmsValue.octet_string element_length element_length v)))
    else if tag == 0x8a
    then (do
      v ← read_bytes element_length buffer buf_pos
      ok (some (MmsValue.visible_string (some (v ++ (0 ∷ []))) element_length)))
    else if tag == 0x8c
    then (if (element_length == 4) || (element_length == 6)
        then (do
          v ← memcpy (replicate 6 0) (drop buf_pos buffer) element_length
          ok (some (MmsValue.binary_time element_length v)))
        else ok none)
    else if tag == 0x91
    then (if element_length == 8
        then (do v ← read_bytes 8 buffer buf_pos; ok (some (MmsValue.utc_time v)))
        else ok none)
    else failed

abbrev pub place : Components → ℕ → Option MmsValue → Components × ℕ
place cs element_index none = (cs, element_index)
place cs element_index (some v) = (set_component cs element_index (some v), element_index + 1)

abbrev pub collect : Bool → Components → MmsValue
collect true cs = MmsValue.structure cs
collect false cs = MmsValue.array cs

unfoldable mutual
  pub parse_all_data_unknown_value : ℕ → List ℕ → ℕ → Bool → Outcome MmsValue
  parse_all_data_unknown_value zero buffer all_data_length is_structure = stuck
  parse_all_data_unknown_value (suc fuel) buffer all_data_length is_structure = do
    n ← count_elements (all_data_length + 1) buffer 0 all_data_length 0
    cs ← fill_elements fuel buffer 0 all_data_length 0 (empty_components n)
    ok (collect is_structure cs)

  -- The second loop.
  pub fill_elements : ℕ → List ℕ → ℕ → ℕ → ℕ → Components → Outcome Components
  fill_elements zero buffer buf_pos all_data_length element_index cs = stuck
  fill_elements (suc fuel) buffer buf_pos all_data_length element_index cs =
      let nested = parse_all_data_unknown_value fuel in
      let rest = fill_elements fuel buffer in
      if ltb buf_pos all_data_length
      then (do
        tag ← read buffer buf_pos
        r ← decode_length buffer (buf_pos + 1) all_data_length
        value ←
            (if tag == 0xa1
              then (nested (drop r.0 buffer) r.1 false >>= λ v. ok (some v))
              else if tag == 0xa2
              then (nested (drop r.0 buffer) r.1 true >>= λ v. ok (some v))
              else new_value_from tag buffer r.0 r.1)
        let placed = place cs element_index value
        rest (r.0 + r.1) all_data_length placed.1 placed.0)
      else ok cs
