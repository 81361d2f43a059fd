-- ===== src/Goose/Receiver/DataSet/Safety.antt =====
-- parseAllData of goose/goose_receiver.cc on any input, well formed or not.
use grid_goose_sv.Prelude.{
  ℕ, ◌+◌, ◌^◌, ◌<◌, arith, List, length, drop, ltb, ◌==◌, Bool, ok, All, Ensures, Ensures-bind,
  Ensures-if, Ensures-with, Ensures-on_failure, ◌≡◌, length-drop,
}
use grid_goose_sv.Ber.Decoder.Safety.{
  IsByte, InBounds, decode_length-InBounds, read-Ensures, All-drop,
}
use grid_goose_sv.Memory.{read}
use grid_goose_sv.Ber.Decoder.{decode_length}
use grid_goose_sv.Goose.Receiver.DataSet.Padding.{Padded, AllPadded}
use grid_goose_sv.Mms.Value.{MmsValue, Components}
use grid_goose_sv.Goose.Subscriber.{GooseParseError}
use grid_goose_sv.Goose.Receiver.DataSet.{
  FloatConversions, AllData, is_no_error, parse_element, parse_all_data,
}
use grid_goose_sv.Goose.Receiver.DataSet.Elements.{
  HasSizes, HasRoom, AllHaveRoom, Safe, SafeInteger, parse_bit_string-Safe, parse_integer-Safe,
  parse_float-Safe, parse_octet_string-Safe, parse_visible_string-Safe, parse_binary_time-Safe,
  parse_utc_time-Safe, decode_boolean-Safe,
}

-- The errors that the function can return.
unfoldable pub Returnable : GooseParseError → Type 0
Returnable GooseParseError.no_error = Unit
Returnable GooseParseError.overflow = Unit
Returnable GooseParseError.underflow = Unit
Returnable GooseParseError.type_mismatch = Unit
Returnable GooseParseError.unknown_tag = ⊥
Returnable GooseParseError.tag_decode = ⊥
Returnable GooseParseError.sub_level = ⊥
Returnable GooseParseError.length_mismatch = ⊥

abbrev pub SafeData : AllData → Type 0
SafeData r = AllHaveRoom r.0 × Returnable r.1

module _ (fc : FloatConversions) (sizes : HasSizes fc) where
  mutual
    unfolding parse_element parse_all_data HasRoom AllHaveRoom Returnable Padded AllPadded

    parse_element-Safe :
        (v : MmsValue) (tag : ℕ) (buffer : List ℕ) (buf_pos n : ℕ)
        → All IsByte buffer
        → buf_pos + n < length buffer
        → n < 2 ^ 23
        → HasRoom v
        → Padded v tag buffer buf_pos n
        → Ensures Safe (parse_element fc v tag buffer buf_pos n)
    parse_element-Safe (MmsValue.array cs) tag buffer buf_pos n bytes fits small h short =
        Ensures-if _ (tag == 0xa1) _ _
          (λ e.
            Ensures-bind SafeData Safe _ _
              (parse_all_data-Safe cs (drop buf_pos buffer) 0 n (All-drop buf_pos buffer bytes)
                (omega (arith, length-drop buf_pos buffer)) small h short)
              (λ r hr. hr.0))
          (λ e. h)
    parse_element-Safe (MmsValue.structure cs) tag buffer buf_pos n bytes fits small h short =
        Ensures-if _ (tag == 0xa2) _ _
          (λ e.
            Ensures-bind SafeData Safe _ _
              (parse_all_data-Safe cs (drop buf_pos buffer) 0 n (All-drop buf_pos buffer bytes)
                (omega (arith, length-drop buf_pos buffer)) small h short)
              (λ r hr. hr.0))
          (λ e. h)
    parse_element-Safe (MmsValue.boolean b) tag buffer buf_pos n bytes fits small h short =
        Ensures-if _ (tag == 0x83) _ _
          (λ e.
            Ensures-bind (λ (b : Bool). Unit {0}) Safe _ _
              (decode_boolean-Safe buffer buf_pos n bytes fits) (λ r hr. tt))
          (λ e. h)
    parse_element-Safe (MmsValue.bit_string size bits) tag buffer buf_pos n bytes fits small h
          short =
        Ensures-if _ (tag == 0x84) _ _
          (λ e.
            parse_bit_string-Safe buffer buf_pos n bytes fits size bits h (short (ground arith)))
          (λ e. h)
    parse_element-Safe (MmsValue.integer v) tag buffer buf_pos n bytes fits small h short =
        Ensures-if _ (tag == 0x85) _ _
          (λ e.
            Ensures-bind SafeInteger Safe _ _ (parse_integer-Safe buffer buf_pos n bytes fits v h)
              (λ r hr. hr))
          (λ e. h)
    parse_element-Safe (MmsValue.unsigned v) tag buffer buf_pos n bytes fits small h short =
        Ensures-if _ (tag == 0x86) _ _
          (λ e.
            Ensures-bind SafeInteger Safe _ _ (parse_integer-Safe buffer buf_pos n bytes fits v h)
              (λ r hr. hr))
          (λ e. h)
    parse_element-Safe (MmsValue.float exponent_width format_width octets) tag buffer buf_pos n
          bytes fits small h short =
        Ensures-if _ (tag == 0x87) _ _
          (λ e.
            parse_float-Safe buffer buf_pos n bytes fits fc exponent_width format_width octets sizes
              h)
          (λ e. h)
    parse_element-Safe (MmsValue.octet_string size max_size octets) tag buffer buf_pos n bytes fits
          small h short =
        Ensures-if _ (tag == 0x89) _ _
          (λ e. parse_octet_string-Safe buffer buf_pos n bytes fits max_size octets h) (λ e. h)
    parse_element-Safe (MmsValue.visible_string s size) tag buffer buf_pos n bytes fits small h
          short =
        Ensures-if _ (tag == 0x8a) _ _
          (λ e. parse_visible_string-Safe buffer buf_pos n bytes fits s size h) (λ e. h)
    parse_element-Safe (MmsValue.binary_time size octets) tag buffer buf_pos n bytes fits small h
          short =
        Ensures-if _ (tag == 0x8c) _ _
          (λ e. parse_binary_time-Safe buffer buf_pos n bytes fits size octets h) (λ e. h)
    parse_element-Safe (MmsValue.utc_time octets) tag buffer buf_pos n bytes fits small h short =
        Ensures-if _ (tag == 0x91) _ _
          (λ e. parse_utc_time-Safe buffer buf_pos n bytes fits octets h) (λ e. h)
    parse_element-Safe (MmsValue.mms_string s size) tag buffer buf_pos n bytes fits small h short =
        h
    parse_element-Safe (MmsValue.data_access_error e) tag buffer buf_pos n bytes fits small h
          short =
        h
    parse_element-Safe MmsValue.generalized_time tag buffer buf_pos n bytes fits small h short = h
    parse_element-Safe MmsValue.bcd tag buffer buf_pos n bytes fits small h short = h
    parse_element-Safe MmsValue.obj_id tag buffer buf_pos n bytes fits small h short = h

    parse_all_data-Safe :
        (cs : Components) (buffer : List ℕ) (buf_pos n : ℕ)
        → All IsByte buffer
        → n < length buffer
        → n < 2 ^ 23
        → AllHaveRoom cs
        → AllPadded cs buffer buf_pos n
        → Ensures SafeData (parse_all_data fc cs buffer buf_pos n)
    parse_all_data-Safe Components.nil buffer buf_pos n bytes fits small h short =
        Ensures-if _ (ltb buf_pos n) _ _
          (λ e.
            Ensures-bind IsByte SafeData _ _ (read-Ensures buffer buf_pos bytes (ground arith))
              (λ tag ht. (tt, tt)))
          (λ e. (tt, tt))
    parse_all_data-Safe (Components.null_cons cs) buffer buf_pos n bytes fits small h short =
        Ensures-if _ (ltb buf_pos n) _ _
          (λ e.
            Ensures-bind IsByte SafeData _ _ (read-Ensures buffer buf_pos bytes (ground arith))
              (λ tag ht. (h, tt)))
          (λ e. (h, tt))
    parse_all_data-Safe (Components.cons v cs) buffer buf_pos n bytes fits small h short =
        Ensures-if _ (ltb buf_pos n) _ _
          (λ e.
            Ensures-bind (λ t. IsByte t × (read buffer buf_pos ≡ ok t)) SafeData _ _
              (Ensures-with IsByte _ (read-Ensures buffer buf_pos bytes (ground arith)))
              λ tag ht.
                Ensures-on_failure
                  (λ r. InBounds (buf_pos + 1) n r × (decode_length buffer (buf_pos + 1) n ≡ ok r))
                  SafeData _ _ _
                  (Ensures-with (InBounds (buf_pos + 1) n) _
                    (decode_length-InBounds buffer (buf_pos + 1) n bytes (omega arith) small))
                  (h, tt)
                  λ r hr.
                    let (one, others) = short tag r.0 r.1 ht.1 hr.1 in
                    Ensures-bind Safe SafeData _ _
                      (parse_element-Safe v tag buffer r.0 r.1 bytes (omega (arith, hr.0))
                        (omega (arith, hr.0)) h.0 one)
                      λ p hp.
                        Ensures-if SafeData (is_no_error p.1) _
                          (ok (Components.cons p.0 cs, GooseParseError.underflow))
                          (λ e1.
                            Ensures-bind SafeData SafeData _
                              (λ q. ok (Components.cons p.0 q.0, q.1))
                              (parse_all_data-Safe cs buffer (r.0 + r.1) n bytes fits small h.1
                                others)
                              (λ q hq. ((hp, hq.0), hq.1)))
                          (λ e1. ((hp, h.1), tt)))
          (λ e. (h, tt))

-- On bytes that go on behind the data set, shorter than 2 ^ 15 octets, with less than 8 unused bits
-- for every bit string that is taken, and into values whose arrays have the room that `HasRoom` asks
-- for, the function reads and writes nothing outside its arrays and ends; the values have that room
-- again, and the error that it returns is none, OVERFLOW, UNDERFLOW or TYPE_MISMATCH.
pub parse_all_data-SafeData :
    (fc : FloatConversions) (cs : Components) (buffer : List ℕ) (buf_pos n : ℕ)
    → HasSizes fc
    → All IsByte buffer
    → n < length buffer
    → n < 2 ^ 15
    → AllHaveRoom cs
    → AllPadded cs buffer buf_pos n
    → Ensures SafeData (parse_all_data fc cs buffer buf_pos n)
parse_all_data-SafeData fc cs buffer buf_pos n sizes bytes fits small h short =
    parse_all_data-Safe fc sizes cs buffer buf_pos n bytes fits (omega arith) h short
