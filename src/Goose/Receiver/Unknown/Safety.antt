-- ===== src/Goose/Receiver/Unknown/Safety.antt =====
-- parseAllDataUnknownValue of goose/goose_receiver.cc on any input, well formed or not.
use grid_goose_sv.Prelude.{
  ℕ, zero, suc, ◌+◌, ◌*◌, ◌-◌, ◌%◌, ◌^◌, ◌≤◌, ◌<◌, ◌≡◌, arith, List, length, reverse, drop, ltb,
  ◌==◌, ◌||◌, Bool, true, false, Option, replicate, Outcome, ok, ◌>>=◌, All, Ensures, Ensures-bind,
  Ensures-if, Ensures-weaken, Bool-cases, inl, inr, ltb→lt, length-drop, length-replicate,
}
use grid_goose_sv.Ber.Primitive.{Asn1PrimitiveValue, create, memcpy}
use grid_goose_sv.Ber.Decoder.{decode_boolean, read_bytes}
use grid_goose_sv.Ber.Decoder.Safety.{
  IsByte, InBounds, decode_length-InBounds, read-Ensures, All-drop, read_bytes-Ensures,
  memcpy-Ensures,
}
use grid_goose_sv.Mms.Value.{MmsValue, Components, empty_components}
use grid_goose_sv.Mms.BitString.{bit_string_byte_size}
use grid_goose_sv.Goose.Receiver.DataSet.{decode_float, decode_double}
use grid_goose_sv.Goose.Receiver.Unknown.{
  is_known_tag, count_elements, new_bit_string_from, new_integer_from, new_value_from,
  parse_all_data_unknown_value, fill_elements,
}

abbrev Any : {A : Type 0} → A → Type 0
Any a = Unit {0}

copied :
    (to from : List ℕ) (k : ℕ) → k ≤ length to → k ≤ length from → Ensures Any (memcpy to from k)
copied to from k h h' =
    Ensures-weaken (λ out. length out ≡ length to) Any _ (memcpy-Ensures to from k h h')
      (λ out ho. tt)

module _ (buffer : List ℕ) (bytes : All IsByte buffer) (n : ℕ) (fits : n < length buffer)
    (small : n < 2 ^ 23) where
  count_elements-Ends :
      (fuel buf_pos element_index : ℕ)
      → n - buf_pos < fuel
      → Ensures (λ (k : ℕ). Unit {0}) (count_elements fuel buffer buf_pos n element_index)
  unfolding count_elements
  count_elements-Ends zero buf_pos element_index h = absurd (omega arith)
  count_elements-Ends (suc fuel) buf_pos element_index h =
      Ensures-if _ (ltb buf_pos n) _ _
        (λ e.
          Ensures-bind IsByte Any _ _ (read-Ensures buffer buf_pos bytes (ground arith)) λ tag ht.
            Ensures-bind (InBounds (buf_pos + 1) n) Any _ _
              (decode_length-InBounds buffer (buf_pos + 1) n bytes (omega arith) small)
              λ r hr.
                Ensures-if Any (is_known_tag tag) _ _
                  (λ e1. count_elements-Ends fuel (r.0 + r.1) (element_index + 1) (ground arith))
                  (λ e1. tt))
        (λ e. tt)

-- An encoding of `n` octets with a padding of at most seven bits has as many octets as the bit string.
bit_string_octets :
    (n padding : ℕ) → 1 < n → padding ≤ 7 → n - 1 ≤ bit_string_byte_size ((n - 1) * 8 - padding)
unfolding bit_string_byte_size
bit_string_octets n padding h k = elim (Bool-cases (ltb 0 (((n - 1) * 8 - padding) % 8))) [
  | inl e ↦ rw e (omega (arith, ltb→lt 0 _ e))
  | inr e ↦ ground arith
]

module _ (buffer : List ℕ) (buf_pos n : ℕ) (bytes : All IsByte buffer)
    (fits : buf_pos + n < length buffer) where
  rest_long : (k : ℕ) → k + buf_pos ≤ n + buf_pos → k ≤ length (drop buf_pos buffer)
  rest_long k h = omega (arith, length-drop buf_pos buffer)

  new_bit_string_from-Ends :
      Ensures (λ (v : MmsValue). Unit {0}) (new_bit_string_from buffer buf_pos n)
  unfolding new_bit_string_from
  new_bit_string_from-Ends =
      Ensures-if _ (ltb 1 n) _ _
        (λ e.
          Ensures-bind IsByte Any _ _ (read-Ensures buffer buf_pos bytes (omega arith))
            λ padding hp.
              Ensures-bind Any Any _ _
                (Ensures-if Any (ltb 7 padding) _ _ (λ e1. tt)
                  (λ e1.
                    copied _ (drop (buf_pos + 1) buffer) (n - 1)
                      (omega (
                        arith,
                        bit_string_octets n padding (ground arith) (ground arith),
                        length-replicate {A = ℕ} (bit_string_byte_size ((n - 1) * 8 - padding)) 0,
                      ))
                      (omega (arith, length-drop (buf_pos + 1) buffer))))
                (λ out ho. tt))
        (λ e. tt)

  new_integer_from-Ends :
      Ensures (λ (v : Asn1PrimitiveValue). Unit {0}) (new_integer_from buffer buf_pos n)
  unfolding new_integer_from create
  new_integer_from-Ends =
      Ensures-if _ (ltb 8 n) _ _ (λ e. tt)
        (λ e.
          Ensures-bind Any Any _ _
            (copied _ (drop buf_pos buffer) n (ground arith) (rest_long n (omega arith)))
            (λ out ho. tt))

  octets-Ends :
      (k : ℕ) (f : List ℕ → Outcome (Option MmsValue))
      → k ≤ n
      → ((out : List ℕ) → Ensures Any (f out))
      → Ensures Any (read_bytes k buffer buf_pos >>= f)
  octets-Ends k f h hf =
      Ensures-bind (λ out. All IsByte out × (length out ≡ k)) Any _ _
        (read_bytes-Ensures k buffer buf_pos bytes (omega arith)) (λ out ho. hf out)

  new_value_from-Ends : (tag : ℕ) → Ensures Any (new_value_from tag buffer buf_pos n)
  unfolding new_value_from decode_boolean decode_float decode_double
  new_value_from-Ends tag =
      Ensures-if Any (tag == 0x83) _ _
        (λ e.
          Ensures-bind Any Any _ _
            (Ensures-bind IsByte Any _ _ (read-Ensures buffer buf_pos bytes (omega arith))
              (λ b hb. tt))
            (λ b hb. tt))
        λ e.
          Ensures-if Any (tag == 0x84) _ _
            (λ e. Ensures-bind Any Any _ _ new_bit_string_from-Ends (λ v hv. tt))
            λ e.
              Ensures-if Any (tag == 0x85) _ _
                (λ e. Ensures-bind Any Any _ _ new_integer_from-Ends (λ v hv. tt))
                λ e.
                  Ensures-if Any (tag == 0x86) _ _
                    (λ e. Ensures-bind Any Any _ _ new_integer_from-Ends (λ v hv. tt))
                    λ e.
                      Ensures-if Any (tag == 0x87) _ _
                        (λ e.
                          Ensures-if Any (n == 9) _ _
                            (λ e1.
                              Ensures-bind Any Any _ _ (number_read 8 (ground arith)) (λ v hv. tt))
                            (λ e1.
                              Ensures-if Any (n == 5) _ _
                                (λ e2.
                                  Ensures-bind Any Any _ _ (number_read 4 (ground arith))
                                    (λ v hv. tt))
                                (λ e2. tt)))
                        λ e.
                          Ensures-if Any (tag == 0x89) _ _
                            (λ e. octets-Ends n _ (omega arith) (λ out. tt))
                            λ e.
                              Ensures-if Any (tag == 0x8a) _ _
                                (λ e. octets-Ends n _ (omega arith) (λ out. tt))
                                λ e.
                                  Ensures-if Any (tag == 0x8c) _ _
                                    (λ e.
                                      Ensures-if Any ((n == 4) || (n == 6)) _ _
                                        (λ e1.
                                          Ensures-bind Any Any _ _
                                            (copied (replicate 6 0) (drop buf_pos buffer) n
                                              (ground arith) (rest_long n (omega arith)))
                                            (λ v hv. tt))
                                        (λ e1. tt))
                                    λ e.
                                      Ensures-if Any (tag == 0x91) _ _
                                        (λ e.
                                          Ensures-if Any (n == 8) _ _
                                            (λ e1. octets-Ends 8 _ (ground arith) (λ out. tt))
                                            (λ e1. tt))
                                        (λ e. tt)
    where
      number_read :
          (k : ℕ)
          → k < n
          → Ensures
              (λ (v : List ℕ). Unit {0})
              (read_bytes k buffer (buf_pos + 1) >>= λ octets. ok (reverse octets))
      number_read k h =
          Ensures-bind (λ out. All IsByte out × (length out ≡ k)) Any _ _
            (read_bytes-Ensures k buffer (buf_pos + 1) bytes (omega arith)) (λ out ho. tt)

mutual
  unfolding parse_all_data_unknown_value fill_elements

  unknown_value-Ends :
      (fuel : ℕ) (buffer : List ℕ) (n : ℕ) (is_structure : Bool)
      → All IsByte buffer
      → n < length buffer
      → n < 2 ^ 23
      → n + 1 < fuel
      → Ensures
          (λ (v : MmsValue). Unit {0})
          (parse_all_data_unknown_value fuel buffer n is_structure)
  unknown_value-Ends zero buffer n is_structure bytes fits small h = absurd (omega arith)
  unknown_value-Ends (suc fuel) buffer n is_structure bytes fits small h =
      Ensures-bind Any Any _ _
        (count_elements-Ends buffer bytes n fits small (n + 1) 0 0 (omega arith))
        λ k hk.
          Ensures-bind Any Any _ _
            (fill_elements-Ends fuel buffer 0 n 0 (empty_components k) bytes fits small
              (omega arith))
            (λ cs hcs. tt)

  fill_elements-Ends :
      (fuel : ℕ) (buffer : List ℕ) (buf_pos n element_index : ℕ) (cs : Components)
      → All IsByte buffer
      → n < length buffer
      → n < 2 ^ 23
      → n - buf_pos < fuel
      → Ensures
          (λ (cs : Components). Unit {0})
          (fill_elements fuel buffer buf_pos n element_index cs)
  fill_elements-Ends zero buffer buf_pos n element_index cs bytes fits small h =
      absurd (omega arith)
  fill_elements-Ends (suc fuel) buffer buf_pos n element_index cs bytes fits small h =
      Ensures-if Any (ltb buf_pos n) _ _
        (λ e.
          Ensures-bind IsByte Any _ _ (read-Ensures buffer buf_pos bytes (ground arith)) λ tag ht.
            Ensures-bind (InBounds (buf_pos + 1) n) Any _ _
              (decode_length-InBounds buffer (buf_pos + 1) n bytes (omega arith) small)
              λ r hr.
                Ensures-bind Any Any _ _
                  (Ensures-if Any (tag == 0xa1) _ _
                    (λ e1.
                      Ensures-bind Any Any _ _
                        (unknown_value-Ends fuel (drop r.0 buffer) r.1 false
                          (All-drop r.0 buffer bytes) (omega (arith, length-drop r.0 buffer))
                          (omega arith) (ground arith))
                        (λ v hv. tt))
                    (λ e1.
                      Ensures-if Any (tag == 0xa2) _ _
                        (λ e2.
                          Ensures-bind Any Any _ _
                            (unknown_value-Ends fuel (drop r.0 buffer) r.1 true
                              (All-drop r.0 buffer bytes) (omega (arith, length-drop r.0 buffer))
                              (omega arith) (ground arith))
                            (λ v hv. tt))
                        (λ e2. new_value_from-Ends buffer r.0 r.1 bytes (omega arith) tag)))
                  (λ value hv.
                    fill_elements-Ends fuel buffer (r.0 + r.1) n _ _ bytes fits small
                      (ground arith)))
        (λ e. tt)

-- On bytes that go on behind the data set, shorter than 2 ^ 23 octets, the parser of a data set whose
-- types are not known ends with the fuel that its callers give, two more than the length, and reads
-- and writes nothing outside its arrays.
pub parse_all_data_unknown_value-Ends :
    (buffer : List ℕ) (n : ℕ) (is_structure : Bool)
    → All IsByte buffer
    → n < length buffer
    → n < 2 ^ 23
    → Ensures
        (λ (v : MmsValue). Unit {0})
        (parse_all_data_unknown_value (n + 2) buffer n is_structure)
parse_all_data_unknown_value-Ends buffer n is_structure bytes fits small =
    unknown_value-Ends (n + 2) buffer n is_structure bytes fits small (omega arith)
