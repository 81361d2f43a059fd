-- ===== src/Goose/Receiver/DataSet/Elements.antt =====
-- The cases of parseAllData of goose/goose_receiver.cc on an element of any length.
use grid_goose_sv.Prelude.{
  ℕ, ◌+◌, ◌*◌, ◌-◌, ◌/◌, ◌≤◌, ◌<◌, ◌≡◌, refl, arith, List, length, drop, leb, ◌==◌, ◌||◌, Bool,
  Option, reverse, ok, ◌>>=◌, All, Ensures, Ensures-bind, Ensures-if, Ensures-with, length-drop,
  length-set, length-append, lt→ltb, [], ◌∷◌, none, some, if◌then◌else◌,
}
use grid_goose_sv.Memory.{read}
use grid_goose_sv.Ber.Primitive.{Asn1PrimitiveValue, memcpy}
use grid_goose_sv.Ber.Bytes.{store}
use grid_goose_sv.Ber.Encoder.Floats.{length-reverse}
use grid_goose_sv.Ber.Decoder.{decode_boolean, read_bytes}
use grid_goose_sv.Ber.Decoder.Safety.{IsByte, read-Ensures, read_bytes-Ensures, memcpy-Ensures}
use grid_goose_sv.Mms.Value.{MmsValue, Components}
use grid_goose_sv.Goose.Subscriber.{GooseParseError}
use grid_goose_sv.Goose.Receiver.DataSet.{
  FloatConversions, Parsed, decode_float, decode_double, parse_bit_string, parse_integer,
  parse_float, parse_octet_string, create_new_string, parse_visible_string, parse_binary_time,
  parse_utc_time,
}

-- A `float` has four octets and a `double` has eight.
pub record HasSizes (fc : FloatConversions) : Type 0 where
  pub float_size : (octets : List ℕ) → length (fc.to_float octets) ≡ 4
  pub double_size : (octets : List ℕ) → length (fc.to_double octets) ≡ 8

-- The arrays are as long as their sizes say, a string's with the terminator behind that size.
unfoldable mutual
  pub HasRoom : MmsValue → Type 0
  HasRoom (MmsValue.array cs) = AllHaveRoom cs
  HasRoom (MmsValue.structure cs) = AllHaveRoom cs
  HasRoom (MmsValue.boolean b) = Unit
  HasRoom (MmsValue.bit_string size bits) = (size + 7) / 8 ≤ length bits
  HasRoom (MmsValue.integer v) = v.max_size ≤ length v.octets
  HasRoom (MmsValue.unsigned v) = v.max_size ≤ length v.octets
  HasRoom (MmsValue.float exponent_width format_width octets) = format_width / 8 ≤ length octets
  HasRoom (MmsValue.octet_string size max_size octets) = max_size ≤ length octets
  HasRoom (MmsValue.visible_string none size) = Unit
  HasRoom (MmsValue.visible_string (some buf) size) = size < length buf
  HasRoom (MmsValue.mms_string s size) = Unit
  HasRoom (MmsValue.binary_time size octets) = 6 ≤ length octets
  HasRoom (MmsValue.utc_time octets) = length octets ≡ 8
  HasRoom (MmsValue.data_access_error e) = Unit
  HasRoom MmsValue.generalized_time = Unit
  HasRoom MmsValue.bcd = Unit
  HasRoom MmsValue.obj_id = Unit

  pub AllHaveRoom : Components → Type 0
  AllHaveRoom Components.nil = Unit
  AllHaveRoom (Components.cons v cs) = HasRoom v × AllHaveRoom cs
  AllHaveRoom (Components.null_cons cs) = AllHaveRoom cs

abbrev pub SafeInteger : Asn1PrimitiveValue × GooseParseError → Type 0
SafeInteger r = r.0.max_size ≤ length r.0.octets

abbrev pub Safe : Parsed → Type 0
Safe r = HasRoom r.0

store-Ensures :
    (array : List ℕ) (i v : ℕ)
    → i < length array
    → Ensures (λ out. length out ≡ length array) (store array i v)
unfolding store
store-Ensures array i v h = rw (lt→ltb i (length array) h) (length-set array i v)

module _ (buffer : List ℕ) (buf_pos n : ℕ) (bytes : All IsByte buffer)
    (fits : buf_pos + n < length buffer) where
  here : Ensures IsByte (read buffer buf_pos)
  here = read-Ensures buffer buf_pos bytes (omega arith)

  rest_long : (k : ℕ) → k ≤ n + 1 → k ≤ length (drop buf_pos buffer)
  rest_long k h = omega (arith, length-drop buf_pos buffer)

  pub parse_bit_string-Safe :
      (size : ℕ) (bits : List ℕ)
      → (size + 7) / 8 ≤ length bits
      → ((padding : ℕ)
          → read buffer buf_pos ≡ ok padding
          → size + 8 + padding ≡ 8 * n
          → padding < 8)
      → Ensures Safe (parse_bit_string size bits buffer buf_pos n)
  unfolding parse_bit_string HasRoom
  parse_bit_string-Safe size bits h short =
      Ensures-bind (λ b. IsByte b × (read buffer buf_pos ≡ ok b)) Safe _ _
        (Ensures-with IsByte _ here)
        λ padding hp.
          Ensures-if Safe (size + 8 + padding == 8 * n) _ _
            (λ e.
              let unused = short padding hp.1 (ground arith) in
              Ensures-bind (λ out. length out ≡ length bits) Safe _ _
                (memcpy-Ensures bits (drop (buf_pos + 1) buffer) (n - 1) (ground arith)
                  (omega (arith, length-drop (buf_pos + 1) buffer)))
                (λ out ho. omega arith))
            (λ e. h)

  pub parse_integer-Safe :
      (v : Asn1PrimitiveValue)
      → v.max_size ≤ length v.octets
      → Ensures SafeInteger (parse_integer v buffer buf_pos n)
  unfolding parse_integer
  parse_integer-Safe v h =
      Ensures-if _ (leb n v.max_size) _ _
        (λ e.
          Ensures-bind (λ out. length out ≡ length v.octets) _ _ _
            (memcpy-Ensures v.octets (drop buf_pos buffer) n (ground arith)
              (rest_long n (omega arith)))
            (λ out ho. omega arith))
        (λ e. h)

  pub parse_octet_string-Safe :
      (max_size : ℕ) (old : List ℕ)
      → max_size ≤ length old
      → Ensures Safe (parse_octet_string max_size old buffer buf_pos n)
  unfolding parse_octet_string HasRoom
  parse_octet_string-Safe max_size old h =
      Ensures-if _ (leb n max_size) _ _
        (λ e.
          Ensures-bind (λ out. length out ≡ length old) Safe _ _
            (memcpy-Ensures old (drop buf_pos buffer) n (ground arith) (rest_long n (omega arith)))
            (λ out ho. omega arith))
        (λ e.
          Ensures-bind (λ out. All IsByte out × (length out ≡ n)) Safe _ _
            (read_bytes-Ensures n buffer buf_pos bytes (omega arith)) (λ out ho. omega arith))

  create_new_string-Safe : Ensures Safe (create_new_string buffer buf_pos n)
  unfolding create_new_string HasRoom
  create_new_string-Safe =
      Ensures-bind (λ out. All IsByte out × (length out ≡ n)) Safe _ _
        (read_bytes-Ensures n buffer buf_pos bytes (omega arith))
        (λ out ho. omega (arith, length-append out (0 ∷ [])))

  pub parse_visible_string-Safe :
      (old : Option (List ℕ)) (size : ℕ)
      → HasRoom (MmsValue.visible_string old size)
      → Ensures Safe (parse_visible_string old size buffer buf_pos n)
  unfolding parse_visible_string HasRoom
  parse_visible_string-Safe none size h = create_new_string-Safe
  parse_visible_string-Safe (some old) size h =
      Ensures-if Safe (leb n size) _ _
        (λ e.
          Ensures-bind (λ out. length out ≡ length old) Safe _ _
            (memcpy-Ensures old (drop buf_pos buffer) n (ground arith) (rest_long n (omega arith)))
            λ copied hc.
              Ensures-bind (λ out. length out ≡ length copied) Safe _ _
                (store-Ensures copied n 0 (ground arith)) (λ out ho. omega arith))
        (λ e. create_new_string-Safe)

  pub parse_binary_time-Safe :
      (size : ℕ) (old : List ℕ)
      → 6 ≤ length old
      → Ensures Safe (parse_binary_time size old buffer buf_pos n)
  unfolding parse_binary_time HasRoom
  parse_binary_time-Safe size old h =
      Ensures-if _ ((n == 4) || (n == 6)) _ _
        (λ e.
          Ensures-bind (λ out. length out ≡ length old) Safe _ _
            (memcpy-Ensures old (drop buf_pos buffer) n (ground arith) (rest_long n (omega arith)))
            (λ out ho. omega arith))
        (λ e. h)

  pub parse_utc_time-Safe :
      (old : List ℕ) → length old ≡ 8 → Ensures Safe (parse_utc_time old buffer buf_pos n)
  unfolding parse_utc_time HasRoom
  parse_utc_time-Safe old h =
      Ensures-if _ (n == 8) _ _
        (λ e.
          Ensures-bind (λ out. All IsByte out × (length out ≡ 8)) Safe _ _
            (read_bytes-Ensures 8 buffer buf_pos bytes (ground arith)) (λ out ho. ho.1))
        (λ e. h)

  -- The octets of a number, copied into a value of either width.
  store_float :
      (exponent_width format_width : ℕ) (old single double : List ℕ)
      → format_width / 8 ≤ length old
      → length single ≡ 4
      → length double ≡ 8
      → Ensures Safe (
          (if format_width == 32
            then memcpy old single 4
            else if format_width == 64
            then memcpy old double 8
            else ok old)
          >>= λ value.
              ok (MmsValue.float exponent_width format_width value, GooseParseError.no_error))
  unfolding HasRoom
  store_float exponent_width format_width old single double h hs hd =
      Ensures-bind (λ out. length out ≡ length old) Safe _ _
        (Ensures-if _ (format_width == 32) _ _
          (λ e. memcpy-Ensures old single 4 (ground arith) (omega arith))
          (λ e.
            Ensures-if _ (format_width == 64) _ _
              (λ e1. memcpy-Ensures old double 8 (ground arith) (omega arith)) (λ e1. refl)))
        (λ out ho. omega arith)

  pub parse_float-Safe :
      (fc : FloatConversions) (exponent_width format_width : ℕ) (old : List ℕ)
      → HasSizes fc
      → format_width / 8 ≤ length old
      → Ensures Safe (parse_float fc exponent_width format_width old buffer buf_pos n)
  unfolding parse_float decode_float decode_double HasRoom
  parse_float-Safe fc exponent_width format_width old sizes h =
      Ensures-if _ (n == 9) _ _
        (λ e.
          Ensures-bind (λ out. length out ≡ 8) Safe _ _ (reversed 8 (ground arith))
            (λ out ho.
              store_float exponent_width format_width old _ out h (sizes.float_size out) ho))
        (λ e.
          Ensures-if _ (n == 5) _ _
            (λ e1.
              Ensures-bind (λ out. length out ≡ 4) Safe _ _ (reversed 4 (ground arith))
                (λ out ho.
                  store_float exponent_width format_width old out _ h ho (sizes.double_size out)))
            (λ e1. h))
    where
      reversed :
          (k : ℕ)
          → k < n
          → Ensures
              (λ (out : List ℕ). length out ≡ k)
              (read_bytes k buffer (buf_pos + 1) >>= λ octets. ok (reverse octets))
      reversed k hk =
          Ensures-bind (λ out. All IsByte out × (length out ≡ k)) _ _ _
            (read_bytes-Ensures k buffer (buf_pos + 1) bytes (omega arith))
            (λ out ho. omega (arith, length-reverse out))

  pub decode_boolean-Safe : Ensures (λ (b : Bool). Unit {0}) (decode_boolean buffer buf_pos)
  unfolding decode_boolean
  decode_boolean-Safe = Ensures-bind IsByte _ _ _ here (λ b h. tt)
