-- ===== src/Ber/Decoder.antt =====
-- The decoders of mms/asn1/ber_decode.cc. `failed` is the result -1; a read past the end of the
-- array is a fault, and so is an `int` computation that leaves the range of `int`, where the model
-- does not go on.
pub mod Safety
pub mod RoundTrip
pub mod Integers
pub mod Fields
use grid_goose_sv.Prelude.{
  ℕ, zero, suc, ◌+◌, ◌-◌, ◌*◌, ◌/◌, ◌%◌, ◌^◌, bit_and, List, [], ◌∷◌, length, drop, take, ltb, leb,
  ◌==◌, if◌then◌else◌, Bool, true, false, not, ◌&&◌, Outcome, ok, failed, fault, stuck, ◌>>=◌,
}
use grid_goose_sv.Memory.{read}

-- The loop over the octets of the long form, with `rounds` octets left; the position behind them and
-- the length.
unfoldable pub long_form : ℕ → List ℕ → ℕ → ℕ → ℕ → Outcome (ℕ × ℕ)
long_form zero buffer buf_pos max_buf_pos length = ok (buf_pos, length)
long_form (suc rounds) buffer buf_pos max_buf_pos length =
    if leb max_buf_pos buf_pos
    then failed
    else if ltb max_buf_pos (buf_pos + length)
    then failed
    else (do
      b ← read buffer buf_pos
      let length1 = length * 256 + b
      if leb (2 ^ 31) length1
          then fault
          else long_form rounds buffer (buf_pos + 1) max_buf_pos length1)

-- The test for the two zero octets that end the indefinite form; the second is read only inside the
-- bound.
unfoldable pub at_end_marker : List ℕ → ℕ → ℕ → ℕ → Outcome Bool
at_end_marker buffer buf_pos max_buf_pos b =
    if b == 0 && ltb (buf_pos + 1) max_buf_pos
    then (do b1 ← read buffer (buf_pos + 1); ok (b1 == 0))
    else ok false

-- The octets of a tag: one, or two if its low five bits are all set.
unfoldable pub tag_octets : ℕ → ℕ
tag_octets b = if bit_and b 0x1f == 0x1f then 2 else 1

-- The test at the end of BerDecoder_decodeLengthRecursive.
unfoldable pub within_bounds : ℕ → ℕ × ℕ → Outcome (ℕ × ℕ)
within_bounds max_buf_pos (buf_pos, length) =
    if ltb max_buf_pos length
    then failed
    else if ltb max_buf_pos (buf_pos + length)
    then failed
    else ok (buf_pos, length)

abbrev pub max_depth : ℕ
max_depth = 50

unfoldable mutual
  -- BerDecoder_decodeLengthRecursive: the position behind the length octets, and the length.
  pub decode_length_recursive : ℕ → List ℕ → ℕ → ℕ → ℕ → Outcome (ℕ × ℕ)
  decode_length_recursive zero buffer buf_pos max_buf_pos depth = stuck
  decode_length_recursive (suc fuel) buffer buf_pos max_buf_pos depth =
      let indefinite = get_indefinite_length fuel buffer (buf_pos + 1) max_buf_pos depth in
      if leb max_buf_pos buf_pos then failed else (do
        len1 ← read buffer buf_pos
        let len_length = bit_and len1 0x7f
        let long = long_form len_length buffer (buf_pos + 1) max_buf_pos 0
        let no_length = (do length ← indefinite; ok (buf_pos + 1, length))
        r ←
            (if bit_and len1 0x80 == 0
              then ok (buf_pos + 1, len1)
              else if len_length == 0
              then no_length
              else long)
        within_bounds max_buf_pos r)

  -- getIndefiniteLength
  pub get_indefinite_length : ℕ → List ℕ → ℕ → ℕ → ℕ → Outcome ℕ
  get_indefinite_length zero buffer buf_pos max_buf_pos depth = stuck
  get_indefinite_length (suc fuel) buffer buf_pos max_buf_pos depth =
      let scan = indefinite_loop fuel buffer buf_pos max_buf_pos (depth + 1) 0 in
      if ltb max_depth (depth + 1) then failed else scan

  -- Its loop.
  pub indefinite_loop : ℕ → List ℕ → ℕ → ℕ → ℕ → ℕ → Outcome ℕ
  indefinite_loop zero buffer buf_pos max_buf_pos depth length = stuck
  indefinite_loop (suc fuel) buffer buf_pos max_buf_pos depth length =
      if leb max_buf_pos buf_pos then failed else (do
        b ← read buffer buf_pos
        done ← at_end_marker buffer buf_pos max_buf_pos b
        let buf_pos1 = buf_pos + tag_octets b
        let inner = decode_length_recursive fuel buffer buf_pos1 max_buf_pos depth
        let next = (do
          (new_buf_pos, sub_length) ← inner
          indefinite_loop fuel buffer (new_buf_pos + sub_length) max_buf_pos depth
              (length + tag_octets b + (sub_length + new_buf_pos - buf_pos1)))
        if done then ok (length + 2) else next)

-- BerDecoder_decodeLength. Every call in the recursion is at a later position, hence the fuel.
unfoldable pub decode_length : List ℕ → ℕ → ℕ → Outcome (ℕ × ℕ)
decode_length buffer buf_pos max_buf_pos =
    decode_length_recursive (2 * max_buf_pos + 1) buffer buf_pos max_buf_pos 0

-- The loop of BerDecoder_decodeUint32 at index `i`, with `n` rounds left, in a `uint32_t`.
unfoldable pub decode_uint32_loop : ℕ → ℕ → ℕ → List ℕ → ℕ → Outcome ℕ
decode_uint32_loop zero i value buffer buf_pos = ok value
decode_uint32_loop (suc n) i value buffer buf_pos = do
  b ← read buffer (buf_pos + i)
  decode_uint32_loop n (i + 1) ((value * 256 % 2 ^ 32 + b) % 2 ^ 32) buffer buf_pos

-- BerDecoder_decodeUint32
unfoldable pub decode_uint32 : List ℕ → ℕ → ℕ → Outcome ℕ
decode_uint32 buffer int_len buf_pos = decode_uint32_loop int_len 0 0 buffer buf_pos

-- BerDecoder_decodeInt32, on the bit pattern of the `int32_t`; -1 is 2 ^ 32 - 1.
unfoldable pub decode_int32 : List ℕ → ℕ → ℕ → Outcome ℕ
decode_int32 buffer int_len buf_pos = do
  b ← read buffer buf_pos
  let start = (if bit_and b 0x80 == 0x80 then 2 ^ 32 - 1 else 0)
  decode_uint32_loop int_len 0 start buffer buf_pos

-- BerDecoder_decodeBoolean
unfoldable pub decode_boolean : List ℕ → ℕ → Outcome Bool
decode_boolean buffer buf_pos = do b ← read buffer buf_pos; ok (not (b == 0))

-- The `n` octets from a position on: `memcpy(target, buffer + buf_pos, n)`.
unfoldable pub read_bytes : ℕ → List ℕ → ℕ → Outcome (List ℕ)
read_bytes zero buffer buf_pos = ok []
read_bytes (suc n) buffer buf_pos = do
  b ← read buffer buf_pos
  rest ← read_bytes n buffer (buf_pos + 1)
  ok (b ∷ rest)

-- BerDecoder_decodeString; NULL where the position is past the bound.
unfoldable pub decode_string : List ℕ → ℕ → ℕ → ℕ → Outcome (List ℕ)
decode_string buffer strlen buf_pos max_buf_pos =
    if ltb max_buf_pos buf_pos then failed else read_bytes strlen buffer buf_pos
