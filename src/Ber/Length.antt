-- ===== src/Ber/Length.antt =====
-- The length octets of mms/asn1/ber_encoder.cc: `BerEncoder_encodeLength`, `BerEncoder_encodeTL` and
-- `BerEncoder_determineLengthSize`. A `uint32_t` is a native number below 2 ^ 32.
use grid_goose_sv.Prelude.{
  ℕ, ◌/◌, ◌%◌, ◌≡◌, arith, List, [], ◌∷◌, length, ltb, if◌then◌else◌, Outcome, ◌>>=◌,
}
use grid_goose_sv.Memory.{Cursor, put, put_all, Writes}

-- BerEncoder_encodeLength
unfoldable pub encode_length : ℕ → Cursor → Outcome Cursor
encode_length n c =
    if ltb n 128
    then put (n % 256) c
    else if ltb n 256
    then (do c1 ← put 0x81 c; put (n % 256) c1)
    else if ltb n 65535
    then (do c1 ← put 0x82 c; c2 ← put (n / 256 % 256) c1; put (n % 256 % 256) c2)
    else (do
      c1 ← put 0x83 c
      c2 ← put (n / 0x10000 % 256) c1
      c3 ← put (n % 0x10000 / 0x100 % 256) c2
      put (n % 256 % 256) c3)

-- BerEncoder_encodeTL
unfoldable pub encode_tl : ℕ → ℕ → Cursor → Outcome Cursor
encode_tl tag n c = do c1 ← put tag c; encode_length n c1

-- BerEncoder_determineLengthSize
unfoldable pub determine_length_size : ℕ → ℕ
determine_length_size n =
    if ltb n 128 then 1 else if ltb n 256 then 2 else if ltb n 65536 then 3 else 4

-- The octets that X.690 gives for a length below 2 ^ 24, with the code's own bounds between the forms.
unfoldable pub length_octets : ℕ → List ℕ
length_octets n =
    if ltb n 128
    then n ∷ []
    else if ltb n 256
    then 0x81 ∷ n ∷ []
    else if ltb n 65535
    then 0x82 ∷ n / 256 ∷ n % 256 ∷ []
    else 0x83 ∷ n / 65536 % 256 ∷ n % 65536 / 256 ∷ n % 256 ∷ []

pub encode_length-Writes : (n : ℕ) → Writes (encode_length n) (length_octets n)
unfolding encode_length length_octets put_all put
encode_length-Writes n c = ground arith

-- The size that is reserved for the length octets is the number of those written, for every
-- length but 65535.
pub length-length_octets :
    (n : ℕ) → (n ≡ 65535 → ⊥) → length (length_octets n) ≡ determine_length_size n
unfolding length_octets determine_length_size
length-length_octets n h = ground arith
