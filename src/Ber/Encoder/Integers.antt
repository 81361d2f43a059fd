-- ===== src/Ber/Encoder/Integers.antt =====
-- The integer encoders of mms/asn1/ber_encoder.cc and the octets of an encoded integer.
use grid_goose_sv.Prelude.{
  ℕ, zero, suc, ◌+◌, ◌/◌, ◌%◌, ◌≤◌, ◌≡◌, refl, ap, ◌∙◌, arith, List, [], ◌∷◌, length, drop, take,
  reverse, ok, ◌>>=◌, get_elem?-drop, >>=_ext,
}
use grid_goose_sv.Memory.{put, put_all, Writes, Writes-then, put-Writes}
use grid_goose_sv.Ber.Bytes.{le_bytes, revert_byte_order, store}
use grid_goose_sv.Ber.Bytes.Revert.{revert_byte_order-eq-reverse}
use grid_goose_sv.Ber.Bytes.Compress.{
  trim, compress_integer-trim, drop-cons, length-trim, bytes_to_delete-lt,
}
use grid_goose_sv.Ber.Encoder.{
  copy_bytes, uint32_value_buffer, encode_uint32, encode_int32, encode_uint32_with_tl, reverse_copy,
  uint32_determine_encoded_size,
}
use native.Mathlib.Numerals.{add-one}

-- The loop writes the `n` bytes of the source from index `i` on.
pub copy_bytes-Writes :
    (n i : ℕ) (source : List ℕ)
    → i + n ≤ length source
    → Writes (copy_bytes n i source) (take n (drop i source))
unfolding copy_bytes put_all
copy_bytes-Writes zero i source h c = refl
copy_bytes-Writes (suc n) i source h c =
    let (b, e) = drop-cons source i (omega arith) in
    rw (get_elem?-drop source i e, e)
      (>>=_ext (put b c) _ _ (λ d.
        copy_bytes-Writes n (i + 1) source (omega arith) d
        ∙ ap (λ (k : ℕ). put_all (take n (drop k source)) d) (add-one i)))

-- The octets of an unsigned number: big-endian, with a zero octet in front, and without the leading
-- octets that only repeat the sign.
unfoldable pub uint32_octets : ℕ → List ℕ
uint32_octets v = trim (0 ∷ reverse (le_bytes 4 v))

uint32_value_buffer-octets :
    (v : ℕ)
    → (array : List ℕ) × (uint32_value_buffer v ≡ ok (array, length (uint32_octets v)))
      × (length (uint32_octets v) ≤ length array)
      × (take (length (uint32_octets v)) array ≡ uint32_octets v)
unfolding uint32_value_buffer uint32_octets
uint32_value_buffer-octets v =
    let (array, run, len, front) = compress_integer-trim 0 (reverse (le_bytes 4 v)) in
    (array, rw (reverted, run), omega (arith, len, length-trim 0 (reverse (le_bytes 4 v))), front)
  where
    reverted : revert_byte_order 1 4 (0 ∷ le_bytes 4 v) ≡ ok (0 ∷ reverse (le_bytes 4 v))
    reverted = unfold le_bytes in revert_byte_order-eq-reverse (0 ∷ []) (le_bytes 4 v) []

-- The encoder writes the octets of its argument.
pub encode_uint32-Writes : (v : ℕ) → Writes (encode_uint32 v) (uint32_octets v)
unfolding encode_uint32
encode_uint32-Writes v c =
    let (array, run, len, front) = uint32_value_buffer-octets v in
    rw run (copy_bytes-Writes (length (uint32_octets v)) 0 array (omega arith) c ∙ rw front)

pub length-uint32_octets : (v : ℕ) → (1 ≤ length (uint32_octets v)) × (length (uint32_octets v) ≤ 5)
unfolding uint32_octets le_bytes
length-uint32_octets v =
    omega
      (arith, length-trim 0 (reverse (le_bytes 4 v)), bytes_to_delete-lt 0 (reverse (le_bytes 4 v)))

-- The encoder writes the tag, one octet with the number of octets that follow, and the octets
-- of the number.
pub encode_uint32_with_tl-Writes :
    (tag v : ℕ)
    → Writes (encode_uint32_with_tl tag v) (tag ∷ length (uint32_octets v) ∷ uint32_octets v)
unfolding encode_uint32_with_tl
encode_uint32_with_tl-Writes tag v c =
    let (array, run, len, front) = uint32_value_buffer-octets v in
    let n = length (uint32_octets v) in
    let short : n % 256 ≡ n = omega (arith, length-uint32_octets v) in
    rw (run, short)
      (Writes-then (put tag) (λ d. put n d >>= copy_bytes n 0 array) (tag ∷ [])
        (n ∷ uint32_octets v) (put-Writes tag)
        (Writes-then (put n) (copy_bytes n 0 array) (n ∷ []) (uint32_octets v) (put-Writes n)
          (λ d. copy_bytes-Writes n 0 array (omega arith) d ∙ rw front))
        c)

-- The size that is reserved for an unsigned number is the number of octets that its encoder
-- writes.
pub uint32_determine_encoded_size_lem :
    (v : ℕ) → uint32_determine_encoded_size v ≡ ok (length (uint32_octets v))
unfolding uint32_determine_encoded_size
uint32_determine_encoded_size_lem v =
    let (array, run, len, front) = uint32_value_buffer-octets v in rw run

-- The octets of a signed number: big-endian, without redundant leading octets.
unfoldable pub int32_octets : ℕ → List ℕ
int32_octets v = trim (reverse (le_bytes 4 v))

reversed_copy :
    (junk : List ℕ) (v : ℕ)
    → length junk ≡ 4
    → reverse_copy 4 0 (le_bytes 4 v) junk ≡ ok (reverse (le_bytes 4 v))
unfolding reverse_copy store le_bytes
reversed_copy [] v h = absurd (omega arith)
reversed_copy (a ∷ []) v h = absurd (omega arith)
reversed_copy (a ∷ b ∷ []) v h = absurd (omega arith)
reversed_copy (a ∷ b ∷ c ∷ []) v h = absurd (omega arith)
reversed_copy (a ∷ b ∷ c ∷ d ∷ []) v h = refl
reversed_copy (a ∷ b ∷ c ∷ d ∷ e ∷ junk) v h = absurd (omega arith)

-- Whatever the four octets of the local array hold, the encoder writes the octets of the signed
-- number in network order without those that only repeat the sign.
pub encode_int32-Writes :
    (junk : List ℕ) (v : ℕ) → length junk ≡ 4 → Writes (encode_int32 junk v) (int32_octets v)
unfolding encode_int32 int32_octets le_bytes
encode_int32-Writes junk v h c =
    let top = v / 256 / 256 / 256 % 256 in
    let rest : List ℕ = v / 256 / 256 % 256 ∷ v / 256 % 256 ∷ v % 256 ∷ [] in
    let (array, run, len, front) = compress_integer-trim top rest in
    rw (reversed_copy junk v h, run)
      (copy_bytes-Writes (length (trim (top ∷ rest))) 0 array
          (omega (arith, len, length-trim top rest)) c
        ∙ rw front)
