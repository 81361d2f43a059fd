-- ===== src/Ber/Encoder/BitString.antt =====
-- `BerEncoder_encodeBitString` of mms/asn1/ber_encoder.cc and the contents of an encoded bit
-- string.
use grid_goose_sv.Prelude.{
  ℕ, zero, suc, ◌+◌, ◌-◌, ◌*◌, ◌/◌, ◌^◌, ◌%◌, ◌≤◌, ◌<◌, ◌≡◌, refl, sym, ap, ◌∙◌, arith, bit_and,
  List, [], ◌∷◌, ◌++◌, length, set, take, ◌>>=◌, >>=_ext, >>=_assoc, length-set, get_elem?-set_self,
  length-take, subst, every_from, every_from-at, ◌==◌,
}
use grid_goose_sv.Memory.{Cursor, put, put_all, Writes, Writes-then, put-Writes, put_all-append}
use grid_goose_sv.Ber.Length.{encode_length, length_octets, encode_length-Writes}
use grid_goose_sv.Ber.Bytes.{store}
use grid_goose_sv.Ber.Bytes.Bits.{==→eq}
use grid_goose_sv.Ber.Bytes.Revert.{unsnoc}
use grid_goose_sv.Ber.Encoder.Integers.{copy_bytes-Writes}
use grid_goose_sv.Ber.Encoder.{
  copy_bytes, bit_string_bytes, padding_mask, clear_padding, encode_bit_string,
}

-- The last octet under the mask.
unfoldable mask_last : ℕ → List ℕ → List ℕ
mask_last mask [] = []
mask_last mask (b ∷ []) = bit_and b mask ∷ []
mask_last mask (b ∷ c ∷ bs) = b ∷ mask_last mask (c ∷ bs)

mask_last-append :
    (mask b : ℕ) (xs : List ℕ) → mask_last mask (xs ++ (b ∷ [])) ≡ xs ++ (bit_and b mask ∷ [])
unfolding mask_last
mask_last-append mask b [] = refl
mask_last-append mask b (x ∷ []) = refl
mask_last-append mask b (x ∷ y ∷ xs) = ap (λ t. x ∷ t) (mask_last-append mask b (y ∷ xs))

set-set : (xs : List ℕ) (i a b : ℕ) → set (set xs i a) i b ≡ set xs i b
set-set [] i a b = refl
set-set (x ∷ xs) zero a b = refl
set-set (x ∷ xs) (suc i) a b = ap (λ t. x ∷ t) (set-set xs i a b)

put-clear_padding :
    (mask b : ℕ) (c : Cursor) → (put b c >>= clear_padding mask) ≡ put (bit_and b mask) c
unfolding put clear_padding store
put-clear_padding mask b c =
    let back : c.pos + 1 - 1 ≡ c.pos = omega arith in
    ground (
      arith,
      back,
      get_elem?-set_self c.buffer c.pos b,
      length-set c.buffer c.pos b,
      set-set c.buffer c.pos b (bit_and b mask),
    )

clear_padding-Writes :
    (mask b : ℕ) (bs : List ℕ)
    → Writes (λ c. put_all (b ∷ bs) c >>= clear_padding mask) (mask_last mask (b ∷ bs))
clear_padding-Writes mask b bs c =
    let (init, last, e) = unsnoc b bs in
    subst (λ t. (put_all t c >>= clear_padding mask) ≡ put_all (mask_last mask t) c) (sym e)
      (rw
        (
          mask_last-append mask last init,
          put_all-append init (last ∷ []) c,
          put_all-append init (bit_and last mask ∷ []) c,
        )
        (>>=_assoc (put_all init c) (put_all (last ∷ [])) (clear_padding mask)
          ∙ >>=_ext (put_all init c) _ _ (last_put last)))
  where
    last_put :
        (last : ℕ) (d : Cursor)
        → (put_all (last ∷ []) d >>= clear_padding mask) ≡ put_all (bit_and last mask ∷ []) d
    last_put last d =
        rw (← put-Writes last d, ← put-Writes (bit_and last mask) d) (put-clear_padding mask last d)

-- The number of unused bits in the last octet.
unfoldable pub padding_bits : ℕ → ℕ
padding_bits n = (n + 7) / 8 * 8 - n

pub padding_bits-lt : (n : ℕ) → padding_bits n < 8
unfolding padding_bits
padding_bits-lt n = ground arith

-- The octets with the lowest `pad` bits of the last one cleared: 256 - 2 ^ pad has the others.
unfoldable pub clear_last : ℕ → List ℕ → List ℕ
clear_last pad [] = []
clear_last pad (b ∷ []) = bit_and b (256 - 2 ^ pad) ∷ []
clear_last pad (b ∷ c ∷ bs) = b ∷ clear_last pad (c ∷ bs)

-- The contents of an encoded bit string of `n` bits: the number of unused bits in the last octet,
-- and the octets with these bits cleared.
unfoldable pub bit_string_contents : ℕ → List ℕ → List ℕ
bit_string_contents n bits = clear_last (padding_bits n) (padding_bits n ∷ take ((n + 7) / 8) bits)

length-clear_last : (pad : ℕ) (xs : List ℕ) → length (clear_last pad xs) ≡ length xs
unfolding clear_last
length-clear_last pad [] = refl
length-clear_last pad (b ∷ []) = refl
length-clear_last pad (b ∷ c ∷ bs) = ap suc (length-clear_last pad (c ∷ bs))

-- The mask that the loop computes.
mask_bits : (pad : ℕ) → pad < 8 → 255 - padding_mask pad 0 0 ≡ 256 - 2 ^ pad
unfolding padding_mask every_from
mask_bits pad h = ==→eq _ _ (
    every_from-at (λ p. 255 - padding_mask p 0 0 == 256 - 2 ^ p) 0 8 pad (omega arith) (omega arith)
      refl)

mask-clear_last :
    (pad : ℕ) (xs : List ℕ)
    → pad < 8
    → mask_last (255 - padding_mask pad 0 0) xs ≡ clear_last pad xs
unfolding mask_last clear_last
mask-clear_last pad [] h = refl
mask-clear_last pad (b ∷ []) h = ap (λ m. bit_and b m ∷ []) (mask_bits pad h)
mask-clear_last pad (b ∷ c ∷ bs) h = ap (λ t. b ∷ t) (mask-clear_last pad (c ∷ bs) h)

bytes_up : (n : ℕ) → bit_string_bytes n ≡ (n + 7) / 8
unfolding bit_string_bytes
bytes_up n = ground arith

contents_masked :
    (n : ℕ) (bits : List ℕ)
    → mask_last
        (255 - padding_mask (padding_bits n) 0 0)
        (padding_bits n ∷ take (bit_string_bytes n) bits)
      ≡ bit_string_contents n bits
unfolding bit_string_contents
contents_masked n bits =
    mask-clear_last (padding_bits n) _ (padding_bits-lt n)
    ∙ ap (λ k. clear_last (padding_bits n) (padding_bits n ∷ take k bits)) (bytes_up n)

code_contents :
    (n : ℕ) (bits : List ℕ)
    → (let pad = bit_string_bytes n * 8 - n in
        mask_last (255 - padding_mask pad 0 0) (pad ∷ take (bit_string_bytes n) bits)
        ≡ bit_string_contents n bits)
code_contents n bits =
    let same : bit_string_bytes n * 8 - n ≡ padding_bits n =
      unfold padding_bits in omega (arith, bytes_up n) in
    ap (λ p. mask_last (255 - padding_mask p 0 0) (p ∷ take (bit_string_bytes n) bits)) same
    ∙ contents_masked n bits

pub length-bit_string_contents :
    (n : ℕ) (bits : List ℕ)
    → bit_string_bytes n ≤ length bits
    → length (bit_string_contents n bits) ≡ bit_string_bytes n + 1
unfolding bit_string_contents
length-bit_string_contents n bits h =
    length-clear_last (padding_bits n) (padding_bits n ∷ take ((n + 7) / 8) bits)
    ∙ omega (arith, length-take ((n + 7) / 8) bits, bytes_up n)

padding_bits_short : (n : ℕ) → bit_string_bytes n * 8 - n < 8
padding_bits_short n = omega (arith, bytes_up n)

-- Where the array holds all bits, the encoder writes the tag, the length, the number of unused
-- bits and the octets, the unused bits of the last octet cleared.
pub encode_bit_string-Writes :
    (tag n : ℕ) (bits : List ℕ)
    → bit_string_bytes n ≤ length bits
    → Writes
        (encode_bit_string tag n bits)
        (tag ∷ (length_octets (bit_string_bytes n + 1) ++ bit_string_contents n bits))
unfolding encode_bit_string
encode_bit_string-Writes tag n bits h =
    let size = bit_string_bytes n in
    let pad = size * 8 - n in
    let mask = 255 - padding_mask pad 0 0 in
    let short : pad % 256 ≡ pad = omega (arith, padding_bits_short n) in
    subst (λ t. Writes (encode_bit_string tag n bits) (tag ∷ (length_octets (size + 1) ++ t)))
      (code_contents n bits)
      (Writes-then (put tag) _ (tag ∷ [])
        (length_octets (size + 1) ++ mask_last mask (pad ∷ take size bits)) (put-Writes tag)
        (Writes-then (encode_length (size + 1)) _ (length_octets (size + 1))
          (mask_last mask (pad ∷ take size bits)) (encode_length-Writes (size + 1))
          λ c. rw short (
            sym (>>=_assoc (put pad c) (copy_bytes size 0 bits) (clear_padding mask))
            ∙ ap (λ m. m >>= clear_padding mask)
                (Writes-then (put pad) (copy_bytes size 0 bits) (pad ∷ []) (take size bits)
                  (put-Writes pad) (copy_bytes-Writes size 0 bits (omega arith)) c)
            ∙ clear_padding-Writes mask pad (take size bits) c)))
