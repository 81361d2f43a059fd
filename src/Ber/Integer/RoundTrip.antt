-- ===== src/Ber/Integer/RoundTrip.antt =====
-- mms/asn1/ber_integer.cc: a machine integer is stored as the octets that the encoder would write for
-- it, and read back.
use grid_goose_sv.Prelude.{
  ℕ, zero, suc, ◌+◌, ◌-◌, ◌*◌, ◌/◌, ◌%◌, ◌^◌, ◌≤◌, ◌<◌, ◌≡◌, refl, ap, ◌∙◌, arith, List, [], ◌∷◌,
  ◌++◌, length, take, drop, leb, All, reverse, true, ok, Bool-cases, inl, inr, append-nil,
}
use grid_goose_sv.Memory.{read}
use grid_goose_sv.Ber.Bytes.{le_bytes, is_redundant, revert_byte_order}
use grid_goose_sv.Ber.Bytes.Bits.{top_bit}
use grid_goose_sv.Ber.Bytes.Revert.{revert_byte_order-eq-reverse}
use grid_goose_sv.Ber.Bytes.Compress.{trim, compress_integer-trim, length-trim}
use grid_goose_sv.Ber.Encoder.Integers.{uint32_octets, int32_octets}
use grid_goose_sv.Ber.Decoder.Safety.{IsByte}
use grid_goose_sv.Ber.Decoder.RoundTrip.{Holds, Holds-tail, Holds-read}
use grid_goose_sv.Ber.Primitive.{Asn1PrimitiveValue, create, memcpy}
use grid_goose_sv.Ber.Integer.{
  set_integer_value, create_from_int32, create_from_uint32, create_from_int64, set_int32_value,
  set_uint32_value, set_int64_value, shift_octets, sign_extension, to_int32, to_uint32, to_int64,
}

-- The word after the octets are shifted in.
unfoldable pub word_of : ℕ → ℕ → List ℕ → ℕ
word_of bits value [] = value
word_of bits value (b ∷ bs) = word_of bits ((value * 256 % 2 ^ bits + b) % 2 ^ bits) bs

shift_octets-word_of :
    (bits : ℕ) (bs : List ℕ) (i value : ℕ) (buf : List ℕ)
    → Holds buf i bs
    → shift_octets bits (length bs) i value buf ≡ ok (word_of bits value bs)
unfolding shift_octets word_of
shift_octets-word_of bits [] i value buf h = refl
shift_octets-word_of bits (b ∷ bs) i value buf h = rw (Holds-read buf i b bs h) (
    shift_octets-word_of bits bs (i + 1) ((value * 256 % 2 ^ bits + b) % 2 ^ bits) buf
      (Holds-tail buf i b bs h))

-- The word that is all ones is kept when one more octet of ones is shifted in.
abbrev pub KeepsOnes : ℕ → Type 0
KeepsOnes bits = ((2 ^ bits - 1) * 256 % 2 ^ bits + 255) % 2 ^ bits ≡ 2 ^ bits - 1

redundant_sign :
    (bits b0 b1 : ℕ)
    → KeepsOnes bits
    → b0 < 256
    → b1 < 256
    → is_redundant b0 b1 ≡ true
    → (sign_extension bits b1 ≡ sign_extension bits b0)
      × ((sign_extension bits b0 * 256 % 2 ^ bits + b0) % 2 ^ bits ≡ sign_extension bits b0)
unfolding is_redundant sign_extension
redundant_sign bits b0 b1 k h0 h1 e = ground (arith, top_bit b0, top_bit b1)

-- Octets that only repeat the sign do not change the word that is extended with it.
word_of-trim :
    (bits b : ℕ) (bs : List ℕ)
    → KeepsOnes bits
    → All IsByte (b ∷ bs)
    → word_of bits (sign_extension bits b) (trim (b ∷ bs))
      ≡ word_of bits (sign_extension bits b) (b ∷ bs)
unfolding trim word_of
word_of-trim bits b [] k h = refl
word_of-trim bits b (b1 ∷ bs) k h = elim (Bool-cases (is_redundant b b1)) [
  | inl e ↦
      let (same, kept) = redundant_sign bits b b1 k h.0 h.1.0 e in
      rw (e, kept) (rw same at (word_of-trim bits b1 bs k h.1))
  | inr e ↦ rw e
]

-- The first octet that is kept has the same sign.
trim_sign :
    (bits b : ℕ) (bs : List ℕ)
    → KeepsOnes bits
    → All IsByte (b ∷ bs)
    → (c : ℕ) × (cs : List ℕ) × (trim (b ∷ bs) ≡ c ∷ cs)
      × (sign_extension bits c ≡ sign_extension bits b)
unfolding trim
trim_sign bits b [] k h = (b, [], refl, refl)
trim_sign bits b (b1 ∷ bs) k h = elim (Bool-cases (is_redundant b b1)) [
  | inl e ↦
      let (c, cs, shape, sign) = trim_sign bits b1 bs k h.1 in
      (c, cs, rw e shape, sign ∙ (redundant_sign bits b b1 k h.0 h.1.0 e).0)
  | inr e ↦ (b, b1 ∷ bs, rw e refl, refl)
]

memcpy-take :
    (n : ℕ) (to from : List ℕ)
    → n ≤ length to
    → n ≤ length from
    → memcpy to from n ≡ ok (take n from ++ drop n to)
unfolding memcpy
memcpy-take zero to from h k = refl
memcpy-take (suc n) [] from h k = absurd (omega arith)
memcpy-take (suc n) (t ∷ to) [] h k = absurd (omega arith)
memcpy-take (suc n) (t ∷ to) (f ∷ from) h k = rw (memcpy-take n to from (omega arith) (omega arith))

-- A primitive value that holds exactly these octets.
pub record IsStored (bs : List ℕ) (p : Asn1PrimitiveValue) : Type 0 where
  pub size : p.size ≡ length bs
  pub octets : Holds p.octets 0 bs

set_integer_value-IsStored :
    (self : Asn1PrimitiveValue) (buf : List ℕ) (b : ℕ) (bs : List ℕ)
    → reverse buf ≡ b ∷ bs
    → length (trim (b ∷ bs)) ≤ self.max_size
    → self.max_size ≤ length self.octets
    → self.max_size < 256
    → (p : Asn1PrimitiveValue) × (set_integer_value self buf ≡ ok (p, true))
      × IsStored (trim (b ∷ bs)) p
unfolding set_integer_value
set_integer_value-IsStored self buf b bs e fits room small =
    let (out, run, len, front) = compress_integer-trim b bs in
    let n = length (trim (b ∷ bs)) in
    let inside : n ≤ length out = omega (arith, len, length-trim b bs) in
    let word : n % 256 ≡ n = omega arith in
    let test : leb n self.max_size ≡ true = ground arith in
    (
      record self { size = n % 256; octets = take n out ++ drop n self.octets },
      rw (reverted, e, append-nil, run, test, memcpy-take n self.octets out (omega arith) inside)
          refl,
      record { size = word; octets = (drop n self.octets, rw front refl) },
    )
  where
    reverted : revert_byte_order 0 (length buf) buf ≡ ok (reverse buf ++ [])
    reverted = rw append-nil at (revert_byte_order-eq-reverse [] buf [])

pub signed_read :
    (bits b : ℕ) (bs : List ℕ) (p : Asn1PrimitiveValue)
    → KeepsOnes bits
    → All IsByte (b ∷ bs)
    → IsStored (trim (b ∷ bs)) p
    → (c : ℕ) × (read p.octets 0 ≡ ok c)
      × (shift_octets bits p.size 0 (sign_extension bits c) p.octets
          ≡ ok (word_of bits (sign_extension bits b) (b ∷ bs)))
signed_read bits b bs p k h s =
    let (c, cs, shape, sign) = trim_sign bits b bs k h in
    (
      c,
      Holds-read p.octets 0 c cs (rw shape at s.octets),
      rw (s.size, sign) (shift_octets-word_of bits (trim (b ∷ bs)) 0 _ p.octets s.octets)
          ∙ ap ok (word_of-trim bits b bs k h),
    )

-- A signed number of 32 bits, given by its bit pattern, is stored as the octets that the encoder
-- writes for it, and read back.
pub to_int32-create_from_int32 :
    (v : ℕ)
    → v < 2 ^ 32
    → (p : Asn1PrimitiveValue) × (create_from_int32 v ≡ ok p)
      × IsStored (int32_octets v) p
      × (to_int32 p ≡ ok v)
unfolding create_from_int32 set_int32_value le_bytes int32_octets to_int32 create
to_int32-create_from_int32 v small =
    let top = v / 256 / 256 / 256 % 256 in
    let rest : List ℕ = v / 256 / 256 % 256 ∷ v / 256 % 256 ∷ v % 256 ∷ [] in
    let (p, run, s) =
      set_integer_value-IsStored (create 5) (le_bytes 4 v) top rest refl
        (omega (arith, length-trim top rest)) (omega arith) (omega arith) in
    let (c, first, loop) = signed_read 32 top rest p (omega arith) (omega arith) s in
    (p, rw run refl, s, rw (first, loop) (ap ok (unfold word_of in omega arith)))

-- An unsigned number of 32 bits likewise.
pub to_uint32-create_from_uint32 :
    (v : ℕ)
    → v < 2 ^ 32
    → (p : Asn1PrimitiveValue) × (create_from_uint32 v ≡ ok p)
      × IsStored (uint32_octets v) p
      × (to_uint32 p ≡ ok v)
unfolding create_from_uint32 set_uint32_value le_bytes uint32_octets to_uint32 create sign_extension
to_uint32-create_from_uint32 v small =
    let rest : List ℕ = reverse (le_bytes 4 v) in
    let (p, run, s) =
      set_integer_value-IsStored (create 5) (le_bytes 4 v ++ (0 ∷ [])) 0 rest refl
        (omega (arith, length-trim 0 rest)) (omega arith) (omega arith) in
    (
      p,
      rw run refl,
      s,
      rw s.size (shift_octets-word_of 32 (trim (0 ∷ rest)) 0 0 p.octets s.octets)
          ∙ ap ok
              (word_of-trim 32 0 rest (omega arith) (omega arith) ∙ unfold word_of in omega arith),
    )

-- The octets of a signed number of 64 bits.
unfoldable pub int64_octets : ℕ → List ℕ
int64_octets v = trim (reverse (le_bytes 8 v))

-- A signed number of 64 bits likewise.
pub to_int64-create_from_int64 :
    (v : ℕ)
    → v < 2 ^ 64
    → (p : Asn1PrimitiveValue) × (create_from_int64 v ≡ ok p)
      × IsStored (int64_octets v) p
      × (to_int64 p ≡ ok v)
unfolding create_from_int64 set_int64_value le_bytes int64_octets to_int64 create
to_int64-create_from_int64 v small =
    let top = v / 256 / 256 / 256 / 256 / 256 / 256 / 256 % 256 in
    let rest : List ℕ =
      v / 256 / 256 / 256 / 256 / 256 / 256 % 256
      ∷ v / 256 / 256 / 256 / 256 / 256 % 256
      ∷ v / 256 / 256 / 256 / 256 % 256
      ∷ v / 256 / 256 / 256 % 256
      ∷ v / 256 / 256 % 256
      ∷ v / 256 % 256
      ∷ v % 256
      ∷ [] in
    let (p, run, s) =
      set_integer_value-IsStored (create 9) (le_bytes 8 v) top rest refl
        (omega (arith, length-trim top rest)) (omega arith) (omega arith) in
    let (c, first, loop) = signed_read 64 top rest p (omega arith) (omega arith) s in
    (p, rw run refl, s, rw (first, loop) (ap ok (unfold word_of in omega arith)))

-- Numbers of 32 bits, signed as their bit pattern and unsigned, and signed numbers of 64 bits are
-- stored as primitive values whose octets are the big-endian octets of the number without those that
-- only repeat the sign, and the functions that read a primitive value give the number back.
pub create-IsStored :
    (v w : ℕ)
    → v < 2 ^ 32
    → w < 2 ^ 64
    → ((p : Asn1PrimitiveValue) × (create_from_int32 v ≡ ok p)
        × IsStored (int32_octets v) p
        × (to_int32 p ≡ ok v))
      × ((p : Asn1PrimitiveValue) × (create_from_uint32 v ≡ ok p)
          × IsStored (uint32_octets v) p
          × (to_uint32 p ≡ ok v))
      × ((p : Asn1PrimitiveValue) × (create_from_int64 w ≡ ok p)
          × IsStored (int64_octets w) p
          × (to_int64 p ≡ ok w))
create-IsStored v w small wide = (
  to_int32-create_from_int32 v small,
  to_uint32-create_from_uint32 v small,
  to_int64-create_from_int64 w wide,
)
