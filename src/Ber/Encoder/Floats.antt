-- ===== src/Ber/Encoder/Floats.antt =====
-- `BerEncoder_encodeFloat` of mms/asn1/ber_encoder.cc and the octets of its result.
use grid_goose_sv.Prelude.{
  ℕ, suc, ◌+◌, ◌/◌, ◌≤◌, ◌≡◌, refl, sym, ap, ◌∙◌, arith, List, [], ◌∷◌, ◌++◌, length, drop, take,
  reverse, Outcome, ok, fault, ◌>>=◌, >>=_assoc, length-append, append_assoc, length-take, ◌⊎◌, inl,
  inr, Bool-cases, leb,
}
use grid_goose_sv.Memory.{
  Cursor, put, put_all, splice, put_all-fits, put_all-overflows, Writes, Writes-then, put-Writes,
}
use grid_goose_sv.Ber.Bytes.{revert_byte_order}
use grid_goose_sv.Ber.Bytes.Revert.{revert_byte_order-eq-reverse}
use grid_goose_sv.Ber.Encoder.Integers.{copy_bytes-Writes}
use grid_goose_sv.Ber.Encoder.{copy_bytes, encode_float}
use mathlib.Core.List.{reverse-cons}

pub length-reverse : (xs : List ℕ) → length (reverse xs) ≡ length xs
length-reverse [] = refl
length-reverse (x ∷ xs) =
    ap length (reverse-cons x xs)
    ∙ omega (arith, length-append (reverse xs) (x ∷ []), length-reverse xs)

-- A run of at least one write fits the buffer or faults.
put_all-cases :
    (b : ℕ) (bs : List ℕ) (c : Cursor)
    → (c.pos + suc (length bs) ≤ length c.buffer) ⊎ (put_all (b ∷ bs) c ≡ fault)
put_all-cases b bs c = elim (Bool-cases (leb (c.pos + suc (length bs)) (length c.buffer))) [
  | inl e ↦ inl (ground arith)
  | inr e ↦ inr (elim (Bool-cases (leb c.pos (length c.buffer))) [
    | inl e' ↦ put_all-overflows (b ∷ bs) c (ground arith) (ground arith)
    | inr e' ↦ unfold put_all put in ground arith
  ])
]

-- The reversal in place that follows the copy.
finish : ℕ → ℕ → Cursor → Outcome Cursor
finish pos n d = do
  buffer ← revert_byte_order (pos + 1) n d.buffer
  ok (record { buffer = buffer; pos = pos + 1 + n })

reverted :
    (b : ℕ) (xs : List ℕ) (c : Cursor)
    → c.pos + suc (length xs) ≤ length c.buffer
    → revert_byte_order (c.pos + 1) (length xs) (splice c.buffer c.pos (b ∷ xs))
      ≡ ok (splice c.buffer c.pos (b ∷ reverse xs))
reverted b xs c fits = rw (length-reverse xs) (
    rw
      (
        append_assoc (take c.pos c.buffer) (b ∷ []) _,
        append_assoc (take c.pos c.buffer) (b ∷ []) _,
        before,
      )
      at
      (revert_byte_order-eq-reverse (take c.pos c.buffer ++ (b ∷ [])) xs
        (drop (c.pos + suc (length xs)) c.buffer)))
  where
    before : length (take c.pos c.buffer ++ (b ∷ [])) ≡ c.pos + 1
    before = omega (arith, length-append (take c.pos c.buffer) (b ∷ []), length-take c.pos c.buffer)

finish-put_all :
    (b : ℕ) (xs : List ℕ) (c : Cursor)
    → (put_all (b ∷ xs) c >>= finish c.pos (length xs)) ≡ put_all (b ∷ reverse xs) c
unfolding finish
finish-put_all b xs c = elim (put_all-cases b xs c) [
  | inl fits ↦
      let len = length-reverse xs in
      rw
        (
          put_all-fits (b ∷ xs) c fits,
          put_all-fits (b ∷ reverse xs) c (omega arith),
          reverted b xs c fits,
        )
        (ap (λ (p : ℕ). ok (record { buffer = splice c.buffer c.pos (b ∷ reverse xs); pos = p }))
          (omega arith))
  | inr f ↦ elim (put_all-cases b (reverse xs) c) [
    | inl fits ↦
        let len = length-reverse xs in
        absurd (ok-ne-fault (sym (put_all-fits (b ∷ xs) c (omega arith)) ∙ f))
    | inr f' ↦ rw (f, f')
  ]
]
  where
    ok-ne-fault : {d : Cursor} → ok d ≡ fault → ⊥
    ok-ne-fault e = cc

-- Where the number has at least `format_width / 8` octets, the encoder writes the exponent
-- width and then those octets in the reverse order, whatever stands around them in the buffer.
pub encode_float-Writes :
    (octets : List ℕ) (format_width exponent_width : ℕ)
    → format_width / 8 ≤ length octets
    → Writes
        (encode_float octets format_width exponent_width)
        (exponent_width ∷ reverse (take (format_width / 8) octets))
unfolding encode_float finish
encode_float-Writes octets format_width exponent_width h c =
    let n = format_width / 8 in
    let xs = take n octets in
    let len : length xs ≡ n = omega (arith, length-take n octets) in
    sym (>>=_assoc (put exponent_width c) (copy_bytes n 0 octets) (finish c.pos n))
    ∙ ap (λ m. m >>= finish c.pos n)
        (Writes-then (put exponent_width) (copy_bytes n 0 octets) (exponent_width ∷ []) xs
          (put-Writes exponent_width) (copy_bytes-Writes n 0 octets (omega arith)) c)
    ∙ (rw len at (finish-put_all exponent_width xs c))
