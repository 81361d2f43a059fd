-- ===== src/Ber/Decoder/Safety.antt =====
-- `decode_length` on any input, well formed or not.
use grid_goose_sv.Prelude.{
  ℕ, zero, suc, ◌+◌, ◌-◌, ◌*◌, ◌^◌, ◌≤◌, ◌<◌, ◌≡◌, arith, bit_and, List, [], ◌∷◌, length, leb, ltb,
  ◌==◌, Bool, false, ◌&&◌, All, drop, refl, ap, Ensures, Ensures-bind, Bool-cases, inl, inr,
  Ensures-if,
}
use grid_goose_sv.Memory.{read}
use grid_goose_sv.Ber.Primitive.{memcpy, memcmp_equal}
use grid_goose_sv.Ber.Decoder.{
  long_form, at_end_marker, tag_octets, within_bounds, decode_length_recursive,
  get_indefinite_length, indefinite_loop, decode_length, max_depth, read_bytes,
}

abbrev pub IsByte : ℕ → Type 0
IsByte b = b < 256

-- Inside the array a read gives a byte.
pub read-Ensures :
    (buffer : List ℕ) (i : ℕ)
    → All IsByte buffer
    → i < length buffer
    → Ensures IsByte (read buffer i)
read-Ensures [] i h k = absurd (omega arith)
read-Ensures (b ∷ buffer) zero h k = h.0
read-Ensures (b ∷ buffer) (suc i) h k = read-Ensures buffer i h.1 (omega arith)

-- A position behind `buf_pos`, and a length that ends inside the bound.
abbrev pub InBounds : ℕ → ℕ → ℕ × ℕ → Type 0
InBounds buf_pos max_buf_pos r = (buf_pos < r.0) × (r.0 + r.1 ≤ max_buf_pos)

-- Only that the position has moved on.
abbrev Moved : ℕ → ℕ × ℕ → Type 0
Moved buf_pos r = buf_pos < r.0

abbrev Anything : ℕ → Type 0
Anything n = Unit

module _ (buffer : List ℕ) (max_buf_pos : ℕ) (bytes : All IsByte buffer)
    (fits : max_buf_pos ≤ length buffer) (small : max_buf_pos < 2 ^ 23) where
  long_form-Ensures :
      (rounds buf_pos start length : ℕ)
      → start < buf_pos
      → Ensures (Moved start) (long_form rounds buffer buf_pos max_buf_pos length)
  unfolding long_form
  long_form-Ensures zero buf_pos start length h = h
  long_form-Ensures (suc rounds) buf_pos start length h =
      elim (Bool-cases (leb max_buf_pos buf_pos)) [
        | inl e ↦ rw e tt
        | inr e ↦ elim (Bool-cases (ltb max_buf_pos (buf_pos + length))) [
          | inl e' ↦ rw (e, e') tt
          | inr e' ↦
              rw (e, e')
                (Ensures-bind IsByte (Moved start) (read buffer buf_pos) _
                  (read-Ensures buffer buf_pos bytes (ground arith))
                  (λ b hb. rw (in_range b hb e') (
                    long_form-Ensures rounds (buf_pos + 1) start (length * 256 + b) (omega arith))))
        ]
      ]
    where
      in_range :
          (b : ℕ)
          → b < 256
          → ltb max_buf_pos (buf_pos + length) ≡ false
          → leb (2 ^ 31) (length * 256 + b) ≡ false
      in_range b hb e = ground arith

  within_bounds-Ensures :
      (start : ℕ) (r : ℕ × ℕ)
      → start < r.0
      → Ensures (InBounds start max_buf_pos) (within_bounds max_buf_pos r)
  unfolding within_bounds
  within_bounds-Ensures start (p, n) h = ground arith

  at_end_marker-Ensures :
      (buf_pos b : ℕ)
      → Ensures (λ (done : Bool). Unit {0}) (at_end_marker buffer buf_pos max_buf_pos b)
  unfolding at_end_marker
  at_end_marker-Ensures buf_pos b = elim (Bool-cases (b == 0 && ltb (buf_pos + 1) max_buf_pos)) [
    | inl e ↦ rw e (
        Ensures-bind IsByte (λ done. Unit {0}) (read buffer (buf_pos + 1)) _
          (read-Ensures buffer (buf_pos + 1) bytes (ground arith)) (λ b1 h. tt))
    | inr e ↦ rw e tt
  ]

  tag_octets_pos : (b : ℕ) → 1 ≤ tag_octets b
  unfolding tag_octets
  tag_octets_pos b = ground arith

  mutual
    unfolding decode_length_recursive get_indefinite_length indefinite_loop

    decode_length_recursive-Ensures :
        (fuel buf_pos depth : ℕ)
        → 2 * (max_buf_pos - buf_pos) < fuel
        → Ensures
            (InBounds buf_pos max_buf_pos)
            (decode_length_recursive fuel buffer buf_pos max_buf_pos depth)
    decode_length_recursive-Ensures zero buf_pos depth h = absurd (omega arith)
    decode_length_recursive-Ensures (suc fuel) buf_pos depth h =
        Ensures-if _ (leb max_buf_pos buf_pos) _ _ (λ e. tt)
          λ e.
            Ensures-bind IsByte _ (read buffer buf_pos) _
              (read-Ensures buffer buf_pos bytes (ground arith))
              λ len1 hb.
                Ensures-bind (Moved buf_pos) _ _ _
                  (Ensures-if _ (bit_and len1 0x80 == 0) _ _ (λ e1. omega arith)
                    λ e1.
                      Ensures-if _ (bit_and len1 0x7f == 0) _ _
                        (λ e2.
                          Ensures-bind Anything (Moved buf_pos) _ _
                            (get_indefinite_length-Ensures fuel (buf_pos + 1) depth (ground arith))
                            (λ n _. omega arith))
                        (λ e2.
                          long_form-Ensures (bit_and len1 0x7f) (buf_pos + 1) buf_pos 0
                            (omega arith)))
                  (λ r hr. within_bounds-Ensures buf_pos r hr)

    get_indefinite_length-Ensures :
        (fuel buf_pos depth : ℕ)
        → 2 * (max_buf_pos - buf_pos) + 1 < fuel
        → Ensures Anything (get_indefinite_length fuel buffer buf_pos max_buf_pos depth)
    get_indefinite_length-Ensures zero buf_pos depth h = absurd (omega arith)
    get_indefinite_length-Ensures (suc fuel) buf_pos depth h =
        Ensures-if _ (ltb max_depth (depth + 1)) _ _ (λ e. tt)
          λ e. indefinite_loop-Ensures fuel buf_pos (depth + 1) 0 (omega arith)

    indefinite_loop-Ensures :
        (fuel buf_pos depth length : ℕ)
        → 2 * (max_buf_pos - buf_pos) < fuel
        → Ensures Anything (indefinite_loop fuel buffer buf_pos max_buf_pos depth length)
    indefinite_loop-Ensures zero buf_pos depth length h = absurd (omega arith)
    indefinite_loop-Ensures (suc fuel) buf_pos depth length h =
        Ensures-if _ (leb max_buf_pos buf_pos) _ _ (λ e. tt)
          λ e.
            Ensures-bind IsByte _ (read buffer buf_pos) _
              (read-Ensures buffer buf_pos bytes (ground arith))
              λ b hb.
                Ensures-bind (λ (done : Bool). Unit {0}) _ _ _ (at_end_marker-Ensures buf_pos b)
                  λ done _.
                    Ensures-if _ done _ _ (λ e1. tt)
                      λ e1.
                        Ensures-bind (InBounds (buf_pos + tag_octets b) max_buf_pos) _ _ _
                          (decode_length_recursive-Ensures fuel (buf_pos + tag_octets b) depth
                            (ground (arith, tag_octets_pos b)))
                          (λ r hr.
                            indefinite_loop-Ensures fuel (r.0 + r.1) depth _
                              (ground (arith, tag_octets_pos b)))

-- On bytes, and with the bound inside the array and below 2 ^ 23, the decoder reads nothing outside
-- the array, overflows no `int` and ends; if it returns no error, the position has moved on and the
-- contents end inside the bound.
pub decode_length-InBounds :
    (buffer : List ℕ) (buf_pos max_buf_pos : ℕ)
    → All IsByte buffer
    → max_buf_pos ≤ length buffer
    → max_buf_pos < 2 ^ 23
    → Ensures (InBounds buf_pos max_buf_pos) (decode_length buffer buf_pos max_buf_pos)
unfolding decode_length
decode_length-InBounds buffer buf_pos max_buf_pos bytes fits small =
    decode_length_recursive-Ensures buffer max_buf_pos bytes fits small (2 * max_buf_pos + 1)
      buf_pos 0 (omega arith)

-- A suffix of an array of bytes.
pub All-drop : (n : ℕ) (xs : List ℕ) → All IsByte xs → All IsByte (drop n xs)
All-drop zero xs h = h
All-drop (suc n) [] h = tt
All-drop (suc n) (x ∷ xs) h = All-drop n xs h.1

pub read_bytes-Ensures :
    (n : ℕ) (buffer : List ℕ) (i : ℕ)
    → All IsByte buffer
    → i + n ≤ length buffer
    → Ensures (λ out. All IsByte out × (length out ≡ n)) (read_bytes n buffer i)
unfolding read_bytes
read_bytes-Ensures zero buffer i bytes h = (tt, refl)
read_bytes-Ensures (suc n) buffer i bytes h =
    Ensures-bind IsByte _ (read buffer i) _ (read-Ensures buffer i bytes (omega arith)) λ b hb.
      Ensures-bind _ _ (read_bytes n buffer (i + 1)) _
        (read_bytes-Ensures n buffer (i + 1) bytes (omega arith))
        (λ out ho. ((hb, ho.0), ap suc ho.1))

pub memcpy-Ensures :
    (to from : List ℕ) (n : ℕ)
    → n ≤ length to
    → n ≤ length from
    → Ensures (λ out. length out ≡ length to) (memcpy to from n)
unfolding memcpy
memcpy-Ensures to from zero h k = refl
memcpy-Ensures [] from (suc n) h k = absurd (omega arith)
memcpy-Ensures (t ∷ to) [] (suc n) h k = absurd (omega arith)
memcpy-Ensures (t ∷ to) (f ∷ from) (suc n) h k =
    Ensures-bind _ _ (memcpy to from n) _ (memcpy-Ensures to from n (omega arith) (omega arith))
      (λ out ho. ap suc ho)

pub memcmp_equal-Ensures :
    (a b : List ℕ) (n : ℕ)
    → n ≤ length a
    → n ≤ length b
    → Ensures (λ (r : Bool). Unit {0}) (memcmp_equal a b n)
unfolding memcmp_equal
memcmp_equal-Ensures a b zero h k = tt
memcmp_equal-Ensures [] b (suc n) h k = absurd (omega arith)
memcmp_equal-Ensures (x ∷ a) [] (suc n) h k = absurd (omega arith)
memcmp_equal-Ensures (x ∷ a) (y ∷ b) (suc n) h k =
    Ensures-if _ (x == y) _ _ (λ e. memcmp_equal-Ensures a b n (omega arith) (omega arith))
      (λ e. tt)
