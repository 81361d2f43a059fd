-- ===== src/Mms/BitString/Integer.antt =====
-- `MmsValue_setBitStringFromInteger` and `MmsValue_getBitStringAsInteger` of
-- mms/iso_mms/common/mms_value.cc.
use grid_goose_sv.Prelude.{
  ℕ, zero, suc, ◌+◌, ◌*◌, ◌/◌, ◌%◌, ◌^◌, ◌≤◌, ◌<◌, ◌≡◌, ◌≢◌, refl, ap, ◌∙◌, arith, List, length,
  Bool, ◌==◌, if◌then◌else◌, Outcome, ok, All, leb, every_from, every_from-at, lt→ltb, Bool-cases,
  inl, inr,
}
use native.Mathlib.Nat.{pow-succ'}
use native.Mathlib.Numerals.{add-one}
use grid_goose_sv.Ber.Decoder.Safety.{IsByte}
use grid_goose_sv.Mms.BitString.{
  get_bit_string_bit, add_power, as_integer_loop, from_integer_loop, set_bit_string_from_integer,
  get_bit_string_as_integer,
}
use grid_goose_sv.Mms.BitString.Bits.{set_step}

-- The bit `k` of a number.
abbrev nth_bit : ℕ → ℕ → Bool
nth_bit zero v = v % 2 == 1
nth_bit (suc k) v = nth_bit k (v / 2)

if_yes : (a b : ℕ) (x y : Outcome Bool) → a ≡ b → (if a == b then x else y) ≡ x
if_yes a b x y h = ground arith

if_no : (a b : ℕ) (x y : Outcome Bool) → a ≢ b → (if a == b then x else y) ≡ y
if_no a b x y h = ground arith

-- The loop sets the bits from `pos` on to those of the number, and none before.
from_integer_loop-bits :
    (rounds size : ℕ) (buf : List ℕ) (pos v : ℕ)
    → All IsByte buf
    → size ≤ 8 * length buf
    → pos + rounds ≤ size
    → (next : List ℕ) × (from_integer_loop rounds size buf pos v ≡ ok next)
      × ((j : ℕ) → j < pos → get_bit_string_bit size next j ≡ get_bit_string_bit size buf j)
      × ((k : ℕ) → k < rounds → get_bit_string_bit size next (pos + k) ≡ ok (nth_bit k v))
unfolding from_integer_loop
from_integer_loop-bits zero size buf pos v bytes fits h =
    (buf, refl, λ j hj. refl, λ k hk. absurd (omega arith))
from_integer_loop-bits (suc rounds) size buf pos v bytes fits h =
    let (buf1, e1, bytes1, long1, step) =
      set_step size buf pos (v % 2 == 1) bytes fits (omega arith) in
    let (next, e, before, after) =
      from_integer_loop-bits rounds size buf1 (pos + 1) (v / 2) bytes1 (omega arith)
        (omega arith) in
    (
      next,
      rw (e1) e,
      λ j hj. before j (omega arith) ∙ step j ∙ if_no j pos _ _ (omega arith),
      λ k hk.
          bit_at next k hk (before pos (omega arith) ∙ step pos ∙ if_yes pos pos _ _ refl) after,
    )
  where
    bit_at :
        (next : List ℕ) (k : ℕ)
        → k < suc rounds
        → get_bit_string_bit size next pos ≡ ok (v % 2 == 1)
        → ((k : ℕ)
            → k < rounds
            → get_bit_string_bit size next (pos + 1 + k) ≡ ok (nth_bit k (v / 2)))
        → get_bit_string_bit size next (pos + k) ≡ ok (nth_bit k v)
    bit_at next zero hk here later = rw (shift_zero) here
      where
        shift_zero : pos + 0 ≡ pos
        shift_zero = omega arith
    bit_at next (suc k) hk here later = rw (shift_suc) (later k (omega arith))
      where
        shift_suc : pos + suc k ≡ pos + 1 + k
        shift_suc = omega arith

-- The sum of the powers of 2 from `p` on that belong to the bits of a number.
abbrev scaled : ℕ → ℕ → ℕ → ℕ
scaled p zero v = 0
scaled p (suc rounds) v = (if v % 2 == 1 then p else 0) + scaled (2 * p) rounds (v / 2)

scaled-double : (p rounds v : ℕ) → scaled (2 * p) rounds v ≡ 2 * scaled p rounds v
scaled-double p zero v = refl
scaled-double p (suc rounds) v = ground (arith, scaled-double (2 * p) rounds (v / 2))

scaled-one : (rounds v : ℕ) → v < 2 ^ rounds → scaled 1 rounds v ≡ v
scaled-one zero v h = omega arith
scaled-one (suc rounds) v h =
    ground (arith, scaled-double 1 rounds (v / 2), scaled-one rounds (v / 2) (omega arith))

-- Adding a power that is not yet in the sum does not wrap.
add_power_lem : (value i : ℕ) → i < 32 → value < 2 ^ i → add_power value i ≡ ok (value + 2 ^ i)
unfolding add_power every_from
add_power_lem value i h small =
    let room =
      every_from-at (λ n. leb (2 * 2 ^ n) (2 ^ 32)) 0 32 i (omega arith) (omega arith) refl in
    rw (lt→ltb i 32 h) (ap ok (below (value + 2 ^ i) (ground arith)))
  where
    below : (n : ℕ) → n < 2 ^ 32 → n % 2 ^ 32 ≡ n
    below n h = omega arith

as_integer_loop-scaled :
    (rounds size : ℕ) (buf : List ℕ) (pos value v : ℕ)
    → pos + rounds ≤ 32
    → value < 2 ^ pos
    → ((k : ℕ) → k < rounds → get_bit_string_bit size buf (pos + k) ≡ ok (nth_bit k v))
    → as_integer_loop rounds size buf pos value ≡ ok (value + scaled (2 ^ pos) rounds v)
unfolding as_integer_loop
as_integer_loop-scaled zero size buf pos value v h small bits = ap ok (omega arith)
as_integer_loop-scaled (suc rounds) size buf pos value v h small bits =
    rw (here) (elim (Bool-cases (v % 2 == 1)) [
      | inl e ↦
          rw (e, add_power_lem value pos (omega arith) small)
            (as_integer_loop-scaled rounds size buf (pos + 1) (value + 2 ^ pos) (v / 2)
                (omega arith) (omega (arith, double)) later
              ∙ ap ok (rw (double) (omega arith)))
      | inr e ↦ rw (e) (
          as_integer_loop-scaled rounds size buf (pos + 1) value (v / 2) (omega arith)
            (omega (arith, double)) later
          ∙ ap ok (rw (double) (omega arith)))
    ])
  where
    double : 2 ^ (pos + 1) ≡ 2 * 2 ^ pos
    double = ap (λ n. 2 ^ n) (add-one pos) ∙ pow-succ' 2 pos

    shift_zero : pos + 0 ≡ pos
    shift_zero = omega arith

    here : get_bit_string_bit size buf pos ≡ ok (v % 2 == 1)
    here = rw (shift_zero) at (bits 0 (omega arith))

    later :
        (k : ℕ) → k < rounds → get_bit_string_bit size buf (pos + 1 + k) ≡ ok (nth_bit k (v / 2))
    later k hk = rw (shift_suc) at (bits (suc k) (omega arith))
      where
        shift_suc : pos + suc k ≡ pos + 1 + k
        shift_suc = omega arith

-- For a string of at most 32 bits whose octets hold them and a number that has no more bits, setting
-- the string from the number is defined, and reading the string as a number gives that number.
pub get-set_bit_string_from_integer :
    (size : ℕ) (buf : List ℕ) (int_value : ℕ)
    → All IsByte buf
    → size ≤ 8 * length buf
    → size ≤ 32
    → int_value < 2 ^ size
    → (next : List ℕ) × (set_bit_string_from_integer size buf int_value ≡ ok next)
      × (get_bit_string_as_integer size next ≡ ok int_value)
unfolding set_bit_string_from_integer get_bit_string_as_integer
get-set_bit_string_from_integer size buf int_value bytes fits short small =
    let (next, e, before, bits) =
      from_integer_loop-bits size size buf 0 int_value bytes fits (omega arith) in
    (
      next,
      e,
      as_integer_loop-scaled size size next 0 0 int_value (omega arith) (omega arith) bits
          ∙ ap ok (omega (arith, scaled-one size int_value small)),
    )
