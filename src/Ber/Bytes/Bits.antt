-- ===== src/Ber/Bytes/Bits.antt =====
-- The masks of the code on one byte as arithmetic, each a table of 256 entries checked by evaluation.
use grid_goose_sv.Prelude.{
  ℕ, ◌*◌, ◌/◌, ◌%◌, ◌<◌, ◌≡◌, refl, arith, bit_and, ◌==◌, every_from, every_from-at, true,
}

pub ==→eq : (a b : ℕ) → (a == b) ≡ true → a ≡ b
==→eq a b h = ground arith

pub top_bit : (b : ℕ) → b < 256 → bit_and b 0x80 ≡ b / 128 * 128
unfolding every_from
top_bit b h =
    ==→eq _ _ (
      every_from-at (λ x. bit_and x 0x80 == x / 128 * 128) 0 256 b (omega arith) (omega arith) refl)

pub low_seven : (b : ℕ) → b < 256 → bit_and b 0x7f ≡ b % 128
unfolding every_from
low_seven b h =
    ==→eq _ _
      (every_from-at (λ x. bit_and x 0x7f == x % 128) 0 256 b (omega arith) (omega arith) refl)
