-- ===== src/Iec61850/Timestamp/Flags.antt =====
-- The flags in the quality octet of a time stamp of iec61850/common/iec61850_common.cc.
use grid_goose_sv.Prelude.{
  ℕ, ◌+◌, ◌%◌, ◌<◌, ◌≡◌, refl, arith, bit_and, ◌==◌, ◌&&◌, Bool, true, false, every_from,
  every_from-at,
}
use grid_goose_sv.Iec61850.Timestamp.{
  Timestamp, has_flag, with_flag, is_leap_second_known, set_leap_second_known, has_clock_failure,
  set_clock_failure, is_clock_not_synchronized, set_clock_not_synchronized, get_subsecond_precision,
  set_subsecond_precision,
}

abbrev Flags : Type 0
Flags = Bool × Bool × Bool × ℕ

abbrev octet_flags : ℕ → Flags
octet_flags octet =
    (has_flag 0x80 octet, has_flag 0x40 octet, has_flag 0x20 octet, bit_and octet 0x1f)

-- What the four getters return.
abbrev pub flags_of : Timestamp → Flags
flags_of t = (
  is_leap_second_known t,
  has_clock_failure t,
  is_clock_not_synchronized t,
  get_subsecond_precision t,
)

same : Bool → Bool → Bool
same true b = b
same false true = false
same false false = true

same→eq : (a b : Bool) → same a b ≡ true → a ≡ b
unfolding same
same→eq true b h = cc
same→eq false true h = cc
same→eq false false h = refl

same_flags : Flags → Flags → Bool
same_flags (a, b, c, n) (a', b', c', n') = same a a' && same b b' && same c c' && (n == n')

same_flags→eq : (f g : Flags) → same_flags f g ≡ true → f ≡ g
unfolding same_flags
same_flags→eq (a, b, c, n) (a', b', c', n') h =
    ground (arith, same→eq a a', same→eq b b', same→eq c c')

-- Every octet, checked by evaluation.
checked :
    (f g : ℕ → Flags)
    → every_from (λ octet. same_flags (f octet) (g octet)) 0 256 ≡ true
    → (octet : ℕ) → octet < 256
    → f octet ≡ g octet
checked f g h octet small =
    same_flags→eq _ _
      (every_from-at (λ o. same_flags (f o) (g o)) 0 256 octet (omega arith) (omega arith) h)

set_flags :
    (octet : ℕ) (v : Bool)
    → octet < 256
    → let (a, b, c, n) = octet_flags octet in
      (octet_flags (with_flag 0x80 0x7f v octet) ≡ (v, b, c, n))
      × (octet_flags (with_flag 0x40 0xbf v octet) ≡ (a, v, c, n))
      × (octet_flags (with_flag 0x20 0xdf v octet) ≡ (a, b, v, n))
unfolding every_from same_flags same
set_flags octet true h = (
  checked (λ o. octet_flags (with_flag 0x80 0x7f true o))
      (λ o. (true, has_flag 0x40 o, has_flag 0x20 o, bit_and o 0x1f)) refl octet h,
  checked (λ o. octet_flags (with_flag 0x40 0xbf true o))
      (λ o. (has_flag 0x80 o, true, has_flag 0x20 o, bit_and o 0x1f)) refl octet h,
  checked (λ o. octet_flags (with_flag 0x20 0xdf true o))
      (λ o. (has_flag 0x80 o, has_flag 0x40 o, true, bit_and o 0x1f)) refl octet h,
)
set_flags octet false h = (
  checked (λ o. octet_flags (with_flag 0x80 0x7f false o))
      (λ o. (false, has_flag 0x40 o, has_flag 0x20 o, bit_and o 0x1f)) refl octet h,
  checked (λ o. octet_flags (with_flag 0x40 0xbf false o))
      (λ o. (has_flag 0x80 o, false, has_flag 0x20 o, bit_and o 0x1f)) refl octet h,
  checked (λ o. octet_flags (with_flag 0x20 0xdf false o))
      (λ o. (has_flag 0x80 o, has_flag 0x40 o, false, bit_and o 0x1f)) refl octet h,
)

abbrev with_precision : ℕ → ℕ → ℕ
with_precision octet n = (bit_and octet 0xe0 + bit_and (n % 256) 0x1f) % 256

set_precision :
    (octet n : ℕ)
    → octet < 256
    → n < 32
    → let (a, b, c, old) = octet_flags octet in octet_flags (with_precision octet n) ≡ (a, b, c, n)
unfolding every_from same_flags same
set_precision octet n h small = same_flags→eq _ _ (
    every_from-at
      (λ m.
        same_flags (octet_flags (with_precision octet m))
          (has_flag 0x80 octet, has_flag 0x40 octet, has_flag 0x20 octet, m))
      0 32 n (omega arith) (omega arith)
      (every_from-at
        (λ o.
          every_from
            (λ m.
              same_flags (octet_flags (with_precision o m))
                (has_flag 0x80 o, has_flag 0x40 o, has_flag 0x20 o, m))
            0 32)
        0 256 octet (omega arith) (omega arith) refl))

-- Each of the four setters changes what its own getter returns, to the value that was set, and leaves
-- what the three others return; the precision is below 32.
pub set-flags_of :
    (self : Timestamp) (v : Bool) (n : ℕ)
    → self.octet_7 < 256
    → n < 32
    → let (leap, failure, unsynchronized, precision) = flags_of self in
      (flags_of (set_leap_second_known self v) ≡ (v, failure, unsynchronized, precision))
      × (flags_of (set_clock_failure self v) ≡ (leap, v, unsynchronized, precision))
      × (flags_of (set_clock_not_synchronized self v) ≡ (leap, failure, v, precision))
      × (flags_of (set_subsecond_precision self n) ≡ (leap, failure, unsynchronized, n))
unfolding is_leap_second_known set_leap_second_known has_clock_failure set_clock_failure
    is_clock_not_synchronized set_clock_not_synchronized get_subsecond_precision
    set_subsecond_precision
set-flags_of self v n h small =
    let (a, b, c) = set_flags self.octet_7 v h in (a, b, c, set_precision self.octet_7 n h small)
