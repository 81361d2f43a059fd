-- ===== src/Sv/Publisher/Stores.antt =====
-- The setters of sampled_values/sv_publisher.cc and the octets that they store.
use grid_goose_sv.Prelude.{
  ℕ, ◌+◌, ◌%◌, ◌≤◌, ◌<◌, ◌≡◌, ◌≢◌, refl, sym, ap, ◌∙◌, arith, List, [], ◌∷◌, ◌++◌, length, take,
  reverse, some, Outcome, ok, ◌>>=◌, ◌==◌, false,
}
use native.Mathlib.Nat.{mod-lt}
use grid_goose_sv.Memory.{Cursor, put_all-fits, splice, Writes}
use grid_goose_sv.Ber.Bytes.{revert_byte_order}
use grid_goose_sv.Ber.Bytes.Revert.{revert_byte_order-eq-reverse}
use grid_goose_sv.Ber.Encoder.{copy_bytes}
use grid_goose_sv.Ber.Encoder.Integers.{copy_bytes-Writes}
use grid_goose_sv.Ber.Encoder.Floats.{length-reverse}
use grid_goose_sv.Sv.Publisher.{SvAsdu, encode_uint16_fixed_size}
use grid_goose_sv.Sv.Publisher.Layout.{uint16_octets, encode_uint16-Writes}
use grid_goose_sv.Sv.Publisher.Values.{
  write_at, set_reversed, write_smp_cnt, show_smp_cnt, increase_smp_cnt,
}

-- An encoder that fits replaces the octets from the position on.
pub write_at-splice :
    (w : Cursor → Outcome Cursor) (bs buffer : List ℕ) (i : ℕ)
    → Writes w bs
    → i + length bs ≤ length buffer
    → write_at w buffer i ≡ ok (splice buffer i bs)
write_at-splice w bs buffer i h fits = rw (
  h (record { buffer = buffer; pos = i }),
  put_all-fits bs (record { buffer = buffer; pos = i }) fits,
)

take_whole : (xs : List ℕ) → take (length xs) xs ≡ xs
take_whole [] = refl
take_whole (x ∷ xs) = ap (λ t. x ∷ t) (take_whole xs)

append_nil : (xs : List ℕ) → xs ++ [] ≡ xs
append_nil [] = refl
append_nil (x ∷ xs) = ap (λ t. x ∷ t) (append_nil xs)

revert_whole : (value : List ℕ) → revert_byte_order 0 (length value) value ≡ ok (reverse value)
revert_whole value =
    rw (append_nil value, append_nil (reverse value)) at (revert_byte_order-eq-reverse [] value [])

pub copy_whole : (n : ℕ) (xs : List ℕ) → n ≡ length xs → Writes (copy_bytes n 0 xs) xs
copy_whole n xs e c = copy_bytes-Writes n 0 xs (omega arith) c ∙ rw (e, take_whole xs)

-- With the pointer to the samples set and the value inside the buffer, a number of `length value`
-- octets is stored in network order from its index on, and no other octet changes.
pub set_reversed-splice :
    (self : SvAsdu) (index p : ℕ) (value buffer : List ℕ)
    → self.data_buffer ≡ some p
    → p + index + length value ≤ length buffer
    → set_reversed (length value) self index value buffer
      ≡ ok (splice buffer (p + index) (reverse value))
unfolding set_reversed
set_reversed-splice self index p value buffer e fits =
    rw (revert_whole value, e)
      (write_at-splice (copy_bytes (length value) 0 (reverse value)) (reverse value) buffer
        (p + index) (copy_whole (length value) (reverse value) (sym (length-reverse value)))
        (omega (arith, length-reverse value)))

==_no : (a b : ℕ) → a ≢ b → (a == b) ≡ false
==_no a b h = ground arith

show_smp_cnt-splice :
    (self : SvAsdu) (p : ℕ) (buffer : List ℕ)
    → self.smp_cnt_buf ≡ some p
    → p + 2 ≤ length buffer
    → show_smp_cnt self buffer ≡ ok (self, splice buffer p (uint16_octets self.smp_cnt))
unfolding show_smp_cnt write_smp_cnt
show_smp_cnt-splice self p buffer e fits =
    ap (λ m. m >>= λ b. ok (self, b))
      (ap (λ q. write_smp_cnt q self.smp_cnt buffer) e
        ∙ write_at-splice (encode_uint16_fixed_size self.smp_cnt) (uint16_octets self.smp_cnt)
            buffer p (encode_uint16-Writes self.smp_cnt) fits)

-- Where the counter stands in the buffer and its limit is not 0, the counter moves on to the remainder
-- by the limit, which is below it, and its two octets in the buffer, and no others, follow.
pub increase_smp_cnt-splice :
    (self : SvAsdu) (p : ℕ) (buffer : List ℕ)
    → self.smp_cnt_buf ≡ some p
    → self.smp_cnt_limit ≢ 0
    → p + 2 ≤ length buffer
    → let next = (self.smp_cnt + 1) % self.smp_cnt_limit in
      (increase_smp_cnt self buffer
        ≡ ok (record self { smp_cnt = next }, splice buffer p (uint16_octets next)))
      × (next < self.smp_cnt_limit)
unfolding increase_smp_cnt
increase_smp_cnt-splice self p buffer e positive fits =
    let next = (self.smp_cnt + 1) % self.smp_cnt_limit in
    (
      rw (==_no self.smp_cnt_limit 0 positive)
          (show_smp_cnt-splice (record self { smp_cnt = next }) p buffer e fits),
      mod-lt (self.smp_cnt + 1) (omega arith),
    )
