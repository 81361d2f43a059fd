-- ===== src/Mms/BitString/Bits.antt =====
-- `MmsValue_setBitStringBit` and `MmsValue_getBitStringBit` of mms/iso_mms/common/mms_value.cc.
use grid_goose_sv.Prelude.{
  ℕ, zero, suc, ◌-◌, ◌*◌, ◌/◌, ◌%◌, ◌^◌, ◌≤◌, ◌<◌, ◌≡◌, ◌≢◌, refl, sym, ap, ◌∙◌, arith, List, [],
  ◌∷◌, length, set, get_elem?, get_elem?-set_self, get_elem?-set_ne, length-set, Bool, true, false,
  ltb, ◌==◌, not, if◌then◌else◌, every_from, every_from-at, lt→ltb, le→ltb, Bool-cases, inl, inr,
  some, ok,
}
use grid_goose_sv.Prelude.{All}
use grid_goose_sv.Ber.Decoder.Safety.{IsByte}
use grid_goose_sv.Ber.Bytes.{store}
use grid_goose_sv.Mms.BitString.{change_bit, test_bit, set_bit_string_bit, get_bit_string_bit}

abbrev agree : Bool → Bool → Bool
agree true b = b
agree false b = not b

agree→≡ : (a b : Bool) → agree a b ≡ true → a ≡ b
agree→≡ true true h = refl
agree→≡ true false h = sym h
agree→≡ false true h = h
agree→≡ false false h = refl

-- The bit `m` of the octet `b` after the bit `k` has been changed.
abbrev octet_test : Bool → ℕ → ℕ → ℕ → Bool
octet_test value k m b =
    agree (test_bit (2 ^ (7 - m)) (change_bit value (2 ^ (7 - k)) b))
      (if m == k then value else test_bit (2 ^ (7 - m)) b)

table :
    (value : Bool)
    → every_from (λ k. every_from (λ m. every_from (octet_test value k m) 0 256) 0 8) 0 8 ≡ true
unfolding every_from change_bit test_bit
table true = refl
table false = refl

octet_bit :
    (value : Bool) (k m b : ℕ)
    → k < 8
    → m < 8
    → b < 256
    → test_bit (2 ^ (7 - m)) (change_bit value (2 ^ (7 - k)) b)
      ≡ (if m == k then value else test_bit (2 ^ (7 - m)) b)
octet_bit value k m b hk hm hb = agree→≡ _ _ (
    every_from-at (octet_test value k m) 0 256 b (omega arith) (omega arith) (
      every_from-at (λ m. every_from (octet_test value k m) 0 256) 0 8 m (omega arith) (omega arith)
        (every_from-at (λ k. every_from (λ m. every_from (octet_test value k m) 0 256) 0 8) 0 8 k
          (omega arith) (omega arith) (table value))))

byte_at :
    (buf : List ℕ) (n : ℕ)
    → All IsByte buf
    → n < length buf
    → (b : ℕ) × (get_elem? buf n ≡ some b) × (b < 256)
byte_at [] n h k = absurd (omega arith)
byte_at (b ∷ buf) zero h k = (b, refl, h.0)
byte_at (b ∷ buf) (suc n) h k = byte_at buf n h.1 (omega arith)

-- The test of a bit whose octet is known.
get_in :
    (size : ℕ) (buf : List ℕ) (j b : ℕ)
    → j < size
    → get_elem? buf (j / 8) ≡ some b
    → get_bit_string_bit size buf j ≡ ok (test_bit (2 ^ (7 - j % 8)) b)
unfolding get_bit_string_bit
get_in size buf j b h e = rw (lt→ltb j size h, e)

get_out : (size : ℕ) (buf : List ℕ) (j : ℕ) → size ≤ j → get_bit_string_bit size buf j ≡ ok false
unfolding get_bit_string_bit
get_out size buf j h = rw (le→ltb j size h)

set_in :
    (size : ℕ) (buf : List ℕ) (i b : ℕ) (value : Bool)
    → i < size
    → i / 8 < length buf
    → get_elem? buf (i / 8) ≡ some b
    → set_bit_string_bit size buf i value
      ≡ ok (set buf (i / 8) (change_bit value (2 ^ (7 - i % 8)) b))
unfolding set_bit_string_bit store
set_in size buf i b value h k e = rw (lt→ltb i size h, e, lt→ltb (i / 8) (length buf) k)

==_yes : (a b : ℕ) → a ≡ b → (a == b) ≡ true
==_yes a b h = ground arith

==_no : (a b : ℕ) → a ≢ b → (a == b) ≡ false
==_no a b h = ground arith

same_octet : (i j : ℕ) → j / 8 ≡ i / 8 → (j % 8 == i % 8) ≡ (j == i)
same_octet i j h = ground arith

ok-if : (c x y : Bool) → ok (if c then x else y) ≡ (if c then ok x else ok y)
ok-if true x y = refl
ok-if false x y = refl

abbrev whole_octet : Bool → ℕ → ℕ → Bool
whole_octet value k b = ltb (change_bit value (2 ^ (7 - k)) b) 256

octet_table : (value : Bool) → every_from (λ k. every_from (whole_octet value k) 0 256) 0 8 ≡ true
unfolding every_from change_bit
octet_table true = refl
octet_table false = refl

change_bit-IsByte :
    (value : Bool) (k b : ℕ) → k < 8 → b < 256 → change_bit value (2 ^ (7 - k)) b < 256
change_bit-IsByte value k b hk hb =
    let inside = every_from-at (whole_octet value k) 0 256 b (omega arith) (omega arith) (
      every_from-at (λ k. every_from (whole_octet value k) 0 256) 0 8 k (omega arith) (omega arith)
        (octet_table value)) in
    ground arith

All-set : (xs : List ℕ) (i v : ℕ) → All IsByte xs → v < 256 → All IsByte (set xs i v)
All-set [] i v h k = tt
All-set (x ∷ xs) zero v h k = (k, h.1)
All-set (x ∷ xs) (suc i) v h k = (h.0, All-set xs i v h.1 k)

module _ (size : ℕ) (buf : List ℕ) (i : ℕ) (value : Bool) (bytes : All IsByte buf)
    (fits : size ≤ 8 * length buf) (h : i < size) where
  same_case :
      (j b : ℕ)
      → get_elem? buf (i / 8) ≡ some b
      → b < 256
      → j < size
      → j / 8 ≡ i / 8
      → get_bit_string_bit size (set buf (i / 8) (change_bit value (2 ^ (7 - i % 8)) b)) j
        ≡ (if j == i then ok value else get_bit_string_bit size buf j)
  same_case j b e hb inside q =
      let changed = change_bit value (2 ^ (7 - i % 8)) b in
      get_in size (set buf (i / 8) changed) j changed inside (
        ap (get_elem? (set buf (i / 8) changed)) q
        ∙ get_elem?-set_self buf (i / 8) changed (omega arith))
      ∙ ap ok (octet_bit value (i % 8) (j % 8) b (omega arith) (omega arith) hb)
      ∙ rw (same_octet i j q, get_in size buf j b inside (ap (get_elem? buf) q ∙ e))
          (ok-if (j == i) value (test_bit (2 ^ (7 - j % 8)) b))

  other_case :
      (j b : ℕ)
      → j < size
      → j / 8 ≢ i / 8
      → get_bit_string_bit size (set buf (i / 8) (change_bit value (2 ^ (7 - i % 8)) b)) j
        ≡ (if j == i then ok value else get_bit_string_bit size buf j)
  other_case j b inside ne =
      let changed = change_bit value (2 ^ (7 - i % 8)) b in
      let (d, e, hd) = byte_at buf (j / 8) bytes (omega arith) in
      rw (==_no j i (λ q. ne (ap (λ t. t / 8) q))) (
        get_in size (set buf (i / 8) changed) j d inside
          (get_elem?-set_ne buf (i / 8) (j / 8) changed (λ q. ne (sym q)) ∙ e)
        ∙ sym (get_in size buf j d inside e))

  read_back :
      (j b : ℕ)
      → get_elem? buf (i / 8) ≡ some b
      → b < 256
      → get_bit_string_bit size (set buf (i / 8) (change_bit value (2 ^ (7 - i % 8)) b)) j
        ≡ (if j == i then ok value else get_bit_string_bit size buf j)
  read_back j b e hb = elim (Bool-cases (ltb j size)) [
    | inr out ↦ rw (
      get_out size (set buf (i / 8) (change_bit value (2 ^ (7 - i % 8)) b)) j (ground arith),
      ==_no j i (ground arith),
      get_out size buf j (ground arith),
    )
    | inl inside ↦ elim (Bool-cases (j / 8 == i / 8)) [
      | inl same ↦ same_case j b e hb (ground arith) (ground arith)
      | inr other ↦ other_case j b (ground arith) (ground arith)
    ]
  ]

  -- One step of the loops that set bits.
  pub set_step :
      (next : List ℕ) × (set_bit_string_bit size buf i value ≡ ok next)
      × All IsByte next
      × (length next ≡ length buf)
      × ((j : ℕ)
          → get_bit_string_bit size next j
            ≡ (if j == i then ok value else get_bit_string_bit size buf j))
  set_step =
      let (b, e, hb) = byte_at buf (i / 8) bytes (omega arith) in
      let changed = change_bit value (2 ^ (7 - i % 8)) b in
      (
        set buf (i / 8) changed,
        set_in size buf i b value h (omega arith) e,
        All-set buf (i / 8) changed bytes (change_bit-IsByte value (i % 8) b (omega arith) hb),
        length-set buf (i / 8) changed,
        λ j. read_back j b e hb,
      )

-- Where the octets hold all bits, setting the bit `i` of the string is defined and keeps the number of
-- octets; reading the bit `j` then gives the new value if `j` is `i`, and what it gave before if not.
pub get-set_bit_string_bit :
    (size : ℕ) (buf : List ℕ) (i j : ℕ) (value : Bool)
    → All IsByte buf
    → size ≤ 8 * length buf
    → i < size
    → (next : List ℕ) × (set_bit_string_bit size buf i value ≡ ok next)
      × (length next ≡ length buf)
      × (get_bit_string_bit size next j
          ≡ (if j == i then ok value else get_bit_string_bit size buf j))
get-set_bit_string_bit size buf i j value bytes fits h =
    let (next, e, whole, long, back) = set_step size buf i value bytes fits h in
    (next, e, long, back j)
