-- ===== src/Sv/Application/Fill.antt =====
-- model/sv-publisher-app.cc: the calls that put a measurement into an ASDU stay inside the frame
-- buffer.
use grid_goose_sv.Prelude.{
  ℕ, zero, suc, ◌+◌, ◌%◌, ◌≤◌, ◌<◌, ◌≡◌, refl, ap, ◌∙◌, arith, List, [], ◌∷◌, ◌++◌, length, take,
  drop, reverse, length-append, length-take, length-drop, All, some, ok, get_elem?,
}
use grid_goose_sv.Memory.{splice}
use grid_goose_sv.Iec61850.Timestamp.{Timestamp, val}
use grid_goose_sv.Ber.Encoder.{copy_bytes}
use grid_goose_sv.Ber.Encoder.Floats.{length-reverse}
use grid_goose_sv.Sv.Publisher.{SvAsdu}
use grid_goose_sv.Sv.Publisher.Layout.{uint16_octets}
use grid_goose_sv.Sv.Publisher.Values.{set_float, set_timestamp}
use grid_goose_sv.Sv.Publisher.Stores.{
  write_at-splice, copy_whole, set_reversed-splice, increase_smp_cnt-splice,
}
use grid_goose_sv.Sv.Application.{Slot, at_asdu, set_floats, fill_asdu}

length-splice :
    (xs : List ℕ) (i : ℕ) (bs : List ℕ)
    → i + length bs ≤ length xs
    → length (splice xs i bs) ≡ length xs
length-splice xs i bs fits = omega (
  arith,
  length-append (take i xs) (bs ++ drop (i + length bs) xs),
  length-append bs (drop (i + length bs) xs),
  length-take i xs,
  length-drop (i + length bs) xs,
)

-- The pointers of the ASDU lead to a counter and to samples with the values of the slot, inside a
-- buffer of `n` octets.
pub record IsFillable (n : ℕ) (slot : Slot) (a : SvAsdu) : Type 0 where
  pub samples : ℕ
  pub counter : ℕ
  pub samples_at : a.data_buffer ≡ some samples
  pub counter_at : a.smp_cnt_buf ≡ some counter
  pub limit : a.smp_cnt_limit ≡ 65535
  pub counter_fits : counter + 2 ≤ n
  pub values_fit : All (λ o. samples + o + 4 ≤ n) slot.offsets
  pub time_fits : samples + slot.time + 8 ≤ n

set_floats-returns :
    (n p : ℕ) (a : SvAsdu) (offsets : List ℕ) (values : List (List ℕ)) (buffer : List ℕ)
    → a.data_buffer ≡ some p
    → All (λ o. p + o + 4 ≤ n) offsets
    → All (λ v. length v ≡ 4) values
    → length buffer ≡ n
    → (b : List ℕ) × (set_floats a offsets values buffer ≡ ok b) × (length b ≡ n)
unfolding set_floats set_float
set_floats-returns n p a [] values buffer e fits long h = (buffer, refl, h)
set_floats-returns n p a (o ∷ offsets) [] buffer e fits long h = (buffer, refl, h)
set_floats-returns n p a (o ∷ offsets) (v ∷ values) buffer e (fit, fits) (four, long) h =
    let b = splice buffer (p + o) (reverse v) in
    let stored = rw four at (set_reversed-splice a o p v buffer e (omega arith)) in
    let same : length b ≡ n =
      length-splice buffer (p + o) (reverse v) (omega (arith, length-reverse v)) ∙ h in
    let (c, run, kept) = set_floats-returns n p a offsets values b e fits long same in
    (c, rw stored run, kept)

set_timestamp-returns :
    (n p : ℕ) (a : SvAsdu) (i : ℕ) (ts : Timestamp) (buffer : List ℕ)
    → a.data_buffer ≡ some p
    → p + i + 8 ≤ n
    → length buffer ≡ n
    → (b : List ℕ) × (set_timestamp a i (val ts) buffer ≡ ok b) × (length b ≡ n)
unfolding set_timestamp val
set_timestamp-returns n p a i ts buffer e fits h = (
  splice buffer (p + i) (val ts),
  rw e (
      write_at-splice (copy_bytes 8 0 (val ts)) (val ts) buffer (p + i) (copy_whole 8 (val ts) refl)
        (omega arith)),
  length-splice buffer (p + i) (val ts) (omega arith) ∙ h,
)

-- Filling an ASDU returns, keeps the buffer's length and the ASDU fillable.
fill_asdu-IsFillable :
    (n : ℕ) (slot : Slot) (a : SvAsdu) (values : List (List ℕ)) (ts : Timestamp) (buffer : List ℕ)
    → IsFillable n slot a
    → All (λ v. length v ≡ 4) values
    → length buffer ≡ n
    → (b : SvAsdu) × (c : List ℕ) × (fill_asdu slot values ts buffer a ≡ ok (b, c))
      × (length c ≡ n)
      × IsFillable n slot b
      × (b.smp_cnt ≡ (a.smp_cnt + 1) % 65535)
unfolding fill_asdu
fill_asdu-IsFillable n slot a values ts buffer f long h =
    let (b, floats, hb) =
      set_floats-returns n f.samples a slot.offsets values buffer f.samples_at f.values_fit long
        h in
    let next = (a.smp_cnt + 1) % a.smp_cnt_limit in
    let (counts, below) =
      increase_smp_cnt-splice a f.counter b f.counter_at (omega (arith, f.limit))
        (omega (arith, f.counter_fits)) in
    let counted : SvAsdu = record a { smp_cnt = next } in
    let c = splice b f.counter (uint16_octets next) in
    let hc : length c ≡ n =
      length-splice b f.counter (uint16_octets next) (omega (arith, f.counter_fits)) ∙ hb in
    let (e, stamped, he) =
      set_timestamp-returns n f.samples counted slot.time ts c f.samples_at f.time_fits hc in
    (
      counted,
      e,
      rw (floats, counts, stamped),
      he,
      record {
        samples = f.samples;
        counter = f.counter;
        samples_at = f.samples_at;
        counter_at = f.counter_at;
        limit = f.limit;
        counter_fits = f.counter_fits;
        values_fit = f.values_fit;
        time_fits = f.time_fits;
      },
      ap (λ m. (a.smp_cnt + 1) % m) f.limit,
    )

-- The ASDUs with their slots, one for each.
pub data AllFillable (n : ℕ) : List Slot → List SvAsdu → Type 0 where
  none_left : AllFillable n [] []
  and_one :
      {slot : Slot} {a : SvAsdu} {slots : List Slot} {asdus : List SvAsdu}
      → IsFillable n slot a
      → AllFillable n slots asdus
      → AllFillable n (slot ∷ slots) (a ∷ asdus)

-- The sample counters when `sent` messages have been sent: the first `i` ASDUs have been filled once
-- more than `sent` times, the others `sent` times, and each counts up to 65535, which stands for 0.
abbrev pub AllCounted : ℕ → ℕ → List SvAsdu → Type 0
AllCounted sent i [] = Unit {0}
AllCounted sent zero (a ∷ asdus) = (a.smp_cnt ≡ sent % 65535) × AllCounted sent zero asdus
AllCounted sent (suc i) (a ∷ asdus) = (a.smp_cnt ≡ (sent + 1) % 65535) × AllCounted sent i asdus

-- When all have been filled, there is one more message to count.
pub AllCounted-all :
    (sent i : ℕ) (asdus : List SvAsdu)
    → length asdus ≤ i
    → AllCounted sent i asdus
    → AllCounted (sent + 1) 0 asdus
AllCounted-all sent i [] h c = tt
AllCounted-all sent zero (a ∷ asdus) h c = absurd (omega arith)
AllCounted-all sent (suc i) (a ∷ asdus) h (c, cs) =
    (c, AllCounted-all sent i asdus (omega arith) cs)

pub length-AllFillable :
    {n : ℕ} {slots : List Slot} {asdus : List SvAsdu}
    → AllFillable n slots asdus
    → length asdus ≡ length slots
length-AllFillable none_left = refl
length-AllFillable (and_one f fs) = ap suc (length-AllFillable fs)

-- What the application does with the ASDU and the slot at place `j`.
pub at_asdu-AllFillable :
    (n j : ℕ) (slots : List Slot) (asdus : List SvAsdu) (values : List (List ℕ)) (ts : Timestamp)
    (buffer : List ℕ)
    → AllFillable n slots asdus
    → All (λ v. length v ≡ 4) values
    → length buffer ≡ n
    → j < length slots
    → (slot : Slot) × (filled : List SvAsdu) × (c : List ℕ) × (get_elem? slots j ≡ some slot)
      × (at_asdu j (fill_asdu slot values ts buffer) asdus ≡ ok (filled, c))
      × (length c ≡ n)
      × AllFillable n slots filled
      × ((sent : ℕ) → AllCounted sent j asdus → AllCounted sent (suc j) filled)
unfolding at_asdu
at_asdu-AllFillable n j [] asdus values ts buffer fs long h less = absurd (omega arith)
at_asdu-AllFillable n j (slot ∷ slots) [] values ts buffer fs long h less = elim fs [ ]
at_asdu-AllFillable n zero (slot ∷ slots) (a ∷ asdus) values ts buffer (and_one f fs) long h less =
    let (b, c, run, same, g, one) = fill_asdu-IsFillable n slot a values ts buffer f long h in
    (
      slot,
      b ∷ asdus,
      c,
      refl,
      rw run,
      same,
      and_one g fs,
      λ sent counted. (omega (arith, one, counted.0), counted.1),
    )
at_asdu-AllFillable n (suc j) (first ∷ slots) (a ∷ asdus) values ts buffer (and_one f fs) long h
      less =
    let (slot, filled, c, found, run, same, g, count) =
      at_asdu-AllFillable n j slots asdus values ts buffer fs long h (omega arith) in
    (
      slot,
      a ∷ filled,
      c,
      found,
      rw run,
      same,
      and_one f g,
      λ sent counted. (counted.0, count sent counted.1),
    )
