-- ===== src/Sv/Application/Start/Places.antt =====
-- model/sv-publisher-app.cc: the sizes of its ASDUs and where their pointers lead once they are
-- encoded.
use grid_goose_sv.Prelude.{
  refl, ℕ, zero, suc, ◌+◌, ◌*◌, ◌≤◌, ◌<◌, ◌≡◌, ap, arith, List, ◌∷◌, ◌++◌, length, drop,
  length-append, length-drop, replicate, All, Option, none,
}
use grid_goose_sv.Memory.{solid, length-solid}
use grid_goose_sv.Ber.Length.{determine_length_size, length_octets}
use grid_goose_sv.Ber.Bytes.{le_bytes}
use grid_goose_sv.Ber.Bytes.Compress.{length-trim}
use grid_goose_sv.Ber.Encoder.Integers.{uint32_octets}
use grid_goose_sv.Sv.Publisher.{SvAsdu, get_encoded_size}
use grid_goose_sv.Sv.Publisher.Layout.{header, asdu_fields, placed, uint16_octets}
use grid_goose_sv.Sv.Publisher.Setup.{
  IsEncodable, length-asdu_fields, asdu_pattern, asdus_pattern, placed_all, apdu_head,
}
use grid_goose_sv.Sv.Publisher.Pointers.{placed-PointsTo}
use grid_goose_sv.Sv.Application.Fill.{IsFillable, AllFillable, AllCounted, none_left, and_one}
use grid_goose_sv.Sv.Application.Start.Slots.{slot_layout, asdu_of, asdus_of}

-- The size of an ASDU with a short identifier.
encoded_size_bound : (id : List ℕ) → length id ≤ 64 → get_encoded_size (asdu_of id) ≤ 130
unfolding get_encoded_size determine_length_size
encoded_size_bound id h = ground arith

asdu_of-IsEncodable : (id : List ℕ) → length id ≤ 64 → IsEncodable (asdu_of id)
asdu_of-IsEncodable id h = record {
  id = omega arith;
  set = omega arith;
  samples = omega arith;
  total = omega (arith, encoded_size_bound id h);
}

header_bound : (tag n : ℕ) → length (header tag n) ≤ 5
unfolding length_octets
header_bound tag n = ground arith

asdu_pattern_bound : (id : List ℕ) → length id ≤ 64 → length (asdu_pattern (asdu_of id)) ≤ 135
unfolding asdu_pattern
asdu_pattern_bound id h =
    let a = asdu_of id in
    omega (
      arith,
      length-append (header 0x30 (length (asdu_fields a))) (asdu_fields a),
      header_bound 0x30 (length (asdu_fields a)),
      length-asdu_fields a (asdu_of-IsEncodable id h),
      encoded_size_bound id h,
    )

pub asdus_pattern_bound :
    (left j : ℕ) (ids : ℕ → List ℕ)
    → ((i : ℕ) → length (ids i) ≤ 64)
    → length (asdus_pattern (asdus_of left j ids)) ≤ left * 135
unfolding asdus_pattern
asdus_pattern_bound zero j ids h = omega arith
asdus_pattern_bound (suc left) j ids h = omega (
  arith,
  length-append (asdu_pattern (asdu_of (ids j))) (asdus_pattern (asdus_of left (suc j) ids)),
  asdu_pattern_bound (ids j) (h j),
  asdus_pattern_bound left (suc j) ids h,
)

pub asdus_of-IsEncodable :
    (left j : ℕ) (ids : ℕ → List ℕ)
    → ((i : ℕ) → length (ids i) ≤ 64)
    → All IsEncodable (asdus_of left j ids)
asdus_of-IsEncodable zero j ids h = tt
asdus_of-IsEncodable (suc left) j ids h =
    (asdu_of-IsEncodable (ids j) (h j), asdus_of-IsEncodable left (suc j) ids h)

number_bound : (v : ℕ) → length (uint32_octets v) ≤ 5
unfolding uint32_octets le_bytes
number_bound v = omega (arith, length-trim 0 _)

pub apdu_head_bound : (asdus : List SvAsdu) → length (apdu_head asdus) ≤ 17
unfolding apdu_head
apdu_head_bound asdus =
    let octets = uint32_octets (length asdus) in
    let number = solid (0x80 ∷ length octets ∷ octets) in
    let sequence = header 0xa2 (length (asdus_pattern asdus)) in
    let outer = header 0x60 (length (number ++ (sequence ++ asdus_pattern asdus))) in
    omega (
      arith,
      length-append outer (number ++ sequence),
      length-append number sequence,
      header_bound 0x60 (length (number ++ (sequence ++ asdus_pattern asdus))),
      header_bound 0xa2 (length (asdus_pattern asdus)),
      length-solid octets,
      number_bound (length asdus),
    )

-- A field that stands at `p` ends inside the list.
field_inside :
    (xs field rest : List (Option ℕ)) (p : ℕ)
    → drop p xs ≡ field ++ rest
    → 0 < length field
    → p + length field ≤ length xs
field_inside xs field rest p e some_octets =
    omega (arith, length-drop p xs, length-append field rest, ap length e)

placed-IsFillable :
    (n end : ℕ) (id : List ℕ)
    → length id ≤ 64
    → n + length (asdu_pattern (asdu_of id)) ≤ end
    → IsFillable end slot_layout (placed (asdu_of id) n)
unfolding placed
placed-IsFillable n end id h fits =
    let a = asdu_of id in
    let (count, synch, sample) = placed-PointsTo a (asdu_of-IsEncodable id h) n in
    let (counter, rest, counter_at, counter_drop) = count in
    let (samples, rest', samples_at, samples_drop) = sample in
    let counter_in =
      field_inside (asdu_pattern a) (solid (uint16_octets a.smp_cnt)) rest counter counter_drop
        (omega arith) in
    let samples_in =
      field_inside (asdu_pattern a) (replicate 40 none) rest' samples samples_drop (omega arith) in
    record {
      samples = n + samples;
      counter = n + counter;
      samples_at = samples_at;
      counter_at = counter_at;
      limit = refl;
      counter_fits = omega arith;
      values_fit = (
        omega arith,
        (
          omega arith,
          (
            omega arith,
            (omega arith, (omega arith, (omega arith, (omega arith, (omega arith, tt))))),
          ),
        ),
      );
      time_fits = omega arith;
    }

pub placed_all-AllFillable :
    (left j n end : ℕ) (ids : ℕ → List ℕ)
    → ((i : ℕ) → length (ids i) ≤ 64)
    → n + length (asdus_pattern (asdus_of left j ids)) ≤ end
    → AllFillable end (replicate left slot_layout) (placed_all (asdus_of left j ids) n)
unfolding placed_all asdus_pattern
placed_all-AllFillable zero j n end ids h fits = none_left
placed_all-AllFillable (suc left) j n end ids h fits =
    let one = asdu_pattern (asdu_of (ids j)) in
    let rest = asdus_pattern (asdus_of left (suc j) ids) in
    let both = length-append one rest in
    and_one (placed-IsFillable n end (ids j) (h j) (omega (arith, both)))
      (placed_all-AllFillable left (suc j) (n + length one) end ids h (omega (arith, both)))

-- Nothing has been counted before the first sample.
pub placed_all-AllCounted :
    (left j n : ℕ) (ids : ℕ → List ℕ) → AllCounted 0 0 (placed_all (asdus_of left j ids) n)
unfolding placed_all placed
placed_all-AllCounted zero j n ids = tt
placed_all-AllCounted (suc left) j n ids =
    (refl, placed_all-AllCounted left (suc j) (n + length (asdu_pattern (asdu_of (ids j)))) ids)
