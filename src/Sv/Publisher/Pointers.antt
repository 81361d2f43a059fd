-- ===== src/Sv/Publisher/Pointers.antt =====
-- The pointers that `SVPublisher_ASDU_encodeToBuffer` of sampled_values/sv_publisher.cc leaves in
-- an ASDU.
use grid_goose_sv.Prelude.{
  ℕ, sym, ◌≤◌, ok, ◌>>=◌, ◌+◌, ◌≡◌, refl, ap, ◌∙◌, arith, List, [], ◌∷◌, ◌++◌, length, drop,
  replicate, drop-drop, drop-append, Option, none, some, Bool, true, false,
}
use grid_goose_sv.Memory.{solid, Cursor, draw, draw-fits}
use grid_goose_sv.Ber.Encoder.Strings.{tlv}
use grid_goose_sv.Sv.Publisher.{SvAsdu, Encoding, encode_to_buffer, get_encoded_size}
use grid_goose_sv.Sv.Publisher.Layout.{
  header, uint16_octets, uint32_fixed_octets, datset_pattern, refr_tm_pattern, optional_pattern,
  place_refr_tm, asdu_fields, placed, encode_to_buffer-draw,
}
use grid_goose_sv.Sv.Publisher.Setup.{IsEncodable, asdu_pattern, length-asdu_fields}

-- In an ASDU that is encoded from position `n` on, the pointer leads to the field.
abbrev pub PointsTo : SvAsdu → ℕ → Option ℕ → List (Option ℕ) → Type 0
PointsTo a n pointer field =
    (p : ℕ) × (rest : List (Option ℕ)) × (pointer ≡ some (n + p))
    × (drop p (asdu_pattern a) ≡ field ++ rest)

record At (xs : List (Option ℕ)) (m : ℕ) (rest : List (Option ℕ)) : Type 0 where
  found : drop m xs ≡ rest

after :
    {xs : List (Option ℕ)} {m : ℕ} (ys : List (Option ℕ)) {zs : List (Option ℕ)}
    → At xs m (ys ++ zs)
    → At xs (m + length ys) zs
after {xs} {m} ys {zs} h = record {
  found = rw (← drop-drop (length ys) m xs, h.found, drop-append ys zs);
}

place_refr_tm-count :
    (b : Bool) (a : SvAsdu) (n : ℕ) → (place_refr_tm b a n).smp_cnt_buf ≡ a.smp_cnt_buf
place_refr_tm-count true a n = refl
place_refr_tm-count false a n = refl

module _ (a : SvAsdu) (h : IsEncodable a) where
  -- The pattern with the size that the code computes.
  start : At (asdu_pattern a) 0 (header 0x30 (get_encoded_size a) ++ asdu_fields a)
  unfolding asdu_pattern
  start = record { found = rw (length-asdu_fields a h) }

  points :
      (field : List (Option ℕ)) (m : ℕ) (rest : List (Option ℕ))
      → At (asdu_pattern a) m (field ++ rest)
      → (n : ℕ) (pointer : Option ℕ) → pointer ≡ some (n + m)
      → PointsTo a n pointer field
  points field m rest f n pointer e = (m, rest, e, f.found)

  pub placed-PointsTo :
      (n : ℕ)
      → PointsTo a n (placed a n).smp_cnt_buf (solid (uint16_octets a.smp_cnt))
        × PointsTo a n (placed a n).smp_synch_buf (solid (a.smp_synch ∷ []))
        × PointsTo a n (placed a n).data_buffer (replicate a.data_size none)
  unfolding asdu_fields placed
  placed-PointsTo n =
      let count = after (header 0x82 2) (
        after (datset_pattern a.datset)
          (after (solid (tlv 0x80 a.sv_id)) (after (header 0x30 (get_encoded_size a)) start))) in
      let synch = after (header 0x85 1) (
        after (refr_tm_pattern a.has_refr_tm) (
          after (solid (uint32_fixed_octets a.conf_rev))
            (after (header 0x83 4) (after (solid (uint16_octets a.smp_cnt)) count)))) in
      let sample = after (header 0x87 a.data_size) (
        after (optional_pattern a.has_smp_rate 0x86 a.smp_rate)
          (after (solid (a.smp_synch ∷ [])) synch)) in
      (
        points (solid (uint16_octets a.smp_cnt)) _ _ count n _
            (place_refr_tm-count a.has_refr_tm _ _ ∙ ap some (omega arith)),
        points (solid (a.smp_synch ∷ [])) _ _ synch n _ (ap some (omega arith)),
        points (replicate a.data_size none) _ _ sample n _ (ap some (omega arith)),
      )

-- With an ASDU that `IsEncodable` allows and that fits the buffer behind the cursor, encoding is
-- defined and moves on by the length of the ASDU, and the pointers to the sample counter, to the
-- synchronisation flag and to the samples lead to the octets of these fields.
pub encode_to_buffer-PointsTo :
    (a : SvAsdu) (c : Cursor)
    → IsEncodable a
    → c.pos + length (asdu_pattern a) ≤ length c.buffer
    → (e : Encoding) × (encode_to_buffer a (record { asdu = a; cursor = c }) ≡ ok e)
      × (e.cursor.pos ≡ c.pos + length (asdu_pattern a))
      × PointsTo a c.pos e.asdu.smp_cnt_buf (solid (uint16_octets a.smp_cnt))
      × PointsTo a c.pos e.asdu.smp_synch_buf (solid (a.smp_synch ∷ []))
      × PointsTo a c.pos e.asdu.data_buffer (replicate a.data_size none)
encode_to_buffer-PointsTo a c h fits =
    let (d, drawn, moved) = draw-fits (asdu_pattern a) c fits in
    let (count, synch, sample) = placed-PointsTo a h c.pos in
    (
      record { asdu = placed a c.pos; cursor = d },
      encode_to_buffer-draw a c
          ∙ ap (λ p. draw p c >>= λ d. ok (record { asdu = placed a c.pos; cursor = d }))
              (sym (start a h).found)
          ∙ rw drawn,
      moved,
      count,
      synch,
      sample,
    )
