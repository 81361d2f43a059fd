-- ===== src/Sv/RoundTrip.antt =====
-- The values that sampled_values/sv_publisher.cc stores in a buffer, read by the getters of
-- sampled_values/sv_subscriber.cc.
pub mod Places
pub mod PublishedFields
pub mod Asdu
pub mod Pattern
use grid_goose_sv.Prelude.{
  ℕ, zero, suc, ◌+◌, ◌*◌, ◌-◌, ◌/◌, ◌%◌, ◌^◌, ◌≤◌, ◌<◌, ◌≡◌, refl, ap, ◌∙◌, sym, arith, List, [],
  ◌∷◌, ◌++◌, length, drop, take, reverse, Option, none, some, Outcome, ok, ◌>>=◌,
}
use grid_goose_sv.Memory.{Cursor, put_all, splice, Writes, drop-take-append, read}
use grid_goose_sv.Ber.Encoder.{copy_bytes}
use grid_goose_sv.Ber.Decoder.{read_bytes}
use grid_goose_sv.Ber.Decoder.RoundTrip.{Holds, Holds-tail, Holds-read}
use grid_goose_sv.Ber.Decoder.Fields.{read_bytes-held}
use grid_goose_sv.Ber.Encoder.Floats.{length-reverse}
use grid_goose_sv.Memory.{Writes-then}
use mathlib.Core.List.{reverse-reverse}
use grid_goose_sv.Sv.Publisher.{SvAsdu}
use grid_goose_sv.Sv.Publisher.Layout.{uint32_fixed_octets, encode_uint32-Writes}
use grid_goose_sv.Sv.Publisher.Values.{
  set_int32, set_int64, set_float, set_float64, set_timestamp, set_quality, set_reversed,
  encode_int64_fixed_size, write_at,
}
use grid_goose_sv.Sv.Publisher.Stores.{write_at-splice, set_reversed-splice, copy_whole}
use grid_goose_sv.Sv.Subscriber.{SubscriberAsdu}
use grid_goose_sv.Sv.Subscriber.Getters.{
  big_endian, read_number, read_reversed, get_int32, get_int64, get_float32, get_float64,
  get_sample_timestamp, get_quality,
}

-- A value that is stored is the one that is read.
abbrev pub IsReadBack : {A : Type 0} → Outcome (List ℕ) → (List ℕ → Outcome A) → A → Type 0
IsReadBack stored get v = (next : List ℕ) × (stored ≡ ok next) × (get next ≡ ok v)

splice-Holds :
    (buffer : List ℕ) (i : ℕ) (bs : List ℕ) → i ≤ length buffer → Holds (splice buffer i bs) i bs
splice-Holds buffer i bs h = (drop (i + length bs) buffer, drop-take-append buffer _ i h)

number_back :
    (s : SubscriberAsdu) (p index : ℕ) (bs buffer : List ℕ)
    → s.data_buffer ≡ some p
    → Holds buffer (p + index) bs
    → read_number (length bs) s.data_buffer index buffer ≡ ok (big_endian 0 bs)
unfolding read_number
number_back s p index bs buffer e h = rw (e, read_bytes-held buffer (p + index) bs h)

int64-Writes :
    (v : ℕ)
    → Writes
        (encode_int64_fixed_size v)
        (uint32_fixed_octets (v / 2 ^ 32) ++ uint32_fixed_octets (v % 2 ^ 32))
unfolding encode_int64_fixed_size
int64-Writes v =
    Writes-then _ _ _ _ (encode_uint32-Writes (v / 2 ^ 32)) (encode_uint32-Writes (v % 2 ^ 32))

value_of_32 : (v : ℕ) → v < 2 ^ 32 → big_endian 0 (uint32_fixed_octets v) ≡ v
unfolding big_endian
value_of_32 v h = omega arith

value_of_64 :
    (v : ℕ)
    → v < 2 ^ 64
    → big_endian 0 (uint32_fixed_octets (v / 2 ^ 32) ++ uint32_fixed_octets (v % 2 ^ 32)) ≡ v
unfolding big_endian
value_of_64 v h = omega arith

-- What a splice stores, read by a getter that takes the octets as they stand.
spliced :
    {A : Type 0} (stored : Outcome (List ℕ)) (get : List ℕ → Outcome A) (v : A) (buffer : List ℕ)
    (i : ℕ) (bs : List ℕ)
    → stored ≡ ok (splice buffer i bs)
    → i ≤ length buffer
    → ((b : List ℕ) → Holds b i bs → get b ≡ ok v)
    → IsReadBack stored get v
spliced stored get v buffer i bs e h k = (splice buffer i bs, e, k _ (splice-Holds buffer i bs h))

abbrev int64_octets : ℕ → List ℕ
int64_octets v = uint32_fixed_octets (v / 2 ^ 32) ++ uint32_fixed_octets (v % 2 ^ 32)

reversed_back :
    (a : SvAsdu) (s : SubscriberAsdu) (p index : ℕ) (f buffer : List ℕ) (size : ℕ)
    → length f ≡ size
    → a.data_buffer ≡ some p
    → s.data_buffer ≡ some p
    → p + index + size ≤ length buffer
    → IsReadBack (set_reversed size a index f buffer) (read_reversed size s.data_buffer index) f
unfolding read_reversed
reversed_back a s p index f buffer size e ha hs room =
    let long : length (reverse f) ≡ size = omega (arith, length-reverse f) in
    spliced _ _ f buffer (p + index) (reverse f)
      (rw e at (set_reversed-splice a index p f buffer ha (omega arith))) (omega arith)
      (λ b h.
        rw (hs, rw long at (read_bytes-held b (p + index) (reverse f) h))
          (ap ok (reverse-reverse f)))

quality_back :
    (b : List ℕ) (i q : ℕ)
    → Holds b i (0 ∷ 0 ∷ q / 0x100 ∷ q % 0x100 ∷ [])
    → (read b (i + 3) >>= λ b3. read b (i + 2) >>= λ b2. ok (b3 + b2 * 0x100)) ≡ ok q
quality_back b i q h =
    let high : List ℕ = q / 0x100 ∷ q % 0x100 ∷ [] in
    let h1 = Holds-tail b i 0 (0 ∷ high) h in
    let h2 = Holds-tail b (i + 1) 0 high h1 in
    let h3 = Holds-tail b (i + 1 + 1) (q / 0x100) (q % 0x100 ∷ []) h2 in
    let e2 : i + 1 + 1 ≡ i + 2 = omega arith in
    let e3 : i + 1 + 1 + 1 ≡ i + 3 = omega arith in
    let third : read b (i + 3) ≡ ok (q % 0x100) =
      rw (← e3) (Holds-read b (i + 1 + 1 + 1) (q % 0x100) [] h3) in
    let second : read b (i + 2) ≡ ok (q / 0x100) =
      rw (← e2) (Holds-read b (i + 1 + 1) (q / 0x100) (q % 0x100 ∷ []) h2) in
    rw (third, second) (ap ok (omega arith))

-- With the pointers to the samples of publisher and subscriber at the same octet, and room for eight
-- octets at the index, a signed or unsigned integer of 32 or 64 bits, a floating-point number of 4
-- or 8 octets, a time stamp and a quality are each read back as they were stored.
pub get-set_samples :
    (a : SvAsdu) (s : SubscriberAsdu) (p index v w q : ℕ) (f g t buffer : List ℕ)
    → a.data_buffer ≡ some p
    → s.data_buffer ≡ some p
    → p + index + 8 ≤ length buffer
    → v < 2 ^ 32
    → w < 2 ^ 64
    → q < 2 ^ 16
    → length f ≡ 4
    → length g ≡ 8
    → length t ≡ 8
    → IsReadBack (set_int32 a index v buffer) (get_int32 s index) v
      × IsReadBack (set_int64 a index w buffer) (get_int64 s index) w
      × IsReadBack (set_float a index f buffer) (get_float32 s index) f
      × IsReadBack (set_float64 a index g buffer) (get_float64 s index) g
      × IsReadBack (set_timestamp a index t buffer) (get_sample_timestamp s index) t
      × IsReadBack (set_quality a index q buffer) (get_quality s index) q
unfolding set_int32 set_int64 set_float set_float64 set_timestamp set_quality get_int32 get_int64
    get_float32 get_float64 get_sample_timestamp get_quality
get-set_samples a s p index v w q f g t buffer ha hs room hv hw hq hf hg ht =
    let inside : p + index ≤ length buffer = omega arith in
    (
      spliced _ _ v buffer (p + index) (uint32_fixed_octets v)
          (rw ha (
            write_at-splice _ (uint32_fixed_octets v) buffer (p + index) (encode_uint32-Writes v)
              (omega arith)))
          inside
          (λ b h. number_back s p index (uint32_fixed_octets v) b hs h ∙ ap ok (value_of_32 v hv)),
      spliced _ _ w buffer (p + index) (int64_octets w)
          (rw ha
            (write_at-splice _ (int64_octets w) buffer (p + index) (int64-Writes w) (omega arith)))
          inside (λ b h. number_back s p index (int64_octets w) b hs h ∙ ap ok (value_of_64 w hw)),
      reversed_back a s p index f buffer 4 hf ha hs (omega arith),
      reversed_back a s p index g buffer 8 hg ha hs (omega arith),
      spliced _ _ t buffer (p + index) t
          (rw ha (write_at-splice _ t buffer (p + index) (copy_whole 8 t (sym ht)) (omega arith)))
          inside (λ b h. rw hs (rw ht at (read_bytes-held b (p + index) t h))),
      spliced _ _ q buffer (p + index) (0 ∷ 0 ∷ q / 0x100 ∷ q % 0x100 ∷ [])
          (rw ha (
            write_at-splice _ (0 ∷ 0 ∷ q / 0x100 ∷ q % 0x100 ∷ []) buffer (p + index) (λ c. refl)
              (omega arith)))
          inside (λ b h. rw hs (quality_back b (p + index) q h)),
    )
