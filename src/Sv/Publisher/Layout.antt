-- ===== src/Sv/Publisher/Layout.antt =====
-- The APDU of sampled values in sampled_values/sv_publisher.cc as a pattern of octets, with gaps
-- where the samples and the time are put in later, and the steps of `encode_to_buffer`.
use grid_goose_sv.Prelude.{
  ℕ, ◌+◌, ◌/◌, ◌%◌, ◌^◌, ◌≡◌, refl, sym, ◌∙◌, List, [], ◌∷◌, ◌++◌, length, replicate, Bool, true,
  false, Option, none, some, Outcome, ok, ◌>>=◌, >>=_assoc, >>=_ext,
}
use grid_goose_sv.Memory.{
  Cursor, put, put-Writes, Writes, Writes-then, skip, draw, Draws, solid, draw-append, Writes→Draws,
  skip-Draws, draw-moves,
}
use grid_goose_sv.Ber.Length.{length_octets}
use grid_goose_sv.Ber.Encoder.Strings.{tlv, encode_tl-Writes, encode_string_with_tag-Writes}
use grid_goose_sv.Sv.Publisher.{
  SvAsdu, Encoding, move, mark, mark_smp_cnt, mark_refr_tm, mark_smp_synch, mark_data,
  encode_uint16_fixed_size, encode_uint32_fixed_size, get_encoded_size, encode_datset,
  encode_refr_tm, encode_optional_uint16, encode_to_buffer,
}

-- An encoding step draws a pattern, and updates the ASDU by the position where it begins.
abbrev pub Steps : (Encoding → Outcome Encoding) → List (Option ℕ) → (SvAsdu → ℕ → SvAsdu) → Type 0
Steps w p f =
    (e : Encoding)
    → w e ≡ (draw p e.cursor >>= λ c. ok (record { asdu = f e.asdu e.cursor.pos; cursor = c }))

abbrev pub same : SvAsdu → ℕ → SvAsdu
same a n = a

move-Steps : (w : Cursor → Outcome Cursor) (p : List (Option ℕ)) → Draws w p → Steps (move w) p same
move-Steps w p h e = rw (h e.cursor)

mark-Steps : (f : SvAsdu → ℕ → SvAsdu) → Steps (mark f) [] f
unfolding draw
mark-Steps f e = refl

none-Steps : Steps ok [] same
unfolding draw
none-Steps e = refl

Steps-then :
    (v w : Encoding → Outcome Encoding) (p q : List (Option ℕ)) (f g : SvAsdu → ℕ → SvAsdu)
    → Steps v p f
    → Steps w q g
    → Steps (λ e. v e >>= w) (p ++ q) (λ a n. g (f a n) (n + length p))
Steps-then v w p q f g hv hw e =
    let later : ℕ → Cursor → Outcome Encoding =
      λ n c. draw q c >>= λ d. ok (record { asdu = g (f e.asdu e.cursor.pos) n; cursor = d }) in
    rw (hv e) (
      >>=_assoc (draw p e.cursor) _ w
      ∙ >>=_ext (draw p e.cursor) _ (λ c. later c.pos c)
          (λ c. hw (record { asdu = f e.asdu e.cursor.pos; cursor = c }))
      ∙ draw-moves p e.cursor later
      ∙ sym (>>=_assoc (draw p e.cursor) (draw q) _)
      ∙ rw (draw-append p q e.cursor))

mark-then :
    (f : SvAsdu → ℕ → SvAsdu) (w : Encoding → Outcome Encoding) (q : List (Option ℕ))
    (g : SvAsdu → ℕ → SvAsdu)
    → Steps w q g
    → Steps (λ e. mark f e >>= w) q (λ a n. g (f a n) n)
mark-then f w q g h e = h (record { asdu = f e.asdu e.cursor.pos; cursor = e.cursor })

-- A field without gaps.
solid-Steps :
    (w : Cursor → Outcome Cursor) (bs : List ℕ) → Writes w bs → Steps (move w) (solid bs) same
solid-Steps w bs h = move-Steps w (solid bs) (Writes→Draws w bs h)

abbrev pub uint16_octets : ℕ → List ℕ
uint16_octets v = v / 256 % 256 ∷ v % 256 ∷ []

abbrev pub uint32_fixed_octets : ℕ → List ℕ
uint32_fixed_octets v = v / 2 ^ 24 % 256 ∷ v / 2 ^ 16 % 256 ∷ v / 256 % 256 ∷ v % 256 ∷ []

pub encode_uint16-Writes : (v : ℕ) → Writes (encode_uint16_fixed_size v) (uint16_octets v)
unfolding encode_uint16_fixed_size
encode_uint16-Writes v =
    Writes-then (put (v / 256 % 256)) (put (v % 256)) (v / 256 % 256 ∷ []) (v % 256 ∷ [])
      (put-Writes (v / 256 % 256)) (put-Writes (v % 256))

pub encode_uint32-Writes : (v : ℕ) → Writes (encode_uint32_fixed_size v) (uint32_fixed_octets v)
unfolding encode_uint32_fixed_size
encode_uint32-Writes v =
    Writes-then (put (v / 2 ^ 24 % 256)) _ (v / 2 ^ 24 % 256 ∷ []) _ (put-Writes (v / 2 ^ 24 % 256))
      (Writes-then (put (v / 2 ^ 16 % 256)) _ (v / 2 ^ 16 % 256 ∷ []) _
        (put-Writes (v / 2 ^ 16 % 256))
        (Writes-then (put (v / 256 % 256)) (put (v % 256)) (v / 256 % 256 ∷ []) (v % 256 ∷ [])
          (put-Writes (v / 256 % 256)) (put-Writes (v % 256))))

-- A tag with its length octets.
abbrev pub header : ℕ → ℕ → List (Option ℕ)
header tag n = solid (tag ∷ length_octets n)

abbrev pub datset_pattern : Option (List ℕ) → List (Option ℕ)
datset_pattern none = []
datset_pattern (some s) = solid (tlv 0x81 s)

abbrev pub refr_tm_pattern : Bool → List (Option ℕ)
refr_tm_pattern true = header 0x84 8 ++ replicate 8 none
refr_tm_pattern false = []

abbrev pub optional_pattern : Bool → ℕ → ℕ → List (Option ℕ)
optional_pattern true tag v = header tag 2 ++ solid (uint16_octets v)
optional_pattern false tag v = []

abbrev pub place_refr_tm : Bool → SvAsdu → ℕ → SvAsdu
place_refr_tm true a n = mark_refr_tm a (n + length (header 0x84 8))
place_refr_tm false a n = a

datset-Steps : (s : Option (List ℕ)) → Steps (encode_datset s) (datset_pattern s) same
unfolding encode_datset
datset-Steps none = none-Steps
datset-Steps (some s) = solid-Steps _ _ (encode_string_with_tag-Writes 0x81 (some s))

refr_tm-Steps : (b : Bool) → Steps (encode_refr_tm b) (refr_tm_pattern b) (place_refr_tm b)
unfolding encode_refr_tm
refr_tm-Steps true =
    Steps-then _ _ _ _ same _ (solid-Steps _ _ (encode_tl-Writes 0x84 8))
      (mark-then mark_refr_tm _ _ same (move-Steps (skip 8) _ (skip-Draws 8)))
refr_tm-Steps false = none-Steps

optional-Steps :
    (b : Bool) (tag v : ℕ) → Steps (encode_optional_uint16 b tag v) (optional_pattern b tag v) same
unfolding encode_optional_uint16
optional-Steps true tag v =
    Steps-then _ _ _ _ same same (solid-Steps _ _ (encode_tl-Writes tag 2))
      (solid-Steps _ _ (encode_uint16-Writes v))
optional-Steps false tag v = none-Steps

-- The contents of an ASDU, field by field.
unfoldable pub asdu_fields : SvAsdu → List (Option ℕ)
asdu_fields self =
    solid (tlv 0x80 self.sv_id)
    ++ (datset_pattern self.datset
        ++ (header 0x82 2
            ++ (solid (uint16_octets self.smp_cnt)
                ++ (header 0x83 4
                    ++ (solid (uint32_fixed_octets self.conf_rev)
                        ++ (refr_tm_pattern self.has_refr_tm
                            ++ (header 0x85 1
                                ++ (solid (self.smp_synch ∷ [])
                                    ++ (optional_pattern self.has_smp_rate 0x86 self.smp_rate
                                        ++ (header 0x87 self.data_size
                                            ++ (replicate self.data_size none
                                                ++ optional_pattern self.has_smp_mod 0x88
                                                    self.smp_mod)))))))))))

-- The ASDU with its pointers, where it is encoded from position `n` on.
unfoldable pub placed : SvAsdu → ℕ → SvAsdu
placed self n =
    let count =
      n
      + length (header 0x30 (get_encoded_size self))
      + length (solid (tlv 0x80 self.sv_id))
      + length (datset_pattern self.datset)
      + length (header 0x82 2) in
    let time =
      count
      + length (solid (uint16_octets self.smp_cnt))
      + length (header 0x83 4)
      + length (solid (uint32_fixed_octets self.conf_rev)) in
    let synch = time + length (refr_tm_pattern self.has_refr_tm) + length (header 0x85 1) in
    let sample =
      synch
      + length (solid (self.smp_synch ∷ []))
      + length (optional_pattern self.has_smp_rate 0x86 self.smp_rate)
      + length (header 0x87 self.data_size) in
    mark_data (mark_smp_synch (place_refr_tm self.has_refr_tm (mark_smp_cnt self count) time) synch)
      sample

pub encode_to_buffer-draw :
    (self : SvAsdu) (c : Cursor)
    → encode_to_buffer self (record { asdu = self; cursor = c }) ≡ (
        draw (header 0x30 (get_encoded_size self) ++ asdu_fields self) c >>= λ d.
        ok (record { asdu = placed self c.pos; cursor = d }))
unfolding encode_to_buffer asdu_fields placed
encode_to_buffer-draw self c =
    Steps-then _ _ _ _ same _ (solid-Steps _ _ (encode_tl-Writes 0x30 (get_encoded_size self)))
      (Steps-then _ _ _ _ same _
        (solid-Steps _ _ (encode_string_with_tag-Writes 0x80 (some self.sv_id)))
        (Steps-then _ _ _ _ same _ (datset-Steps self.datset) (
          Steps-then _ _ _ _ same _ (solid-Steps _ _ (encode_tl-Writes 0x82 2)) (
            mark-then mark_smp_cnt _ _ _ (
              Steps-then _ _ _ _ same _ (solid-Steps _ _ (encode_uint16-Writes self.smp_cnt)) (
                Steps-then _ _ _ _ same _ (solid-Steps _ _ (encode_tl-Writes 0x83 4)) (
                  Steps-then _ _ _ _ same _ (solid-Steps _ _ (encode_uint32-Writes self.conf_rev)) (
                    Steps-then _ _ _ _ (place_refr_tm self.has_refr_tm) _
                      (refr_tm-Steps self.has_refr_tm)
                      (Steps-then _ _ _ _ same _ (solid-Steps _ _ (encode_tl-Writes 0x85 1)) (
                        mark-then mark_smp_synch _ _ _ (
                          Steps-then _ _ _ _ same _ (solid-Steps _ _ (put-Writes self.smp_synch)) (
                            Steps-then _ _ _ _ same _
                              (optional-Steps self.has_smp_rate 0x86 self.smp_rate)
                              (Steps-then _ _ _ _ same _
                                (solid-Steps _ _ (encode_tl-Writes 0x87 self.data_size))
                                (mark-then mark_data _ _ _ (
                                  Steps-then _ _ _ _ same same
                                    (move-Steps (skip self.data_size) _ (skip-Draws self.data_size))
                                    (optional-Steps self.has_smp_mod 0x88
                                      self.smp_mod))))))))))))))))
      (record { asdu = self; cursor = c })
