-- ===== src/Sv/Publisher/Setup.antt =====
-- `SVPublisher_setupComplete` of sampled_values/sv_publisher.cc and the pattern of the APDU.
use grid_goose_sv.Prelude.{
  ℕ, ◌+◌, ◌≡◌, ◌≢◌, refl, sym, ap, ◌∙◌, arith, List, [], ◌∷◌, ◌++◌, length, Bool, true, false,
  if◌then◌else◌, Option, none, some, Outcome, ok, ◌>>=◌, >>=_assoc, >>=_ext, length-append,
  length-replicate, All,
}
use grid_goose_sv.Memory.{
  Cursor, Writes, draw, Draws, solid, length-solid, draw-append, Writes→Draws, draw-moves,
}
use grid_goose_sv.Ber.Length.{encode_tl, length_octets, determine_length_size, length-length_octets}
use grid_goose_sv.Ber.Encoder.{encode_uint32_with_tl}
use grid_goose_sv.Ber.Encoder.Integers.{
  uint32_octets, uint32_determine_encoded_size_lem, encode_uint32_with_tl-Writes,
}
use grid_goose_sv.Ber.Encoder.Strings.{tlv, encode_tl-Writes, length-tlv}
use grid_goose_sv.Sv.Publisher.{
  SvAsdu, SvPublisher, datset_size, get_encoded_size, total_asdu_length, encode_asdus, finish_setup,
  setup_complete,
}
use grid_goose_sv.Sv.Publisher.Layout.{
  header, datset_pattern, refr_tm_pattern, optional_pattern, asdu_fields, placed,
  encode_to_buffer-draw,
}

abbrev chars : Option (List ℕ) → List ℕ
chars none = []
chars (some s) = s

-- No text, no samples and no ASDU is of length 65535.
pub record IsEncodable (a : SvAsdu) : Type 0 where
  pub id : length a.sv_id ≢ 65535
  pub set : length (chars a.datset) ≢ 65535
  pub samples : a.data_size ≢ 65535
  pub total : get_encoded_size a ≢ 65535

pub length-header : (tag n : ℕ) → n ≢ 65535 → length (header tag n) ≡ 1 + determine_length_size n
length-header tag n h = omega (arith, length-solid (length_octets n), length-length_octets n h)

datset-length :
    (s : Option (List ℕ)) → length (chars s) ≢ 65535 → length (datset_pattern s) ≡ datset_size s
datset-length none h = refl
datset-length (some s) h =
    omega (arith, length-solid (length_octets (length s) ++ s), length-tlv 0x81 s h)

refr_tm-length : (b : Bool) → length (refr_tm_pattern b) ≡ (if b then 10 else 0)
unfolding length_octets
refr_tm-length true = refl
refr_tm-length false = refl

optional-length : (b : Bool) (tag v : ℕ) → length (optional_pattern b tag v) ≡ (if b then 4 else 0)
unfolding length_octets
optional-length true tag v = refl
optional-length false tag v = refl

-- The computed size of an ASDU is the number of octets of its fields.
pub length-asdu_fields : (a : SvAsdu) → IsEncodable a → length (asdu_fields a) ≡ get_encoded_size a
unfolding asdu_fields get_encoded_size length_octets
length-asdu_fields a h = simp length-append (
    omega (
      arith,
      length-solid (tlv 0x80 a.sv_id),
      length-tlv 0x80 a.sv_id h.id,
      datset-length a.datset h.set,
      refr_tm-length a.has_refr_tm,
      optional-length a.has_smp_rate 0x86 a.smp_rate,
      optional-length a.has_smp_mod 0x88 a.smp_mod,
      length-header 0x87 a.data_size h.samples,
      length-replicate {A = Option ℕ} a.data_size none,
    ))

unfoldable pub asdu_pattern : SvAsdu → List (Option ℕ)
asdu_pattern a = header 0x30 (length (asdu_fields a)) ++ asdu_fields a

unfoldable pub asdus_pattern : List SvAsdu → List (Option ℕ)
asdus_pattern [] = []
asdus_pattern (a ∷ asdus) = asdu_pattern a ++ asdus_pattern asdus

-- The ASDUs with their pointers, where they are encoded one after the other from `n` on.
unfoldable pub placed_all : List SvAsdu → ℕ → List SvAsdu
placed_all [] n = []
placed_all (a ∷ asdus) n = placed a n ∷ placed_all asdus (n + length (asdu_pattern a))

total_asdu_length-pattern :
    (asdus : List SvAsdu)
    → All IsEncodable asdus
    → total_asdu_length asdus ≡ length (asdus_pattern asdus)
unfolding total_asdu_length asdus_pattern asdu_pattern
total_asdu_length-pattern [] h = refl
total_asdu_length-pattern (a ∷ asdus) (h, hs) = rw (length-asdu_fields a h) (
    omega (
      arith,
      total_asdu_length-pattern asdus hs,
      length-append (header 0x30 (get_encoded_size a) ++ asdu_fields a) (asdus_pattern asdus),
      length-append (header 0x30 (get_encoded_size a)) (asdu_fields a),
      length-header 0x30 (get_encoded_size a) h.total,
      length-asdu_fields a h,
    ))

encode_asdus-draw :
    (asdus : List SvAsdu) (c : Cursor)
    → All IsEncodable asdus
    → encode_asdus asdus c ≡ (draw (asdus_pattern asdus) c >>= λ d. ok (placed_all asdus c.pos, d))
unfolding encode_asdus asdus_pattern placed_all draw asdu_pattern
encode_asdus-draw [] c h = refl
encode_asdus-draw (a ∷ asdus) c (h, hs) =
    let first = header 0x30 (get_encoded_size a) ++ asdu_fields a in
    let later : ℕ → Cursor → Outcome (List SvAsdu × Cursor) =
      λ n d. draw (asdus_pattern asdus) d >>= λ e. ok (placed a c.pos ∷ placed_all asdus n, e) in
    rw (encode_to_buffer-draw a c, length-asdu_fields a h)
      (>>=_assoc (draw first c) _ _
        ∙ >>=_ext (draw first c) _ (λ d. later d.pos d)
            (λ d. rw (encode_asdus-draw asdus d hs) (>>=_assoc (draw (asdus_pattern asdus) d) _ _))
        ∙ draw-moves first c later
        ∙ sym (>>=_assoc (draw first c) (draw (asdus_pattern asdus)) _)
        ∙ rw (draw-append first (asdus_pattern asdus) c))

abbrev number_of_asdus : List SvAsdu → List (Option ℕ)
number_of_asdus asdus =
    let octets = uint32_octets (length asdus) in solid (0x80 ∷ length octets ∷ octets)

-- What stands before the ASDUs: the tag of the APDU, their number, and the tag of the sequence.
unfoldable pub apdu_head : List SvAsdu → List (Option ℕ)
apdu_head asdus =
    let sequence = header 0xa2 (length (asdus_pattern asdus)) in
    header 0x60 (length (number_of_asdus asdus ++ (sequence ++ asdus_pattern asdus)))
    ++ (number_of_asdus asdus ++ sequence)

unfoldable pub sv_apdu : List SvAsdu → List (Option ℕ)
sv_apdu asdus = apdu_head asdus ++ asdus_pattern asdus

Draws-then :
    (v w : Cursor → Outcome Cursor) (p q : List (Option ℕ))
    → Draws v p
    → Draws w q
    → Draws (λ c. v c >>= w) (p ++ q)
Draws-then v w p q hv hw c = rw (hv c, draw-append p q c) (>>=_ext (draw p c) w (draw q) hw)

-- Three encoders and what follows them.
regroup :
    {X : Type 0} (v w x : Cursor → Outcome Cursor) (k : Cursor → Outcome X) (c : Cursor)
    → (v c >>= λ c1. w c1 >>= λ c2. x c2 >>= k) ≡ ((v c >>= λ c1. w c1 >>= x) >>= k)
regroup v w x k c =
    sym (>>=_assoc (v c) (λ c1. w c1 >>= x) k ∙ >>=_ext (v c) _ _ (λ c1. >>=_assoc (w c1) x k))

solid-Draws : (w : Cursor → Outcome Cursor) (bs : List ℕ) → Writes w bs → Draws w (solid bs)
solid-Draws w bs h = Writes→Draws w bs h

inner_size :
    (asdus : List SvAsdu)
    → length (asdus_pattern asdus) ≢ 65535
    → let total = length (asdus_pattern asdus) in
      2 + length (uint32_octets (length asdus)) + (1 + determine_length_size total + total)
      ≡ length (number_of_asdus asdus ++ (header 0xa2 total ++ asdus_pattern asdus))
inner_size asdus h = simp length-append (
    omega (
      arith,
      length-solid (uint32_octets (length asdus)),
      length-header 0xa2 (length (asdus_pattern asdus)) h,
    ))

-- The rest of `setup_complete` behind the head of the APDU.
encode_rest :
    (self : SvPublisher) (p : List (Option ℕ)) (c : Cursor)
    → All IsEncodable self.asdu_list
    → (draw p c >>= λ c3. encode_asdus self.asdu_list c3 >>= finish_setup self) ≡ (
        draw (p ++ asdus_pattern self.asdu_list) c >>= λ d.
        finish_setup self (placed_all self.asdu_list (c.pos + length p), d))
encode_rest self p c h =
    let later : ℕ → Cursor → Outcome SvPublisher = λ n d.
      draw (asdus_pattern self.asdu_list) d >>= λ e.
      finish_setup self (placed_all self.asdu_list n, e) in
    >>=_ext (draw p c) _ (λ d. later d.pos d)
      (λ d.
        rw (encode_asdus-draw self.asdu_list d h)
          (>>=_assoc (draw (asdus_pattern self.asdu_list) d) _ (finish_setup self)))
    ∙ draw-moves p c later
    ∙ sym (>>=_assoc (draw p c) (draw (asdus_pattern self.asdu_list)) _)
    ∙ rw (draw-append p (asdus_pattern self.asdu_list) c)

-- With ASDUs that `IsEncodable` allows and a total that is not 65535, the function draws exactly the
-- APDU from the start of the payload on, each length field being the length of the octets that it
-- announces, leaves the octets of samples and times as they are, sets the pointers of every ASDU to
-- its own fields in the buffer, and fills in the length of the frame.
pub setup_complete-apdu :
    (self : SvPublisher)
    → All IsEncodable self.asdu_list
    → length (asdus_pattern self.asdu_list) ≢ 65535
    → setup_complete self ≡ (
        draw (sv_apdu self.asdu_list) (record { buffer = self.buffer; pos = self.payload_start })
        >>= λ c.
            finish_setup self (
              placed_all self.asdu_list (self.payload_start + length (apdu_head self.asdu_list)),
              c,
            ))
unfolding setup_complete sv_apdu apdu_head
setup_complete-apdu self h k =
    let asdus = self.asdu_list in
    let total = length (asdus_pattern asdus) in
    let start : Cursor = record { buffer = self.buffer; pos = self.payload_start } in
    rw
      (
        uint32_determine_encoded_size_lem (length asdus),
        total_asdu_length-pattern asdus h,
        inner_size asdus k,
      )
      (regroup (encode_tl 0x60 _) (encode_uint32_with_tl 0x80 (length asdus)) (encode_tl 0xa2 total)
          (λ c3. encode_asdus asdus c3 >>= finish_setup self) start
        ∙ ap (λ m. m >>= λ c3. encode_asdus asdus c3 >>= finish_setup self)
            (Draws-then _ _ _ _ (solid-Draws _ _ (encode_tl-Writes 0x60 _))
              (Draws-then _ _ _ _
                (solid-Draws _ _ (encode_uint32_with_tl-Writes 0x80 (length asdus)))
                (solid-Draws _ _ (encode_tl-Writes 0xa2 total)))
              start)
        ∙ encode_rest self _ start h)
