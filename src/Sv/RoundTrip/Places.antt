-- ===== src/Sv/RoundTrip/Places.antt =====
-- The loop of parseASDU of sampled_values/sv_subscriber.cc on a sequence of fields.
use grid_goose_sv.Prelude.{
  ℕ, zero, suc, ◌+◌, ◌<◌, ◌≡◌, refl, ◌∙◌, arith, List, [], ◌∷◌, ◌++◌, length, drop, set, ◌==◌, true,
  false, some, ok, All, if◌then◌else◌,
}
use grid_goose_sv.Memory.{drop-set, read}
use grid_goose_sv.Ber.Decoder.RoundTrip.{Holds}
use grid_goose_sv.Ber.Decoder.Fields.{
  Field, field_octets, contents_at, behind, IsShort, field_read, field_contents, next_field,
}
use grid_goose_sv.Sv.Subscriber.{AsduLocals, note_field, note_fields}

-- The fields, noted one after the other.
unfoldable pub note_all : ℕ → ℕ → List Field → AsduLocals → AsduLocals
note_all start buf_pos [] l = l
note_all start buf_pos (f ∷ fs) l =
    note_all start (behind buf_pos (length f.1)) fs
      (note_field f.0 (start + contents_at buf_pos (length f.1)) (length f.1) l)

-- The loop on a sequence of fields.
pub note_fields-note_all :
    (fs : List Field) (fuel : ℕ) (buffer : List ℕ) (start buf_pos n : ℕ) (l : AsduLocals)
    → Holds (drop start buffer) buf_pos (field_octets fs)
    → buf_pos + length (field_octets fs) ≡ n
    → All IsShort fs
    → length fs < fuel
    → note_fields fuel buffer start buf_pos n l ≡ ok (note_all start buf_pos fs l)
unfolding note_fields note_all
note_fields-note_all fs zero buffer start buf_pos n l h e short hf = absurd (omega arith)
note_fields-note_all [] (suc fuel) buffer start buf_pos n l h e short hf =
    unfold field_octets in ground arith
note_fields-note_all (f ∷ fs) (suc fuel) buffer start buf_pos n l h e short hf =
    let (before, tag, size, after) =
      field_read (drop start buffer) f fs buf_pos n h short.0 (omega arith) in
    rw (before, tag, size)
      (note_fields-note_all fs fuel buffer start (behind buf_pos (length f.1)) n _
        (h.0, next_field (drop start buffer) h.0 f fs buf_pos h.1) (omega arith) short.1
        (omega arith))

-- What the last field with a tag leaves, from its position and its length.
unfoldable pub last_value : {B : Type 0} → ℕ → (ℕ → ℕ → B) → ℕ → ℕ → List Field → B → B
last_value tag value start buf_pos [] old = old
last_value tag value start buf_pos (f ∷ fs) old =
    last_value tag value start (behind buf_pos (length f.1)) fs
      (if f.0 == tag then value (start + contents_at buf_pos (length f.1)) (length f.1) else old)

-- A component that only fields of one tag change.
pub note_all-last_value :
    {B : Type 0} (tag : ℕ) (value : ℕ → ℕ → B) (get : AsduLocals → B)
    → ((t p n : ℕ) (l : AsduLocals)
        → get (note_field t p n l) ≡ (if t == tag then value p n else get l))
    → (fs : List Field) (start buf_pos : ℕ) (l : AsduLocals)
    → get (note_all start buf_pos fs l) ≡ last_value tag value start buf_pos fs (get l)
unfolding note_all last_value
note_all-last_value tag value get by_tag [] start buf_pos l = refl
note_all-last_value tag value get by_tag (f ∷ fs) start buf_pos l =
    note_all-last_value tag value get by_tag fs start (behind buf_pos (length f.1)) _
    ∙ rw (by_tag f.0 (start + contents_at buf_pos (length f.1)) (length f.1) l)

-- A field with the tag stands in the list and is the last one: where it is found.
unfoldable pub Found : ℕ → List ℕ → List Field → Type 1
Found tag c fs =
    (buffer : List ℕ) (buf_pos : ℕ)
    → Holds buffer buf_pos (field_octets fs)
    → (q : ℕ) × (buf_pos < q)
      × Holds buffer q c
      × ((B : Type 0) (value : ℕ → ℕ → B) (start : ℕ) (old : B)
          → last_value tag value start buf_pos fs old ≡ value (start + q) (length c))

abbrev pub HasOther : ℕ → Field → Type 0
HasOther tag f = (f.0 == tag) ≡ false

pub none_later :
    {B : Type 0} (tag : ℕ) (value : ℕ → ℕ → B) (start buf_pos : ℕ) (fs : List Field) (old : B)
    → All (HasOther tag) fs
    → last_value tag value start buf_pos fs old ≡ old
unfolding last_value
none_later tag value start buf_pos [] old h = refl
none_later tag value start buf_pos (f ∷ fs) old h =
    rw h.0 (none_later tag value start (behind buf_pos (length f.1)) fs old h.1)

pub Found-here :
    (tag : ℕ) (c : List ℕ) (fs : List Field)
    → (tag == tag) ≡ true
    → All (HasOther tag) fs
    → Found tag c ((tag, c) ∷ fs)
unfolding Found last_value
Found-here tag c fs same h buffer buf_pos held = (
  contents_at buf_pos (length c),
  omega arith,
  field_contents buffer (tag, c) fs buf_pos held,
  λ B value start old. rw same (none_later tag value start (behind buf_pos (length c)) fs _ h),
)

pub Found-later :
    (tag : ℕ) (c : List ℕ) (f : Field) (fs : List Field) → Found tag c fs → Found tag c (f ∷ fs)
unfolding Found last_value
Found-later tag c f fs h buffer buf_pos held =
    let (q, before, at_q, read) =
      h buffer (behind buf_pos (length f.1))
        (held.0, next_field buffer held.0 f fs buf_pos held.1) in
    (q, omega arith, at_q, λ B value start old. read B value start _)

pub Found-append :
    (tag : ℕ) (c : List ℕ) (fs gs : List Field) → Found tag c gs → Found tag c (fs ++ gs)
Found-append tag c [] gs h = h
Found-append tag c (f ∷ fs) gs h = Found-later tag c f (fs ++ gs) (Found-append tag c fs gs h)

pub at_82 :
    (t p n : ℕ) (l : AsduLocals)
    → (note_field t p n l).asdu.smp_cnt ≡ (if t == 0x82 then some p else l.asdu.smp_cnt)
unfolding note_field
at_82 t p n l = ground arith

pub at_83 :
    (t p n : ℕ) (l : AsduLocals)
    → (note_field t p n l).asdu.conf_rev ≡ (if t == 0x83 then some p else l.asdu.conf_rev)
unfolding note_field
at_83 t p n l = ground arith

pub at_85 :
    (t p n : ℕ) (l : AsduLocals)
    → (note_field t p n l).asdu.smp_synch ≡ (if t == 0x85 then some p else l.asdu.smp_synch)
unfolding note_field
at_85 t p n l = ground arith

pub at_87 :
    (t p n : ℕ) (l : AsduLocals)
    → (note_field t p n l).asdu.data_buffer ≡ (if t == 0x87 then some p else l.asdu.data_buffer)
unfolding note_field
at_87 t p n l = ground arith

-- Octets that stand behind a written position stay.
pub Holds-kept :
    (buffer : List ℕ) (q i : ℕ) (c : List ℕ) → Holds buffer q c → i < q → Holds (set buffer i 0) q c
Holds-kept buffer q i c h before = (h.0, drop-set buffer i q 0 before ∙ h.1)

pub at_80 :
    (t p n : ℕ) (l : AsduLocals)
    → (note_field t p n l).asdu.sv_id ≡ (if t == 0x80 then some p else l.asdu.sv_id)
unfolding note_field
at_80 t p n l = ground arith

pub at_80_length :
    (t p n : ℕ) (l : AsduLocals)
    → (note_field t p n l).sv_id_length ≡ (if t == 0x80 then n else l.sv_id_length)
unfolding note_field
at_80_length t p n l = ground arith

pub at_81 :
    (t p n : ℕ) (l : AsduLocals)
    → (note_field t p n l).asdu.dat_set ≡ (if t == 0x81 then some p else l.asdu.dat_set)
unfolding note_field
at_81 t p n l = ground arith

pub at_81_length :
    (t p n : ℕ) (l : AsduLocals)
    → (note_field t p n l).dat_set_length ≡ (if t == 0x81 then n else l.dat_set_length)
unfolding note_field
at_81_length t p n l = ground arith

pub at_87_length :
    (t p n : ℕ) (l : AsduLocals)
    → (note_field t p n l).asdu.data_buffer_length
      ≡ (if t == 0x87 then n else l.asdu.data_buffer_length)
unfolding note_field
at_87_length t p n l = ground arith
