-- ===== src/Ber/Decoder/Fields.antt =====
-- BER decoding of a sequence of fields, each with a tag, length octets and contents, by the length
-- decoder of mms/asn1/ber_decode.cc.
use grid_goose_sv.Prelude.{
  ℕ, ◌+◌, ◌^◌, ◌≤◌, ◌<◌, ◌≡◌, refl, ap, ◌∙◌, sym, arith, List, [], ◌∷◌, ◌++◌, length, drop, ltb,
  true, ok, All, length-append, drop-drop, drop-append, drop-suc, append_assoc, lt→ltb,
}
use grid_goose_sv.Memory.{read}
use grid_goose_sv.Ber.Length.{length_octets}
use grid_goose_sv.Ber.Encoder.Strings.{tlv}
use grid_goose_sv.Ber.Decoder.{decode_length, read_bytes}
use grid_goose_sv.Ber.Decoder.RoundTrip.{Holds, Holds-tail, Holds-read, decode_length-octets}
use native.Mathlib.Numerals.{add-one}

-- A field is its tag and its contents.
abbrev pub Field : Type 0
Field = ℕ × List ℕ

unfoldable pub field_octets : List Field → List ℕ
field_octets [] = []
field_octets (f ∷ fs) = tlv f.0 f.1 ++ field_octets fs

-- The positions of the contents and of what follows them, for a field of `n` octets.
abbrev pub contents_at : ℕ → ℕ → ℕ
contents_at buf_pos n = buf_pos + 1 + length (length_octets n)

abbrev pub behind : ℕ → ℕ → ℕ
behind buf_pos n = contents_at buf_pos n + n

pub Holds-first :
    (buffer : List ℕ) (buf_pos : ℕ) (xs ys : List ℕ)
    → Holds buffer buf_pos (xs ++ ys)
    → Holds buffer buf_pos xs
Holds-first buffer buf_pos xs ys h = (ys ++ h.0, h.1 ∙ append_assoc xs ys h.0)

-- What stands behind the first of two parts.
drop_behind :
    (buffer rest : List ℕ) (buf_pos : ℕ) (xs ys : List ℕ)
    → drop buf_pos buffer ≡ (xs ++ ys) ++ rest
    → drop (buf_pos + length xs) buffer ≡ ys ++ rest
drop_behind buffer rest buf_pos xs ys h =
    sym (drop-drop (length xs) buf_pos buffer)
    ∙ ap (drop (length xs)) (h ∙ append_assoc xs ys rest)
    ∙ drop-append xs (ys ++ rest)

pub drop_contents :
    (buffer rest : List ℕ) (buf_pos tag : ℕ) (contents : List ℕ)
    → drop buf_pos buffer ≡ tlv tag contents ++ rest
    → drop (contents_at buf_pos (length contents)) buffer ≡ contents ++ rest
drop_contents buffer rest buf_pos tag contents h =
    drop_behind buffer rest (buf_pos + 1) (length_octets (length contents)) contents
      (rw (add-one buf_pos) (drop-suc buffer buf_pos h))

pub drop_field :
    (buffer rest : List ℕ) (buf_pos tag : ℕ) (contents more : List ℕ)
    → drop buf_pos buffer ≡ (tlv tag contents ++ more) ++ rest
    → drop (behind buf_pos (length contents)) buffer ≡ more ++ rest
drop_field buffer rest buf_pos tag contents more h =
    let e : buf_pos + length (tlv tag contents) ≡ behind buf_pos (length contents) =
      omega (arith, length-append (length_octets (length contents)) contents) in
    rw e at (drop_behind buffer rest buf_pos (tlv tag contents) more h)

abbrev pub IsShort : Field → Type 0
IsShort f = length f.1 < 2 ^ 24

-- Tag and length of the first field are read as they stand.
pub field_read :
    (buffer : List ℕ) (f : Field) (fs : List Field) (buf_pos end_pos : ℕ)
    → Holds buffer buf_pos (field_octets (f ∷ fs))
    → length f.1 < 2 ^ 24
    → buf_pos + length (field_octets (f ∷ fs)) ≤ end_pos
    → (ltb buf_pos end_pos ≡ true)
      × (read buffer buf_pos ≡ ok f.0)
      × (decode_length buffer (buf_pos + 1) end_pos
          ≡ ok (contents_at buf_pos (length f.1), length f.1))
      × (behind buf_pos (length f.1) + length (field_octets fs)
          ≡ buf_pos + length (field_octets (f ∷ fs)))
unfolding field_octets
field_read buffer f fs buf_pos end_pos h short fits =
    let n = length f.1 in
    let size = length-append (tlv f.0 f.1) (field_octets fs) in
    let size1 = length-append (length_octets n) f.1 in
    let first = Holds-first buffer buf_pos (tlv f.0 f.1) (field_octets fs) h in
    let tail = Holds-tail buffer buf_pos f.0 _ first in
    (
      lt→ltb buf_pos end_pos (omega arith),
      Holds-read buffer buf_pos f.0 _ first,
      decode_length-octets buffer (buf_pos + 1) end_pos n
          (Holds-first buffer (buf_pos + 1) (length_octets n) f.1 tail) short (omega arith),
      omega arith,
    )

pub field_contents :
    (buffer : List ℕ) (f : Field) (fs : List Field) (buf_pos : ℕ)
    → Holds buffer buf_pos (field_octets (f ∷ fs))
    → Holds buffer (contents_at buf_pos (length f.1)) f.1
unfolding field_octets
field_contents buffer f fs buf_pos h = (
  field_octets fs ++ h.0,
  drop_contents buffer (field_octets fs ++ h.0) buf_pos f.0 f.1
      (h.1 ∙ append_assoc (tlv f.0 f.1) (field_octets fs) h.0),
)

-- What an array holds behind a field, and the contents of the last field.
pub next_field :
    (buffer rest : List ℕ) (f : Field) (fs : List Field) (buf_pos : ℕ)
    → drop buf_pos buffer ≡ field_octets (f ∷ fs) ++ rest
    → drop (behind buf_pos (length f.1)) buffer ≡ field_octets fs ++ rest
unfolding field_octets
next_field buffer rest f fs buf_pos h = drop_field buffer rest buf_pos f.0 f.1 (field_octets fs) h

pub last_contents :
    (buffer rest : List ℕ) (f : Field) (buf_pos : ℕ)
    → drop buf_pos buffer ≡ field_octets (f ∷ []) ++ rest
    → drop (contents_at buf_pos (length f.1)) buffer ≡ f.1 ++ rest
unfolding field_octets
last_contents buffer rest f buf_pos h =
    drop_contents buffer rest buf_pos f.0 f.1 (h ∙ append_assoc (tlv f.0 f.1) [] rest)

pub read_bytes-held :
    (buffer : List ℕ) (buf_pos : ℕ) (xs : List ℕ)
    → Holds buffer buf_pos xs
    → read_bytes (length xs) buffer buf_pos ≡ ok xs
unfolding read_bytes
read_bytes-held buffer buf_pos [] h = refl
read_bytes-held buffer buf_pos (x ∷ xs) h = rw (
  Holds-read buffer buf_pos x xs h,
  read_bytes-held buffer (buf_pos + 1) xs (Holds-tail buffer buf_pos x xs h),
)

pub All-IsShort :
    (fs : List Field)
    → length (field_octets fs) < 2 ^ 24
    → All IsShort fs × (length fs ≤ length (field_octets fs))
unfolding field_octets
All-IsShort [] h = (tt, omega arith)
All-IsShort (f ∷ fs) h =
    let size = length-append (tlv f.0 f.1) (field_octets fs) in
    let size1 = length-append (length_octets (length f.1)) f.1 in
    let (short, count) = All-IsShort fs (omega arith) in ((omega arith, short), omega arith)
