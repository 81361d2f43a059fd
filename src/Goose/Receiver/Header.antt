-- ===== src/Goose/Receiver/Header.antt =====
-- The loop of parseGoosePayload of goose/goose_receiver.cc on a PDU that is a sequence of fields.
pub mod Reads
use grid_goose_sv.Prelude.{
  ℕ, zero, suc, ◌+◌, ◌*◌, ◌-◌, ◌^◌, ◌≤◌, ◌<◌, ◌≡◌, refl, ap, ◌∙◌, sym, arith, List, [], ◌∷◌, ◌++◌,
  length, drop, ltb, leb, ◌==◌, Bool, true, false, Option, none, some, Outcome, ok, ◌>>=◌, >>=_ext,
  All, length-append, drop-drop, drop-append, drop-suc, append_assoc, lt→ltb, if◌then◌else◌,
}
use grid_goose_sv.Memory.{read}
use grid_goose_sv.Ber.Length.{length_octets}
use grid_goose_sv.Ber.Primitive.{memcpy, memcmp_equal}
use grid_goose_sv.Ber.Encoder.Strings.{tlv}
use grid_goose_sv.Ber.Decoder.{decode_length}
use grid_goose_sv.Ber.Decoder.RoundTrip.{Holds, Holds-tail, Holds-read, decode_length-octets}
use grid_goose_sv.Ber.Decoder.Fields.{
  Field, field_octets, contents_at, behind, Holds-first, drop_contents, drop_field, IsShort,
  field_read, field_contents, next_field, last_contents, read_bytes-held, All-IsShort,
}
use grid_goose_sv.Goose.Subscriber.{GooseSubscriber}
use grid_goose_sv.Goose.Receiver.{
  Payload, FieldResult, fields, returned, parse_field, parse_fields, copy_name, match_subscriber,
}
use native.Mathlib.Numerals.{add-one}

-- The fields, taken one after the other.
unfoldable pub read_fields : List ℕ → ℕ → List Field → Payload → Outcome FieldResult
read_fields buffer buf_pos [] p = ok (fields p)
read_fields buffer buf_pos (f ∷ fs) p =
    parse_field f.0 buffer (contents_at buf_pos (length f.1)) (length f.1) p >>= λ q. elim q [
      | fields p' ↦ read_fields buffer (behind buf_pos (length f.1)) fs p'
      | returned subscribers ↦ ok (returned subscribers)
    ]

continue_ext :
    (k k' : Payload → Outcome FieldResult)
    → ((p : Payload) → k p ≡ k' p)
    → (q : FieldResult)
    → (elim q as (λ _. Outcome FieldResult) [
      | fields p ↦ k p
      | returned subscribers ↦ ok (returned subscribers)
    ])
      ≡ (elim q as (λ _. Outcome FieldResult) [
        | fields p ↦ k' p
        | returned subscribers ↦ ok (returned subscribers)
      ])
continue_ext k k' h (fields p) = h p
continue_ext k k' h (returned subscribers) = refl

-- On a sequence of fields that ends where the PDU ends, the loop takes the fields one after the other,
-- with fuel for one round more than there are fields.
pub parse_fields-read_fields :
    (fs : List Field) (fuel : ℕ) (buffer : List ℕ) (buf_pos goose_end : ℕ) (p : Payload)
    → Holds buffer buf_pos (field_octets fs)
    → buf_pos + length (field_octets fs) ≡ goose_end
    → All IsShort fs
    → length fs < fuel
    → parse_fields fuel buffer buf_pos goose_end goose_end p ≡ read_fields buffer buf_pos fs p
unfolding parse_fields read_fields
parse_fields-read_fields fs zero buffer buf_pos goose_end p h e short hf = absurd (omega arith)
parse_fields-read_fields [] (suc fuel) buffer buf_pos goose_end p h e short hf =
    unfold field_octets in ground arith
parse_fields-read_fields (f ∷ fs) (suc fuel) buffer buf_pos goose_end p h e short hf =
    let n = length f.1 in
    let (before, tag, size, after) =
      field_read buffer f fs buf_pos goose_end h short.0 (omega arith) in
    rw (before, tag, size)
      (>>=_ext (parse_field f.0 buffer (contents_at buf_pos n) n p) _ _ (
        continue_ext _ _ λ p'.
          parse_fields-read_fields fs fuel buffer (behind buf_pos n) goose_end p'
            (h.0, next_field buffer h.0 f fs buf_pos h.1) (omega arith) short.1 (omega arith)))

-- A copy and a comparison of octets that an array holds.
memcpy-append :
    (to xs rest : List ℕ) → memcpy to (xs ++ rest) (length xs) ≡ memcpy to xs (length xs)
unfolding memcpy
memcpy-append to [] rest = refl
memcpy-append [] (x ∷ xs) rest = refl
memcpy-append (t ∷ to) (x ∷ xs) rest = rw (memcpy-append to xs rest)

memcmp_equal-append :
    (a xs rest : List ℕ) → memcmp_equal a (xs ++ rest) (length xs) ≡ memcmp_equal a xs (length xs)
unfolding memcmp_equal
memcmp_equal-append a [] rest = refl
memcmp_equal-append [] (x ∷ xs) rest = refl
memcmp_equal-append (y ∷ a) (x ∷ xs) rest = rw (memcmp_equal-append a xs rest)

pub copy_name-held :
    (name buffer : List ℕ) (buf_pos : ℕ) (xs : List ℕ)
    → Holds buffer buf_pos xs
    → copy_name name buffer buf_pos (length xs) ≡ copy_name name xs 0 (length xs)
unfolding copy_name
copy_name-held name buffer buf_pos xs h = rw (h.1, memcpy-append name xs h.0)

pub match_subscriber-held :
    (subscribers : List GooseSubscriber) (buffer : List ℕ) (buf_pos : ℕ) (xs : List ℕ)
    → Holds buffer buf_pos xs
    → match_subscriber subscribers buffer buf_pos (length xs)
      ≡ match_subscriber subscribers xs 0 (length xs)
unfolding match_subscriber
match_subscriber-held [] buffer buf_pos xs h = refl
match_subscriber-held (s ∷ subscribers) buffer buf_pos xs h = rw (
  copy_name-held s.go_cb_ref buffer buf_pos xs h,
  match_subscriber-held subscribers buffer buf_pos xs h,
  h.1,
  memcmp_equal-append s.go_cb_ref xs h.0,
)
