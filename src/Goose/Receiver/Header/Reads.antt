-- ===== src/Goose/Receiver/Header/Reads.antt =====
-- The cases of the `switch` of parseGoosePayload of goose/goose_receiver.cc on the fields as the
-- publisher of goose/goose_publisher.cc writes them.
use grid_goose_sv.Prelude.{
  ℕ, zero, suc, ◌+◌, ◌^◌, ◌<◌, ◌≡◌, refl, ap, List, [], ◌∷◌, length, ◌==◌, not, Bool, true, false,
  Option, none, some, Outcome, ok, failed, fault, stuck, ◌>>=◌, if◌then◌else◌,
}
use grid_goose_sv.Ber.Encoder.Integers.{uint32_octets}
use grid_goose_sv.Ber.Decoder.{decode_boolean, decode_uint32}
use grid_goose_sv.Ber.Decoder.Integers.{decode_uint32-octets}
use grid_goose_sv.Ber.Decoder.RoundTrip.{Holds, Holds-read}
use grid_goose_sv.Ber.Decoder.Fields.{Field, field_octets, contents_at, behind, field_contents}
use grid_goose_sv.Goose.Subscriber.{GooseSubscriber}
use grid_goose_sv.Goose.Receiver.{
  Payload, fields, returned, parse_field, update_at, update_matching, copy_name, match_subscriber,
}
use grid_goose_sv.Goose.Receiver.Header.{read_fields, match_subscriber-held, copy_name-held}

abbrev octet_of : Bool → ℕ
octet_of b = if b then 1 else 0

pub update_at_ext :
    (subscribers : List GooseSubscriber) (i : ℕ) (f g : GooseSubscriber → Outcome GooseSubscriber)
    → ((s : GooseSubscriber) → f s ≡ g s)
    → update_at subscribers i f ≡ update_at subscribers i g
unfolding update_at
update_at_ext [] i f g h = refl
update_at_ext (s ∷ subscribers) zero f g h = rw (h s)
update_at_ext (s ∷ subscribers) (suc i) f g h = rw (update_at_ext subscribers i f g h)

regroup :
    {A B C D : Type 0} (m : Outcome A) (f : A → B) (g : B → C) (k : C → Outcome D)
    → (((m >>= λ a. ok (f a)) >>= λ b. ok (g b)) >>= k) ≡ (m >>= λ a. k (g (f a)))
regroup (ok a) f g k = refl
regroup failed f g k = refl
regroup fault f g k = refl
regroup stuck f g k = refl

module _ (buffer : List ℕ) (fs : List Field) (buf_pos : ℕ) (p : Payload) where
  -- A number is stored in the field that `store` gives.
  pub number-read :
      (tag v : ℕ) (put : ℕ → Payload)
      → Holds buffer buf_pos (field_octets ((tag, uint32_octets v) ∷ fs))
      → v < 2 ^ 32
      → ((pos n : ℕ)
          → parse_field tag buffer pos n p
            ≡ (decode_uint32 buffer n pos >>= λ w. ok (fields (put w))))
      → read_fields buffer buf_pos ((tag, uint32_octets v) ∷ fs) p
        ≡ read_fields buffer (behind buf_pos (length (uint32_octets v))) fs (put v)
  unfolding field_octets read_fields
  number-read tag v put h small e = rw (
    e (contents_at buf_pos (length (uint32_octets v))) (length (uint32_octets v)),
    decode_uint32-octets buffer (contents_at buf_pos (length (uint32_octets v))) v
        (field_contents buffer (tag, uint32_octets v) fs buf_pos h) small,
  )

  pub flag-read :
      (tag : ℕ) (b : Bool) (put : Bool → Payload)
      → Holds buffer buf_pos (field_octets ((tag, octet_of b ∷ []) ∷ fs))
      → ((pos n : ℕ)
          → parse_field tag buffer pos n p
            ≡ (decode_boolean buffer pos >>= λ c. ok (fields (put c))))
      → read_fields buffer buf_pos ((tag, octet_of b ∷ []) ∷ fs) p
        ≡ read_fields buffer (behind buf_pos 1) fs (put b)
  unfolding field_octets read_fields decode_boolean
  flag-read tag b put h e =
      rw
        (
          e (contents_at buf_pos 1) 1,
          Holds-read buffer (contents_at buf_pos 1) (octet_of b) []
              (field_contents buffer (tag, octet_of b ∷ []) fs buf_pos h),
        )
        (by_value b)
    where
      by_value :
          (c : Bool)
          → read_fields buffer (contents_at buf_pos 1 + 1) fs (put (not (octet_of c == 0)))
            ≡ read_fields buffer (behind buf_pos 1) fs (put c)
      by_value true = refl
      by_value false = refl

  pub time-read :
      (xs : List ℕ)
      → read_fields buffer buf_pos ((0x84, xs) ∷ fs) p
        ≡ read_fields buffer
            (behind buf_pos (length xs))
            fs
            (record p { timestamp_buf_pos = some (contents_at buf_pos (length xs)) })
  unfolding read_fields parse_field
  time-read xs = refl

  -- The first field: no subscriber ends the reading, one that matches is kept.
  pub reference-read :
      (xs : List ℕ)
      → Holds buffer buf_pos (field_octets ((0x80, xs) ∷ fs))
      → p.matching ≡ none
      → read_fields buffer buf_pos ((0x80, xs) ∷ fs) p ≡ (
          match_subscriber p.subscribers xs 0 (length xs) >>= λ r. elim r.1 [
            | none ↦ ok (returned r.0)
            | some i ↦
                read_fields buffer
                  (behind buf_pos (length xs))
                  fs
                  (record p { subscribers = r.0; matching = some i })
          ])
  unfolding read_fields parse_field
  reference-read xs h m =
      rw
        (match_subscriber-held p.subscribers buffer (contents_at buf_pos (length xs)) xs
          (field_contents buffer (0x80, xs) fs buf_pos h))
        (by_result (match_subscriber p.subscribers xs 0 (length xs)))
    where
      by_result :
          (o : Outcome (List GooseSubscriber × Option ℕ))
          → ((o >>= λ r.
                elim (elim r.1 as (λ _. Option ℕ) [ none ↦ p.matching | some i ↦ some i ]) [
                  | none ↦ ok (returned r.0)
                  | some i ↦ ok (fields (record p { subscribers = r.0; matching = some i }))
                ])
              >>= λ q. elim q [
                | fields p' ↦ read_fields buffer (behind buf_pos (length xs)) fs p'
                | returned subscribers ↦ ok (returned subscribers)
              ])
            ≡ (o >>= λ r. elim r.1 [
              | none ↦ ok (returned r.0)
              | some i ↦
                  read_fields buffer
                    (behind buf_pos (length xs))
                    fs
                    (record p { subscribers = r.0; matching = some i })
            ])
      by_result (ok (subscribers, none)) = rw m refl
      by_result (ok (subscribers, some i)) = refl
      by_result failed = refl
      by_result fault = refl
      by_result stuck = refl

  -- A name is copied into the subscriber that matches.
  pub name-read :
      (tag i : ℕ) (xs : List ℕ) (get : GooseSubscriber → List ℕ)
      (put : GooseSubscriber → List ℕ → GooseSubscriber)
      → Holds buffer buf_pos (field_octets ((tag, xs) ∷ fs))
      → p.matching ≡ some i
      → ((pos n : ℕ)
          → parse_field tag buffer pos n p ≡ (
              update_matching p (λ s. copy_name (get s) buffer pos n >>= λ name. ok (put s name))
              >>= λ q. ok (fields q)))
      → read_fields buffer buf_pos ((tag, xs) ∷ fs) p ≡ (
          update_at p.subscribers i
            (λ s. copy_name (get s) xs 0 (length xs) >>= λ name. ok (put s name))
          >>= λ subscribers.
              read_fields buffer
                (behind buf_pos (length xs))
                fs
                (record p { subscribers = subscribers }))
  unfolding field_octets read_fields update_matching
  name-read tag i xs get put h m e =
      rw
        (
          e (contents_at buf_pos (length xs)) (length xs),
          m,
          update_at_ext p.subscribers i
              (λ s.
                copy_name (get s) buffer (contents_at buf_pos (length xs)) (length xs) >>= λ name.
                ok (put s name))
              (λ s. copy_name (get s) xs 0 (length xs) >>= λ name. ok (put s name))
              (λ s.
                ap (λ o. o >>= λ name. ok (put s name))
                  (copy_name-held (get s) buffer (contents_at buf_pos (length xs)) xs
                    (field_contents buffer (tag, xs) fs buf_pos h))),
        )
        (regroup (update_at p.subscribers i _) _ _ _)

-- What the `switch` does at the tags of the PDU.
module _ (buffer : List ℕ) (p : Payload) where
  pub field_81 :
      (pos n : ℕ)
      → parse_field 0x81 buffer pos n p
        ≡ (decode_uint32 buffer n pos >>= λ v. ok (fields (record p { time_allowed_to_live = v })))
  unfolding parse_field
  field_81 pos n = refl

  pub field_82 :
      (pos n : ℕ)
      → parse_field 0x82 buffer pos n p ≡ (
          update_matching p
            (λ s. copy_name s.dat_set buffer pos n >>= λ name. ok (record s { dat_set = name }))
          >>= λ q. ok (fields q))
  unfolding parse_field
  field_82 pos n = refl

  pub field_83 :
      (pos n : ℕ)
      → parse_field 0x83 buffer pos n p ≡ (
          update_matching p
            (λ s. copy_name s.go_id buffer pos n >>= λ name. ok (record s { go_id = name }))
          >>= λ q. ok (fields q))
  unfolding parse_field
  field_83 pos n = refl

  pub field_85 :
      (pos n : ℕ)
      → parse_field 0x85 buffer pos n p
        ≡ (decode_uint32 buffer n pos >>= λ v. ok (fields (record p { st_num = v })))
  unfolding parse_field
  field_85 pos n = refl

  pub field_86 :
      (pos n : ℕ)
      → parse_field 0x86 buffer pos n p
        ≡ (decode_uint32 buffer n pos >>= λ v. ok (fields (record p { sq_num = v })))
  unfolding parse_field
  field_86 pos n = refl

  pub field_87 :
      (pos n : ℕ)
      → parse_field 0x87 buffer pos n p
        ≡ (decode_boolean buffer pos >>= λ b. ok (fields (record p { simulation = b })))
  unfolding parse_field
  field_87 pos n = refl

  pub field_88 :
      (pos n : ℕ)
      → parse_field 0x88 buffer pos n p
        ≡ (decode_uint32 buffer n pos >>= λ v. ok (fields (record p { conf_rev = v })))
  unfolding parse_field
  field_88 pos n = refl

  pub field_89 :
      (pos n : ℕ)
      → parse_field 0x89 buffer pos n p
        ≡ (decode_boolean buffer pos >>= λ b. ok (fields (record p { nds_com = b })))
  unfolding parse_field
  field_89 pos n = refl

  pub field_8a :
      (pos n : ℕ)
      → parse_field 0x8a buffer pos n p ≡ (
          decode_uint32 buffer n pos >>= λ v.
          ok (fields (record p { number_of_dat_set_entries = v })))
  unfolding parse_field
  field_8a pos n = refl
