-- ===== src/Goose/RoundTrip/Fields.antt =====
-- The fields of the PDU of goose/goose_publisher.cc, read by goose/goose_receiver.cc.
use grid_goose_sv.Prelude.{
  ℕ, ◌^◌, ◌≤◌, ◌<◌, ◌≡◌, refl, ap, ◌∙◌, arith, List, [], ◌∷◌, ◌++◌, length, drop, take, Bool,
  Option, some, Outcome, ok, ◌>>=◌, >>=_ext, length-take, append-nil, if◌then◌else◌,
}
use grid_goose_sv.Ber.Length.{length_octets}
use grid_goose_sv.Ber.Encoder.Integers.{uint32_octets, length-uint32_octets}
use grid_goose_sv.Ber.Encoder.Strings.{tlv, characters}
use grid_goose_sv.Ber.Decoder.RoundTrip.{Holds}
use grid_goose_sv.Mms.Value.{MmsValue}
use grid_goose_sv.Goose.Publisher.{GoosePublisher, u32, go_id_or_cb_ref}
use grid_goose_sv.Goose.Publisher.Payload.{goose_pdu, pdu_fields, number, flag, data_set_octets}
use grid_goose_sv.Ber.Decoder.Fields.{
  Field, field_octets, contents_at, behind, field_contents, next_field, last_contents,
}
use grid_goose_sv.Goose.Subscriber.{GooseSubscriber}
use grid_goose_sv.Goose.Receiver.{Payload, fields, copy_name, update_at, parse_field}
use grid_goose_sv.Goose.Receiver.Header.{read_fields}
use grid_goose_sv.Goose.Receiver.Header.Reads.{
  number-read, flag-read, name-read, time-read, field_81, field_82, field_83, field_85, field_86,
  field_87, field_88, field_89, field_8a,
}

-- The fields of the PDU.
abbrev pub number_of_entries : List (Option MmsValue) → ℕ
number_of_entries data_set = u32 (length data_set)

unfoldable pub tail_fields : GoosePublisher → List (Option MmsValue) → List Field
tail_fields self data_set =
    (0x85, uint32_octets self.st_num)
    ∷ (0x86, uint32_octets self.sq_num)
    ∷ (0x87, (if self.simulation then 1 else 0) ∷ [])
    ∷ (0x88, uint32_octets self.conf_rev)
    ∷ (0x89, (if self.needs_commission then 1 else 0) ∷ [])
    ∷ (0x8a, uint32_octets (number_of_entries data_set))
    ∷ (0xab, data_set_octets data_set)
    ∷ []

unfoldable pub named_fields : GoosePublisher → List (Option MmsValue) → List Field
named_fields self data_set =
    (0x81, uint32_octets self.time_allowed_to_live)
    ∷ (0x82, characters self.data_set_ref)
    ∷ (0x83, characters (go_id_or_cb_ref self))
    ∷ (0x84, take 8 self.timestamp)
    ∷ tail_fields self data_set

-- What the fields must satisfy to be read: words of 32 bits, a time of eight octets, and lengths of at
-- most three octets.
pub record IsReceivable (self : GoosePublisher) (data_set : List (Option MmsValue)) : Type 0 where
  pub time_allowed_to_live : self.time_allowed_to_live < 2 ^ 32
  pub st_num : self.st_num < 2 ^ 32
  pub sq_num : self.sq_num < 2 ^ 32
  pub conf_rev : self.conf_rev < 2 ^ 32
  pub time : 8 ≤ length self.timestamp
  pub total : length (goose_pdu self data_set) < 2 ^ 24

short_length : (n : ℕ) → n < 128 → length_octets n ≡ n ∷ []
unfolding length_octets
short_length n h = ground arith

number-tlv : (tag v : ℕ) → tlv tag (uint32_octets v) ≡ number tag v
number-tlv tag v =
    rw (short_length (length (uint32_octets v)) (omega (arith, length-uint32_octets v)))

flag-tlv : (tag : ℕ) (b : Bool) → tlv tag ((if b then 1 else 0) ∷ []) ≡ flag tag b
flag-tlv tag b = unfold length_octets in refl

time-tlv : (t : List ℕ) → 8 ≤ length t → tlv 0x84 (take 8 t) ≡ 0x84 ∷ (length_octets 8 ++ take 8 t)
time-tlv t h =
    let long : length (take 8 t) ≡ 8 = omega (arith, length-take 8 t) in
    ap (λ n. 0x84 ∷ (length_octets n ++ take 8 t)) long

in_front :
    (f : Field) (fs : List Field) {xs ys : List ℕ}
    → tlv f.0 f.1 ≡ xs
    → field_octets fs ≡ ys
    → field_octets (f ∷ fs) ≡ xs ++ ys
unfolding field_octets
in_front f fs {xs} {ys} e e' = ap (λ t. t ++ field_octets fs) e ∙ ap (λ t. xs ++ t) e'

last_field : (f : Field) → field_octets (f ∷ []) ≡ tlv f.0 f.1
unfolding field_octets
last_field f = append-nil (tlv f.0 f.1)

pub field_octets-pdu_fields :
    (self : GoosePublisher) (data_set : List (Option MmsValue))
    → 8 ≤ length self.timestamp
    → field_octets ((0x80, characters self.go_cb_ref) ∷ named_fields self data_set)
      ≡ pdu_fields self data_set
unfolding named_fields tail_fields pdu_fields
field_octets-pdu_fields self data_set h = in_front _ _ refl (
    in_front _ _ (number-tlv 0x81 self.time_allowed_to_live) (
      in_front _ _ refl (
        in_front _ _ refl (
          in_front _ _ (time-tlv self.timestamp h) (
            in_front _ _ (number-tlv 0x85 self.st_num) (
              in_front _ _ (number-tlv 0x86 self.sq_num) (
                in_front _ _ (flag-tlv 0x87 self.simulation) (
                  in_front _ _ (number-tlv 0x88 self.conf_rev) (
                    in_front _ _ (flag-tlv 0x89 self.needs_commission) (
                      in_front _ _ (number-tlv 0x8a (number_of_entries data_set))
                        (last_field (0xab, data_set_octets data_set))))))))))))

-- The locals after the fields behind the time stamp.
abbrev pub after_tail : GoosePublisher → List (Option MmsValue) → ℕ → Payload → Payload
after_tail self data_set d p = record p {
  st_num = self.st_num;
  sq_num = self.sq_num;
  simulation = self.simulation;
  conf_rev = self.conf_rev;
  nds_com = self.needs_commission;
  number_of_dat_set_entries = number_of_entries data_set;
  data_set_buffer_pos = some d;
  data_set_buffer_length = length (data_set_octets data_set);
}

read_tail :
    (self : GoosePublisher) (data_set : List (Option MmsValue)) (buffer rest : List ℕ) (buf_pos : ℕ)
    → IsReceivable self data_set
    → drop buf_pos buffer ≡ field_octets (tail_fields self data_set) ++ rest
    → (d : ℕ) × (drop d buffer ≡ data_set_octets data_set ++ rest)
      × ((p : Payload)
          → read_fields buffer buf_pos (tail_fields self data_set) p
            ≡ ok (fields (after_tail self data_set d p)))
unfolding tail_fields
read_tail self data_set buffer rest p0 r h0 =
    let st = uint32_octets self.st_num in
    let sq = uint32_octets self.sq_num in
    let rev = uint32_octets self.conf_rev in
    let count = uint32_octets (number_of_entries data_set) in
    let p1 = behind p0 (length st) in
    let h1 = next_field buffer rest (0x85, st) _ p0 h0 in
    let p2 = behind p1 (length sq) in
    let h2 = next_field buffer rest (0x86, sq) _ p1 h1 in
    let p3 = behind p2 1 in
    let h3 = next_field buffer rest (0x87, (if self.simulation then 1 else 0) ∷ []) _ p2 h2 in
    let p4 = behind p3 (length rev) in
    let h4 = next_field buffer rest (0x88, rev) _ p3 h3 in
    let p5 = behind p4 1 in
    let h5 = next_field buffer rest (0x89, (if self.needs_commission then 1 else 0) ∷ []) _ p4 h4 in
    let p6 = behind p5 (length count) in
    let h6 = next_field buffer rest (0x8a, count) _ p5 h5 in
    (
      contents_at p6 (length (data_set_octets data_set)),
      last_contents buffer rest (0xab, data_set_octets data_set) p6 h6,
      λ p.
          number-read buffer _ p0 p 0x85 self.st_num _ (rest, h0) r.st_num (field_85 buffer _)
          ∙ number-read buffer _ p1 _ 0x86 self.sq_num _ (rest, h1) r.sq_num (field_86 buffer _)
          ∙ flag-read buffer _ p2 _ 0x87 self.simulation _ (rest, h2) (field_87 buffer _)
          ∙ number-read buffer _ p3 _ 0x88 self.conf_rev _ (rest, h3) r.conf_rev (field_88 buffer _)
          ∙ flag-read buffer _ p4 _ 0x89 self.needs_commission _ (rest, h4) (field_89 buffer _)
          ∙ number-read buffer _ p5 _ 0x8a (number_of_entries data_set) _ (rest, h5) (omega arith)
              (field_8a buffer _)
          ∙ (unfold read_fields parse_field in refl),
    )

-- The names of the message in the subscriber.
abbrev pub named_data_set : List ℕ → GooseSubscriber → Outcome GooseSubscriber
named_data_set xs s =
    copy_name s.dat_set xs 0 (length xs) >>= λ name. ok (record s { dat_set = name })

abbrev pub named_go_id : List ℕ → GooseSubscriber → Outcome GooseSubscriber
named_go_id xs s = copy_name s.go_id xs 0 (length xs) >>= λ name. ok (record s { go_id = name })

-- Both names are copied, and the rest is read into the locals.
pub read_named :
    (self : GoosePublisher) (data_set : List (Option MmsValue)) (buffer rest : List ℕ)
    (buf_pos i : ℕ) (p : Payload)
    → IsReceivable self data_set
    → p.matching ≡ some i
    → drop buf_pos buffer ≡ field_octets (named_fields self data_set) ++ rest
    → (t d : ℕ) × (drop d buffer ≡ data_set_octets data_set ++ rest)
      × Holds buffer t (take 8 self.timestamp)
      × (read_fields buffer buf_pos (named_fields self data_set) p ≡ (
          update_at p.subscribers i (named_data_set (characters self.data_set_ref)) >>= λ named.
          update_at named i (named_go_id (characters (go_id_or_cb_ref self))) >>= λ both. ok (
            fields (
              after_tail self data_set d (record p {
                subscribers = both;
                time_allowed_to_live = self.time_allowed_to_live;
                timestamp_buf_pos = some t;
              })))))
unfolding named_fields
read_named self data_set buffer rest p0 i p r m h0 =
    let ttl = uint32_octets self.time_allowed_to_live in
    let set_ref = characters self.data_set_ref in
    let id = characters (go_id_or_cb_ref self) in
    let time = take 8 self.timestamp in
    let p1 = behind p0 (length ttl) in
    let h1 = next_field buffer rest (0x81, ttl) _ p0 h0 in
    let p2 = behind p1 (length set_ref) in
    let h2 = next_field buffer rest (0x82, set_ref) _ p1 h1 in
    let p3 = behind p2 (length id) in
    let h3 = next_field buffer rest (0x83, id) _ p2 h2 in
    let p4 = behind p3 (length time) in
    let h4 = next_field buffer rest (0x84, time) _ p3 h3 in
    let t = contents_at p3 (length time) in
    let (d, held, tail) = read_tail self data_set buffer rest p4 r h4 in
    (
      t,
      d,
      held,
      field_contents buffer (0x84, time) _ p3 (rest, h3),
      number-read buffer _ p0 p 0x81 self.time_allowed_to_live _ (rest, h0) r.time_allowed_to_live
            (field_81 buffer _)
          ∙ name-read buffer _ p1 _ 0x82 i set_ref (λ s. s.dat_set)
              (λ s name. record s { dat_set = name }) (rest, h1) m (field_82 buffer _)
          ∙ >>=_ext (update_at p.subscribers i (named_data_set set_ref)) _ _ (λ named.
            name-read buffer _ p2 _ 0x83 i id (λ s. s.go_id) (λ s name. record s { go_id = name })
              (rest, h2) m (field_83 buffer _)
            ∙ >>=_ext (update_at named i (named_go_id id)) _ _
                (λ both. time-read buffer _ p3 _ time ∙ tail _)),
    )
