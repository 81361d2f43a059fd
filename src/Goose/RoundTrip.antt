-- ===== src/Goose/RoundTrip.antt =====
-- What the receiver of goose/goose_receiver.cc makes of the PDU of the publisher of
-- goose/goose_publisher.cc.
pub mod Fields
pub mod Packet
pub mod Sequence
use grid_goose_sv.Prelude.{
  ℕ, zero, suc, ◌+◌, ◌*◌, ◌-◌, ◌/◌, ◌%◌, ◌^◌, ◌≤◌, ◌<◌, ◌≡◌, refl, ap, ◌∙◌, sym, arith, List, [],
  ◌∷◌, ◌++◌, length, drop, take, ltb, leb, ◌==◌, ◌&&◌, Bool, true, false, Option, none, some,
  Outcome, ok, failed, fault, stuck, ◌>>=◌, >>=_ext, >>=_assoc, All, length-append, length-take,
  append-nil, append_assoc, if◌then◌else◌,
}
use grid_goose_sv.Ber.Length.{length_octets}
use grid_goose_sv.Ber.Encoder.Strings.{tlv, characters}
use grid_goose_sv.Ber.Decoder.{read_bytes, decode_length}
use grid_goose_sv.Ber.Decoder.RoundTrip.{Holds, Holds-tail, Holds-read, decode_length-octets}
use grid_goose_sv.Mms.Value.{MmsValue}
use grid_goose_sv.Mms.UtcTime.{set_utc_time_by_buffer}
use grid_goose_sv.Goose.Publisher.{GoosePublisher, go_id_or_cb_ref}
use grid_goose_sv.Goose.Publisher.Payload.{goose_pdu, pdu_fields, data_set_octets}
use grid_goose_sv.Ber.Decoder.Fields.{
  Field, field_octets, contents_at, behind, Holds-first, drop_contents, drop_field, IsShort,
  field_read, field_contents, next_field, last_contents, read_bytes-held, All-IsShort,
}
use grid_goose_sv.Goose.Subscriber.{GooseSubscriber}
use grid_goose_sv.Goose.Receiver.{
  Payload, new_payload, FieldResult, fields, returned, PayloadResult, match_subscriber, update_at,
  parse_field, parse_fields, take_message, kept_values, parse_data_set, parse_goose_payload,
  finish_payload, parsed_well, stored_error,
}
use grid_goose_sv.Goose.Receiver.DataSet.{FloatConversions}
use grid_goose_sv.Goose.Receiver.Header.{read_fields, parse_fields-read_fields}
use grid_goose_sv.Goose.Receiver.Header.Reads.{reference-read, update_at_ext}
use grid_goose_sv.Goose.RoundTrip.Fields.{
  IsReceivable, named_fields, field_octets-pdu_fields, after_tail, named_data_set, named_go_id,
  read_named,
}

-- The subscriber after a message: the header's fields as they were sent, the data set parsed from
-- the octets that were sent, and what follows from both.
unfoldable pub taken_message :
    FloatConversions
    → GooseSubscriber
    → GoosePublisher
    → List (Option MmsValue)
    → List ℕ
    → ℕ
    → Outcome GooseSubscriber
taken_message fc s sender data_set rest now = do
  d ←
      parse_data_set fc s.data_set_values_self_allocated (kept_values s sender.conf_rev)
        (data_set_octets data_set ++ rest) (length (data_set_octets data_set))
  let repeated = (s.st_num == sender.st_num) && leb sender.sq_num s.sq_num
  ok (record s {
    time_allowed_to_live = sender.time_allowed_to_live;
    nds_com = sender.needs_commission;
    simulation = sender.simulation;
    conf_rev = sender.conf_rev;
    timestamp = take 8 sender.timestamp;
    data_set_values = d.values;
    data_set_values_self_allocated = d.self_allocated;
    parse_error = stored_error d.error s.parse_error;
    state_valid = if repeated then false else parsed_well d.error;
    st_num = sender.st_num;
    sq_num = sender.sq_num;
    invalidity_time = now + sender.time_allowed_to_live;
  })

-- The list of subscribers after a message: the first that matches its reference takes the names, the
-- header and the data set.
unfoldable pub received :
    FloatConversions
    → List GooseSubscriber
    → GoosePublisher
    → List (Option MmsValue)
    → List ℕ
    → ℕ
    → Outcome (List GooseSubscriber × PayloadResult)
received fc subscribers sender data_set rest now = do
  let reference = characters sender.go_cb_ref
  r ← match_subscriber subscribers reference 0 (length reference)
  elim r.1 [
    | none ↦ ok (r.0, PayloadResult.ignored)
    | some i ↦ (do
      named ← update_at r.0 i (named_data_set (characters sender.data_set_ref))
      both ← update_at named i (named_go_id (characters (go_id_or_cb_ref sender)))
      taken ← update_at both i (λ s. taken_message fc s sender data_set rest now)
      ok (taken, PayloadResult.accepted i))
  ]

take_message-taken :
    (fc : FloatConversions) (s : GooseSubscriber) (sender : GoosePublisher)
    (data_set : List (Option MmsValue)) (buffer rest : List ℕ) (t d now : ℕ) (p : Payload)
    → 8 ≤ length sender.timestamp
    → drop d buffer ≡ data_set_octets data_set ++ rest
    → Holds buffer t (take 8 sender.timestamp)
    → take_message fc s
        (after_tail sender data_set d (record p {
          time_allowed_to_live = sender.time_allowed_to_live;
          timestamp_buf_pos = some t;
        }))
        buffer
        now
      ≡ taken_message fc s sender data_set rest now
unfolding take_message taken_message set_utc_time_by_buffer
take_message-taken fc s sender data_set buffer rest t d now p long hd ht =
    let eight : length (take 8 sender.timestamp) ≡ 8 =
      omega (arith, length-take 8 sender.timestamp) in
    rw (rw eight at (read_bytes-held buffer t (take 8 sender.timestamp) ht), hd)

-- The end of the function, on what the fields have left.
take_fields :
    (fc : FloatConversions) (subscribers : List GooseSubscriber) (sender : GoosePublisher)
    (data_set : List (Option MmsValue)) (buffer rest : List ℕ) (t d i now : ℕ) (p : Payload)
    → 8 ≤ length sender.timestamp
    → drop d buffer ≡ data_set_octets data_set ++ rest
    → Holds buffer t (take 8 sender.timestamp)
    → finish_payload fc
        (fields (
          after_tail sender data_set d (record p {
            subscribers = subscribers;
            matching = some i;
            time_allowed_to_live = sender.time_allowed_to_live;
            timestamp_buf_pos = some t;
          })))
        buffer
        now
      ≡ (update_at subscribers i (λ s. taken_message fc s sender data_set rest now) >>= λ taken.
          ok (taken, PayloadResult.accepted i))
unfolding finish_payload
take_fields fc subscribers sender data_set buffer rest t d i now p long hd ht =
    rw
      (update_at_ext subscribers i _ _ (λ s.
        take_message-taken fc s sender data_set buffer rest t d now
          (record p { subscribers = subscribers; matching = some i }) long hd ht))
      refl

after_match :
    (fc : FloatConversions) (subscribers : List GooseSubscriber) (sender : GoosePublisher)
    (data_set : List (Option MmsValue)) (buffer rest : List ℕ) (buf_pos now : ℕ)
    → IsReceivable sender data_set
    → drop buf_pos buffer ≡ field_octets (named_fields sender data_set) ++ rest
    → (o : Outcome (List GooseSubscriber × Option ℕ))
    → ((o >>= λ r. elim r.1 as (λ _. Outcome FieldResult) [
      | none ↦ ok (returned r.0)
      | some i ↦
          read_fields buffer buf_pos
            (named_fields sender data_set)
            (record (new_payload subscribers) { subscribers = r.0; matching = some i })
    ])
        >>= λ q. finish_payload fc q buffer now)
      ≡ (o >>= λ r. elim r.1 [
        | none ↦ ok (r.0, PayloadResult.ignored)
        | some i ↦ (do
          named ← update_at r.0 i (named_data_set (characters sender.data_set_ref))
          both ← update_at named i (named_go_id (characters (go_id_or_cb_ref sender)))
          taken ← update_at both i (λ s. taken_message fc s sender data_set rest now)
          ok (taken, PayloadResult.accepted i))
      ])
after_match fc subscribers sender data_set buffer rest buf_pos now r h failed = refl
after_match fc subscribers sender data_set buffer rest buf_pos now r h fault = refl
after_match fc subscribers sender data_set buffer rest buf_pos now r h stuck = refl
after_match fc subscribers sender data_set buffer rest buf_pos now r h (ok (found, none)) =
    unfold finish_payload in refl
after_match fc subscribers sender data_set buffer rest buf_pos now r h (ok (found, some i)) =
    let p : Payload = record (new_payload subscribers) { subscribers = found; matching = some i } in
    let (t, d, hd, ht, reads) = read_named sender data_set buffer rest buf_pos i p r refl h in
    let finish : FieldResult → Outcome (List GooseSubscriber × PayloadResult) =
      λ q. finish_payload fc q buffer now in
    let first = update_at found i (named_data_set (characters sender.data_set_ref)) in
    ap (λ o. o >>= finish) reads
    ∙ >>=_assoc first _ finish
    ∙ >>=_ext first _ _ (λ named.
      let second = update_at named i (named_go_id (characters (go_id_or_cb_ref sender))) in
      >>=_assoc second _ finish
      ∙ >>=_ext second _ _
          (λ both. take_fields fc both sender data_set buffer rest t d i now p r.time hd ht))

-- A buffer that begins with the PDU of a publisher, whatever stands behind it, is taken for what the
-- publisher's fields say.
held_pdu :
    (fc : FloatConversions) (subscribers : List GooseSubscriber) (sender : GoosePublisher)
    (data_set : List (Option MmsValue)) (buffer rest : List ℕ) (size now : ℕ)
    → IsReceivable sender data_set
    → buffer ≡ goose_pdu sender data_set ++ rest
    → size ≡ length (goose_pdu sender data_set)
    → parse_goose_payload fc subscribers buffer size now
      ≡ received fc subscribers sender data_set rest now
unfolding goose_pdu parse_goose_payload received
held_pdu fc subscribers sender data_set buffer rest size now r hb hs =
    let contents = pdu_fields sender data_set in
    let n = length contents in
    let reference = characters sender.go_cb_ref in
    let fs = (0x80, reference) ∷ named_fields sender data_set in
    let whole : Holds buffer 0 (tlv 0x61 contents) = (rest, hb) in
    let behind_tag = Holds-tail buffer 0 0x61 (length_octets n ++ contents) whole in
    let start = 1 + length (length_octets n) in
    let ends : start + n ≡ size = omega (arith, length-append (length_octets n) contents) in
    let e = field_octets-pdu_fields sender data_set r.time in
    let at_fields : drop start buffer ≡ field_octets fs ++ rest =
      rw e (drop_contents buffer rest 0 0x61 contents hb) in
    let (short, count) = All-IsShort fs (rw e (omega (arith, r.total))) in
    rw
      (
        Holds-read buffer 0 0x61 (length_octets n ++ contents) whole,
        decode_length-octets buffer 1 size n
            (Holds-first buffer 1 (length_octets n) contents behind_tag) (omega (arith, r.total))
            (omega arith),
        ends,
        parse_fields-read_fields fs (n + 1) buffer start size (new_payload subscribers)
            (rest, at_fields) (rw e ends) short (omega (arith, ap length e)),
        reference-read buffer (named_fields sender data_set) start (new_payload subscribers)
            reference (rest, at_fields) refl,
      )
      (after_match fc subscribers sender data_set buffer rest (behind start (length reference)) now
        r (next_field buffer rest (0x80, reference) (named_fields sender data_set) start at_fields)
        (match_subscriber subscribers reference 0 (length reference)))

-- A publisher's PDU, with header fields that fit 32 bits, a time of at least eight octets and a length
-- below 2 ^ 24, at the front of a buffer whatever follows it: the receiver finds the first subscriber
-- that matches the reference, copies the two names into it, gives it the header fields exactly as
-- the publisher has them and parses its data set from the octets that the publisher wrote; without
-- a subscriber that matches the message is ignored.
pub parse_goose_payload-received :
    (fc : FloatConversions) (subscribers : List GooseSubscriber) (sender : GoosePublisher)
    (data_set : List (Option MmsValue)) (rest : List ℕ) (now : ℕ)
    → IsReceivable sender data_set
    → parse_goose_payload fc subscribers
        (goose_pdu sender data_set ++ rest)
        (length (goose_pdu sender data_set))
        now
      ≡ received fc subscribers sender data_set rest now
parse_goose_payload-received fc subscribers sender data_set rest now r =
    held_pdu fc subscribers sender data_set (goose_pdu sender data_set ++ rest) rest
      (length (goose_pdu sender data_set)) now r refl refl
