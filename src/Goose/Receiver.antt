-- ===== src/Goose/Receiver.antt =====
-- goose/goose_receiver.cc: the receiver's subscribers and the parsers of a GOOSE message. The parsers
-- of the data set stand in the children `DataSet` and `Unknown`.
pub mod DataSet
pub mod Arrays
pub mod Fields
pub mod Header
pub mod Safety
pub mod Validity
pub mod Unknown
use grid_goose_sv.Prelude.{
  ℕ, zero, suc, ◌+◌, ◌-◌, ◌*◌, List, [], ◌∷◌, length, take, drop, set, get_elem?, Bool, true, false,
  not, ltb, leb, ◌==◌, ◌&&◌, ◌||◌, if◌then◌else◌, Option, none, some, Outcome, ok, failed, fault,
  stuck, ◌>>=◌, on_failure,
}
use grid_goose_sv.Memory.{read}
use grid_goose_sv.Ber.Bytes.{store}
use grid_goose_sv.Ber.Primitive.{memcpy, memcmp_equal}
use grid_goose_sv.Ber.Decoder.{decode_length, decode_uint32, decode_boolean, read_bytes}
use grid_goose_sv.Mms.Value.{MmsValue, Components}
use grid_goose_sv.Mms.UtcTime.{set_utc_time, set_utc_time_by_buffer}
use grid_goose_sv.Goose.Subscriber.{GooseSubscriber, GooseParseError}
use grid_goose_sv.Goose.Receiver.DataSet.{FloatConversions, parse_all_data, is_no_error}
use grid_goose_sv.Goose.Receiver.Unknown.{parse_all_data_unknown_value}

-- `memcpy(name, buffer + bufPos, elementLength); name[elementLength] = 0`, where it is not too long.
unfoldable pub copy_name : List ℕ → List ℕ → ℕ → ℕ → Outcome (List ℕ)
copy_name name buffer buf_pos element_length = if ltb 129 element_length then ok name else (do
  copied ← memcpy name (drop buf_pos buffer) element_length
  store copied element_length 0)

-- case 0x80 of parseGoosePayload: the loop over the subscribers, with the index of the one that
-- matches.
unfoldable pub match_subscriber :
    List GooseSubscriber → List ℕ → ℕ → ℕ → Outcome (List GooseSubscriber × Option ℕ)
match_subscriber [] buffer buf_pos element_length = ok ([], none)
match_subscriber (s ∷ subscribers) buffer buf_pos element_length =
    let rest = match_subscriber subscribers buffer buf_pos element_length in
    if s.is_observer
    then (do
      name ← copy_name s.go_cb_ref buffer buf_pos element_length
      ok (record s { go_cb_ref = name } ∷ subscribers, some 0))
    else (do
      same ←
          (if s.go_cb_ref_len == element_length
            then memcmp_equal s.go_cb_ref (drop buf_pos buffer) element_length
            else ok false)
      if same
          then ok (s ∷ subscribers, some 0)
          else (rest >>= λ r. ok (s ∷ r.0, elim r.1 [ none ↦ none | some i ↦ some (suc i) ])))

-- The locals of parseGoosePayload, with the receiver's list.
pub record Payload : Type 0 where
  pub subscribers : List GooseSubscriber
  pub matching : Option ℕ
  pub time_allowed_to_live : ℕ
  pub st_num : ℕ
  pub sq_num : ℕ
  pub conf_rev : ℕ
  pub simulation : Bool
  pub nds_com : Bool
  pub number_of_dat_set_entries : ℕ
  pub timestamp_buf_pos : Option ℕ
  pub data_set_buffer_pos : Option ℕ
  pub data_set_buffer_length : ℕ

abbrev pub new_payload : List GooseSubscriber → Payload
new_payload subscribers = record {
  subscribers = subscribers;
  matching = none;
  time_allowed_to_live = 0;
  st_num = 0;
  sq_num = 0;
  conf_rev = 0;
  simulation = false;
  nds_com = false;
  number_of_dat_set_entries = 0;
  timestamp_buf_pos = none;
  data_set_buffer_pos = none;
  data_set_buffer_length = 0;
}

-- The fields so far, or the list with which the function returned 0.
pub data FieldResult : Type 0 where
  fields : Payload → FieldResult
  returned : List GooseSubscriber → FieldResult

-- A change of the subscriber at an index.
unfoldable pub update_at :
    List GooseSubscriber
    → ℕ
    → (GooseSubscriber → Outcome GooseSubscriber)
    → Outcome (List GooseSubscriber)
update_at [] i f = fault
update_at (s ∷ subscribers) zero f = do s' ← f s; ok (s' ∷ subscribers)
update_at (s ∷ subscribers) (suc i) f = do rest ← update_at subscribers i f; ok (s ∷ rest)

-- `if (matchingSubscriber)` …
unfoldable pub update_matching :
    Payload → (GooseSubscriber → Outcome GooseSubscriber) → Outcome Payload
update_matching p f = elim p.matching [
  | none ↦ ok p
  | some i ↦ (do
    subscribers ← update_at p.subscribers i f
    ok (record p { subscribers = subscribers }))
]

-- The `switch` of parseGoosePayload.
unfoldable pub parse_field : ℕ → List ℕ → ℕ → ℕ → Payload → Outcome FieldResult
parse_field tag buffer buf_pos element_length p =
    if tag == 0x80
    then (do
      r ← match_subscriber p.subscribers buffer buf_pos element_length
      let matching = elim r.1 as (λ _. Option ℕ) [ none ↦ p.matching | some i ↦ some i ]
      elim matching [
        | none ↦ ok (returned r.0)
        | some i ↦ ok (fields (record p { subscribers = r.0; matching = some i }))
      ])
    else if tag == 0x81
    then (do
      v ← decode_uint32 buffer element_length buf_pos
      ok (fields (record p { time_allowed_to_live = v })))
    else if tag == 0x82
    then (do
      q ← update_matching p (λ s. do
        name ← copy_name s.dat_set buffer buf_pos element_length
        ok (record s { dat_set = name }))
      ok (fields q))
    else if tag == 0x83
    then (do
      q ← update_matching p (λ s. do
        name ← copy_name s.go_id buffer buf_pos element_length
        ok (record s { go_id = name }))
      ok (fields q))
    else if tag == 0x84
    then ok (fields (record p { timestamp_buf_pos = some buf_pos }))
    else if tag == 0x85
    then (do v ← decode_uint32 buffer element_length buf_pos; ok (fields (record p { st_num = v })))
    else if tag == 0x86
    then (do v ← decode_uint32 buffer element_length buf_pos; ok (fields (record p { sq_num = v })))
    else if tag == 0x87
    then (do b ← decode_boolean buffer buf_pos; ok (fields (record p { simulation = b })))
    else if tag == 0x88
    then (do
      v ← decode_uint32 buffer element_length buf_pos
      ok (fields (record p { conf_rev = v })))
    else if tag == 0x89
    then (do b ← decode_boolean buffer buf_pos; ok (fields (record p { nds_com = b })))
    else if tag == 0x8a
    then (do
      v ← decode_uint32 buffer element_length buf_pos
      ok (fields (record p { number_of_dat_set_entries = v })))
    else if tag == 0xab
    then ok (
        fields (record p {
          data_set_buffer_pos = some buf_pos;
          data_set_buffer_length = element_length;
        }))
    else ok (fields p)

-- `while (bufPos < gooseEnd)`
unfoldable pub parse_fields : ℕ → List ℕ → ℕ → ℕ → ℕ → Payload → Outcome FieldResult
parse_fields zero buffer buf_pos goose_end apdu_length p = stuck
parse_fields (suc fuel) buffer buf_pos goose_end apdu_length p =
    let rest = parse_fields fuel buffer in
    if ltb buf_pos goose_end
    then (do
      tag ← read buffer buf_pos
      on_failure (decode_length buffer (buf_pos + 1) apdu_length) (ok (returned p.subscribers))
          (λ r. parse_field tag buffer r.0 r.1 p >>= λ q. elim q [
            | fields p' ↦ rest (r.0 + r.1) goose_end apdu_length p'
            | returned subscribers ↦ ok (returned subscribers)
          ]))
    else ok (fields p)

-- The data set of a message, parsed anew or into the values that are there: the values, whether they
-- were allocated here, and the error where one is stored.
pub record DataSetResult : Type 0 where
  pub values : Option MmsValue
  pub self_allocated : Bool
  pub error : Option GooseParseError

-- A data set buffer that was not found is NULL, of length 0. Values that are no array or structure have
-- no size to read.
abbrev data_at : List ℕ → Option ℕ → List ℕ
data_at buffer none = []
data_at buffer (some p) = drop p buffer

-- The data set is dropped when confRev has changed, and always for an observer.
unfoldable pub kept_values : GooseSubscriber → ℕ → Option MmsValue
kept_values s conf_rev =
    if s.data_set_values_self_allocated && not (s.conf_rev == conf_rev)
    then none
    else if s.is_observer
    then none
    else s.data_set_values

-- Whether parsing left the message valid.
abbrev pub parsed_well : Option GooseParseError → Bool
parsed_well none = true
parsed_well (some pe) = is_no_error pe

abbrev pub stored_error : Option GooseParseError → GooseParseError → GooseParseError
stored_error none old = old
stored_error (some pe) old = pe

-- What parseGoosePayload returns: 1, with the index of the subscriber, whose listener is called if
-- it has one; 0; or -1.
pub data PayloadResult : Type 0 where
  accepted : ℕ → PayloadResult
  ignored invalid : PayloadResult

-- The loop of parseGooseMessage over the subscribers: an observer that comes before any match takes
-- the addresses and the APPID of the frame.
unfoldable pub note_frame :
    List GooseSubscriber → ℕ → List ℕ → List ℕ → Outcome (List GooseSubscriber)
note_frame [] app_id src_mac dst_mac = ok []
note_frame (s ∷ subscribers) app_id src_mac dst_mac =
    let rest = note_frame subscribers app_id src_mac dst_mac in
    if s.is_observer
    then ok (record s { app_id = some app_id; src_mac = src_mac; dst_mac = dst_mac } ∷ subscribers)
    else (do
      same ← (if s.dst_mac_set then memcmp_equal s.dst_mac dst_mac 6 else ok true)
      let wanted = elim s.app_id as (λ _. Bool) [ none ↦ true | some a ↦ a == app_id ]
      if wanted && same then ok (s ∷ subscribers) else (rest >>= λ r. ok (s ∷ r)))

module _ (fc : FloatConversions) where
  unfoldable pub parse_data_set : Bool → Option MmsValue → List ℕ → ℕ → Outcome DataSetResult
  parse_data_set flag none buffer n =
      on_failure (parse_all_data_unknown_value (n + 2) buffer n false)
        (ok (record { values = none; self_allocated = flag; error = none }))
        (λ v. ok (record { values = some v; self_allocated = true; error = none }))
  parse_data_set flag (some (MmsValue.array cs)) buffer n = do
    r ← parse_all_data fc cs buffer 0 n
    ok (record { values = some (MmsValue.array r.0); self_allocated = flag; error = some r.1 })
  parse_data_set flag (some (MmsValue.structure cs)) buffer n = do
    r ← parse_all_data fc cs buffer 0 n
    ok (record { values = some (MmsValue.structure r.0); self_allocated = flag; error = some r.1 })
  parse_data_set flag (some v) buffer n = fault

  -- The part of parseGoosePayload behind the loop, on the subscriber that matches, at the time `now`.
  unfoldable pub take_message : GooseSubscriber → Payload → List ℕ → ℕ → Outcome GooseSubscriber
  take_message s p buffer now = do
    timestamp ← (elim p.timestamp_buf_pos [
      | none ↦ set_utc_time s.timestamp 0
      | some pos ↦ set_utc_time_by_buffer buffer pos
    ])
    d ←
        parse_data_set s.data_set_values_self_allocated (kept_values s p.conf_rev)
          (data_at buffer p.data_set_buffer_pos) p.data_set_buffer_length
    let repeated = (s.st_num == p.st_num) && leb p.sq_num s.sq_num
    ok (record s {
      time_allowed_to_live = p.time_allowed_to_live;
      nds_com = p.nds_com;
      simulation = p.simulation;
      conf_rev = p.conf_rev;
      timestamp = timestamp;
      data_set_values = d.values;
      data_set_values_self_allocated = d.self_allocated;
      parse_error = stored_error d.error s.parse_error;
      state_valid = if repeated then false else parsed_well d.error;
      st_num = p.st_num;
      sq_num = p.sq_num;
      invalidity_time = now + p.time_allowed_to_live;
    })

  unfoldable pub finish_payload :
      FieldResult → List ℕ → ℕ → Outcome (List GooseSubscriber × PayloadResult)
  finish_payload (returned subscribers) buffer now = ok (subscribers, ignored)
  finish_payload (fields p) buffer now = elim p.matching [
    | none ↦ ok (p.subscribers, ignored)
    | some i ↦ (do
      subscribers ← update_at p.subscribers i (λ s. take_message s p buffer now)
      ok (subscribers, accepted i))
  ]

  -- parseGoosePayload
  unfoldable pub parse_goose_payload :
      List GooseSubscriber → List ℕ → ℕ → ℕ → Outcome (List GooseSubscriber × PayloadResult)
  parse_goose_payload subscribers buffer apdu_length now = do
    tag ← read buffer 0
    if tag == 0x61
        then on_failure (decode_length buffer 1 apdu_length) (ok (subscribers, ignored)) (λ r. do
          q ← parse_fields (r.1 + 1) buffer r.0 (r.0 + r.1) apdu_length (new_payload subscribers)
          finish_payload q buffer now)
        else ok (subscribers, invalid)

  -- A length field below 8 makes `apduLength` negative, which is no bound for any position, as 0 is.
  -- parseGooseMessage: `none` where the frame is not taken for GOOSE. What the loop found is not
  -- used: `if (1)`.
  unfoldable pub parse_goose_message :
      List GooseSubscriber → List ℕ → ℕ → ℕ → Outcome (List GooseSubscriber × Option PayloadResult)
  parse_goose_message subscribers buffer numbytes now =
      if ltb numbytes 22 then ok (subscribers, none) else (do
        type_hi ← read buffer 2
        if not (type_hi == 0x88) then ok (subscribers, none) else (do
          type_lo ← read buffer 3
          if not (type_lo == 0xb8) then ok (subscribers, none) else (do
            src_mac ← read_bytes 6 buffer 6
            dst_mac ← read_bytes 6 buffer 0
            id_hi ← read buffer 4
            id_lo ← read buffer 5
            length_hi ← read buffer 6
            length_lo ← read buffer 7
            let apdu_length = length_hi * 0x100 + length_lo - 8
            noted ← note_frame subscribers (id_hi * 0x100 + id_lo) src_mac dst_mac
            r ← parse_goose_payload noted (drop 12 buffer) apdu_length now
            ok (r.0, some r.1))))

  -- GooseReceiver_tick: the packet is copied to the front of the buffer.
  unfoldable pub tick :
      List GooseSubscriber
      → List ℕ
      → List ℕ
      → ℕ
      → Outcome (List GooseSubscriber × Option PayloadResult)
  tick subscribers buffer packet now = do
    let packet_size = (if ltb (length buffer) (length packet) then length buffer else length packet)
    filled ← memcpy buffer packet packet_size
    if ltb 0 packet_size
        then parse_goose_message subscribers filled packet_size now
        else ok (subscribers, none)
