-- ===== src/Goose/Publisher.antt =====
-- goose/goose_publisher.cc: the publisher's state, its setters, the frame header, the payload and
-- `GoosePublisher_publish`. The allocator and the socket are taken to be there: NULL results are
-- not modelled. The data set is the list of the pointers that the `LinkedList` holds, NULL as `none`.
pub mod Payload
pub mod Publish
pub mod Create
use grid_goose_sv.Prelude.{
  ℕ, zero, suc, ◌+◌, ◌-◌, ◌*◌, ◌/◌, ◌%◌, ◌^◌, bit_and, List, [], ◌∷◌, ◌++◌, length, take, drop, ltb,
  ◌==◌, if◌then◌else◌, Bool, true, false, Option, none, some, Outcome, ok, failed, fault, stuck,
  ◌>>=◌, replicate,
}
use mathlib.Core.Option
use grid_goose_sv.Memory.{Cursor, put, put_all}
use grid_goose_sv.Ber.Length.{encode_tl, determine_length_size}
use grid_goose_sv.Ber.Bytes.{store}
use grid_goose_sv.Ber.Decoder.{read_bytes}
use grid_goose_sv.Ber.Encoder.{
  encode_boolean, encode_string_with_tag, encode_octet_string, encode_uint32_with_tl,
  determine_encoded_string_size, uint32_determine_encoded_size,
}
use grid_goose_sv.Mms.Value.{MmsValue}
use grid_goose_sv.Mms.UtcTime.{new_utc_time_by_ms_time}
use grid_goose_sv.Mms.Encode.{mms_data_size, encode_mms_data}

-- `payload_length` is `none` for -1; `timestamp` is the octets of the UTC time value.
pub record GoosePublisher : Type 0 where
  pub buffer : List ℕ
  pub length_field : ℕ
  pub payload_start : ℕ
  pub payload_length : Option ℕ
  pub go_id : Option (List ℕ)
  pub go_cb_ref : Option (List ℕ)
  pub data_set_ref : Option (List ℕ)
  pub conf_rev : ℕ
  pub st_num : ℕ
  pub sq_num : ℕ
  pub time_allowed_to_live : ℕ
  pub needs_commission : Bool
  pub simulation : Bool
  pub timestamp : List ℕ

-- CommParameters
pub record CommParameters : Type 0 where
  pub vlan_priority : ℕ
  pub vlan_id : ℕ
  pub app_id : ℕ
  pub dst_address : List ℕ

-- The parameters that prepareGooseBuffer takes, in place of NULL those of config/stack_config.h.
abbrev pub goose_parameters : Option CommParameters → CommParameters
goose_parameters (some parameters) = parameters
goose_parameters none = record {
  vlan_priority = 4;
  vlan_id = 0;
  app_id = 0x1000;
  dst_address = 0x01 ∷ 0x0c ∷ 0xcd ∷ 0x01 ∷ 0x00 ∷ 0x01 ∷ [];
}

abbrev pub goose_max_message_size : ℕ
goose_max_message_size = 1518

-- Arithmetic in a `uint32_t`.
abbrev pub u32 : ℕ → ℕ
u32 n = n % 2 ^ 32

-- The octets that prepareGooseBuffer writes: addresses, priority tag, EtherType, APPID, length and
-- the reserved fields.
unfoldable pub frame_header : CommParameters → List ℕ → Bool → Cursor → Outcome Cursor
frame_header parameters src_addr use_vlan_tags c = do
  c1 ← put_all (take 6 parameters.dst_address) c
  c2 ← put_all (take 6 src_addr) c1
  let tci1 = parameters.vlan_priority * 32 % 256 + parameters.vlan_id / 256
  let vlan_tag = 0x81 ∷ 0x00 ∷ tci1 % 256 ∷ parameters.vlan_id % 256 ∷ []
  c3 ← (if use_vlan_tags then put_all vlan_tag c2 else ok c2)
  c4 ← put_all (0x88 ∷ 0xB8 ∷ parameters.app_id / 256 ∷ parameters.app_id % 256 ∷ []) c3
  put_all (0x00 ∷ 0x08 ∷ 0x00 ∷ 0x00 ∷ 0x00 ∷ 0x00 ∷ []) c4

-- prepareGooseBuffer and GoosePublisher_createEx: `junk` is what the allocated buffer holds, `now`
-- the time in milliseconds.
unfoldable pub create_ex :
    Option CommParameters → List ℕ → List ℕ → ℕ → Bool → Outcome GoosePublisher
create_ex parameters src_addr junk now use_vlan_tags = do
  let used = goose_parameters parameters
  c ← frame_header used src_addr use_vlan_tags (record { buffer = junk; pos = 0 })
  ok (record {
    buffer = c.buffer;
    length_field = c.pos - 6;
    payload_start = c.pos;
    payload_length = some 0;
    go_id = none;
    go_cb_ref = none;
    data_set_ref = none;
    conf_rev = 0;
    st_num = 1;
    sq_num = 0;
    time_allowed_to_live = 0;
    needs_commission = false;
    simulation = false;
    timestamp = new_utc_time_by_ms_time now;
  })

-- GoosePublisher_setGoID
unfoldable pub set_go_id : GoosePublisher → List ℕ → GoosePublisher
set_go_id self go_id = record self { go_id = some go_id }

-- GoosePublisher_setGoCbRef
unfoldable pub set_go_cb_ref : GoosePublisher → List ℕ → GoosePublisher
set_go_cb_ref self go_cb_ref = record self { go_cb_ref = some go_cb_ref }

-- GoosePublisher_setDataSetRef
unfoldable pub set_data_set_ref : GoosePublisher → List ℕ → GoosePublisher
set_data_set_ref self data_set_ref = record self { data_set_ref = some data_set_ref }

-- GoosePublisher_setConfRev
unfoldable pub set_conf_rev : GoosePublisher → ℕ → GoosePublisher
set_conf_rev self conf_rev = record self { conf_rev = conf_rev }

-- GoosePublisher_setSimulation
unfoldable pub set_simulation : GoosePublisher → Bool → GoosePublisher
set_simulation self simulation = record self { simulation = simulation }

-- GoosePublisher_setStNum
unfoldable pub set_st_num : GoosePublisher → ℕ → GoosePublisher
set_st_num self st_num = record self { st_num = st_num }

-- GoosePublisher_setSqNum
unfoldable pub set_sq_num : GoosePublisher → ℕ → GoosePublisher
set_sq_num self sq_num = record self { sq_num = sq_num }

-- GoosePublisher_setNeedsCommission
unfoldable pub set_needs_commission : GoosePublisher → Bool → GoosePublisher
set_needs_commission self nds_com = record self { needs_commission = nds_com }

-- GoosePublisher_setTimeAllowedToLive
unfoldable pub set_time_allowed_to_live : GoosePublisher → ℕ → GoosePublisher
set_time_allowed_to_live self t = record self { time_allowed_to_live = t }

-- GoosePublisher_reset
unfoldable pub reset : GoosePublisher → GoosePublisher
reset self = record self { sq_num = 0; st_num = 1 }

-- GoosePublisher_increaseStNum: `++` in a `uint32_t`, and 0 is skipped.
unfoldable pub increase_st_num : GoosePublisher → ℕ → GoosePublisher
increase_st_num self current_time =
    let next = u32 (self.st_num + 1) in
    record self {
      timestamp = new_utc_time_by_ms_time current_time;
      st_num = if next == 0 then 1 else next;
      sq_num = 0;
    }

-- The loops over the data set in createGoosePayload.
unfoldable pub data_set_size : List (Option MmsValue) → Outcome ℕ
data_set_size [] = ok 0
data_set_size (none ∷ entries) = data_set_size entries
data_set_size (some v ∷ entries) = do
  n ← mms_data_size v
  rest ← data_set_size entries
  ok (n + rest)

unfoldable pub encode_data_set : List (Option MmsValue) → Cursor → Outcome Cursor
encode_data_set [] c = ok c
encode_data_set (none ∷ entries) c = encode_data_set entries c
encode_data_set (some v ∷ entries) c = do c1 ← encode_mms_data v c; encode_data_set entries c1

abbrev or_else : Option (List ℕ) → Option (List ℕ) → Option (List ℕ)
or_else none t = t
or_else (some s) t = some s

-- The string that is sent as goID.
unfoldable pub go_id_or_cb_ref : GoosePublisher → Option (List ℕ)
go_id_or_cb_ref self = or_else self.go_id self.go_cb_ref

-- Step 2 of createGoosePayload: the encoding.
unfoldable pub encode_goose_pdu :
    GoosePublisher → List (Option MmsValue) → ℕ → ℕ → Cursor → Outcome Cursor
encode_goose_pdu self data_set goose_pdu_length data_set_bytes c = do
  c1 ← encode_tl 0x61 goose_pdu_length c
  c2 ← encode_string_with_tag 0x80 self.go_cb_ref c1
  c3 ← encode_uint32_with_tl 0x81 self.time_allowed_to_live c2
  c4 ← encode_string_with_tag 0x82 self.data_set_ref c3
  c5 ← encode_string_with_tag 0x83 (go_id_or_cb_ref self) c4
  c6 ← encode_octet_string 0x84 self.timestamp 8 c5
  c7 ← encode_uint32_with_tl 0x85 self.st_num c6
  c8 ← encode_uint32_with_tl 0x86 self.sq_num c7
  c9 ← encode_boolean 0x87 self.simulation c8
  c10 ← encode_uint32_with_tl 0x88 self.conf_rev c9
  c11 ← encode_boolean 0x89 self.needs_commission c10
  c12 ← encode_uint32_with_tl 0x8a (u32 (length data_set)) c11
  c13 ← encode_tl 0xab data_set_bytes c12
  encode_data_set data_set c13

-- createGoosePayload: step 1 adds up the sizes in `uint32_t`; `failed` is -1, where nothing has been
-- written.
unfoldable pub create_goose_payload :
    GoosePublisher → List (Option MmsValue) → ℕ → Cursor → Outcome Cursor
create_goose_payload self data_set max_payload_size c = do
  time_size ← uint32_determine_encoded_size self.time_allowed_to_live
  sq_size ← uint32_determine_encoded_size self.sq_num
  st_size ← uint32_determine_encoded_size self.st_num
  conf_size ← uint32_determine_encoded_size self.conf_rev
  entries_size ← uint32_determine_encoded_size (u32 (length data_set))
  data_bytes ← data_set_size data_set
  let data_set_bytes = u32 data_bytes
  let all_data_size = u32 (data_set_bytes + determine_length_size data_set_bytes + 1)
  let goose_pdu_length = u32 (
      determine_encoded_string_size self.go_cb_ref
      + (2 + time_size)
      + determine_encoded_string_size self.data_set_ref
      + determine_encoded_string_size (go_id_or_cb_ref self)
      + (2 + 8)
      + (2 + sq_size)
      + (2 + st_size)
      + (2 + conf_size)
      + 6
      + (2 + entries_size)
      + all_data_size)
  let payload_size = u32 (1 + determine_length_size goose_pdu_length + goose_pdu_length)
  if ltb max_payload_size payload_size
      then failed
      else encode_goose_pdu self data_set goose_pdu_length data_set_bytes c

-- Ethernet_sendPacket of hal/ethernet/ns3/ethernet.cc: the first 14 octets, the header that ns-3 adds
-- itself, are left out of the packet.
unfoldable pub send_packet : List ℕ → ℕ → Outcome (List ℕ)
send_packet buffer packet_size = read_bytes (packet_size - 14) buffer 14

-- The part of GoosePublisher_publish after the payload is made: sequence number, length field and
-- the packet that is sent.
unfoldable pub finish_publish :
    GoosePublisher → List ℕ → ℕ → Outcome (GoosePublisher × Option (List ℕ))
finish_publish self buffer payload_length = do
  let next = u32 (self.sq_num + 1)
  let goose_length = payload_length + 8
  buffer1 ← store buffer self.length_field (goose_length / 256 % 256)
  buffer2 ← store buffer1 (self.length_field + 1) (goose_length % 256)
  packet ← send_packet buffer2 (self.payload_start + payload_length)
  ok (
    record self {
      buffer = buffer2;
      payload_length = some payload_length;
      sq_num = if next == 0 then 1 else next;
    },
    some packet,
  )

-- What GoosePublisher_publish does with the result of createGoosePayload on the rest of the buffer.
unfoldable pub publish_with :
    GoosePublisher → Outcome Cursor → Outcome (GoosePublisher × Option (List ℕ))
publish_with self (ok c) =
    finish_publish self (take self.payload_start self.buffer ++ c.buffer) c.pos
publish_with self failed = ok (record self { payload_length = none }, none)
publish_with self fault = fault
publish_with self stuck = stuck

-- GoosePublisher_publish: the new state and the packet sent, `none` where -1 is returned.
unfoldable pub publish :
    GoosePublisher → List (Option MmsValue) → Outcome (GoosePublisher × Option (List ℕ))
publish self data_set = publish_with self (
    create_goose_payload self data_set (goose_max_message_size - self.payload_start)
      (record { buffer = drop self.payload_start self.buffer; pos = 0 }))

-- The copy of the frame that GoosePublisher_publishAndDump makes after a successful publish.
abbrev dump : ℕ → GoosePublisher × Option (List ℕ) → Option (List ℕ)
dump buf_size (self, none) = none
dump buf_size (self, some packet) =
    let copied = self.payload_start + Option.get_or self.payload_length 0 in
    some (take (if ltb buf_size copied then buf_size else copied) self.buffer)

-- GoosePublisher_publishAndDump: also the octets copied to the caller's buffer.
unfoldable pub publish_and_dump :
    GoosePublisher
    → List (Option MmsValue)
    → ℕ
    → Outcome ((GoosePublisher × Option (List ℕ)) × Option (List ℕ))
publish_and_dump self data_set buf_size = do r ← publish self data_set; ok (r, dump buf_size r)
