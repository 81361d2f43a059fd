-- ===== src/Sv/Publisher.antt =====
-- sampled_values/sv_publisher.cc: the publisher, its ASDUs, their layout in the frame buffer and
-- `SVPublisher_setupComplete`. A pointer into the frame buffer is an offset from its start, NULL is
-- `none`. The allocator and the socket are taken to be there, and the sums of sizes to fit an `int`.
pub mod Values
pub mod Pointers
pub mod Layout
pub mod Stores
pub mod Setup
use grid_goose_sv.Prelude.{
  ℕ, zero, suc, ◌+◌, ◌-◌, ◌*◌, ◌/◌, ◌%◌, ◌^◌, List, [], ◌∷◌, ◌++◌, length, take, Bool, true, false,
  ltb, ◌==◌, if◌then◌else◌, Option, none, some, Outcome, ok, failed, fault, stuck, ◌>>=◌,
}
use grid_goose_sv.Memory.{Cursor, put, put_all, skip}
use grid_goose_sv.Ber.Length.{encode_tl, determine_length_size}
use grid_goose_sv.Ber.Bytes.{store}
use grid_goose_sv.Ber.Encoder.{
  encode_string_with_tag, encode_uint32_with_tl, uint32_determine_encoded_size,
}
use grid_goose_sv.Goose.Publisher.{CommParameters, send_packet}

-- sSVPublisher_ASDU; the list of ASDUs is a list, not a chain of `_next`.
pub record SvAsdu : Type 0 where
  pub sv_id : List ℕ
  pub datset : Option (List ℕ)
  pub data_size : ℕ
  pub has_refr_tm : Bool
  pub has_smp_rate : Bool
  pub has_smp_mod : Bool
  pub data_buffer : Option ℕ
  pub smp_synch : ℕ
  pub smp_cnt : ℕ
  pub smp_cnt_limit : ℕ
  pub conf_rev : ℕ
  pub refr_tm : Option ℕ
  pub smp_mod : ℕ
  pub smp_rate : ℕ
  pub smp_cnt_buf : Option ℕ
  pub smp_synch_buf : Option ℕ

-- sSVPublisher; `appId` and `asduCount` are never written or read.
pub record SvPublisher : Type 0 where
  pub buffer : List ℕ
  pub length_field : ℕ
  pub payload_start : ℕ
  pub payload_length : ℕ
  pub asdu_list : List SvAsdu

-- preparePacketBuffer, the octets of the header.
unfoldable pub packet_header : CommParameters → List ℕ → Bool → Cursor → Outcome Cursor
packet_header parameters src_addr use_vlan_tags c = do
  c1 ← put_all (take 6 parameters.dst_address) c
  c2 ← put_all (take 6 src_addr) c1
  let tci1 = parameters.vlan_priority * 32 % 256 + parameters.vlan_id / 256
  let vlan_tag = 0x81 ∷ 0x00 ∷ tci1 % 256 ∷ parameters.vlan_id % 256 ∷ []
  c3 ← (if use_vlan_tags then put_all vlan_tag c2 else ok c2)
  c4 ← put_all (0x88 ∷ 0xBa ∷ parameters.app_id / 256 ∷ parameters.app_id % 256 ∷ []) c3
  put_all (0x00 ∷ 0x08 ∷ 0x00 ∷ 0x00 ∷ 0x00 ∷ 0x00 ∷ []) c4

-- The parameters that preparePacketBuffer takes, in place of NULL the defaults of the file.
abbrev pub sv_parameters : Option CommParameters → CommParameters
sv_parameters (some parameters) = parameters
sv_parameters none = record {
  vlan_priority = 4;
  vlan_id = 0;
  app_id = 0x4000;
  dst_address = 0x01 ∷ 0x0c ∷ 0xcd ∷ 0x01 ∷ 0x00 ∷ 0x01 ∷ [];
}

-- SVPublisher_createEx
unfoldable pub create_sv : Option CommParameters → List ℕ → List ℕ → Bool → Outcome SvPublisher
create_sv parameters src_addr junk use_vlan_tags = do
  let used = sv_parameters parameters
  c ← packet_header used src_addr use_vlan_tags (record { buffer = junk; pos = 0 })
  ok (record {
    buffer = c.buffer;
    length_field = c.pos - 6;
    payload_start = c.pos;
    payload_length = 0;
    asdu_list = [];
  })

-- encodeUInt16FixedSize, encodeUInt32FixedSize: network byte order.
unfoldable pub encode_uint16_fixed_size : ℕ → Cursor → Outcome Cursor
encode_uint16_fixed_size value c = do c1 ← put (value / 256 % 256) c; put (value % 256) c1

unfoldable pub encode_uint32_fixed_size : ℕ → Cursor → Outcome Cursor
encode_uint32_fixed_size value c = do
  c1 ← put (value / 2 ^ 24 % 256) c
  c2 ← put (value / 2 ^ 16 % 256) c1
  c3 ← put (value / 256 % 256) c2
  put (value % 256) c3

-- SVPublisher_addASDU: the new ASDU, zero but for the arguments and the limit of the counter, stands
-- at the end of the list.
abbrev pub new_asdu : List ℕ → Option (List ℕ) → ℕ → SvAsdu
new_asdu sv_id datset conf_rev = record {
  sv_id = sv_id;
  datset = datset;
  data_size = 0;
  has_refr_tm = false;
  has_smp_rate = false;
  has_smp_mod = false;
  data_buffer = none;
  smp_synch = 0;
  smp_cnt = 0;
  smp_cnt_limit = 65535;
  conf_rev = conf_rev;
  refr_tm = none;
  smp_mod = 0;
  smp_rate = 0;
  smp_cnt_buf = none;
  smp_synch_buf = none;
}

unfoldable pub add_asdu : SvPublisher → List ℕ → Option (List ℕ) → ℕ → SvPublisher
add_asdu self sv_id datset conf_rev = record self {
  asdu_list = self.asdu_list ++ (new_asdu sv_id datset conf_rev ∷ []);
}

abbrev pub datset_size : Option (List ℕ) → ℕ
datset_size none = 0
datset_size (some s) = 1 + determine_length_size (length s) + length s

-- SVPublisher_ASDU_getEncodedSize
unfoldable pub get_encoded_size : SvAsdu → ℕ
get_encoded_size self =
    (1 + determine_length_size (length self.sv_id) + length self.sv_id)
    + datset_size self.datset
    + 4
    + 6
    + (if self.has_refr_tm then 10 else 0)
    + 3
    + (if self.has_smp_rate then 4 else 0)
    + (1 + determine_length_size self.data_size)
    + self.data_size
    + (if self.has_smp_mod then 4 else 0)

-- The ASDU whose pointers are being set, with the cursor.
pub record Encoding : Type 0 where
  pub asdu : SvAsdu
  pub cursor : Cursor

-- A statement `bufPos = f(…, buffer, bufPos)`.
abbrev pub move : (Cursor → Outcome Cursor) → Encoding → Outcome Encoding
move w e = do c ← w e.cursor; ok (record e { cursor = c })

-- A statement `self->… = buffer + bufPos`.
abbrev pub mark : (SvAsdu → ℕ → SvAsdu) → Encoding → Outcome Encoding
mark f e = ok (record e { asdu = f e.asdu e.cursor.pos })

abbrev pub mark_smp_cnt : SvAsdu → ℕ → SvAsdu
mark_smp_cnt a p = record a { smp_cnt_buf = some p }

abbrev pub mark_refr_tm : SvAsdu → ℕ → SvAsdu
mark_refr_tm a p = record a { refr_tm = some p }

abbrev pub mark_smp_synch : SvAsdu → ℕ → SvAsdu
mark_smp_synch a p = record a { smp_synch_buf = some p }

abbrev pub mark_data : SvAsdu → ℕ → SvAsdu
mark_data a p = record a { data_buffer = some p }

unfoldable pub encode_datset : Option (List ℕ) → Encoding → Outcome Encoding
encode_datset none e = ok e
encode_datset (some s) e = move (encode_string_with_tag 0x81 (some s)) e

unfoldable pub encode_refr_tm : Bool → Encoding → Outcome Encoding
encode_refr_tm true e = do
  e1 ← move (encode_tl 0x84 8) e
  e2 ← mark mark_refr_tm e1
  move (skip 8) e2
encode_refr_tm false e = ok e

-- The optional fields of 16 bits.
unfoldable pub encode_optional_uint16 : Bool → ℕ → ℕ → Encoding → Outcome Encoding
encode_optional_uint16 true tag value e = do
  e1 ← move (encode_tl tag 2) e
  move (encode_uint16_fixed_size value) e1
encode_optional_uint16 false tag value e = ok e

-- SVPublisher_ASDU_encodeToBuffer, statement by statement. No field that is encoded is changed on
-- the way, so that `self` stands for the ASDU throughout.
unfoldable pub encode_to_buffer : SvAsdu → Encoding → Outcome Encoding
encode_to_buffer self e = do
  e1 ← move (encode_tl 0x30 (get_encoded_size self)) e
  e2 ← move (encode_string_with_tag 0x80 (some self.sv_id)) e1
  e3 ← encode_datset self.datset e2
  e4 ← move (encode_tl 0x82 2) e3
  e5 ← mark mark_smp_cnt e4
  e6 ← move (encode_uint16_fixed_size self.smp_cnt) e5
  e7 ← move (encode_tl 0x83 4) e6
  e8 ← move (encode_uint32_fixed_size self.conf_rev) e7
  e9 ← encode_refr_tm self.has_refr_tm e8
  e10 ← move (encode_tl 0x85 1) e9
  e11 ← mark mark_smp_synch e10
  e12 ← move (put self.smp_synch) e11
  e13 ← encode_optional_uint16 self.has_smp_rate 0x86 self.smp_rate e12
  e14 ← move (encode_tl 0x87 self.data_size) e13
  e15 ← mark mark_data e14
  e16 ← move (skip self.data_size) e15
  encode_optional_uint16 self.has_smp_mod 0x88 self.smp_mod e16

-- The loops of SVPublisher_setupComplete over the ASDUs.
unfoldable pub total_asdu_length : List SvAsdu → ℕ
total_asdu_length [] = 0
total_asdu_length (a ∷ asdus) =
    get_encoded_size a + determine_length_size (get_encoded_size a) + 1 + total_asdu_length asdus

unfoldable pub encode_asdus : List SvAsdu → Cursor → Outcome (List SvAsdu × Cursor)
encode_asdus [] c = ok ([], c)
encode_asdus (a ∷ asdus) c = do
  e ← encode_to_buffer a (record { asdu = a; cursor = c })
  (placed, c1) ← encode_asdus asdus e.cursor
  ok (e.asdu ∷ placed, c1)

-- The end of SVPublisher_setupComplete: length field and payload length.
unfoldable pub finish_setup : SvPublisher → List SvAsdu × Cursor → Outcome SvPublisher
finish_setup self (placed, c) = do
  let payload_length = c.pos - self.payload_start
  let msg_length = payload_length + 8
  buffer1 ← store c.buffer self.length_field (msg_length / 256 % 256)
  buffer2 ← store buffer1 (self.length_field + 1) (msg_length % 256)
  ok (record self { buffer = buffer2; payload_length = payload_length; asdu_list = placed })

-- SVPublisher_setupComplete
unfoldable pub setup_complete : SvPublisher → Outcome SvPublisher
setup_complete self = do
  let number_of_asdu = length self.asdu_list
  let total = total_asdu_length self.asdu_list
  let sequence_size = 1 + determine_length_size total + total
  number_size ← uint32_determine_encoded_size number_of_asdu
  let inner_size = 2 + number_size + sequence_size
  c1 ← encode_tl 0x60 inner_size (record { buffer = self.buffer; pos = self.payload_start })
  c2 ← encode_uint32_with_tl 0x80 number_of_asdu c1
  c3 ← encode_tl 0xa2 total c2
  r ← encode_asdus self.asdu_list c3
  finish_setup self r

-- SVPublisher_publish: the packet that is sent.
unfoldable pub publish_sv : SvPublisher → Outcome (List ℕ)
publish_sv self = send_packet self.buffer (self.payload_start + self.payload_length)
