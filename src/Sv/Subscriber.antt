-- ===== src/Sv/Subscriber.antt =====
-- sampled_values/sv_subscriber.cc: the receiver of sampled values. A pointer into the receive buffer
-- is an offset, NULL is `none`. The parser writes the terminators of the two names into the buffer;
-- what the listener is called with is an ASDU with the buffer at that time. A length field below 8
-- makes `apduLength` negative, which is no bound for any position, as 0 is. The getters of the old
-- API only call those of `SVSubscriber_ASDU`.
pub mod Getters
use grid_goose_sv.Prelude.{
  ℕ, zero, suc, ◌+◌, ◌-◌, ◌*◌, ◌/◌, ◌^◌, List, [], ◌∷◌, ◌++◌, length, drop, reverse, take,
  replicate, Bool, true, false, not, ltb, ◌==◌, if◌then◌else◌, Option, none, some, Outcome, ok,
  failed, fault, stuck, ◌>>=◌, on_failure, or_fault,
}
use grid_goose_sv.Memory.{read}
use grid_goose_sv.Ber.Bytes.{store}
use grid_goose_sv.Ber.Primitive.{memcpy, memcmp_equal}
use grid_goose_sv.Ber.Decoder.{decode_length, read_bytes}

-- sSVSubscriber
pub record SvSubscriber : Type 0 where
  pub eth_addr : List ℕ
  pub app_id : ℕ
  pub has_listener : Bool

-- sSVReceiver, without the socket.
pub record SvReceiver : Type 0 where
  pub check_dest_addr : Bool
  pub buffer : List ℕ
  pub subscribers : List SvSubscriber

-- sSVSubscriber_ASDU
pub record SubscriberAsdu : Type 0 where
  pub sv_id : Option ℕ
  pub dat_set : Option ℕ
  pub smp_cnt : Option ℕ
  pub conf_rev : Option ℕ
  pub refr_tm : Option ℕ
  pub smp_synch : Option ℕ
  pub smp_mod : Option ℕ
  pub smp_rate : Option ℕ
  pub data_buffer : Option ℕ
  pub data_buffer_length : ℕ

-- SVReceiver_create; `junk` is what the allocated buffer holds.
unfoldable pub create_receiver : List ℕ → SvReceiver
create_receiver junk = record { check_dest_addr = false; buffer = junk; subscribers = [] }

-- SVReceiver_enableDestAddrCheck, SVReceiver_disableDestAddrCheck
unfoldable pub enable_dest_addr_check : SvReceiver → SvReceiver
enable_dest_addr_check self = record self { check_dest_addr = true }

unfoldable pub disable_dest_addr_check : SvReceiver → SvReceiver
disable_dest_addr_check self = record self { check_dest_addr = false }

-- SVReceiver_addSubscriber: the list grows at its end.
unfoldable pub add_subscriber : SvReceiver → SvSubscriber → SvReceiver
add_subscriber self subscriber = record self { subscribers = self.subscribers ++ (subscriber ∷ []) }

-- SVSubscriber_create
abbrev address_or_zero : Option (List ℕ) → List ℕ
address_or_zero none = replicate 6 0
address_or_zero (some a) = take 6 a

unfoldable pub create_sv_subscriber : Option (List ℕ) → ℕ → SvSubscriber
create_sv_subscriber eth_addr app_id = record {
  eth_addr = address_or_zero eth_addr;
  app_id = app_id;
  has_listener = false;
}

-- SVSubscriber_setListener
unfoldable pub set_sv_listener : SvSubscriber → SvSubscriber
set_sv_listener self = record self { has_listener = true }

-- The locals of parseASDU.
pub record AsduLocals : Type 0 where
  pub asdu : SubscriberAsdu
  pub sv_id_length : ℕ
  pub dat_set_length : ℕ

abbrev pub no_asdu : AsduLocals
no_asdu = record {
  asdu = record {
    sv_id = none;
    dat_set = none;
    smp_cnt = none;
    conf_rev = none;
    refr_tm = none;
    smp_synch = none;
    smp_mod = none;
    smp_rate = none;
    data_buffer = none;
    data_buffer_length = 0;
  };
  sv_id_length = 0;
  dat_set_length = 0;
}

-- The `switch` of parseASDU, on the position of the contents in the receive buffer.
unfoldable pub note_field : ℕ → ℕ → ℕ → AsduLocals → AsduLocals
note_field tag p n l =
    if tag == 0x80
    then record l { asdu = record l.asdu { sv_id = some p }; sv_id_length = n }
    else if tag == 0x81
    then record l { asdu = record l.asdu { dat_set = some p }; dat_set_length = n }
    else if tag == 0x82
    then record l { asdu = record l.asdu { smp_cnt = some p } }
    else if tag == 0x83
    then record l { asdu = record l.asdu { conf_rev = some p } }
    else if tag == 0x84
    then record l { asdu = record l.asdu { refr_tm = some p } }
    else if tag == 0x85
    then record l { asdu = record l.asdu { smp_synch = some p } }
    else if tag == 0x86
    then record l { asdu = record l.asdu { smp_rate = some p } }
    else if tag == 0x87
    then record l { asdu = record l.asdu { data_buffer = some p; data_buffer_length = n } }
    else if tag == 0x88
    then record l { asdu = record l.asdu { smp_mod = some p } }
    else l

-- The loop of parseASDU over `length` octets from `start` on; `failed` where it returns.
unfoldable pub note_fields : ℕ → List ℕ → ℕ → ℕ → ℕ → AsduLocals → Outcome AsduLocals
note_fields zero buffer start buf_pos length l = stuck
note_fields (suc fuel) buffer start buf_pos length l =
    let rest = note_fields fuel buffer start in
    if ltb buf_pos length
    then (do
      tag ← read (drop start buffer) buf_pos
      r ← decode_length (drop start buffer) (buf_pos + 1) length
      rest (r.0 + r.1) length (note_field tag (start + r.0) r.1 l))
    else ok l

-- `if (name != NULL) name[length] = 0`
unfoldable pub terminate : Option ℕ → ℕ → List ℕ → Outcome (List ℕ)
terminate none n buffer = ok buffer
terminate (some p) n buffer = store buffer (p + n) 0

-- What the listener is called with.
pub record Delivery : Type 0 where
  pub asdu : SubscriberAsdu
  pub buffer : List ℕ

-- The buffer, and the calls of the listener in their order.
abbrev pub Deliveries : Type 0
Deliveries = List ℕ × List Delivery

-- parseASDU
unfoldable pub parse_asdu : Bool → List ℕ → ℕ → ℕ → List Delivery → Outcome Deliveries
parse_asdu has_listener buffer start length seen =
    on_failure (note_fields (length + 1) buffer start 0 length no_asdu) (ok (buffer, seen)) (λ l. do
      named ← terminate l.asdu.sv_id l.sv_id_length buffer
      both ← terminate l.asdu.dat_set l.dat_set_length named
      ok (
        both,
        if has_listener then seen ++ (record { asdu = l.asdu; buffer = both } ∷ []) else seen,
      ))

-- parseSequenceOfASDU
unfoldable pub parse_sequence_of_asdu :
    ℕ → Bool → List ℕ → ℕ → ℕ → ℕ → List Delivery → Outcome Deliveries
parse_sequence_of_asdu zero has_listener buffer start buf_pos length seen = stuck
parse_sequence_of_asdu (suc fuel) has_listener buffer start buf_pos length seen =
    let rest = parse_sequence_of_asdu fuel has_listener in
    if ltb buf_pos length
    then (do
      tag ← read (drop start buffer) buf_pos
      on_failure (decode_length (drop start buffer) (buf_pos + 1) length) (ok (buffer, seen)) (λ r.
          do
            d ←
                (if tag == 0x30
                  then parse_asdu has_listener buffer (start + r.0) r.1 seen
                  else ok (buffer, seen))
            rest d.0 start (r.0 + r.1) length d.1))
    else ok (buffer, seen)

-- The loop of parseSVPayload.
unfoldable pub parse_sv_fields : ℕ → Bool → List ℕ → ℕ → ℕ → ℕ → List Delivery → Outcome Deliveries
parse_sv_fields zero has_listener buffer start buf_pos sv_end seen = stuck
parse_sv_fields (suc fuel) has_listener buffer start buf_pos sv_end seen =
    let rest = parse_sv_fields fuel has_listener in
    if ltb buf_pos sv_end
    then (do
      tag ← read (drop start buffer) buf_pos
      on_failure (decode_length (drop start buffer) (buf_pos + 1) sv_end) (ok (buffer, seen)) (λ r.
          do
            d ←
                (if tag == 0xa2
                  then parse_sequence_of_asdu (r.1 + 1) has_listener buffer (start + r.0) 0 r.1 seen
                  else ok (buffer, seen))
            rest d.0 start (r.0 + r.1) sv_end d.1))
    else ok (buffer, seen)

-- parseSVPayload
unfoldable pub parse_sv_payload : Bool → List ℕ → ℕ → ℕ → Outcome Deliveries
parse_sv_payload has_listener buffer start apdu_length = do
  tag ← read (drop start buffer) 0
  if tag == 0x60
      then on_failure (decode_length (drop start buffer) 1 apdu_length) (ok (buffer, []))
          (λ r. parse_sv_fields (r.1 + 1) has_listener buffer start r.0 (r.0 + r.1) [])
      else ok (buffer, [])

-- The loop of parseSVMessage over the subscribers.
unfoldable pub find_subscriber :
    Bool → List SvSubscriber → ℕ → List ℕ → Outcome (Option SvSubscriber)
find_subscriber check_dest_addr [] app_id buffer = ok none
find_subscriber check_dest_addr (s ∷ subscribers) app_id buffer =
    let rest = find_subscriber check_dest_addr subscribers app_id buffer in
    if s.app_id == app_id
    then (if check_dest_addr
        then (do same ← memcmp_equal buffer s.eth_addr 6; if same then ok (some s) else rest)
        else ok (some s))
    else rest

-- parseSVMessage: the buffer, and the calls of the listener.
unfoldable pub parse_sv_message : SvReceiver → ℕ → Outcome Deliveries
parse_sv_message self numbytes =
    let none_seen : Outcome Deliveries = ok (self.buffer, []) in
    if ltb numbytes 22 then none_seen else (do
      type_hi ← read self.buffer 2
      if not (type_hi == 0x88) then none_seen else (do
        type_lo ← read self.buffer 3
        if not (type_lo == 0xba) then none_seen else (do
          id_hi ← read self.buffer 4
          id_lo ← read self.buffer 5
          length_hi ← read self.buffer 6
          length_lo ← read self.buffer 7
          let apdu_length = length_hi * 0x100 + length_lo - 8
          found ←
              find_subscriber self.check_dest_addr self.subscribers (id_hi * 0x100 + id_lo)
                self.buffer
          elim found [
            | none ↦ none_seen
            | some s ↦ parse_sv_payload s.has_listener self.buffer 12 apdu_length
          ])))

-- SVReceiver_tick: the packet is copied to the front of the buffer.
unfoldable pub tick_sv : SvReceiver → List ℕ → Outcome (SvReceiver × List Delivery)
tick_sv self packet = do
  let packet_size =
      (if ltb (length self.buffer) (length packet) then length self.buffer else length packet)
  filled ← memcpy self.buffer packet packet_size
  d ←
      (if ltb 0 packet_size
        then parse_sv_message (record self { buffer = filled }) packet_size
        else ok (filled, []))
  ok (record self { buffer = d.0 }, d.1)
