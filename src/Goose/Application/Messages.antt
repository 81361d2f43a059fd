-- ===== src/Goose/Application/Messages.antt =====
-- The messages of the publishing application in model/goose-publisher-app.cc.
use grid_goose_sv.Prelude.{
  ℕ, ◌-◌, ◌≤◌, ◌<◌, ◌≡◌, refl, arith, List, ◌++◌, length, drop, false, Option, none, some, ok, ltb,
  length-append, length-take,
}
use grid_goose_sv.Ber.Length.{length_octets}
use grid_goose_sv.Ber.Encoder.Integers.{length-uint32_octets}
use grid_goose_sv.Ber.Encoder.Strings.{characters}
use grid_goose_sv.Ber.Bytes.{le_bytes}
use grid_goose_sv.Mms.Value.{MmsValue}
use grid_goose_sv.Mms.UtcTime.{new_utc_time_by_ms_time, set_utc_time_ms}
use grid_goose_sv.Goose.Publisher.{
  GoosePublisher, u32, goose_max_message_size, increase_st_num, publish, go_id_or_cb_ref,
}
use grid_goose_sv.Goose.Publisher.Payload.{
  EntriesWellSized, IsPublishable, data_set_octets, pdu_fields, goose_pdu,
}
use grid_goose_sv.Goose.Publisher.Publish.{
  HasFrame, header_with_length, published, publish-published, publish-HasFrame,
}
use grid_goose_sv.Goose.Application.{go_cb_ref_text, data_set_ref_text}

-- A publisher and a data set as the application has them between two handlers.
pub record IsConfigured (p : GoosePublisher) (ds : List (Option MmsValue)) : Type 0 where
  pub frame : HasFrame p
  pub cb_ref : p.go_cb_ref ≡ some go_cb_ref_text
  pub set_ref : p.data_set_ref ≡ some data_set_ref_text
  pub id : p.go_id ≡ none
  pub time : 8 ≤ length p.timestamp
  pub entries : EntriesWellSized ds
  pub small : length (data_set_octets ds) ≤ 100

length_octets_bound : (n : ℕ) → n < 1000 → length (length_octets n) ≤ 3
unfolding length_octets
length_octets_bound n h = ground arith

-- The fields are short, so that the PDU always fits the frame.
fields_bound :
    (p : GoosePublisher) (ds : List (Option MmsValue))
    → IsConfigured p ds
    → (length (characters p.go_cb_ref) ≡ 41)
      × (length (characters p.data_set_ref) ≡ 35)
      × (length (characters (go_id_or_cb_ref p)) ≡ 41)
      × (length (pdu_fields p ds) ≤ 400)
unfolding pdu_fields go_id_or_cb_ref
fields_bound p ds c =
    rw (c.cb_ref, c.set_ref, c.id)
      (
        refl,
        refl,
        refl,
        simp length-append (
            omega (
              arith,
              length_octets_bound 41,
              length_octets_bound 35,
              length_octets_bound 8,
              length_octets_bound (length (data_set_octets ds)),
              length-take 8 p.timestamp,
              length-uint32_octets p.time_allowed_to_live,
              length-uint32_octets p.st_num,
              length-uint32_octets p.sq_num,
              length-uint32_octets p.conf_rev,
              length-uint32_octets (u32 (length ds)),
              c.small,
            )),
      )

-- The PDU is shorter than the space in the frame.
pdu_bound :
    (p : GoosePublisher) (ds : List (Option MmsValue))
    → IsConfigured p ds
    → length (goose_pdu p ds) ≤ 404
unfolding goose_pdu
pdu_bound p ds c =
    let (a, b, c', bound) = fields_bound p ds c in
    omega (
      arith,
      length_octets_bound (length (pdu_fields p ds)),
      length-append (length_octets (length (pdu_fields p ds))) (pdu_fields p ds),
    )

IsConfigured-IsPublishable :
    (p : GoosePublisher) (ds : List (Option MmsValue)) → IsConfigured p ds → IsPublishable p ds
IsConfigured-IsPublishable p ds c =
    let (a, b, c', bound) = fields_bound p ds c in
    let whole = pdu_bound p ds c in
    record {
      entries = c.entries;
      time = c.time;
      cb_ref = λ e. omega arith;
      set_ref = λ e. omega arith;
      id = λ e. omega arith;
      contents = λ e. omega (arith, c.small);
      total = λ e. omega arith;
      countable = omega arith;
    }

pub increase_st_num-IsConfigured :
    (p : GoosePublisher) (ds : List (Option MmsValue)) (now : ℕ)
    → IsConfigured p ds
    → IsConfigured (increase_st_num p now) ds
unfolding increase_st_num new_utc_time_by_ms_time set_utc_time_ms le_bytes
increase_st_num-IsConfigured p ds now c = record {
  frame = record {
    allocated = c.frame.allocated;
    field_at = c.frame.field_at;
    header_long = c.frame.header_long;
    header_short = c.frame.header_short;
  };
  cb_ref = c.cb_ref;
  set_ref = c.set_ref;
  id = c.id;
  time = omega arith;
  entries = c.entries;
  small = c.small;
}

-- The packet of a message: the frame from octet 14 on with the length filled in, and the PDU.
abbrev pub packet_of : GoosePublisher → List (Option MmsValue) → List ℕ
packet_of p ds = drop 14 (header_with_length p (length (goose_pdu p ds))) ++ goose_pdu p ds

-- Publishing sends the packet, and leaves the publisher configured.
pub publish-packet_of :
    (p : GoosePublisher) (ds : List (Option MmsValue))
    → IsConfigured p ds
    → (publish p ds ≡ ok (published p (goose_pdu p ds), some (packet_of p ds)))
      × IsConfigured (published p (goose_pdu p ds)) ds
unfolding published
publish-packet_of p ds c =
    let bound = pdu_bound p ds c in
    let able = IsConfigured-IsPublishable p ds c in
    let fits : ltb (goose_max_message_size - p.payload_start) (length (goose_pdu p ds)) ≡ false =
      ground (arith, c.frame.header_short) in
    let run = publish-published p ds c.frame able in
    (
      rw fits at run,
      record {
        frame = rw fits at (rw run at (publish-HasFrame p ds c.frame able));
        cb_ref = c.cb_ref;
        set_ref = c.set_ref;
        id = c.id;
        time = c.time;
        entries = c.entries;
        small = c.small;
      },
    )
