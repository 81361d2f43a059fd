-- ===== src/Sv/Application/Calls.antt =====
-- model/sv-publisher-app.cc: the parts of the handler that measures, and the queue with its event.
use grid_goose_sv.Prelude.{
  ℕ, zero, suc, ◌+◌, ◌-◌, ◌%◌, ◌^◌, ◌≤◌, ◌<◌, ◌≡◌, refl, ◌∙◌, arith, List, [], ◌∷◌, length, All,
  none, some, ok, get_elem?, ◌==◌, Bool-cases, Option-cases, inl, inr, true, false,
}
use grid_goose_sv.Simulator.{Scheduler, Doubles, Floats}
use grid_goose_sv.Iec61850.Timestamp.{Timestamp, clear_flags, set_time_in_nanoseconds}
use grid_goose_sv.Ber.Decoder.{read_bytes}
use grid_goose_sv.Goose.Publisher.{send_packet}
use grid_goose_sv.Sv.Publisher.{SvPublisher, publish_sv}
use grid_goose_sv.Sv.Application.{
  SvHandler, measure, SvWorld, update_values, value_octets, send_sv, take_sample, send_full,
}
use grid_goose_sv.Sv.Application.Fill.{AllFillable, AllCounted, at_asdu-AllFillable}

get_inside : (xs : List ℕ) (i : ℕ) → i < length xs → (x : ℕ) × (get_elem? xs i ≡ some x)
get_inside [] i h = absurd (omega arith)
get_inside (x ∷ xs) zero h = (x, refl)
get_inside (x ∷ xs) (suc i) h = get_inside xs i (omega arith)

read_bytes-returns :
    (n : ℕ) (buffer : List ℕ) (i : ℕ)
    → i + n ≤ length buffer
    → (out : List ℕ) × (read_bytes n buffer i ≡ ok out)
unfolding read_bytes
read_bytes-returns zero buffer i h = ([], refl)
read_bytes-returns (suc n) buffer i h =
    let (b, found) = get_inside buffer i (omega arith) in
    let (out, run) = read_bytes-returns n buffer (i + 1) (omega arith) in (b ∷ out, rw (found, run))

-- The packet of the publisher stands inside its buffer.
pub record HasPacket (p : SvPublisher) : Type 0 where
  pub header : 14 ≤ p.payload_start + p.payload_length
  pub fits : p.payload_start + p.payload_length ≤ length p.buffer

publish_sv-returns : (p : SvPublisher) → HasPacket p → (out : List ℕ) × (publish_sv p ≡ ok out)
unfolding publish_sv send_packet
publish_sv-returns p h =
    read_bytes-returns (p.payload_start + p.payload_length - 14) p.buffer 14
      (omega (arith, h.header, h.fits))

module _ (s : Scheduler SvHandler) (d : Doubles) (fl : Floats d) where
  open s use {Queue, schedule, cancel, pending, pending-schedule, pending-cancel}

  -- A world whose publisher has `m` ASDUs that can be filled, and a packet.
  pub record IsReady (m : ℕ) (w : SvWorld s d fl) : Type 0 where
    pub fillable : AllFillable (length w.app.publisher.buffer) w.app.slots w.app.publisher.asdu_list
    pub slots : length w.app.slots ≡ m
    pub per_message : w.app.attributes.samples_per_message ≡ m
    pub packet : HasPacket w.app.publisher

  octets_long : (vs : List fl.Float) → All (λ v. length v ≡ 4) (value_octets s d fl vs)
  octets_long [] = tt
  octets_long (v ∷ vs) = (fl.length-octets v, octets_long vs)

  -- Taking a sample changes the publisher and moves the index on.
  pub take_sample-IsReady :
      (m : ℕ) (w : SvWorld s d fl) (now : ℕ) (uninit : Timestamp)
      → m ≤ 8
      → w.app.sample_index < m
      → IsReady m w
      → (p : SvPublisher) × (let w' : SvWorld s d fl = record w {
        app = record w.app { publisher = p; sample_index = w.app.sample_index + 1 };
      } in
          (take_sample s d fl w now uninit ≡ ok w')
          × IsReady m w'
          × ((sent : ℕ)
              → AllCounted sent w.app.sample_index w.app.publisher.asdu_list
              → AllCounted sent (suc w.app.sample_index) p.asdu_list))
  unfolding take_sample
  take_sample-IsReady m w now uninit small less r =
      let j = w.app.sample_index in
      let p = w.app.publisher in
      let ts = set_time_in_nanoseconds (clear_flags uninit) now in
      let values = value_octets s d fl (update_values s d fl w.app.attributes now) in
      let (slot, asdus, buffer, found, run, same, fillable, count) =
        at_asdu-AllFillable (length p.buffer) j w.app.slots p.asdu_list values ts p.buffer
          r.fillable (octets_long _) refl (omega (arith, r.slots)) in
      let wrap : (j + 1) % 256 ≡ j + 1 = omega arith in
      (
        record p { buffer = buffer; asdu_list = asdus },
        (
          rw (found, run, wrap),
          record {
            fillable = rw same fillable;
            slots = r.slots;
            per_message = r.per_message;
            packet = record { header = r.packet.header; fits = omega (arith, same, r.packet.fits) };
          },
          count,
        ),
      )

  -- Behind the last sample the message is sent.
  pub send_full_last :
      (m : ℕ) (w : SvWorld s d fl)
      → IsReady m w
      → w.app.sample_index ≡ m
      → (frame : List ℕ) × (let w' : SvWorld s d fl = record w {
        app = record w.app {
          sample_index = 0;
          count = w.app.count - 1;
          sent = (w.app.sent + 1) % 2 ^ 64;
        };
        frames = frame ∷ w.frames;
      } in
          (send_full s d fl w ≡ ok w') × IsReady m w')
  unfolding send_full send_sv
  send_full_last m w r e =
      let (frame, run) = publish_sv-returns w.app.publisher r.packet in
      let full : (w.app.sample_index == w.app.attributes.samples_per_message) ≡ true =
        ground (arith, r.per_message) in
      (
        frame,
        (
          rw (full, run),
          record {
            fillable = r.fillable;
            slots = r.slots;
            per_message = r.per_message;
            packet = r.packet;
          },
        ),
      )

  pub send_full_before :
      (m : ℕ) (w : SvWorld s d fl)
      → IsReady m w
      → w.app.sample_index < m
      → send_full s d fl w ≡ ok w
  unfolding send_full
  send_full_before m w r less =
      let full : (w.app.sample_index == w.app.attributes.samples_per_message) ≡ false =
        ground (arith, r.per_message) in
      rw full

  -- The application's only event is no longer in the queue.
  pub cancel-empty :
      (q : Queue) (i : ℕ)
      → ((j : ℕ) (h : SvHandler) → pending q j ≡ some h → j ≡ i)
      → (j : ℕ) → pending (cancel q i) j ≡ none
  cancel-empty q i only j = pending-cancel q i j ∙ elim (Option-cases (pending q j)) [
    | inl gone ↦ ground (arith, gone)
    | inr left ↦ let same : j ≡ i = only j left.0 left.1 in ground (arith, same)
  ]

  -- It is replaced by the next one.
  pub schedule-sole :
      (q : Queue) (delay : ℕ)
      → ((j : ℕ) → pending q j ≡ none)
      → let (next_queue, id) = schedule q delay measure in
        (pending next_queue id ≡ some measure)
        × ((j : ℕ) (h : SvHandler) → pending next_queue j ≡ some h → j ≡ id)
  schedule-sole q delay empty =
      let (next_queue, id) = schedule q delay measure in
      (
        ground (arith, pending-schedule q delay measure id),
        λ j h p. elim (Bool-cases (j == id)) [
          | inl same ↦ ground arith
          | inr other ↦ ground (arith, pending-schedule q delay measure j, empty j, p)
        ],
      )
