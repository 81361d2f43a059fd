-- ===== src/Sv/Application/Run.antt =====
-- Whole runs of the sampling application in model/sv-publisher-app.cc.
use grid_goose_sv.Prelude.{
  ℕ, suc, ◌+◌, ◌-◌, ◌*◌, ◌%◌, ◌^◌, ◌≤◌, ◌<◌, ◌≡◌, sym, ◌∙◌, arith, ◌∷◌, length, none, some, ok,
  ok-subst, subst, ◌==◌, Bool-cases, inl, inr, false,
}
use Prim.Native.Nat.{min}
use native.Mathlib.Nat.{mul-le-mul_right}
use native.Mathlib.Decide.{dec_lt}
use grid_goose_sv.Simulator.{Scheduler, Doubles, Floats}
use grid_goose_sv.Iec61850.Timestamp.{Timestamp}
use grid_goose_sv.Sv.Application.{SvHandler, measure, SvWorld, run_measure, fire_measure}
use grid_goose_sv.Sv.Application.Fill.{AllCounted, AllCounted-all, length-AllFillable}
use grid_goose_sv.Sv.Application.Calls.{
  IsReady, take_sample-IsReady, send_full_last, send_full_before, cancel-empty, schedule-sole,
}

product_suc : (a m : ℕ) → suc a * m ≡ a * m + m
product_suc a m = ground arith

product_mono : (a b m : ℕ) → a ≤ b → a * m ≤ b * m
product_mono a b m h = mul-le-mul_right m h

module _ (s : Scheduler SvHandler) (d : Doubles) (fl : Floats d) where
  open s use {Queue, schedule, cancel, pending}

  -- What `k` measurements make of an application that has `n` packets of `m` ASDUs to send.
  pub record HasMeasured (m n k : ℕ) (w : SvWorld s d fl) : Type 0 where
    pub ready : IsReady s d fl m w
    pub index : w.app.sample_index < m
    pub count : w.app.count + w.app.sent ≡ n
    pub frames : length w.frames ≡ w.app.sent
    pub measured : w.app.sent * m + w.app.sample_index ≡ min k (n * m)
    pub counted : AllCounted w.app.sent w.app.sample_index w.app.publisher.asdu_list
    pub event : k ≤ n * m → pending w.queue w.app.event_id ≡ some measure
    pub only : (i : ℕ) (h : SvHandler) → pending w.queue i ≡ some h → i ≡ w.app.event_id
    pub ended : n * m < k → (i : ℕ) → pending w.queue i ≡ none

  -- A call of the handler behind the last message does nothing.
  run_measure_done :
      (w : SvWorld s d fl) (now : ℕ) (uninit : Timestamp)
      → w.app.count ≡ 0
      → run_measure s d fl w now uninit ≡ ok w
  unfolding run_measure
  run_measure_done w now uninit e = rw e

  fire_done :
      (m n k i : ℕ) (w : SvWorld s d fl) (now : ℕ) (uninit : Timestamp)
      → HasMeasured m n k w
      → w.app.count ≡ 0
      → i ≡ w.app.event_id
      → (w' : SvWorld s d fl) × (fire_measure s d fl w i now uninit ≡ ok w')
        × HasMeasured m n (suc k) w'
  unfolding fire_measure
  fire_done m n k i w now uninit h e id =
      let all_sent : w.app.sent ≡ n = omega (arith, h.count) in
      let total = product_mono n w.app.sent m (omega (arith, all_sent)) in
      let back = product_mono w.app.sent n m (omega (arith, all_sent)) in
      let empty = cancel-empty s d fl w.queue i (λ j g p. h.only j g p ∙ sym id) in
      let behind : n * m ≤ k = omega (arith, h.measured, total, back) in
      (
        record w { queue = cancel w.queue i },
        run_measure_done (record w { queue = cancel w.queue i }) now uninit e,
        record {
          ready = record {
            fillable = h.ready.fillable;
            slots = h.ready.slots;
            per_message = h.ready.per_message;
            packet = h.ready.packet;
          };
          index = h.index;
          count = h.count;
          frames = h.frames;
          measured = omega (arith, h.measured, total, back);
          counted = h.counted;
          event = λ more. absurd (omega (arith, behind));
          only = λ j g p. let gone = empty j in cc;
          ended = λ more. empty;
        },
      )

  -- The end of the handler: the next measurement is scheduled.
  abbrev again : SvWorld s d fl → SvWorld s d fl
  again w =
      let (queue, event_id) = schedule w.queue w.app.interval measure in
      record w { app = record w.app { event_id = event_id }; queue = queue }

  -- The counters behind one more sample.
  fire_more :
      (m n k i : ℕ) (w : SvWorld s d fl) (now : ℕ) (uninit : Timestamp)
      → m ≤ 8
      → n < 2 ^ 64
      → HasMeasured m n k w
      → 0 < w.app.count
      → i ≡ w.app.event_id
      → (w' : SvWorld s d fl) × (fire_measure s d fl w i now uninit ≡ ok w')
        × HasMeasured m n (suc k) w'
  unfolding fire_measure run_measure
  fire_more m n k i w now uninit small bound h left id =
      let cancelled : SvWorld s d fl = record w { queue = cancel w.queue i } in
      let (p, (taken, r1, count)) =
        take_sample-IsReady s d fl m cancelled now uninit small h.index (record {
          fillable = h.ready.fillable;
          slots = h.ready.slots;
          per_message = h.ready.per_message;
          packet = h.ready.packet;
        }) in
      let sampled : SvWorld s d fl = record cancelled {
        app = record w.app { publisher = p; sample_index = w.app.sample_index + 1 };
      } in
      let (event, only) =
        schedule-sole s d fl (cancel w.queue i) w.app.interval
          (cancel-empty s d fl w.queue i (λ j g p. h.only j g p ∙ sym id)) in
      let some_left : (w.app.count == 0) ≡ false = ground arith in
      let room = product_mono (suc w.app.sent) n m (omega (arith, h.count)) in
      let one_more = product_suc w.app.sent m in
      let now_measured : w.app.sent * m + w.app.sample_index ≡ k =
        omega (arith, h.measured, room, one_more, h.index) in
      elim (dec_lt (w.app.sample_index + 1) m) [
        | yes before ↦
            let kept = send_full_before s d fl m sampled r1 before in
            (
              again sampled,
              rw (some_left, taken, kept),
              record {
                ready = record {
                  fillable = r1.fillable;
                  slots = r1.slots;
                  per_message = r1.per_message;
                  packet = r1.packet;
                };
                index = before;
                count = h.count;
                frames = h.frames;
                measured = omega (arith, now_measured, room, one_more);
                counted =
                    subst (λ j. AllCounted w.app.sent j p.asdu_list) (omega arith)
                      (count w.app.sent h.counted);
                event = λ more. event;
                only = only;
                ended = λ more. absurd (omega (arith, now_measured, room, one_more, h.index));
              },
            )
        | no last ↦
            let full : w.app.sample_index + 1 ≡ m = omega (arith, h.index) in
            let (frame, (sent, r2)) = send_full_last s d fl m sampled r1 full in
            let wrap : (w.app.sent + 1) % 2 ^ 64 ≡ w.app.sent + 1 = omega (arith, h.count) in
            (
              again (record sampled {
                app = record sampled.app {
                  sample_index = 0;
                  count = w.app.count - 1;
                  sent = (w.app.sent + 1) % 2 ^ 64;
                };
                frames = frame ∷ w.frames;
              }),
              rw (some_left, taken, sent),
              record {
                ready = record {
                  fillable = r2.fillable;
                  slots = r2.slots;
                  per_message = r2.per_message;
                  packet = r2.packet;
                };
                index = omega (arith, h.index);
                count = omega (arith, wrap, h.count);
                frames = omega (arith, wrap, h.frames);
                measured =
                    rw wrap
                      (omega (arith, now_measured, room, one_more, full, product_suc w.app.sent m));
                counted = rw wrap (
                    AllCounted-all w.app.sent (suc w.app.sample_index) p.asdu_list
                      (omega (arith, full, r1.slots, length-AllFillable r1.fillable))
                      (count w.app.sent h.counted));
                event = λ more. event;
                only = only;
                ended = λ more. absurd (omega (arith, now_measured, room, one_more, h.index));
              },
            )
      ]

  -- A run of the application: `k` events that were in the queue, one after the other, at any times.
  pub data SvRuns (first : SvWorld s d fl) : ℕ → SvWorld s d fl → Type 0 where
    begin : SvRuns first 0 first
    next :
        {k : ℕ} {w w' : SvWorld s d fl} (i : ℕ) (now : ℕ) (uninit : Timestamp)
        → SvRuns first k w
        → pending w.queue i ≡ some measure
        → fire_measure s d fl w i now uninit ≡ ok w'
        → SvRuns first (suc k) w'

  pub fire-HasMeasured :
      (m n k i : ℕ) (w : SvWorld s d fl) (now : ℕ) (uninit : Timestamp)
      → m ≤ 8
      → n < 2 ^ 64
      → HasMeasured m n k w
      → pending w.queue i ≡ some measure
      → (w' : SvWorld s d fl) × (fire_measure s d fl w i now uninit ≡ ok w')
        × HasMeasured m n (suc k) w'
  fire-HasMeasured m n k i w now uninit small bound h p = elim (Bool-cases (w.app.count == 0)) [
    | inl done ↦ fire_done m n k i w now uninit h (ground arith) (h.only i measure p)
    | inr more ↦ fire_more m n k i w now uninit small bound h (ground arith) (h.only i measure p)
  ]

  pub SvRuns-HasMeasured :
      {first w : SvWorld s d fl} {k : ℕ} (m n : ℕ)
      → m ≤ 8
      → n < 2 ^ 64
      → HasMeasured m n 0 first
      → SvRuns first k w
      → HasMeasured m n k w
  SvRuns-HasMeasured m n small bound h begin = h
  SvRuns-HasMeasured m n small bound h (next {k} {w} {w'} i now uninit r p e) =
      let (v, run, kept) =
        fire-HasMeasured m n k i w now uninit small bound (SvRuns-HasMeasured m n small bound h r)
          p in
      ok-subst (HasMeasured m n (suc k)) v w' (sym run ∙ e) kept

  -- There is an event for each measurement, and one more, which does nothing.
  pub SvRuns-le :
      {first w : SvWorld s d fl} {k : ℕ} (m n : ℕ)
      → m ≤ 8
      → n < 2 ^ 64
      → HasMeasured m n 0 first
      → SvRuns first k w
      → k ≤ n * m + 1
  SvRuns-le m n small bound h begin = omega arith
  SvRuns-le m n small bound h (next {k} {w} {w'} i now uninit r p e) = elim (dec_lt (n * m) k) [
    | no before ↦ omega arith
    | yes over ↦ let gone = (SvRuns-HasMeasured m n small bound h r).ended over i in cc
  ]
