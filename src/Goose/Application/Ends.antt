-- ===== src/Goose/Application/Ends.antt =====
-- The publishing application in model/goose-publisher-app.cc comes to an end behind its last packet.
use grid_goose_sv.Prelude.{
  ℕ, suc, ◌+◌, ◌^◌, ◌≤◌, ◌<◌, ◌≡◌, refl, sym, ap, ◌∙◌, ◌⊎◌, inl, inr, arith, List, length, Bool,
  true, false, Option, none, some, ok, ok-subst, ◌==◌, if◌then◌else◌,
}
use native.Mathlib.Decide.{dec_lt}
use grid_goose_sv.Simulator.{Scheduler, Doubles}
use grid_goose_sv.Goose.Publisher.{goose_max_message_size}
use grid_goose_sv.Goose.Application.{Handler, Attributes, World, start}
use grid_goose_sv.Goose.Application.Pending.{
  Phase, idle, burst, IsEmpty, Runs, begin, next, Runs-Phase, start-Phase,
}
use grid_goose_sv.Goose.Application.Progress.{fire_exhausted}
use grid_goose_sv.Goose.Application.Run.{IsStarted, started, packets, packets-lt, Runs-HasSent}

module _ (s : Scheduler Handler) (d : Doubles) where
  open s use {Queue, cancel, pending, pending-cancel}

  abbrev is_there : Option Handler → ℕ
  is_there none = 0
  is_there (some h) = 1

  -- The events that the application still has in the queue.
  abbrev waiting : World s d → ℕ
  waiting w =
      is_there (pending w.queue w.app.event_id) + is_there (pending w.queue w.app.goose_event_id)

  is_there_bound : (o : Option Handler) → is_there o ≤ 1
  is_there_bound none = omega arith
  is_there_bound (some h) = omega arith

  known_id :
      (w : World s d) (i : ℕ) (h : Handler)
      → Phase s d w
      → pending w.queue i ≡ some h
      → (i ≡ w.app.event_id) ⊎ (i ≡ w.app.goose_event_id)
  known_id w i h (burst on only) p = inl (only i h p).0
  known_id w i h (idle only) p = elim (only i h p) [
    | inl heartbeat ↦ inl heartbeat.0
    | inr starts ↦ inr starts.1
  ]

  cancel_there :
      (q : Queue) (i j : ℕ)
      → is_there (pending (cancel q i) j) ≡ (if j == i then 0 else is_there (pending q j))
  cancel_there q i j = ap is_there (pending-cancel q i j) ∙ by_test (j == i) (pending q j)
    where
      by_test :
          (b : Bool) (o : Option Handler)
          → is_there (if b then none else o) ≡ (if b then 0 else is_there o)
      by_test true o = refl
      by_test false o = refl

  fewer :
      (w : World s d) (i : ℕ) (h : Handler)
      → Phase s d w
      → pending w.queue i ≡ some h
      → waiting (record w { queue = cancel w.queue i }) < waiting w
  fewer w i h phase p =
      let there : is_there (pending w.queue i) ≡ 1 = rw p in
      elim (known_id w i h phase p) [
        | inl e ↦ ground (
          arith,
          cancel_there w.queue i w.app.event_id,
          cancel_there w.queue i w.app.goose_event_id,
          ap (λ j. is_there (pending w.queue j)) e,
        )
        | inr e ↦ ground (
          arith,
          cancel_there w.queue i w.app.event_id,
          cancel_there w.queue i w.app.goose_event_id,
          ap (λ j. is_there (pending w.queue j)) e,
        )
      ]

  Runs-waiting :
      {first : World s d} {k : ℕ} {w : World s d} (a : Attributes) (n : ℕ)
      → 0 < a.t1
      → n < 2 ^ 64
      → IsStarted s d a first
      → first.app.count ≡ n
      → Phase s d first
      → Runs s d first k w
      → n ≤ k
      → k + waiting w ≤ n + 2
  Runs-waiting {first} a n time small st e phase begin h = omega (
    arith,
    is_there_bound (pending first.queue first.app.event_id),
    is_there_bound (pending first.queue first.app.goose_event_id),
  )
  Runs-waiting a n time small st e phase (next {k} {w} {w'} i g now r fired run) h =
      elim (dec_lt k n) [
        | yes last ↦ omega (
          arith,
          is_there_bound (pending w'.queue w'.app.event_id),
          is_there_bound (pending w'.queue w'.app.goose_event_id),
        )
        | no over ↦
            let sent = Runs-HasSent s d a n time small st e r in
            let empty : w.app.count ≡ 0 = omega (arith, sent.count) in
            let ih = Runs-waiting a n time small st e phase r (omega arith) in
            let less = fewer w i g (Runs-Phase s d phase r) fired in
            ok-subst (λ v. suc k + waiting v ≤ n + 2) (record w { queue = cancel w.queue i }) w'
              (sym (fire_exhausted s d w i g now empty) ∙ run) (omega arith)
      ]

  -- An application with T1 not zero that has been started on a queue without events of its own runs at
  -- most two more events than it has packets to send, in whatever order and whenever they are run.
  pub Runs-le-packets :
      (a : Attributes) (src_addr junk : List ℕ) (now : ℕ) (q : Queue) (first w : World s d) (k : ℕ)
      → length src_addr ≡ 6
      → length junk ≡ goose_max_message_size
      → 0 < a.t1
      → a.max_packets < 2 ^ 64
      → IsEmpty s d q
      → start s d a src_addr junk now q ≡ ok first
      → Runs s d first k w
      → k ≤ packets a + 2
  Runs-le-packets a src_addr junk now q first w k hs hj time small nothing e r =
      elim (dec_lt k (packets a)) [
        | yes before ↦ omega arith
        | no behind ↦
            let st = started s d a src_addr junk now q first hs hj e in
            omega (
              arith,
              Runs-waiting a (packets a) time (packets-lt a small) st st.count
                  (start-Phase s d a src_addr junk now q first nothing e) r (omega arith),
            )
      ]
