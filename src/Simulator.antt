-- ===== src/Simulator.antt =====
-- What the applications use of ns-3, which is not part of this repository: its event queue, and the
-- floating-point functions of the C++ library.
use grid_goose_sv.Prelude.{List, length, ℕ, ◌≡◌, ◌==◌, if◌then◌else◌, Option, none, some}

-- The queue of `ns3::Simulator`, for events that run a handler of an application. `schedule` is
-- Simulator::Schedule with the delay in nanoseconds, ScheduleNow with the delay 0; it returns the
-- EventId. `cancel` is Simulator::Cancel, and also what happens to an event when it is run: it is no
-- longer in the queue. `pending` is the handler that an event still in the queue will run.
pub record Scheduler (Handler : Type 0) : Type 1 where
  pub Queue : Type 0
  pub schedule : Queue → ℕ → Handler → Queue × ℕ
  pub cancel : Queue → ℕ → Queue
  pub pending : Queue → ℕ → Option Handler
  pub pending-schedule :
      (q : Queue) (delay : ℕ) (h : Handler) (i : ℕ)
      → pending (schedule q delay h).0 i
        ≡ (if i == (schedule q delay h).1 then some h else pending q i)
  pub pending-cancel :
      (q : Queue) (i j : ℕ) → pending (cancel q i) j ≡ (if j == i then none else pending q j)

-- `double`: conversion from an integer, `/`, std::pow, `*` and the conversion to an integer.
pub record Doubles : Type 1 where
  pub Double : Type 0
  pub of_int : ℕ → Double
  pub divide : Double → Double → Double
  pub power : Double → Double → Double
  pub times : Double → Double → Double
  pub to_int : Double → ℕ

-- `float`, beside `double`: conversions, the arithmetic that the applications use, the product of a
-- sine and an amplitude, the constant 2 * pi, and the octets that the machine holds.
pub record Floats (d : Doubles) : Type 1 where
  pub Float : Type 0
  pub of_number : ℕ → Float
  pub of_double : d.Double → Float
  pub two_pi : Float
  pub plus : Float → Float → Float
  pub product : Float → Float → Float
  pub quotient : Float → Float → Float
  pub sine_times : Float → Float → Float
  pub octets : Float → List ℕ
  pub length-octets : (x : Float) → length (octets x) ≡ 4
