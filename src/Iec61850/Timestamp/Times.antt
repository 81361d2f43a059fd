-- ===== src/Iec61850/Timestamp/Times.antt =====
-- The times of a time stamp of iec61850/common/iec61850_common.cc, set and read.
use grid_goose_sv.Prelude.{ℕ, ◌+◌, ◌*◌, ◌^◌, ◌≤◌, ◌<◌, ◌≡◌, refl, arith}
use grid_goose_sv.Iec61850.Timestamp.{
  Timestamp, set_time_in_seconds, set_time_in_milliseconds, set_time_in_nanoseconds,
  get_time_in_seconds, get_time_in_ms, get_time_in_ns,
}

-- While the seconds fit 32 bits, a time in seconds or milliseconds is read back exactly, and a time in
-- nanoseconds is read as at most 60 nanoseconds earlier and never later; the quality stays.
pub get-set_time :
    (self : Timestamp) (s ms ns : ℕ)
    → s < 2 ^ 32
    → ms < 2 ^ 32 * 1000
    → ns < 2 ^ 32 * 1000000000
    → (get_time_in_seconds (set_time_in_seconds self s) ≡ s)
      × (get_time_in_ms (set_time_in_milliseconds self ms) ≡ ms)
      × (get_time_in_ns (set_time_in_nanoseconds self ns) ≤ ns)
      × (ns ≤ get_time_in_ns (set_time_in_nanoseconds self ns) + 60)
      × ((set_time_in_seconds self s).octet_7 ≡ self.octet_7)
      × ((set_time_in_milliseconds self ms).octet_7 ≡ self.octet_7)
      × ((set_time_in_nanoseconds self ns).octet_7 ≡ self.octet_7)
unfolding set_time_in_seconds set_time_in_milliseconds set_time_in_nanoseconds get_time_in_seconds
    get_time_in_ms get_time_in_ns
get-set_time self s ms ns hs hm hn =
    (omega arith, omega arith, omega arith, omega arith, refl, refl, refl)
