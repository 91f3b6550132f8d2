-- ===== src/Clock.antt =====
-- CBM_Benchmark/Clock.cpp on Linux. A `double` of seconds is held as a whole number of nanoseconds,
-- which is exact: rounding of the floating-point sum is not modelled.
use libfabric_benchmark.Base.{ℕ, ◌+◌, ◌*◌, ◌≡◌, Option, none, some, arith, if◌then◌else◌}
use libfabric_benchmark.Base.Int.{
  ℤ, pos, negsuc, pos_part, neg_part, is_positive, ◌+ℤ◌, ◌-ℤ◌, +ℤ_parts, -ℤ_parts, eq_of_parts,
}

abbrev pub billion : ℕ
billion = 1000000000

-- `struct timespec`
pub record Timespec : Type 0 where
  pub tv_sec : ℤ
  pub tv_nsec : ℤ

pub record Clock : Type 0 where
  pub start : Timespec
  pub stop : Timespec

-- `Clock::Clock`
abbrev pub new_clock : Clock
new_clock = record {
  start = record { tv_sec = pos 0; tv_nsec = pos 0 };
  stop = record { tv_sec = pos 0; tv_nsec = pos 0 };
}

-- `Clock::start` and `Clock::stop`. The answer of `clock_gettime` is `none` if it fails.
unfoldable pub start : Option Timespec → Clock → ℤ × Clock
start none c = (negsuc 0, c)
start (some t) c = (pos 0, record c { start = t })

unfoldable pub stop : Option Timespec → Clock → ℤ × Clock
stop none c = (negsuc 0, c)
stop (some t) c = (pos 0, record c { stop = t })

-- a * 10^9
abbrev pub nanos : ℤ → ℤ
nanos (pos n) = pos (n * billion)
nanos (negsuc n) = negsuc (n * billion + 999999999)

-- -1 second
abbrev pub minus_one : ℤ
minus_one = nanos (negsuc 0)

-- `Clock::getDelta`: -1 if no time has passed.
unfoldable pub get_delta : Clock → ℤ
unfolding ◌+ℤ◌ ◌-ℤ◌
get_delta c =
    let accum = nanos (c.stop.tv_sec -ℤ c.start.tv_sec) +ℤ (c.stop.tv_nsec -ℤ c.start.tv_nsec) in
    if is_positive accum then accum else minus_one

-- The instant of a time, in nanoseconds.
abbrev pub instant : Timespec → ℤ
instant t = nanos t.tv_sec +ℤ t.tv_nsec

nanos_parts :
    (a : ℤ)
    → (pos_part (nanos a) ≡ pos_part a * billion) × (neg_part (nanos a) ≡ neg_part a * billion)
nanos_parts (pos n) = (omega arith, omega arith)
nanos_parts (negsuc n) = (omega arith, omega arith)

delta_exact :
    (s t : Timespec)
    → nanos (t.tv_sec -ℤ s.tv_sec) +ℤ (t.tv_nsec -ℤ s.tv_nsec) ≡ instant t -ℤ instant s
delta_exact s t = eq_of_parts _ _ (
    omega (
      arith,
      nanos_parts (t.tv_sec -ℤ s.tv_sec),
      nanos_parts t.tv_sec,
      nanos_parts s.tv_sec,
      +ℤ_parts,
      -ℤ_parts,
    ))

-- After a successful start at one time and a successful stop at another, getDelta is the
-- difference of the two instants if the second is later, whatever the nanosecond fields carry
-- over, and -1 second if it is not.
pub get_delta-stop-start :
    (s t : Timespec) (c : Clock)
    → get_delta (stop (some t) (start (some s) c).1).1
      ≡ (if is_positive (instant t -ℤ instant s) then instant t -ℤ instant s else minus_one)
unfolding get_delta start stop
get_delta-stop-start s t c = rw (delta_exact s t)
