-- ===== src/Main/Warning.antt =====
-- The warning of `main` and the client's control buffer.
use libfabric_benchmark.Base.{
  List, Option, ◌≡◌, refl, Bool, true, false, ltb, leb, ℕ, ◌⊎◌, inl, inr, Bool-cases, arith,
}
use libfabric_benchmark.Base.Int.{ℤ}
use libfabric_benchmark.Config.{Bytes, sizeof_int}
use libfabric_benchmark.Clock.{Timespec}
use libfabric_benchmark.Fabric.{Fabric, Call, Completion}
use libfabric_benchmark.Machine.{Node, done, fault}
use libfabric_benchmark.Node.{row_bytes}
use libfabric_benchmark.Node.Client.Benchmark.{Tally, on_command}
use libfabric_benchmark.Node.Client.Benchmark.Overflow.{on_command-over, on_command-fits}
use libfabric_benchmark.Main.{warns, main}

over : (a b : ℕ) → ltb b a ≡ true → leb a b ≡ false
over a b h = ground arith

fits : (a b : ℕ) → ltb b a ≡ false → leb a b ≡ true
fits a b h = ground arith

-- The warning of main about the control buffer is right: whatever the configuration, if main has
-- warned, then a client goes wrong at each command of 4 bytes that it receives, and if main has
-- not, then its answer returns.
pub main-on_command :
    (fabric : Fabric) (now : List Call → Option Timespec) (hinted unhinted : ℤ) (argv : List Bytes)
    (e : Completion) (s : Tally) (n : Node)
    → e.len ≡ sizeof_int
    → (((main hinted unhinted argv n.config).0 ≡ true) × (on_command fabric now e s n ≡ fault))
      ⊎ (((main hinted unhinted argv n.config).0 ≡ false)
          × (r : ℤ × Bool × Tally) × (m : Node) × (on_command fabric now e s n ≡ done r m))
unfolding main
main-on_command fabric now hinted unhinted argv e s n size = elim (Bool-cases (warns n.config)) [
  | inl warned ↦ inl (
    warned,
    on_command-over fabric now n.config (over (row_bytes n.config) n.config.ctrl_size warned) e s n
        refl size,
  )
  | inr silent ↦
      let (r, m, returned) =
        on_command-fits fabric now n.config (fits (row_bytes n.config) n.config.ctrl_size silent) e
          s n refl size in
      inr (silent, r, m, returned)
]
