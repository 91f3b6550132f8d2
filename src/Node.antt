-- ===== src/Node.antt =====
-- CBM_Benchmark/Node.cpp: what its functions share. The children hold its functions: `Init`, `Listen`
-- (connection set-up), `Client`, `Controller` and `Benchmark`, and the proofs about them.
pub mod Init
pub mod Listen
pub mod Client
pub mod Controller
pub mod Destroy
use libfabric_benchmark.Base.{
  ℕ, zero, suc, ◌+◌, ◌*◌, ◌%◌, ◌^◌, List, Option, none, some, Bool, true, false, not, ◌==◌, ltb,
  if◌then◌else◌,
}
use libfabric_benchmark.Base.Int.{ℤ, pos, negsuc, is_nonzero, pos_part, to_size_t, ◌==ℤ◌}
use libfabric_benchmark.Config.{Config, Ctx, sizeof_transfer}
use libfabric_benchmark.Fabric.{Fabric, Queue, Context, Completion}
use libfabric_benchmark.Machine.{
  Node, Outcome, done, fault, spin, Run, pure, abort, and_then, ◌>>=◌, ◌>>◌, get, eps, deref,
}
use libfabric_benchmark.Poll.{wait_comp}

-- `if (mode != m) return -1;`
unfoldable pub in_mode : ℤ → Run ℤ → Run ℤ
in_mode m body n = if n.mode ==ℤ m then body n else done (negsuc 0) n

-- The bound of `for (int n = 0; n < num; n++)`.
abbrev pub rounds : ℤ → ℕ
rounds = pos_part

-- `sizeof(struct transfer) * config->num_pn`, a `size_t`.
abbrev pub row_bytes : Config → ℕ
row_bytes c = (sizeof_transfer * to_size_t c.num_pn) % 2 ^ 64

module _ (fabric : Fabric) (fuel : ℕ) (q : Queue) where
  -- `while (counter < num) { ret = waitComp(cq, msg_entry); if (ret) return ret; counter++; }`
  unfoldable pub await_all : ℕ → Option Completion → Run (ℤ × Option Completion)
  await_all zero entry = pure (pos 0, entry)
  await_all (suc left) entry =
      wait_comp fabric fuel q entry >>= λ p. if is_nonzero p.0 then pure p else await_all left p.1
