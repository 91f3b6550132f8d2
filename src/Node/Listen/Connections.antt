-- ===== src/Node/Listen/Connections.antt =====
-- The count of `waitAllConn` and the events of the connection manager.
use libfabric_benchmark.Base.{ℕ, List, [], ◌∷◌, ◌≡◌}
use libfabric_benchmark.Base.Int.{ℤ, pos, ◌+ℤ◌, ◌≤ℤ◌}
use libfabric_benchmark.Fabric.{Fabric, Call, eq_read, CmEvent}
use libfabric_benchmark.Machine.{Node}
use libfabric_benchmark.Traffic.{IsDocumented}
use libfabric_benchmark.Machine.Ensures.{Ensures}
use libfabric_benchmark.Poll.{sort, Polled, ready, retry, failed}
use libfabric_benchmark.Node.Listen.{count_event}

-- Connections made less connections lost, in all the events that a node has read in its loops.
abbrev count_poll : Polled → CmEvent → ℤ → ℤ
count_poll ready e k = count_event e k
count_poll retry e k = k
count_poll failed e k = k

abbrev count_call : Fabric → List Call → Call → ℤ → ℤ
count_call fabric l eq_read k =
    count_poll (sort (fabric.poll_eq l).status) (fabric.poll_eq l).event k
count_call fabric l _ k = k

abbrev pub connections : Fabric → List Call → ℤ
connections fabric [] = pos 0
connections fabric (c ∷ l) = count_call fabric l c (connections fabric l)

-- The count stands at `k`.
abbrev Counts : Fabric → ℤ → Node → Type 0
Counts fabric k m = connections fabric m.log ≡ k

module _ (fabric : Fabric) (doc : IsDocumented fabric) (fuel : ℕ) (goal base : ℤ) where
  -- The connections since the base.
  abbrev Reaches : ℤ → Node → Type 0
  Reaches ret m = ret ≡ pos 0 → (k : ℤ) × (goal ≤ℤ k) × (connections fabric m.log ≡ base +ℤ k)
