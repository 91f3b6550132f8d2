-- ===== src/Node/Controller/Cooperation.antt =====
-- Clients that answer each command of the controller.
pub mod Standing
pub mod Waits
use libfabric_benchmark.Base.{[], ℕ, zero, suc, ◌<◌, List, ◌∷◌, some, ◌≡◌, length}
use libfabric_benchmark.Base.Int.{ℤ, negsuc}
use libfabric_benchmark.Config.{
  Config, Transfer, sizeof_int, bm_connect, bm_connected, bm_checkpoint, bm_stop,
}
use libfabric_benchmark.Fabric.{
  Fabric, rx, peer, rx_role, Message, command, transfers, Call, send, eq_read, shutdown, Completion,
}
use libfabric_benchmark.Poll.{sort, ready, retry}
use libfabric_benchmark.Node.{rounds, row_bytes}

-- The latest command that a node has sent, and -1 before the first.
abbrev pub last_command : List Call → ℤ
last_command [] = negsuc 0
last_command (send r size (command c) ∷ l) = c
last_command (_ ∷ l) = last_command l

-- The entry of a receive at the endpoint `i`.
abbrev pub entry_at : ℕ → ℕ → Completion
entry_at len i = record { len = len; op_context = record { owner = peer i; role = rx_role } }

-- A receive that completes after these calls has such a message of this length for a client.
abbrev pub Receives : Fabric → ℕ → ℕ → (Message → Type 0) → List Call → Type 0
Receives fabric num len P l =
    sort (fabric.poll_cq l rx).status ≡ ready
    → (i : ℕ) × (w : Message) × (i < num)
      × P w
      × ((fabric.poll_cq l rx).payload ≡ some w)
      × ((fabric.poll_cq l rx).entry ≡ entry_at len i)

abbrev pub IsWord : ℤ → Message → Type 0
IsWord c w = w ≡ command c

abbrev pub IsRow : ℕ → Message → Type 0
IsRow num w = (ts : List Transfer) × (w ≡ transfers ts) × (length ts ≡ num)

-- The commands that a client answers with a row.
pub data Reports : ℤ → Type 0 where
  at_checkpoint : Reports bm_checkpoint
  at_stop : Reports bm_stop

-- The log after `k` polls of the event queue.
abbrev pub events_after : ℕ → List Call → List Call
events_after zero l = l
events_after (suc k) l = events_after k (eq_read ∷ l)

-- Each of the first `k` polls of the event queue is told to try again.
abbrev pub NoEvents : Fabric → ℕ → List Call → Type 0
NoEvents fabric zero l = Unit {0}
NoEvents fabric (suc k) l =
    (sort (fabric.poll_eq l).status ≡ retry) × NoEvents fabric k (eq_read ∷ l)

-- The clients confirm the command connect, they send a row for a checkpoint and for the stop, and
-- after the stop the event queue has a disconnection within a bound of polls.
pub record Cooperates (fabric : Fabric) (bound num : ℕ) (c : Config) : Type 0 where
  pub confirms :
      (l : List Call)
      → last_command l ≡ bm_connect
      → Receives fabric num sizeof_int (IsWord bm_connected) l
  pub sends_rows :
      (cmd : ℤ) (l : List Call)
      → Reports cmd
      → last_command l ≡ cmd
      → Receives fabric num (row_bytes c) (IsRow (rounds c.num_pn)) l
  pub disconnects :
      (l : List Call)
      → last_command l ≡ bm_stop
      → (k : ℕ) × (k < bound)
        × NoEvents fabric k l
        × (sort (fabric.poll_eq (events_after k l)).status ≡ ready)
        × ((fabric.poll_eq (events_after k l)).event ≡ shutdown)
