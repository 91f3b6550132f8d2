-- ===== src/Endpoint/Connect.antt =====
-- What `Endpoint::connect` leaves behind when it succeeds.
use libfabric_benchmark.Base.{ℕ, List, ◌∷◌, Option, none, some, false, ◌≡◌, refl, ◌⊎◌, inl, inr}
use libfabric_benchmark.Base.Int.{ℤ, pos}
use libfabric_benchmark.Config.{Keys, Transfer, sizeof_keys}
use libfabric_benchmark.Fabric.{
  Fabric, rx, cq_read, Ref, Message, command, key_pair, transfers, other, Call, Completion,
}
use libfabric_benchmark.Machine.{Node, Run, or_return, ◌>>=◌, abort, same_ref}
use libfabric_benchmark.Machine.Ensures.{Ensures}
use libfabric_benchmark.Poll.{sort, ready, wait_comp}
use libfabric_benchmark.Endpoint.{take_keys}

-- A completed receive was just read: its entry, and its message in the buffer of its endpoint.
record IsRead (fabric : Fabric) (e : Completion) (n : Node) : Type 0 where
  before : List Call
  last_read : n.log ≡ cq_read rx ∷ before
  complete : sort (fabric.poll_cq before rx).status ≡ ready
  entry : (fabric.poll_cq before rx).entry ≡ e
  message :
      (r : Ref)
      → ((fabric.poll_cq before rx).payload ≡ none)
        ⊎ (same_ref e.op_context.owner r ≡ false)
        ⊎ ((fabric.poll_cq before rx).payload ≡ some (n.endpoint r).ctrl_buff)

-- The last receive to complete is of a key pair's size, and the last call has freed its context. The
-- keys are what the control buffer holds: those of its message, if it has one for this endpoint.
pub record IsConnected (fabric : Fabric) (r : Ref) (m : Node) : Type 0 where
  pub keys : Keys
  pub received : (m.endpoint r).ctrl_buff ≡ key_pair keys
  pub stored : (m.endpoint r).remote_keys ≡ some keys
  pub running : (m.endpoint r).run ≡ some (pos 1)
  pub before : List Call
  pub last_calls :
      m.log ≡ Call.free (fabric.poll_cq before rx).entry.op_context ∷ cq_read rx ∷ before
  pub complete : sort (fabric.poll_cq before rx).status ≡ ready
  pub whole : (fabric.poll_cq before rx).entry.len ≡ sizeof_keys
  pub message :
      ((fabric.poll_cq before rx).payload ≡ none)
      ⊎ (same_ref (fabric.poll_cq before rx).entry.op_context.owner r ≡ false)
      ⊎ ((fabric.poll_cq before rx).payload ≡ some (key_pair keys))

-- What the buffer can hold.
pub message_cases :
    (m : Message)
    → ((k : Keys) × (m ≡ key_pair k))
      ⊎ ((c : ℤ) × (m ≡ command c))
      ⊎ ((ts : List Transfer) × (m ≡ transfers ts))
      ⊎ ((c : ℤ) × (m ≡ other c))
message_cases (key_pair k) = inl (k, refl)
message_cases (command c) = inr (inl (c, refl))
message_cases (transfers ts) = inr (inr (inl (ts, refl)))
message_cases (other c) = inr (inr (inr (c, refl)))

abbrev Anything : Node → Type 0
Anything m = Unit {0}

-- What a wait that has an entry has just read.
abbrev Arrived : Fabric → Option Completion → Node → Type 0
Arrived fabric none n = Unit {0}
Arrived fabric (some e) n = IsRead fabric e n

module _ (fabric : Fabric) (r : Ref) where
  -- The end of `connect`: the wait for the keys.
  await_keys : ℕ → Run ℤ
  await_keys fuel = wait_comp fabric fuel rx none >>= λ p.
      or_return p.0 (elim p.1 [ none ↦ abort | some e ↦ take_keys fabric r e ])
