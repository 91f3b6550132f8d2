-- ===== src/Poll.antt =====
-- The polling functions of CBM_Benchmark/Node.cpp: `checkComp`, `waitComp`, `checkCmEvent` and
-- `waitCmEvent`, and `Endpoint::waitComp` of CBM_Benchmark/Endpoint.cpp. The two that wait loop until
-- the library has an answer: they take fuel, one unit for each poll.
pub mod Answers
use libfabric_benchmark.Base.{
  ℕ, zero, suc, ◌≡◌, refl, ◌⊎◌, inl, inr, Option, none, some, Bool, true, false, if◌then◌else◌,
}
use libfabric_benchmark.Base.Int.{ℤ, pos, negsuc, is_positive, ◌==ℤ◌}
use libfabric_benchmark.Fabric.{
  Fabric, Queue, Message, Call, cq_read, cq_readerr, eq_read, eq_readerr, Completion, CqReply,
  CmEvent, invalid, EqReply,
}
use libfabric_benchmark.Machine.{
  Node, Outcome, done, fault, spin, Run, pure, and_then, ◌>>=◌, ◌>>◌, update, note,
}

-- -FI_EAGAIN
abbrev pub again : ℤ
again = negsuc 10

-- How the code sorts the status of a poll: `ret > 0`, `ret == -FI_EAGAIN`, and the rest.
pub data Polled : Type 0 where
  ready retry failed : Polled

abbrev pub sort : ℤ → Polled
sort s = if is_positive s then ready else if s ==ℤ again then retry else failed

pub sort_cases : (s : ℤ) → (sort s ≡ ready) ⊎ (sort s ≡ retry) ⊎ (sort s ≡ failed)
sort_cases s = go (sort s)
  where
    go : (p : Polled) → (p ≡ ready) ⊎ (p ≡ retry) ⊎ (p ≡ failed)
    go ready = inl refl
    go retry = inr (inl refl)
    go failed = inr (inr refl)

-- A receive that is complete has left its message in the buffer of its endpoint.
abbrev pub deliver : CqReply → Node → Node
deliver r n = elim (sort r.status) [
  | ready ↦ elim r.payload [
    | none ↦ n
    | some m ↦ update r.entry.op_context.owner (λ e. record e { ctrl_buff = m }) n
  ]
  | retry ↦ n
  | failed ↦ n
]

-- What a poll of a completion queue writes through its `entry` argument: nothing without a completion.
abbrev pub entry_of : CqReply → Option Completion → Option Completion
entry_of r old = elim (sort r.status) [ ready ↦ some r.entry | retry ↦ old | failed ↦ old ]

module _ (fabric : Fabric) where
  abbrev pub fi_cq_read : Queue → Run CqReply
  fi_cq_read q n = let r = fabric.poll_cq n.log q in done r (deliver r (note (cq_read q) n))

  abbrev pub fi_eq_read : Call → Run EqReply
  fi_eq_read c n = done (fabric.poll_eq n.log) (note c n)

  -- `checkComp`: 1 for a completion, 0 for none, else the error. `entry` is the caller's variable.
  unfoldable pub check_comp : Queue → Option Completion → Run (ℤ × Option Completion)
  check_comp q entry = fi_cq_read q >>= λ r. elim (sort r.status) [
    | ready ↦ pure (pos 1, some r.entry)
    | retry ↦ pure (pos 0, entry)
    | failed ↦ λ n. done (r.status, entry) (note (cq_readerr q) n)
  ]

  -- `waitComp`: 0 for a completion, else the error.
  unfoldable pub wait_comp : ℕ → Queue → Option Completion → Run (ℤ × Option Completion)
  wait_comp zero q entry n = spin
  wait_comp (suc fuel) q entry n =
      let r = fabric.poll_cq n.log q in
      let n' = deliver r (note (cq_read q) n) in
      elim (sort r.status) [
        | ready ↦ done (pos 0, some r.entry) n'
        | retry ↦ wait_comp fuel q entry n'
        | failed ↦ done (r.status, entry) (note (cq_readerr q) n')
      ]

  -- `Endpoint::waitComp`, which keeps no entry.
  pub wait_comp_plain : ℕ → Queue → Run ℤ
  unfolding wait_comp
  wait_comp_plain fuel q = wait_comp fuel q none >>= λ p. pure p.0

  abbrev is_known : CmEvent → Bool
  is_known (invalid k) = false
  is_known _ = true

  -- `checkCmEvent`: 1 for an event of the connection manager, -1 for an event that it does not know,
  -- 0 for none, else the error.
  unfoldable pub check_cm_event : Run (ℤ × EqReply)
  check_cm_event = fi_eq_read eq_read >>= λ r. elim (sort r.status) [
    | ready ↦ pure (if is_known r.event then pos 1 else negsuc 0, r)
    | retry ↦ pure (pos 0, r)
    | failed ↦ λ n. done (r.status, r) (note eq_readerr n)
  ]

  -- `waitCmEvent`: 0 for an event, -1 for an event that it does not know, else the error.
  unfoldable pub wait_cm_event : ℕ → Run (ℤ × EqReply)
  wait_cm_event zero n = spin
  wait_cm_event (suc fuel) n =
      let r = fabric.poll_eq n.log in
      let n' = note eq_read n in
      elim (sort r.status) [
        | ready ↦ done (if is_known r.event then pos 0 else negsuc 0, r) n'
        | retry ↦ wait_cm_event fuel n'
        | failed ↦ done (r.status, r) (note eq_readerr n')
      ]
