-- ===== src/Node/Client/Benchmark/TxCount.antt =====
-- What the calls of `Node::benchmark` read from the transmit queue, and the sum of its counters.
use libfabric_benchmark.Base.{
  ℕ, zero, suc, List, [], ◌∷◌, Option, some, ◌≡◌, refl, ◌∙◌, sym, ap, false, Option-cases, inl, inr,
  get_elem?, set, if◌then◌else◌, arith,
}
use libfabric_benchmark.Base.Int.{ℤ, pos, is_positive, ◌+ℤ◌, int_laws}
use libfabric_benchmark.Config.{Transfer}
use libfabric_benchmark.Clock.{Timespec}
use libfabric_benchmark.Fabric.{
  Fabric, Queue, Ref, tx, rx, cep, Call, cq_read, cq_readerr, Completion,
}
use libfabric_benchmark.Machine.{Node, done, note}
use libfabric_benchmark.Machine.Ensures.{Ensures, returns, faults}
use libfabric_benchmark.Poll.{sort, sort_cases, retry, failed, deliver, check_comp}
use libfabric_benchmark.Endpoint.{rdma_write}
use libfabric_benchmark.Traffic.{traffic, count_read}
use libfabric_benchmark.Node.Client.Benchmark.{stamp}
use libfabric_benchmark.Node.Client.Benchmark.ControlMessage.{deliver_keeps}
use libfabric_benchmark.Node.Client.Benchmark.Stopping.{ready_entry, no_entry}

-- The sum of all counters.
abbrev pub sum_of : List Transfer → ℤ
sum_of [] = pos 0
sum_of (t ∷ ts) = t.completions +ℤ sum_of ts

-- The completions that a node has read from the transmit queue.
abbrev pub tx_count : Fabric → List Call → ℕ
tx_count fabric l = (traffic fabric l).tx_read

add_swap : (a b c : ℤ) → a +ℤ b +ℤ c ≡ a +ℤ c +ℤ b
add_swap a b c = grind int_laws

add_assoc : (a b c : ℤ) → a +ℤ b +ℤ c ≡ a +ℤ (b +ℤ c)
add_assoc a b c = grind int_laws

pub sum_of-set :
    (i : ℕ) (t : Transfer) (ts : List Transfer)
    → get_elem? ts i ≡ some t
    → sum_of (set ts i (record t { completions = t.completions +ℤ pos 1 })) ≡ sum_of ts +ℤ pos 1
sum_of-set i t [] e = cc
sum_of-set zero t (r ∷ ts) e = ground (arith, add_swap t.completions (pos 1) (sum_of ts))
sum_of-set (suc i) t (r ∷ ts) e =
    ap (λ k. r.completions +ℤ k) (sum_of-set i t ts e)
    ∙ sym (add_assoc r.completions (sum_of ts) (pos 1))

pub sum_of-stamp : (time : ℤ) (ts : List Transfer) → sum_of (stamp time ts) ≡ sum_of ts
unfolding stamp
sum_of-stamp time [] = refl
sum_of-stamp time (t ∷ ts) = ap (λ k. t.completions +ℤ k) (sum_of-stamp time ts)

-- A poll of the transmit queue counts if it has a completion; one of the receive queue never does.
module _ (fabric : Fabric) (now : List Call → Option Timespec) where
  not_positive : (s : ℤ) → sort s ≡ failed → is_positive s ≡ false
  not_positive s h = ground arith

  delivered :
      (q : Queue) (n : Node)
      → tx_count fabric (deliver (fabric.poll_cq n.log q) (note (cq_read q) n)).log
        ≡ (count_read q (sort (fabric.poll_cq n.log q).status) (traffic fabric n.log)).tx_read
  delivered q n =
      ap (tx_count fabric) (deliver_keeps (fabric.poll_cq n.log q) (note (cq_read q) n) cep).0

  pub bad_entry :
      (q : Queue) (entry : Option Completion) (n : Node)
      → sort (fabric.poll_cq n.log q).status ≡ failed
      → check_comp fabric q entry n
        ≡ done
            ((fabric.poll_cq n.log q).status, entry)
            (note (cq_readerr q) (deliver (fabric.poll_cq n.log q) (note (cq_read q) n)))
  unfolding check_comp
  bad_entry q entry n h = ground (arith, h)

  read_none :
      (q : Queue) (n : Node)
      → sort (fabric.poll_cq n.log q).status ≡ retry
      → tx_count fabric (cq_read q ∷ n.log) ≡ tx_count fabric n.log
  read_none tx n e = ap (λ p. (count_read tx p (traffic fabric n.log)).tx_read) e
  read_none rx n e = ap (λ p. (count_read rx p (traffic fabric n.log)).tx_read) e

  read_bad :
      (q : Queue) (n : Node)
      → sort (fabric.poll_cq n.log q).status ≡ failed
      → tx_count fabric (cq_read q ∷ n.log) ≡ tx_count fabric n.log
  read_bad tx n e = ap (λ p. (count_read tx p (traffic fabric n.log)).tx_read) e
  read_bad rx n e = ap (λ p. (count_read rx p (traffic fabric n.log)).tx_read) e

  pub rx_poll :
      (entry : Option Completion) (n : Node)
      → Ensures
          (λ p m. tx_count fabric m.log ≡ tx_count fabric n.log)
          (check_comp fabric rx entry n)
  rx_poll entry n = elim (sort_cases (fabric.poll_cq n.log rx).status) [
    | inl e ↦ rw (ready_entry fabric now rx entry n e) (returns (delivered rx n ∙ rw e))
    | inr (inl e) ↦ rw (no_entry fabric now rx entry n e) (returns (read_none rx n e))
    | inr (inr e) ↦ rw (bad_entry rx entry n e) (returns (delivered rx n ∙ read_bad rx n e))
  ]

  pub tx_poll :
      (entry : Option Completion) (n : Node)
      → Ensures
          (λ p m.
            tx_count fabric m.log
            ≡ (if is_positive p.0 then suc (tx_count fabric n.log) else tx_count fabric n.log))
          (check_comp fabric tx entry n)
  tx_poll entry n = elim (sort_cases (fabric.poll_cq n.log tx).status) [
    | inl e ↦ rw (ready_entry fabric now tx entry n e) (returns (delivered tx n ∙ rw e))
    | inr (inl e) ↦ rw (no_entry fabric now tx entry n e) (returns (read_none tx n e))
    | inr (inr e) ↦ rw (bad_entry tx entry n e) (
        returns
          (delivered tx n ∙ read_bad tx n e ∙ rw (not_positive (fabric.poll_cq n.log tx).status e)))
  ]

  pub rdma_write-tx_count :
      (r : Ref) (n : Node)
      → Ensures (λ ret m. tx_count fabric m.log ≡ tx_count fabric n.log) (rdma_write fabric r n)
  unfolding rdma_write
  rdma_write-tx_count r n = elim (Option-cases (n.endpoint r).remote_keys) [
    | inl unset ↦ rw unset faults
    | inr (k, keys) ↦ rw keys (returns refl)
  ]
