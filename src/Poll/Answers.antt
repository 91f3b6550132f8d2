-- ===== src/Poll/Answers.antt =====
-- How the waits of CBM_Benchmark/Node.cpp end: with the first poll that is not told to try again.
use libfabric_benchmark.Base.{
  ℕ, zero, suc, ◌<◌, ◌≡◌, ◌≢◌, refl, inl, inr, List, ◌∷◌, Option, some, arith,
}
use libfabric_benchmark.Base.Int.{ℤ, pos}
use libfabric_benchmark.Fabric.{Fabric, Queue, Call, cq_read, cq_readerr, Completion, CqReply}
use libfabric_benchmark.Machine.{Node, Outcome, done, spin, note}
use libfabric_benchmark.Machine.Ensures.{Ends, ended}
use libfabric_benchmark.Poll.{sort, Polled, ready, retry, failed, sort_cases, deliver, wait_comp}

deliver-retry : (r : CqReply) (n : Node) → sort r.status ≡ retry → deliver r n ≡ n
deliver-retry r n h = rw (h, deliver)

module _ (fabric : Fabric) (q : Queue) where
  -- The log after `k` polls.
  abbrev pub after : ℕ → List Call → List Call
  after zero l = l
  after (suc k) l = after k (cq_read q ∷ l)

  -- Each of the first `k` polls is told to try again.
  abbrev pub Retries : ℕ → List Call → Type 0
  Retries zero l = Unit {0}
  Retries (suc k) l = (sort (fabric.poll_cq l q).status ≡ retry) × Retries k (cq_read q ∷ l)

  -- What a wait makes of its last poll.
  abbrev pub answer : Polled → CqReply → Option Completion → Node → Outcome (ℤ × Option Completion)
  answer ready r entry n = done (pos 0, some r.entry) (deliver r (note (cq_read q) n))
  answer retry r entry n = spin
  answer failed r entry n =
      done (r.status, entry) (note (cq_readerr q) (deliver r (note (cq_read q) n)))

  -- If the first k polls are told to try again and the fuel is above k, then the poll after them
  -- decides: a completion gives status 0, its entry, and its message in the buffer of its
  -- endpoint, and an error gives the library's status, with the entry as it was and the error
  -- read.
  pub wait_comp-after :
      (k fuel : ℕ) (entry : Option Completion) (n : Node)
      → k < fuel
      → Retries k n.log
      → let m = record n { log = after k n.log } in
        let r = fabric.poll_cq m.log q in
        sort r.status ≢ retry → wait_comp fabric fuel q entry n ≡ answer (sort r.status) r entry m
  unfolding wait_comp
  wait_comp-after k zero entry n lt again decided = absurd (omega arith)
  wait_comp-after zero (suc fuel) entry n lt again decided =
      elim (sort_cases (fabric.poll_cq n.log q).status) [
        | inl e ↦ rw (e, wait_comp)
        | inr (inl e) ↦ absurd (decided e)
        | inr (inr e) ↦ rw (e, wait_comp)
      ]
  wait_comp-after (suc k) (suc fuel) entry n lt again decided =
      rw (again.0, wait_comp, deliver-retry (fabric.poll_cq n.log q) (note (cq_read q) n) again.0)
        (wait_comp-after k fuel entry (note (cq_read q) n) (omega arith) again.1 decided)

-- Every queue answers within `bound` polls, from any log.
abbrev pub Answers : Fabric → ℕ → Type 0
Answers fabric bound =
    (q : Queue) (l : List Call)
    → (k : ℕ) × (k < bound)
      × Retries fabric q k l
      × (sort (fabric.poll_cq (after fabric q k l) q).status ≢ retry)

answer-Ends :
    (fabric : Fabric) (q : Queue) (p : Polled) (r : CqReply) (entry : Option Completion) (n : Node)
    → p ≢ retry
    → Ends (answer fabric q p r entry n)
answer-Ends fabric q ready r entry n h = ended
answer-Ends fabric q retry r entry n h = absurd (h refl)
answer-Ends fabric q failed r entry n h = ended

-- A wait with that much fuel ends.
pub wait_comp-Ends :
    (fabric : Fabric) (bound : ℕ)
    → Answers fabric bound
    → (q : Queue) (entry : Option Completion) (n : Node) → Ends (wait_comp fabric bound q entry n)
wait_comp-Ends fabric bound h q entry n =
    let (k, lt, again, decided) = h q n.log in
    rw (wait_comp-after fabric q k bound entry n lt again decided) (
      answer-Ends fabric q (sort (fabric.poll_cq (after fabric q k n.log) q).status)
        (fabric.poll_cq (after fabric q k n.log) q) entry _ decided)
