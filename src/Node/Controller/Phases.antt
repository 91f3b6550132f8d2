-- ===== src/Node/Controller/Phases.antt =====
-- The traffic of the phases that the controller's functions are composed of.
use libfabric_benchmark.Base.{ℕ, zero, suc, ◌∷◌, Option, ◌≡◌, inl, inr, Bool-cases}
use libfabric_benchmark.Base.Int.{ℤ, pos, is_nonzero}
use libfabric_benchmark.Config.{Config, sizeof_int}
use libfabric_benchmark.Fabric.{Fabric, Queue, peer, command, Completion}
use libfabric_benchmark.Machine.{Node, eps, for_each, ◌>>=◌}
use libfabric_benchmark.Machine.Ensures.{
  Ensures, returns, bind, weaken, IfOk, chain-IfOk, eps-Ensures, zero_of_not, nonzero_absurd,
}
use libfabric_benchmark.Endpoint.{ctrl_recv, send_command, or_ctrl_size}
use libfabric_benchmark.Traffic.{Traffic, Has, IsDocumented, broadcast, posts}
use libfabric_benchmark.Traffic.Steps.{ctrl_recv-Has, send_command-Has, wait_comp-Has, one_read}
use libfabric_benchmark.Node.{await_all}

module _ {fabric : Fabric} {c : Config} where
  send_one-Has :
      (i : ℕ) (k : ℤ) (t : Traffic) (n : Node)
      → Has fabric c t n
      → Ensures
          (IfOk (
            Has fabric c (record t {
              sent = record { to = peer i; size = sizeof_int; message = command k } ∷ t.sent;
            })))
          ((eps i >>= λ r. send_command fabric r k) n)
  send_one-Has i k t n h =
      bind (eps-Ensures i n)
        λ r m e. rw (e.0, e.1) (weaken (send_command-Has (peer i) k n h) (λ ret m' p _. p))

  pub send_all-Has :
      (num i : ℕ) (k : ℤ) (t : Traffic) (n : Node)
      → Has fabric c t n
      → Ensures
          (IfOk (Has fabric c (record t { sent = broadcast i num k t.sent })))
          (for_each i num (λ i. eps i >>= λ r. send_command fabric r k) n)
  unfolding for_each
  send_all-Has zero i k t n h = returns (λ _. h)
  send_all-Has (suc num) i k t n h =
      chain-IfOk (send_one-Has i k t n h) (λ m p. send_all-Has num (suc i) k _ m p)

  recv_one-Has :
      (i size : ℕ) (t : Traffic) (n : Node)
      → Has fabric c t n
      → Ensures
          (IfOk (
            Has fabric c (record t {
              posted = record { at = peer i; size = or_ctrl_size size c } ∷ t.posted;
            })))
          ((eps i >>= λ r. ctrl_recv fabric r size) n)
  recv_one-Has i size t n h =
      bind (eps-Ensures i n)
        λ r m e. rw (e.0, e.1) (weaken (ctrl_recv-Has (peer i) size n h) (λ ret m' p _. p))

  pub recv_all-Has :
      (num i size : ℕ) (t : Traffic) (n : Node)
      → Has fabric c t n
      → Ensures
          (IfOk (Has fabric c (record t { posted = posts i num (or_ctrl_size size c) t.posted })))
          (for_each i num (λ i. eps i >>= λ r. ctrl_recv fabric r size) n)
  unfolding for_each
  recv_all-Has zero i size t n h = returns (λ _. h)
  recv_all-Has (suc num) i size t n h =
      chain-IfOk (recv_one-Has i size t n h) (λ m p. recv_all-Has num (suc i) size _ m p)

-- `num` more completions read from a queue.
abbrev pub reads : Queue → ℕ → Traffic → Traffic
reads q zero t = t
reads q (suc num) t = reads q num (one_read q t)

module _ {fabric : Fabric} (doc : IsDocumented fabric) {c : Config} where
  pub await_all-Has :
      (fuel : ℕ) (q : Queue) (num : ℕ) (entry : Option Completion) (t : Traffic) (n : Node)
      → Has fabric c t n
      → Ensures
          (λ p m. p.0 ≡ pos 0 → Has fabric c (reads q num t) m)
          (await_all fabric fuel q num entry n)
  unfolding await_all
  await_all-Has fuel q zero entry t n h = returns (λ _. h)
  await_all-Has fuel q (suc num) entry t n h =
      bind (wait_comp-Has doc fuel q entry {t = t} n h) λ p m k.
        elim (Bool-cases (is_nonzero p.0)) [
          | inl bad ↦ rw bad (returns (λ z. absurd (nonzero_absurd p.0 bad z)))
          | inr good ↦ rw good (await_all-Has fuel q num p.1 _ m (k (zero_of_not p.0 good)))
        ]
