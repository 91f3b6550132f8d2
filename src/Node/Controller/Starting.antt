-- ===== src/Node/Controller/Starting.antt =====
-- `controllerStart` on a network that answers.
use libfabric_benchmark.Base.{
  ℕ, zero, suc, ◌+◌, ◌≤◌, ◌<◌, List, Option, none, some, ◌≡◌, ◌≢◌, refl, ◌∙◌, ap, lt→ltb, arith,
}
use libfabric_benchmark.Base.Int.{ℤ, pos, eq→==ℤ}
use libfabric_benchmark.Config.{bm_controller, bm_start}
use libfabric_benchmark.Fabric.{Fabric, Queue, tx, Ref, peer, Call, Completion}
use libfabric_benchmark.Machine.{
  Node, Outcome, done, Run, and_then, or_return, eps, for_each, ◌>>=◌,
}
use libfabric_benchmark.Poll.{sort, Polled, ready, retry, wait_comp}
use libfabric_benchmark.Poll.Answers.{after, answer, Retries, wait_comp-after}
use libfabric_benchmark.Endpoint.{send_command}
use libfabric_benchmark.Node.{in_mode, rounds, await_all}
use libfabric_benchmark.Node.Controller.{send_all, start_body, controller_start}

-- Every call returns 0, and every queue has a completion within `bound` polls.
pub record IsReliable (fabric : Fabric) (bound : ℕ) : Type 0 where
  pub succeeds : (l : List Call) (c : Call) → fabric.result l c ≡ pos 0
  pub completes :
      (q : Queue) (l : List Call)
      → (k : ℕ) × (k < bound)
        × Retries fabric q k l
        × (sort (fabric.poll_cq (after fabric q k l) q).status ≡ ready)

-- A run of a function that returns 0, on a node with `size` endpoints.
data Succeeds (size : ℕ) : Outcome ℤ → Type 0 where
  returned_zero : {n : Node} → n.eps_size ≡ size → Succeeds size (done (pos 0) n)

chain :
    {size : ℕ} {r : Outcome ℤ} {rest : Run ℤ}
    → Succeeds size r
    → ((n : Node) → n.eps_size ≡ size → Succeeds size (rest n))
    → Succeeds size (and_then r (λ ret. or_return ret rest))
chain (returned_zero h) f = f _ h

module _ (fabric : Fabric) (bound : ℕ) (h : IsReliable fabric bound) (size : ℕ) where
  send_command-Succeeds :
      (r : Ref) (c : ℤ) (n : Node) → n.eps_size ≡ size → Succeeds size (send_command fabric r c n)
  unfolding send_command
  send_command-Succeeds r c n e = rw (h.succeeds) (returned_zero e)

  send_all-Succeeds :
      (num i : ℕ) (c : ℤ) (n : Node)
      → i + num ≤ size
      → n.eps_size ≡ size
      → Succeeds size (for_each i num (λ i. eps i >>= λ r. send_command fabric r c) n)
  unfolding for_each
  send_all-Succeeds zero i c n fits e = returned_zero e
  send_all-Succeeds (suc num) i c n fits e =
      rw (lt→ltb i n.eps_size (omega arith), and_then)
        (chain (send_command-Succeeds (peer i) c n e)
          λ m e'. send_all-Succeeds num (suc i) c m (omega arith) e')

  wait_comp-ready :
      (q : Queue) (entry : Option Completion) (n : Node)
      → (e : Completion) × (m : Node) × (wait_comp fabric bound q entry n ≡ done (pos 0, some e) m)
  wait_comp-ready q entry n =
      let (k, lt, again, good) = h.completes q n.log in
      let r = fabric.poll_cq (after fabric q k n.log) q in
      (
        r.entry,
        _,
        wait_comp-after fabric q k bound entry n lt again (λ e. not_retry (sort r.status) good e)
            ∙ ap (λ s. answer fabric q s r entry (record n { log = after fabric q k n.log })) good,
      )
    where
      not_retry : (s : Polled) → s ≡ ready → s ≢ retry
      not_retry s a b = cc

  await_all-ready :
      (q : Queue) (num : ℕ) (entry : Option Completion) (n : Node)
      → (e : Option Completion) × (m : Node) × (await_all fabric bound q num entry n
          ≡ done (pos 0, e) m)
  unfolding await_all
  await_all-ready q zero entry n = (entry, n, refl)
  await_all-ready q (suc num) entry n =
      let (e, m, step) = wait_comp-ready q entry n in
      let (e', m', rest) = await_all-ready q num (some e) m in (e', m', rw (step, and_then) rest)

succeeded : {size : ℕ} (r : Outcome ℤ) → Succeeds size r → (m : Node) × (r ≡ done (pos 0) m)
succeeded r (returned_zero {n} e) = (n, refl)

-- If every call of libfabric returns 0 and every queue has a completion within a bound of polls,
-- then with that much fuel controllerStart on a controller with an endpoint for each client
-- returns 0.
pub controller_start-succeeds :
    (fabric : Fabric) (bound : ℕ) (n : Node)
    → IsReliable fabric bound
    → n.mode ≡ bm_controller
    → rounds n.config.num_en ≤ n.eps_size
    → (m : Node) × (controller_start fabric bound n ≡ done (pos 0) m)
unfolding controller_start in_mode start_body
controller_start-succeeds fabric bound n h mode fits =
    let num = rounds n.config.num_en in
    let (m, sent) =
      succeeded (send_all fabric num bm_start n)
        (send_all-Succeeds fabric bound h n.eps_size num 0 bm_start n (omega arith) refl) in
    let (e, m', waited) = await_all-ready fabric bound h n.eps_size tx num none m in
    (m', rw (eq→==ℤ n.mode bm_controller mode, sent, and_then, waited))
