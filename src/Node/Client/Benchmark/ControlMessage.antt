-- ===== src/Node/Client/Benchmark/ControlMessage.antt =====
-- The completion of a client's own control message, in the loop of `Node::benchmark`.
use mathlib.Core.Path.{ap₂}
use libfabric_benchmark.Base.{
  ℕ, zero, suc, ◌≤◌, ◌<◌, List, [], ◌∷◌, Option, none, some, ◌≡◌, refl, ◌∙◌, ap, lt→ltb, arith,
  length, get_elem?,
}
use libfabric_benchmark.Base.Int.{ℤ, pos}
use libfabric_benchmark.Config.{Config, Keys}
use libfabric_benchmark.Clock.{Timespec}
use libfabric_benchmark.Fabric.{
  Fabric, tx, Ref, cep, peer, c_role, Context, Call, write, cq_read, Completion, CqReply,
}
use libfabric_benchmark.Machine.{Node, done, fault, deref, note, update}
use libfabric_benchmark.Poll.{sort, ready, deliver, check_comp}
use libfabric_benchmark.Endpoint.{to_int}
use libfabric_benchmark.Node.Client.Benchmark.{
  Tally, Loop, count_completion, count_and_write, on_sent, poll_sent,
}

-- The context of the control messages of `cep`.
abbrev pub control : Context
control = record { owner = cep; role = c_role }

get_elem?-none : {A : Type 0} (xs : List A) (i : ℕ) → length xs ≤ i → get_elem? xs i ≡ none
get_elem?-none [] i h = refl
get_elem?-none (x ∷ xs) zero h = absurd (omega arith)
get_elem?-none (x ∷ xs) (suc i) h = get_elem?-none xs i (omega arith)

count_completion-none :
    (i : ℕ) (s : Tally) → length s.transfer ≤ i → count_completion (pos i) s ≡ none
unfolding count_completion
count_completion-none i s h = rw (get_elem?-none s.transfer i h, count_completion)

-- Delivery leaves the contexts of control messages alone.
deliver-c_ctx :
    (r : CqReply) (n : Node) → ((deliver r n).endpoint cep).c_ctx ≡ (n.endpoint cep).c_ctx
deliver-c_ctx r n = ground arith

-- The state after a poll of the transmit queue, and the number that the entry's context holds there.
abbrev pub after_poll : Fabric → Node → Node
after_poll fabric n = deliver (fabric.poll_cq n.log tx) (note (cq_read tx) n)

-- What else delivery leaves alone.
pub deliver_keeps :
    (r : CqReply) (n : Node) (p : Ref)
    → ((deliver r n).log ≡ n.log)
      × ((deliver r n).config ≡ n.config)
      × ((deliver r n).eps_size ≡ n.eps_size)
      × (((deliver r n).endpoint p).remote_keys ≡ (n.endpoint p).remote_keys)
deliver_keeps r n p = ground arith

-- The state after a write to `eps[i]`.
abbrev written : ℕ → Keys → Node → Node
written i k n =
    let size = n.config.msg_size in
    note (write (peer i) size k)
      (update (peer i) (λ e. record e { tx_ctx = record (e.tx_ctx) { size = to_int size } }) n)

module _ (fabric : Fabric) (now : List Call → Option Timespec) where
  check_comp-ready :
      (entry : Option Completion) (n : Node)
      → sort (fabric.poll_cq n.log tx).status ≡ ready
      → check_comp fabric tx entry n
        ≡ done (pos 1, some (fabric.poll_cq n.log tx).entry) (after_poll fabric n)
  unfolding check_comp
  check_comp-ready entry n h = ground (arith, h)

  control_id :
      (n : Node) (k : ℤ)
      → (fabric.poll_cq n.log tx).entry.op_context ≡ control
      → (n.endpoint cep).c_ctx.id ≡ k
      → (deref (fabric.poll_cq n.log tx).entry.op_context (after_poll fabric n)).id ≡ k
  control_id n k c id =
      ap (λ p. (deref p (after_poll fabric n)).id) c
      ∙ ap (λ x. x.id) (deliver-c_ctx (fabric.poll_cq n.log tx) (note (cq_read tx) n))
      ∙ id

  poll_sent-ready :
      (l : Loop) (n : Node)
      → sort (fabric.poll_cq n.log tx).status ≡ ready
      → poll_sent fabric now l n
        ≡ on_sent fabric now l (fabric.poll_cq n.log tx).entry (after_poll fabric n)
  unfolding poll_sent
  poll_sent-ready l n h = rw (poll_sent, check_comp-ready l.entry n h)

  on_sent-fault :
      (l : Loop) (e : Completion) (n : Node) (i : ℕ)
      → (deref e.op_context n).id ≡ pos i
      → length l.tally.transfer ≤ i
      → on_sent fabric now l e n ≡ fault
  unfolding on_sent
  on_sent-fault l e n i id out = rw (id, count_and_write, count_completion-none i l.tally out)

  count_and_write-done :
      (i : ℕ) (t s : Tally) (k : Keys) (n : Node)
      → count_completion (pos i) t ≡ some s
      → i < n.eps_size
      → (n.endpoint (peer i)).remote_keys ≡ some k
      → count_and_write fabric now (pos i) t n ≡ done s (written i k n)
  unfolding count_and_write
  count_and_write-done i t s k n counted inside keys =
      rw (count_and_write, counted, lt→ltb i n.eps_size inside, keys)

  on_sent-done :
      (l : Loop) (e : Completion) (n : Node) (i : ℕ) (s : Tally) (k : Keys)
      → (deref e.op_context n).id ≡ pos i
      → count_completion (pos i) l.tally ≡ some s
      → i < n.eps_size
      → (n.endpoint (peer i)).remote_keys ≡ some k
      → on_sent fabric now l e n
        ≡ done (record l { tally = s; entry = some e; ctx = some e.op_context }) (written i k n)
  unfolding on_sent
  on_sent-done l e n i s k id counted inside keys =
      rw (id, count_and_write-done i l.tally s k n counted inside keys)

  -- When the completion of a control message is read from the transmit queue by a client whose
  -- number is not below the number of rows, one for each server, the benchmark goes wrong: it
  -- counts out of range.
  pub poll_sent-fault :
      (l : Loop) (n : Node) (i : ℕ)
      → sort (fabric.poll_cq n.log tx).status ≡ ready
      → (fabric.poll_cq n.log tx).entry.op_context ≡ control
      → (n.endpoint cep).c_ctx.id ≡ pos i
      → length l.tally.transfer ≤ i
      → poll_sent fabric now l n ≡ fault
  unfolding poll_sent
  poll_sent-fault l n i h c id out =
      poll_sent-ready l n h
      ∙ on_sent-fault l (fabric.poll_cq n.log tx).entry (after_poll fabric n) i
          (control_id n (pos i) c id) out

  -- When the completion of a control message is read from the transmit queue by a client whose
  -- number has a row, an endpoint and the keys of its peer, it is counted as a completed write to
  -- the server of the client's own number, and one more write is posted to that server.
  pub poll_sent-miscount :
      (l : Loop) (n : Node) (i : ℕ) (s : Tally) (k : Keys)
      → sort (fabric.poll_cq n.log tx).status ≡ ready
      → (fabric.poll_cq n.log tx).entry.op_context ≡ control
      → (n.endpoint cep).c_ctx.id ≡ pos i
      → count_completion (pos i) l.tally ≡ some s
      → i < n.eps_size
      → (n.endpoint (peer i)).remote_keys ≡ some k
      → (m : Node) × (poll_sent fabric now l n
          ≡ done
              (record l {
                tally = s;
                entry = some (fabric.poll_cq n.log tx).entry;
                ctx = some control;
              })
              m)
        × (m.log ≡ write (peer i) n.config.msg_size k ∷ cq_read tx ∷ n.log)
  unfolding poll_sent
  poll_sent-miscount l n i s k h c id counted inside keys =
      let r = fabric.poll_cq n.log tx in
      let m = after_poll fabric n in
      let kept = deliver_keeps r (note (cq_read tx) n) (peer i) in
      (
        written i k m,
        poll_sent-ready l n h
            ∙ on_sent-done l r.entry m i s k (control_id n (pos i) c id) counted (rw kept.2 inside)
                (kept.3 ∙ keys)
            ∙ ap
                (λ p.
                  done (record l { tally = s; entry = some r.entry; ctx = some p }) (written i k m))
                c,
        ap₂ (λ (x : Config) l. write (peer i) x.msg_size k ∷ l) kept.1 kept.0,
      )
