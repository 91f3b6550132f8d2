-- ===== src/Node/Client/Benchmark/Saying.antt =====
-- The steps of the loop of `benchmark`, and what each of them hears and says.
use libfabric_benchmark.Base.{
  ℕ, List, ◌∷◌, Option, some, ◌≡◌, refl, ◌∙◌, ap, Bool, true, false, Bool-cases, Option-cases, inl,
  inr, ◌==◌, leb, arith,
}
use libfabric_benchmark.Base.Int.{ℤ, pos, negsuc, is_positive, ◌==ℤ◌}
use libfabric_benchmark.Config.{Config, Transfer, bm_stop, bm_checkpoint, sizeof_int}
use libfabric_benchmark.Clock.{Timespec}
use libfabric_benchmark.Fabric.{
  Fabric, Queue, tx, rx, cep, peer, Message, first_int, Call, cq_read, Completion, CqReply,
}
use libfabric_benchmark.Machine.{Node, note, deref}
use libfabric_benchmark.Machine.Ensures.{Ensures, returns, faults, bind, eps-rule}
use libfabric_benchmark.Poll.{ready, failed, sort, sort_cases, deliver, check_comp}
use libfabric_benchmark.Endpoint.{ctrl_recv, ctrl_send, rdma_write}
use libfabric_benchmark.Traffic.{Sent, traffic}
use libfabric_benchmark.Traffic.Outbox.{count_read-same}
use libfabric_benchmark.Node.{row_bytes}
use libfabric_benchmark.Node.Client.Benchmark.{
  Tally, Loop, count_completion, switch, send_rows, reply, on_command, count_and_write, on_sent,
  poll_sent,
}
use libfabric_benchmark.Node.Client.Benchmark.ControlMessage.{deliver_keeps}
use libfabric_benchmark.Node.Client.Benchmark.Stopping.{ready_entry, no_entry}
use libfabric_benchmark.Node.Client.Benchmark.TxCount.{bad_entry}
use libfabric_benchmark.Node.Client.Benchmark.Conversation.{
  FromController, has_clock, heard, row_of, Said, polled,
}

delivered_word :
    (r : CqReply) (w : Message) (n : Node)
    → sort r.status ≡ ready
    → r.payload ≡ some w
    → r.entry.op_context.owner ≡ cep
    → first_int ((deliver r n).endpoint cep).ctrl_buff ≡ first_int w
delivered_word r w n e f g = ground (arith, e, f, g)

module _ (fabric : Fabric) (now : List Call → Option Timespec) (c : Config) (s : List Sent) where
  after_poll :
      (q : Queue) (h : List ℤ) (n : Node)
      → n.config ≡ c
      → heard fabric (cq_read q ∷ n.log) ≡ h
      → (traffic fabric n.log).sent ≡ s
      → has_clock n.log ≡ true
      → Said fabric c h s (polled fabric q n)
  after_poll q h n e f g t =
      let kept = deliver_keeps (fabric.poll_cq n.log q) (note (cq_read q) n) cep in
      record {
        timed = ap has_clock kept.0 ∙ t;
        config = kept.1 ∙ e;
        heard_eq = ap (heard fabric) kept.0 ∙ f;
        sent_eq =
            ap (λ l. (traffic fabric l).sent) kept.0
            ∙ (count_read-same q (sort (fabric.poll_cq n.log q).status) (traffic fabric n.log)).0
            ∙ g;
      }

  idle_poll :
      (q : Queue) (h : List ℤ) (n : Node)
      → n.config ≡ c
      → heard fabric (cq_read q ∷ n.log) ≡ h
      → (traffic fabric n.log).sent ≡ s
      → has_clock n.log ≡ true
      → Said fabric c h s (note (cq_read q) n)
  idle_poll q h n e f g t = record {
    timed = t;
    config = e;
    heard_eq = f;
    sent_eq =
        (count_read-same q (sort (fabric.poll_cq n.log q).status) (traffic fabric n.log)).0 ∙ g;
  }

  tx_poll-Said :
      (h : List ℤ) (entry : Option Completion) (n : Node)
      → Said fabric c h s n
      → Ensures (λ p m. Said fabric c h s m) (check_comp fabric tx entry n)
  tx_poll-Said h entry n k =
      let k' = after_poll tx h n k.config k.heard_eq k.sent_eq k.timed in
      elim (sort_cases (fabric.poll_cq n.log tx).status) [
        | inl e ↦ rw (ready_entry fabric now tx entry n e) (returns k')
        | inr (inl e) ↦
            rw (no_entry fabric now tx entry n e)
              (returns (idle_poll tx h n k.config k.heard_eq k.sent_eq k.timed))
        | inr (inr e) ↦ rw (bad_entry fabric now tx entry n e) (
            returns (record {
              config = k'.config;
              heard_eq = k'.heard_eq;
              sent_eq = k'.sent_eq;
              timed = k'.timed;
            }))
      ]

  -- A poll of the receive queue: a completion leaves its first word in the controller's buffer.
  abbrev pub Heard : List ℤ → ℤ × Option Completion → Node → Type 0
  Heard h p m =
      (is_positive p.0 ≡ true
        → (x : ℤ) × Said fabric c (x ∷ h) s m × (first_int (m.endpoint cep).ctrl_buff ≡ x))
      × (is_positive p.0 ≡ false → Said fabric c h s m)

  pub rx_poll-Heard :
      FromController fabric
      → (h : List ℤ) (entry : Option Completion) (n : Node) → Said fabric c h s n
      → Ensures (Heard h) (check_comp fabric rx entry n)
  rx_poll-Heard from h entry n k = elim (sort_cases (fabric.poll_cq n.log rx).status) [
    | inl e ↦
        let (w, is_w, at_cep) = from.message n.log k.timed e in
        rw (ready_entry fabric now rx entry n e) (
          returns (
            (λ _. (
              first_int w,
              after_poll rx (first_int w ∷ h) n k.config
                  (rw (e, is_w) (ap (λ l. first_int w ∷ l) k.heard_eq)) k.sent_eq k.timed,
              delivered_word (fabric.poll_cq n.log rx) w (note (cq_read rx) n) e is_w at_cep,
            )),
            (λ z. cc),
          ))
    | inr (inl e) ↦
        rw (no_entry fabric now rx entry n e) (
          returns ((λ z. cc), (λ _. idle_poll rx h n k.config (rw e k.heard_eq) k.sent_eq k.timed)))
    | inr (inr e) ↦
        let k' = after_poll rx h n k.config (rw e k.heard_eq) k.sent_eq k.timed in
        rw (bad_entry fabric now rx entry n e) (
          returns (
            (λ z. absurd (failed_positive (fabric.poll_cq n.log rx).status e z)),
            (λ _. record {
              config = k'.config;
              heard_eq = k'.heard_eq;
              sent_eq = k'.sent_eq;
              timed = k'.timed;
            }),
          ))
  ]
    where
      failed_positive : (x : ℤ) → sort x ≡ failed → is_positive x ≡ true → ⊥
      failed_positive x e z = ground arith

  pub rdma_write-Said :
      (h : List ℤ) (i : ℕ) (n : Node)
      → Said fabric c h s n
      → Ensures (λ _ m. Said fabric c h s m) (rdma_write fabric (peer i) n)
  unfolding rdma_write
  rdma_write-Said h i n a = elim (Option-cases (n.endpoint (peer i)).remote_keys) [
    | inl unset ↦ rw unset faults
    | inr (keys, is_keys) ↦ rw is_keys (
        returns (record {
          config = a.config;
          heard_eq = a.heard_eq;
          sent_eq = a.sent_eq;
          timed = a.timed;
        }))
  ]

  count_and_write-Said :
      (h : List ℤ) (id : ℤ) (t : Tally) (n : Node)
      → Said fabric c h s n
      → Ensures (λ _ m. Said fabric c h s m) (count_and_write fabric now id t n)
  unfolding count_and_write
  count_and_write-Said h (negsuc k) t n a = unfold count_completion in faults
  count_and_write-Said h (pos i) t n a = elim (Option-cases (count_completion (pos i) t)) [
    | inl out ↦ rw (out, count_and_write) faults
    | inr (t', e) ↦
        rw (e, count_and_write)
          (eps-rule i n _ (bind (rdma_write-Said h i n a) (λ ret m k. returns k)))
  ]

  pub poll_sent-Said :
      (h : List ℤ) (l : Loop) (n : Node)
      → Said fabric c h s n
      → Ensures (λ _ m. Said fabric c h s m) (poll_sent fabric now l n)
  unfolding poll_sent on_sent
  poll_sent-Said h l n a = bind (tx_poll-Said h l.entry n a) λ p m k.
      elim (Bool-cases (is_positive p.0)) [
        | inr idle ↦ rw idle (returns k)
        | inl hit ↦ rw hit (elim (Option-cases p.1) [
          | inl no_entry ↦ rw no_entry faults
          | inr (e, is_e) ↦ rw is_e (
              bind (count_and_write-Said h (deref e.op_context m).id l.tally m k)
                (λ t k h. returns h))
        ])
      ]

  switch-Said :
      (h : List ℤ) (x : ℤ) (t : Tally) (n : Node)
      → Said fabric c h s n
      → Ensures (λ _ m. Said fabric c h s m) (switch fabric now x t n)
  unfolding switch ctrl_recv
  switch-Said h x t n a = elim (Bool-cases (x ==ℤ bm_stop)) [
    | inl is_stop ↦ rw is_stop (returns a)
    | inr not_stop ↦ rw not_stop (elim (Bool-cases (x ==ℤ bm_checkpoint)) [
      | inl is_check ↦ rw is_check (
          returns (record {
            config = a.config;
            heard_eq = a.heard_eq;
            sent_eq = a.sent_eq;
            timed = refl;
          }))
      | inr unknown ↦ rw unknown (returns a)
    ])
  ]

  send_rows-Said :
      (h : List ℤ) (t : Tally) (n : Node)
      → Said fabric c h s n
      → Ensures
          (λ p m. (ts : List Transfer) × Said fabric c h (row_of c ts ∷ s) m)
          (send_rows fabric now t n)
  unfolding send_rows ctrl_send
  send_rows-Said h t n a = elim (Bool-cases (leb (row_bytes n.config) n.config.ctrl_size)) [
    | inr over ↦ rw over faults
    | inl fits ↦ rw fits (
        returns (
          t.delta,
          record {
            config = a.config;
            heard_eq = a.heard_eq;
            sent_eq = rw (a.config, a.sent_eq);
            timed = a.timed;
          },
        ))
  ]

  -- A command is answered by one row, and ends the loop if it is a stop.
  abbrev pub Replied : List ℤ → ℤ → ℤ × Bool × Tally → Node → Type 0
  Replied h x r m =
      r.0 ≡ pos 0
      → ((ts : List Transfer) × Said fabric c (x ∷ h) (row_of c ts ∷ s) m) × (r.1 ≡ (x ==ℤ bm_stop))

  pub on_command-Replied :
      (h : List ℤ) (x : ℤ) (e : Completion) (t : Tally) (n : Node)
      → Said fabric c (x ∷ h) s n
      → first_int (n.endpoint cep).ctrl_buff ≡ x
      → Ensures (Replied h x) (on_command fabric now e t n)
  unfolding on_command reply
  on_command-Replied h x e t n a b = elim (Bool-cases (e.len == sizeof_int)) [
    | inr wrong ↦ rw wrong (returns (λ z. cc))
    | inl right ↦ rw right (
        bind
          (bind
            (switch-Said (x ∷ h) (first_int (n.endpoint cep).ctrl_buff) _ _ (record {
              config = a.config;
              heard_eq = a.heard_eq;
              sent_eq = a.sent_eq;
              timed = refl;
            }))
            (send_rows-Said (x ∷ h)))
          (λ p m k. returns (λ _. (k, ap (λ y. y ==ℤ bm_stop) b))))
  ]
