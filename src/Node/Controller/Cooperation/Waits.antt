-- ===== src/Node/Controller/Cooperation/Waits.antt =====
-- What a node's waits bring when the clients answer.
use libfabric_benchmark.Base.{
  ℕ, zero, suc, ◌<◌, List, ◌∷◌, Option, some, ◌≡◌, ◌≢◌, refl, ◌∙◌, ap, arith,
}
use libfabric_benchmark.Base.Int.{ℤ, pos}
use libfabric_benchmark.Config.{Config, bm_stop}
use libfabric_benchmark.Fabric.{
  Fabric, Queue, rx, peer, Message, Call, cq_read, eq_read, shutdown, Completion, CqReply, EqReply,
}
use libfabric_benchmark.Machine.{Node, Outcome, done, update, note}
use libfabric_benchmark.Poll.{sort, Polled, ready, retry, deliver, wait_comp, wait_cm_event}
use libfabric_benchmark.Poll.Answers.{after, answer, wait_comp-after}
use libfabric_benchmark.Node.Controller.Starting.{IsReliable}
use libfabric_benchmark.Node.Controller.Cooperation.{
  last_command, entry_at, Receives, events_after, NoEvents, Cooperates,
}

pub log-deliver : (r : CqReply) (n : Node) → (deliver r n).log ≡ n.log
log-deliver r n = ground arith

last_command-after :
    (fabric : Fabric) (q : Queue) (k : ℕ) (l : List Call)
    → last_command (after fabric q k l) ≡ last_command l
last_command-after fabric q zero l = refl
last_command-after fabric q (suc k) l = last_command-after fabric q k (cq_read q ∷ l)

last_command-events : (k : ℕ) (l : List Call) → last_command (events_after k l) ≡ last_command l
last_command-events zero l = refl
last_command-events (suc k) l = last_command-events k (eq_read ∷ l)

-- The node with a message in the control buffer of its endpoint `i`.
abbrev pub held : ℕ → Message → List Call → Node → Node
held i w l n = update (peer i) (λ e. record e { ctrl_buff = w }) (record n { log = cq_read rx ∷ l })

module _ (fabric : Fabric) (bound : ℕ) (h : IsReliable fabric bound) where
  -- A wait ends with the poll that is ready.
  pub wait_comp-reads :
      (q : Queue) (entry : Option Completion) (n : Node)
      → (l : List Call) × (last_command l ≡ last_command n.log)
        × (sort (fabric.poll_cq l q).status ≡ ready)
        × (wait_comp fabric bound q entry n
            ≡ done
                (pos 0, some (fabric.poll_cq l q).entry)
                (deliver (fabric.poll_cq l q) (record n { log = cq_read q ∷ l })))
  wait_comp-reads q entry n =
      let (k, lt, again, good) = h.completes q n.log in
      let l = after fabric q k n.log in
      let r = fabric.poll_cq l q in
      (
        l,
        last_command-after fabric q k n.log,
        good,
        wait_comp-after fabric q k bound entry n lt again (λ e. not_retry (sort r.status) good e)
            ∙ ap (λ s. answer fabric q s r entry (record n { log = l })) good,
      )
    where
      not_retry : (s : Polled) → s ≡ ready → s ≢ retry
      not_retry s a b = cc

  -- A wait for a message that a client sends.
  pub wait_comp-Receives :
      (num len : ℕ) (P : Message → Type 0) (cmd : ℤ) (entry : Option Completion) (n : Node)
      → ((l : List Call) → last_command l ≡ cmd → Receives fabric num len P l)
      → last_command n.log ≡ cmd
      → (i : ℕ) × (w : Message) × (l : List Call) × (i < num)
        × P w
        × (last_command l ≡ cmd)
        × (wait_comp fabric bound rx entry n ≡ done (pos 0, some (entry_at len i)) (held i w l n))
  wait_comp-Receives num len P cmd entry n receives last =
      let (l, same, good, e) = wait_comp-reads rx entry n in
      let (i, w, lt, is_p, is_w, is_e) = receives l (same ∙ last) good in
      (i, w, l, lt, is_p, same ∙ last, e ∙ received (fabric.poll_cq l rx) i w l good is_w is_e)
    where
      received :
          (r : CqReply) (i : ℕ) (w : Message) (l : List Call)
          → sort r.status ≡ ready
          → r.payload ≡ some w
          → r.entry ≡ entry_at len i
          → Path
              (Outcome (ℤ × Option Completion))
              (done (pos 0, some r.entry) (deliver r (record n { log = cq_read rx ∷ l })))
              (done (pos 0, some (entry_at len i)) (held i w l n))
      received r i w l good is_w is_e = rw (good, deliver, is_w, is_e) refl

  -- A wait for an event, after the polls that are told to try again.
  wait_cm_event-after :
      (k fuel : ℕ) (n : Node)
      → k < fuel
      → NoEvents fabric k n.log
      → sort (fabric.poll_eq (events_after k n.log)).status ≡ ready
      → (fabric.poll_eq (events_after k n.log)).event ≡ shutdown
      → wait_cm_event fabric fuel n
        ≡ done
            (pos 0, fabric.poll_eq (events_after k n.log))
            (record n { log = eq_read ∷ events_after k n.log })
  unfolding wait_cm_event
  wait_cm_event-after k zero n lt none_yet good is_shutdown = absurd (omega arith)
  wait_cm_event-after zero (suc fuel) n lt none_yet good is_shutdown =
      rw (good, wait_cm_event, is_shutdown) refl
  wait_cm_event-after (suc k) (suc fuel) n lt none_yet good is_shutdown =
      rw (none_yet.0, wait_cm_event)
        (wait_cm_event-after k fuel (note eq_read n) (omega arith) none_yet.1 good is_shutdown)

  -- A wait for an event after the stop brings a disconnection.
  pub wait_cm_event-disconnects :
      {num : ℕ} {c : Config}
      → Cooperates fabric bound num c
      → (n : Node) → last_command n.log ≡ bm_stop
      → (r : EqReply) × (l : List Call) × (last_command l ≡ bm_stop)
        × (r.event ≡ shutdown)
        × (wait_cm_event fabric bound n ≡ done (pos 0, r) (record n { log = l }))
  wait_cm_event-disconnects coop n last =
      let (k, lt, none_yet, good, is_shutdown) = coop.disconnects n.log last in
      (
        fabric.poll_eq (events_after k n.log),
        eq_read ∷ events_after k n.log,
        last_command-events k n.log ∙ last,
        is_shutdown,
        wait_cm_event-after k bound n lt none_yet good is_shutdown,
      )
