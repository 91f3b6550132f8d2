-- ===== src/Node/Client/Benchmark/Answering.antt =====
-- The whole loop of `benchmark` as a conversation: one row for each command, up to the stop.
use libfabric_benchmark.Base.{
  ℕ, zero, suc, List, ◌∷◌, Option, none, some, ◌≡◌, ◌≢◌, refl, ◌∙◌, sym, subst, Bool, true, false,
  Bool-cases, Option-cases, inl, inr, if◌then◌else◌, arith,
}
use libfabric_benchmark.Base.Int.{ℤ, pos, is_nonzero, is_positive, ◌==ℤ◌}
use libfabric_benchmark.Config.{Config, Transfer, bm_stop}
use libfabric_benchmark.Clock.{Timespec}
use libfabric_benchmark.Fabric.{Context, Fabric, Call, Completion}
use libfabric_benchmark.Machine.{Node, Run, done, pure, ◌>>=◌, ◌>>◌, eps, for_each, free_ctx, note}
use libfabric_benchmark.Endpoint.{ctrl_recv, rdma_write}
use libfabric_benchmark.Node.{rounds}
use libfabric_benchmark.Machine.Ensures.{
  Ensures, returns, faults, spins, bind, returned, nonzero_absurd, zero_of_not, IfOk, eps-rule,
  or_return-rule,
}
use libfabric_benchmark.Traffic.{Sent, traffic}
use libfabric_benchmark.Node.Client.Benchmark.{
  Tally, Loop, poll_sent, turn, run, fill_queue, benchmark,
}
use libfabric_benchmark.Node.Client.Benchmark.Conversation.{
  FromController, heard, row_of, Talk, silent, answered, Said,
}
use libfabric_benchmark.Node.Client.Benchmark.Saying.{
  rdma_write-Said, Replied, rx_poll-Heard, poll_sent-Said, on_command-Replied,
}

-- The loop goes on: every command so far was answered, and none was a stop.
abbrev Talking : Fabric → Config → List ℤ → List Sent → Node → Type 0
Talking fabric c h₀ s₀ m = (h : List ℤ) × (s : List Sent) × Talk c h₀ s₀ h s × Said fabric c h s m

-- The loop has ended: the last command was a stop, and was answered too.
abbrev pub Stopped : Fabric → Config → List ℤ → List Sent → Node → Type 0
Stopped fabric c h₀ s₀ m =
    (h : List ℤ) × (s : List Sent) × (ts : List Transfer) × Talk c h₀ s₀ h s
    × Said fabric c (bm_stop ∷ h) (row_of c ts ∷ s) m

module _ (fabric : Fabric) (now : List Call → Option Timespec) (c : Config) (h₀ : List ℤ)
    (s₀ : List Sent) where
  abbrev Goes : Node → Type 0
  Goes = Talking fabric c h₀ s₀

  abbrev Ended : Node → Type 0
  Ended = Stopped fabric c h₀ s₀

  abbrev Turned : Option ℤ × Bool × Loop → Node → Type 0
  Turned t m =
      ((ret : ℤ) → t.0 ≡ some ret → ret ≢ pos 0)
      × (t.0 ≡ none → t.1 ≡ true → Ended m)
      × (t.0 ≡ none → t.1 ≡ false → Goes m)

  stop_word : (x : ℤ) → (x ==ℤ bm_stop) ≡ true → x ≡ bm_stop
  stop_word x e = ground arith

  other_word : (x : ℤ) → (x ==ℤ bm_stop) ≡ false → x ≢ bm_stop
  other_word x e f = ground arith

  commanded_turn :
      (h : List ℤ) (s : List Sent) (x : ℤ) (l : Loop) (e : Completion) (r : ℤ × Bool × Tally)
      (m : Node)
      → Talk c h₀ s₀ h s
      → Replied fabric now c s h x r m
      → Ensures {A = Option ℤ × Bool × Loop} Turned (
          (let l' = record l { tally = r.2; entry = some e } in
              if is_nonzero r.0
              then pure (some r.0, true, l')
              else (poll_sent fabric now l' >>= λ l''. pure (none, r.1, l'')))
            m)
  commanded_turn h s x l e r m talk replied = elim (Bool-cases (is_nonzero r.0)) [
    | inl bad ↦
        rw bad (
          returns
            ((λ ret q z. nonzero_absurd r.0 bad (ground (arith, q, z))), (λ q. cc), (λ q. cc)))
    | inr good ↦
        let ((ts, said), flag) = replied (zero_of_not r.0 good) in
        rw good (
          bind
            (poll_sent-Said fabric now c (row_of c ts ∷ s) (x ∷ h)
              (record l { tally = r.2; entry = some e }) m said)
            (λ l' k a. returns (
              (λ ret q. cc),
              (λ _ f. (
                h,
                s,
                ts,
                talk,
                subst (λ y. Said fabric c (y ∷ h) (row_of c ts ∷ s) k) (stop_word x (sym flag ∙ f))
                    a,
              )),
              (λ _ f.
                  (x ∷ h, row_of c ts ∷ s, answered x ts (other_word x (sym flag ∙ f)) talk, a)),
            )))
  ]

  turn-Turned :
      FromController fabric
      → (l : Loop) (n : Node) → Goes n
      → Ensures {A = Option ℤ × Bool × Loop} Turned (turn fabric now l n)
  unfolding turn
  turn-Turned from l n (h, s, talk, said) =
      bind (rx_poll-Heard fabric now c s from h l.entry n said) λ p m read.
        elim (Bool-cases (is_positive p.0)) [
          | inr idle ↦ rw idle (
              bind (poll_sent-Said fabric now c s h (record l { entry = p.1 }) m (read.1 idle))
                (λ l' k a. returns ((λ ret q. cc), (λ q. cc), (λ _ _. (h, s, talk, a)))))
          | inl hit ↦ rw hit (elim (Option-cases p.1) [
            | inl no_entry ↦ rw no_entry faults
            | inr (e, is_e) ↦
                let (x, a, word) = read.0 hit in
                rw is_e (
                  bind (on_command-Replied fabric now c s h x e l.tally m a word)
                    (λ r k replied. commanded_turn h s x l e r k talk replied))
          ])
        ]

  run-Stopped :
      FromController fabric
      → (turns : ℕ) (l : Loop) (n : Node) → Goes n
      → Ensures (λ p m. p.0 ≡ pos 0 → Ended m) (run fabric now turns l n)
  unfolding run
  run-Stopped from zero l n goes = spins
  run-Stopped from (suc turns) l n goes = bind (turn-Turned from l n goes) λ t m k.
      elim (Option-cases t.0) [
        | inr (ret, is_ret) ↦ rw is_ret (returns (λ z. absurd (k.0 ret is_ret z)))
        | inl go_on ↦ rw go_on (elim (Bool-cases t.1) [
          | inl ended ↦ rw ended (returns (λ _. k.1 go_on ended))
          | inr more ↦ rw more (run-Stopped from turns t.2 m (k.2 go_on more))
        ])
      ]

  -- The first writes send no message.
  write_each-Said :
      (num i : ℕ) (n : Node)
      → Said fabric c h₀ s₀ n
      → Ensures
          (λ _ m. Said fabric c h₀ s₀ m)
          (for_each i num (λ j. eps j >>= λ r. (rdma_write fabric r >>= λ ret. pure (pos 0))) n)
  unfolding for_each
  write_each-Said zero i n a = returns a
  write_each-Said (suc num) i n a =
      bind {P = λ _ m. Said fabric c h₀ s₀ m}
        (eps-rule i n _ (bind (rdma_write-Said fabric now c s₀ h₀ i n a) (λ ret m k. returns k)))
        λ ret m k.
          or_return-rule (Said fabric c h₀ s₀) ret
            (for_each (suc i) num
              (λ j. eps j >>= λ r. (rdma_write fabric r >>= λ ret. pure (pos 0))))
            m k (write_each-Said num (suc i) m)

  fill_queue-Said :
      (queuesize num : ℕ) (n : Node)
      → Said fabric c h₀ s₀ n
      → Ensures (λ _ m. Said fabric c h₀ s₀ m) (fill_queue fabric now queuesize num n)
  unfolding fill_queue
  fill_queue-Said zero num n a = returns a
  fill_queue-Said (suc queuesize) num n a =
      bind (write_each-Said num 0 n a) λ ret m k. fill_queue-Said queuesize num m k

  freed-Ended : (p : Context) (m : Node) → Ended m → Ended (note (Call.free p) m)
  freed-Ended p m (h, s, ts, talk, a) = (
    h,
    s,
    ts,
    talk,
    record { config = a.config; heard_eq = a.heard_eq; sent_eq = a.sent_eq; timed = a.timed },
  )

  -- The end of `benchmark`: the context of the last completion is freed.
  finish-Ended :
      (p : ℤ × Loop) (m : Node)
      → (p.0 ≡ pos 0 → Ended m)
      → Ensures (IfOk Ended) (
          (elim p.1.ctx as (λ _. Run ℤ) [
            | none ↦ pure p.0
            | some q ↦ (if is_nonzero p.0 then pure tt else free_ctx q) >> pure p.0
          ])
            m)
  finish-Ended p m k = elim (Option-cases p.1.ctx) [
    | inl unset ↦ rw unset (returns k)
    | inr (q, is_q) ↦ rw is_q (elim (Bool-cases (is_nonzero p.0)) [
      | inl bad ↦ rw bad (returns k)
      | inr good ↦ rw good (returns (λ z. freed-Ended q m (k z)))
    ])
  ]

  pub benchmark-Ended :
      FromController fabric
      → (unset : ℤ) (turns : ℕ) (n : Node) → n.config ≡ c
      → heard fabric n.log ≡ h₀
      → (traffic fabric n.log).sent ≡ s₀
      → Ensures (IfOk Ended) (benchmark fabric now unset turns n)
  unfolding benchmark ctrl_recv
  benchmark-Ended from unset turns n e f g =
      bind
        (bind
          (fill_queue-Said 10 (rounds n.config.num_pn) _
            (record { config = e; heard_eq = f; sent_eq = g; timed = refl }))
          (λ t m a. run-Stopped from turns _ m (h₀, s₀, silent, a)))
        (λ p m' k. finish-Ended p m' k)

-- When every receive that completes after the clock was first read has a message for the
-- controller's endpoint, and benchmark returns 0, then it has heard commands of which the last
-- and no other is a stop, it has sent one row of transfers to the controller for each command, in
-- their order, and it has sent nothing else.
pub benchmark-answers :
    (fabric : Fabric)
    → FromController fabric
    → (now : List Call → Option Timespec) (unset : ℤ) (turns : ℕ) (n m : Node)
    → benchmark fabric now unset turns n ≡ done (pos 0) m
    → Stopped fabric n.config (heard fabric n.log) (traffic fabric n.log).sent m
benchmark-answers fabric from now unset turns n m e =
    returned
      (benchmark-Ended fabric now n.config (heard fabric n.log) (traffic fabric n.log).sent from
        unset turns n refl refl refl)
      e refl
