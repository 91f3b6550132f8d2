-- ===== src/Main/Completing.antt =====
-- The controller's program once its hosts are connected, on a network whose clients answer.
use libfabric_benchmark.Base.{
  [], ℕ, zero, suc, ◌+◌, ◌*◌, ◌<◌, ◌≤◌, List, ◌≡◌, ◌≢◌, refl, ◌∙◌, sym, ap, subst, length, Bool,
  false, true, Bool-cases, inl, inr, arith,
}
use libfabric_benchmark.Base.Int.{ℤ, pos, is_nonzero, ltb_ℤ, leb_ℤ, ◌+ℤ◌}
use libfabric_benchmark.Config.{Config, Transfer, bm_controller}
use libfabric_benchmark.Clock.{nanos}
use libfabric_benchmark.Fabric.{Fabric, Ref}
use libfabric_benchmark.Machine.{
  Node, Outcome, done, fault, spin, Run, get, ◌>>=◌, ◌>>◌, or_return, and_then,
}
use libfabric_benchmark.Machine.Returns.{Returns, returned, bind}
use libfabric_benchmark.Node.{rounds}
use libfabric_benchmark.Endpoint.{Raw}
use libfabric_benchmark.Machine.Ensures.{nonzero_absurd}
use libfabric_benchmark.Node.Init.{init}
use libfabric_benchmark.Node.Listen.{listen_controller}
use libfabric_benchmark.Node.Controller.{controller_connect, controller_start, controller_stop}
use libfabric_benchmark.Node.Controller.Starting.{IsReliable}
use libfabric_benchmark.Node.Controller.Cooperation.{Cooperates}
use libfabric_benchmark.Node.Controller.Cooperation.Standing.{Stands}
use libfabric_benchmark.Node.Controller.Succeeding.{
  HasRoom, forget, connect-At, start-At, checkpoint-At, stop-At,
}
use libfabric_benchmark.Main.{
  Line, Schedule, whole_seconds, take_checkpoint, tick, timed_loop, on_success, final_report,
  first_schedule, count_endpoints, controller,
}
use libfabric_benchmark.Main.Written.{report-Written}

-- The clock has passed the duration at one of its readings.
abbrev pub Passes : (ℕ → ℤ) → ℤ → ℕ → Type 0
Passes clock duration r = ltb_ℤ (clock r) (nanos duration) ≡ false

module _ (fabric : Fabric) (bound : ℕ) (h : IsReliable fabric bound) (size tab : ℕ) (c : Config)
    (coop : Cooperates fabric bound (rounds c.num_en) c) (fits : HasRoom size tab c)
    (clock : ℕ → ℤ) where
  abbrev At : ℕ → Node → Type 0
  At upto n = Stands (rounds c.num_en) size tab c upto n

  -- A run that has returned 0 with its schedule.
  abbrev Ticked : ℕ → ℤ → ℤ × Schedule → Node → Type 0
  Ticked readings elapsed p m =
      (p.0 ≡ pos 0) × (p.1.readings ≡ readings) × (p.1.elapsed ≡ elapsed) × At 0 m

  take_checkpoint-Ticked :
      (s : Schedule) (n : Node)
      → At 0 n
      → Returns (Ticked s.readings s.elapsed) (take_checkpoint fabric bound clock s n)
  unfolding take_checkpoint
  take_checkpoint-Ticked s n a =
      bind (checkpoint-At fabric bound h size tab c coop fits n a) λ ret m k.
        let (ls, e) = report-Written m.config m.checkpoint (room m k.1) in
        rw (k.0, e, and_then)
          (returned (refl, refl, refl, forget fabric bound h size tab c coop fits k.1))
    where
      room :
          {upto : ℕ} (m : Node)
          → At upto m
          → rounds m.config.num_en * rounds m.config.num_pn ≤ length m.checkpoint
      room m s =
          subst (λ (d : Config). rounds d.num_en * rounds d.num_pn ≤ length m.checkpoint)
            (sym s.config)
            (subst (λ k. rounds c.num_en * rounds c.num_pn ≤ k) (sym s.table) fits.tables)

  tick-Ticked :
      (s : Schedule) (n : Node)
      → At 0 n
      → Returns (Ticked (suc s.readings) (clock s.readings)) (tick fabric bound clock s n)
  unfolding tick
  tick-Ticked s n a = elim (Bool-cases (leb_ℤ s.check (whole_seconds (clock s.readings)))) [
    | inl due ↦ rw due (
        take_checkpoint-Ticked (record s { readings = suc s.readings; elapsed = clock s.readings })
          n a)
    | inr early ↦ rw early (returned (refl, refl, refl, a))
  ]

  timed_loop-Ends :
      (r turns : ℕ) (s : Schedule) (n : Node)
      → Passes clock c.max_duration r
      → At 0 n
      → s.readings ≤ suc r
      → (s.readings ≡ suc r → ltb_ℤ s.elapsed (nanos c.max_duration) ≡ false)
      → suc r < s.readings + turns
      → Returns (λ p m. (p.0 ≡ pos 0) × At 0 m) (timed_loop fabric bound clock turns s n)
  unfolding timed_loop
  timed_loop-Ends r zero s n passes a le over enough = absurd (omega arith)
  timed_loop-Ends r (suc turns) s n passes a le over enough =
      elim (Bool-cases (ltb_ℤ s.elapsed (nanos c.max_duration))) [
        | inr ended ↦ rw (at_duration a ∙ ended) (returned (refl, a))
        | inl more ↦
            let before = not_last more in
            rw (at_duration a ∙ more) (
              bind (tick-Ticked s n a) λ p m k. rw (k.0) (
                timed_loop-Ends r turns p.1 m passes k.3 (next_le before k.1) (passed k.1 k.2)
                  (next_enough k.1)))
      ]
    where
      at_duration :
          At 0 n
          → ltb_ℤ s.elapsed (nanos n.config.max_duration) ≡ ltb_ℤ s.elapsed (nanos c.max_duration)
      at_duration a = ap (λ (d : Config). ltb_ℤ s.elapsed (nanos d.max_duration)) a.config

      not_last : ltb_ℤ s.elapsed (nanos c.max_duration) ≡ true → s.readings ≢ suc r
      not_last more e = both (ltb_ℤ s.elapsed (nanos c.max_duration)) more (over e)
        where
          both : (b : Bool) → b ≡ true → b ≡ false → ⊥
          both b e f = cc

      next_le : {k : ℕ} → s.readings ≢ suc r → k ≡ suc s.readings → k ≤ suc r
      next_le before e = ground (arith, before, e, le)

      next_enough : {k : ℕ} → k ≡ suc s.readings → suc r < k + turns
      next_enough e = ground (arith, e, enough)

      passed :
          {k : ℕ} {x : ℤ}
          → k ≡ suc s.readings
          → x ≡ clock s.readings
          → k ≡ suc r
          → ltb_ℤ x (nanos c.max_duration) ≡ false
      passed {x} e f g =
          subst (λ y. ltb_ℤ y (nanos c.max_duration) ≡ false) (sym (f ∙ ap clock (same e g))) passes
        where
          same : {k : ℕ} → k ≡ suc s.readings → k ≡ suc r → s.readings ≡ r
          same e g = ground (arith, e, g)

  -- The program after the connections.
  abbrev measured : ℕ → ℤ → Run (ℤ × List (List Line))
  measured turns unset = controller_connect fabric bound >>= λ c.
      on_success fabric bound clock c [] (
        controller_start fabric bound >>= λ d. on_success fabric bound clock d [] (
          get >>= λ n.
          timed_loop fabric bound clock turns (first_schedule fabric bound clock unset n.config)
          >>= λ e. on_success fabric bound clock e.0 e.1.reports (
              controller_stop fabric bound turns >>= λ f.
              on_success fabric bound clock f e.1.reports
                (final_report fabric bound clock e.1.reports))))

  abbrev Reported : ℤ × List (List Line) → Node → Type 0
  Reported p m = p.0 ≡ pos 0

  final_report-Reported :
      {upto : ℕ} (reports : List (List Line)) (n : Node)
      → At upto n
      → Returns Reported (final_report fabric bound clock reports n)
  final_report-Reported reports n s =
      let (ls, e) = report-Written n.config n.summary (
        subst (λ (d : Config). rounds d.num_en * rounds d.num_pn ≤ length n.summary) (sym s.config)
          (subst (λ k. rounds c.num_en * rounds c.num_pn ≤ k) (sym s.summary) fits.tables)) in
      rw (e, and_then) (returned refl)

  pub measured-Reported :
      (r turns : ℕ) (unset : ℤ) (n : Node)
      → Passes clock c.max_duration r
      → suc r < turns
      → rounds (c.num_en +ℤ c.num_pn) ≤ turns
      → At 0 n
      → Returns Reported (measured turns unset n)
  measured-Reported r turns unset n passes enough hosts s =
      bind (connect-At fabric bound h size tab c coop fits n s) λ a m k. rw (k.0) (
        bind (start-At fabric bound h size tab c coop fits (rounds c.num_en) m k.1) λ a m k.
          rw (k.0) (
            bind
              (timed_loop-Ends r turns (first_schedule fabric bound clock unset m.config) m passes
                (forget fabric bound h size tab c coop fits k.1) (omega arith)
                (λ e. absurd (omega arith)) (ground (arith, enough)))
              λ e m k. rw (k.0) (
                bind (stop-At fabric bound h size tab c coop fits turns m hosts k.1)
                  λ f m k. rw (k.0) (final_report-Reported e.1.reports m k.1))))

-- What follows a part of the program that has returned 0.
module _ (fabric : Fabric) (fuel : ℕ) (clock : ℕ → ℤ) (l : Run ℤ)
    (rest : Run (ℤ × List (List Line))) where
  abbrev step : ℤ → List (List Line) → Run (ℤ × List (List Line)) → Run (ℤ × List (List Line))
  step = on_success fabric fuel clock

  after_connecting :
      (r : Outcome ℤ) (m : Node)
      → and_then r (λ a. or_return a l) ≡ done (pos 0) m
      → and_then r (λ a. step a [] (l >>= λ b. step b [] rest)) ≡ rest m
  after_connecting fault m e = cc
  after_connecting spin m e = cc
  after_connecting (done a n) m e = elim (Bool-cases (is_nonzero a)) [
    | inl bad ↦ absurd (nonzero_absurd a bad (status_of (rw bad at e)))
    | inr good ↦ rw good (rw (listened (rw good at e)) refl)
  ]
    where
      status_of : {x : ℤ} {k : Node} → Path (Outcome ℤ) (done x k) (done (pos 0) m) → x ≡ pos 0
      status_of e = cc

      listened : l n ≡ done (pos 0) m → l n ≡ done (pos 0) m
      listened e = e

value_zero :
    (r : Outcome (ℤ × List (List Line)))
    → Returns (λ p m. p.0 ≡ pos 0) r
    → (reports : List (List Line)) × (m : Node) × (r ≡ done (pos 0, reports) m)
value_zero r (returned {a} {m} e) = (a.1, m, ap (λ x. done (x, a.1) m) e)

-- When the controller's program has got through init and listenController, which return 0, its
-- whole run returns 0, with its reports, if: every call of libfabric returns 0; every completion
-- queue has a completion within a bound of polls, each receive that completes after the command
-- connect has a client's confirmation, and each that completes after a checkpoint or the stop a
-- client's row; after the stop the event queue has a disconnection within the bound; the fuel is
-- the bound; a reading of the clock is not below max_duration; there are more turns than readings
-- up to it, and a turn for each host; and once it listens, the node is a controller with an
-- endpoint for each host, each client's under the client's number, num_pn is not negative, a row
-- is not longer than the control buffer, and the two tables are of one length, with a place for
-- each client and server.
pub controller-completes :
    (fabric : Fabric) (bound tab r turns : ℕ) (clock : ℕ → ℤ) (raw : Ref → Raw)
    (summary checkpoint : List Transfer) (unset : ℤ) (n m : Node)
    → ((count_endpoints fabric bound clock
            >> init raw fabric bm_controller summary checkpoint
            >>= λ a. or_return a (listen_controller fabric bound turns))
          n
        ≡ done (pos 0) m)
    → Stands (rounds m.config.num_en) m.eps_size tab m.config 0 m
    → HasRoom m.eps_size tab m.config
    → IsReliable fabric bound
    → Cooperates fabric bound (rounds m.config.num_en) m.config
    → Passes clock m.config.max_duration r
    → suc r < turns
    → rounds (m.config.num_en +ℤ m.config.num_pn) ≤ turns
    → (reports : List (List Line)) × (m' : Node) × (controller fabric bound clock raw summary
          checkpoint turns unset n
        ≡ done (pos 0, reports) m')
unfolding controller
controller-completes fabric bound tab r turns clock raw summary checkpoint unset n m e stands fits h
      coop passes enough hosts =
    let rest = measured fabric bound h m.eps_size tab m.config coop fits clock turns unset in
    let (reports, m', f) = value_zero (rest m) (
      measured-Reported fabric bound h m.eps_size tab m.config coop fits clock r turns unset m
        passes enough hosts stands) in
    (
      reports,
      m',
      after_connecting fabric bound clock (listen_controller fabric bound turns) rest
            ((count_endpoints fabric bound clock
                >> init raw fabric bm_controller summary checkpoint)
              n)
            m e
          ∙ f,
    )
