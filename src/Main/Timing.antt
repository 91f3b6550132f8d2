-- ===== src/Main/Timing.antt =====
-- The controller's timed loop: when it takes checkpoints, and what they send.
use libfabric_benchmark.Base.{
  ℕ, zero, suc, ◌+◌, List, ◌∷◌, ◌≡◌, refl, ◌∙◌, ap, subst, ◌<◌, length, Option-cases, Bool-cases,
  inl, inr, Bool, true, false, arith,
}
use libfabric_benchmark.Base.Int.{ℤ, pos, is_nonzero, ◌+ℤ◌, ◌≤ℤ◌, ◌<ℤ◌, leb_ℤ, ltb_ℤ}
use libfabric_benchmark.Config.{Config, bm_checkpoint}
use libfabric_benchmark.Clock.{nanos}
use libfabric_benchmark.Fabric.{Fabric, tx, rx}
use libfabric_benchmark.Machine.{Node, done, and_then}
use libfabric_benchmark.Machine.Ensures.{
  Ensures, returns, faults, spins, bind, weaken, returned, nonzero_absurd, zero_of_not,
}
use libfabric_benchmark.Traffic.{Sent, Posted, Traffic, traffic, broadcast, Has, IsDocumented}
use libfabric_benchmark.Node.{rounds}
use libfabric_benchmark.Node.Controller.Phases.{reads}
use libfabric_benchmark.Node.Controller.Protocol.{reads-tx, reads-rx}
use libfabric_benchmark.Node.Controller.Collect.{checkpoint_run}
use libfabric_benchmark.Main.{
  Line, Schedule, report, take_checkpoint, tick, timed_loop, whole_seconds,
}

-- `check` after a number of checkpoints.
abbrev pub checks : ℕ → ℤ → ℤ → ℤ
checks zero step check = check
checks (suc k) step check = checks k step check +ℤ step

-- The messages after a number of checkpoints.
abbrev pub commands : ℕ → ℕ → List Sent → List Sent
commands zero num sent = sent
commands (suc k) num sent = broadcast 0 num bm_checkpoint (commands k num sent)

-- What has happened from one state of the loop to another: `taken` checkpoints, each with its report,
-- its step of `check`, and its command to each of the clients.
pub record IsTimed (fabric : Fabric) (n : Node) (s : Schedule) (taken : ℕ) (m : Node)
    (s' : Schedule) : Type 0 where
  pub config : m.config ≡ n.config
  pub reports : length s'.reports ≡ taken + length s.reports
  pub check : s'.check ≡ checks taken n.config.checkpoint_intervall s.check
  pub sent :
      (traffic fabric m.log).sent
      ≡ commands taken (rounds n.config.num_en) (traffic fabric n.log).sent

pub sent-reads : (num k : ℕ) (t : Traffic) → (reads rx k (reads tx num t)).sent ≡ t.sent
sent-reads num k t = rw (reads-rx k, reads-tx num)

not_less : (a b : ℤ) → ltb_ℤ a b ≡ false → b ≤ℤ a
not_less a b e = ground arith

module _ (fabric : Fabric) (doc : IsDocumented fabric) (fuel : ℕ) (clock : ℕ → ℤ) (n₀ : Node)
    (s₀ : Schedule) where
  abbrev Timed : ℕ → ℤ × Schedule → Node → Type 0
  Timed k p m = p.0 ≡ pos 0 → IsTimed fabric n₀ s₀ k m p.1

  take_checkpoint-Timed :
      (k : ℕ) (s : Schedule) (n : Node)
      → IsTimed fabric n₀ s₀ k n s
      → Ensures (Timed (suc k)) (take_checkpoint fabric fuel clock s n)
  unfolding take_checkpoint
  take_checkpoint-Timed k s n h = bind (checkpoint_run doc fuel n) λ ret m p.
      elim (Bool-cases (is_nonzero ret)) [
        | inl bad ↦ rw bad (returns (λ z. absurd (nonzero_absurd ret bad z)))
        | inr good ↦ rw good (elim (Option-cases (report m.checkpoint m.config)) [
          | inl none_left ↦ rw (none_left, and_then) faults
          | inr (ls, is_ls) ↦
              rw (is_ls, and_then) (returns (λ _. after _ (p (zero_of_not ret good)) ls))
        ])
      ]
    where
      after :
          {m : Node} (v : List Posted)
          → Has fabric n.config
              (reads rx (rounds n.config.num_en) (
                reads tx (rounds n.config.num_en) (record (traffic fabric n.log) {
                  posted = v;
                  sent =
                      broadcast 0
                        (rounds n.config.num_en)
                        bm_checkpoint
                        (traffic fabric n.log).sent;
                })))
              m
          → (ls : List Line)
          → IsTimed fabric n₀ s₀ (suc k) m (record s {
            check = s.check +ℤ m.config.checkpoint_intervall;
            reports = ls ∷ s.reports;
          })
      after {m} v p ls = record {
        config = p.config ∙ h.config;
        reports = ap suc h.reports ∙ omega arith;
        check = rw (p.config, h.config, h.check);
        sent =
            ap (λ t. t.sent) p.traffic_eq
            ∙ sent-reads (rounds n.config.num_en) (rounds n.config.num_en) _
            ∙ rw (h.config, h.sent);
      }

  tick-Timed :
      (k : ℕ) (s : Schedule) (n : Node)
      → IsTimed fabric n₀ s₀ k n s
      → Ensures
          (λ p m. p.0 ≡ pos 0 → (j : ℕ) × IsTimed fabric n₀ s₀ j m p.1)
          (tick fabric fuel clock s n)
  unfolding tick
  tick-Timed k s n h =
      let t = record s { readings = suc s.readings; elapsed = clock s.readings } in
      let h' : IsTimed fabric n₀ s₀ k n t = record {
        config = h.config;
        reports = h.reports;
        check = h.check;
        sent = h.sent;
      } in
      elim (Bool-cases (leb_ℤ s.check (whole_seconds (clock s.readings)))) [
        | inl due ↦ rw due (weaken (take_checkpoint-Timed k t n h') (λ p m f z. (suc k, f z)))
        | inr early ↦ rw early (returns (λ _. (k, h')))
      ]

  pub timed_loop-Timed :
      (turns k : ℕ) (s : Schedule) (n : Node)
      → IsTimed fabric n₀ s₀ k n s
      → Ensures
          (λ p m.
            p.0 ≡ pos 0
            → (j : ℕ) × IsTimed fabric n₀ s₀ j m p.1
              × (nanos n₀.config.max_duration ≤ℤ p.1.elapsed))
          (timed_loop fabric fuel clock turns s n)
  unfolding timed_loop
  timed_loop-Timed zero k s n h = spins
  timed_loop-Timed (suc turns) k s n h =
      elim (Bool-cases (ltb_ℤ s.elapsed (nanos n.config.max_duration))) [
        | inr over ↦ rw over (returns (λ _. (k, h, reached over)))
        | inl time_left ↦ rw time_left (
            bind (tick-Timed k s n h) λ p m f. elim (Bool-cases (is_nonzero p.0)) [
              | inl bad ↦ rw bad (returns (λ z. absurd (nonzero_absurd p.0 bad z)))
              | inr good ↦
                  let (j, g) = f (zero_of_not p.0 good) in
                  rw good (timed_loop-Timed turns j p.1 m g)
            ])
      ]
    where
      reached :
          ltb_ℤ s.elapsed (nanos n.config.max_duration) ≡ false
          → nanos n₀.config.max_duration ≤ℤ s.elapsed
      reached e =
          subst (λ c. nanos c.max_duration ≤ℤ s.elapsed) h.config
            (not_less s.elapsed (nanos n.config.max_duration) e)

-- How the loop has read the clock: not at all, if it started late; or up to the first reading that is
-- not below the duration.
pub data HasRead (clock : ℕ → ℤ) (duration : ℤ) (s s' : Schedule) : Type 0 where
  late :
      duration ≤ℤ s.elapsed
      → s'.readings ≡ s.readings
      → s'.elapsed ≡ s.elapsed
      → HasRead clock duration s s'
  on_time :
      (k : ℕ)
      → s.elapsed <ℤ duration
      → s'.readings ≡ suc (s.readings + k)
      → s'.elapsed ≡ clock (s.readings + k)
      → duration ≤ℤ clock (s.readings + k)
      → ((j : ℕ) → j < k → clock (s.readings + j) <ℤ duration)
      → HasRead clock duration s s'

less : (a b : ℤ) → ltb_ℤ a b ≡ true → a <ℤ b
less a b e = ground arith

module _ (clock : ℕ → ℤ) (duration : ℤ) (s t s' : Schedule) where
  -- One turn before the rest of the loop.
  one_more :
      s.elapsed <ℤ duration
      → t.readings ≡ suc s.readings
      → t.elapsed ≡ clock s.readings
      → HasRead clock duration t s'
      → HasRead clock duration s s'
  one_more h r e (late over r' e') =
      on_time 0 h (r' ∙ r ∙ omega arith) (e' ∙ e ∙ ap clock (omega arith))
        (subst (λ x. duration ≤ℤ x) (e ∙ ap clock (omega arith)) over)
        (λ j lt. absurd (omega arith))
  one_more h r e (on_time k before r' e' over all) =
      on_time (suc k) h (r' ∙ ground (arith, r)) (e' ∙ ap clock (shift k))
        (subst (λ x. duration ≤ℤ x) (ap clock (shift k)) over) earlier
    where
      shift : (k : ℕ) → t.readings + k ≡ s.readings + suc k
      shift k = ground (arith, r)

      earlier : (j : ℕ) → j < suc k → clock (s.readings + j) <ℤ duration
      earlier zero lt = subst (λ x. x <ℤ duration) (e ∙ ap clock (omega arith)) before
      earlier (suc j) lt = subst (λ x. x <ℤ duration) (ap clock (shift j)) (all j (omega arith))

module _ (fabric : Fabric) (doc : IsDocumented fabric) (fuel : ℕ) (clock : ℕ → ℤ) (c : Config) where
  -- A turn that succeeds has read the clock once.
  abbrev ReadOnce : Schedule → ℤ × Schedule → Node → Type 0
  ReadOnce s p m =
      p.0 ≡ pos 0
      → (m.config ≡ c) × (p.1.readings ≡ suc s.readings) × (p.1.elapsed ≡ clock s.readings)

  tick-ReadOnce :
      (s : Schedule) (n : Node) → n.config ≡ c → Ensures (ReadOnce s) (tick fabric fuel clock s n)
  unfolding tick take_checkpoint
  tick-ReadOnce s n h = elim (Bool-cases (leb_ℤ s.check (whole_seconds (clock s.readings)))) [
    | inr early ↦ rw early (returns (λ _. (h, refl, refl)))
    | inl due ↦ rw due (
        bind (checkpoint_run doc fuel n) λ ret m p. elim (Bool-cases (is_nonzero ret)) [
          | inl bad ↦ rw bad (returns (λ z. absurd (nonzero_absurd ret bad z)))
          | inr good ↦ rw good (elim (Option-cases (report m.checkpoint m.config)) [
            | inl none_left ↦ rw (none_left, and_then) faults
            | inr (ls, is_ls) ↦
                rw (is_ls, and_then)
                  (returns (λ _. ((p (zero_of_not ret good)).config ∙ h, refl, refl)))
          ])
        ])
  ]

  timed_loop-HasRead :
      (turns : ℕ) (s : Schedule) (n : Node)
      → n.config ≡ c
      → Ensures
          (λ p m. p.0 ≡ pos 0 → HasRead clock (nanos c.max_duration) s p.1)
          (timed_loop fabric fuel clock turns s n)
  unfolding timed_loop
  timed_loop-HasRead zero s n h = spins
  timed_loop-HasRead (suc turns) s n h =
      elim (Bool-cases (ltb_ℤ s.elapsed (nanos n.config.max_duration))) [
        | inr over ↦
            rw over (
              returns (λ _. late (not_less s.elapsed (nanos c.max_duration) (here over)) refl refl))
        | inl time_left ↦ rw time_left (
            bind (tick-ReadOnce s n h) λ p m f. elim (Bool-cases (is_nonzero p.0)) [
              | inl bad ↦ rw bad (returns (λ z. absurd (nonzero_absurd p.0 bad z)))
              | inr good ↦
                  let (kept, r, e) = f (zero_of_not p.0 good) in
                  rw good (
                    weaken (timed_loop-HasRead turns p.1 m kept) (λ q k g z.
                      one_more clock (nanos c.max_duration) s p.1 q.1
                        (less s.elapsed (nanos c.max_duration) (here time_left)) r e (g z)))
            ])
      ]
    where
      here :
          {b : Bool}
          → ltb_ℤ s.elapsed (nanos n.config.max_duration) ≡ b
          → ltb_ℤ s.elapsed (nanos c.max_duration) ≡ b
      here {b} e = subst (λ (d : Config). ltb_ℤ s.elapsed (nanos d.max_duration) ≡ b) h e

-- When the controller's timed loop ends without an error, it has either started with an elapsed
-- time not below max_duration and read no clock, or it has read its clock until the first reading
-- that is not below max_duration, which is the elapsed time at the end, with every reading before
-- it below; and for some number of checkpoints, check was stepped by the interval, one report was
-- written, and the checkpoint command was sent to each client in order, once for each checkpoint,
-- and nothing else was sent. libfabric's queues never report a status of 0.
pub timed_loop-IsTimed :
    (fabric : Fabric)
    → IsDocumented fabric
    → (fuel turns : ℕ) (clock : ℕ → ℤ) (s s' : Schedule) (n m : Node)
    → timed_loop fabric fuel clock turns s n ≡ done (pos 0, s') m
    → (taken : ℕ) × IsTimed fabric n s taken m s' × HasRead clock (nanos n.config.max_duration) s s'
timed_loop-IsTimed fabric doc fuel turns clock s s' n m e =
    let (taken, timed, over) =
      returned
        (timed_loop-Timed fabric doc fuel clock n s turns 0 s n
          (record { config = refl; reports = omega arith; check = refl; sent = refl }))
        e refl in
    (
      taken,
      timed,
      returned (timed_loop-HasRead fabric doc fuel clock n.config turns s n refl) e refl,
    )
