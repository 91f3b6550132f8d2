-- ===== src/Main/Campaign.antt =====
-- The controller's program from its start to its end: the commands that it sends.
use libfabric_benchmark.Base.{
  ℕ, zero, suc, ◌+◌, List, [], ◌≡◌, refl, ◌∙◌, ap, subst, length, Option-cases, Bool-cases, inl,
  inr, arith,
}
use libfabric_benchmark.Base.Int.{ℤ, pos, is_nonzero, ◌+ℤ◌}
use libfabric_benchmark.Config.{
  Config, Transfer, sizeof_int, bm_start, bm_connect, bm_stop, bm_checkpoint,
}
use libfabric_benchmark.Fabric.{Fabric, Ref, tx, rx}
use libfabric_benchmark.Machine.{Node, Run, done, ◌>>=◌, and_then}
use libfabric_benchmark.Machine.Ensures.{
  Ensures, returns, faults, bind, weaken, returned, IfOk, nonzero_absurd, zero_of_not,
}
use libfabric_benchmark.Endpoint.{Raw, or_ctrl_size}
use libfabric_benchmark.Traffic.{Sent, Posted, traffic, broadcast, posts, Has, IsDocumented}
use libfabric_benchmark.Traffic.Orders.{orders, orders-broadcast, HasOrders, Has-HasOrders}
use libfabric_benchmark.Node.{rounds, row_bytes}
use libfabric_benchmark.Node.Init.Quiet.{init_controller-Quiet}
use libfabric_benchmark.Node.Listen.Silent.{listen_controller-HasOrders}
use libfabric_benchmark.Node.Controller.{controller_connect, controller_start, controller_stop}
use libfabric_benchmark.Node.Controller.Phases.{reads}
use libfabric_benchmark.Node.Controller.Protocol.{connect_run, start_run}
use libfabric_benchmark.Node.Controller.Collect.{stop_run}
use libfabric_benchmark.Main.{
  Line, Schedule, report, timed_loop, on_success, final_report, first_schedule, controller,
}
use libfabric_benchmark.Main.Timing.{commands, timed_loop-Timed, sent-reads}

orders-commands :
    (k num : ℕ) (l : List Sent) → orders (commands k num l) ≡ commands k num (orders l)
orders-commands zero num l = refl
orders-commands (suc k) num l =
    orders-broadcast num 0 bm_checkpoint (commands k num l)
    ∙ ap (broadcast 0 num bm_checkpoint) (orders-commands k num l)

-- The commands of a whole run, the latest first: connect and start to each client, the checkpoints
-- to each client, and stop to each client and each server.
abbrev pub campaign : ℕ → ℕ → ℕ → List Sent → List Sent
campaign taken num all l =
    broadcast 0 all bm_stop
      (commands taken num (broadcast 0 num bm_start (broadcast 0 num bm_connect l)))

module _ (fabric : Fabric) (doc : IsDocumented fabric) (fuel : ℕ) (c : Config) where
  abbrev num : ℕ
  num = rounds c.num_en

  abbrev all : ℕ
  all = rounds (c.num_en +ℤ c.num_pn)

  -- A command to the first `k` endpoints, and any number of completions read.
  commanded :
      (k : ℕ) (cmd : ℤ) (a b : ℕ) (posted : List Posted) {l : List Sent} {n m : Node}
      → HasOrders fabric c l n
      → Has fabric n.config
          (reads rx b (
            reads tx a (record (traffic fabric n.log) {
              sent = broadcast 0 k cmd (traffic fabric n.log).sent;
              posted = posted;
            })))
          m
      → HasOrders fabric c (broadcast 0 k cmd l) m
  commanded k cmd a b posted {l} {n} {m} h p = record {
    config = p.config ∙ h.config;
    sent =
        ap (λ t. orders t.sent) p.traffic_eq
        ∙ ap orders (sent-reads a b _)
        ∙ orders-broadcast k 0 cmd (traffic fabric n.log).sent
        ∙ ap (broadcast 0 k cmd) h.sent;
  }

  connect-HasOrders :
      (l : List Sent) (n : Node)
      → HasOrders fabric c l n
      → Ensures
          (IfOk (HasOrders fabric c (broadcast 0 num bm_connect l)))
          (controller_connect fabric fuel n)
  connect-HasOrders l n h = weaken (connect_run doc fuel n) λ ret m p z.
      subst (λ c'. HasOrders fabric c (broadcast 0 (rounds c'.num_en) bm_connect l) m) h.config
        (commanded (rounds n.config.num_en) bm_connect (rounds n.config.num_en)
          (rounds n.config.num_en)
          (posts 0 (rounds n.config.num_en) sizeof_int (traffic fabric n.log).posted) h (p z))

  start-HasOrders :
      (l : List Sent) (n : Node)
      → HasOrders fabric c l n
      → Ensures
          (IfOk (HasOrders fabric c (broadcast 0 num bm_start l)))
          (controller_start fabric fuel n)
  start-HasOrders l n h = weaken (start_run doc fuel n) λ ret m p z.
      subst (λ c'. HasOrders fabric c (broadcast 0 (rounds c'.num_en) bm_start l) m) h.config
        (commanded (rounds n.config.num_en) bm_start (rounds n.config.num_en) 0
          (traffic fabric n.log).posted h (p z))

  stop-HasOrders :
      (turns : ℕ) (l : List Sent) (n : Node)
      → HasOrders fabric c l n
      → Ensures
          (IfOk (HasOrders fabric c (broadcast 0 all bm_stop l)))
          (controller_stop fabric fuel turns n)
  stop-HasOrders turns l n h = weaken (stop_run doc fuel turns n) λ ret m p z.
      subst (λ c'. HasOrders fabric c (broadcast 0 (rounds (c'.num_en +ℤ c'.num_pn)) bm_stop l) m)
        h.config
        (commanded (rounds (n.config.num_en +ℤ n.config.num_pn)) bm_stop
          (rounds (n.config.num_en +ℤ n.config.num_pn)) (rounds n.config.num_en)
          (posts 0 (rounds n.config.num_en) (or_ctrl_size (row_bytes n.config) n.config)
            (traffic fabric n.log).posted)
          h (p z))

  -- The timed loop, from its first schedule.
  loop-HasOrders :
      (clock : ℕ → ℤ) (turns : ℕ) (s : Schedule) (l : List Sent) (n : Node)
      → HasOrders fabric c l n
      → Ensures
          (λ p m.
            p.0 ≡ pos 0
            → (k : ℕ) × HasOrders fabric c (commands k num l) m
              × (length p.1.reports ≡ k + length s.reports))
          (timed_loop fabric fuel clock turns s n)
  loop-HasOrders clock turns s l n h =
      weaken
        (timed_loop-Timed fabric doc fuel clock n s turns 0 s n
          (record { config = refl; reports = omega arith; check = refl; sent = refl }))
        λ p m f z.
          let (k, t, over) = f z in
          (
            k,
            record {
              config = t.config ∙ h.config;
              sent =
                  ap orders t.sent
                  ∙ orders-commands k (rounds n.config.num_en) (traffic fabric n.log).sent
                  ∙ ap (commands k (rounds n.config.num_en)) h.sent
                  ∙ ap (λ c'. commands k (rounds c'.num_en) l) h.config;
            },
            t.reports,
          )

-- A status and the reports, of which the predicate speaks only without an error.
abbrev IfReported : (List (List Line) → Node → Type 0) → ℤ × List (List Line) → Node → Type 0
IfReported Q p m = p.0 ≡ pos 0 → Q p.1 m

-- One phase of the program, whose status is tested.
phase :
    (P : Node → Type 0) (Q : List (List Line) → Node → Type 0) (fabric : Fabric) (fuel : ℕ)
    (clock : ℕ → ℤ) (ret : ℤ) (reports : List (List Line)) (rest : Run (ℤ × List (List Line)))
    (m : Node)
    → (ret ≡ pos 0 → P m)
    → (P m → Ensures (IfReported Q) (rest m))
    → Ensures (IfReported Q) (on_success fabric fuel clock ret reports rest m)
phase P Q fabric fuel clock ret reports rest m h f = elim (Bool-cases (is_nonzero ret)) [
  | inl bad ↦ rw bad (returns (λ z. absurd (nonzero_absurd ret bad z)))
  | inr good ↦ rw good (f (h (zero_of_not ret good)))
]

-- What a run of the program has done.
abbrev pub Ran : Fabric → Config → List Sent → List (List Line) → Node → Type 0
Ran fabric c l reports m =
    (taken : ℕ) × (length reports ≡ suc taken)
    × (orders (traffic fabric m.log).sent
        ≡ campaign taken (rounds c.num_en) (rounds (c.num_en +ℤ c.num_pn)) l)

module _ (fabric : Fabric) (doc : IsDocumented fabric) (fuel : ℕ) (clock : ℕ → ℤ) where
  final_report-Ran :
      (c : Config) (l : List Sent) (taken : ℕ) (reports : List (List Line)) (n : Node)
      → (length reports ≡ taken)
      → HasOrders fabric c (campaign taken (num fabric doc fuel c) (all fabric doc fuel c) l) n
      → Ensures (IfReported (Ran fabric c l)) (final_report fabric fuel clock reports n)
  final_report-Ran c l taken reports n e h = elim (Option-cases (report n.summary n.config)) [
    | inl missing ↦ rw (missing, and_then) faults
    | inr (ls, is_ls) ↦ rw (is_ls, and_then) (returns (λ _. (taken, ap suc e, h.sent)))
  ]

  -- The program after the start command.
  ending-Ran :
      (c : Config) (l : List Sent) (turns : ℕ) (unset : ℤ) (n : Node)
      → HasOrders fabric c
          (broadcast 0 (rounds c.num_en) bm_start (broadcast 0 (rounds c.num_en) bm_connect l))
          n
      → Ensures (IfReported (Ran fabric c l)) (
          (timed_loop fabric fuel clock turns (first_schedule fabric fuel clock unset n.config)
              >>= λ e. on_success fabric fuel clock e.0 e.1.reports (
                  controller_stop fabric fuel turns >>= λ f.
                  on_success fabric fuel clock f e.1.reports
                    (final_report fabric fuel clock e.1.reports)))
            n)
  ending-Ran c l turns unset n h =
      let num = rounds c.num_en in
      let started = broadcast 0 num bm_start (broadcast 0 num bm_connect l) in
      let Q = Ran fabric c l in
      bind
        (loop-HasOrders fabric doc fuel c clock turns
          (first_schedule fabric fuel clock unset n.config) started n h)
        λ e m g.
          phase
            (λ m.
              (k : ℕ) × HasOrders fabric c (commands k num started) m
              × (length e.1.reports ≡ k + 0))
            Q fabric fuel clock e.0 e.1.reports _ m g
            λ (k, at, written).
              bind (stop-HasOrders fabric doc fuel c turns (commands k num started) m at) λ f m' k'.
                phase (HasOrders fabric c (campaign k num (rounds (c.num_en +ℤ c.num_pn)) l)) Q
                  fabric fuel clock f e.1.reports _ m' k'
                  (final_report-Ran c l k e.1.reports m' (written ∙ omega arith))

  controller-Ran :
      (raw : Ref → Raw) (summary checkpoint : List Transfer) (turns : ℕ) (unset : ℤ) (n : Node)
      → Ensures
          (IfReported (Ran fabric n.config (orders (traffic fabric n.log).sent)))
          (controller fabric fuel clock raw summary checkpoint turns unset n)
  unfolding controller
  controller-Ran raw summary checkpoint turns unset n =
      let l = orders (traffic fabric n.log).sent in
      let c = record (n.config) { num_ep = n.config.num_pn +ℤ n.config.num_en } in
      let num = rounds c.num_en in
      let At = HasOrders fabric c in
      let Q = Ran fabric n.config l in
      let started = broadcast 0 num bm_start (broadcast 0 num bm_connect l) in
      bind
        (init_controller-Quiet raw fabric c (traffic fabric n.log) summary checkpoint
          (record n { config = c }) (record { config = refl; traffic_eq = refl }))
        λ a m k.
          phase (At l) Q fabric fuel clock a [] _ m (λ _. Has-HasOrders k)
            λ k. bind (listen_controller-HasOrders fabric c l fuel turns m k) λ a m k.
              phase (At l) Q fabric fuel clock a [] _ m k λ k.
                bind (connect-HasOrders fabric doc fuel c l m k) λ a m k.
                  phase (At (broadcast 0 num bm_connect l)) Q fabric fuel clock a [] _ m k λ k.
                    bind (start-HasOrders fabric doc fuel c (broadcast 0 num bm_connect l) m k)
                      λ a m k.
                        phase (At started) Q fabric fuel clock a [] _ m k
                          (ending-Ran c l turns unset m)

-- When the controller's program returns 0, there is a number of checkpoints such that it has
-- written one report for each of them and one more, and the commands it has sent, in all its
-- functions from init to controllerStop, are in this order: connect to each client, start to each
-- client, for each checkpoint the command to each client, and stop to each client and each
-- server, and no others. libfabric's queues never report a status of 0.
pub controller-campaign :
    (fabric : Fabric)
    → IsDocumented fabric
    → (fuel : ℕ) (clock : ℕ → ℤ) (raw : Ref → Raw) (summary checkpoint : List Transfer) (turns : ℕ)
      (unset : ℤ) (n m : Node) (reports : List (List Line))
    → controller fabric fuel clock raw summary checkpoint turns unset n ≡ done (pos 0, reports) m
    → Ran fabric n.config (orders (traffic fabric n.log).sent) reports m
controller-campaign fabric doc fuel clock raw summary checkpoint turns unset n m reports e =
    returned (controller-Ran fabric doc fuel clock raw summary checkpoint turns unset n) e refl
