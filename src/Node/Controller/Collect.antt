-- ===== src/Node/Controller/Collect.antt =====
-- What `controllerCheckpoint` and `controllerStop` have sent, posted and read when they succeed.
use libfabric_benchmark.Base.{
  ℕ, ◌+◌, Option, none, some, ◌≡◌, refl, ◌∙◌, inl, inr, Bool-cases, if◌then◌else◌,
}
use libfabric_benchmark.Base.Int.{ℤ, pos, is_nonzero, ◌+ℤ◌}
use libfabric_benchmark.Config.{Config, bm_controller, bm_checkpoint, bm_stop}
use libfabric_benchmark.Fabric.{Fabric, tx, rx, Completion, Context}
use libfabric_benchmark.Machine.{Node, Run, done, ◌>>=◌, ◌>>◌, pure}
use libfabric_benchmark.Machine.Ensures.{
  Ensures, returns, bind, returned, IfOk, chain-IfOk, zero_of_not,
}
use libfabric_benchmark.Endpoint.{or_ctrl_size}
use libfabric_benchmark.Traffic.{Traffic, traffic, Has, IsDocumented, broadcast, posts}
use libfabric_benchmark.Node.{rounds, row_bytes}
use libfabric_benchmark.Node.Controller.{
  await_rows, Table, in_checkpoint, in_summary, checkpoint_body, controller_checkpoint, free_var,
  stop_body, controller_stop, await_shutdowns,
}
use libfabric_benchmark.Node.Controller.Replies.{await_rows-Has, await_shutdowns-Has}
use libfabric_benchmark.Node.Controller.Phases.{send_all-Has, recv_all-Has, reads}
use libfabric_benchmark.Node.Controller.Protocol.{
  in_mode-IfOk, reads-tx, reads-rx, start-Has, await_then,
}

-- The end of a collecting function: the last context is freed.
freed :
    {fabric : Fabric} {c : Config} {t : Traffic} (q : ℤ × Option Context) (ret : ℤ) (m : Node)
    → (ret ≡ pos 0 → Has fabric c t m)
    → Ensures (IfOk (Has fabric c t)) ((free_var q.1 >> pure ret) m)
freed (r, none) ret m k = returns k
freed (r, some p) ret m k =
    returns (λ z. record { config = (k z).config; traffic_eq = (k z).traffic_eq })

module _ {fabric : Fabric} (doc : IsDocumented fabric) (fuel : ℕ) where
  -- The rows are awaited, and then `rest` ends the function with a status that is tested.
  rows_run :
      {Q : Node → Type 0} (w : Table) (num : ℕ) (entry : Option Completion) (t : Traffic)
      {c : Config} (rest : ℤ × Option Context → Run ℤ) (n : Node)
      → Has fabric c t n
      → ((q : ℤ × Option Context) (m : Node)
          → (q.0 ≡ pos 0 → Has fabric c (reads rx num t) m)
          → Ensures (IfOk Q) (rest q m))
      → Ensures (IfOk Q) ((await_rows fabric fuel w num entry none >>= rest) n)
  rows_run w num entry t rest n h f = bind (await_rows-Has doc fuel w num entry none t n h) f

  pub checkpoint_run :
      (n : Node)
      → let num = rounds n.config.num_en in
        let t = traffic fabric n.log in
        Ensures
          (IfOk (
            Has fabric n.config (
              reads rx num (
                reads tx num (record t {
                  sent = broadcast 0 num bm_checkpoint t.sent;
                  posted = posts 0 num (or_ctrl_size (row_bytes n.config) n.config) t.posted;
                })))))
          (controller_checkpoint fabric fuel n)
  unfolding controller_checkpoint
  checkpoint_run n =
      let num = rounds n.config.num_en in
      in_mode-IfOk bm_controller (checkpoint_body fabric fuel) n (
        chain-IfOk (recv_all-Has num 0 (row_bytes n.config) _ n (start-Has n)) λ m h.
          chain-IfOk (send_all-Has num 0 bm_checkpoint _ m h) λ m' h'.
            await_then doc fuel tx num none _
              (λ p. await_rows fabric fuel in_checkpoint num p.1 none >>= λ q.
                (free_var q.1 >> pure q.0))
              m' h'
              (λ p m'' k.
                rows_run in_checkpoint num p.1 _ (λ q. free_var q.1 >> pure q.0) m'' k
                  (λ q m₃ k'. freed q q.0 m₃ k')))

  -- A successful controllerCheckpoint has posted one receive of a row at each client (of the
  -- whole control buffer, if a row has size 0), has sent the checkpoint command to each client,
  -- once and in order, and to nobody else, and has read one transmit and one receive completion
  -- for each. The queues of libfabric never report a status of 0.
  pub traffic-controller_checkpoint :
      (n m : Node)
      → controller_checkpoint fabric fuel n ≡ done (pos 0) m
      → let num = rounds n.config.num_en in
        let t = traffic fabric n.log in
        (m.config ≡ n.config)
        × (traffic fabric m.log ≡ record {
          sent = broadcast 0 num bm_checkpoint t.sent;
          posted = posts 0 num (or_ctrl_size (row_bytes n.config) n.config) t.posted;
          tx_read = t.tx_read + num;
          rx_read = t.rx_read + num;
        })
  traffic-controller_checkpoint n m e =
      let h = returned (checkpoint_run n) e refl in
      let num = rounds n.config.num_en in
      (h.config, h.traffic_eq ∙ reads-rx num _ ∙ rw (reads-tx num))

  pub stop_run :
      (turns : ℕ) (n : Node)
      → let num = rounds n.config.num_en in
        let all = rounds (n.config.num_en +ℤ n.config.num_pn) in
        let t = traffic fabric n.log in
        Ensures
          (IfOk (
            Has fabric n.config (
              reads rx num (
                reads tx all (record t {
                  sent = broadcast 0 all bm_stop t.sent;
                  posted = posts 0 num (or_ctrl_size (row_bytes n.config) n.config) t.posted;
                })))))
          (controller_stop fabric fuel turns n)
  unfolding controller_stop
  stop_run turns n =
      let num = rounds n.config.num_en in
      let all = rounds (n.config.num_en +ℤ n.config.num_pn) in
      in_mode-IfOk bm_controller (stop_body fabric fuel turns) n (
        chain-IfOk (recv_all-Has num 0 (row_bytes n.config) _ n (start-Has n)) λ m h.
          chain-IfOk (send_all-Has all 0 bm_stop _ m h) λ m' h'.
            await_then doc fuel tx all none _
              (λ p. await_rows fabric fuel in_summary num p.1 none >>= λ q.
                if is_nonzero q.0
                then free_var q.1 >> pure q.0
                else (await_shutdowns fabric fuel turns all >>= λ c. (free_var q.1 >> pure c)))
              m' h'
              (λ p m'' k. rows_run in_summary num p.1 _ _ m'' k (λ q m₃ k'.
                elim (Bool-cases (is_nonzero q.0)) [
                  | inl bad ↦ rw bad (freed q q.0 m₃ k')
                  | inr good ↦ rw good (
                      bind (await_shutdowns-Has doc fuel turns all m₃ (k' (zero_of_not q.0 good)))
                        (λ c m₄ k''. freed q c m₄ (λ _. k'')))
                ])))

  -- A successful controllerStop has posted one receive of a row at each client (of the whole
  -- control buffer, if a row has size 0), has sent the stop command to each client and each
  -- server, once and in order, and has read one transmit completion for each of them and one
  -- receive completion for each client. The queues of libfabric never report a status of 0.
  pub traffic-controller_stop :
      (turns : ℕ) (n m : Node)
      → controller_stop fabric fuel turns n ≡ done (pos 0) m
      → let num = rounds n.config.num_en in
        let all = rounds (n.config.num_en +ℤ n.config.num_pn) in
        let t = traffic fabric n.log in
        (m.config ≡ n.config)
        × (traffic fabric m.log ≡ record {
          sent = broadcast 0 all bm_stop t.sent;
          posted = posts 0 num (or_ctrl_size (row_bytes n.config) n.config) t.posted;
          tx_read = t.tx_read + all;
          rx_read = t.rx_read + num;
        })
  traffic-controller_stop turns n m e =
      let h = returned (stop_run turns n) e refl in
      let num = rounds n.config.num_en in
      let all = rounds (n.config.num_en +ℤ n.config.num_pn) in
      (h.config, h.traffic_eq ∙ reads-rx num _ ∙ rw (reads-tx all))
