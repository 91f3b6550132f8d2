-- ===== src/Node/Controller/Protocol.antt =====
-- What the controller's functions have sent, posted and read when they succeed.
use libfabric_benchmark.Base.{
  ℕ, zero, suc, ◌+◌, Option, none, ◌≡◌, refl, ◌∙◌, inl, inr, Bool-cases, arith,
}
use libfabric_benchmark.Base.Int.{ℤ, pos, ◌==ℤ◌}
use libfabric_benchmark.Config.{Config, bm_controller, bm_start, bm_connect, sizeof_int}
use libfabric_benchmark.Fabric.{Fabric, Queue, tx, rx, Completion}
use libfabric_benchmark.Machine.{Node, Run, done, ◌>>=◌, or_return}
use libfabric_benchmark.Machine.Ensures.{
  Ensures, returns, bind, returned, IfOk, chain-IfOk, or_return-IfOk,
}
use libfabric_benchmark.Traffic.{Traffic, traffic, Has, IsDocumented, broadcast, posts}
use libfabric_benchmark.Traffic.Steps.{one_read}
use libfabric_benchmark.Node.{in_mode, rounds, await_all}
use libfabric_benchmark.Node.Controller.{
  start_body, connect_body, controller_start, controller_connect, await_connected,
}
use libfabric_benchmark.Node.Controller.Replies.{await_connected-Has}
use libfabric_benchmark.Node.Controller.Phases.{send_all-Has, recv_all-Has, await_all-Has, reads}

-- A guarded function that succeeds was called in its mode.
pub in_mode-IfOk :
    {P : Node → Type 0} (mode : ℤ) (body : Run ℤ) (n : Node)
    → Ensures (IfOk P) (body n)
    → Ensures (IfOk P) (in_mode mode body n)
unfolding in_mode
in_mode-IfOk mode body n h = elim (Bool-cases (n.mode ==ℤ mode)) [
  | inl good ↦ rw good h
  | inr bad ↦ rw bad (returns (λ e. cc))
]

pub reads-tx : (num : ℕ) (t : Traffic) → reads tx num t ≡ record t { tx_read = t.tx_read + num }
reads-tx zero t = ground arith
reads-tx (suc num) t = ground (arith, reads-tx num (one_read tx t))

pub reads-rx : (num : ℕ) (t : Traffic) → reads rx num t ≡ record t { rx_read = t.rx_read + num }
reads-rx zero t = ground arith
reads-rx (suc num) t = ground (arith, reads-rx num (one_read rx t))

pub start-Has : (n : Node) {fabric : Fabric} → Has fabric n.config (traffic fabric n.log) n
start-Has n = record { config = refl; traffic_eq = refl }

module _ {fabric : Fabric} (doc : IsDocumented fabric) (fuel : ℕ) where
  pub start_run :
      (n : Node)
      → let num = rounds n.config.num_en in
        let t = traffic fabric n.log in
        Ensures
          (IfOk (
            Has fabric n.config
              (reads tx num (record t { sent = broadcast 0 num bm_start t.sent }))))
          (controller_start fabric fuel n)
  unfolding controller_start
  start_run n = in_mode-IfOk bm_controller (start_body fabric fuel) n (
      chain-IfOk (send_all-Has (rounds n.config.num_en) 0 bm_start _ n (start-Has n)) λ m h.
        bind (await_all-Has doc fuel tx (rounds n.config.num_en) none _ m h) λ p m' k. returns k)

  -- A successful controllerStart has sent the start command to each client, once and in order,
  -- and to nobody else, has posted no receive, and has read one transmit completion for each
  -- client. The queues of libfabric never report a status of 0.
  pub traffic-controller_start :
      (n m : Node)
      → controller_start fabric fuel n ≡ done (pos 0) m
      → let num = rounds n.config.num_en in
        let t = traffic fabric n.log in
        (m.config ≡ n.config)
        × (traffic fabric m.log
            ≡ record t { sent = broadcast 0 num bm_start t.sent; tx_read = t.tx_read + num })
  traffic-controller_start n m e =
      let h = returned (start_run n) e refl in
      (h.config, h.traffic_eq ∙ reads-tx (rounds n.config.num_en) _)

  -- A wait for `num` completions whose status is tested, before the rest of a function.
  pub await_then :
      {Q : Node → Type 0} (q : Queue) (num : ℕ) (entry : Option Completion) (t : Traffic)
      {c : Config} (rest : ℤ × Option Completion → Run ℤ) (n : Node)
      → Has fabric c t n
      → ((p : ℤ × Option Completion) (m : Node)
          → Has fabric c (reads q num t) m
          → Ensures (IfOk Q) (rest p m))
      → Ensures (IfOk Q) ((await_all fabric fuel q num entry >>= λ p. or_return p.0 (rest p)) n)
  await_then q num entry t {c} rest n h f =
      bind (await_all-Has doc fuel q num entry t n h)
        (λ p m k. or_return-IfOk (Has fabric c (reads q num t)) p.0 (rest p) m k (f p m))

  pub connect_run :
      (n : Node)
      → let num = rounds n.config.num_en in
        let t = traffic fabric n.log in
        Ensures
          (IfOk (
            Has fabric n.config (
              reads rx num (
                reads tx num (record t {
                  sent = broadcast 0 num bm_connect t.sent;
                  posted = posts 0 num sizeof_int t.posted;
                })))))
          (controller_connect fabric fuel n)
  unfolding controller_connect
  connect_run n =
      let num = rounds n.config.num_en in
      in_mode-IfOk bm_controller (connect_body fabric fuel) n (
        chain-IfOk (recv_all-Has num 0 sizeof_int _ n (start-Has n)) λ m h.
          chain-IfOk (send_all-Has num 0 bm_connect _ m h) λ m' h'.
            await_then tx num none _ (λ p. await_connected fabric fuel num p.1 none) m' h'
              (λ p m'' k. await_connected-Has doc fuel num p.1 none _ m'' k))

  -- A successful controllerConnect has posted one receive of a command's size at each client, has
  -- sent the connect command to each client, once and in order, and to nobody else, and has read
  -- one transmit and one receive completion for each client. The queues of libfabric never report
  -- a status of 0.
  pub traffic-controller_connect :
      (n m : Node)
      → controller_connect fabric fuel n ≡ done (pos 0) m
      → let num = rounds n.config.num_en in
        let t = traffic fabric n.log in
        (m.config ≡ n.config)
        × (traffic fabric m.log ≡ record {
          sent = broadcast 0 num bm_connect t.sent;
          posted = posts 0 num sizeof_int t.posted;
          tx_read = t.tx_read + num;
          rx_read = t.rx_read + num;
        })
  traffic-controller_connect n m e =
      let h = returned (connect_run n) e refl in
      let num = rounds n.config.num_en in
      (h.config, h.traffic_eq ∙ reads-rx num _ ∙ rw (reads-tx num))
