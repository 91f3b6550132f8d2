-- ===== src/Main/Answers.antt =====
-- The client's program from its start to its end: the messages that it sends.
use libfabric_benchmark.Base.{
  ℕ, zero, suc, List, ◌∷◌, Option, ◌≡◌, refl, ◌∙◌, ap, Bool-cases, inl, inr,
}
use libfabric_benchmark.Base.Int.{ℤ, pos, ◌==ℤ◌}
use libfabric_benchmark.Config.{Config, Transfer, sizeof_int, bm_client, bm_connected}
use libfabric_benchmark.Clock.{Timespec}
use libfabric_benchmark.Fabric.{Fabric, Ref, cep, command, Call}
use libfabric_benchmark.Machine.{Node, done, ◌>>=◌, eps, for_each}
use libfabric_benchmark.Machine.Ensures.{
  Ensures, returns, bind, weaken, returned, IfOk, chain-IfOk, eps-rule, or_return-rule,
}
use libfabric_benchmark.Endpoint.{Raw, set_data_buffer}
use libfabric_benchmark.Traffic.{Sent, Traffic, traffic, Has, IsDocumented}
use libfabric_benchmark.Node.{in_mode, rounds}
use libfabric_benchmark.Node.Init.Quiet.{client_config, init_client-Quiet}
use libfabric_benchmark.Node.Client.{set_data_buffers, connect_to_controller, connect_to_servers}
use libfabric_benchmark.Node.Client.Handshake.{handshake_run}
use libfabric_benchmark.Node.Client.Protocol.{connect_run}
use libfabric_benchmark.Node.Client.Benchmark.{benchmark}
use libfabric_benchmark.Node.Client.Benchmark.Conversation.{FromController, heard}
use libfabric_benchmark.Node.Client.Benchmark.Answering.{Stopped, benchmark-Ended}
use libfabric_benchmark.Main.{client}

module _ (fabric : Fabric) (c : Config) (t : Traffic) where
  filled-Has :
      (num i : ℕ) (n : Node)
      → Has fabric c t n
      → Ensures (λ _ m. Has fabric c t m) (for_each i num (λ i. eps i >>= set_data_buffer) n)
  unfolding for_each set_data_buffer
  filled-Has zero i n h = returns h
  filled-Has (suc num) i n h =
      bind {P = λ ret m. Has fabric c t m}
        (eps-rule i n set_data_buffer
          (returns (record { config = h.config; traffic_eq = h.traffic_eq })))
        λ ret m k.
          or_return-rule (Has fabric c t) ret
            (for_each (suc i) num (λ i. eps i >>= set_data_buffer)) m k (filled-Has num (suc i) m)

  set_data_buffers-Has :
      (unset : ℤ) (n : Node)
      → Has fabric c t n
      → Ensures (IfOk (Has fabric c t)) (set_data_buffers unset n)
  unfolding set_data_buffers in_mode
  set_data_buffers-Has unset n h = elim (Bool-cases (n.mode ==ℤ bm_client)) [
    | inl good ↦
        rw good (bind (filled-Has (rounds n.config.num_ep) 0 n h) (λ ret m k. returns (λ _. k)))
    | inr bad ↦ rw bad (returns (λ z. cc))
  ]

abbrev confirmed : List Sent → List Sent
confirmed s = record { to = cep; size = sizeof_int; message = command bm_connected } ∷ s

-- What a client has sent when it returns: that it is connected, and then one row for each command
-- that it has heard while it measured, the last of which is a stop and no other.
abbrev pub Answered : Fabric → Config → List Sent → Node → Type 0
Answered fabric c sent m = (h : List ℤ) × Stopped fabric c h (confirmed sent) m

-- A node of this configuration that has sent these messages.
abbrev Sends : Fabric → Config → List Sent → Node → Type 0
Sends fabric c s m = (m.config ≡ c) × ((traffic fabric m.log).sent ≡ s)

module _ (fabric : Fabric) (doc : IsDocumented fabric) (fuel : ℕ) (c : Config) where
  connect_to_controller-Sends :
      (s : List Sent) (n : Node)
      → Sends fabric c s n
      → Ensures (IfOk (Sends fabric c s)) (connect_to_controller fabric fuel n)
  connect_to_controller-Sends s n h =
      weaken (handshake_run doc fuel n)
        λ ret m p z. let k = p z in (k.config ∙ h.0, k.sent_eq ∙ h.1)

  connect_to_servers-Sends :
      (s : List Sent) (n : Node)
      → Sends fabric c s n
      → Ensures (IfOk (Sends fabric c (confirmed s))) (connect_to_servers fabric fuel n)
  connect_to_servers-Sends s n h =
      weaken (connect_run doc fuel n)
        λ ret m p z. let k = p z in (k.config ∙ h.0, k.sent_eq ∙ ap confirmed h.1)

  benchmark-Answered :
      FromController fabric
      → (now : List Call → Option Timespec) (unset : ℤ) (turns : ℕ) (s : List Sent) (n : Node)
      → Sends fabric c (confirmed s) n
      → Ensures (IfOk (Answered fabric c s)) (benchmark fabric now unset turns n)
  benchmark-Answered from now unset turns s n h =
      let said = heard fabric n.log in
      weaken (benchmark-Ended fabric now c said (confirmed s) from unset turns n h.0 refl h.1)
        (λ ret m p z. (said, p z))

  client-Answered :
      FromController fabric
      → (raw : Ref → Raw) (summary checkpoint : List Transfer) (now : List Call → Option Timespec)
        (unset_ret unset : ℤ) (turns : ℕ) (n : Node)
      → client_config n.config ≡ c
      → Ensures
          (IfOk (Answered fabric c (traffic fabric n.log).sent))
          (client fabric fuel raw summary checkpoint now unset_ret unset turns n)
  unfolding client
  client-Answered from raw summary checkpoint now unset_ret unset turns n e =
      let t = traffic fabric n.log in
      let s = t.sent in
      chain-IfOk {P = Has fabric (client_config n.config) t}
        (init_client-Quiet raw fabric n.config t summary checkpoint n
          (record { config = refl; traffic_eq = refl }))
        λ m h.
          chain-IfOk {P = Has fabric (client_config n.config) t}
            (set_data_buffers-Has fabric (client_config n.config) t unset_ret m h)
            λ m h.
              chain-IfOk {P = Sends fabric c s}
                (connect_to_controller-Sends s m (h.config ∙ e, ap (λ u. u.sent) h.traffic_eq))
                λ m h.
                  chain-IfOk {P = Sends fabric c (confirmed s)} (connect_to_servers-Sends s m h)
                    λ m h.
                      chain-IfOk {P = Answered fabric c s}
                        (benchmark-Answered from now unset turns s m h) (λ m h. returns (λ _. h))

-- When every receive that completes after the clock was first read has a message for the
-- controller's endpoint, and the client's program returns 0, then the messages that it has sent,
-- in all its functions from init to benchmark, are these and no others: that it is connected, to
-- the controller, and after that one row of transfers for each command that it has heard since,
-- in their order, of which the last and no other is a stop. The commands are those it heard after
-- some point of its run. libfabric's queues never report a status of 0.
pub client-answers :
    (fabric : Fabric)
    → IsDocumented fabric
    → FromController fabric
    → (fuel : ℕ) (raw : Ref → Raw) (summary checkpoint : List Transfer)
      (now : List Call → Option Timespec) (unset_ret unset : ℤ) (turns : ℕ) (n m : Node)
    → client fabric fuel raw summary checkpoint now unset_ret unset turns n ≡ done (pos 0) m
    → Answered fabric (client_config n.config) (traffic fabric n.log).sent m
client-answers fabric doc from fuel raw summary checkpoint now unset_ret unset turns n m e =
    returned
      (client-Answered fabric doc fuel (client_config n.config) from raw summary checkpoint now
        unset_ret unset turns n refl)
      e refl
