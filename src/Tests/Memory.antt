-- ===== src/Tests/Memory.antt =====
-- The warning about the control buffer, and what is freed and closed.
use libfabric_benchmark.Base.{[], ◌∷◌, none, ◌≡◌, ◌≢◌, ◌⊎◌, refl, Bool, true, false}
use libfabric_benchmark.Base.Int.{ℤ, pos}
use libfabric_benchmark.Config.{codes, bm_client, bm_server, bm_connected}
use libfabric_benchmark.Fabric.{
  Fabric, Ref, cep, rx_role, command, connected, Completion, Resource, eq, domain, cq_tx, cq_rx,
  close,
}
use libfabric_benchmark.Machine.{Node, done, fault}
use libfabric_benchmark.Endpoint.{Raw}
use libfabric_benchmark.Node.Init.{acquire_all}
use libfabric_benchmark.Node.Destroy.{destroy, destroy-acquire_all}
use libfabric_benchmark.Node.Client.Benchmark.{Tally, first_tally, on_command}
use libfabric_benchmark.Main.{main}
use libfabric_benchmark.Main.Warning.{main-on_command}
use libfabric_benchmark.Tests.Network.{answering, node, two_clients, end_of, ends}

abbrev network : Fabric
network = answering 4 (command bm_connected) connected

abbrev large : Node
large = record (node bm_client (pos 0)) { config = record two_clients { num_pn = pos 26 } }

abbrev order : Completion
order = record { len = 4; op_context = record { owner = cep; role = rx_role } }

main-on_command_example :
    (((main (pos 0) (pos 0) (codes "en" ∷ []) large.config).0 ≡ true)
      × (on_command network (λ l. none) order (first_tally (pos 0) (pos 0) 26) large ≡ fault))
    ⊎ (((main (pos 0) (pos 0) (codes "en" ∷ []) large.config).0 ≡ false)
        × (r : ℤ × Bool × Tally) × (m : Node) × (on_command network
              (λ l. none)
              order
              (first_tally (pos 0) (pos 0) 26)
              large
            ≡ done r m))
main-on_command_example =
    main-on_command network (λ l. none) (pos 0) (pos 0) (codes "en" ∷ []) order
      (first_tally (pos 0) (pos 0) 26) large refl

abbrev raw : Ref → Raw
raw r = record { addr = 1; rkey = 2; ints = []; bytes = command (pos 0) }

abbrev new_server : Node
new_server = record (node bm_server (pos 0)) { eps_size = 0 }

abbrev opened : Node
opened = end_of (acquire_all raw network new_server) new_server

destroy-acquire_all_example :
    ((pos 0 ≡ pos 0)
      × (k : Node) × (destroy network opened ≡ done tt k)
      × (k.log
          ≡ close Resource.fabric
            ∷ close domain
            ∷ close eq
            ∷ close cq_rx
            ∷ close cq_tx
            ∷ opened.log))
    ⊎ ((pos 0 ≢ pos 0) × (destroy network opened ≡ fault))
unfolding acquire_all
destroy-acquire_all_example =
    destroy-acquire_all raw network new_server opened (pos 0) refl
      (ends (acquire_all raw network new_server) new_server refl)
