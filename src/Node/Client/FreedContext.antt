-- ===== src/Node/Client/FreedContext.antt =====
-- `connectToController` uses the memory of a context that it has freed.
use libfabric_benchmark.Base.{
  ℕ, zero, suc, List, [], ◌∷◌, Option, none, some, ◌≡◌, refl, ◌∙◌, ap, Bool, true, false, ◌||◌,
  ◌&&◌, Bool-cases, Option-cases, inl, inr, ◌==◌, arith,
}
use libfabric_benchmark.Base.Int.{ℤ, pos, to_size_t, ◌==ℤ◌}
use libfabric_benchmark.Config.{bm_connect, sizeof_int, sizeof_keys}
use libfabric_benchmark.Fabric.{
  Fabric, rx, Ref, cep, Role, rx_role, tx_role, c_role, Context, Call, recv, free, first_int,
  Completion,
}
use libfabric_benchmark.Machine.{Node, Outcome, done, deref, call, note, same_ref}
use libfabric_benchmark.Machine.Ensures.{
  Ensures, returns, faults, spins, bind, weaken, always, returned, IfOk, chain-IfOk, or_return-IfOk,
}
use libfabric_benchmark.Poll.{sort, ready, sort_cases, wait_comp, deliver}
use libfabric_benchmark.Endpoint.{ctrl_recv, take_keys, await_connected, connect}
use libfabric_benchmark.Endpoint.Connect.{message_cases}
use libfabric_benchmark.Node.Client.{expect_command, connect_to_controller}
use libfabric_benchmark.Node.Client.Benchmark.ControlMessage.{deliver_keeps}

abbrev is_rx : Role → Bool
is_rx tx_role = false
is_rx c_role = false
is_rx rx_role = true

-- Whether the receive context of an endpoint has been freed.
abbrev pub has_freed : Ref → List Call → Bool
has_freed r [] = false
has_freed r (free p ∷ l) = (same_ref r p.owner && is_rx p.role) || has_freed r l
has_freed r (_ ∷ l) = has_freed r l

-- Whether a receive was posted with a context that had been freed. `ctrl_recv` writes to it first.
abbrev pub uses_freed : List Call → Bool
uses_freed [] = false
uses_freed (recv r size ∷ l) = has_freed r l || uses_freed l
uses_freed (_ ∷ l) = uses_freed l

-- A completed receive carries the context that it was posted with: that of `cep`, the only endpoint
-- at which this client has posted one.
pub record OwnContext (fabric : Fabric) : Type 0 where
  pub context :
      (l : List Call)
      → sort (fabric.poll_cq l rx).status ≡ ready
      → (fabric.poll_cq l rx).entry.op_context ≡ record { owner = cep; role = rx_role }

abbrev own : Context
own = record { owner = cep; role = rx_role }

module _ (fabric : Fabric) (context : OwnContext fabric) where
  -- A completion, if there is one, is of the own context.
  abbrev IsOwn : Option Completion → Type 0
  IsOwn o = (e : Completion) → o ≡ some e → e.op_context ≡ own

  wait_comp-IsOwn :
      (fuel : ℕ) (entry : Option Completion) (n : Node)
      → IsOwn entry
      → Ensures (λ p m. IsOwn p.1) (wait_comp fabric fuel rx entry n)
  unfolding wait_comp
  wait_comp-IsOwn zero entry n h = spins
  wait_comp-IsOwn (suc fuel) entry n h = elim (sort_cases (fabric.poll_cq n.log rx).status) [
    | inl e ↦ rw (e, wait_comp) (returns (λ c is_c. ground (arith, is_c, context.context n.log e)))
    | inr (inl e) ↦ rw (e, wait_comp) (wait_comp-IsOwn fuel entry _ h)
    | inr (inr e) ↦ rw (e, wait_comp) (returns h)
  ]

  abbrev Freed : Node → Type 0
  Freed m = has_freed cep m.log ≡ true

  take_keys-Freed :
      (e : Completion) (n : Node)
      → e.op_context ≡ own
      → Ensures (IfOk Freed) (take_keys fabric cep e n)
  unfolding take_keys
  take_keys-Freed e n is_own = elim (Bool-cases (to_size_t (deref e.op_context n).size == e.len)) [
    | inr other_size ↦ rw other_size (returns (λ z. cc))
    | inl same ↦ rw same (elim (Bool-cases (e.len == sizeof_keys)) [
      | inr short ↦ rw short faults
      | inl whole ↦ rw whole (elim (message_cases (n.endpoint cep).ctrl_buff) [
        | inl (k, held) ↦ rw held (returns (λ _. rw is_own))
        | inr (inl (c, held)) ↦ rw held faults
        | inr (inr (inl (ts, held))) ↦ rw held faults
        | inr (inr (inr (c, held))) ↦ rw held faults
      ])
    ])
  ]

  abbrev Anything : Node → Type 0
  Anything m = Unit {0}

  any_status : (r : Outcome ℤ) → Ensures (IfOk Anything) r
  any_status r = always r (λ _ _ _. tt)

  connect-Freed : (fuel : ℕ) (n : Node) → Ensures (IfOk Freed) (connect fabric fuel cep n)
  unfolding connect
  connect-Freed fuel n = chain-IfOk (any_status (ctrl_recv fabric cep sizeof_keys n)) λ m _.
      chain-IfOk (any_status (call fabric (Call.connect cep) m)) λ m' _.
        chain-IfOk (any_status (await_connected fabric m')) λ m'' _.
          bind (wait_comp-IsOwn fuel none m'' (λ e z. cc)) λ p k own_entry.
            or_return-IfOk Anything p.0 _ k (λ _. tt)
              λ _. elim (Option-cases p.1) [
                | inl no_entry ↦ rw no_entry faults
                | inr (e, is_e) ↦ rw is_e (take_keys-Freed e k (own_entry e is_e))
              ]

  abbrev Used : Node → Type 0
  Used m = uses_freed m.log ≡ true

  ctrl_recv-Used :
      (size : ℕ) (n : Node) → Freed n → Ensures (λ _ m. Used m) (ctrl_recv fabric cep size n)
  unfolding ctrl_recv
  ctrl_recv-Used size n h = returns (rw h)

  wait_comp-Used :
      (fuel : ℕ) (entry : Option Completion) (n : Node)
      → Used n
      → Ensures (λ _ m. Used m) (wait_comp fabric fuel rx entry n)
  unfolding wait_comp
  wait_comp-Used zero entry n h = spins
  wait_comp-Used (suc fuel) entry n h =
      let polled : Used (deliver (fabric.poll_cq n.log rx) (note (Call.cq_read rx) n)) =
        ap uses_freed (deliver_keeps (fabric.poll_cq n.log rx) (note (Call.cq_read rx) n) cep).0
        ∙ h in
      elim (sort_cases (fabric.poll_cq n.log rx).status) [
        | inl e ↦ rw (e, wait_comp) (returns polled)
        | inr (inl e) ↦ rw (e, wait_comp) (wait_comp-Used fuel entry _ polled)
        | inr (inr e) ↦ rw (e, wait_comp) (returns polled)
      ]

  expect_command-Used :
      (confirm ret : ℤ) (entry : Option Completion) (n : Node)
      → Used n
      → Ensures (λ _ m. Used m) (expect_command confirm ret entry n)
  unfolding expect_command
  expect_command-Used confirm ret none n h = faults
  expect_command-Used confirm ret (some e) n h = elim (Bool-cases (e.len == sizeof_int)) [
    | inr wrong ↦ rw wrong (returns h)
    | inl right ↦ rw right (elim (Bool-cases (first_int (n.endpoint cep).ctrl_buff ==ℤ confirm)) [
      | inl same ↦ rw same (returns h)
      | inr wrong ↦ rw wrong (returns h)
    ])
  ]

  handshake-Used : (fuel : ℕ) (n : Node) → Ensures (IfOk Used) (connect_to_controller fabric fuel n)
  unfolding connect_to_controller
  handshake-Used fuel n = chain-IfOk (connect-Freed fuel n) λ m h.
      weaken
        (bind (ctrl_recv-Used sizeof_int m h) λ ret m' k.
          bind (wait_comp-Used fuel none m' k)
            λ p m'' k'. expect_command-Used bm_connect p.0 p.1 m'' k')
        (λ s m₃ p _. p)

-- If every completed receive carries the receive context of the controller's endpoint, where this
-- client has posted its receives, then every successful connectToController has posted a receive
-- with a context that had been freed before. ctrl_recv writes to that context.
pub connect_to_controller-uses_freed :
    (fabric : Fabric)
    → OwnContext fabric
    → (fuel : ℕ) (n m : Node) → connect_to_controller fabric fuel n ≡ done (pos 0) m
    → uses_freed m.log ≡ true
connect_to_controller-uses_freed fabric context fuel n m e =
    returned (handshake-Used fabric context fuel n) e refl
