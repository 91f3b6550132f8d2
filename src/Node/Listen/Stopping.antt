-- ===== src/Node/Listen/Stopping.antt =====
-- How the loop of `listenServer` ends.
use libfabric_benchmark.Base.{
  ℕ, zero, suc, Option, none, some, ◌≡◌, refl, ap, ◌∙◌, ◌≢◌, Bool, true, false, Bool-cases, ◌⊎◌,
  inl, inr, ◌==◌, ◌&&◌, ltb, if◌then◌else◌, arith,
}
use libfabric_benchmark.Base.Int.{ℤ, pos, is_positive, ltb_ℤ, ◌==ℤ◌}
use libfabric_benchmark.Config.{bm_stop, bm_server, sizeof_int}
use libfabric_benchmark.Fabric.{Fabric, rx, cep, Message, first_int, Completion}
use libfabric_benchmark.Machine.{Node, Outcome, done, and_then, ◌>>=◌, eps, for_each, pure}
use libfabric_benchmark.Machine.Ensures.{
  Ensures, returns, faults, spins, bind, always, returned, IfOk, chain-IfOk,
}
use libfabric_benchmark.Poll.{check_comp, check_cm_event, sort_cases}
use libfabric_benchmark.Endpoint.{listen, connect, ctrl_recv, words}
use libfabric_benchmark.Node.{rounds, in_mode}
use libfabric_benchmark.Node.Listen.Kept.{IsKept, on_cm_event-keeps}
use libfabric_benchmark.Node.Listen.{
  server_command, server_event, serve, listen_server, wait_all_conn,
}

-- The control buffer of the controller's endpoint holds this message.
abbrev Holds : Message → Node → Type 0
Holds b m = (m.endpoint cep).ctrl_buff ≡ b

Holds-IsKept : (b : Message) → IsKept (Holds b)
Holds-IsKept b = record { noted = λ c n q h. h; updated = λ j f n h. h }

module _ (fabric : Fabric) (b : Message) where
  check_cm_event-Holds :
      (n : Node) → Holds b n → Ensures (λ _ m. Holds b m) (check_cm_event fabric n)
  unfolding check_cm_event
  check_cm_event-Holds n h = elim (sort_cases (fabric.poll_eq n.log).status) [
    | inl e ↦ rw (e, and_then) (returns h)
    | inr (inl e) ↦ rw (e, and_then) (returns h)
    | inr (inr e) ↦ rw (e, and_then) (returns h)
  ]

  server_event-Holds :
      (fuel : ℕ) (num_en : ℤ) (n : Node)
      → Holds b n
      → Ensures (λ _ m. Holds b m) (server_event fabric fuel num_en n)
  server_event-Holds fuel num_en n h = bind (check_cm_event-Holds n h) λ p m k.
      elim (Bool-cases (is_positive p.0)) [
        | inl hit ↦ rw hit (on_cm_event-keeps fabric (Holds-IsKept b) (rounds num_en) p.0 p.1 m k)
        | inr none_there ↦ rw none_there (returns k)
      ]

-- The command that has arrived is a stop.
abbrev pub IsStopped : Node → Type 0
IsStopped m = first_int (m.endpoint cep).ctrl_buff ≡ bm_stop

server_command-IsStopped :
    (fabric : Fabric) (fuel : ℕ) (o : Option Completion) (n : Node)
    → Ensures (λ c m. c ≡ some true → IsStopped m) (server_command fabric fuel o n)
server_command-IsStopped fabric fuel none n = faults
server_command-IsStopped fabric fuel (some e) n = elim (Bool-cases (e.len == sizeof_int)) [
  | inr wrong ↦ rw wrong (returns (λ z. cc))
  | inl right ↦ rw right (elim (Bool-cases (first_int (n.endpoint cep).ctrl_buff ==ℤ bm_stop)) [
    | inr unknown ↦ rw unknown faults
    | inl is_stop ↦
        rw is_stop (elim (Bool-cases (words n.config == 0 && ltb 0 (rounds n.config.num_en))) [
          | inl empty ↦ rw empty faults
          | inr shown ↦
              rw shown (returns (λ z. stopped (first_int (n.endpoint cep).ctrl_buff) is_stop))
        ])
  ])
]
  where
    stopped : (c : ℤ) → (c ==ℤ bm_stop) ≡ true → c ≡ bm_stop
    stopped c h = ground arith

module _ (fabric : Fabric) (fuel : ℕ) where
  -- The end of the loop's last turn.
  last_turn :
      (num_en : ℤ) (n : Node)
      → IsStopped n
      → Ensures (IfOk IsStopped) (
          (server_event fabric fuel num_en >>= λ ret.
          pure (if ltb_ℤ ret (pos 0) then ret else pos 0))
            n)
  last_turn num_en n h =
      bind (server_event-Holds fabric (n.endpoint cep).ctrl_buff fuel num_en n refl)
        λ ret m same. returns (λ _. ap first_int same ∙ h)

  got_command :
      (p : ℤ × Option Completion) (n : Node)
      → Ensures
          (λ c m. c ≡ some true → IsStopped m)
          ((if is_positive p.0 then server_command fabric fuel p.1 else pure none) n)
  got_command p n = elim (Bool-cases (is_positive p.0)) [
    | inl hit ↦ rw hit (server_command-IsStopped fabric fuel p.1 n)
    | inr idle ↦ rw idle (returns (λ z. cc))
  ]

  negative : (ret : ℤ) → ltb_ℤ ret (pos 0) ≡ true → ret ≢ pos 0
  negative ret h e = ground arith

  command_cases : (c : Option Bool) → (c ≡ none) ⊎ ((c ≡ some true) ⊎ (c ≡ some false))
  command_cases none = inl refl
  command_cases (some true) = inr (inl refl)
  command_cases (some false) = inr (inr refl)

  serve-IsStopped :
      (turns : ℕ) (entry : Option Completion) (n : Node)
      → Ensures (IfOk IsStopped) (serve fabric fuel turns entry n)
  unfolding serve
  serve-IsStopped zero entry n = spins
  serve-IsStopped (suc turns) entry n =
      bind {P = λ p m. Unit {0}} (always (check_comp fabric rx entry n) (λ _ _. tt)) λ p m _.
        bind (got_command p m) λ c k h. elim (command_cases c) [
          | inl e ↦ rw e (
              bind {P = λ p m. Unit {0}}
                (always (server_event fabric fuel n.config.num_en k) (λ _ _. tt))
                λ ret k' _. elim (Bool-cases (ltb_ℤ ret (pos 0))) [
                  | inl bad ↦ rw bad (returns (λ z. absurd (negative ret bad z)))
                  | inr ok ↦ rw (ok, and_then) (serve-IsStopped turns p.1 k')
                ])
          | inr (inl e) ↦ rw e (last_turn n.config.num_en k (h e))
          | inr (inr e) ↦ rw e (returns (λ z. cc))
        ]

anywhere : (r : Outcome ℤ) → Ensures (IfOk (λ _. Unit {0})) r
anywhere r = always r (λ _ _ _. tt)

listen_server-Ensures :
    (fabric : Fabric) (fuel turns : ℕ) (n : Node)
    → Ensures (IfOk IsStopped) (listen_server fabric fuel turns n)
unfolding listen_server in_mode
listen_server-Ensures fabric fuel turns n = elim (Bool-cases (n.mode ==ℤ bm_server)) [
  | inr other_mode ↦ rw other_mode (returns (λ z. cc))
  | inl is_server ↦ rw is_server (
      chain-IfOk (anywhere (for_each 0 (rounds n.config.num_en) (λ i. eps i >>= listen fabric) n))
        λ a _. chain-IfOk (anywhere (connect fabric fuel cep a)) λ b _.
          chain-IfOk (anywhere (wait_all_conn fabric fuel turns n.config.num_en b)) λ c _.
            chain-IfOk (anywhere (ctrl_recv fabric cep sizeof_int c))
              λ d _. serve-IsStopped fabric fuel turns none d)
]

-- When listenServer returns 0, the control buffer of the controller's endpoint holds a message
-- that begins with the stop command.
pub listen_server-IsStopped :
    (fabric : Fabric) (fuel turns : ℕ) (n m : Node)
    → listen_server fabric fuel turns n ≡ done (pos 0) m
    → IsStopped m
listen_server-IsStopped fabric fuel turns n m e =
    returned (listen_server-Ensures fabric fuel turns n) e refl
