-- ===== src/Node/Controller/Answered.antt =====
-- The controller's functions on a network whose clients answer.
pub mod Rows
use libfabric_benchmark.Base.{
  ℕ, zero, suc, ◌+◌, ◌<◌, ◌≤◌, List, ◌∷◌, Option, none, some, ◌≡◌, refl, ◌∙◌, ap, subst, Bool-cases,
  inl, inr, ◌==◌, lt→ltb, arith,
}
use libfabric_benchmark.Base.Int.{ℤ, pos}
use libfabric_benchmark.Config.{Config, sizeof_int, bm_connect, bm_connected}
use libfabric_benchmark.Fabric.{
  Fabric, send, cq_read, tx, rx, peer, Message, command, Call, Completion, Context, first_int,
}
use libfabric_benchmark.Machine.{Endpoint, update, Node, and_then, ◌>>=◌, eps, for_each}
use libfabric_benchmark.Machine.Ensures.{same_ref_refl}
use libfabric_benchmark.Endpoint.{to_int, ctrl_recv, send_command}
use libfabric_benchmark.Node.{rounds, await_all}
use libfabric_benchmark.Node.Controller.{await_connected}
use libfabric_benchmark.Node.Controller.Starting.{IsReliable}
use libfabric_benchmark.Node.Controller.Cooperation.{last_command, IsWord, Cooperates}
use libfabric_benchmark.Machine.Returns.{Returns, returned, IsZero, chain}
use libfabric_benchmark.Node.Controller.Cooperation.Standing.{
  Stands, noted, relogged, updated, delivered,
}
use libfabric_benchmark.Node.Controller.Cooperation.Waits.{
  log-deliver, held, wait_comp-reads, wait_comp-Receives,
}

module _ (fabric : Fabric) (bound : ℕ) (h : IsReliable fabric bound) (size tab : ℕ) (c : Config)
    (fits : rounds c.num_en ≤ size) where
  abbrev num : ℕ
  num = rounds c.num_en

  abbrev At : ℕ → Node → Type 0
  At upto n = Stands num size tab c upto n

  ctrl_recv-At :
      (i bytes : ℕ) (n : Node)
      → i < num
      → At i n
      → Returns (IsZero (At (suc i))) (ctrl_recv fabric (peer i) bytes n)
  unfolding ctrl_recv
  ctrl_recv-At i bytes n lt s = returned (
    h.succeeds _ _,
    record {
      mode = s.mode;
      config = s.config;
      size_eq = s.size_eq;
      table = s.table;
      summary = s.summary;
      ids = λ k k_lt. elim (Bool-cases (i == k)) [
        | inl here ↦ rw here (s.ids k k_lt)
        | inr away ↦ rw away (s.ids k k_lt)
      ];
      rx_ids = λ k k_lt. elim (Bool-cases (i == k)) [
        | inl here ↦ rw here (s.ids k (ground (arith, here)))
        | inr away ↦ rw away (s.rx_ids k (ground (arith, away)))
      ];
    },
  )

  pub recv_all-At :
      (left i bytes : ℕ) (n : Node)
      → i + left ≡ num
      → At i n
      → Returns (IsZero (At num)) (for_each i left (λ i. eps i >>= λ r. ctrl_recv fabric r bytes) n)
  unfolding for_each
  recv_all-At zero i bytes n e s = returned (refl, subst (λ k. At k n) (omega arith) s)
  recv_all-At (suc left) i bytes n e s =
      rw (lt→ltb i n.eps_size (ground (arith, s.size_eq, fits)), and_then)
        (chain (ctrl_recv-At i bytes n (omega arith) s)
          λ m k. recv_all-At left (suc i) bytes m (omega arith) k)

  -- The first `i` clients have been sent the command.
  abbrev Sent : ℕ → ℤ → ℕ → Node → Type 0
  Sent upto cmd i n = At upto n × (0 < i → last_command n.log ≡ cmd)

  send_command-Sent :
      (upto i : ℕ) (cmd : ℤ) (n : Node)
      → At upto n
      → Returns (IsZero (Sent upto cmd (suc i))) (send_command fabric (peer i) cmd n)
  unfolding send_command
  send_command-Sent upto i cmd n s =
      let filled = λ (e : Endpoint). record e {
        ctrl_buff = command cmd;
        c_ctx = record (e.c_ctx) { size = pos sizeof_int };
      } in
      let sized =
        λ (e : Endpoint). record e { c_ctx = record (e.c_ctx) { size = to_int sizeof_int } } in
      let n₁ = update (peer i) filled n in
      let n₂ = update (peer i) sized n₁ in
      let sent = send (peer i) sizeof_int (n₁.endpoint (peer i)).ctrl_buff in
      let kept =
        updated (peer i) sized n₁ (λ e. refl) (λ e. refl)
          (updated (peer i) filled n (λ e. refl) (λ e. refl) s) in
      returned (h.succeeds n.log sent, (noted sent n₂ kept, λ _. rw (same_ref_refl (peer i)) refl))

  pub send_all-Sent :
      (upto top left i : ℕ) (cmd : ℤ) (n : Node)
      → top ≤ size
      → i + left ≡ top
      → Sent upto cmd i n
      → Returns
          (IsZero (Sent upto cmd top))
          (for_each i left (λ i. eps i >>= λ r. send_command fabric r cmd) n)
  unfolding for_each
  send_all-Sent upto top zero i cmd n within e s =
      returned (refl, subst (λ k. Sent upto cmd k n) (omega arith) s)
  send_all-Sent upto top (suc left) i cmd n within e s =
      rw (lt→ltb i n.eps_size (ground (arith, s.0.size_eq, within)), and_then)
        (chain (send_command-Sent upto i cmd n s.0)
          λ m k. send_all-Sent upto top left (suc i) cmd m within (omega arith) k)

  pub await_all-Sent :
      (upto top left : ℕ) (cmd : ℤ) (entry : Option Completion) (n : Node)
      → Sent upto cmd top n
      → Returns
          (λ p m. (p.0 ≡ pos 0) × Sent upto cmd top m)
          (await_all fabric bound tx left entry n)
  unfolding await_all
  await_all-Sent upto top zero cmd entry n s = returned (refl, s)
  await_all-Sent upto top (suc left) cmd entry n s =
      let (l, last, good, e) = wait_comp-reads fabric bound h tx entry n in
      rw (e, and_then)
        (await_all-Sent upto top left cmd _ _ (
          delivered (fabric.poll_cq l tx) _ (relogged _ n s.0),
          λ told. ap last_command (log-deliver (fabric.poll_cq l tx) _) ∙ last ∙ s.1 told,
        ))

  module _ (coop : Cooperates fabric bound num c) where
    pub held-At :
        (i : ℕ) (w : Message) (l : List Call) (n : Node) → At num n → At num (held i w l n)
    held-At i w l n s =
        updated (peer i) (λ e. record e { ctrl_buff = w }) (record n { log = cq_read rx ∷ l })
          (λ e. refl) (λ e. refl) (relogged (cq_read rx ∷ l) n s)

    pub await_connected-At :
        (left : ℕ) (entry : Option Completion) (ctx : Option Context) (n : Node)
        → left ≤ num
        → Sent num bm_connect num n
        → Returns (IsZero (At num)) (await_connected fabric bound left entry ctx n)
    unfolding await_connected
    await_connected-At zero entry none n le s = returned (refl, s.0)
    await_connected-At zero entry (some p) n le s = returned (refl, noted _ n s.0)
    await_connected-At (suc left) entry ctx n le s =
        let (i, w, l, lt, is_w, last, e) =
          wait_comp-Receives fabric bound h num sizeof_int (IsWord bm_connected) bm_connect entry n
            coop.confirms (s.1 (omega arith)) in
        let m = held i w l n in
        let m_at = held-At i w l n s.0 in
        rw
          (
            e,
            and_then,
            m_at.rx_ids i lt,
            lt→ltb i n.eps_size (ground (arith, s.0.size_eq, fits, lt)),
            and_then,
            held_word i w l n is_w,
          )
          (await_connected-At left _ _ m (omega arith) (m_at, λ told. last))
      where
        held_word :
            (i : ℕ) (w : Message) (l : List Call) (n : Node)
            → w ≡ command bm_connected
            → first_int ((held i w l n).endpoint (peer i)).ctrl_buff ≡ bm_connected
        held_word i w l n e = rw (same_ref_refl (peer i), e) refl
