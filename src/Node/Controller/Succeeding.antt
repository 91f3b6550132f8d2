-- ===== src/Node/Controller/Succeeding.antt =====
-- Each of the controller's functions returns 0 on a network whose clients answer.
use libfabric_benchmark.Base.{ℕ, zero, suc, ◌*◌, ◌<◌, ◌≤◌, Option, none, some, ◌≡◌, refl, arith}
use libfabric_benchmark.Base.Int.{ℤ, pos, negsuc, eq→==ℤ, ◌+ℤ◌, ◌≤ℤ◌}
use libfabric_benchmark.Config.{
  Config, sizeof_int, bm_controller, bm_connect, bm_checkpoint, bm_start, bm_stop,
}
use libfabric_benchmark.Fabric.{Fabric, Context}
use libfabric_benchmark.Machine.{Node, and_then, ◌>>◌, pure}
use native.Mathlib.Nat.{le_trans}
use libfabric_benchmark.Node.{in_mode, rounds, row_bytes}
use libfabric_benchmark.Node.Controller.{
  in_checkpoint, in_summary, free_var, await_shutdowns, connect_body, start_body, checkpoint_body,
  stop_body, controller_connect, controller_start, controller_checkpoint, controller_stop,
}
use libfabric_benchmark.Node.Controller.Starting.{IsReliable}
use libfabric_benchmark.Node.Controller.Cooperation.{
  last_command, Cooperates, at_checkpoint, at_stop,
}
use libfabric_benchmark.Machine.Returns.{Returns, returned, bind, IsZero, chain}
use libfabric_benchmark.Node.Controller.Cooperation.Standing.{Stands, noted, relogged}
use libfabric_benchmark.Node.Controller.Cooperation.Waits.{wait_cm_event-disconnects}
use libfabric_benchmark.Node.Controller.Answered.Rows.{await_rows-At}
use libfabric_benchmark.Node.Controller.Answered.{
  recv_all-At, send_all-Sent, await_all-Sent, await_connected-At,
}

-- There is an endpoint for each host, and a row has its place in the buffer and in the tables.
pub record HasRoom (size tab : ℕ) (c : Config) : Type 0 where
  pub servers : pos 0 ≤ℤ c.num_pn
  pub exist : rounds (c.num_en +ℤ c.num_pn) ≤ size
  pub buffer : row_bytes c ≤ c.ctrl_size
  pub tables : rounds c.num_en * rounds c.num_pn ≤ tab

pub rounds_le : (a b : ℤ) → pos 0 ≤ℤ b → rounds a ≤ rounds (a +ℤ b)
unfolding ◌+ℤ◌
rounds_le (pos a) (pos b) h = ground arith
rounds_le (pos a) (negsuc b) h = absurd (omega arith)
rounds_le (negsuc a) b h = ground arith

module _ (fabric : Fabric) (bound : ℕ) (h : IsReliable fabric bound) (size tab : ℕ) (c : Config)
    (coop : Cooperates fabric bound (rounds c.num_en) c) (fits : HasRoom size tab c) where
  abbrev num : ℕ
  num = rounds c.num_en

  abbrev all : ℕ
  all = rounds (c.num_en +ℤ c.num_pn)

  abbrev At : ℕ → Node → Type 0
  At upto n = Stands num size tab c upto n

  num_le : num ≤ all
  num_le = rounds_le c.num_en c.num_pn fits.servers

  inside : num ≤ size
  inside = le_trans num_le fits.exist

  -- The node, its configuration written out.
  in_config : {upto : ℕ} (n : Node) → At upto n → At upto (record n { config = c })
  in_config n s = record {
    mode = s.mode;
    config = refl;
    size_eq = s.size_eq;
    table = s.table;
    summary = s.summary;
    ids = s.ids;
    rx_ids = s.rx_ids;
  }

  pub connect-At :
      (n : Node) → At 0 n → Returns (IsZero (At num)) (controller_connect fabric bound n)
  unfolding controller_connect in_mode connect_body
  connect-At n s =
      rw (eq→==ℤ n.mode bm_controller s.mode, s.config)
        (chain
          (recv_all-At fabric bound h size tab c inside num 0 sizeof_int _ (omega arith)
            (in_config n s))
          λ m k.
            chain
              (send_all-Sent fabric bound h size tab c inside num num num 0 bm_connect m inside
                (omega arith) (k, λ z. absurd (omega arith)))
              λ m k.
                bind
                  (await_all-Sent fabric bound h size tab c inside num num num bm_connect none m k)
                  λ p m k. rw (k.0) (
                    await_connected-At fabric bound h size tab c inside coop num p.1 none m
                      (omega arith) k.1))

  pub start-At :
      (upto : ℕ) (n : Node)
      → At upto n
      → Returns (IsZero (At upto)) (controller_start fabric bound n)
  unfolding controller_start in_mode start_body
  start-At upto n s =
      rw (eq→==ℤ n.mode bm_controller s.mode, s.config)
        (chain
          (send_all-Sent fabric bound h size tab c inside upto num num 0 bm_start _ inside
            (omega arith) (in_config n s, λ z. absurd (omega arith)))
          λ m k.
            bind (await_all-Sent fabric bound h size tab c inside upto num num bm_start none m k)
              λ p m k. returned (k.0, k.1.0))

  pub checkpoint-At :
      (n : Node) → At 0 n → Returns (IsZero (At num)) (controller_checkpoint fabric bound n)
  unfolding controller_checkpoint in_mode checkpoint_body
  checkpoint-At n s =
      rw (eq→==ℤ n.mode bm_controller s.mode, s.config)
        (chain
          (recv_all-At fabric bound h size tab c inside num 0 (row_bytes c) _ (omega arith)
            (in_config n s))
          λ m k.
            chain
              (send_all-Sent fabric bound h size tab c inside num num num 0 bm_checkpoint m inside
                (omega arith) (k, λ z. absurd (omega arith)))
              λ m k.
                bind
                  (await_all-Sent fabric bound h size tab c inside num num num bm_checkpoint none m
                    k)
                  λ p m k. rw (k.0) (
                    bind
                      (await_rows-At fabric bound h size tab c inside coop fits.buffer fits.tables
                        in_checkpoint bm_checkpoint num num p.1 none m at_checkpoint (omega arith)
                        (omega arith) k.1)
                      λ q m k. freed q m (k.0, k.1.0)))
    where
      freed :
          (q : ℤ × Option Context) (m : Node)
          → (q.0 ≡ pos 0) × At num m
          → Returns (IsZero (At num)) ((free_var q.1 >> pure q.0) m)
      freed (ret, none) m k = returned k
      freed (ret, some p) m k = returned (k.0, noted _ m k.1)

  -- After the stop each host disconnects.
  await_shutdowns-At :
      (upto turns left : ℕ) (n : Node)
      → left ≤ turns
      → At upto n
      → (0 < left → last_command n.log ≡ bm_stop)
      → Returns (IsZero (At upto)) (await_shutdowns fabric bound turns left n)
  unfolding await_shutdowns
  await_shutdowns-At upto turns zero n le s last = returned (refl, s)
  await_shutdowns-At upto zero (suc left) n le s last = absurd (omega arith)
  await_shutdowns-At upto (suc turns) (suc left) n le s last =
      let (r, l, still, is_shutdown, e) =
        wait_cm_event-disconnects fabric bound h coop n (last (omega arith)) in
      rw (e, and_then, is_shutdown)
        (await_shutdowns-At upto turns left _ (omega arith) (relogged l n s) (λ more. still))

  pub stop-At :
      (turns : ℕ) (n : Node)
      → all ≤ turns
      → At 0 n
      → Returns (IsZero (At num)) (controller_stop fabric bound turns n)
  unfolding controller_stop in_mode stop_body
  stop-At turns n enough s =
      rw (eq→==ℤ n.mode bm_controller s.mode, s.config)
        (chain
          (recv_all-At fabric bound h size tab c inside num 0 (row_bytes c) _ (omega arith)
            (in_config n s))
          λ m k.
            chain
              (send_all-Sent fabric bound h size tab c inside num all all 0 bm_stop m fits.exist
                (omega arith) (k, λ z. absurd (omega arith)))
              λ m k.
                bind (await_all-Sent fabric bound h size tab c inside num all all bm_stop none m k)
                  λ p m k. rw (k.0) (
                    bind
                      (await_rows-At fabric bound h size tab c inside coop fits.buffer fits.tables
                        in_summary bm_stop all num p.1 none m at_stop num_le (omega arith) k.1)
                      λ q m k. rw (k.0) (
                        bind (await_shutdowns-At num turns all m enough k.1.0 k.1.1)
                          λ d m k. freed_then q.1 d m k)))
    where
      freed_then :
          (ctx : Option Context) (d : ℤ) (m : Node)
          → IsZero (At num) d m
          → Returns (IsZero (At num)) ((free_var ctx >> pure d) m)
      freed_then none d m k = returned k
      freed_then (some p) d m k = returned (k.0, noted _ m k.1)

  -- The receives that were posted are forgotten.
  pub forget : {upto : ℕ} {n : Node} → At upto n → At 0 n
  forget s = record {
    mode = s.mode;
    config = s.config;
    size_eq = s.size_eq;
    table = s.table;
    summary = s.summary;
    ids = s.ids;
    rx_ids = λ k lt. absurd (omega arith);
  }
