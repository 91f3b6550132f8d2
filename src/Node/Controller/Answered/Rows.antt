-- ===== src/Node/Controller/Answered/Rows.antt =====
-- The rows of clients that answer, copied to a table.
use libfabric_benchmark.Base.{
  ℕ, zero, suc, ◌+◌, ◌*◌, ◌<◌, ◌≤◌, List, ◌∷◌, Option, ◌≡◌, refl, ◌∙◌, sym, ap, subst, length,
  ==_refl, arith,
}
use libfabric_benchmark.Base.Int.{ℤ, pos}
use libfabric_benchmark.Config.{Config, Transfer}
use libfabric_benchmark.Fabric.{
  Fabric, cq_read, rx, peer, Message, transfers, Call, Completion, Context,
}
use libfabric_benchmark.Machine.{Node, done, and_then}
use libfabric_benchmark.Machine.Ensures.{same_ref_refl}
use libfabric_benchmark.Node.{rounds, row_bytes}
use libfabric_benchmark.Node.Controller.{
  await_rows, take_row, write_at, Table, in_checkpoint, in_summary, table_of, with_table,
}
use libfabric_benchmark.Node.Controller.Rows.{store_rows-done, length-write_at}
use native.Mathlib.Nat.{mul-le-mul_right, lt_of_lt_of_le, zero-lt-suc}
use libfabric_benchmark.Node.Controller.Starting.{IsReliable}
use libfabric_benchmark.Node.Controller.Cooperation.{
  last_command, entry_at, IsRow, Reports, Cooperates,
}
use libfabric_benchmark.Machine.Returns.{Returns, returned, bind}
use libfabric_benchmark.Node.Controller.Cooperation.Standing.{Stands}
use libfabric_benchmark.Node.Controller.Cooperation.Waits.{held, wait_comp-Receives}
use libfabric_benchmark.Node.Controller.Answered.{held-At}

module _ (fabric : Fabric) (bound : ℕ) (h : IsReliable fabric bound) (size tab : ℕ) (c : Config)
    (fits : rounds c.num_en ≤ size) (coop : Cooperates fabric bound (rounds c.num_en) c) where
  abbrev num : ℕ
  num = rounds c.num_en

  abbrev At : ℕ → Node → Type 0
  At upto n = Stands num size tab c upto n

  abbrev Sent : ℕ → ℤ → ℕ → Node → Type 0
  Sent upto cmd i n = At upto n × (0 < i → last_command n.log ≡ cmd)

  -- A row has a place in the table.
  row_inside : (i np : ℕ) → i < num → num * np ≤ tab → i * np + np ≤ tab
  row_inside i np lt all = ground (arith, mul-le-mul_right np lt)

  rx_id :
      (i : ℕ) (w : Message) (l : List Call) (n : Node)
      → (n.endpoint (peer i)).rx_ctx.id ≡ pos i
      → ((held i w l n).endpoint (peer i)).rx_ctx.id ≡ pos i
  rx_id i w l n id = rw (same_ref_refl (peer i)) id

  in_buffer :
      (i : ℕ) (w : Message) (l : List Call) (n : Node)
      → ((held i w l n).endpoint (peer i)).ctrl_buff ≡ w
  in_buffer i w l n = rw (same_ref_refl (peer i)) refl

  -- The row that a client has sent is copied.
  take_row-done :
      (t : Table) (i : ℕ) (ts : List Transfer) (w : Message) (l : List Call) (n : Node)
      → i < n.eps_size
      → w ≡ transfers ts
      → length ts ≡ rounds n.config.num_pn
      → row_bytes n.config ≤ n.config.ctrl_size
      → i * rounds n.config.num_pn + rounds n.config.num_pn ≤ length (table_of t (held i w l n))
      → (n.endpoint (peer i)).rx_ctx.id ≡ pos i
      → take_row t (entry_at (row_bytes n.config) i) (held i w l n)
        ≡ done tt (
            with_table t
              (write_at (i * rounds n.config.num_pn) ts (table_of t (held i w l n)))
              (held i w l n))
  unfolding take_row
  take_row-done t i ts w l n lt is_ts count small inside id = rw (
    ==_refl (row_bytes n.config),
    rx_id i w l n id,
    store_rows-done t i ts (held i w l n) lt (in_buffer i w l n ∙ is_ts) count small inside,
  )

  -- A write to a table changes no more than its contents.
  written-At :
      (t : Table) (at : ℕ) (ts : List Transfer) (n : Node)
      → At num n
      → At num (with_table t (write_at at ts (table_of t n)) n)
  written-At in_checkpoint at ts n s = record {
    mode = s.mode;
    config = s.config;
    size_eq = s.size_eq;
    table = length-write_at at ts n.checkpoint ∙ s.table;
    summary = s.summary;
    ids = s.ids;
    rx_ids = s.rx_ids;
  }
  written-At in_summary at ts n s = record {
    mode = s.mode;
    config = s.config;
    size_eq = s.size_eq;
    table = s.table;
    summary = length-write_at at ts n.summary ∙ s.summary;
    ids = s.ids;
    rx_ids = s.rx_ids;
  }

  table_length : (t : Table) (n : Node) → At num n → length (table_of t n) ≡ tab
  table_length in_checkpoint n s = s.table
  table_length in_summary n s = s.summary

  log-with_table : (t : Table) (ts : List Transfer) (n : Node) → (with_table t ts n).log ≡ n.log
  log-with_table in_checkpoint ts n = refl
  log-with_table in_summary ts n = refl

  module _ (small : row_bytes c ≤ c.ctrl_size) (room : num * rounds c.num_pn ≤ tab) where
    take_row-At :
        (t : Table) (i : ℕ) (w : Message) (l : List Call) (n : Node)
        → i < num
        → IsRow (rounds c.num_pn) w
        → At num n
        → Returns
            (λ _ m. At num m × (m.log ≡ cq_read rx ∷ l))
            (take_row t (entry_at (row_bytes c) i) (held i w l n))
    take_row-At t i w l n lt (ts, is_ts, count) s =
        let back = sym s.config in
        let m = held i w l n in
        let m_at = held-At fabric bound h size tab c fits coop i w l n s in
        rw
          (
            ap (λ (d : Config). take_row t (entry_at (row_bytes d) i) m) back,
            take_row-done t i ts w l n (ground (arith, s.size_eq, fits, lt)) is_ts
                (subst (λ (d : Config). length ts ≡ rounds d.num_pn) back count)
                (subst (λ (d : Config). row_bytes d ≤ d.ctrl_size) back small)
                (subst
                  (λ (d : Config). i * rounds d.num_pn + rounds d.num_pn ≤ length (table_of t m))
                  back
                  (subst (λ k. i * rounds c.num_pn + rounds c.num_pn ≤ k)
                    (sym (table_length t m m_at)) (row_inside i (rounds c.num_pn) lt room)))
                (s.rx_ids i lt),
          )
          (returned (
            written-At t (i * rounds n.config.num_pn) ts m m_at,
            log-with_table t (write_at (i * rounds n.config.num_pn) ts (table_of t m)) m,
          ))

    pub await_rows-At :
        (t : Table) (cmd : ℤ) (top left : ℕ) (entry : Option Completion) (ctx : Option Context)
        (n : Node)
        → Reports cmd
        → num ≤ top
        → left ≤ num
        → Sent num cmd top n
        → Returns
            (λ q m. (q.0 ≡ pos 0) × Sent num cmd top m)
            (await_rows fabric bound t left entry ctx n)
    unfolding await_rows
    await_rows-At t cmd top zero entry ctx n reports more le s = returned (refl, s)
    await_rows-At t cmd top (suc left) entry ctx n reports more le s =
        let (i, w, l, lt, is_row, last, e) =
          wait_comp-Receives fabric bound h num (row_bytes c) (IsRow (rounds c.num_pn)) cmd entry n
            (λ l. coop.sends_rows cmd l reports)
            (s.1 (lt_of_lt_of_le (lt_of_lt_of_le (zero-lt-suc left) le) more)) in
        rw (e, and_then)
          (bind (take_row-At t i w l n lt is_row s.0) λ _ m k.
            await_rows-At t cmd top left _ _ m reports more (omega arith)
              (k.0, λ told. ap last_command k.1 ∙ last))
