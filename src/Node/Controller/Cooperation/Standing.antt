-- ===== src/Node/Controller/Cooperation/Standing.antt =====
-- What the controller's functions rely on and keep.
use libfabric_benchmark.Base.{
  ℕ, ◌<◌, List, ◌≡◌, refl, ◌∙◌, ap, Bool-cases, Option-cases, inl, inr, length,
}
use libfabric_benchmark.Base.Int.{pos}
use libfabric_benchmark.Config.{Config, Ctx, bm_controller}
use libfabric_benchmark.Fabric.{Ref, peer, Call, CqReply}
use libfabric_benchmark.Machine.{Endpoint, Node, update, note, same_ref}
use libfabric_benchmark.Poll.{sort_cases, deliver}

-- What the controller's functions rely on: the client's endpoints exist, under their numbers, `upto`
-- of them have a receive posted, and the table of checkpoints has its length.
pub record Stands (num size tab : ℕ) (c : Config) (upto : ℕ) (n : Node) : Type 0 where
  pub mode : n.mode ≡ bm_controller
  pub config : n.config ≡ c
  pub size_eq : n.eps_size ≡ size
  pub table : length n.checkpoint ≡ tab
  pub summary : length n.summary ≡ tab
  pub ids : (k : ℕ) → k < num → (n.endpoint (peer k)).id ≡ pos k
  pub rx_ids : (k : ℕ) → k < upto → (n.endpoint (peer k)).rx_ctx.id ≡ pos k

module _ {num size tab : ℕ} {c : Config} {upto : ℕ} where
  pub noted :
      (k : Call) (n : Node) → Stands num size tab c upto n → Stands num size tab c upto (note k n)
  noted k n h = record {
    mode = h.mode;
    config = h.config;
    size_eq = h.size_eq;
    table = h.table;
    summary = h.summary;
    ids = h.ids;
    rx_ids = h.rx_ids;
  }

  pub relogged :
      (l : List Call) (n : Node)
      → Stands num size tab c upto n
      → Stands num size tab c upto (record n { log = l })
  relogged l n h = record {
    mode = h.mode;
    config = h.config;
    size_eq = h.size_eq;
    table = h.table;
    summary = h.summary;
    ids = h.ids;
    rx_ids = h.rx_ids;
  }

  pub updated :
      (r : Ref) (f : Endpoint → Endpoint) (n : Node)
      → ((e : Endpoint) → (f e).id ≡ e.id)
      → ((e : Endpoint) → (f e).rx_ctx ≡ e.rx_ctx)
      → Stands num size tab c upto n
      → Stands num size tab c upto (update r f n)
  updated r f n same_id same_rx h = record {
    mode = h.mode;
    config = h.config;
    size_eq = h.size_eq;
    table = h.table;
    summary = h.summary;
    ids = λ k lt. kept (λ e. e.id) same_id (peer k) ∙ h.ids k lt;
    rx_ids = λ k lt. ap (λ (x : Ctx). x.id) (kept (λ e. e.rx_ctx) same_rx (peer k)) ∙ h.rx_ids k lt;
  }
    where
      kept :
          {A : Type 0} (g : Endpoint → A)
          → ((e : Endpoint) → g (f e) ≡ g e)
          → (s : Ref) → g ((update r f n).endpoint s) ≡ g (n.endpoint s)
      kept g same s = elim (Bool-cases (same_ref r s)) [
        | inl here ↦ rw here (same (n.endpoint s))
        | inr away ↦ rw away refl
      ]

  pub delivered :
      (r : CqReply) (n : Node)
      → Stands num size tab c upto n
      → Stands num size tab c upto (deliver r n)
  delivered r n h = elim (sort_cases r.status) [
    | inl e ↦
        rw (e, deliver)
          (elim (Option-cases r.payload) [
            | inl empty ↦ rw empty h
            | inr (w, is_w) ↦ rw is_w (
                updated r.entry.op_context.owner (λ e. record e { ctrl_buff = w }) n (λ e. refl)
                  (λ e. refl) h)
          ])
    | inr (inl e) ↦ rw (e, deliver) h
    | inr (inr e) ↦ rw (e, deliver) h
  ]
