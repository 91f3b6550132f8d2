-- ===== src/Node/Listen/Kept.antt =====
-- What the handlers of the connection manager's events keep: a predicate on nodes that survives
-- their calls, and their changes to the endpoints `eps[n]`, survives each of them.
use libfabric_benchmark.Base.{ℕ, zero, suc, Option, none, some, ◌≡◌, Bool-cases, inl, inr, ltb}
use libfabric_benchmark.Base.Int.{ℤ, pos}
use libfabric_benchmark.Config.{Keys, sizeof_keys}
use libfabric_benchmark.Fabric.{
  Fabric, Ref, peer, Message, key_pair, Call, open_ep, bind_ep, to_eq, to_cq_tx, to_cq_rx, send,
  enable, CmEvent, connreq, connected, shutdown, invalid, EqReply, Binding,
}
use libfabric_benchmark.Fabric
use libfabric_benchmark.Machine.{
  Endpoint, Node, done, Run, and_then, ◌>>=◌, or_return, call, note, update, pure,
}
use libfabric_benchmark.Machine.Ensures.{
  Ensures, returns, faults, bind, or_return-rule, same_ref_refl,
}
use libfabric_benchmark.Endpoint.{
  or_ctrl_size, to_int, accept, send_keys, open_endpoint, bind_and_enable,
}
use libfabric_benchmark.Node.Listen.{is_fid, find_endpoint, with_found, handle_event, on_cm_event}

-- The calls of `accept` and `sendKeys`.
pub data SetUp : Call → Type 0 where
  opens : (r : Ref) → SetUp (open_ep r)
  binds : (r : Ref) (b : Binding) → SetUp (bind_ep r b)
  enables : (r : Ref) → SetUp (enable r)
  accepts : (r : Ref) → SetUp (Fabric.accept r)
  sends_keys :
      (r : Ref) (m : Message) (size : ℕ) (k : Keys) → m ≡ key_pair k → SetUp (send r size m)

pub record IsKept (P : Node → Type 0) : Type 0 where
  pub noted : (c : Call) (n : Node) → SetUp c → P n → P (note c n)
  pub updated : (j : ℕ) (f : Endpoint → Endpoint) (n : Node) → P n → P (update (peer j) f n)

module _ (fabric : Fabric) {P : Node → Type 0} (kept : IsKept P) where
  call_then :
      (c : Call) (rest : Run ℤ)
      → SetUp c
      → ((n : Node) → P n → Ensures (λ _ m. P m) (rest n))
      → (n : Node) → P n
      → Ensures (λ _ m. P m) ((call fabric c >>= λ ret. or_return ret rest) n)
  call_then c rest quiet keep n h =
      or_return-rule P (fabric.result n.log c) rest (note c n) (kept.noted c n quiet h)
        (keep (note c n))

  accept-keeps : (j : ℕ) (n : Node) → P n → Ensures (λ _ m. P m) (accept fabric (peer j) n)
  unfolding accept open_endpoint bind_and_enable
  accept-keeps j n h = bind (opened n h) λ a m p.
      or_return-rule P a
        (bind_and_enable fabric (peer j) >>= λ ret.
          or_return ret (call fabric (Fabric.accept (peer j))))
        m p
        λ p. bind (bound m p) λ ret m' p'.
          or_return-rule P ret (call fabric (Fabric.accept (peer j))) m' p'
            λ p. returns (kept.noted _ m' (accepts (peer j)) p)
    where
      opened : (n : Node) → P n → Ensures (λ _ m. P m) (open_endpoint fabric (peer j) n)
      opened n h =
          call_then (open_ep (peer j))
            (λ m. done (pos 0) (update (peer j) (λ e. record e { ep = some (fabric.fid n.log) }) m))
            (opens (peer j))
            (λ m p. returns (kept.updated j (λ e. record e { ep = some (fabric.fid n.log) }) m p)) n
            h

      bound : (n : Node) → P n → Ensures (λ _ m. P m) (bind_and_enable fabric (peer j) n)
      bound = call_then (bind_ep (peer j) to_eq) _ (binds (peer j) to_eq) (
          call_then (bind_ep (peer j) to_cq_tx) _ (binds (peer j) to_cq_tx) (
            call_then (bind_ep (peer j) to_cq_rx) (call fabric (Fabric.enable (peer j)))
              (binds (peer j) to_cq_rx) (λ n h. returns (kept.noted _ n (enables (peer j)) h))))

  send_keys-keeps : (j : ℕ) (n : Node) → P n → Ensures (λ _ m. P m) (send_keys fabric (peer j) n)
  unfolding send_keys
  send_keys-keeps j n h =
      let own = (n.endpoint (peer j)).local_keys in
      let filled = λ (e : Endpoint). record e { ctrl_buff = key_pair e.local_keys } in
      let n₁ = update (peer j) filled n in
      let bytes = or_ctrl_size sizeof_keys n.config in
      let sized = λ (e : Endpoint). record e { c_ctx = record (e.c_ctx) { size = to_int bytes } } in
      let m = (n₁.endpoint (peer j)).ctrl_buff in
      returns (
        kept.noted (send (peer j) bytes m) (update (peer j) sized n₁)
          (sends_keys (peer j) m bytes own (rw (same_ref_refl (peer j))))
          (kept.updated j sized n₁ (kept.updated j filled n h)))

  found-keeps :
      (field : Endpoint → Option ℕ) (fid num i : ℕ) (ret : ℤ) (act : Ref → Run ℤ)
      → ((j : ℕ) (m : Node) → P m → Ensures (λ _ m'. P m') (act (peer j) m))
      → (n : Node) → P n
      → Ensures
          (λ _ m. P m)
          ((find_endpoint field fid i num >>= λ f. elim f [ none ↦ pure ret | some r ↦ act r ]) n)
  unfolding find_endpoint
  found-keeps field fid zero i ret act keep n h = returns h
  found-keeps field fid (suc num) i ret act keep n h = elim (Bool-cases (ltb i n.eps_size)) [
    | inr outside ↦ rw (outside, and_then) faults
    | inl inside ↦
        rw (inside, and_then)
          (elim (Bool-cases (is_fid fid (field (n.endpoint (peer i))))) [
            | inl hit ↦ rw (hit, and_then) (keep i n h)
            | inr miss ↦ rw (miss, and_then) (found-keeps field fid num (suc i) ret act keep n h)
          ])
  ]

  handle_event-keeps :
      (num : ℕ) (ret : ℤ) (fid : ℕ) (e : CmEvent) (n : Node)
      → P n
      → Ensures (λ _ m. P m) (handle_event fabric num ret fid e n)
  unfolding with_found
  handle_event-keeps num ret fid connreq =
      found-keeps (λ p. p.pep) fid num 0 ret (accept fabric) accept-keeps
  handle_event-keeps num ret fid connected =
      found-keeps (λ p. p.ep) fid num 0 ret (send_keys fabric) send_keys-keeps
  handle_event-keeps num ret fid shutdown =
      found-keeps (λ p. p.ep) fid num 0 ret (λ r. pure ret) (λ j m h. returns h)
  handle_event-keeps num ret fid (invalid k) = λ n h. returns h

  pub on_cm_event-keeps :
      (num : ℕ) (ret : ℤ) (e : EqReply) (n : Node)
      → P n
      → Ensures (λ _ m. P m) (on_cm_event fabric num ret e n)
  unfolding on_cm_event
  on_cm_event-keeps num ret e = handle_event-keeps num ret e.fid e.event
