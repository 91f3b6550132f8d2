-- ===== src/Node/Listen/Accepting.antt =====
-- One connection: its request, and then the event that it is made.
use libfabric_benchmark.Base.{
  ℕ, zero, suc, ◌+◌, ◌≤◌, ◌<◌, List, ◌∷◌, Option, some, ◌≡◌, refl, ◌∙◌, subst, true, false,
  Bool-cases, inl, inr, ◌==◌, lt→ltb, arith,
}
use libfabric_benchmark.Base.Int.{ℤ, pos}
use libfabric_benchmark.Config.{sizeof_keys}
use libfabric_benchmark.Fabric.{
  Fabric, peer, key_pair, Call, open_ep, bind_ep, to_eq, to_cq_tx, to_cq_rx, send, enable, connreq,
  connected, EqReply,
}
use libfabric_benchmark.Fabric
use libfabric_benchmark.Machine.{Endpoint, Node, done, and_then, note, update, ◌>>=◌}
use libfabric_benchmark.Machine.Ensures.{same_ref_refl}
use libfabric_benchmark.Endpoint.{
  or_ctrl_size, to_int, accept, send_keys, open_endpoint, bind_and_enable,
}
use libfabric_benchmark.Node.Listen.{is_fid, find_endpoint, with_found, on_cm_event}

-- `j` is the first of `num` endpoints whose field is this `fid`.
pub record IsFirst (field : Endpoint → Option ℕ) (fid num j : ℕ) (n : Node) : Type 0 where
  pub below : j < num
  pub hit : is_fid fid (field (n.endpoint (peer j))) ≡ true
  pub misses : (i : ℕ) → i < j → is_fid fid (field (n.endpoint (peer i))) ≡ false

find_endpoint-first :
    (field : Endpoint → Option ℕ) (fid all j : ℕ) (n : Node)
    → IsFirst field fid all j n
    → (num i : ℕ) → i ≤ j
    → j < i + num
    → i + num ≤ n.eps_size
    → find_endpoint field fid i num n ≡ done (some (peer j)) n
unfolding find_endpoint
find_endpoint-first field fid all j n first zero i h k fits = absurd (omega arith)
find_endpoint-first field fid all j n first (suc num) i h k fits =
    rw (lt→ltb i n.eps_size (omega arith), and_then)
      (elim (Bool-cases (j == i)) [
        | inl here ↦ let e = j_is i (ground (arith, here)) in rw (hit_at i e, and_then, e) refl
        | inr later ↦
            rw (first.misses i (ground (arith, later)), and_then)
              (find_endpoint-first field fid all j n first num (suc i) (ground (arith, later))
                (omega arith) (omega arith))
      ])
  where
    j_is : (k : ℕ) → j ≡ k → j ≡ k
    j_is k e = e

    hit_at : (k : ℕ) → j ≡ k → is_fid fid (field (n.endpoint (peer k))) ≡ true
    hit_at k e = subst (λ k. is_fid fid (field (n.endpoint (peer k))) ≡ true) e first.hit

found :
    (field : Endpoint → Option ℕ) (fid num j : ℕ) (n : Node)
    → num ≤ n.eps_size
    → IsFirst field fid num j n
    → find_endpoint field fid 0 num n ≡ done (some (peer j)) n
found field fid num j n fits first =
    find_endpoint-first field fid num j n first num 0 (omega arith) (ground (arith, first.below))
      (ground (arith, fits))

-- The calls of `accept` at the endpoint `j`, after the calls `l`.
abbrev pub accept_calls : ℕ → List Call → List Call
accept_calls j l =
    Fabric.accept (peer j)
    ∷ enable (peer j)
    ∷ bind_ep (peer j) to_cq_rx
    ∷ bind_ep (peer j) to_cq_tx
    ∷ bind_ep (peer j) to_eq
    ∷ open_ep (peer j)
    ∷ l

-- The endpoint `j` with its connection opened, bound, enabled and accepted.
abbrev accepted : Fabric → ℕ → Node → Node
accepted fabric j n = record (update (peer j) (λ e. record e { ep = some (fabric.fid n.log) }) n) {
  log = accept_calls j n.log;
}

-- The message with which an endpoint sends its keys.
abbrev pub keys_call : ℕ → Node → Call
keys_call j n =
    send (peer j) (or_ctrl_size sizeof_keys n.config) (key_pair (n.endpoint (peer j)).local_keys)

module _ (fabric : Fabric) (succeeds : (l : List Call) (c : Call) → fabric.result l c ≡ pos 0) where
  accept-accepted :
      (j : ℕ) (n : Node) → accept fabric (peer j) n ≡ done (pos 0) (accepted fabric j n)
  unfolding accept open_endpoint bind_and_enable
  accept-accepted j n =
      let l₁ = open_ep (peer j) ∷ n.log in
      let l₂ = bind_ep (peer j) to_eq ∷ l₁ in
      let l₃ = bind_ep (peer j) to_cq_tx ∷ l₂ in
      let l₄ = bind_ep (peer j) to_cq_rx ∷ l₃ in
      let l₅ = enable (peer j) ∷ l₄ in
      rw
        (
          succeeds n.log (open_ep (peer j)),
          succeeds l₁ (bind_ep (peer j) to_eq),
          succeeds l₂ (bind_ep (peer j) to_cq_tx),
          succeeds l₃ (bind_ep (peer j) to_cq_rx),
          succeeds l₄ (enable (peer j)),
          succeeds l₅ (Fabric.accept (peer j)),
        )
        refl

  on_connreq :
      (num j : ℕ) (ret : ℤ) (a : EqReply) (n : Node)
      → a.event ≡ connreq
      → num ≤ n.eps_size
      → IsFirst (λ p. p.pep) a.fid num j n
      → on_cm_event fabric num ret a n ≡ done (pos 0) (accepted fabric j n)
  unfolding on_cm_event with_found
  on_connreq num j ret a n e fits first =
      rw (e, found (λ p. p.pep) a.fid num j n fits first, and_then) (accept-accepted j n)

  on_connected :
      (num j : ℕ) (ret : ℤ) (b : EqReply) (n : Node)
      → b.event ≡ connected
      → num ≤ n.eps_size
      → IsFirst (λ p. p.ep) b.fid num j n
      → (m : Node) × (on_cm_event fabric num ret b n ≡ done (pos 0) m)
        × (m.log ≡ keys_call j n ∷ n.log)
  unfolding on_cm_event with_found send_keys
  on_connected num j ret b n e fits first =
      let bytes = or_ctrl_size sizeof_keys n.config in
      let filled = update (peer j) (λ e. record e { ctrl_buff = key_pair e.local_keys }) n in
      let sized =
        update (peer j) (λ e. record e { c_ctx = record (e.c_ctx) { size = to_int bytes } })
          filled in
      let sent = send (peer j) bytes (filled.endpoint (peer j)).ctrl_buff in
      rw (e, found (λ p. p.ep) b.fid num j n fits first, and_then)
        (note sent sized, rw (succeeds n.log sent) refl, rw (same_ref_refl (peer j)) refl)

  -- The endpoint with the new connection is the one that the next event is about.
  opened-IsFirst :
      (num j fid : ℕ) (n : Node)
      → j < num
      → fid ≡ fabric.fid n.log
      → ((i : ℕ) → i < j → is_fid fid (n.endpoint (peer i)).ep ≡ false)
      → IsFirst (λ p. p.ep) fid num j (accepted fabric j n)
  opened-IsFirst num j fid n h e fresh = record {
    below = h;
    hit = rw (same_ref_refl (peer j)) (ground (arith, e));
    misses = λ i k. rw (other_peer i k) (fresh i k);
  }
    where
      other_peer : (i : ℕ) → i < j → (j == i) ≡ false
      other_peer i k = ground arith

-- When an event is a request for a connection to the passive endpoint of eps[j], and of no
-- endpoint before it, the next event is that the connection which accept has opened for it is
-- made, no endpoint before it has that connection, and all calls succeed, then the handling of
-- the two events returns 0, and its calls are, in this order: the new connection is opened, bound
-- to the event queue and to the two completion queues, enabled and accepted, and then eps[j]
-- sends its own keys; no other endpoint is called.
pub on_cm_event-connects :
    (fabric : Fabric)
    → ((l : List Call) (c : Call) → fabric.result l c ≡ pos 0)
    → (num j : ℕ) (a b : EqReply) (n : Node) → num ≤ n.eps_size
    → a.event ≡ connreq
    → IsFirst (λ p. p.pep) a.fid num j n
    → b.event ≡ connected
    → b.fid ≡ fabric.fid n.log
    → ((i : ℕ) → i < j → is_fid b.fid (n.endpoint (peer i)).ep ≡ false)
    → (m : Node) × ((on_cm_event fabric num (pos 0) a >>= λ ret. on_cm_event fabric num ret b) n
        ≡ done (pos 0) m)
      × (m.log ≡ keys_call j n ∷ accept_calls j n.log)
on_cm_event-connects fabric succeeds num j a b n fits is_request first is_made is_new fresh =
    let (m, e, l) =
      on_connected fabric succeeds num j (pos 0) b (accepted fabric j n) is_made fits
        (opened-IsFirst fabric succeeds num j b.fid n first.below is_new fresh) in
    (
      m,
      rw (on_connreq fabric succeeds num j (pos 0) a n is_request fits first, and_then) e,
      l ∙ rw (same_ref_refl (peer j)) refl,
    )
