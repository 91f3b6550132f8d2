-- ===== src/Traffic/Steps.antt =====
-- The traffic of single operations: `ctrl_recv`, `sendCommand` and `waitComp`.
use libfabric_benchmark.Base.{ℕ, zero, suc, ◌∷◌, Option, none, some, ◌≡◌, ap, inl, inr, arith}
use libfabric_benchmark.Base.Int.{ℤ, pos}
use libfabric_benchmark.Config.{Config, sizeof_int}
use libfabric_benchmark.Fabric.{Fabric, Queue, Ref, Message, command, cq_read, Completion, CqReply}
use libfabric_benchmark.Machine.{Node, note, update}
use libfabric_benchmark.Machine.Ensures.{Ensures, returns, spins, same_ref_refl}
use libfabric_benchmark.Poll.{sort, Polled, ready, retry, failed, deliver, wait_comp, sort_cases}
use libfabric_benchmark.Endpoint.{ctrl_recv, send_command, or_ctrl_size}
use libfabric_benchmark.Traffic.{Traffic, count_read, Has, IsDocumented}

module _ {fabric : Fabric} {c : Config} {t : Traffic} where
  pub ctrl_recv-Has :
      (r : Ref) (size : ℕ) (n : Node)
      → Has fabric c t n
      → Ensures
          (λ ret m.
            Has fabric c
              (record t { posted = record { at = r; size = or_ctrl_size size c } ∷ t.posted })
              m)
          (ctrl_recv fabric r size n)
  unfolding ctrl_recv
  ctrl_recv-Has r size n h =
      returns (record { config = h.config; traffic_eq = ground (arith, h.config, h.traffic_eq) })

  pub send_command-Has :
      (r : Ref) (k : ℤ) (n : Node)
      → Has fabric c t n
      → Ensures
          (λ ret m.
            Has fabric c
              (record t {
                sent = record { to = r; size = sizeof_int; message = command k } ∷ t.sent;
              })
              m)
          (send_command fabric r k n)
  unfolding send_command
  send_command-Has r k n h =
      returns
        (record { config = h.config; traffic_eq = ground (arith, same_ref_refl r, h.traffic_eq) })

-- A successful wait has read one completion.
abbrev pub one_read : Queue → Traffic → Traffic
one_read q t = count_read q ready t

-- Delivery touches a buffer only.
deliver-Has :
    {fabric : Fabric} {c : Config} {t : Traffic} (r : CqReply) (n : Node)
    → Has fabric c t n
    → Has fabric c t (deliver r n)
deliver-Has {fabric} {c} {t} r n h = go (sort r.status) r.payload
  where
    go :
        (p : Polled) (m : Option Message)
        → Has fabric c t (elim p [
          | ready ↦ elim m [
            | none ↦ n
            | some w ↦ update r.entry.op_context.owner (λ e. record e { ctrl_buff = w }) n
          ]
          | retry ↦ n
          | failed ↦ n
        ])
    go ready none = h
    go ready (some w) = record { config = h.config; traffic_eq = h.traffic_eq }
    go retry m = h
    go failed m = h

module _ {fabric : Fabric} {c : Config} {t : Traffic} where
  -- The state after a poll of `q`.
  pub polled-Has :
      (q : Queue) (n : Node)
      → Has fabric c t n
      → Has fabric c
          (count_read q (sort (fabric.poll_cq n.log q).status) t)
          (deliver (fabric.poll_cq n.log q) (note (cq_read q) n))
  polled-Has q n h = deliver-Has (fabric.poll_cq n.log q) (note (cq_read q) n) (record {
    config = h.config;
    traffic_eq = ap (count_read q (sort (fabric.poll_cq n.log q).status)) h.traffic_eq;
  })

module _ {fabric : Fabric} (doc : IsDocumented fabric) {c : Config} where
  pub wait_comp-Has :
      (fuel : ℕ) (q : Queue) (entry : Option Completion) {t : Traffic} (n : Node)
      → Has fabric c t n
      → Ensures
          (λ p m. p.0 ≡ pos 0 → Has fabric c (one_read q t) m)
          (wait_comp fabric fuel q entry n)
  unfolding wait_comp
  wait_comp-Has zero q entry n h = spins
  wait_comp-Has (suc fuel) q entry {t} n h = elim (sort_cases (fabric.poll_cq n.log q).status) [
    | inl e ↦ rw (e, wait_comp) (returns (λ _. rw e at (polled-Has q n h)))
    | inr (inl e) ↦
        rw (e, wait_comp) (wait_comp-Has fuel q entry {t = t} _ (rw e at (polled-Has q n h)))
    | inr (inr e) ↦ rw (e, wait_comp) (returns (λ z. absurd (doc.cq_status n.log q z)))
  ]
