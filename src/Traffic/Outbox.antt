-- ===== src/Traffic/Outbox.antt =====
-- The part of a node's traffic that does not depend on how its waits end.
use libfabric_benchmark.Base.{ℕ, zero, suc, List, Option, ◌≡◌, refl, ◌∙◌, ap, inl, inr}
use libfabric_benchmark.Config.{Config}
use libfabric_benchmark.Fabric.{Fabric, Queue, tx, rx, cq_read, cq_readerr, Completion}
use libfabric_benchmark.Machine.{Node, note}
use libfabric_benchmark.Machine.Ensures.{Ensures, returns, spins}
use libfabric_benchmark.Poll.{Polled, sort, sort_cases, ready, retry, failed, deliver, wait_comp}
use libfabric_benchmark.Traffic.{Sent, Posted, count_read, Traffic, traffic}
use libfabric_benchmark.Traffic.Steps.{polled-Has}

-- What a node of this configuration has sent and posted, whatever was read.
pub record HasSent (fabric : Fabric) (c : Config) (sent : List Sent) (posted : List Posted)
    (n : Node) : Type 0 where
  pub config : n.config ≡ c
  pub sent_eq : (traffic fabric n.log).sent ≡ sent
  pub posted_eq : (traffic fabric n.log).posted ≡ posted

-- Reading a completion sends and posts nothing.
pub count_read-same :
    (q : Queue) (p : Polled) (t : Traffic)
    → ((count_read q p t).sent ≡ t.sent) × ((count_read q p t).posted ≡ t.posted)
count_read-same tx ready t = (refl, refl)
count_read-same tx retry t = (refl, refl)
count_read-same tx failed t = (refl, refl)
count_read-same rx ready t = (refl, refl)
count_read-same rx retry t = (refl, refl)
count_read-same rx failed t = (refl, refl)

module _ {fabric : Fabric} {c : Config} {sent : List Sent} {posted : List Posted} where
  polled-HasSent :
      (q : Queue) (n : Node)
      → HasSent fabric c sent posted n
      → HasSent fabric c sent posted (deliver (fabric.poll_cq n.log q) (note (cq_read q) n))
  polled-HasSent q n h =
      let p =
        polled-Has {fabric = fabric} {c = n.config} {t = traffic fabric n.log} q n
          (record { config = refl; traffic_eq = refl }) in
      let u = count_read-same q (sort (fabric.poll_cq n.log q).status) (traffic fabric n.log) in
      record {
        config = p.config ∙ h.config;
        sent_eq = ap (λ t. t.sent) p.traffic_eq ∙ u.0 ∙ h.sent_eq;
        posted_eq = ap (λ t. t.posted) p.traffic_eq ∙ u.1 ∙ h.posted_eq;
      }

  pub wait_comp-HasSent :
      (fuel : ℕ) (q : Queue) (entry : Option Completion) (n : Node)
      → HasSent fabric c sent posted n
      → Ensures (λ p m. HasSent fabric c sent posted m) (wait_comp fabric fuel q entry n)
  unfolding wait_comp
  wait_comp-HasSent zero q entry n h = spins
  wait_comp-HasSent (suc fuel) q entry n h = elim (sort_cases (fabric.poll_cq n.log q).status) [
    | inl e ↦ rw (e, wait_comp) (returns (polled-HasSent q n h))
    | inr (inl e) ↦ rw (e, wait_comp) (wait_comp-HasSent fuel q entry _ (polled-HasSent q n h))
    | inr (inr e) ↦ rw (e, wait_comp) (returns (failed_read (polled-HasSent q n h)))
  ]
    where
      failed_read :
          {m : Node}
          → HasSent fabric c sent posted m
          → HasSent fabric c sent posted (note (cq_readerr q) m)
      failed_read p = record { config = p.config; sent_eq = p.sent_eq; posted_eq = p.posted_eq }
