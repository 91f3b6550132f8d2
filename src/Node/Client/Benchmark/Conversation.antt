-- ===== src/Node/Client/Benchmark/Conversation.antt =====
-- What the loop of `benchmark` says to the controller: one row of transfers for each command.
use libfabric_benchmark.Base.{[], List, ◌∷◌, none, some, ◌≡◌, ◌≢◌, Bool, true, false}
use libfabric_benchmark.Base.Int.{ℤ}
use libfabric_benchmark.Config.{Config, Transfer, bm_stop}
use libfabric_benchmark.Fabric.{
  Fabric, Queue, rx, cep, clock_gettime, Message, first_int, transfers, Call, cq_read, CqReply,
}
use libfabric_benchmark.Machine.{Node, note}
use libfabric_benchmark.Poll.{Polled, ready, retry, failed, sort, deliver}
use libfabric_benchmark.Endpoint.{or_ctrl_size}
use libfabric_benchmark.Traffic.{Sent, traffic}
use libfabric_benchmark.Node.{row_bytes}

-- The first words of the messages that a node has received, the latest first.
abbrev hear : Polled → CqReply → List ℤ → List ℤ
hear ready r h = elim r.payload [ none ↦ h | some m ↦ first_int m ∷ h ]
hear retry r h = h
hear failed r h = h

abbrev hear_call : Fabric → List Call → Call → List ℤ → List ℤ
hear_call fabric l (cq_read rx) h = hear (sort (fabric.poll_cq l rx).status) (fabric.poll_cq l rx) h
hear_call fabric l _ h = h

abbrev pub heard : Fabric → List Call → List ℤ
heard fabric [] = []
heard fabric (c ∷ l) = hear_call fabric l c (heard fabric l)

-- Whether the clock has been read. The client reads it first when it starts to measure.
abbrev pub has_clock : List Call → Bool
has_clock [] = false
has_clock (clock_gettime ∷ l) = true
has_clock (_ ∷ l) = has_clock l

-- While the client measures, a receive that completes has a message for the controller's endpoint.
pub record FromController (fabric : Fabric) : Type 0 where
  pub message :
      (l : List Call)
      → has_clock l ≡ true
      → sort (fabric.poll_cq l rx).status ≡ ready
      → (m : Message) × ((fabric.poll_cq l rx).payload ≡ some m)
        × ((fabric.poll_cq l rx).entry.op_context.owner ≡ cep)

-- A row of transfers to the controller.
abbrev pub row_of : Config → List Transfer → Sent
row_of c ts = record { to = cep; size = or_ctrl_size (row_bytes c) c; message = transfers ts }

-- Commands, none of them a stop, each answered by one row, after what was heard and sent before.
pub data Talk (c : Config) (h₀ : List ℤ) (s₀ : List Sent) : List ℤ → List Sent → Type 0 where
  silent : Talk c h₀ s₀ h₀ s₀
  answered :
      {h : List ℤ} {s : List Sent} (x : ℤ) (ts : List Transfer)
      → x ≢ bm_stop
      → Talk c h₀ s₀ h s
      → Talk c h₀ s₀ (x ∷ h) (row_of c ts ∷ s)

-- A node that has heard and sent these.
pub record Said (fabric : Fabric) (c : Config) (h : List ℤ) (s : List Sent) (m : Node)
    : Type 0 where
  pub config : m.config ≡ c
  pub heard_eq : heard fabric m.log ≡ h
  pub sent_eq : (traffic fabric m.log).sent ≡ s
  pub timed : has_clock m.log ≡ true

-- The node after a poll of `q`.
abbrev pub polled : Fabric → Queue → Node → Node
polled fabric q n = deliver (fabric.poll_cq n.log q) (note (cq_read q) n)
