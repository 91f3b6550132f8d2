-- ===== src/Fabric.antt =====
-- What CBM_Benchmark/Node.cpp and CBM_Benchmark/Endpoint.cpp use of libfabric. The library is no
-- part of the repository: it is a parameter, which answers every call as a function of the calls
-- made before it, so that a statement for every `Fabric` covers every behaviour of the network.
use libfabric_benchmark.Base.{ℕ, List, [], ◌∷◌, Option}
use libfabric_benchmark.Base.Int.{ℤ, pos}
use libfabric_benchmark.Config.{Keys, Transfer}

-- `cq_tx` and `cq_rx`.
pub data Queue : Type 0 where
  tx rx : Queue

-- The endpoint objects of a node: `cep`, and `eps[n]`.
pub data Ref : Type 0 where
  cep : Ref
  peer : ℕ → Ref

-- The three `struct ctx` objects of an endpoint, and a pointer to one.
pub data Role : Type 0 where
  tx_role c_role rx_role : Role

pub record Context : Type 0 where
  pub owner : Ref
  pub role : Role

-- What `ctrl_buff` holds: a command, a key pair, an array of transfers, or other bytes, of which the
-- model keeps the `int` at the front.
pub data Message : Type 0 where
  command : ℤ → Message
  key_pair : Keys → Message
  transfers : List Transfer → Message
  other : ℤ → Message

-- `memcpy(&COMMAND, ctrl_buff, sizeof(int))`. `id` and `from` are the first fields of their structs.
abbrev pub first_int : Message → ℤ
first_int (command c) = c
first_int (key_pair k) = k.id
first_int (transfers []) = pos 0
first_int (transfers (t ∷ ts)) = t.from
first_int (other c) = c

-- What an endpoint is bound to.
pub data Binding : Type 0 where
  to_eq to_cq_tx to_cq_rx : Binding

-- What `Node::init` opens.
pub data Resource : Type 0 where
  info fabric eq domain cq_tx cq_rx : Resource

-- What an endpoint holds until its destructor.
pub data Part : Type 0 where
  the_ep the_mr the_cmr the_info : Part

-- The calls of a node, in the order made: those of libfabric, `free` of a context, and the clock.
pub data Call : Type 0 where
  acquire : Resource → Call
  clock_gettime : Call
  recv : Ref → ℕ → Call
  send : Ref → ℕ → Message → Call
  write : Ref → ℕ → Keys → Call
  read : Ref → ℕ → Keys → Call
  open_pep : Ref → Call
  bind_pep : Ref → Call
  listen : Ref → Call
  open_ep : Ref → Call
  bind_ep : Ref → Binding → Call
  enable : Ref → Call
  accept : Ref → Call
  connect : Ref → Call
  cq_read : Queue → Call
  cq_readerr : Queue → Call
  eq_read : Call
  eq_sread : Call
  eq_readerr : Call
  free : Context → Call
  close : Resource → Call
  shut_down : Ref → Call
  close_part : Ref → Part → Call

-- `struct fi_cq_msg_entry`.
pub record Completion : Type 0 where
  pub len : ℕ
  pub op_context : Context

-- The answer of `fi_cq_read`: with a positive status, an entry, and for a receive the message that
-- now stands in the `ctrl_buff` of the endpoint whose context the entry carries.
pub record CqReply : Type 0 where
  pub status : ℤ
  pub entry : Completion
  pub payload : Option Message

pub data CmEvent : Type 0 where
  connreq connected shutdown : CmEvent
  invalid : ℕ → CmEvent

-- The answer of `fi_eq_read` and `fi_eq_sread`.
pub record EqReply : Type 0 where
  pub status : ℤ
  pub event : CmEvent
  pub fid : ℕ

pub record Fabric : Type 0 where
  -- the status that a call returns
  pub result : List Call → Call → ℤ
  -- the `fid` that `fi_passive_ep` or `fi_endpoint` stores
  pub fid : List Call → ℕ
  pub poll_cq : List Call → Queue → CqReply
  pub poll_eq : List Call → EqReply
