-- ===== src/Tests/Network.antt =====
-- A network that answers every call, and nodes for the runs of the tests.
use libfabric_benchmark.Base.{
  ℕ, zero, suc, List, [], ◌∷◌, none, some, ◌≡◌, ◌≢◌, refl, Bool, true, false,
}
use libfabric_benchmark.Base.Int.{ℤ, pos, negsuc}
use libfabric_benchmark.Config.{Config, Ctx, Transfer, codes, bm_client}
use libfabric_benchmark.Fabric.{
  Fabric, Queue, tx, rx, Ref, cep, peer, rx_role, c_role, Message, command, Call, cq_read, CqReply,
  CmEvent,
}
use libfabric_benchmark.Machine.{Endpoint, Node, Outcome, done, fault, spin}
use libfabric_benchmark.Traffic.{IsDocumented}

-- How many receive completions have been asked for.
abbrev pub rx_reads : List Call → ℕ
rx_reads [] = 0
rx_reads (cq_read rx ∷ l) = suc (rx_reads l)
rx_reads (_ ∷ l) = rx_reads l

abbrev pub reply : ℕ → Message → List Call → Queue → CqReply
reply len m l tx = record {
  status = pos 1;
  entry = record { len = 4; op_context = record { owner = peer 0; role = c_role } };
  payload = none;
}
reply len m l rx = record {
  status = pos 1;
  entry = record { len = len; op_context = record { owner = peer (rx_reads l); role = rx_role } };
  payload = some m;
}

-- Every call succeeds; the k-th receive completes at endpoint k with the given message; the event
-- queue always has the given event.
abbrev pub answering : ℕ → Message → CmEvent → Fabric
answering len m event = record {
  result = λ l c. pos 0;
  fid = λ l. 7;
  poll_cq = reply len m;
  poll_eq = λ l. record { status = pos 1; event = event; fid = 7 };
}

pub answering-IsDocumented :
    (len : ℕ) (m : Message) (event : CmEvent) → IsDocumented (answering len m event)
answering-IsDocumented len m event = record {
  cq_status = λ l q. status_of l q;
  eq_status = λ l e. cc;
}
  where
    status_of : (l : List Call) (q : Queue) → (reply len m l q).status ≢ pos 0
    status_of l tx e = cc
    status_of l rx e = cc

-- A completion of a control message of `cep`, on each poll.
abbrev pub control_sent : Fabric
control_sent = record {
  result = λ l c. pos 0;
  fid = λ l. 7;
  poll_cq = λ l q. record {
    status = pos 1;
    entry = record { len = 40; op_context = record { owner = cep; role = c_role } };
    payload = none;
  };
  poll_eq = λ l. record { status = negsuc 10; event = CmEvent.shutdown; fid = 7 };
}

-- Two clients and one server.
abbrev pub two_clients : Config
two_clients = record {
  controller_addr = none;
  start_port = codes "10000";
  port = codes "10000";
  controller_port = codes "30000";
  server_offset = pos 10000;
  addr_v = [];
  num_pn = pos 1;
  num_en = pos 2;
  num_ep = pos 3;
  slot = pos 0;
  max_packet_size = pos 1073741824;
  max_duration = pos 60;
  checkpoint_intervall = pos 10;
  ctrl_size = 1024;
  msg_size = 16;
}

abbrev pub endpoint_of : ℕ → ℤ → Endpoint
endpoint_of k id =
    let ctx : Ctx = record { id = id; mode = bm_client; size = pos 0 } in
    record {
      id = id;
      addr = none;
      port = codes "10000";
      run = none;
      tx_ctx = ctx;
      c_ctx = ctx;
      rx_ctx = ctx;
      msg_buff = [];
      ctrl_buff = command (pos 0);
      local_keys = record { id = id; rkey = k; addr = k };
      remote_keys = none;
      ep = none;
      pep = none;
    }

abbrev pub endpoints : ℤ → Ref → Endpoint
endpoints id cep = endpoint_of 0 id
endpoints id (peer k) = record (endpoint_of k (pos k)) {
  remote_keys = some (record { id = pos k; rkey = 5; addr = 6 });
}

abbrev pub empty_row : Transfer
empty_row = record {
  from = pos 0;
  to = pos 0;
  delta_sec = pos 0;
  time_sec = pos 0;
  completions = pos 0;
}

-- A node of this mode and id, with one empty row for each pair of a client and a server.
abbrev pub node : ℤ → ℤ → Node
node mode id = record {
  id = id;
  addr = none;
  mode = mode;
  config = two_clients;
  eps_size = 3;
  endpoint = endpoints id;
  summary = empty_row ∷ empty_row ∷ [];
  checkpoint = empty_row ∷ empty_row ∷ [];
  log = [];
}

-- The node and the value that a run ends with.
abbrev pub end_of : {A : Type 0} → Outcome A → Node → Node
end_of (done a m) n = m
end_of fault n = n
end_of spin n = n

abbrev pub value_of : {A : Type 0} → Outcome A → A → A
value_of (done a m) b = a
value_of fault b = b
value_of spin b = b

-- Whether a run has returned 0, and then how it ends.
abbrev pub succeeds : Outcome ℤ → Bool
succeeds (done (pos zero) m) = true
succeeds _ = false

abbrev pub returns_tt : Outcome (Unit {0}) → Bool
returns_tt (done a m) = true
returns_tt fault = false
returns_tt spin = false

pub ends : (r : Outcome ℤ) (n : Node) → succeeds r ≡ true → r ≡ done (pos 0) (end_of r n)
ends (done (pos zero) m) n h = refl
ends (done (pos (suc k)) m) n h = cc
ends (done (negsuc k) m) n h = cc
ends fault n h = cc
ends spin n h = cc

pub ends_tt : (r : Outcome (Unit {0})) (n : Node) → returns_tt r ≡ true → r ≡ done tt (end_of r n)
ends_tt (done a m) n h = refl
ends_tt fault n h = cc
ends_tt spin n h = cc

-- The same of a run whose value begins with a status.
abbrev pub pair_succeeds : {A : Type 0} → Outcome (ℤ × A) → Bool
pair_succeeds (done (pos zero, a) m) = true
pair_succeeds _ = false

pub ends_pair :
    {A : Type 0} (r : Outcome (ℤ × A)) (a : A) (n : Node)
    → pair_succeeds r ≡ true
    → r ≡ done (pos 0, (value_of r (pos 0, a)).1) (end_of r n)
ends_pair (done (pos zero, b) m) a n h = refl
ends_pair (done (pos (suc k), b) m) a n h = cc
ends_pair (done (negsuc k, b) m) a n h = cc
ends_pair fault a n h = cc
ends_pair spin a n h = cc
