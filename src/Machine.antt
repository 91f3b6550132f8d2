-- ===== src/Machine.antt =====
-- The state of one running node, CBM_Benchmark/Node.h and CBM_Benchmark/Endpoint.h, and the commands
-- that read and change it.
pub mod Ensures
pub mod Returns
use libfabric_benchmark.Base.{
  ℕ, zero, suc, List, ◌∷◌, Option, Bool, true, false, ltb, ◌==◌, if◌then◌else◌,
}
use libfabric_benchmark.Base.Int.{ℤ, pos, negsuc, is_nonzero}
use libfabric_benchmark.Config.{Bytes, Config, Ctx, Keys, Transfer}
use libfabric_benchmark.Fabric.{
  Fabric, Ref, cep, peer, Role, tx_role, c_role, rx_role, Context, Message, Call,
}

-- `class Endpoint`. What the constructor leaves unset is `none`; `msg_buff` is the data buffer as an
-- array of `int`.
pub record Endpoint : Type 0 where
  pub id : ℤ
  pub addr : Option Bytes
  pub port : Bytes
  pub run : Option ℤ
  pub tx_ctx : Ctx
  pub c_ctx : Ctx
  pub rx_ctx : Ctx
  pub msg_buff : List ℤ
  pub ctrl_buff : Message
  pub local_keys : Keys
  pub remote_keys : Option Keys
  pub ep : Option ℕ
  pub pep : Option ℕ

-- `class Node`, with the calls made so far, the latest first. `eps_size` is `eps.size()`; `addr` is never
-- set by the code.
pub record Node : Type 0 where
  pub id : ℤ
  pub addr : Option Bytes
  pub mode : ℤ
  pub config : Config
  pub eps_size : ℕ
  pub endpoint : Ref → Endpoint
  pub summary : List Transfer
  pub checkpoint : List Transfer
  pub log : List Call

-- A run returns, goes wrong (undefined behaviour, or bytes that the model does not interpret), or is
-- still polling when its fuel is used up.
pub data Outcome (A : Type 0) : Type 0 where
  done : A → Node → Outcome A
  fault : Outcome A
  spin : Outcome A

abbrev pub Run : Type 0 → Type 0
Run A = Node → Outcome A

abbrev pub pure : {A : Type 0} → A → Run A
pure = done

abbrev pub abort : {A : Type 0} → Run A
abort n = fault

abbrev pub and_then : {A B : Type 0} → Outcome A → (A → Run B) → Outcome B
and_then (done a n) k = k a n
and_then fault k = fault
and_then spin k = spin

infixl 5 ◌>>=◌ ◌>>◌
abbrev pub ◌>>=◌ : {A B : Type 0} → Run A → (A → Run B) → Run B
(m >>= k) n = and_then (m n) k

abbrev pub ◌>>◌ : {A B : Type 0} → Run A → Run B → Run B
m >> k = m >>= λ _. k

-- `if (ret) return ret;` before the rest of a function that returns a status.
abbrev pub or_return : ℤ → Run ℤ → Run ℤ
or_return ret rest = if is_nonzero ret then pure ret else rest

abbrev pub get : Run Node
get n = done n n

abbrev pub same_ref : Ref → Ref → Bool
same_ref cep cep = true
same_ref cep (peer j) = false
same_ref (peer i) cep = false
same_ref (peer i) (peer j) = i == j

abbrev pub update : Ref → (Endpoint → Endpoint) → Node → Node
update r f n = record n { endpoint = λ s. if same_ref r s then f (n.endpoint s) else n.endpoint s }

abbrev pub modify : Ref → (Endpoint → Endpoint) → Run (Unit {0})
modify r f n = done tt (update r f n)

abbrev pub note : Call → Node → Node
note c n = record n { log = c ∷ n.log }

-- `eps[n]`: a fault out of range.
abbrev pub eps : ℕ → Run Ref
eps i n = if ltb i n.eps_size then done (peer i) n else fault

-- `eps[i]` at an `int`: a negative index is out of range too.
abbrev pub eps_at : ℤ → Run Ref
eps_at (pos i) = eps i
eps_at (negsuc i) = abort

-- `*(struct ctx *) p`.
abbrev pub ctx_of : Role → Endpoint → Ctx
ctx_of tx_role e = e.tx_ctx
ctx_of c_role e = e.c_ctx
ctx_of rx_role e = e.rx_ctx

abbrev pub deref : Context → Node → Ctx
deref p n = ctx_of p.role (n.endpoint p.owner)

-- `free(ctx)`.
abbrev pub free_ctx : Context → Run (Unit {0})
free_ctx p n = done tt (note (Call.free p) n)

module _ (fabric : Fabric) where
  -- A call of libfabric that returns a status.
  abbrev pub call : Call → Run ℤ
  call c n = done (fabric.result n.log c) (note c n)

-- `for (int i = i₀; i < i₀ + rounds; i++) { ret = body(i); if (ret) return ret; }`, and 0.
unfoldable pub for_each : ℕ → ℕ → (ℕ → Run ℤ) → Run ℤ
for_each i zero body = pure (pos 0)
for_each i (suc rounds) body = body i >>= λ ret. or_return ret (for_each (suc i) rounds body)
