-- ===== src/Machine/Returns.antt =====
-- Rules to show that a run returns: it neither goes wrong nor is left polling.
use libfabric_benchmark.Base.{◌≡◌}
use libfabric_benchmark.Base.Int.{ℤ, pos}
use libfabric_benchmark.Machine.{Node, Outcome, done, Run, and_then, or_return}

-- A run that returns.
pub data Returns {A : Type 0} (P : A → Node → Type 0) : Outcome A → Type 0 where
  returned : {a : A} {m : Node} → P a m → Returns P (done a m)

pub bind :
    {A B : Type 0} {P : A → Node → Type 0} {Q : B → Node → Type 0} {r : Outcome A} {k : A → Run B}
    → Returns P r
    → ((a : A) (n : Node) → P a n → Returns Q (k a n))
    → Returns Q (and_then r k)
bind (returned p) f = f _ _ p

-- A run that returns 0.
abbrev pub IsZero : (Node → Type 0) → ℤ → Node → Type 0
IsZero P ret m = (ret ≡ pos 0) × P m

pub chain :
    {P Q : Node → Type 0} {r : Outcome ℤ} {rest : Run ℤ}
    → Returns (IsZero P) r
    → ((n : Node) → P n → Returns (IsZero Q) (rest n))
    → Returns (IsZero Q) (and_then r (λ ret. or_return ret rest))
chain (returned {a} {m} (e, p)) f = rw e (f m p)
