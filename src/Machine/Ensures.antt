-- ===== src/Machine/Ensures.antt =====
-- Statements about runs: `Ensures P` holds of a run that returns with `P`, and of one that faults or
-- spins; the rules follow the way a run is composed.
use libfabric_benchmark.Base.{
  ℕ, zero, suc, ◌≡◌, ◌≢◌, refl, subst, inl, inr, true, false, arith, ltb, Bool-cases,
}
use libfabric_benchmark.Base.Int.{ℤ, pos, is_nonzero}
use libfabric_benchmark.Fabric.{Ref, cep, peer}
use libfabric_benchmark.Machine.{
  Node, Outcome, done, fault, spin, Run, and_then, or_return, for_each, eps, same_ref,
}

pub data Ensures {A : Type 0} (P : A → Node → Type 0) : Outcome A → Type 0 where
  returns : {a : A} {n : Node} → P a n → Ensures P (done a n)
  faults : Ensures P fault
  spins : Ensures P spin

pub bind :
    {A B : Type 0} {P : A → Node → Type 0} {Q : B → Node → Type 0} {r : Outcome A} {k : A → Run B}
    → Ensures P r
    → ((a : A) (n : Node) → P a n → Ensures Q (k a n))
    → Ensures Q (and_then r k)
bind (returns p) f = f _ _ p
bind faults f = faults
bind spins f = spins

pub weaken :
    {A : Type 0} {P Q : A → Node → Type 0} {r : Outcome A}
    → Ensures P r
    → ((a : A) (n : Node) → P a n → Q a n)
    → Ensures Q r
weaken (returns p) f = returns (f _ _ p)
weaken faults f = faults
weaken spins f = spins

-- A run that may do anything.
pub always :
    {A : Type 0} {P : A → Node → Type 0} (r : Outcome A)
    → ((a : A) (n : Node) → P a n)
    → Ensures P r
always (done a n) f = returns (f a n)
always fault f = faults
always spin f = spins

abbrev Holds : {A : Type 0} → (A → Node → Type 0) → Outcome A → Type 0
Holds P (done a n) = P a n
Holds P fault = Unit {0}
Holds P spin = Unit {0}

Ensures-Holds : {A : Type 0} {P : A → Node → Type 0} {r : Outcome A} → Ensures P r → Holds P r
Ensures-Holds (returns p) = p
Ensures-Holds faults = tt
Ensures-Holds spins = tt

-- Reading a statement off a run that is known to return.
pub returned :
    {A : Type 0} {P : A → Node → Type 0} {r : Outcome A} {a : A} {n : Node}
    → Ensures P r
    → r ≡ done a n
    → P a n
returned {P} h e = subst (Holds P) e (Ensures-Holds h)

-- A status of 0 is the only one that is not an error.
abbrev pub IfOk : (Node → Type 0) → ℤ → Node → Type 0
IfOk P ret n = ret ≡ pos 0 → P n

pub nonzero_absurd : (ret : ℤ) → is_nonzero ret ≡ true → ret ≡ pos 0 → ⊥
nonzero_absurd ret h e = ground arith

pub zero_of_not : (ret : ℤ) → is_nonzero ret ≡ false → ret ≡ pos 0
zero_of_not ret h = ground arith

-- `if (ret) return ret;`
pub or_return-IfOk :
    (P : Node → Type 0) {Q : Node → Type 0} (ret : ℤ) (rest : Run ℤ) (n : Node)
    → IfOk P ret n
    → (P n → Ensures (IfOk Q) (rest n))
    → Ensures (IfOk Q) (or_return ret rest n)
or_return-IfOk P ret rest n h f = elim (Bool-cases (is_nonzero ret)) [
  | inl bad ↦ rw bad (returns (λ e. absurd (nonzero_absurd ret bad e)))
  | inr good ↦ rw good (f (h (zero_of_not ret good)))
]

-- A chain `ret = m(); if (ret) return ret; …`.
pub chain-IfOk :
    {P Q : Node → Type 0} {r : Outcome ℤ} {rest : Run ℤ}
    → Ensures (IfOk P) r
    → ((n : Node) → P n → Ensures (IfOk Q) (rest n))
    → Ensures (IfOk Q) (and_then r (λ ret. or_return ret rest))
chain-IfOk {P} {rest} h f = bind h (λ ret n p. or_return-IfOk P ret rest n p (f n))

-- `eps[i]` is the i-th endpoint, and reading it changes nothing.
pub eps-Ensures : (i : ℕ) (n : Node) → Ensures (λ r m. (r ≡ peer i) × (m ≡ n)) (eps i n)
eps-Ensures i n = elim (Bool-cases (ltb i n.eps_size)) [
  | inl inside ↦ rw inside (returns (refl, refl))
  | inr outside ↦ rw outside faults
]

pub eps-rule :
    {B : Type 0} {Q : B → Node → Type 0} (i : ℕ) (n : Node) (k : Ref → Run B)
    → Ensures Q (k (peer i) n)
    → Ensures Q (and_then (eps i n) k)
eps-rule i n k h = elim (Bool-cases (ltb i n.eps_size)) [
  | inl inside ↦ rw inside h
  | inr outside ↦ rw outside faults
]

-- `if (ret) return ret;` where the statement does not depend on the status.
pub or_return-rule :
    (P : Node → Type 0) (ret : ℤ) (rest : Run ℤ) (n : Node)
    → P n
    → (P n → Ensures (λ _ m. P m) (rest n))
    → Ensures (λ _ m. P m) (or_return ret rest n)
or_return-rule P ret rest n h f = elim (Bool-cases (is_nonzero ret)) [
  | inl bad ↦ rw bad (returns h)
  | inr good ↦ rw good (f h)
]

pub same_ref_refl : (r : Ref) → same_ref r r ≡ true
same_ref_refl cep = refl
same_ref_refl (peer i) = ground arith

-- A run that is not left polling.
pub data Ends {A : Type 0} : Outcome A → Type 0 where
  ended : {a : A} {n : Node} → Ends (done a n)
  faulted : Ends fault

pub bind-Ends :
    {A B : Type 0} {r : Outcome A} {k : A → Run B}
    → Ends r
    → ((a : A) (n : Node) → Ends (k a n))
    → Ends (and_then r k)
bind-Ends ended f = f _ _
bind-Ends faulted f = faulted

pub or_return-Ends :
    (ret : ℤ) (rest : Run ℤ) (n : Node) → Ends (rest n) → Ends (or_return ret rest n)
or_return-Ends ret rest n h = elim (Bool-cases (is_nonzero ret)) [
  | inl bad ↦ rw bad ended
  | inr good ↦ rw good h
]

pub for_each-Ends :
    (body : ℕ → Run ℤ)
    → ((i : ℕ) (n : Node) → Ends (body i n))
    → (rounds i : ℕ) (n : Node) → Ends (for_each i rounds body n)
unfolding for_each
for_each-Ends body h zero i n = ended
for_each-Ends body h (suc rounds) i n = bind-Ends (h i n) (λ ret m.
    or_return-Ends ret (for_each (suc i) rounds body) m (for_each-Ends body h rounds (suc i) m))

pub ended_or_faulted : {A : Type 0} (r : Outcome A) → Ends r → r ≢ spin
ended_or_faulted (done a n) h e = cc
ended_or_faulted fault h e = cc
ended_or_faulted spin h e = elim h [ ]
