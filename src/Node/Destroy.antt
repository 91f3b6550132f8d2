-- ===== src/Node/Destroy.antt =====
-- The destructors: `Node::~Node` of CBM_Benchmark/Node.cpp and `Endpoint::~Endpoint` of
-- CBM_Benchmark/Endpoint.cpp. A pointer that was never set is a fault where it is used.
use libfabric_benchmark.Base.{
  ℕ, List, [], ◌∷◌, none, some, ◌≡◌, ◌≢◌, refl, Bool, true, false, Bool-cases, inl, inr, ◌⊎◌, ◌∙◌,
  not, ◌&&◌, ◌||◌, ◌==◌, if◌then◌else◌, arith,
}
use libfabric_benchmark.Base.Int.{ℤ, pos, is_nonzero}
use libfabric_benchmark.Fabric.{
  Fabric, Ref, Resource, info, eq, domain, cq_tx, cq_rx, Call, acquire, close, shut_down,
  close_part, the_ep, the_mr, the_cmr, the_info,
}
use libfabric_benchmark.Machine.{Node, done, fault, Run, pure, abort, ◌>>=◌, ◌>>◌, get, note, call}
use libfabric_benchmark.Machine.{or_return}
use libfabric_benchmark.Machine.Ensures.{Ensures, returns, returned, nonzero_absurd, zero_of_not}
use libfabric_benchmark.Endpoint.{Raw}
use libfabric_benchmark.Node.Init.{acquire_all}

abbrev number : Resource → ℕ
number info = 0
number Resource.fabric = 1
number eq = 2
number domain = 3
number cq_tx = 4
number cq_rx = 5

-- Whether a resource has been acquired with success.
abbrev pub acquired : Fabric → Resource → List Call → Bool
acquired fabric r [] = false
acquired fabric r (acquire s ∷ l) =
    (number r == number s && not (is_nonzero (fabric.result l (acquire s)))) || acquired fabric r l
acquired fabric r (_ ∷ l) = acquired fabric r l

module _ (fabric : Fabric) where
  -- `fi_close(&….fid)`
  abbrev close_held : Resource → Run (Unit {0})
  close_held r n = if acquired fabric r n.log then done tt (note (close r) n) else fault

  -- `~Node`. What `fi_getinfo` has returned is not freed.
  unfoldable pub destroy : Run (Unit {0})
  destroy = do
    close_held cq_tx
    close_held cq_rx
    close_held eq
    close_held domain
    close_held Resource.fabric

  -- `~Endpoint`. The two buffers and the passive endpoint stay.
  unfoldable pub destroy_endpoint : Ref → Run (Unit {0})
  destroy_endpoint r = do
    n ← get
    elim (n.endpoint r).ep [
      | none ↦ abort
      | some fid ↦ do
        call fabric (shut_down r)
        call fabric (close_part r the_ep)
        call fabric (close_part r the_mr)
        call fabric (close_part r the_cmr)
        call fabric (close_part r the_info)
        pure tt
    ]

module _ (raw : Ref → Raw) (fabric : Fabric) where
  -- All is held, or the acquisition has failed before the receive queue was open.
  abbrev HeldIn : ℤ → List Call → Type 0
  HeldIn ret l =
      ((ret ≡ pos 0)
        × (acquired fabric cq_tx l ≡ true)
        × (acquired fabric cq_rx l ≡ true)
        × (acquired fabric eq l ≡ true)
        × (acquired fabric domain l ≡ true)
        × (acquired fabric Resource.fabric l ≡ true))
      ⊎ ((ret ≢ pos 0) × (acquired fabric cq_rx l ≡ false))

  abbrev Held : ℤ → Node → Type 0
  Held ret m = HeldIn ret m.log

  last_held :
      (l : List Call)
      → acquired fabric cq_rx l ≡ false
      → let l₁ = acquire info ∷ l in
        let l₂ = acquire Resource.fabric ∷ l₁ in
        let l₃ = acquire eq ∷ l₂ in
        let l₄ = acquire domain ∷ l₃ in
        let l₅ = acquire cq_tx ∷ l₄ in
        fabric.result l₁ (acquire Resource.fabric) ≡ pos 0
        → fabric.result l₂ (acquire eq) ≡ pos 0
        → fabric.result l₃ (acquire domain) ≡ pos 0
        → fabric.result l₄ (acquire cq_tx) ≡ pos 0
        → HeldIn (fabric.result l₅ (acquire cq_rx)) (acquire cq_rx ∷ l₅)
  last_held l start z₂ z₃ z₄ z₅ =
      let l₅ =
        acquire cq_tx ∷ acquire domain ∷ acquire eq ∷ acquire Resource.fabric ∷ acquire info ∷ l in
      elim (Bool-cases (is_nonzero (fabric.result l₅ (acquire cq_rx)))) [
        | inl bad ↦ inr ((λ z. nonzero_absurd _ bad z), rw (bad, start))
        | inr good ↦ inl (zero_of_not _ good, rw z₅, rw good, rw z₃, rw z₄, rw z₂)
      ]

  acquire_then :
      (r : Resource) (rest : Run ℤ) (n : Node)
      → acquired fabric cq_rx (acquire r ∷ n.log) ≡ acquired fabric cq_rx n.log
      → acquired fabric cq_rx n.log ≡ false
      → (fabric.result n.log (acquire r) ≡ pos 0 → Ensures Held (rest (note (acquire r) n)))
      → Ensures Held ((call fabric (acquire r) >>= λ a. or_return a rest) n)
  acquire_then r rest n other none_yet f =
      elim (Bool-cases (is_nonzero (fabric.result n.log (acquire r)))) [
        | inl bad ↦ rw bad (returns (inr ((λ z. nonzero_absurd _ bad z), other ∙ none_yet)))
        | inr good ↦ rw good (f (zero_of_not _ good))
      ]

  acquire_all-Held : (n : Node) → n.log ≡ [] → Ensures Held (acquire_all raw fabric n)
  unfolding acquire_all
  acquire_all-Held n new =
      let start : acquired fabric cq_rx n.log ≡ false = rw new in
      acquire_then info _ n refl start λ z₁. acquire_then Resource.fabric _ _ refl start λ z₂.
        acquire_then eq _ _ refl start λ z₃.
          acquire_then domain _ _ refl start λ z₄.
            acquire_then cq_tx _ _ refl start λ z₅. returns (last_held n.log start z₂ z₃ z₄ z₅)

-- After the part of init that opens the node's resources has returned 0, started with no call
-- made, the destructor of Node returns and closes five of them, the queues first and the fabric
-- last; after it has failed, the destructor goes wrong.
pub destroy-acquire_all :
    (raw : Ref → Raw) (fabric : Fabric) (n m : Node) (ret : ℤ)
    → n.log ≡ []
    → acquire_all raw fabric n ≡ done ret m
    → ((ret ≡ pos 0)
        × (k : Node) × (destroy fabric m ≡ done tt k)
        × (k.log
            ≡ close Resource.fabric ∷ close domain ∷ close eq ∷ close cq_rx ∷ close cq_tx ∷ m.log))
      ⊎ ((ret ≢ pos 0) × (destroy fabric m ≡ fault))
unfolding destroy
destroy-acquire_all raw fabric n m ret new e = go (returned (acquire_all-Held raw fabric n new) e)
  where
    failed : acquired fabric cq_rx m.log ≡ false → destroy fabric m ≡ fault
    failed b = ground (arith, b)

    go :
        Held raw fabric ret m
        → ((ret ≡ pos 0)
            × (k : Node) × (destroy fabric m ≡ done tt k)
            × (k.log
                ≡ close Resource.fabric
                  ∷ close domain
                  ∷ close eq
                  ∷ close cq_rx
                  ∷ close cq_tx
                  ∷ m.log))
          ⊎ ((ret ≢ pos 0) × (destroy fabric m ≡ fault))
    go (inl (z, a, b, c, d, f)) =
        let closed = record m {
          log = close Resource.fabric ∷ close domain ∷ close eq ∷ close cq_rx ∷ close cq_tx ∷ m.log;
        } in
        inl (z, closed, rw (a, b, c, d, f), refl)
    go (inr (z, b)) = inr (z, failed b)
