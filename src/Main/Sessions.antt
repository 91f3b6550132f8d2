-- ===== src/Main/Sessions.antt =====
-- The controller's program as each of its clients and servers sees it: the protocol of one client as
-- a state machine, which every run keeps to.
use libfabric_benchmark.Base.{
  ℕ, zero, suc, ◌+◌, ◌≤◌, ◌<◌, List, [], ◌∷◌, ◌≡◌, refl, ◌∙◌, sym, ap, subst, Bool, true, false,
  Bool-cases, inl, inr, ◌⊎◌, ◌==◌, arith,
}
use libfabric_benchmark.Base.Int.{ℤ, pos, ◌+ℤ◌, ◌≤ℤ◌}
use libfabric_benchmark.Config.{Config, Transfer, bm_start, bm_connect, bm_stop, bm_checkpoint}
use libfabric_benchmark.Fabric.{Fabric, Ref, peer, Message, command, key_pair, transfers, other}
use libfabric_benchmark.Machine.{Node, done, same_ref}
use libfabric_benchmark.Endpoint.{Raw}
use libfabric_benchmark.Traffic.{Sent, traffic, broadcast, IsDocumented}
use libfabric_benchmark.Traffic.Orders.{orders}
use native.Mathlib.Nat.{lt_of_lt_of_le}
use libfabric_benchmark.Node.{rounds}
use libfabric_benchmark.Node.Controller.Succeeding.{rounds_le}
use libfabric_benchmark.Main.{Line, controller}
use libfabric_benchmark.Main.Timing.{commands}
use libfabric_benchmark.Main.Campaign.{campaign, Ran, controller-campaign}

-- Where a client stands.
pub data Phase : Type 0 where
  fresh joining measuring ended : Phase

-- What a command does in a phase.
pub data Step : Phase → ℤ → Phase → Type 0 where
  connects : {c : ℤ} → c ≡ bm_connect → Step fresh c joining
  starts : {c : ℤ} → c ≡ bm_start → Step joining c measuring
  checks : {c : ℤ} → c ≡ bm_checkpoint → Step measuring c measuring
  stops : {c : ℤ} → c ≡ bm_stop → Step measuring c ended

-- The commands of a session, the latest first, and the phase that they lead to.
pub data Session : List ℤ → Phase → Type 0 where
  begun : Session [] fresh
  next : {l : List ℤ} {c : ℤ} {p q : Phase} → Session l p → Step p c q → Session (c ∷ l) q

abbrev add_word : Message → Bool → List ℤ → List ℤ
add_word (command c) true l = c ∷ l
add_word (command c) false l = l
add_word (key_pair k) b l = l
add_word (transfers ts) b l = l
add_word (other c) b l = l

-- The commands among the messages to one endpoint, the latest first.
abbrev pub commands_to : Ref → List Sent → List ℤ
commands_to r [] = []
commands_to r (s ∷ l) = add_word s.message (same_ref r s.to) (commands_to r l)

commands_to-orders : (r : Ref) (l : List Sent) → commands_to r (orders l) ≡ commands_to r l
commands_to-orders r [] = refl
commands_to-orders r (s ∷ l) = go s.message s.to (commands_to-orders r l)
  where
    go :
        (m : Message) (to : Ref)
        → commands_to r (orders l) ≡ commands_to r l
        → commands_to r (orders (record s { message = m; to = to } ∷ l))
          ≡ commands_to r (record s { message = m; to = to } ∷ l)
    go (command c) to e = ap (add_word (command c) (same_ref r to)) e
    go (key_pair k) to e = e
    go (transfers ts) to e = e
    go (other c) to e = e

passed :
    (i j : ℕ) (c : ℤ) (l : List Sent)
    → (j == i) ≡ false
    → commands_to (peer j) (record { to = peer i; size = 4; message = command c } ∷ l)
      ≡ commands_to (peer j) l
passed i j c l e = rw e

-- A broadcast from endpoint i on reaches the endpoints i, …, i + num - 1, each once, and no other.
commands_to-outside :
    (num i j : ℕ) (c : ℤ) (l : List Sent)
    → (j < i) ⊎ (i + num ≤ j)
    → commands_to (peer j) (broadcast i num c l) ≡ commands_to (peer j) l
commands_to-outside zero i j c l h = refl
commands_to-outside (suc num) i j c l (inl before) =
    commands_to-outside num (suc i) j c _ (inl (omega arith)) ∙ passed i j c l (ground arith)
commands_to-outside (suc num) i j c l (inr behind) =
    commands_to-outside num (suc i) j c _ (inr (omega arith)) ∙ passed i j c l (ground arith)

commands_to-broadcast :
    (num i j : ℕ) (c : ℤ) (l : List Sent)
    → i ≤ j
    → j < i + num
    → commands_to (peer j) (broadcast i num c l) ≡ c ∷ commands_to (peer j) l
commands_to-broadcast zero i j c l h k = absurd (omega arith)
commands_to-broadcast (suc num) i j c l h k = elim (Bool-cases (j == i)) [
  | inl here ↦ commands_to-outside num (suc i) j c _ (inl (ground arith)) ∙ rw here
  | inr later ↦
      commands_to-broadcast num (suc i) j c _ (ground arith) (omega arith)
      ∙ ap (λ t. c ∷ t) (passed i j c l later)
]

module _ (j : ℕ) where
  told :
      (k : ℕ) (c : ℤ) (l : List Sent) {p q : Phase}
      → j < k
      → Session (commands_to (peer j) l) p
      → Step p c q
      → Session (commands_to (peer j) (broadcast 0 k c l)) q
  told k c l {q} h s st =
      subst (λ w. Session w q) (sym (commands_to-broadcast k 0 j c l (omega arith) (omega arith)))
        (next s st)

  checked :
      (taken num : ℕ) (l : List Sent)
      → j < num
      → Session (commands_to (peer j) l) measuring
      → Session (commands_to (peer j) (commands taken num l)) measuring
  checked zero num l h s = s
  checked (suc taken) num l h s = told num bm_checkpoint _ h (checked taken num l h s) (checks refl)

  campaign-Session :
      (taken num all : ℕ) (l : List Sent)
      → j < num
      → j < all
      → Session (commands_to (peer j) l) fresh
      → Session (commands_to (peer j) (campaign taken num all l)) ended
  campaign-Session taken num all l h k s =
      told all bm_stop _ k
        (checked taken num _ h
          (told num bm_start _ h (told num bm_connect l h s (connects refl)) (starts refl)))
        (stops refl)

  commands-outside :
      (taken num : ℕ) (l : List Sent)
      → num ≤ j
      → commands_to (peer j) (commands taken num l) ≡ commands_to (peer j) l
  commands-outside zero num l h = refl
  commands-outside (suc taken) num l h =
      commands_to-outside num 0 j bm_checkpoint _ (inr (omega arith))
      ∙ commands-outside taken num l h

  campaign-server :
      (taken num all : ℕ) (l : List Sent)
      → num ≤ j
      → j < all
      → commands_to (peer j) (campaign taken num all l) ≡ bm_stop ∷ commands_to (peer j) l
  campaign-server taken num all l h k =
      commands_to-broadcast all 0 j bm_stop _ (omega arith) (omega arith)
      ∙ ap (λ t. bm_stop ∷ t)
          (commands-outside taken num _ h
            ∙ commands_to-outside num 0 j bm_start _ (inr (omega arith))
            ∙ commands_to-outside num 0 j bm_connect l (inr (omega arith)))

-- The commands to one endpoint in a whole run of the program that starts with no call made.
whole_run :
    (fabric : Fabric) (c : Config) (l : List Sent) (reports : List (List Line)) (m : Node)
    → Ran fabric c l reports m
    → (j : ℕ)
    → (taken : ℕ) × (commands_to (peer j) (traffic fabric m.log).sent
        ≡ commands_to (peer j) (campaign taken (rounds c.num_en) (rounds (c.num_en +ℤ c.num_pn)) l))
whole_run fabric c l reports m (taken, e, sent) j = (
  taken,
  sym (commands_to-orders (peer j) (traffic fabric m.log).sent) ∙ ap (commands_to (peer j)) sent,
)

-- When the controller's program returns 0 from a new node, with num_pn not negative, the commands
-- to each client are a whole session of the client's protocol: connect, then start, then
-- checkpoints, then stop, and nothing else. libfabric's queues never report a status of 0.
pub controller-Session :
    (fabric : Fabric)
    → IsDocumented fabric
    → (fuel : ℕ) (clock : ℕ → ℤ) (raw : Ref → Raw) (summary checkpoint : List Transfer) (turns : ℕ)
      (unset : ℤ) (n m : Node) (reports : List (List Line)) (j : ℕ)
    → n.log ≡ []
    → pos 0 ≤ℤ n.config.num_pn
    → j < rounds n.config.num_en
    → controller fabric fuel clock raw summary checkpoint turns unset n ≡ done (pos 0, reports) m
    → Session (commands_to (peer j) (traffic fabric m.log).sent) ended
controller-Session fabric doc fuel clock raw summary checkpoint turns unset n m reports j new h k
      e =
    let (taken, w) =
      whole_run fabric n.config _ reports m
        (controller-campaign fabric doc fuel clock raw summary checkpoint turns unset n m reports e)
        j in
    subst (λ t. Session t ended) (sym w)
      (campaign-Session j taken (rounds n.config.num_en)
        (rounds (n.config.num_en +ℤ n.config.num_pn)) _ k
        (lt_of_lt_of_le k (rounds_le n.config.num_en n.config.num_pn h)) (rw new begun))

-- When the controller's program returns 0 from a new node, it has sent exactly one command to
-- each server, the stop. A server is an endpoint from num_en on and below num_en + num_pn.
-- libfabric's queues never report a status of 0.
pub controller-server :
    (fabric : Fabric)
    → IsDocumented fabric
    → (fuel : ℕ) (clock : ℕ → ℤ) (raw : Ref → Raw) (summary checkpoint : List Transfer) (turns : ℕ)
      (unset : ℤ) (n m : Node) (reports : List (List Line)) (j : ℕ)
    → n.log ≡ []
    → rounds n.config.num_en ≤ j
    → j < rounds (n.config.num_en +ℤ n.config.num_pn)
    → controller fabric fuel clock raw summary checkpoint turns unset n ≡ done (pos 0, reports) m
    → commands_to (peer j) (traffic fabric m.log).sent ≡ bm_stop ∷ []
controller-server fabric doc fuel clock raw summary checkpoint turns unset n m reports j new h k e =
    let (taken, w) =
      whole_run fabric n.config _ reports m
        (controller-campaign fabric doc fuel clock raw summary checkpoint turns unset n m reports e)
        j in
    w
    ∙ campaign-server j taken (rounds n.config.num_en) (rounds (n.config.num_en +ℤ n.config.num_pn))
        _ h k
    ∙ rw new
