-- ===== src/Node/Client/Benchmark/Books.antt =====
-- The counters and rows of `Node::benchmark` along the steps of the abstract view.
use libfabric_benchmark.Base.{
  ℕ, zero, suc, List, [], ◌∷◌, map, Option, none, some, ◌≡◌, refl, sym, arith, ◌==◌, if◌then◌else◌,
  length, get_elem?, set, range,
}
use libfabric_benchmark.Base.Int.{ℤ, pos, ◌+ℤ◌, ◌-ℤ◌, +ℤ_parts, -ℤ_parts, eq_of_parts}
use libfabric_benchmark.Config.{Transfer}
use libfabric_benchmark.Node.Client.Benchmark.{
  Tally, first_tally, first_row, stamp, stop_rows, checkpoint_rows, remember, on_stop,
  on_checkpoint, count_completion,
}
use libfabric_benchmark.Node.Client.Benchmark.Trace.{
  Trace, begin, counted, timed, ticked, reported, stopped, count_of, completions_at, total_at,
  Trace-HasRows, first_tally-HasRows,
}

completions_at-first :
    (i : ℕ) (from d : ℤ) (lo num : ℕ)
    → completions_at i (map (first_row from d) (range lo num)) ≡ pos 0
completions_at-first i from d lo zero = refl
completions_at-first zero from d lo (suc num) = refl
completions_at-first (suc i) from d lo (suc num) = completions_at-first i from d (suc lo) num

completions_at-stamp :
    (i : ℕ) (t : ℤ) (ts : List Transfer) → completions_at i (stamp t ts) ≡ completions_at i ts
unfolding stamp
completions_at-stamp i t [] = refl
completions_at-stamp zero t (r ∷ ts) = refl
completions_at-stamp (suc i) t (r ∷ ts) = completions_at-stamp i t ts

completions_at-remember :
    (i : ℕ) (ps ts : List Transfer)
    → length ps ≡ length ts
    → completions_at i (remember ps ts) ≡ completions_at i ts
unfolding remember
completions_at-remember i [] [] e = refl
completions_at-remember i [] (t ∷ ts) e = absurd (omega arith)
completions_at-remember i (p ∷ ps) [] e = absurd (omega arith)
completions_at-remember zero (p ∷ ps) (t ∷ ts) e = refl
completions_at-remember (suc i) (p ∷ ps) (t ∷ ts) e = completions_at-remember i ps ts (omega arith)

completions_at-stop_rows :
    (i : ℕ) (ts ds : List Transfer)
    → length ts ≡ length ds
    → completions_at i (stop_rows ts ds) ≡ completions_at i ts
unfolding stop_rows
completions_at-stop_rows i [] [] e = refl
completions_at-stop_rows i [] (d ∷ ds) e = absurd (omega arith)
completions_at-stop_rows i (t ∷ ts) [] e = absurd (omega arith)
completions_at-stop_rows zero (t ∷ ts) (d ∷ ds) e = refl
completions_at-stop_rows (suc i) (t ∷ ts) (d ∷ ds) e =
    completions_at-stop_rows i ts ds (omega arith)

sub_zero : pos 0 -ℤ pos 0 ≡ pos 0
unfolding ◌-ℤ◌
sub_zero = refl

completions_at-checkpoint_rows :
    (i : ℕ) (ps ts ds : List Transfer)
    → length ps ≡ length ts
    → length ts ≡ length ds
    → completions_at i (checkpoint_rows ps ts ds) ≡ completions_at i ts -ℤ completions_at i ps
unfolding checkpoint_rows
completions_at-checkpoint_rows i [] [] [] e f = sym sub_zero
completions_at-checkpoint_rows i [] [] (d ∷ ds) e f = absurd (omega arith)
completions_at-checkpoint_rows i [] (t ∷ ts) ds e f = absurd (omega arith)
completions_at-checkpoint_rows i (p ∷ ps) [] ds e f = absurd (omega arith)
completions_at-checkpoint_rows i (p ∷ ps) (t ∷ ts) [] e f = absurd (omega arith)
completions_at-checkpoint_rows zero (p ∷ ps) (t ∷ ts) (d ∷ ds) e f = refl
completions_at-checkpoint_rows (suc i) (p ∷ ps) (t ∷ ts) (d ∷ ds) e f =
    completions_at-checkpoint_rows i ps ts ds (omega arith) (omega arith)

completions_at-set :
    (i j : ℕ) (t : Transfer) (ts : List Transfer)
    → get_elem? ts i ≡ some t
    → completions_at j (set ts i (record t { completions = t.completions +ℤ pos 1 }))
      ≡ (if i == j then completions_at j ts +ℤ pos 1 else completions_at j ts)
completions_at-set i j t [] e = cc
completions_at-set zero zero t (r ∷ ts) e = ground arith
completions_at-set zero (suc j) t (r ∷ ts) e = ground arith
completions_at-set (suc i) zero t (r ∷ ts) e = ground arith
completions_at-set (suc i) (suc j) t (r ∷ ts) e = ground (arith, completions_at-set i j t ts e)

-- A counted completion adds one at its server, in `transfer` alone.
pub count_completion-lem :
    (i j : ℕ) (s s' : Tally)
    → count_completion (pos i) s ≡ some s'
    → (completions_at j s'.transfer
        ≡ (if i == j then completions_at j s.transfer +ℤ pos 1 else completions_at j s.transfer))
      × (s'.temp ≡ s.temp)
unfolding count_completion
count_completion-lem i j s s' e = go (get_elem? s.transfer i) refl
  where
    go :
        (o : Option Transfer)
        → get_elem? s.transfer i ≡ o
        → (completions_at j s'.transfer ≡ (
            if i == j then completions_at j s.transfer +ℤ pos 1 else completions_at j s.transfer))
          × (s'.temp ≡ s.temp)
    go none f = absurd (ground arith)
    go (some t) f = (ground (arith, completions_at-set i j t s.transfer f), ground arith)

suc_pos : (n : ℕ) → pos n +ℤ pos 1 ≡ pos (suc n)
unfolding ◌+ℤ◌
suc_pos n = ground arith

sub_add : (a b : ℤ) → a ≡ a -ℤ b +ℤ b
sub_add a b = eq_of_parts _ _ (omega (arith, +ℤ_parts, -ℤ_parts))

module _ (from unset : ℤ) (num : ℕ) where
  -- After any steps, `transfer` holds for each server how many of its completions were counted.
  pub transfer-count_of :
      (j : ℕ) {s : Tally} {rows : List (List Transfer)}
      (tr : Trace (first_tally from unset num) s rows)
      → completions_at j s.transfer ≡ pos (count_of tr j)
  unfolding first_tally on_checkpoint on_stop
  transfer-count_of j begin = completions_at-first j from unset 0 num
  transfer-count_of j (counted {s} {s'} tr i e) =
      ground
        (arith, count_completion-lem i j s s' e, transfer-count_of j tr, suc_pos (count_of tr j))
  transfer-count_of j (timed {s} tr t c e) =
      ground (arith, transfer-count_of j tr, completions_at-stamp j t s.transfer)
  transfer-count_of j (ticked tr c e) = ground (arith, transfer-count_of j tr)
  transfer-count_of j (reported tr e r) = ground (arith, transfer-count_of j tr)
  transfer-count_of j (stopped tr e) = ground (arith, transfer-count_of j tr)

  -- What the reports add up to is what `temp` remembers.
  temp-total_at :
      (j : ℕ) {s : Tally} {rows : List (List Transfer)}
      (tr : Trace (first_tally from unset num) s rows)
      → completions_at j s.temp ≡ total_at j rows
  unfolding first_tally on_checkpoint on_stop
  temp-total_at j begin = completions_at-first j from (pos 0) 0 num
  temp-total_at j (counted {s} {s'} tr i e) =
      ground (arith, count_completion-lem i j s s' e, temp-total_at j tr)
  temp-total_at j (timed tr t c e) = ground (arith, temp-total_at j tr)
  temp-total_at j (ticked tr c e) = ground (arith, temp-total_at j tr)
  temp-total_at j (stopped tr e) = ground (arith, temp-total_at j tr)
  temp-total_at j (reported {s} {s'} {rows} {rows'} tr e r) =
      let h = Trace-HasRows (first_tally-HasRows from unset num) tr in
      rw (r, e)
        (rw
          (
            completions_at-remember j s.temp s.transfer (omega arith),
            completions_at-checkpoint_rows j s.temp s.transfer s.delta (omega arith) (omega arith),
            ← temp-total_at j tr,
          )
          (sub_add (completions_at j s.transfer) (completions_at j s.temp)))

  -- At any moment of the benchmark a checkpoint row closes the books, and so does a stop row: for
  -- each server, all checkpoint rows so far and the one for a checkpoint now add up to the number of
  -- completions counted, and the row for a stop now holds this number.
  pub rows-count_of :
      (j : ℕ) {s : Tally} {rows : List (List Transfer)}
      (tr : Trace (first_tally from unset num) s rows)
      → (total_at j ((on_checkpoint s).delta ∷ rows) ≡ pos (count_of tr j))
        × (completions_at j (on_stop s).delta ≡ pos (count_of tr j))
  unfolding on_checkpoint on_stop
  rows-count_of j {s} {rows} tr =
      let h = Trace-HasRows (first_tally-HasRows from unset num) tr in
      (
        rw
            (
              completions_at-checkpoint_rows j s.temp s.transfer s.delta (omega arith)
                  (omega arith),
              ← temp-total_at j tr,
              ← sub_add (completions_at j s.transfer) (completions_at j s.temp),
            )
            (transfer-count_of j tr),
        rw (completions_at-stop_rows j s.transfer s.delta (omega arith)) (transfer-count_of j tr),
      )
