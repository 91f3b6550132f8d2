-- ===== src/Node/Client/Benchmark/Trace.antt =====
-- The abstract view of `Node::benchmark`: what happens to the counters, step by step, and the books
-- that the steps keep.
use libfabric_benchmark.Base.{
  ℕ, zero, suc, List, [], ◌∷◌, map, Option, none, some, ◌≡◌, refl, ap, arith, ◌==◌, if◌then◌else◌,
  length, get_elem?, range, length-set,
}
use libfabric_benchmark.Base.Int.{ℤ, pos, ◌+ℤ◌}
use libfabric_benchmark.Config.{Transfer}
use libfabric_benchmark.Clock.{Clock}
use libfabric_benchmark.Node.Client.Benchmark.{
  Tally, first_tally, first_row, stamp, stop_rows, checkpoint_rows, remember, on_stop,
  on_checkpoint, count_completion,
}

-- The steps from one tally to another, with the rows that the checkpoints report, the latest first.
pub data Trace (s₀ : Tally) : Tally → List (List Transfer) → Type 0 where
  begin : Trace s₀ s₀ []
  counted :
      {s s' : Tally} {rows : List (List Transfer)}
      → Trace s₀ s rows
      → (i : ℕ) → count_completion (pos i) s ≡ some s'
      → Trace s₀ s' rows
  timed :
      {s s' : Tally} {rows : List (List Transfer)}
      → Trace s₀ s rows
      → (t : ℤ) (c : Clock) → s' ≡ record s { transfer = stamp t s.transfer; timer = c }
      → Trace s₀ s' rows
  ticked :
      {s s' : Tally} {rows : List (List Transfer)}
      → Trace s₀ s rows
      → (c : Clock) → s' ≡ record s { timer = c }
      → Trace s₀ s' rows
  reported :
      {s s' : Tally} {rows rows' : List (List Transfer)}
      → Trace s₀ s rows
      → s' ≡ on_checkpoint s
      → rows' ≡ s'.delta ∷ rows
      → Trace s₀ s' rows'
  stopped :
      {s s' : Tally} {rows : List (List Transfer)}
      → Trace s₀ s rows
      → s' ≡ on_stop s
      → Trace s₀ s' rows

-- How many completions a trace has counted for server `j`.
abbrev pub count_of : {s₀ s : Tally} {rows : List (List Transfer)} → Trace s₀ s rows → ℕ → ℕ
count_of begin j = 0
count_of (counted tr i e) j = let k = count_of tr j in if i == j then suc k else k
count_of (timed tr t c e) j = count_of tr j
count_of (ticked tr c e) j = count_of tr j
count_of (reported tr e r) j = count_of tr j
count_of (stopped tr e) j = count_of tr j

-- The count in row `i`.
abbrev pub completions_at : ℕ → List Transfer → ℤ
completions_at i [] = pos 0
completions_at zero (t ∷ ts) = t.completions
completions_at (suc i) (t ∷ ts) = completions_at i ts

-- What all the reports together say of server `i`.
abbrev pub total_at : ℕ → List (List Transfer) → ℤ
total_at i [] = pos 0
total_at i (r ∷ rows) = completions_at i r +ℤ total_at i rows

-- The three arrays have one row for each of `num` servers.
pub record HasRows (num : ℕ) (s : Tally) : Type 0 where
  pub temp : length s.temp ≡ num
  pub transfer : length s.transfer ≡ num
  pub delta : length s.delta ≡ num

length-stamp : (t : ℤ) (ts : List Transfer) → length (stamp t ts) ≡ length ts
unfolding stamp
length-stamp t [] = refl
length-stamp t (r ∷ ts) = ap suc (length-stamp t ts)

length-stop_rows :
    (ts ds : List Transfer) → length ts ≡ length ds → length (stop_rows ts ds) ≡ length ds
unfolding stop_rows
length-stop_rows [] [] e = refl
length-stop_rows [] (d ∷ ds) e = absurd (omega arith)
length-stop_rows (t ∷ ts) [] e = refl
length-stop_rows (t ∷ ts) (d ∷ ds) e = ap suc (length-stop_rows ts ds (omega arith))

length-checkpoint_rows :
    (ps ts ds : List Transfer)
    → length ps ≡ length ts
    → length ts ≡ length ds
    → length (checkpoint_rows ps ts ds) ≡ length ds
unfolding checkpoint_rows
length-checkpoint_rows [] [] [] e f = refl
length-checkpoint_rows [] [] (d ∷ ds) e f = absurd (omega arith)
length-checkpoint_rows [] (t ∷ ts) ds e f = absurd (omega arith)
length-checkpoint_rows (p ∷ ps) [] ds e f = absurd (omega arith)
length-checkpoint_rows (p ∷ ps) (t ∷ ts) [] e f = absurd (omega arith)
length-checkpoint_rows (p ∷ ps) (t ∷ ts) (d ∷ ds) e f =
    ap suc (length-checkpoint_rows ps ts ds (omega arith) (omega arith))

length-remember :
    (ps ts : List Transfer) → length ps ≡ length ts → length (remember ps ts) ≡ length ps
unfolding remember
length-remember [] [] e = refl
length-remember [] (t ∷ ts) e = absurd (omega arith)
length-remember (p ∷ ps) [] e = absurd (omega arith)
length-remember (p ∷ ps) (t ∷ ts) e = ap suc (length-remember ps ts (omega arith))

length-first_rows : (from d : ℤ) (lo num : ℕ) → length (map (first_row from d) (range lo num)) ≡ num
length-first_rows from d lo zero = refl
length-first_rows from d lo (suc num) = ap suc (length-first_rows from d (suc lo) num)

count_completion-HasRows :
    (i num : ℕ) (s s' : Tally)
    → count_completion (pos i) s ≡ some s'
    → HasRows num s
    → HasRows num s'
unfolding count_completion
count_completion-HasRows i num s s' e h = go (get_elem? s.transfer i) refl
  where
    go : (o : Option Transfer) → get_elem? s.transfer i ≡ o → HasRows num s'
    go none f = absurd (ground arith)
    go (some t) f =
        ground (arith, length-set s.transfer i (record t { completions = t.completions +ℤ pos 1 }))

pub first_tally-HasRows : (from unset : ℤ) (num : ℕ) → HasRows num (first_tally from unset num)
unfolding first_tally
first_tally-HasRows from unset num = record {
  temp = length-first_rows from (pos 0) 0 num;
  transfer = length-first_rows from unset 0 num;
  delta = length-first_rows from unset 0 num;
}

-- Every trace keeps one row for each server.
pub Trace-HasRows :
    {num : ℕ} {s₀ s : Tally} {rows : List (List Transfer)}
    → HasRows num s₀
    → Trace s₀ s rows
    → HasRows num s
unfolding on_checkpoint on_stop
Trace-HasRows h begin = h
Trace-HasRows {num} h (counted {s} {s'} tr i e) =
    count_completion-HasRows i num s s' e (Trace-HasRows h tr)
Trace-HasRows h (timed {s} tr t c e) = ground (arith, Trace-HasRows h tr, length-stamp t s.transfer)
Trace-HasRows h (ticked {s} tr c e) = ground (arith, Trace-HasRows h tr)
Trace-HasRows h (reported {s} tr e r) = ground (
  arith,
  Trace-HasRows h tr,
  length-checkpoint_rows s.temp s.transfer s.delta,
  length-remember s.temp s.transfer,
)
Trace-HasRows h (stopped {s} tr e) =
    ground (arith, Trace-HasRows h tr, length-stop_rows s.transfer s.delta)
