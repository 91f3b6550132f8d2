-- ===== src/Node/Controller/Rows.antt =====
-- Where the controller puts a client's row of transfers.
use libfabric_benchmark.Base.{
  ℕ, zero, suc, ◌+◌, ◌*◌, ◌≤◌, ◌<◌, List, [], ◌∷◌, some, ◌≡◌, refl, ap, ◌∙◌, ◌⊎◌, inl, inr, true,
  ◌&&◌, leb, length, get_elem?, Bool-cases, Option-cases, lt→ltb, arith,
}
use libfabric_benchmark.Base.Int.{pos}
use libfabric_benchmark.Config.{Transfer}
use libfabric_benchmark.Fabric.{Message, command, key_pair, transfers, other, peer}
use libfabric_benchmark.Machine.{Node, done, and_then}
use libfabric_benchmark.Machine.Ensures.{Ensures, returns, faults, returned, eps-rule}
use libfabric_benchmark.Node.{rounds, row_bytes}
use libfabric_benchmark.Node.Controller.{
  Table, in_checkpoint, in_summary, table_of, with_table, write_at, rows_of, store_rows,
}

pub length-write_at :
    (at : ℕ) (rows table : List Transfer) → length (write_at at rows table) ≡ length table
unfolding write_at
length-write_at at [] table = refl
length-write_at at (r ∷ rows) [] = refl
length-write_at zero (r ∷ rows) (t ∷ table) = ap suc (length-write_at zero rows table)
length-write_at (suc at) (r ∷ rows) (t ∷ table) = ap suc (length-write_at at (r ∷ rows) table)

get_elem?-write_at :
    (at : ℕ) (rows table : List Transfer) (j k : ℕ)
    → at + length rows ≤ length table
    → j < length rows
    → at + j ≡ k
    → get_elem? (write_at at rows table) k ≡ get_elem? rows j
unfolding write_at
get_elem?-write_at at [] table j k fits lt e = absurd (omega arith)
get_elem?-write_at at (r ∷ rows) [] j k fits lt e = absurd (omega arith)
get_elem?-write_at zero (r ∷ rows) (t ∷ table) zero zero fits lt e = refl
get_elem?-write_at zero (r ∷ rows) (t ∷ table) zero (suc k) fits lt e = absurd (omega arith)
get_elem?-write_at zero (r ∷ rows) (t ∷ table) (suc j) zero fits lt e = absurd (omega arith)
get_elem?-write_at zero (r ∷ rows) (t ∷ table) (suc j) (suc k) fits lt e =
    get_elem?-write_at zero rows table j k (omega arith) (omega arith) (omega arith)
get_elem?-write_at (suc at) (r ∷ rows) (t ∷ table) j zero fits lt e = absurd (omega arith)
get_elem?-write_at (suc at) (r ∷ rows) (t ∷ table) j (suc k) fits lt e =
    get_elem?-write_at at (r ∷ rows) table j k (omega arith) (omega arith) (omega arith)

get_elem?-write_at_other :
    (at : ℕ) (rows table : List Transfer) (k : ℕ)
    → (k < at) ⊎ (at + length rows ≤ k)
    → get_elem? (write_at at rows table) k ≡ get_elem? table k
unfolding write_at
get_elem?-write_at_other at [] table k far = refl
get_elem?-write_at_other at (r ∷ rows) [] k far = refl
get_elem?-write_at_other zero (r ∷ rows) (t ∷ table) zero far = absurd (omega arith)
get_elem?-write_at_other zero (r ∷ rows) (t ∷ table) (suc k) far =
    get_elem?-write_at_other zero rows table k (inr (omega arith))
get_elem?-write_at_other (suc at) (r ∷ rows) (t ∷ table) zero far = refl
get_elem?-write_at_other (suc at) (r ∷ rows) (t ∷ table) (suc k) far =
    get_elem?-write_at_other at (r ∷ rows) table k (omega arith)

rows_of-transfers :
    (num : ℕ) (m : Message) (rows : List Transfer)
    → rows_of num m ≡ some rows
    → (m ≡ transfers rows) × (length rows ≡ num)
rows_of-transfers num (command c) rows e = absurd (ground arith)
rows_of-transfers num (key_pair k) rows e = absurd (ground arith)
rows_of-transfers num (other c) rows e = absurd (ground arith)
rows_of-transfers num (transfers ts) rows e = ground arith

-- A stored row: the buffer of endpoint `id` held one transfer for each server; they stand now at
-- `id * num_pn` and on, in their order; and the rest of the table is as before.
pub record IsStored (w : Table) (id : ℕ) (n m : Node) : Type 0 where
  pub rows : List Transfer
  pub held : (n.endpoint (peer id)).ctrl_buff ≡ transfers rows
  pub count : length rows ≡ rounds n.config.num_pn
  pub same_length : length (table_of w m) ≡ length (table_of w n)
  pub placed :
      (j : ℕ)
      → j < rounds n.config.num_pn
      → get_elem? (table_of w m) (id * rounds n.config.num_pn + j) ≡ get_elem? rows j
  pub others :
      (k : ℕ)
      → (k < id * rounds n.config.num_pn)
        ⊎ (id * rounds n.config.num_pn + rounds n.config.num_pn ≤ k)
      → get_elem? (table_of w m) k ≡ get_elem? (table_of w n) k
  pub fits : row_bytes n.config ≤ n.config.ctrl_size

both_leb : (a b c d : ℕ) → (leb a b && leb c d) ≡ true → (a ≤ b) × (c ≤ d)
both_leb a b c d h = ground arith

table_of-with_table : (w : Table) (t : List Transfer) (n : Node) → table_of w (with_table w t n) ≡ t
table_of-with_table in_checkpoint t n = refl
table_of-with_table in_summary t n = refl

written-IsStored :
    (w : Table) (id : ℕ) (rows : List Transfer) (n : Node)
    → (n.endpoint (peer id)).ctrl_buff ≡ transfers rows
    → length rows ≡ rounds n.config.num_pn
    → row_bytes n.config ≤ n.config.ctrl_size
    → id * rounds n.config.num_pn + rounds n.config.num_pn ≤ length (table_of w n)
    → IsStored w id n (with_table w (write_at (id * rounds n.config.num_pn) rows (table_of w n)) n)
written-IsStored w id rows n held count small inside =
    let num = rounds n.config.num_pn in
    let new = write_at (id * num) rows (table_of w n) in
    let is_new = table_of-with_table w new n in
    record {
      rows = rows;
      held = held;
      count = count;
      same_length = ap length is_new ∙ length-write_at (id * num) rows (table_of w n);
      placed = λ j lt.
          ap (λ t. get_elem? t (id * num + j)) is_new
          ∙ get_elem?-write_at (id * num) rows (table_of w n) j (id * num + j) (rw count inside)
              (rw count lt) refl;
      others = λ k far.
          ap (λ t. get_elem? t k) is_new
          ∙ get_elem?-write_at_other (id * num) rows (table_of w n) k (rw count far);
      fits = small;
    }

stored :
    (w : Table) (id : ℕ) (n : Node) → Ensures (λ _ m. IsStored w id n m) (store_rows w (pos id) n)
unfolding store_rows
stored w id n =
    eps-rule id n _
      (elim (Option-cases (rows_of (rounds n.config.num_pn) (n.endpoint (peer id)).ctrl_buff)) [
        | inl bad ↦ rw (bad, and_then) faults
        | inr (rows, good) ↦
            elim (Bool-cases (
              leb (row_bytes n.config) n.config.ctrl_size
              && leb (id * rounds n.config.num_pn + rounds n.config.num_pn)
                  (length (table_of w n)))) [
                    | inr over ↦ rw (good, and_then, over) faults
                    | inl fits ↦
                        let (held, count) =
                          rows_of-transfers (rounds n.config.num_pn) _ rows good in
                        let (small, inside) = both_leb _ _ _ _ fits in
                        rw (good, and_then, fits)
                          (returns (written-IsStored w id rows n held count small inside))
                  ]
      ])

-- If the copy of a row to a table returns, then it has stored the row that the client's control
-- buffer held, whole and in its place, and nothing else in the table has changed.
pub store_rows-IsStored :
    (w : Table) (id : ℕ) (n m : Node) → store_rows w (pos id) n ≡ done tt m → IsStored w id n m
store_rows-IsStored w id n m e = returned (stored w id n) e

leb_both : (a b c d : ℕ) → a ≤ b → c ≤ d → (leb a b && leb c d) ≡ true
leb_both a b c d h k = ground arith

rows_of-some :
    (num : ℕ) (m : Message) (rows : List Transfer)
    → m ≡ transfers rows
    → length rows ≡ num
    → rows_of num m ≡ some rows
rows_of-some num m rows held count = rw held (ground arith)

-- The copy of a row that fits, and the table after it.
pub store_rows-done :
    (w : Table) (id : ℕ) (rows : List Transfer) (n : Node)
    → id < n.eps_size
    → (n.endpoint (peer id)).ctrl_buff ≡ transfers rows
    → length rows ≡ rounds n.config.num_pn
    → row_bytes n.config ≤ n.config.ctrl_size
    → id * rounds n.config.num_pn + rounds n.config.num_pn ≤ length (table_of w n)
    → store_rows w (pos id) n
      ≡ done tt (with_table w (write_at (id * rounds n.config.num_pn) rows (table_of w n)) n)
unfolding store_rows
store_rows-done w id rows n exists held count small inside = rw (
  lt→ltb id n.eps_size exists,
  and_then,
  rows_of-some (rounds n.config.num_pn) (n.endpoint (peer id)).ctrl_buff rows held count,
  leb_both (row_bytes n.config) n.config.ctrl_size
      (id * rounds n.config.num_pn + rounds n.config.num_pn) (length (table_of w n)) small inside,
)

-- The copy of a client's row to a table returns, with the row whole and in its place and the rest
-- of the table as it was, if the endpoint exists, its control buffer holds one transfer for each
-- server, a row is not longer than the buffer, and its place lies inside the table.
pub store_rows-returns :
    (w : Table) (id : ℕ) (rows : List Transfer) (n : Node)
    → id < n.eps_size
    → (n.endpoint (peer id)).ctrl_buff ≡ transfers rows
    → length rows ≡ rounds n.config.num_pn
    → row_bytes n.config ≤ n.config.ctrl_size
    → id * rounds n.config.num_pn + rounds n.config.num_pn ≤ length (table_of w n)
    → (m : Node) × (store_rows w (pos id) n ≡ done tt m) × IsStored w id n m
store_rows-returns w id rows n exists held count small inside = (
  with_table w (write_at (id * rounds n.config.num_pn) rows (table_of w n)) n,
  store_rows-done w id rows n exists held count small inside,
  written-IsStored w id rows n held count small inside,
)
