-- ===== src/Main/Report.antt =====
-- What the controller's report says.
use libfabric_benchmark.Base.{
  ℕ, zero, suc, ◌+◌, ◌-◌, ◌*◌, ◌≤◌, ◌<◌, List, [], ◌∷◌, ◌++◌, Option, none, some, ◌≡◌, refl, ◌∙◌,
  sym, ap, length, get_elem?, get_elem?-total, Option-cases, inl, inr, arith,
}
use libfabric_benchmark.Base.Int.{pos}
use libfabric_benchmark.Config.{Config, Transfer}
use libfabric_benchmark.Machine.{Node, done}
use libfabric_benchmark.Fabric.{peer, transfers}
use libfabric_benchmark.Node.{rounds}
use libfabric_benchmark.Node.Controller.{in_summary, store_rows}
use libfabric_benchmark.Node.Controller.Rows.{store_rows-IsStored}
use libfabric_benchmark.Main.{Line, line_of, row_lines, table_lines, report}

abbrev join : Option (List Line) → Option (List Line) → Option (List Line)
join none b = none
join (some r) none = none
join (some r) (some ls) = some (r ++ ls)

join-nil : (o : Option (List Line)) → join (some []) o ≡ o
join-nil none = refl
join-nil (some ls) = refl

abbrev cons : Line → Option (List Line) → Option (List Line)
cons l none = none
cons l (some ls) = some (l ∷ ls)

join-cons : (l : Line) (o p : Option (List Line)) → join (cons l o) p ≡ cons l (join o p)
join-cons l none p = refl
join-cons l (some ls) none = refl
join-cons l (some ls) (some ms) = refl

module _ (c : Config) (table : List Transfer) where
  row_lines-some :
      (at left : ℕ) (t : Transfer)
      → get_elem? table at ≡ some t
      → row_lines c table at (suc left) ≡ cons (line_of c t) (row_lines c table (suc at) left)
  unfolding row_lines
  row_lines-some at left t e =
      rw (e, row_lines)
        (elim (Option-cases (row_lines c table (suc at) left)) [
          | inl f ↦ rw f
          | inr (ls, f) ↦ rw f
        ])

  row_lines-none :
      (at left : ℕ) → get_elem? table at ≡ none → row_lines c table at (suc left) ≡ none
  unfolding row_lines
  row_lines-none at left e = rw (e, row_lines)

  row_lines-zero : (at : ℕ) → row_lines c table at 0 ≡ some []
  unfolding row_lines
  row_lines-zero at = refl

  row_lines-eq : (a b l k : ℕ) → a ≡ b → l ≡ k → row_lines c table a l ≡ row_lines c table b k
  row_lines-eq a b l k e f = rw (e, f)

  row_lines-append :
      (at a b : ℕ)
      → join (row_lines c table at a) (row_lines c table (at + a) b) ≡ row_lines c table at (a + b)
  row_lines-append at zero b =
      ap (λ o. join o (row_lines c table (at + 0) b)) (row_lines-zero at)
      ∙ join-nil (row_lines c table (at + 0) b)
      ∙ row_lines-eq (at + 0) at b (0 + b) (omega arith) (omega arith)
  row_lines-append at (suc a) b = elim (Option-cases (get_elem? table at)) [
    | inl e ↦ rw (row_lines-none at a e) (
        sym (row_lines-none at (a + b) e)
        ∙ row_lines-eq at at (suc (a + b)) (suc a + b) refl (omega arith))
    | inr (t, e) ↦ rw (row_lines-some at a t e) (
        join-cons (line_of c t) (row_lines c table (suc at) a) (row_lines c table (at + suc a) b)
        ∙ ap (λ z. cons (line_of c t) (join (row_lines c table (suc at) a) (row_lines c table z b)))
            (omega arith)
        ∙ ap (cons (line_of c t)) (row_lines-append (suc at) a b)
        ∙ sym (row_lines-some at (a + b) t e)
        ∙ row_lines-eq at at (suc (a + b)) (suc a + b) refl (omega arith))
  ]

  table_lines-suc :
      (i left : ℕ)
      → table_lines c table i (suc left)
        ≡ join
            (row_lines c table (i * rounds c.num_pn) (rounds c.num_pn))
            (table_lines c table (suc i) left)
  unfolding table_lines
  table_lines-suc i left =
      elim (Option-cases (row_lines c table (i * rounds c.num_pn) (rounds c.num_pn))) [
        | inl e ↦ rw (e, table_lines)
        | inr (row, e) ↦ elim (Option-cases (table_lines c table (suc i) left)) [
          | inl f ↦ rw (e, f, table_lines)
          | inr (ls, f) ↦ rw (e, f, table_lines)
        ]
      ]

  -- The two loops together read one run of the table.
  table_lines-row_lines :
      (i left : ℕ)
      → table_lines c table i left
        ≡ row_lines c table (i * rounds c.num_pn) (left * rounds c.num_pn)
  table_lines-row_lines i zero =
      unfold table_lines in
      (sym (row_lines-zero (i * rounds c.num_pn))
        ∙ row_lines-eq _ _ 0 (0 * rounds c.num_pn) refl (omega arith))
  table_lines-row_lines i (suc left) =
      let m = rounds c.num_pn in
      table_lines-suc i left
      ∙ ap (join (row_lines c table (i * m) m)) (table_lines-row_lines (suc i) left)
      ∙ ap (λ z. join (row_lines c table (i * m) m) (row_lines c table z (left * m))) (omega arith)
      ∙ row_lines-append (i * m) m (left * m)
      ∙ ap (row_lines c table (i * m)) (omega arith)

  row_lines-get :
      (at left : ℕ)
      → at + left ≤ length table
      → (ls : List Line) × (row_lines c table at left ≡ some ls)
        × (length ls ≡ left)
        × ((k l : ℕ) (t : Transfer)
            → k < left
            → at + k ≡ l
            → get_elem? table l ≡ some t
            → get_elem? ls k ≡ some (line_of c t))
  row_lines-get at zero fits =
      unfold row_lines in ([], refl, refl, λ k l t lt. absurd (omega arith))
  row_lines-get at (suc left) fits =
      let (t, e) = get_elem?-total table at (omega arith) in
      let (ls, f, count, get) = row_lines-get (suc at) left (omega arith) in
      (
        line_of c t ∷ ls,
        row_lines-some at left t e ∙ ap (cons (line_of c t)) f,
        ap suc count,
        pick t ls e get,
      )
    where
      pick :
          (t : Transfer) (ls : List Line)
          → get_elem? table at ≡ some t
          → ((k l : ℕ) (u : Transfer)
              → k < left
              → suc at + k ≡ l
              → get_elem? table l ≡ some u
              → get_elem? ls k ≡ some (line_of c u))
          → (k l : ℕ) (u : Transfer) → k < suc left
          → at + k ≡ l
          → get_elem? table l ≡ some u
          → get_elem? (line_of c t ∷ ls) k ≡ some (line_of c u)
      pick t ls e get zero l u lt same at_l =
          ap (λ o. elim o [ none ↦ none | some x ↦ some (line_of c x) ])
            (sym e ∙ ap (get_elem? table) same' ∙ at_l)
        where
          same' : at ≡ l
          same' = omega arith
      pick t ls e get (suc k) l u lt same at_l = get k l u (omega arith) (omega arith) at_l

-- If the table has a row for each pair of a client and a server, then the report has one line for
-- each pair, in the table's order, and each is made of the transfer at its place.
pub report-lines :
    (table : List Transfer) (c : Config)
    → rounds c.num_en * rounds c.num_pn ≤ length table
    → (ls : List Line) × (report table c ≡ some ls)
      × (length ls ≡ rounds c.num_en * rounds c.num_pn)
      × ((k : ℕ) (t : Transfer)
          → k < rounds c.num_en * rounds c.num_pn
          → get_elem? table k ≡ some t
          → get_elem? ls k ≡ some (line_of c t))
unfolding report
report-lines table c fits =
    let (ls, e, count, get) =
      row_lines-get c table 0 (rounds c.num_en * rounds c.num_pn) (omega arith) in
    (
      ls,
      table_lines-row_lines c table 0 (rounds c.num_en)
          ∙ row_lines-eq c table (0 * rounds c.num_pn) 0 (rounds c.num_en * rounds c.num_pn) _
              (omega arith) refl
          ∙ e,
      count,
      λ k t lt. get k k t lt (omega arith),
    )

place_inside : (id num m j d : ℕ) → j < m → num ≡ suc id + d → id * m + j < num * m
place_inside id num m j d lt e = rw e (omega arith)

-- After the row of a client was copied to summary, the final report's lines for this client are
-- made of the transfers that the client's message held, in their order: the report and the copy
-- agree on where a client's row stands. The table must have a row for each pair.
pub report-store_rows :
    (id : ℕ) (n m : Node)
    → store_rows in_summary (pos id) n ≡ done tt m
    → id < rounds n.config.num_en
    → rounds n.config.num_en * rounds n.config.num_pn ≤ length n.summary
    → (rows : List Transfer) × (ls : List Line) × ((n.endpoint (peer id)).ctrl_buff
        ≡ transfers rows)
      × (report m.summary n.config ≡ some ls)
      × ((j : ℕ) (t : Transfer)
          → j < rounds n.config.num_pn
          → get_elem? rows j ≡ some t
          → get_elem? ls (id * rounds n.config.num_pn + j) ≡ some (line_of n.config t))
report-store_rows id n m e inside fits =
    let stored = store_rows-IsStored in_summary id n m e in
    let (ls, is_ls, count, get) = report-lines m.summary n.config (rw (stored.same_length) fits) in
    (
      stored.rows,
      ls,
      stored.held,
      is_ls,
      λ j t lt at_j.
          get (id * rounds n.config.num_pn + j) t
            (place_inside id (rounds n.config.num_en) (rounds n.config.num_pn) j
              (rounds n.config.num_en - suc id) lt (omega arith))
            (stored.placed j lt ∙ at_j),
    )
