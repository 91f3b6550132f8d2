-- ===== src/Config/Lines.antt =====
-- What `Config::readConfig` takes from its two files, and what it passes over.
use libfabric_benchmark.Base.{
  List, [], ◌∷◌, ◌++◌, append_assoc, append-nil, Option, none, some, ◌≡◌, refl, sym, ap, fun_ext,
  ◌⊎◌, Bool, true, false, if◌then◌else◌, arith,
}
use libfabric_benchmark.Config.{Bytes, Config}
use libfabric_benchmark.Base.Int.{ℤ}
use libfabric_benchmark.Config.Read.{on, assign, read_line, read_lines, read_servers, read_config}
use libfabric_benchmark.Text.{has_comment, split_eq, get_lines, Result, ok, err, ◌>>=◌, stoi}

-- A line with a comment mark, or with no `=`, says nothing.
abbrev pub IsIdle : Bytes → Type 0
IsIdle line = (has_comment line ≡ true) ⊎ (split_eq line ≡ none)

read_line-idle : (line : Bytes) (c : Config) → IsIdle line → read_line line c ≡ ok c
unfolding read_line
read_line-idle line c h = ground arith

-- A comment line and a line without an equals sign can stand anywhere in a conf file without an
-- effect, also on the errors.
pub read_lines-idle :
    (before : List Bytes) (line : Bytes) (after : List Bytes) (c : Config)
    → IsIdle line
    → read_lines (before ++ line ∷ after) c ≡ read_lines (before ++ after) c
unfolding read_lines
read_lines-idle [] line after c h = rw (read_line-idle line c h)
read_lines-idle (b ∷ before) line after c h =
    ap (λ k. read_line b c >>= k) (fun_ext (λ d. read_lines-idle before line after d h))

-- The lines without a comment mark, in their order.
abbrev pub uncommented : List Bytes → List Bytes
uncommented [] = []
uncommented (line ∷ rest) =
    let kept = uncommented rest in if has_comment line then kept else line ∷ kept

read_servers-append : (ls addr_v : List Bytes) → read_servers ls addr_v ≡ addr_v ++ uncommented ls
unfolding read_servers
read_servers-append [] addr_v = sym (append-nil addr_v)
read_servers-append (l ∷ ls) addr_v = ground (
  arith,
  read_servers-append ls addr_v,
  read_servers-append ls (addr_v ++ l ∷ []),
  append_assoc addr_v (l ∷ []) (uncommented ls),
)

-- A result leaves the addresses at `a`.
abbrev Keeps : List Bytes → Result Config → Type 0
Keeps a (ok d) = d.addr_v ≡ a
Keeps a (err e) = Unit {0}

module _ (a : List Bytes) where
  bind-Keeps :
      (r : Result Config) (f : Config → Result Config)
      → Keeps a r
      → ((d : Config) → d.addr_v ≡ a → Keeps a (f d))
      → Keeps a (r >>= f)
  bind-Keeps (ok d) f h k = k d h
  bind-Keeps (err e) f h k = tt

  on-Keeps :
      (key name : Bytes) (c : Config) (r : Result Config)
      → c.addr_v ≡ a
      → Keeps a r
      → Keeps a (on key name c r)
  on-Keeps key name c r h k = ground arith

  number-Keeps :
      (value : Bytes) (f : ℤ → Config)
      → ((v : ℤ) → (f v).addr_v ≡ a)
      → Keeps a (stoi value >>= λ v. ok (f v))
  number-Keeps value f h = go (stoi value)
    where
      go : (r : Result ℤ) → Keeps a (r >>= λ v. ok (f v))
      go (ok v) = h v
      go (err e) = tt

  assign-Keeps : (key value : Bytes) (c : Config) → c.addr_v ≡ a → Keeps a (assign key value c)
  unfolding assign
  assign-Keeps key value c h =
      bind-Keeps _ _ (on-Keeps key _ c _ h (number-Keeps value _ (λ v. h))) λ c₁ h₁.
        bind-Keeps _ _ (on-Keeps key _ c₁ _ h₁ h₁) λ c₂ h₂.
          bind-Keeps _ _ (on-Keeps key _ c₂ _ h₂ h₂) λ c₃ h₃.
            bind-Keeps _ _ (on-Keeps key _ c₃ _ h₃ h₃) λ c₄ h₄.
              bind-Keeps _ _ (on-Keeps key _ c₄ _ h₄ (number-Keeps value _ (λ v. h₄))) λ c₅ h₅.
                bind-Keeps _ _ (on-Keeps key _ c₅ _ h₅ (number-Keeps value _ (λ v. h₅))) λ c₆ h₆.
                  bind-Keeps _ _ (on-Keeps key _ c₆ _ h₆ (number-Keeps value _ (λ v. h₆))) λ c₇ h₇.
                    bind-Keeps _ _ (on-Keeps key _ c₇ _ h₇ (number-Keeps value _ (λ v. h₇)))
                      λ c₈ h₈. on-Keeps key _ c₈ _ h₈ (number-Keeps value _ (λ v. h₈))

  read_line-Keeps : (line : Bytes) (c : Config) → c.addr_v ≡ a → Keeps a (read_line line c)
  unfolding read_line
  read_line-Keeps line c h = go (has_comment line) (split_eq line)
    where
      go :
          (b : Bool) (p : Option (Bytes × Bytes))
          → Keeps a (if b then ok c else elim p [ none ↦ ok c | some p ↦ assign p.0 p.1 c ])
      go true p = h
      go false none = h
      go false (some (key, value)) = assign-Keeps key value c h

  read_lines-Keeps : (ls : List Bytes) (c : Config) → c.addr_v ≡ a → Keeps a (read_lines ls c)
  unfolding read_lines
  read_lines-Keeps [] c h = h
  read_lines-Keeps (l ∷ ls) c h =
      bind-Keeps (read_line l c) (read_lines ls) (read_line-Keeps l c h) (read_lines-Keeps ls)

-- After a successful read the addresses are the ones from before, then the lines of the
-- serverlist that hold no comment mark, in their order. The conf file does not touch them.
pub addr_v-read_config :
    (conf : Option Bytes) (text : Bytes) (c d : Config)
    → read_config conf (some text) c ≡ ok d
    → d.addr_v ≡ c.addr_v ++ uncommented (get_lines text)
unfolding read_config
addr_v-read_config none text c d h = ground (arith, read_servers-append (get_lines text) c.addr_v)
addr_v-read_config (some conf) text c d h =
    go (read_lines (get_lines conf) c) (read_lines-Keeps c.addr_v (get_lines conf) c refl) h
  where
    go :
        (r : Result Config)
        → Keeps c.addr_v r
        → (r >>= λ e. ok (record e { addr_v = read_servers (get_lines text) (e.addr_v) })) ≡ ok d
        → d.addr_v ≡ c.addr_v ++ uncommented (get_lines text)
    go (ok e) k h = ground (arith, read_servers-append (get_lines text) e.addr_v)
    go (err e) k h = cc
