-- ===== src/Text/Lines.antt =====
-- `getline` undoes the writing of lines.
use libfabric_benchmark.Base.{
  ℕ, List, [], ◌∷◌, ◌++◌, append_assoc, append-nil, ◌≡◌, refl, ap, ◌∙◌, arith,
}
use libfabric_benchmark.Config.{Bytes}
use libfabric_benchmark.Text.{lines_from, get_lines}
use libfabric_benchmark.Text.Search.{Lacks}

-- Each line with its newline.
abbrev pub unlines : List Bytes → Bytes
unlines [] = []
unlines (line ∷ rest) = line ++ b'\n' ∷ unlines rest

abbrev pub AllLack : ℕ → List Bytes → Type 0
AllLack b [] = Unit {0}
AllLack b (line ∷ rest) = Lacks b line × AllLack b rest

lines_from-append :
    (s line rest : Bytes)
    → Lacks b'\n' s
    → lines_from line (s ++ b'\n' ∷ rest) ≡ (line ++ s) ∷ lines_from [] rest
unfolding lines_from
lines_from-append [] line rest h = ground (arith, append-nil line)
lines_from-append (c ∷ s) line rest h =
    ground (arith, lines_from-append s (line ++ c ∷ []) rest h.1, append_assoc line (c ∷ []) s)

pub get_lines-unlines : (ls : List Bytes) → AllLack b'\n' ls → get_lines (unlines ls) ≡ ls
unfolding get_lines
get_lines-unlines [] h = unfold lines_from in refl
get_lines-unlines (line ∷ rest) h =
    lines_from-append line [] (unlines rest) h.0 ∙ ap (◌∷◌ line) (get_lines-unlines rest h.1)
