-- ===== src/Config/Read.antt =====
-- `Config::readConfig` of CBM_Benchmark/Config.cpp.
use libfabric_benchmark.Base.{List, [], ◌∷◌, ◌++◌, Option, none, some, if◌then◌else◌}
use libfabric_benchmark.Base.Int.{to_size_t}
use libfabric_benchmark.Config.{Bytes, codes, Config, default_config}
use libfabric_benchmark.Text.{text_eq, has_comment, split_eq, get_lines, Result, ok, ◌>>=◌, stoi}

-- `if (split[0].compare(name) == 0) { … }` around an assignment.
abbrev pub on : Bytes → Bytes → Config → Result Config → Result Config
on key name c assigned = if text_eq key name then assigned else ok c

-- The assignments for one `key=value`. `stoi` may throw.
unfoldable pub assign : Bytes → Bytes → Config → Result Config
assign key value c = do
  c₁ ← on key (codes "msg_size") c (do v ← stoi value; ok (record c { msg_size = to_size_t v }))
  c₂ ← on key (codes "controller_addr") c₁ (ok (record c₁ { controller_addr = some value }))
  c₃ ← on key (codes "start_port") c₂ (ok (record c₂ { start_port = value }))
  c₄ ← on key (codes "controller_port") c₃ (ok (record c₃ { controller_port = value }))
  c₅ ← on key (codes "server_offset") c₄ (do v ← stoi value; ok (record c₄ { server_offset = v }))
  c₆ ← on key (codes "max_duration") c₅ (do v ← stoi value; ok (record c₅ { max_duration = v }))
  c₇ ←
      on key (codes "checkpoint_intervall") c₆
        (do v ← stoi value; ok (record c₆ { checkpoint_intervall = v }))
  c₈ ← on key (codes "num_en") c₇ (do v ← stoi value; ok (record c₇ { num_en = v }))
  on key (codes "num_pn") c₈ (do v ← stoi value; ok (record c₈ { num_pn = v }))

-- One round of the loop over the conf file.
unfoldable pub read_line : Bytes → Config → Result Config
read_line line c =
    if has_comment line
    then ok c
    else elim (split_eq line) [ none ↦ ok c | some p ↦ assign p.0 p.1 c ]

unfoldable pub read_lines : List Bytes → Config → Result Config
read_lines [] c = ok c
read_lines (line ∷ rest) c = read_line line c >>= read_lines rest

-- The loop over the serverlist: `push_back` of each line without a comment mark.
unfoldable pub read_servers : List Bytes → List Bytes → List Bytes
read_servers [] addr_v = addr_v
read_servers (line ∷ rest) addr_v =
    read_servers rest (if has_comment line then addr_v else addr_v ++ line ∷ [])

-- A file is `none` if it cannot be opened: then the settings stay as they are.
unfoldable pub read_config : Option Bytes → Option Bytes → Config → Result Config
unfolding read_lines read_servers
read_config conf servers c = do
  d ← elim conf [ none ↦ ok c | some text ↦ read_lines (get_lines text) c ]
  elim servers [
    | none ↦ ok d
    | some text ↦ ok (record d { addr_v = read_servers (get_lines text) (d.addr_v) })
  ]

-- The constructor, which reads the files last.
pub new_config : Option Bytes → Option Bytes → Result Config
unfolding read_config default_config
new_config conf servers = read_config conf servers default_config
