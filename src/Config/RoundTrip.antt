-- ===== src/Config/RoundTrip.antt =====
-- Printing and reading a conf file: `Config::readConfig`.
use libfabric_benchmark.Base.{
  ℕ, ◌^◌, ◌<◌, List, [], ◌∷◌, ◌++◌, ◌≡◌, ◌≢◌, refl, ◌∙◌, ◌⊎◌, inl, some, none, arith,
}
use libfabric_benchmark.Base.Int.{pos}
use libfabric_benchmark.Config.{Bytes, codes, Config}
use libfabric_benchmark.Config.Read.{assign, read_line, read_lines, read_config}
use libfabric_benchmark.Text.{ok, format}
use libfabric_benchmark.Text.Number.{stoi-format}
use libfabric_benchmark.Text.Search.{
  Lacks, Lacks-append, has_comment-Lacks, split_eq-append, format-Lacks,
}
use libfabric_benchmark.Text.Lines.{unlines, AllLack, get_lines-unlines}

-- What a conf file can say.
pub record Settings : Type 0 where
  pub start_port : Bytes
  pub controller_port : Bytes
  pub server_offset : ℕ
  pub controller_addr : Bytes
  pub msg_size : ℕ
  pub num_en : ℕ
  pub num_pn : ℕ
  pub max_duration : ℕ
  pub checkpoint_intervall : ℕ

abbrev pub IsText : Bytes → Type 0
IsText s = Lacks b'/' s × Lacks b'\n' s

pub record IsValid (s : Settings) : Type 0 where
  pub start_port : IsText s.start_port
  pub controller_port : IsText s.controller_port
  pub server_offset : s.server_offset < 2 ^ 31
  pub controller_addr : IsText s.controller_addr
  pub msg_size : s.msg_size < 2 ^ 31
  pub num_en : s.num_en < 2 ^ 31
  pub num_pn : s.num_pn < 2 ^ 31
  pub max_duration : s.max_duration < 2 ^ 31
  pub checkpoint_intervall : s.checkpoint_intervall < 2 ^ 31

abbrev pub setting : Bytes → Bytes → Bytes
setting key value = key ++ b'=' ∷ value

-- The nine lines, in the order of conf/conf.
abbrev pub print : Settings → List Bytes
print s =
    setting (codes "start_port") s.start_port
    ∷ setting (codes "controller_port") s.controller_port
    ∷ setting (codes "server_offset") (format s.server_offset)
    ∷ setting (codes "controller_addr") s.controller_addr
    ∷ setting (codes "msg_size") (format s.msg_size)
    ∷ setting (codes "num_en") (format s.num_en)
    ∷ setting (codes "num_pn") (format s.num_pn)
    ∷ setting (codes "max_duration") (format s.max_duration)
    ∷ setting (codes "checkpoint_intervall") (format s.checkpoint_intervall)
    ∷ []

abbrev pub apply : Settings → Config → Config
apply s c = record c {
  start_port = s.start_port;
  controller_port = s.controller_port;
  server_offset = pos s.server_offset;
  controller_addr = some s.controller_addr;
  msg_size = s.msg_size;
  num_en = pos s.num_en;
  num_pn = pos s.num_pn;
  max_duration = pos s.max_duration;
  checkpoint_intervall = pos s.checkpoint_intervall;
}

pub read_line-setting :
    (key value : Bytes) (c : Config)
    → Lacks b'/' key
    → Lacks b'=' key
    → Lacks b'/' value
    → read_line (setting key value) c ≡ assign key value c
unfolding read_line
read_line-setting key value c hk he hv = rw (
  has_comment-Lacks (setting key value) (Lacks-append b'/' key (b'=' ∷ value) hk (omega arith, hv)),
  split_eq-append key value he,
)

-- A setting whose value is the print of a number: the assignment gets that number.
module _ (key : Bytes) (hk : Lacks b'/' key) (he : Lacks b'=' key) where
  read_line-number :
      (v : ℕ) (c : Config) → read_line (setting key (format v)) c ≡ assign key (format v) c
  read_line-number v c =
      read_line-setting key (format v) c hk he (format-Lacks b'/' v (inl (omega arith)))

read_lines-cons :
    (line : Bytes) (rest : List Bytes) (c d : Config)
    → read_line line c ≡ ok d
    → read_lines (line ∷ rest) c ≡ read_lines rest d
unfolding read_lines
read_lines-cons line rest c d h = rw h

-- One settled line: the text keys, and the number keys.
module _ (c : Config) where
  start_port_line :
      (t : Bytes)
      → IsText t
      → read_line (setting (codes "start_port") t) c ≡ ok (record c { start_port = t })
  start_port_line t h =
      read_line-setting (codes "start_port") t c (omega arith) (omega arith) h.0
      ∙ unfold assign in refl

  controller_port_line :
      (t : Bytes)
      → IsText t
      → read_line (setting (codes "controller_port") t) c ≡ ok (record c { controller_port = t })
  controller_port_line t h =
      read_line-setting (codes "controller_port") t c (omega arith) (omega arith) h.0
      ∙ unfold assign in refl

  controller_addr_line :
      (t : Bytes)
      → IsText t
      → read_line (setting (codes "controller_addr") t) c
        ≡ ok (record c { controller_addr = some t })
  controller_addr_line t h =
      read_line-setting (codes "controller_addr") t c (omega arith) (omega arith) h.0
      ∙ unfold assign in refl

  server_offset_line :
      (v : ℕ)
      → v < 2 ^ 31
      → read_line (setting (codes "server_offset") (format v)) c
        ≡ ok (record c { server_offset = pos v })
  server_offset_line v h =
      read_line-number (codes "server_offset") (omega arith) (omega arith) v c
      ∙ unfold assign in rw (stoi-format v h)

  msg_size_line :
      (v : ℕ)
      → v < 2 ^ 31
      → read_line (setting (codes "msg_size") (format v)) c ≡ ok (record c { msg_size = v })
  msg_size_line v h =
      read_line-number (codes "msg_size") (omega arith) (omega arith) v c
      ∙ unfold assign in rw (stoi-format v h)

  num_en_line :
      (v : ℕ)
      → v < 2 ^ 31
      → read_line (setting (codes "num_en") (format v)) c ≡ ok (record c { num_en = pos v })
  num_en_line v h =
      read_line-number (codes "num_en") (omega arith) (omega arith) v c
      ∙ unfold assign in rw (stoi-format v h)

  num_pn_line :
      (v : ℕ)
      → v < 2 ^ 31
      → read_line (setting (codes "num_pn") (format v)) c ≡ ok (record c { num_pn = pos v })
  num_pn_line v h =
      read_line-number (codes "num_pn") (omega arith) (omega arith) v c
      ∙ unfold assign in rw (stoi-format v h)

  max_duration_line :
      (v : ℕ)
      → v < 2 ^ 31
      → read_line (setting (codes "max_duration") (format v)) c
        ≡ ok (record c { max_duration = pos v })
  max_duration_line v h =
      read_line-number (codes "max_duration") (omega arith) (omega arith) v c
      ∙ unfold assign in rw (stoi-format v h)

  checkpoint_intervall_line :
      (v : ℕ)
      → v < 2 ^ 31
      → read_line (setting (codes "checkpoint_intervall") (format v)) c
        ≡ ok (record c { checkpoint_intervall = pos v })
  checkpoint_intervall_line v h =
      read_line-number (codes "checkpoint_intervall") (omega arith) (omega arith) v c
      ∙ unfold assign in rw (stoi-format v h)

print-Lacks :
    (b : ℕ) (key value : Bytes)
    → Lacks b key
    → b'=' ≢ b
    → Lacks b value
    → Lacks b (setting key value)
print-Lacks b key value hk he hv = Lacks-append b key (b'=' ∷ value) hk (he, hv)

newline_far : (b'\n' < b'0') ⊎ (b'9' < b'\n')
newline_far = inl (omega arith)

print-AllLack : (s : Settings) → IsValid s → AllLack b'\n' (print s)
print-AllLack s v = (
  print-Lacks b'\n' (codes "start_port") _ (omega arith) (omega arith) v.start_port.1,
  (
    print-Lacks b'\n' (codes "controller_port") _ (omega arith) (omega arith) v.controller_port.1,
    (
      number (codes "server_offset") s.server_offset (omega arith),
      (
        print-Lacks b'\n' (codes "controller_addr") _ (omega arith) (omega arith)
            v.controller_addr.1,
        (
          number (codes "msg_size") s.msg_size (omega arith),
          (
            number (codes "num_en") s.num_en (omega arith),
            (
              number (codes "num_pn") s.num_pn (omega arith),
              (
                number (codes "max_duration") s.max_duration (omega arith),
                (number (codes "checkpoint_intervall") s.checkpoint_intervall (omega arith), tt),
              ),
            ),
          ),
        ),
      ),
    ),
  ),
)
  where
    number : (key : Bytes) (n : ℕ) → Lacks b'\n' key → Lacks b'\n' (setting key (format n))
    number key n h =
        print-Lacks b'\n' key (format n) h (omega arith) (format-Lacks b'\n' n newline_far)

read_lines-print : (s : Settings) (c : Config) → IsValid s → read_lines (print s) c ≡ ok (apply s c)
read_lines-print s c v =
    read_lines-cons _ _ c _ (start_port_line c s.start_port v.start_port)
    ∙ read_lines-cons _ _ _ _ (controller_port_line _ s.controller_port v.controller_port)
    ∙ read_lines-cons _ _ _ _ (server_offset_line _ s.server_offset v.server_offset)
    ∙ read_lines-cons _ _ _ _ (controller_addr_line _ s.controller_addr v.controller_addr)
    ∙ read_lines-cons _ _ _ _ (msg_size_line _ s.msg_size v.msg_size)
    ∙ read_lines-cons _ _ _ _ (num_en_line _ s.num_en v.num_en)
    ∙ read_lines-cons _ _ _ _ (num_pn_line _ s.num_pn v.num_pn)
    ∙ read_lines-cons _ _ _ _ (max_duration_line _ s.max_duration v.max_duration)
    ∙ read_lines-cons _ _ _ _
        (checkpoint_intervall_line _ s.checkpoint_intervall v.checkpoint_intervall)
    ∙ unfold read_lines in refl

-- A conf file that prints valid settings, one to a line, is read back as exactly these settings,
-- and every other field of the configuration stays as it was. The numbers are below 2^31, and the
-- texts hold no newline and no slash.
pub read_config-print :
    (s : Settings) (c : Config)
    → IsValid s
    → read_config (some (unlines (print s))) none c ≡ ok (apply s c)
unfolding read_config
read_config-print s c v =
    rw (get_lines-unlines (print s) (print-AllLack s v), read_lines-print s c v)
