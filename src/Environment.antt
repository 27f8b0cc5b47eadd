-- ===== src/Environment.antt =====
-- The environment of the process (`ExportEnvVars` and `envOverwrite`, internal/util/utils.go). An
-- environment is a function, with the empty text for a variable that is not set.
pub mod Laws
pub mod RoundTrip
pub mod Shell
use skywalking_infra_e2e.Base.{
  ℕ, Bool, not, ◌&&◌, ◌||◌, Option, none, some, List, [], ◌∷◌, leb, ◌==◌, if◌then◌else◌, Text,
  codes, is_empty, text_eq, Result, ok, err, split, contains_byte, has_prefix,
}

abbrev pub Env : Type 0
Env = Text → Text

-- What os.Setenv refuses: the empty name, `=` or a zero byte in the name, a zero byte in the value.
abbrev pub is_refused : Text → Text → Bool
is_refused key val =
    is_empty key || contains_byte b'=' key || contains_byte 0 key || contains_byte 0 val

-- os.Setenv
unfoldable pub set_env : Text → Text → Env → Env
set_env key val env = if is_refused key val then env else λ k. if text_eq k key then val else env k

-- The class `[_A-Z0-9]`.
abbrev pub in_name : ℕ → Bool
in_name c = c == b'_' || (leb b'A' c && leb c b'Z') || (leb b'0' c && leb c b'9')

-- The longest run of the class, and what follows it.
unfoldable pub name_run : Text → Text × Text
name_run [] = ([], [])
name_run (c ∷ s) =
    let (name, rest) = name_run s in if in_name c then (c ∷ name, rest) else ([], c ∷ s)

-- `(.*)}`: up to the last brace of the line.
unfoldable pub last_brace : Text → Option Text
last_brace [] = none
last_brace (c ∷ s) =
    let rest = last_brace s in
    if c == 10
    then none
    else elim rest [ some t ↦ some (c ∷ t) | none ↦ if c == b'}' then some [] else none ]

unfoldable pub default_of : Text → Text → Option (Text × Text)
default_of name [] = none
default_of name (c ∷ rest) =
    if c == b':' then (elim (last_brace rest) [ none ↦ none | some t ↦ some (name, t) ]) else none

-- A match that begins with the text.
unfoldable pub match_at : Text → Option (Text × Text)
match_at [] = none
match_at (a ∷ []) = none
match_at (a ∷ b ∷ s) =
    let (name, rest) = name_run s in
    if a == b'$' && b == b'{' && not (is_empty name) then default_of name rest else none

-- `EnvRegularRegex.FindStringSubmatch`: the two groups of the first match.
unfoldable pub find_groups : Text → Option (Text × Text)
find_groups [] = none
find_groups (c ∷ s) =
    let later = find_groups s in elim (match_at (c ∷ s)) [ some g ↦ some g | none ↦ later ]

-- `envOverwrite`
unfoldable pub env_overwrite : Env → Text → Text
env_overwrite env val = elim (find_groups val) [
  | none ↦ val
  | some (name, default) ↦ if not (is_empty (env name)) then env name else default
]

-- strings.SplitN at `=` in two: the parts before and behind it, if there is one.
unfoldable pub split_once : Text → Option (Text × Text)
split_once [] = none
split_once (c ∷ s) =
    let rest = split_once s in
    if c == b'=' then some ([], s) else elim rest [ none ↦ none | some (k, v) ↦ some (c ∷ k, v) ]

-- A line of the file.
unfoldable pub export_line : Text → Env → Env
export_line line env = if has_prefix line (codes "#") then env else elim (split_once line) [
  | none ↦ env
  | some (key, val) ↦ set_env key (env_overwrite env val) env
]

unfoldable pub export_lines : List Text → Env → Env
export_lines [] env = env
export_lines (line ∷ lines) env = export_lines lines (export_line line env)

-- `ExportEnvVars`, with what os.ReadFile returns.
unfoldable pub export_env_vars : Result Text → Env → Env
export_env_vars (err x) env = env
export_env_vars (ok content) env = export_lines (split 10 content) env
