-- ===== src/Environment/Laws.antt =====
-- What the export of a file does to a variable.
use skywalking_infra_e2e.Base.{
  ◌≡◌, refl, ◌∙◌, Bool, true, false, not, ◌&&◌, none, some, List, [], ◌∷◌, ◌++◌, arith,
  if◌then◌else◌, all, All, Text, codes, is_empty, text_eq, text_eq_refl, contains_byte, has_prefix,
}
use skywalking_infra_e2e.Environment.{
  Env, name_run, last_brace, default_of, match_at, find_groups, in_name, is_refused, set_env,
  env_overwrite, split_once, export_line, export_lines,
}

-- The line sets the variable.
abbrev pub sets : Text → Text → Bool
sets key line = elim (split_once line) [
  | none ↦ false
  | some (k, v) ↦ not (has_prefix line (codes "#")) && text_eq key k
]

-- A line that does not set the variable does not change it.
export_line_other :
    (key line : Text) (env : Env) → sets key line ≡ false → export_line line env key ≡ env key
unfolding export_line set_env
export_line_other key line env h = ground arith

-- A variable that no line of the file sets is not changed.
pub export_lines_other :
    (key : Text) (lines : List Text) (env : Env)
    → All (λ line. sets key line ≡ false) lines
    → export_lines lines env key ≡ env key
unfolding export_lines
export_lines_other key [] env h = refl
export_lines_other key (line ∷ lines) env (h, hs) =
    export_lines_other key lines (export_line line env) hs ∙ export_line_other key line env h

pub split_once-append :
    (key val : Text)
    → contains_byte b'=' key ≡ false
    → split_once (key ++ (b'=' ∷ val)) ≡ some (key, val)
unfolding split_once contains_byte
split_once-append [] val h = ground arith
split_once-append (c ∷ key) val h = ground (arith, split_once-append key val)

export_line_last :
    (key val : Text) (env : Env)
    → is_refused key (env_overwrite env val) ≡ false
    → has_prefix (key ++ (b'=' ∷ val)) (codes "#") ≡ false
    → export_line (key ++ (b'=' ∷ val)) env key ≡ env_overwrite env val
unfolding export_line set_env
export_line_last key val env fine comment =
    ground (arith, split_once-append key val, text_eq_refl key)

-- A line `key=val` sets the variable to what `envOverwrite` makes of the value, also where the
-- variable was set before, if os.Setenv takes the two, the line is no comment, the key has no `=`,
-- and no later line sets the variable.
pub export_lines-sets :
    (key val : Text) (later : List Text) (env : Env)
    → is_refused key (env_overwrite env val) ≡ false
    → has_prefix (key ++ (b'=' ∷ val)) (codes "#") ≡ false
    → All (λ line. sets key line ≡ false) later
    → export_lines ((key ++ (b'=' ∷ val)) ∷ later) env key ≡ env_overwrite env val
unfolding export_lines
export_lines-sets key val later env fine comment h =
    export_lines_other key later (export_line (key ++ (b'=' ∷ val)) env) h
    ∙ export_line_last key val env fine comment

name_run-append :
    (name rest : Text)
    → all in_name name ≡ true
    → name_run (name ++ (b':' ∷ rest)) ≡ (name, b':' ∷ rest)
unfolding name_run
name_run-append [] rest h = refl
name_run-append (c ∷ name) rest h = ground (arith, name_run-append name rest)

last_brace-append :
    (def : Text) → contains_byte 10 def ≡ false → last_brace (def ++ (b'}' ∷ [])) ≡ some def
unfolding last_brace contains_byte
last_brace-append [] h = refl
last_brace-append (c ∷ def) h = ground (arith, last_brace-append def)

find_groups-here :
    (s : Text) (g : Text × Text) → match_at (b'$' ∷ s) ≡ some g → find_groups (b'$' ∷ s) ≡ some g
unfolding find_groups
find_groups-here s g h = ground arith

match_at-groups :
    (name def : Text)
    → is_empty name ≡ false
    → all in_name name ≡ true
    → contains_byte 10 def ≡ false
    → match_at (b'$' ∷ b'{' ∷ (name ++ (b':' ∷ (def ++ (b'}' ∷ []))))) ≡ some (name, def)
unfolding match_at default_of
match_at-groups name def n h k =
    ground (arith, name_run-append name (def ++ (b'}' ∷ [])), last_brace-append def)

-- A value `${NAME:default}` is replaced by the variable where that is set and not empty, else by
-- the default, which may hold braces, but no line break.
pub env_overwrite_default :
    (env : Env) (name def : Text)
    → is_empty name ≡ false
    → all in_name name ≡ true
    → contains_byte 10 def ≡ false
    → env_overwrite env (b'$' ∷ b'{' ∷ (name ++ (b':' ∷ (def ++ (b'}' ∷ [])))))
      ≡ (if not (is_empty (env name)) then env name else def)
unfolding env_overwrite
env_overwrite_default env name def n h k =
    let found = find_groups-here _ (name, def) (match_at-groups name def n h k) in ground arith
