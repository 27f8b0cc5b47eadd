-- ===== src/Environment/RoundTrip.antt =====
-- A file of variables, written and read back (`ExportEnvVars`).
use skywalking_infra_e2e.Base.{
  ℕ, ◌≡◌, refl, ap, ◌∙◌, false, none, some, List, [], ◌∷◌, ◌++◌, map, arith, if◌then◌else◌,
  contains_byte-append, split-append, split_single, All, Text, codes, is_empty, text_eq, ok, split,
  join, contains_byte, has_prefix,
}
use skywalking_infra_e2e.Environment.{
  Env, is_refused, set_env, find_groups, match_at, env_overwrite, split_once, export_line,
  export_lines, export_env_vars,
}
use skywalking_infra_e2e.Environment.Laws.{split_once-append}

abbrev pub line_of : Text × Text → Text
line_of (key, val) = key ++ (b'=' ∷ val)

-- The file that sets the variables, a line for each.
abbrev pub print_env : List (Text × Text) → Text
print_env ps = join 10 (map line_of ps)

-- The last value that is given for a variable, else that of the environment.
abbrev pub lookup : List (Text × Text) → Env → Env
lookup [] env k = env k
lookup ((key, val) ∷ ps) env k = lookup ps (λ j. if text_eq j key then val else env j) k

-- A variable that a line of the file can hold as it is.
pub record IsPlain (p : Text × Text) : Type 0 where
  pub key_set : is_empty p.0 ≡ false
  pub no_comment : has_prefix p.0 (codes "#") ≡ false
  pub key_sign : contains_byte b'=' p.0 ≡ false
  pub key_line : contains_byte 10 p.0 ≡ false
  pub key_zero : contains_byte 0 p.0 ≡ false
  pub val_line : contains_byte 10 p.1 ≡ false
  pub val_zero : contains_byte 0 p.1 ≡ false
  pub val_dollar : contains_byte b'$' p.1 ≡ false

match_at_plain : (c : ℕ) (s : Text) → contains_byte b'$' (c ∷ s) ≡ false → match_at (c ∷ s) ≡ none
unfolding match_at contains_byte
match_at_plain c [] h = refl
match_at_plain c (d ∷ s) h = ground arith

find_groups_plain : (s : Text) → contains_byte b'$' s ≡ false → find_groups s ≡ none
unfolding find_groups contains_byte
find_groups_plain [] h = refl
find_groups_plain (c ∷ s) h = ground (arith, match_at_plain c s, find_groups_plain s)

env_overwrite_plain :
    (env : Env) (s : Text) → contains_byte b'$' s ≡ false → env_overwrite env s ≡ s
unfolding env_overwrite
env_overwrite_plain env s h = let no_groups = find_groups_plain s h in ground arith

line_no_comment :
    (key rest : Text)
    → is_empty key ≡ false
    → has_prefix key (codes "#") ≡ false
    → has_prefix (key ++ rest) (codes "#") ≡ false
unfolding has_prefix
line_no_comment [] rest h k = cc
line_no_comment (c ∷ key) rest h k = k

pub line-whole : (p : Text × Text) → IsPlain p → contains_byte 10 (line_of p) ≡ false
unfolding contains_byte
line-whole (key, val) h =
    ground (arith, contains_byte-append 10 key (b'=' ∷ val), h.key_line, h.val_line)

set_plain :
    (key val : Text) (env : Env)
    → is_refused key val ≡ false
    → set_env key val env ≡ (λ j. if text_eq j key then val else env j)
unfolding set_env
set_plain key val env h = rw h refl

not_refused : (p : Text × Text) → IsPlain p → is_refused p.0 p.1 ≡ false
not_refused (key, val) h = ground (arith, h.key_set, h.key_sign, h.key_zero, h.val_zero)

export_line_of :
    (line key val : Text) (env : Env)
    → has_prefix line (codes "#") ≡ false
    → split_once line ≡ some (key, val)
    → export_line line env ≡ set_env key (env_overwrite env val) env
unfolding export_line
export_line_of line key val env h k = ground arith

pub export_line-plain :
    (p : Text × Text) (env : Env)
    → IsPlain p
    → export_line (line_of p) env ≡ (λ j. if text_eq j p.0 then p.1 else env j)
export_line-plain (key, val) env h =
    export_line_of (line_of (key, val)) key val env
      (line_no_comment key (b'=' ∷ val) h.key_set h.no_comment)
      (split_once-append key val h.key_sign)
    ∙ ap (λ v. set_env key v env) (env_overwrite_plain env val h.val_dollar)
    ∙ set_plain key val env (not_refused (key, val) h)

pub export_lines-plain :
    (ps : List (Text × Text)) (env : Env)
    → All IsPlain ps
    → export_lines (map line_of ps) env ≡ lookup ps env
unfolding export_lines
export_lines-plain [] env h = refl
export_lines-plain (p ∷ ps) env (h, hs) =
    ap (export_lines (map line_of ps)) (export_line-plain p env h)
    ∙ export_lines-plain ps (λ j. if text_eq j p.0 then p.1 else env j) hs

split_lines :
    (p : Text × Text) (ps : List (Text × Text))
    → All IsPlain (p ∷ ps)
    → split 10 (print_env (p ∷ ps)) ≡ map line_of (p ∷ ps)
unfolding join
split_lines p [] (h, hs) = split_single 10 (line_of p) (line-whole p h)
split_lines p (q ∷ ps) (h, hs) =
    split-append 10 (line_of p) (print_env (q ∷ ps)) (line-whole p h)
    ∙ ap (λ l. line_of p ∷ l) (split_lines q ps hs)

empty_file : (env : Env) → export_env_vars (ok []) env ≡ env
unfolding export_env_vars export_lines export_line split split_once has_prefix
empty_file env = refl

export_file :
    (content : Text) (lines : List Text) (env : Env)
    → split 10 content ≡ lines
    → export_env_vars (ok content) env ≡ export_lines lines env
unfolding export_env_vars
export_file content lines env h = rw h refl

-- Variables that are printed one for a line and read back give the environment in which each is
-- set in order, so that the last value counts, if no name is empty, begins with `#` or has a `=`,
-- no value has a `$`, and neither has a line break or a zero byte.
pub export_env_vars-print_env :
    (ps : List (Text × Text)) (env : Env)
    → All IsPlain ps
    → export_env_vars (ok (print_env ps)) env ≡ lookup ps env
unfolding join
export_env_vars-print_env [] env h = empty_file env
export_env_vars-print_env (p ∷ ps) env h =
    export_file (print_env (p ∷ ps)) (map line_of (p ∷ ps)) env (split_lines p ps h)
    ∙ export_lines-plain (p ∷ ps) env h
