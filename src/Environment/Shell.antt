-- ===== src/Environment/Shell.antt =====
-- The shell (`ExecuteCommand` and `hookScript`, internal/util/utils.go) with the environment that it
-- gives back. The hook script (internal/util/hook.sh) lets the shell print its variables to a file
-- when it ends.
use skywalking_infra_e2e.Base.{
  ◌>>=◌, ◌≡◌, refl, ap, ◌∙◌, Bool, true, false, some, List, [], ◌∷◌, ◌++◌, map, arith, split-append,
  split_single, All, Text, codes, Result, ok, err, split, contains_byte, has_prefix,
}
use skywalking_infra_e2e.Paths.{join_path}
use skywalking_infra_e2e.Verify.{World, Process, execute_command}
use skywalking_infra_e2e.Environment.{Env, export_line, export_lines, export_env_vars, split_once}
use skywalking_infra_e2e.Environment.RoundTrip.{
  line_of, line-whole, lookup, IsPlain, export_lines-plain,
}

-- text/template: the parsing of a template, and its execution with the name of a file.
pub record HookEngine : Type 1 where
  pub Template : Type 0
  pub parse : Text → Result Template
  pub execute : Template → Text → Result Text

-- What a shell leaves: the process, and what os.ReadFile gives of the file of variables.
pub record ShellRun : Type 0 where
  pub process : Process
  pub env_file : Result Text

-- What os.Stat tells.
pub data Stat : Type 0 where
  exists not_exist : Stat
  stat_failed : Text → Stat

-- `PathExist`
unfoldable pub path_exist : Stat → Bool
path_exist not_exist = false
path_exist _ = true

module _ (h : HookEngine) (template work_dir : Text) where
  -- `hookScript`
  unfoldable pub hook_script : Result Text
  hook_script = do parsed ← h.parse template; h.execute parsed (join_path work_dir (codes ".env"))

  -- `ExecuteCommand`: the process, and the environment that is exported behind it.
  unfoldable pub execute_command_in : (Text → Env → ShellRun) → Text → Env → Process × Env
  execute_command_in bash cmd env = elim hook_script [
    | err x ↦ (record { stdout = []; stderr = []; error = some x }, env)
    | ok script ↦
        let r = bash (script ++ (codes "\n" ++ cmd)) env in
        (r.process, export_env_vars r.env_file env)
  ]

  -- What a shell in an environment answers to an attempt at a case.
  abbrev world_in : (Text → Env → ShellRun) → Env → World → World
  world_in bash env w = record w { hook = hook_script; bash = λ cmd. (bash cmd env).process }

  -- The process that an attempt sees is that of the whole `ExecuteCommand` in the environment that
  -- the commands before have left.
  execute_command-world_in :
      (bash : Text → Env → ShellRun) (env : Env) (w : World) (cmd : Text)
      → execute_command (world_in bash env w) cmd ≡ (execute_command_in bash cmd env).0
  unfolding execute_command_in execute_command
  execute_command-world_in bash env w cmd = ground arith

-- What printenv prints: each variable with a line break.
abbrev pub printed : List (Text × Text) → Text
printed [] = []
printed (p ∷ ps) = line_of p ++ (10 ∷ printed ps)

split-printed :
    (ps : List (Text × Text)) → All IsPlain ps → split 10 (printed ps) ≡ map line_of ps ++ ([] ∷ [])
unfolding contains_byte
split-printed [] h = split_single 10 [] refl
split-printed (p ∷ ps) (h, hs) =
    split-append 10 (line_of p) (printed ps) (line-whole p h)
    ∙ ap (λ l. line_of p ∷ l) (split-printed ps hs)

empty_line :
    (lines : List Text) (env : Env) → export_lines (lines ++ ([] ∷ [])) env ≡ export_lines lines env
unfolding export_lines export_line split_once has_prefix
empty_line [] env = refl
empty_line (l ∷ lines) env = empty_line lines (export_line l env)

export_printed :
    (ps : List (Text × Text)) (env : Env)
    → All IsPlain ps
    → export_env_vars (ok (printed ps)) env ≡ lookup ps env
unfolding export_env_vars
export_printed ps env h =
    ap (λ lines. export_lines lines env) (split-printed ps h)
    ∙ empty_line (map line_of ps) env
    ∙ export_lines-plain ps env h

-- Where the hook script can be made and the file of variables is as printenv prints it behind the
-- command, the command is followed by the environment in which each of its variables is set in
-- order, so that the last value counts, if no name is empty, begins with `#` or has a `=`, no
-- value has a `$`, and neither has a line break or a zero byte.
pub execute_command_exports :
    (h : HookEngine) (template work_dir : Text) (bash : Text → Env → ShellRun) (cmd : Text)
    (env : Env) (ps : List (Text × Text)) {script : Text}
    → hook_script h template work_dir ≡ ok script
    → (bash (script ++ (codes "\n" ++ cmd)) env).env_file ≡ ok (printed ps)
    → All IsPlain ps
    → (execute_command_in h template work_dir bash cmd env).1 ≡ lookup ps env
unfolding execute_command_in
execute_command_exports h template work_dir bash cmd env ps {script} made left plain =
    let shell = bash (script ++ (codes "\n" ++ cmd)) env in
    let same : (execute_command_in h template work_dir bash cmd env).1
        ≡ export_env_vars shell.env_file env =
      ground arith in
    same ∙ ap (λ f. export_env_vars f env) left ∙ export_printed ps env plain
