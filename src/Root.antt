-- ===== src/Root.antt =====
-- The root command (commands/root.go) and the paths of its flags (internal/util/io.go). What the
-- process and the disk answer is a `RootWorld`.
use mathlib.Core.Path.{subst}
use skywalking_infra_e2e.Base.{
  ℕ, ◌≡◌, sym, ap, ◌∙◌, ◌⊎◌, inl, inr, Bool, false, Option, none, some, List, [], ◌∷◌, ◌++◌, arith,
  ◌==◌, if◌then◌else◌, Bool-cases, Text, codes, Result, ok, err, has_prefix,
}

-- `user` is the home directory of the current user; `mkdir_all` gives the error of os.MkdirAll.
pub record RootWorld : Type 0 where
  pub user : Result Text
  pub is_not_exist : Text → Bool
  pub mkdir_all : Text → Option Text
  pub parse_level : Text → Result ℕ

-- `UserHomeDir`
unfoldable pub user_home_dir : RootWorld → Text
user_home_dir w = elim w.user [ err x ↦ [] | ok home ↦ home ]

-- strings.Replace of the first byte b.
replace_first : ℕ → Text → Text → Text
replace_first b new [] = []
replace_first b new (c ∷ s) =
    let rest = replace_first b new s in if c == b then new ++ s else c ∷ rest

-- `ExpandFilePath`
unfoldable pub expand_file_path : RootWorld → Text → Text
unfolding replace_first
expand_file_path w path =
    if has_prefix path (codes "~") then replace_first b'~' (user_home_dir w) path else path

-- `ExpandPathAndCreate`: the directory that is made, if one is, the path, and the error.
pub record Expanded : Type 0 where
  pub made : List Text
  pub path : Text
  pub error : Option Text

unfoldable pub expand_path_and_create : RootWorld → Text → Expanded
unfolding expand_file_path
expand_path_and_create w path =
    let expanded = expand_file_path w path in
    if w.is_not_exist expanded
    then record { made = expanded ∷ []; path = expanded; error = w.mkdir_all expanded }
    else record { made = []; path = expanded; error = none }

-- The variables that the flags set, and the level of the log.
pub record RootState : Type 0 where
  pub verbosity : Text
  pub level : ℕ
  pub work_dir : Text
  pub log_dir : Text

-- `PersistentPreRunE` behind `ReadGlobalConfigFile`: the variables are set also where a directory
-- cannot be made.
unfoldable pub persistent_pre_run : RootWorld → RootState → RootState × List Text × Option Text
persistent_pre_run w s = elim (w.parse_level s.verbosity) [
  | err x ↦ (s, [], some x)
  | ok level ↦
      let work = expand_path_and_create w s.work_dir in
      let worked = record s { level = level; work_dir = work.path } in
      let log = expand_path_and_create w s.log_dir in
      elim work.error [
        | some x ↦ (worked, work.made, some x)
        | none ↦ (record worked { log_dir = log.path }, work.made ++ log.made, log.error)
      ]
]

-- The directory is there: it was before, or it was made without an error.
abbrev pub IsThere : RootWorld → Text → Type 0
IsThere w path = (w.is_not_exist path ≡ false) ⊎ (w.mkdir_all path ≡ none)

path-expanded :
    (w : RootWorld) (path : Text) → (expand_path_and_create w path).path ≡ expand_file_path w path
unfolding expand_path_and_create
path-expanded w path = ground arith

expand_path_and_create-IsThere :
    (w : RootWorld) (path : Text)
    → (expand_path_and_create w path).error ≡ none
    → IsThere w (expand_path_and_create w path).path
unfolding expand_path_and_create
expand_path_and_create-IsThere w path h =
    elim (Bool-cases (w.is_not_exist (expand_file_path w path))) [
      | inl e ↦ inr (ap w.mkdir_all (path-expanded w path) ∙ ground arith)
      | inr e ↦ inl (ap w.is_not_exist (path-expanded w path) ∙ e)
    ]

run_parts :
    (w : RootWorld) (s : RootState)
    → (persistent_pre_run w s).2 ≡ none
    → ((expand_path_and_create w s.work_dir).error ≡ none)
      × ((expand_path_and_create w s.log_dir).error ≡ none)
      × ((persistent_pre_run w s).0.work_dir ≡ (expand_path_and_create w s.work_dir).path)
      × ((persistent_pre_run w s).0.log_dir ≡ (expand_path_and_create w s.log_dir).path)
      × ((persistent_pre_run w s).1
          ≡ (expand_path_and_create w s.work_dir).made ++ (expand_path_and_create w s.log_dir).made)
unfolding persistent_pre_run
run_parts w s h = ground arith

-- Where no error is returned, both directories are the expanded ones, and are there.
pub persistent_pre_run-IsThere :
    (w : RootWorld) (s : RootState)
    → (persistent_pre_run w s).2 ≡ none
    → ((persistent_pre_run w s).0.work_dir ≡ expand_file_path w s.work_dir)
      × ((persistent_pre_run w s).0.log_dir ≡ expand_file_path w s.log_dir)
      × IsThere w (persistent_pre_run w s).0.work_dir
      × IsThere w (persistent_pre_run w s).0.log_dir
persistent_pre_run-IsThere w s h =
    let (a, b, c, d, made) = run_parts w s h in
    (
      c ∙ path-expanded w s.work_dir,
      d ∙ path-expanded w s.log_dir,
      subst (IsThere w) (sym c) (expand_path_and_create-IsThere w s.work_dir a),
      subst (IsThere w) (sym d) (expand_path_and_create-IsThere w s.log_dir b),
    )
