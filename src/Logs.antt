-- ===== src/Logs.antt =====
-- The log follower (internal/util/env_log.go): the files that are written, and the streams that
-- are copied to them. A file is its name. What the disk answers is a `LogDisk`.
pub mod Streams
use skywalking_infra_e2e.Base.{
  ℕ, ◌+◌, Bool, true, false, ◌||◌, Option, none, some, List, [], ◌∷◌, ◌++◌, ◌==◌, if◌then◌else◌,
  Text, text_eq, Result, ok, err,
}
use skywalking_infra_e2e.Paths.{join_path, dir}

-- `ResourceLogFollower`: `cancelled` is its context, `following` the keys of its map.
pub record LogFollower : Type 0 where
  pub base_path : Text
  pub cancelled : Bool
  pub following : List Text

-- The errors of os.MkdirAll, os.Remove and os.Create, and os.IsExist of the error of os.Stat.
pub record LogDisk : Type 0 where
  pub mkdir_all : Text → Option Text
  pub is_exist : Text → Bool
  pub remove : Text → Option Text
  pub create : Text → Option Text

-- `NewResourceLogFollower`
unfoldable pub new_resource_log_follower : Text → LogFollower
new_resource_log_follower base_path = record {
  base_path = base_path;
  cancelled = false;
  following = [];
}

-- `Close`
unfoldable pub close : LogFollower → LogFollower
close l = record l { cancelled = true }

-- `buildLogFilename`
unfoldable pub build_log_filename : LogFollower → Text → Text
build_log_filename l path = join_path l.base_path path

abbrev pub has_key : Text → List Text → Bool
has_key key [] = false
has_key key (k ∷ ks) = text_eq key k || has_key key ks

-- `IsFollowed`
unfoldable pub is_followed : LogFollower → Text → Bool
is_followed l path = has_key (build_log_filename l path) l.following

-- `writeFollowed`, with the name of the writer.
unfoldable pub write_followed : Text → LogFollower → LogFollower
write_followed name l = record l { following = name ∷ l.following }

create_file : LogDisk → Text → Result Text
create_file d file = elim (d.create file) [ some x ↦ err x | none ↦ ok file ]

-- `BuildLogWriter`: the name of the file that is created.
unfoldable pub build_log_writer : LogDisk → LogFollower → Text → Result Text
unfolding create_file
build_log_writer d l path =
    let log_file = build_log_filename l path in
    elim (d.mkdir_all (dir log_file)) [
      | some x ↦ err x
      | none ↦
          if d.is_exist log_file
          then elim (d.remove log_file) [ some x ↦ err x | none ↦ create_file d log_file ]
          else create_file d log_file
    ]

abbrev cons_line : ℕ → List Text × Text → List Text × Text
cons_line c ([], rest) = ([], c ∷ rest)
cons_line c (l ∷ ls, rest) = ((c ∷ l) ∷ ls, rest)

-- What `ReadBytes('\n')` reads of a stream until it ends: the lines with their line breaks, and
-- the bytes behind the last one, which come with an error.
unfoldable pub read_lines : Text → List Text × Text
read_lines [] = ([], [])
read_lines (c ∷ s) =
    let (ls, rest) = read_lines s in
    if c == 10 then ((c ∷ []) ∷ ls, rest) else cons_line c (ls, rest)

-- The loop of `ConsumeLog` over the lines, by whether the i-th write succeeds: the follower, and
-- what is written.
unfoldable pub copy_lines : (ℕ → Bool) → ℕ → Text → List Text → LogFollower → LogFollower × Text
copy_lines write i name [] l = (l, [])
copy_lines write i name (line ∷ lines) l =
    let rest = copy_lines write (i + 1) name lines (write_followed name l) in
    if write i then (rest.0, line ++ rest.1) else (write_followed name l, [])

-- `ConsumeLog`, with the name of the writer: nothing is copied if the name counts as followed.
unfoldable pub consume_log : (ℕ → Bool) → LogFollower → Text → Text → LogFollower × Option Text
consume_log write l name stream =
    if is_followed l name
    then (l, none)
    else (let (l', written) = copy_lines write 0 name (read_lines stream).0 l in (l', some written))
