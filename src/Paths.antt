-- ===== src/Paths.antt =====
-- Paths: `ResolveAbs` and `ResolveAbsWithBase` (internal/util/config.go), over the functions of
-- Go's path/filepath on Unix that they call.
pub mod Resolve
use skywalking_infra_e2e.Base.{
  Bool, false, not, ◌||◌, Option, none, some, List, [], ◌∷◌, ◌++◌, Text, codes, text_eq, is_empty,
  split, ◌==◌, if◌then◌else◌,
}

-- path.IsAbs
abbrev pub is_abs : Text → Bool
is_abs [] = false
is_abs (c ∷ s) = c == b'/'

-- A `..` takes the last element back, if there is one that is not `..` itself. The elements
-- kept so far stand last one first.
go_up : Bool → List Text → List Text
go_up rooted [] = if rooted then [] else codes ".." ∷ []
go_up rooted (w ∷ ws) = if text_eq w (codes "..") then codes ".." ∷ w ∷ ws else ws

clean_parts : Bool → List Text → List Text → List Text
unfolding go_up
clean_parts rooted kept [] = kept
clean_parts rooted kept (w ∷ ws) =
    clean_parts rooted
      (if is_empty w || text_eq w (codes ".")
        then kept
        else if text_eq w (codes "..")
        then go_up rooted kept
        else w ∷ kept)
      ws

-- The kept elements in order, with a `/` between two.
join_kept : Text → List Text → Text
join_kept acc [] = acc
join_kept acc (w ∷ ws) = join_kept (if is_empty acc then w else w ++ (b'/' ∷ acc)) ws

-- filepath.Clean
unfoldable pub clean : Text → Text
unfolding clean_parts join_kept
clean p =
    let body = join_kept [] (clean_parts (is_abs p) [] (split b'/' p)) in
    if is_abs p then b'/' ∷ body else if is_empty body then codes "." else body

-- Up to the last `/`, which stays.
drop_last : Text → Text
drop_last [] = []
drop_last (c ∷ s) =
    let rest = drop_last s in if c == b'/' then c ∷ rest else if is_empty rest then [] else c ∷ rest

-- filepath.Dir
unfoldable pub dir : Text → Text
unfolding drop_last
dir p = clean (drop_last p)

-- filepath.Join of two elements.
unfoldable pub join_path : Text → Text → Text
join_path p q =
    if not (is_empty p) then clean (p ++ (b'/' ∷ q)) else if not (is_empty q) then clean q else []

-- `ResolveAbsWithBase`
unfoldable pub resolve_abs_with_base : Text → Text → Text
resolve_abs_with_base p base =
    if is_empty p then p else if is_abs p then p else join_path (dir base) p

-- The variable `CfgFile`, and the working directory, if the system tells it.
pub record Settings : Type 0 where
  pub cfg_file : Text
  pub cwd : Option Text

-- filepath.Abs
unfoldable pub abs_path : Option Text → Text → Option Text
abs_path cwd p =
    if is_abs p then some (clean p) else elim cwd [ none ↦ none | some wd ↦ some (join_path wd p) ]

-- `ResolveAbs`
unfoldable pub resolve_abs : Settings → Text → Text
resolve_abs st p = elim (abs_path st.cwd st.cfg_file) [
  | none ↦ p
  | some base ↦ resolve_abs_with_base p base
]
