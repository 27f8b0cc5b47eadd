-- ===== src/Verifier/Functions.antt =====
-- The functions of the templates (internal/components/verifier/funcs.go). What Go's libraries do
-- is a `Library`.
use skywalking_infra_e2e.Base.{
  ◌≡◌, sym, ap, ◌∙◌, Bool, not, List, [], ◌∷◌, ◌++◌, arith, ltb, if◌then◌else◌, length, Text, codes,
  Result, ok, err, ℤ, pos, negsuc, wrap64, ◌-ℤ◌, IsInt64, wrap64-IsInt64, wrap64_id,
}
use skywalking_infra_e2e.Config.{Any, nil, string}

-- strings.TrimSpace, `%q`, `%T`, the encodings, and regexp.MatchString with the pattern first.
pub record Library : Type 0 where
  pub trim_space : Text → Text
  pub quote : Text → Text
  pub type_name : Any → Text
  pub encode_base64 : Text → Text
  pub hex_sha256 : Text → Text
  pub hex_sha512 : Text → Text
  pub match_string : Text → Text → Result Bool

module _ (g : Library) where
  -- `base64encode`, `sha256encode` and `sha512encode`
  unfoldable pub base64encode : Text → Text
  base64encode s = g.encode_base64 s

  unfoldable pub sha256encode : Text → Text
  sha256encode s = g.hex_sha256 s

  unfoldable pub sha512encode : Text → Text
  sha512encode s = g.hex_sha512 s

  unfoldable pub is_empty_message : Text → Text
  is_empty_message quoted = codes "<" ++ (quoted ++ codes " is empty, wanted is not empty>")

  -- `notEmpty`
  unfoldable pub not_empty : Any → Text
  not_empty nil = is_empty_message (codes "%!q(<nil>)")
  not_empty (string s) = if ltb 0 (length (g.trim_space s)) then s else is_empty_message (g.quote s)
  not_empty v = codes "notEmpty only supports nil or string type, but was " ++ g.type_name v

  -- `regexpMatch`
  unfoldable pub regexp_match : Text → Text → Text
  regexp_match s pattern = elim (g.match_string pattern s) [
    | err x ↦ codes "<" ++ (g.quote x ++ codes ">")
    | ok matched ↦
        if not matched
        then codes "<"
          ++ (s ++ (codes " does not match the pattern " ++ (g.quote pattern ++ codes ">")))
        else s
  ]

-- `subtractor`: an int wraps around.
unfoldable pub subtractor : ℤ → List ℤ → ℤ
subtractor total [] = total
subtractor total (num ∷ nums) = subtractor (wrap64 (total -ℤ num)) nums

-- The difference without a bound.
abbrev pub difference : ℤ → List ℤ → ℤ
difference total [] = total
difference total (num ∷ nums) = difference (total -ℤ num) nums

wrap_sub : (a b : ℤ) → wrap64 (wrap64 a -ℤ b) ≡ wrap64 (a -ℤ b)
unfolding wrap64 ◌-ℤ◌
wrap_sub (pos a) (pos b) = ground arith
wrap_sub (pos a) (negsuc b) = ground arith
wrap_sub (negsuc a) (pos b) = ground arith
wrap_sub (negsuc a) (negsuc b) = ground arith

wrap_twice : (a : ℤ) → wrap64 (wrap64 a) ≡ wrap64 a
wrap_twice a = wrap64_id (wrap64 a) (wrap64-IsInt64 a)

difference_wraps :
    (a : ℤ) (nums : List ℤ) → wrap64 (difference (wrap64 a) nums) ≡ wrap64 (difference a nums)
difference_wraps a [] = wrap_twice a
difference_wraps a (num ∷ nums) =
    sym (difference_wraps (wrap64 a -ℤ num) nums)
    ∙ ap (λ b. wrap64 (difference b nums)) (wrap_sub a num)
    ∙ difference_wraps (a -ℤ num) nums

-- From a total that fits 64 bits the subtractor of the templates gives the exact difference
-- wrapped around once to 64 bits, although it wraps around at each number, and its result fits 64
-- bits.
pub subtractor_wraps :
    (total : ℤ) (nums : List ℤ)
    → IsInt64 total
    → (subtractor total nums ≡ wrap64 (difference total nums)) × IsInt64 (subtractor total nums)
unfolding subtractor
subtractor_wraps total [] h = (sym (wrap64_id total h), h)
subtractor_wraps total (num ∷ nums) h =
    let (a, b) = subtractor_wraps (wrap64 (total -ℤ num)) nums (wrap64-IsInt64 (total -ℤ num)) in
    (a ∙ difference_wraps (total -ℤ num) nums, b)
