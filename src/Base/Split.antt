-- ===== src/Base/Split.antt =====
-- The functions of Go's package strings that the program calls.
use Prim.Native.Nat.{ℕ}
use mathlib.Core.Path.{◌≡◌, refl}
use mathlib.Core.Bool.{Bool, true, false, ◌&&◌, ◌||◌}
use mathlib.Core.List.{List, [], ◌∷◌, ◌++◌}
use native.Mathlib.Omega.{arith}
use skywalking_infra_e2e.Base.Tests.{◌==◌, if◌then◌else◌}
use skywalking_infra_e2e.Base.Strings.{Text, text_eq}

abbrev pub cons_head : ℕ → List Text → List Text
cons_head d [] = (d ∷ []) ∷ []
cons_head d (w ∷ ws) = (d ∷ w) ∷ ws

-- strings.Split at a separator of one byte: never the empty list.
unfoldable pub split : ℕ → Text → List Text
split c [] = [] ∷ []
split c (d ∷ s) = let rest = split c s in if d == c then [] ∷ rest else cons_head d rest

-- strings.Join with a separator of one byte.
unfoldable pub join : ℕ → List Text → Text
join c [] = []
join c (w ∷ []) = w
join c (w ∷ v ∷ ws) = w ++ (c ∷ join c (v ∷ ws))

-- strings.Contains of one byte.
unfoldable pub contains_byte : ℕ → Text → Bool
contains_byte c [] = false
contains_byte c (d ∷ s) = d == c || contains_byte c s

-- strings.HasPrefix.
unfoldable pub has_prefix : Text → Text → Bool
has_prefix s [] = true
has_prefix [] (d ∷ t) = false
has_prefix (c ∷ s) (d ∷ t) = c == d && has_prefix s t

-- strings.HasSuffix.
unfoldable pub has_suffix : Text → Text → Bool
has_suffix [] [] = true
has_suffix [] (d ∷ t) = false
has_suffix (c ∷ s) t = text_eq (c ∷ s) t || has_suffix s t

-- strings.ReplaceAll of one byte by another.
unfoldable pub replace_byte : ℕ → ℕ → Text → Text
replace_byte a b [] = []
replace_byte a b (c ∷ s) = (if c == a then b else c) ∷ replace_byte a b s

pub split-append :
    (d : ℕ) (a s : Text) → contains_byte d a ≡ false → split d (a ++ (d ∷ s)) ≡ a ∷ split d s
unfolding split contains_byte
split-append d [] s h = ground arith
split-append d (c ∷ a) s h = ground (arith, split-append d a s)

pub split_single : (d : ℕ) (a : Text) → contains_byte d a ≡ false → split d a ≡ a ∷ []
unfolding split contains_byte
split_single d [] h = refl
split_single d (c ∷ a) h = ground (arith, split_single d a)

pub contains_byte-append :
    (d : ℕ) (a b : Text) → contains_byte d (a ++ b) ≡ (contains_byte d a || contains_byte d b)
unfolding contains_byte
contains_byte-append d [] b = refl
contains_byte-append d (c ∷ a) b = ground (arith, contains_byte-append d a b)
