-- ===== src/Base/Number.antt =====
-- strconv: decimal printing and reading.
use Prim.Native.Nat.{ℕ, zero, suc, ◌+◌, ◌-◌, ◌*◌, ◌/◌, ◌%◌, ◌^◌, ◌<◌}
use mathlib.Core.Path.{◌≡◌, refl, sym, ap, ◌∙◌}
use mathlib.Core.Logic.{inl, inr}
use mathlib.Core.Bool.{Bool, true, false, ◌&&◌}
use mathlib.Core.Option.{Option, none, some}
use mathlib.Core.List.{[], ◌∷◌, ◌++◌, append_assoc, append-nil}
use native.Mathlib.Omega.{arith}
use skywalking_infra_e2e.Base.Tests.{ltb, leb, ◌==◌, Bool-cases, if◌then◌else◌}
use skywalking_infra_e2e.Base.Strings.{Text}
use skywalking_infra_e2e.Base.Int.{ℤ, pos, negsuc, IsInt64}

-- The digits of a number, with fuel above the number.
unfoldable pub digits_of : ℕ → ℕ → Text
digits_of zero n = []
digits_of (suc fuel) n =
    let front = digits_of fuel (n / 10) in
    if ltb n 10 then (48 + n) ∷ [] else front ++ ((48 + n % 10) ∷ [])

-- strconv.Itoa
unfoldable pub itoa_nat : ℕ → Text
unfolding digits_of
itoa_nat n = digits_of (suc n) n

unfoldable pub itoa : ℤ → Text
unfolding itoa_nat
itoa (pos n) = itoa_nat n
itoa (negsuc n) = b'-' ∷ itoa_nat (suc n)

abbrev pub is_digit : ℕ → Bool
is_digit c = leb 48 c && leb c 57

-- The value of a run of digits, with what stands before it.
unfoldable pub read_digits : ℕ → Text → Option ℕ
read_digits acc [] = some acc
read_digits acc (c ∷ s) =
    let rest = read_digits (acc * 10 + (c - 48)) s in if is_digit c then rest else none

-- One digit at least.
unfoldable pub read_nat : Text → Option ℕ
unfolding read_digits
read_nat [] = none
read_nat (c ∷ s) = read_digits 0 (c ∷ s)

-- A magnitude that a signed number of the given number of bits holds.
unfoldable pub in_range : ℕ → Bool → Option ℕ → Option ℤ
in_range limit negative none = none
in_range limit true (some zero) = some (pos 0)
in_range limit true (some (suc n)) = if leb (suc n) limit then some (negsuc n) else none
in_range limit false (some n) = if ltb n limit then some (pos n) else none

-- strconv.ParseInt at base 10, below 2 ^ (bits - 1), with a sign or without. `none` is an error.
unfoldable pub parse_int : ℕ → Text → Option ℤ
unfolding read_nat in_range
parse_int limit [] = none
parse_int limit (c ∷ s) =
    if c == b'+'
    then in_range limit false (read_nat s)
    else if c == b'-'
    then in_range limit true (read_nat s)
    else in_range limit false (read_nat (c ∷ s))

-- strconv.Atoi
unfoldable pub atoi : Text → Option ℤ
unfolding parse_int
atoi s = parse_int (2 ^ 63) s

read_digits-digit :
    (acc d m : ℕ) (rest : Text)
    → d < 10
    → acc * 10 + d ≡ m
    → read_digits acc ((48 + d) ∷ rest) ≡ read_digits m rest
unfolding read_digits
read_digits-digit acc d m rest h e =
    let same : acc * 10 + (48 + d - 48) ≡ m = omega arith in rw same (ground arith)

read_digits-digits_of :
    (fuel n : ℕ) (rest : Text)
    → n < fuel
    → read_digits 0 (digits_of fuel n ++ rest) ≡ read_digits n rest
unfolding digits_of
read_digits-digits_of zero n rest h = elim h [ ]
read_digits-digits_of (suc fuel) n rest h = elim (Bool-cases (ltb n 10)) [
  | inl small ↦ rw small (read_digits-digit 0 n n rest (ground arith) (omega arith))
  | inr large ↦
      rw (large, append_assoc (digits_of fuel (n / 10)))
        (read_digits-digits_of fuel (n / 10) ((48 + n % 10) ∷ rest) (ground arith)
          ∙ read_digits-digit (n / 10) (n % 10) n rest (omega arith) (omega arith))
]

-- Printing starts with a digit.
abbrev starts_with_digit : Text → Bool
starts_with_digit [] = false
starts_with_digit (c ∷ s) = is_digit c

starts_with_digit-append :
    (s t : Text) → starts_with_digit s ≡ true → starts_with_digit (s ++ t) ≡ true
starts_with_digit-append [] t h = cc
starts_with_digit-append (c ∷ s) t h = h

digits_of-digit : (fuel n : ℕ) → n < fuel → starts_with_digit (digits_of fuel n) ≡ true
unfolding digits_of
digits_of-digit zero n h = elim h [ ]
digits_of-digit (suc fuel) n h = elim (Bool-cases (ltb n 10)) [
  | inl small ↦ rw small (ground arith)
  | inr large ↦ rw large (
      starts_with_digit-append (digits_of fuel (n / 10)) _
        (digits_of-digit fuel (n / 10) (ground arith)))
]

itoa_nat-digit : (n : ℕ) → starts_with_digit (itoa_nat n) ≡ true
unfolding itoa_nat
itoa_nat-digit n = digits_of-digit (suc n) n (omega arith)

read_nat_of_digit : (s : Text) → starts_with_digit s ≡ true → read_nat s ≡ read_digits 0 s
unfolding read_nat
read_nat_of_digit [] h = cc
read_nat_of_digit (c ∷ s) h = refl

pub read_nat-itoa_nat : (n : ℕ) → read_nat (itoa_nat n) ≡ some n
unfolding itoa_nat read_digits
read_nat-itoa_nat n =
    read_nat_of_digit (itoa_nat n) (itoa_nat-digit n)
    ∙ ap (read_digits 0) (sym (append-nil (digits_of (suc n) n)))
    ∙ read_digits-digits_of (suc n) n [] (omega arith)

-- A text that starts with a digit is read without a sign.
parse_int_of_digit :
    (limit : ℕ) (s : Text)
    → starts_with_digit s ≡ true
    → parse_int limit s ≡ in_range limit false (read_nat s)
unfolding parse_int
parse_int_of_digit limit [] h = cc
parse_int_of_digit limit (c ∷ s) h = ground arith

abbrev pub Fits : ℕ → ℤ → Type 0
Fits limit (pos n) = n < limit
Fits limit (negsuc n) = n < limit

parse_int_of_minus :
    (limit : ℕ) (s : Text) → parse_int limit (b'-' ∷ s) ≡ in_range limit true (read_nat s)
unfolding parse_int
parse_int_of_minus limit s = refl

parse_int-itoa : (limit : ℕ) (z : ℤ) → Fits limit z → parse_int limit (itoa z) ≡ some z
unfolding itoa in_range
parse_int-itoa limit (pos n) h =
    parse_int_of_digit limit (itoa_nat n) (itoa_nat-digit n)
    ∙ rw (read_nat-itoa_nat n) (ground arith)
parse_int-itoa limit (negsuc n) h =
    parse_int_of_minus limit (itoa_nat (suc n)) ∙ rw (read_nat-itoa_nat (suc n)) (ground arith)

-- Reading what was printed gives the number back.
pub atoi-itoa : (z : ℤ) → IsInt64 z → atoi (itoa z) ≡ some z
unfolding atoi
atoi-itoa (pos n) h = parse_int-itoa (2 ^ 63) (pos n) h
atoi-itoa (negsuc n) h = parse_int-itoa (2 ^ 63) (negsuc n) h
