-- ===== src/Base/Errors.antt =====
-- A Go function that returns a value and an error. The error is its message.
use mathlib.Core.Path.{◌≡◌, refl}
use mathlib.Core.Logic.{◌⊎◌, inl, inr}
use mathlib.Core.Bool.{Bool, true, false}
use skywalking_infra_e2e.Base.Strings.{Text}

pub data Result {ℓ} (Value : Type ℓ) : Type ℓ where
  err : (message : Text) → Result Value
  ok : (value : Value) → Result Value

module _ {ℓ} {V : Type ℓ} where
  -- err == nil
  abbrev pub is_ok : Result V → Bool
  is_ok (err message) = false
  is_ok (ok v) = true

  pub Result-cases :
      (r : Result V) → ((v : V) × (r ≡ ok v)) ⊎ ((message : Text) × (r ≡ err message))
  Result-cases (err message) = inr (message, refl)
  Result-cases (ok v) = inl (v, refl)

-- `if err != nil { return err }` between two calls.
infixl 5 ◌>>=◌
abbrev pub ◌>>=◌ {ℓ κ} : {V : Type ℓ} {W : Type κ} → Result V → (V → Result W) → Result W
err message >>= next = err message
ok v >>= next = next v

-- A call chain succeeds only if its first call does.
pub >>=-eq-ok {ℓ κ} :
    {V : Type ℓ} {W : Type κ} (first : Result V) (next : V → Result W) {w : W}
    → (first >>= next) ≡ ok w
    → (v : V) × (first ≡ ok v) × (next v ≡ ok w)
>>=-eq-ok (err message) next h = cc
>>=-eq-ok (ok v) next h = (v, refl, h)
