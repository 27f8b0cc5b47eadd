-- ===== src/Paths/Resolve.antt =====
-- Absolute paths, and paths that were resolved before (`ResolveAbs`, internal/util/config.go).
use skywalking_infra_e2e.Base.{
  ◌≡◌, refl, true, false, Option, none, some, [], ◌∷◌, arith, Text, is_empty, Option-cases,
  if◌then◌else◌, ◌∙◌, ◌⊎◌, inl, inr,
}
use skywalking_infra_e2e.Paths.{
  is_abs, clean, dir, drop_last, join_path, resolve_abs_with_base, Settings, abs_path, resolve_abs,
}

clean-is_abs : (p : Text) → is_abs p ≡ true → is_abs (clean p) ≡ true
unfolding clean
clean-is_abs p h = ground arith

drop_last-is_abs : (p : Text) → is_abs p ≡ true → is_abs (drop_last p) ≡ true
unfolding drop_last
drop_last-is_abs [] h = h
drop_last-is_abs (c ∷ s) h = ground arith

pub dir-is_abs : (p : Text) → is_abs p ≡ true → is_abs (dir p) ≡ true
unfolding dir
dir-is_abs p h = clean-is_abs (drop_last p) (drop_last-is_abs p h)

pub join_path-is_abs : (p q : Text) → is_abs p ≡ true → is_abs (join_path p q) ≡ true
unfolding join_path
join_path-is_abs [] q h = ground arith
join_path-is_abs (c ∷ p) q h = clean-is_abs _ h

-- A path resolved against an absolute base is absolute, unless it is empty, and stays empty then.
pub resolve_abs_with_base-is_abs :
    (p base : Text)
    → is_abs base ≡ true
    → (is_empty p ≡ false → is_abs (resolve_abs_with_base p base) ≡ true)
      × (is_empty p ≡ true → resolve_abs_with_base p base ≡ [])
unfolding resolve_abs_with_base
resolve_abs_with_base-is_abs [] base h = (λ e. cc, λ e. refl)
resolve_abs_with_base-is_abs (c ∷ p) base h =
    (λ e. ground (arith, join_path-is_abs (dir base) (c ∷ p) (dir-is_abs base h)), λ e. cc)

nothing : (base : Text) → resolve_abs_with_base [] base ≡ []
unfolding resolve_abs_with_base
nothing base = refl

resolved : (q base : Text) → is_abs q ≡ true → resolve_abs_with_base q base ≡ q
unfolding resolve_abs_with_base
resolved [] base h = refl
resolved (c ∷ q) base h = ground arith

pub resolve_abs_fixed : (st : Settings) (p : Text) → is_abs p ≡ true → resolve_abs st p ≡ p
unfolding resolve_abs
resolve_abs_fixed st p h = elim (Option-cases (abs_path st.cwd st.cfg_file)) [
  | inl e ↦ ground arith
  | inr (base, e) ↦ ground (arith, resolved p base h)
]

abs_path-is_abs :
    (cwd : Option Text) (p : Text) {q : Text}
    → ((wd : Text) → cwd ≡ some wd → is_abs wd ≡ true)
    → abs_path cwd p ≡ some q
    → is_abs q ≡ true
unfolding abs_path
abs_path-is_abs none p h e = ground (arith, clean-is_abs p)
abs_path-is_abs (some wd) p h e = ground (arith, clean-is_abs p, join_path-is_abs wd p (h wd refl))

-- A path that is absolute or empty.
abbrev pub AbsOrEmpty : Text → Type 0
AbsOrEmpty p = (is_abs p ≡ true) ⊎ (p ≡ [])

pub resolve_abs_with_base-AbsOrEmpty :
    (p base : Text) → is_abs base ≡ true → AbsOrEmpty (resolve_abs_with_base p base)
resolve_abs_with_base-AbsOrEmpty [] base h = inr (nothing base)
resolve_abs_with_base-AbsOrEmpty (c ∷ p) base h =
    inl ((resolve_abs_with_base-is_abs (c ∷ p) base h).0 refl)

-- Such a path is not changed by any base.
pub resolve_abs_with_base_settled :
    (p base : Text) → AbsOrEmpty p → resolve_abs_with_base p base ≡ p
resolve_abs_with_base_settled p base (inl a) = resolved p base a
resolve_abs_with_base_settled p base (inr e) = rw e (nothing base)

abs_path-known :
    (st : Settings) (wd : Text)
    → st.cwd ≡ some wd
    → (q : Text) × (abs_path st.cwd st.cfg_file ≡ some q)
unfolding abs_path
abs_path-known st wd c =
    (if is_abs st.cfg_file then clean st.cfg_file else join_path wd st.cfg_file, ground arith)

pub abs_path_known-is_abs :
    (st : Settings) (wd : Text)
    → st.cwd ≡ some wd
    → is_abs wd ≡ true
    → (q : Text) × (abs_path st.cwd st.cfg_file ≡ some q) × (is_abs q ≡ true)
abs_path_known-is_abs st wd c h =
    let (q, e) = abs_path-known st wd c in
    (q, e, abs_path-is_abs st.cwd st.cfg_file (λ v k. ground arith) e)

resolve_abs_of :
    (st : Settings) (p base : Text)
    → abs_path st.cwd st.cfg_file ≡ some base
    → resolve_abs st p ≡ resolve_abs_with_base p base
unfolding resolve_abs
resolve_abs_of st p base e = ground arith

-- `ResolveAbs` gives an absolute path for every path that is not empty, and the empty one for the
-- empty one, if the working directory is known and absolute.
pub resolve_abs-is_abs :
    (st : Settings) (p : Text) (wd : Text)
    → st.cwd ≡ some wd
    → is_abs wd ≡ true
    → (is_empty p ≡ false → is_abs (resolve_abs st p) ≡ true)
      × (is_empty p ≡ true → resolve_abs st p ≡ [])
resolve_abs-is_abs st p wd c h =
    let (base, e) = abs_path-known st wd c in
    rw (resolve_abs_of st p base e) (
      resolve_abs_with_base-is_abs p base
        (abs_path-is_abs st.cwd st.cfg_file (λ v q. ground arith) e))

-- `ResolveAbs` leaves a path as it is that is absolute or empty.
pub resolve_abs_settled : (st : Settings) (p : Text) → AbsOrEmpty p → resolve_abs st p ≡ p
unfolding resolve_abs
resolve_abs_settled st p h = elim (Option-cases (abs_path st.cwd st.cfg_file)) [
  | inl e ↦ ground arith
  | inr (base, e) ↦ resolve_abs_of st p base e ∙ resolve_abs_with_base_settled p base h
]

-- `ResolveAbs` leaves a path as it is that was resolved against an absolute base before.
pub resolve_abs_resolved :
    (st : Settings) (p base : Text)
    → is_abs base ≡ true
    → resolve_abs st (resolve_abs_with_base p base) ≡ resolve_abs_with_base p base
resolve_abs_resolved st p base h =
    resolve_abs_settled st _ (resolve_abs_with_base-AbsOrEmpty p base h)
