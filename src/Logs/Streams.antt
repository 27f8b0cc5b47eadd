-- ===== src/Logs/Streams.antt =====
-- What is copied of a stream, and which files count as followed.
use mathlib.Core.Path.{subst}
use skywalking_infra_e2e.Base.{
  ℕ, ◌+◌, ◌≡◌, ◌⊎◌, refl, sym, ap, ◌∙◌, inl, inr, Bool, true, false, some, List, [], ◌∷◌, ◌++◌,
  arith, ◌==◌, ==_iff, Bool-cases, is_nil, Text, text_eq_refl, contains_byte,
}
use skywalking_infra_e2e.Logs.{
  LogFollower, build_log_filename, has_key, is_followed, write_followed, cons_line, read_lines,
  copy_lines, consume_log,
}

abbrev pub join_lines : List Text → Text
join_lines [] = []
join_lines (l ∷ ls) = l ++ join_lines ls

cons_line-join :
    (c : ℕ) (p : List Text × Text)
    → join_lines (cons_line c p).0 ++ (cons_line c p).1 ≡ c ∷ (join_lines p.0 ++ p.1)
cons_line-join c ([], rest) = refl
cons_line-join c (l ∷ ls, rest) = refl

read_lines-join : (s : Text) → join_lines (read_lines s).0 ++ (read_lines s).1 ≡ s
unfolding read_lines
read_lines-join [] = refl
read_lines-join (c ∷ s) = elim (Bool-cases (c == 10)) [
  | inl e ↦ rw e (ap (λ t. c ∷ t) (read_lines-join s))
  | inr e ↦ rw e (cons_line-join c (read_lines s) ∙ ap (λ t. c ∷ t) (read_lines-join s))
]

read_lines-rest : (s : Text) → contains_byte 10 (read_lines s).1 ≡ false
unfolding read_lines contains_byte
read_lines-rest [] = refl
read_lines-rest (c ∷ s) = ground (arith, read_lines-rest s)

copy_lines-all :
    (write : ℕ → Bool) (i : ℕ) (name : Text) (lines : List Text) (l : LogFollower)
    → ((k : ℕ) → write k ≡ true)
    → (copy_lines write i name lines l).1 ≡ join_lines lines
unfolding copy_lines
copy_lines-all write i name [] l h = refl
copy_lines-all write i name (line ∷ lines) l h =
    rw (h i)
      (ap (λ t. line ++ t) (copy_lines-all write (i + 1) name lines (write_followed name l) h))

-- Nothing, or a text whose last byte is a line break.
abbrev pub IsLines : Text → Type 0
IsLines t = (t ≡ []) ⊎ ((before : Text) × (t ≡ before ++ (10 ∷ [])))

-- The lines of what was read: none, or they end in a line break.
abbrev EndIn : List Text → Type 0
EndIn ls = (ls ≡ []) ⊎ ((before : Text) × (join_lines ls ≡ before ++ (10 ∷ [])))

break-EndIn : (ls : List Text) → EndIn ls → EndIn ((10 ∷ []) ∷ ls)
break-EndIn ls (inl e) = inr ([], ap (λ ks. 10 ∷ join_lines ks) e)
break-EndIn ls (inr (before, e)) = inr (10 ∷ before, ap (λ s. 10 ∷ s) e)

cons_line-EndIn : (c : ℕ) (p : List Text × Text) → EndIn p.0 → EndIn (cons_line c p).0
cons_line-EndIn c ([], rest) h = inl refl
cons_line-EndIn c (l ∷ ls, rest) (inl e) = absurd (ground arith)
cons_line-EndIn c (l ∷ ls, rest) (inr (before, e)) = inr (c ∷ before, ap (λ s. c ∷ s) e)

read_lines-EndIn : (s : Text) → EndIn (read_lines s).0
unfolding read_lines
read_lines-EndIn [] = inl refl
read_lines-EndIn (c ∷ s) = elim (Bool-cases (c == 10)) [
  | inl e ↦ let same : c ≡ 10 = (==_iff c 10).0 e in rw same (break-EndIn _ (read_lines-EndIn s))
  | inr e ↦ rw e (cons_line-EndIn c (read_lines s) (read_lines-EndIn s))
]

EndIn-IsLines : (ls : List Text) → EndIn ls → IsLines (join_lines ls)
EndIn-IsLines ls (inl e) = inl (ap join_lines e)
EndIn-IsLines ls (inr h) = inr h

-- Where the file does not count as followed and all writes succeed, the log that is written is the
-- stream up to its last line break: it is empty or ends in a line break, and what is missing has
-- no line break.
pub consume_log_copies :
    (write : ℕ → Bool) (l : LogFollower) (name stream : Text)
    → ((k : ℕ) → write k ≡ true)
    → is_followed l name ≡ false
    → (written : Text) × (rest : Text) × ((consume_log write l name stream).1 ≡ some written)
      × (written ++ rest ≡ stream)
      × IsLines written
      × (contains_byte 10 rest ≡ false)
unfolding consume_log
consume_log_copies write l name stream all' open' = (
  (copy_lines write 0 name (read_lines stream).0 l).1,
  (read_lines stream).1,
  rw open' refl,
  ap (λ t. t ++ (read_lines stream).1) (copy_lines-all write 0 name (read_lines stream).0 l all')
      ∙ read_lines-join stream,
  subst IsLines (sym (copy_lines-all write 0 name (read_lines stream).0 l all'))
      (EndIn-IsLines (read_lines stream).0 (read_lines-EndIn stream)),
  read_lines-rest stream,
)

has_key-cons : (key k : Text) (ks : List Text) → has_key key ks ≡ true → has_key key (k ∷ ks) ≡ true
has_key-cons key k ks h = ground arith

copy_lines-following :
    (write : ℕ → Bool) (i : ℕ) (name key : Text) (lines : List Text) (l : LogFollower)
    → has_key key l.following ≡ true
    → has_key key (copy_lines write i name lines l).0.following ≡ true
unfolding copy_lines write_followed
copy_lines-following write i name key [] l h = h
copy_lines-following write i name key (line ∷ lines) l h =
    ground (arith, copy_lines-following write (i + 1) name key lines (write_followed name l))

copy_lines-base :
    (write : ℕ → Bool) (i : ℕ) (name : Text) (lines : List Text) (l : LogFollower)
    → (copy_lines write i name lines l).0.base_path ≡ l.base_path
unfolding copy_lines write_followed
copy_lines-base write i name [] l = refl
copy_lines-base write i name (line ∷ lines) l =
    ground (arith, copy_lines-base write (i + 1) name lines (write_followed name l))

write_followed-key : (n : Text) (f : LogFollower) → has_key n (write_followed n f).following ≡ true
unfolding write_followed
write_followed-key n f = ground (arith, text_eq_refl n)

copy_lines-key :
    (write : ℕ → Bool) (i : ℕ) (name line : Text) (lines : List Text) (l : LogFollower)
    → has_key name (copy_lines write i name (line ∷ lines) l).0.following ≡ true
unfolding copy_lines
copy_lines-key write i name line lines l = elim (Bool-cases (write i)) [
  | inl e ↦ rw e (
      copy_lines-following write (i + 1) name name lines (write_followed name l)
        (write_followed-key name l))
  | inr e ↦ rw e (write_followed-key name l)
]

no_lines : (s : Text) → contains_byte 10 s ≡ true → is_nil (read_lines s).0 ≡ false
unfolding read_lines contains_byte
no_lines [] h = cc
no_lines (c ∷ s) h = ground (arith, no_lines s)

key_followed :
    (l k : LogFollower) (path : Text)
    → k.base_path ≡ l.base_path
    → has_key (build_log_filename l path) k.following ≡ true
    → is_followed k path ≡ true
unfolding is_followed build_log_filename
key_followed l k path b h = rw b h

copied :
    (write : ℕ → Bool) (l : LogFollower) (name stream : Text)
    → is_followed l name ≡ false
    → (consume_log write l name stream).0 ≡ (copy_lines write 0 name (read_lines stream).0 l).0
unfolding consume_log
copied write l name stream h = rw h refl

some_line :
    (write : ℕ → Bool) (name : Text) (lines : List Text) (l : LogFollower)
    → is_nil lines ≡ false
    → has_key name (copy_lines write 0 name lines l).0.following ≡ true
some_line write name [] l h = cc
some_line write name (line ∷ lines) l h = copy_lines-key write 0 name line lines l

-- A file counts as followed once a line was written to it.
pub consume_log-is_followed :
    (write : ℕ → Bool) (l : LogFollower) (path stream : Text)
    → contains_byte 10 stream ≡ true
    → is_followed l (build_log_filename l path) ≡ false
    → is_followed (consume_log write l (build_log_filename l path) stream).0 path ≡ true
consume_log-is_followed write l path stream h open' =
    let name = build_log_filename l path in
    let same = copied write l name stream open' in
    let lines = (read_lines stream).0 in
    ap (λ k. is_followed k path) same
    ∙ key_followed l (copy_lines write 0 name lines l).0 path (copy_lines-base write 0 name lines l)
        (some_line write name lines l (no_lines stream h))
