-- ===== src/Kind/Manifests/Files.antt =====
-- Which files a path of manifests names.
use mathlib.Core.Path.{subst}
use skywalking_infra_e2e.Base.{
  ◌≡◌, sym, inl, inr, true, List, [], ◌∷◌, ◌++◌, arith, Bool-cases, >>=-eq-ok, All, All-append,
  Text, Result, ok, err, split,
}
use skywalking_infra_e2e.Paths.{Settings, resolve_abs, is_abs}
use skywalking_infra_e2e.Kind.Manifests.{
  ManifestDisk, FileMode, directory, regular, special, is_yaml, walked, files_of, manifest_files,
  get_manifests,
}
use skywalking_infra_e2e.Paths.Resolve.{resolve_abs_fixed}

abbrev pub IsAbsEntry : Result Text → Type 0
IsAbsEntry (ok path) = is_abs path ≡ true
IsAbsEntry (err x) = Unit

abbrev pub IsYaml : Text → Type 0
IsYaml path = is_yaml path ≡ true

-- The name of a file is the end of its path, and a walk gives absolute paths.
abbrev pub IsNamed : ManifestDisk → Type 0
IsNamed d = (f name : Text) → d.stat f ≡ ok (regular name) → is_yaml name ≡ true → is_yaml f ≡ true

abbrev pub IsRooted : ManifestDisk → Type 0
IsRooted d = (f : Text) → All IsAbsEntry (d.walk f)

module _ (st : Settings) (d : ManifestDisk) (names : IsNamed d) (rooted : IsRooted d) where
  moved : {a b : List Text} → a ≡ b → All IsYaml a → All IsYaml b
  moved same h = subst (All IsYaml) same h

  nothing : {files : List Text} → files ≡ [] → All IsYaml files
  nothing e = moved {a = []} (sym e) tt

  walked-IsYaml :
      (entries : List (Result Text)) {files : List Text}
      → All IsAbsEntry entries
      → walked st entries ≡ ok files
      → All IsYaml files
  unfolding walked
  walked-IsYaml [] {files} h e = nothing (ground arith)
  walked-IsYaml (err x ∷ entries) h e = absurd (ground arith)
  walked-IsYaml (ok path ∷ entries) (h, hs) e =
      let (rest, a, b) = >>=-eq-ok (walked st entries) _ e in
      let later = walked-IsYaml entries hs a in
      let same = resolve_abs_fixed st path h in
      elim (Bool-cases (is_yaml path)) [
        | inl y ↦ moved {a = resolve_abs st path ∷ rest} (ground arith) (rw same y, later)
        | inr y ↦ moved {a = rest} (ground arith) later
      ]

  files_of-IsYaml :
      (f : Text) (mode : FileMode) {files : List Text}
      → d.stat f ≡ ok mode
      → files_of st d f mode ≡ ok files
      → All IsYaml files
  unfolding files_of
  files_of-IsYaml f directory s e = walked-IsYaml (d.walk f) (rooted f) e
  files_of-IsYaml f (regular name) s e = elim (Bool-cases (is_yaml name)) [
    | inl y ↦ moved {a = f ∷ []} (ground arith) (names f name s y, tt)
    | inr y ↦ nothing (ground arith)
  ]
  files_of-IsYaml f special s e = nothing (ground arith)

  manifest_files-IsYaml :
      (fs : List Text) {files : List Text} → manifest_files st d fs ≡ ok files → All IsYaml files
  unfolding manifest_files
  manifest_files-IsYaml [] e = nothing (ground arith)
  manifest_files-IsYaml (f ∷ fs) e =
      let (mode, a, b) = >>=-eq-ok (d.stat (resolve_abs st f)) _ e in
      let (s, a', c) = >>=-eq-ok (files_of st d (resolve_abs st f) mode) _ b in
      let (rest, a'', k) = >>=-eq-ok (manifest_files st d fs) _ c in
      let here = files_of-IsYaml (resolve_abs st f) mode a a' in
      let later = manifest_files-IsYaml fs a'' in
      moved {a = s ++ rest} (ground arith) (All-append IsYaml s rest here later)

  -- Every file of the manifests ends in `.yml` or `.yaml`.
  pub get_manifests-IsYaml :
      (manifests : Text) {files : List Text}
      → get_manifests st d manifests ≡ ok files
      → All IsYaml files
  unfolding get_manifests
  get_manifests-IsYaml manifests e = manifest_files-IsYaml (split b',' manifests) e
