-- ===== src/Kind/Manifests/Complete.antt =====
-- What is asked of kubernetes for the files of the manifests.
use skywalking_infra_e2e.Base.{◌>>=◌, ◌≡◌, none, List, [], ◌∷◌, ◌++◌, arith, All, Text, Result, ok}
use skywalking_infra_e2e.Kind.Manifests.{ManifestDisk, ManifestApi, Applied, create, target_of, ask}

-- The targets of a list of documents.
abbrev pub targets : ManifestApi → List Text → Result (List Applied)
targets api [] = ok []
targets api (document ∷ rest) = do
  t ← target_of api create document
  ts ← targets api rest
  ok (t ∷ ts)

-- The documents of a list of files.
abbrev pub documents_of : ManifestApi → ManifestDisk → List Text → Result (List Text)
documents_of api d [] = ok []
documents_of api d (f ∷ fs) = do
  b ← d.read_file f
  rest ← documents_of api d fs
  ok (api.documents b ++ rest)

module _ (api : ManifestApi) (d : ManifestDisk) where
  abbrev pub IsAccepted : Applied → Type 0
  IsAccepted t = api.answer t ≡ none

  -- The targets of the documents were asked for, in order, and accepted.
  abbrev pub IsComplete : List Text → List Applied → Type 0
  IsComplete documents asked = (targets api documents ≡ ok asked) × All IsAccepted asked

  asked : (t : Applied) → t.operation ≡ create → ask api t ≡ (t ∷ [], api.answer t)
  unfolding ask
  asked t h = ground arith
