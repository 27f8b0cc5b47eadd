-- ===== src/Kind/Manifests.antt =====
-- The manifests (`GetManifests` and `OperateManifest`, internal/util/k8s.go, and
-- `createByManifest`, internal/components/setup/kind.go). What the disk answers is a `ManifestDisk`,
-- what kubernetes answers is a `ManifestApi`.
pub mod Files
pub mod Complete
use skywalking_infra_e2e.Base.{
  ◌>>=◌, and_then, Bool, ◌||◌, Option, none, some, List, [], ◌∷◌, ◌++◌, if◌then◌else◌, Text, codes,
  is_empty, Result, ok, err, split, has_suffix,
}
use skywalking_infra_e2e.Paths.{Settings, resolve_abs}

-- What os.Stat tells of a file: a regular one comes with its name.
pub data FileMode : Type 0 where
  directory special : FileMode
  regular : Text → FileMode

-- `walk` is the order of filepath.Walk, with the error that the function is called with.
pub record ManifestDisk : Type 0 where
  pub stat : Text → Result FileMode
  pub walk : Text → List (Result Text)
  pub read_file : Text → Result Text

unfoldable pub is_yaml : Text → Bool
is_yaml path = has_suffix path (codes ".yml") || has_suffix path (codes ".yaml")

-- The function that filepath.Walk calls: an error ends the walk.
unfoldable pub walked : Settings → List (Result Text) → Result (List Text)
walked st [] = ok []
walked st (entry ∷ entries) = do
  path ← entry
  rest ← walked st entries
  ok (if is_yaml path then resolve_abs st path ∷ rest else rest)

-- The switch over the mode of a file.
unfoldable pub files_of : Settings → ManifestDisk → Text → FileMode → Result (List Text)
unfolding walked is_yaml
files_of st d f directory = walked st (d.walk f)
files_of st d f (regular name) = ok (if is_yaml name then f ∷ [] else [])
files_of st d f special = ok []

-- The loop of `GetManifests`.
unfoldable pub manifest_files : Settings → ManifestDisk → List Text → Result (List Text)
manifest_files st d [] = ok []
manifest_files st d (f ∷ fs) = do
  mode ← d.stat (resolve_abs st f)
  s ← files_of st d (resolve_abs st f) mode
  rest ← manifest_files st d fs
  ok (s ++ rest)

-- `GetManifests`
unfoldable pub get_manifests : Settings → ManifestDisk → Text → Result (List Text)
unfolding manifest_files
get_manifests st d manifests = manifest_files st d (split b',' manifests)

-- An object of a manifest: `kind` is its group, version and kind.
pub record Object : Type 0 where
  pub kind : Text
  pub name : Text
  pub namespace : Text

pub data Operation : Type 0 where
  create delete other : Operation

-- An operation on an object, in a namespace where its resource has one.
pub record Applied : Type 0 where
  pub operation : Operation
  pub namespace : Option Text
  pub object : Object

-- The documents of a file, as the decoder gives them until it gives an error; the object of a
-- document; the resources of the groups; whether the resource of a kind has a namespace; and the
-- answer to an operation.
pub record ManifestApi : Type 0 where
  pub documents : Text → List Text
  pub decode : Text → Result Object
  pub group_resources : Option Text
  pub rest_mapping : Text → Result Bool
  pub answer : Applied → Option Text

-- The namespace that an object without one gets.
unfoldable pub with_namespace : Object → Object
with_namespace o = if is_empty o.namespace then record o { namespace = codes "default" } else o

unfoldable pub target : Operation → Bool → Object → Applied
target operation is_namespaced o =
    if is_namespaced
    then record {
      operation = operation;
      namespace = some ((with_namespace o).namespace);
      object = with_namespace o;
    }
    else record { operation = operation; namespace = none; object = o }

-- What was asked of kubernetes, and the error.
abbrev pub Asked : Type 0
Asked = List Applied × Option Text

module _ (api : ManifestApi) where
  -- What a document asks for.
  unfoldable pub target_of : Operation → Text → Result Applied
  target_of operation document = do
    o ← api.decode document
    is_namespaced ← elim api.group_resources [ some x ↦ err x | none ↦ api.rest_mapping o.kind ]
    ok (target operation is_namespaced o)

  -- Only a create and a delete are asked for.
  unfoldable pub ask : Applied → Asked
  ask t = elim t.operation [
    | create ↦ (t ∷ [], api.answer t)
    | delete ↦ (t ∷ [], api.answer t)
    | other ↦ ([], none)
  ]

  unfoldable pub operate_document : Operation → Text → Asked
  unfolding ask target_of
  operate_document operation document = elim (target_of operation document) [
    | err x ↦ ([], some x)
    | ok t ↦ ask t
  ]

  -- The loop of `OperateManifest`: an error of the decoder ends it, and is no error.
  unfoldable pub operate_documents : Operation → List Text → Asked
  unfolding operate_document and_then
  operate_documents operation [] = ([], none)
  operate_documents operation (document ∷ rest) =
      and_then (operate_document operation document) (operate_documents operation rest)

  -- `OperateManifest`
  unfoldable pub operate_manifest : ManifestDisk → Operation → Text → Asked
  unfolding operate_documents
  operate_manifest d operation manifest = elim (d.read_file manifest) [
    | err x ↦ ([], some x)
    | ok b ↦ operate_documents operation (api.documents b)
  ]

  -- The loop of `createByManifest`.
  unfoldable pub create_files : ManifestDisk → List Text → Asked
  unfolding operate_manifest and_then
  create_files d [] = ([], none)
  create_files d (f ∷ fs) = and_then (operate_manifest d create f) (create_files d fs)

  -- `createByManifest`
  unfoldable pub create_by_manifest : Settings → ManifestDisk → Text → Asked
  unfolding create_files
  create_by_manifest st d path = elim (get_manifests st d path) [
    | err x ↦ ([], some x)
    | ok files ↦ create_files d files
  ]
