-- ===== src/Plugins/StorageFs.antt =====
-- Blobs in files: infrareplay/plugins/storage_fs/plugin.py. A path below the root is the list of its
-- parts, the disk has a node for each path that is there, and fails only for what is on it.
pub mod Named
pub mod Written
use infra_replay.Common.{
  String, Bool, true, false, Option, none, some, List, [], ◌∷◌, ◌++◌, ◌==◌, ◌||◌, ◌&&◌, not,
  list_eq, string_eq, select, contains, if◌then◌else◌,
}
use infra_replay.Common.Text.{joined, codes, starts_with, lstrip, rstrip, split}
use infra_replay.Common.Dict.{Dict, get, set}

pub data Node {ℓ} (A : Type ℓ) : Type ℓ where
  file : A → Node A
  directory : Node A

-- What is at the root and below it.
abbrev pub Disk {ℓ} : Type ℓ → Type ℓ
Disk A = Dict (List String) (Node A)

abbrev pub locator_prefix : String
locator_prefix = "file://"

-- `Path(text).parts` of a relative path: what stands between the slashes, but for "" and ".".
unfoldable pub parts : String → List String
unfolding split
parts text =
    let (part, rest) = split b'/' text in
    select (λ p. not (p == "") && not (p == ".")) (part ∷ rest)

-- `_path_for`; none where it raises a ValueError.
unfoldable pub path_for : String → Option (List String)
unfolding lstrip rstrip parts starts_with
path_for key =
    let safe = rstrip b'/' (lstrip b'/' key) in
    if starts_with (codes safe) (codes "/") || contains (parts safe) ".."
    then none
    else some (parts safe)

-- The directories above a path, from the root down.
unfoldable pub above : List String → List String → List (List String)
above base [] = []
above base (part ∷ rest) = base ∷ above (base ++ part ∷ []) rest

-- `str(path)`, of a root that is neither "/" nor ".".
abbrev pub path_text : String → List String → String
path_text root [] = root
path_text root (part ∷ rest) = path_text (joined root (joined "/" part)) rest

module _ {ℓ} {A : Type ℓ} where
  -- `mkdir(parents=True, exist_ok=True)`, which raises where a file is in the way.
  unfoldable pub make_dirs : List (List String) → Disk A → Bool × Disk A
  unfolding get set
  make_dirs [] disk = (true, disk)
  make_dirs (path ∷ rest) disk = elim (get disk path) [
    | none ↦ make_dirs rest (set disk path Node.directory)
    | some (Node.file bytes) ↦ (false, disk)
    | some Node.directory ↦ make_dirs rest disk
  ]

  -- `path.write_bytes(data)`, which raises where there is a directory.
  unfoldable pub write_bytes : List String → A → Disk A → Bool × Disk A
  unfolding get set
  write_bytes path bytes disk = elim (get disk path) [
    | none ↦ (true, set disk path (Node.file bytes))
    | some (Node.file old) ↦ (true, set disk path (Node.file bytes))
    | some Node.directory ↦ (false, disk)
  ]

-- How `put_blob` ends: with a locator, a ValueError or an OSError.
pub data Put {ℓ} (A : Type ℓ) : Type ℓ where
  stored : String → Disk A → Put A
  unsafe_key : Disk A → Put A
  os_error : Disk A → Put A

-- How `get_blob` ends: with the bytes, a KeyError or a ValueError.
pub data Got {ℓ} (A : Type ℓ) : Type ℓ where
  found : A → Got A
  key_error : String → Got A
  unsafe_key : Got A

module _ {ℓ} {A : Type ℓ} where
  -- `put_blob`
  unfoldable pub put_blob : String → String → A → Disk A → Put A
  unfolding path_for make_dirs write_bytes above
  put_blob root key bytes disk = elim (path_for key) [
    | none ↦ Put.unsafe_key disk
    | some path ↦
        let made = make_dirs (above [] path) disk in
        elim made.0 [
          | false ↦ Put.os_error made.1
          | true ↦
              let written = write_bytes path bytes made.1 in
              elim written.0 [
                | false ↦ Put.os_error written.1
                | true ↦ Put.stored (joined locator_prefix (path_text root path)) written.1
              ]
        ]
  ]

  -- `get_blob`
  unfoldable pub get_blob : String → Disk A → Got A
  unfolding path_for get
  get_blob key disk = elim (path_for key) [
    | none ↦ Got.unsafe_key
    | some path ↦ elim (get disk path) [
      | none ↦ Got.key_error key
      | some (Node.file bytes) ↦ Got.found bytes
      | some Node.directory ↦ Got.key_error key
    ]
  ]
