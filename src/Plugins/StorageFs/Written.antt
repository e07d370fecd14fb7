-- ===== src/Plugins/StorageFs/Written.antt =====
-- What a put writes, and that it stays below the root.
use infra_replay.Common.{
  String, ◌≡◌, ◌⊎◌, refl, sym, ap, ◌∙◌, subst, Bool, true, false, Option, none, some, List, [], ◌∷◌,
  ◌==◌, nat_eq, string_eq, list_eq, beq_refl, All, Option-cases, Bool-cases, inl, inr,
  if◌then◌else◌,
}
use mathlib.Core.Option.{none-ne-some, some-injective}
use infra_replay.Common.Text.{joined}
use infra_replay.Common.Dict.{get, set, get-set}
use infra_replay.Plugins.StorageFs.Named.{IsName, path_for-IsName}
use infra_replay.Plugins.StorageFs.{
  Node, Disk, Put, Got, locator_prefix, path_for, above, path_text, make_dirs, write_bytes,
  put_blob, get_blob,
}

module _ {ℓ} {A : Type ℓ} where
  abbrev bytes_in : Option (Node A) → Option A
  bytes_in none = none
  bytes_in (some (Node.file bytes)) = some bytes
  bytes_in (some Node.directory) = none

  -- The bytes of the file at a path.
  abbrev bytes_at : Disk A → List String → Option A
  bytes_at disk path = bytes_in (get disk path)

  bytes_at-set :
      (disk : Disk A) (path other : List String) (node : Node A)
      → bytes_at (set disk path node) other
        ≡ (if path == other then bytes_in (some node) else bytes_at disk other)
  bytes_at-set disk path other node = elim (Bool-cases (path == other)) [
    | inl hit ↦ rw hit (ap bytes_in (rw hit at (get-set disk path other node)))
    | inr miss ↦ rw miss (ap bytes_in (rw miss at (get-set disk path other node)))
  ]

  bytes_at-set_self :
      (disk : Disk A) (path : List String) (bytes : A)
      → bytes_at (set disk path (Node.file bytes)) path ≡ some bytes
  bytes_at-set_self disk path bytes =
      bytes_at-set disk path path (Node.file bytes) ∙ rw (beq_refl path) refl

  -- A directory that is made is no file, as nothing was before.
  directory_unread :
      (disk : Disk A) (path other : List String)
      → get disk path ≡ none
      → bytes_at (set disk path Node.directory) other ≡ bytes_at disk other
  directory_unread disk path other absent = elim (Bool-cases (path == other)) [
    | inl hit ↦
        let same : path ≡ other = (list_eq.beq_iff path other).0 hit in
        bytes_at-set disk path other Node.directory
        ∙ rw hit (ap bytes_in (sym absent ∙ ap (get disk) same))
    | inr miss ↦ bytes_at-set disk path other Node.directory ∙ rw miss refl
  ]

  make_dirs-bytes_at :
      (paths : List (List String)) (disk : Disk A) (other : List String)
      → bytes_at (make_dirs paths disk).1 other ≡ bytes_at disk other
  unfolding make_dirs
  make_dirs-bytes_at [] disk other = refl
  make_dirs-bytes_at (path ∷ rest) disk other = elim (Option-cases (get disk path)) [
    | inl absent ↦
        rw (absent, make_dirs)
          (make_dirs-bytes_at rest (set disk path Node.directory) other
            ∙ directory_unread disk path other absent)
    | inr (Node.file bytes, p) ↦ rw (p, make_dirs) refl
    | inr (Node.directory, p) ↦ rw (p, make_dirs) (make_dirs-bytes_at rest disk other)
  ]

  abbrev got : String → Option A → Got A
  got key none = Got.key_error key
  got key (some bytes) = Got.found bytes

  get_blob_lem :
      (key : String) (disk : Disk A) (path : List String)
      → path_for key ≡ some path
      → get_blob key disk ≡ got key (bytes_at disk path)
  unfolding get_blob
  get_blob_lem key disk path p = elim (Option-cases (get disk path)) [
    | inl absent ↦ rw (p, absent, get_blob) refl
    | inr (Node.file bytes, there) ↦ rw (p, there, get_blob) refl
    | inr (Node.directory, there) ↦ rw (p, there, get_blob) refl
  ]

  -- A key is read as before if the bytes at its path are.
  get_blob-bytes_at :
      (key : String) (from to : Disk A)
      → ((path : List String) → path_for key ≡ some path → bytes_at to path ≡ bytes_at from path)
      → get_blob key to ≡ get_blob key from
  unfolding get_blob
  get_blob-bytes_at key from to same = elim (Option-cases (path_for key)) [
    | inl refused ↦ rw (refused, get_blob) refl
    | inr (path, p) ↦
        get_blob_lem key to path p ∙ ap (got key) (same path p) ∙ sym (get_blob_lem key from path p)
  ]

  -- A write that returns has set the file, and one that raises leaves the disk.
  abbrev IsWritten : List String → A → Disk A → Bool × Disk A → Type ℓ
  IsWritten path bytes from (true, to) = to ≡ set from path (Node.file bytes)
  IsWritten path bytes from (false, to) = to ≡ from

  write_bytes-IsWritten :
      (path : List String) (bytes : A) (disk : Disk A)
      → IsWritten path bytes disk (write_bytes path bytes disk)
  unfolding write_bytes
  write_bytes-IsWritten path bytes disk = elim (Option-cases (get disk path)) [
    | inl absent ↦ rw (absent, write_bytes) refl
    | inr (Node.file old, there) ↦ rw (there, write_bytes) refl
    | inr (Node.directory, there) ↦ rw (there, write_bytes) refl
  ]

  written-other :
      (path : List String) (bytes : A) (disk : Disk A) (key : String)
      → (path_for key ≡ some path)
        ⊎ (get_blob key (set disk path (Node.file bytes)) ≡ get_blob key disk)
  written-other path bytes disk key = elim (Option-cases (path_for key)) [
    | inl refused ↦
        inr (get_blob-bytes_at key disk _ (λ at p. absurd (none-ne-some _ (sym refused ∙ p))))
    | inr (other, p) ↦ elim (Bool-cases (path == other)) [
      | inl hit ↦ inl (p ∙ ap some (sym ((list_eq.beq_iff path other).0 hit)))
      | inr miss ↦ inr (
          get_blob-bytes_at key disk _ (λ at q.
            let same : other ≡ at = some-injective _ _ (sym p ∙ q) in
            subst (λ o. bytes_at (set disk path (Node.file bytes)) o ≡ bytes_at disk o) same
              (bytes_at-set disk path other (Node.file bytes) ∙ rw miss refl)))
    ]
  ]

  -- Where a put returns, it has written the file at the key's path below the root, which is what is
  -- read back under the key, and under each other key what was before is read, unless it has the same
  -- path. Where it raises, what is read under any key is what was before.
  abbrev pub Writes : String → String → A → Disk A → Put A → Type ℓ
  Writes root key bytes from (Put.stored locator to) =
      ((path : List String) × (path_for key ≡ some path)
        × All IsName path
        × (locator ≡ joined locator_prefix (path_text root path))
        × ((other : String)
            → (path_for other ≡ some path) ⊎ (get_blob other to ≡ get_blob other from)))
      × (get_blob key to ≡ Got.found bytes)
  Writes root key bytes from (Put.unsafe_key to) = (path_for key ≡ none) × (to ≡ from)
  Writes root key bytes from (Put.os_error to) =
      (other : String) → get_blob other to ≡ get_blob other from

  written-Writes :
      (root key : String) (bytes : A) (from made : Disk A) (path : List String)
      → path_for key ≡ some path
      → ((other : String) → get_blob other made ≡ get_blob other from)
      → (written : Bool × Disk A) → IsWritten path bytes made written
      → Writes root key bytes from (elim written.0 [
        | false ↦ Put.os_error written.1
        | true ↦ Put.stored (joined locator_prefix (path_text root path)) written.1
      ])
  written-Writes root key bytes from made path p same (false, to) h =
      λ other. ap (get_blob other) h ∙ same other
  written-Writes root key bytes from made path p same (true, to) h = (
    (
      path,
      p,
      path_for-IsName key path p,
      refl,
      λ other. elim (written-other path bytes made other) [
        | inl here ↦ inl here
        | inr kept ↦ inr (ap (get_blob other) h ∙ kept ∙ same other)
      ],
    ),
    ap (get_blob key) h
        ∙ get_blob_lem key (set made path (Node.file bytes)) path p
        ∙ ap (got key) (bytes_at-set_self made path bytes),
  )

  -- Where a put returns, the file that it has written is at the key's path, whose parts are names, so
  -- that it is below the root, and its locator says so. It is what the key then reads; every other
  -- key reads what it read before, unless it has the same path. Where a put raises, every key reads
  -- what it read before, and for a key with no path nothing at all has changed.
  pub put_blob-Writes :
      (root key : String) (bytes : A) (disk : Disk A)
      → Writes root key bytes disk (put_blob root key bytes disk)
  unfolding put_blob
  put_blob-Writes root key bytes disk = elim (Option-cases (path_for key)) [
    | inl refused ↦ rw (refused, put_blob) (refused, refl)
    | inr (path, p) ↦
        let same : (other : String)
            → get_blob other (make_dirs (above [] path) disk).1 ≡ get_blob other disk =
          λ other.
            get_blob-bytes_at other disk _ (λ at q. make_dirs-bytes_at (above [] path) disk at) in
        elim (Bool-cases (make_dirs (above [] path) disk).0) [
          | inr blocked ↦ rw (p, blocked, put_blob) same
          | inl made ↦
              rw (p, made, put_blob)
                (written-Writes root key bytes disk (make_dirs (above [] path) disk).1 path p same
                  (write_bytes path bytes (make_dirs (above [] path) disk).1)
                  (write_bytes-IsWritten path bytes _))
        ]
  ]
