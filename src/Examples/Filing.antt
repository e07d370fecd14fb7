-- ===== src/Examples/Filing.antt =====
-- Blobs put and got.
use infra_replay.Common.{ℕ, String, ◌≡◌, refl, List, [], ◌∷◌}
use infra_replay.Plugins.StorageFs.{Node, Disk, Put, Got, put_blob, get_blob}
use infra_replay.Plugins.StorageFs.Written.{Writes, put_blob-Writes}

-- A disk with one blob, and a file where a directory would have to be.
abbrev disk : Disk (List ℕ)
disk =
    ([], Node.directory)
    ∷ ("recordings" ∷ [], Node.directory)
    ∷ ("recordings" ∷ "r1.json" ∷ [], Node.file (1 ∷ []))
    ∷ []

abbrev key : String
key = "/recordings//./r2/snapshot.json/"

abbrev disk_after : Put (List ℕ) → Disk (List ℕ)
disk_after (Put.stored locator to) = to
disk_after (Put.unsafe_key to) = to
disk_after (Put.os_error to) = to

locator_of_key :
    put_blob "blobs" key (2 ∷ []) disk
    ≡ Put.stored "file://blobs/recordings/r2/snapshot.json"
        (disk_after (put_blob "blobs" key (2 ∷ []) disk))
unfolding put_blob
locator_of_key = refl

traversal_refused : put_blob "blobs" "a/../../etc" (2 ∷ []) disk ≡ Put.unsafe_key disk
unfolding put_blob
traversal_refused = refl

file_in_the_way : put_blob "blobs" "recordings/r1.json/x" (2 ∷ []) disk ≡ Put.os_error disk
unfolding put_blob
file_in_the_way = refl

read_back :
    (get_blob "recordings/r1.json" disk ≡ Got.found (1 ∷ []))
    × (get_blob "recordings" disk ≡ Got.key_error "recordings")
unfolding get_blob
read_back = (refl, refl)

put_blob-Writes_example : Writes "blobs" key (2 ∷ []) disk (put_blob "blobs" key (2 ∷ []) disk)
put_blob-Writes_example = put_blob-Writes "blobs" key (2 ∷ []) disk
