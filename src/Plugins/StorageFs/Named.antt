-- ===== src/Plugins/StorageFs/Named.antt =====
-- The parts of a blob's path.
use Prim.Native.Char.{code}
use infra_replay.Common.{
  String, ◌≡◌, ◌≢◌, refl, sym, subst, arith, Bool, false, not, none, some, List, [], ◌∷◌, ◌==◌,
  ◌&&◌, ◌||◌, nat_eq, string_eq, list_eq, contains, select, All, Bool-cases, inl, inr,
}
use mathlib.Core.Option.{none-ne-some, some-injective}
use infra_replay.Common.Text.{codes, has_char, split, lstrip, rstrip, starts_with}
use infra_replay.Plugins.StorageFs.{parts, path_for}

-- A part that is a name in the directory it stands in.
abbrev pub IsName : String → Type 0
IsName part = (part ≢ "") × (part ≢ ".") × (part ≢ "..") × (has_char b'/' part ≡ false)

abbrev IsText : String → Type 0
IsText part = has_char b'/' part ≡ false

split-IsText : (s : String) → IsText (split b'/' s).0 × All IsText (split b'/' s).1
unfolding split
split-IsText String.[] = (refl, tt)
split-IsText (String.◌∷◌ c s) = elim (Bool-cases (code c == b'/')) [
  | inl cut ↦ rw (cut, split) (refl, split-IsText s)
  | inr kept ↦ rw (kept, split) (rw (kept, has_char) (split-IsText s).0, (split-IsText s).1)
]

abbrev is_part : String → Bool
is_part p = not (p == "") && not (p == ".")

apart : (s t : String) → (s == t) ≡ false → s ≢ t
apart s t miss same = ground (arith, miss, string_eq.beq_iff s t, same)

select-IsName :
    (texts : List String)
    → All IsText texts
    → contains (select is_part texts) ".." ≡ false
    → All IsName (select is_part texts)
select-IsName [] h none_up = tt
select-IsName (p ∷ texts) h none_up = elim (Bool-cases (is_part p)) [
  | inr dropped ↦ rw dropped (select-IsName texts h.1 (rw dropped at none_up))
  | inl kept ↦
      let both : ((".." == p) || contains (select is_part texts) "..") ≡ false =
        rw kept at none_up in
      rw kept (
        (
          apart p "" (ground (arith, kept)),
          apart p "." (ground (arith, kept)),
          λ up. apart ".." p (ground (arith, both)) (sym up),
          h.0,
        ),
        select-IsName texts h.1 (ground (arith, both)),
      )
]

-- The parts of a path that is allowed are names.
pub path_for-IsName :
    (key : String) (path : List String) → path_for key ≡ some path → All IsName path
unfolding path_for
path_for-IsName key path p =
    let safe = rstrip b'/' (lstrip b'/' key) in
    elim (Bool-cases (starts_with (codes safe) (codes "/") || contains (parts safe) "..")) [
      | inl refused ↦
          let broken : none ≡ some path = rw (refused, path_for) at p in
          absurd (none-ne-some _ broken)
      | inr allowed ↦
          let same : some (parts safe) ≡ some path = rw (allowed, path_for) at p in
          subst (All IsName) (some-injective _ _ same) (
            select-IsName ((split b'/' safe).0 ∷ (split b'/' safe).1) (split-IsText safe)
              (ground (arith, allowed)))
    ]
