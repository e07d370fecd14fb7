-- ===== src/Replay/Runner/Summary.antt =====
-- The summary of a comparison counts its rows.
use infra_replay.Common.{
  ℕ, suc, ◌+◌, ◌≡◌, refl, Bool, true, false, List, [], ◌∷◌, arith, length, select, if◌then◌else◌,
}
use infra_replay.Schema.Result.{ComparisonResult, ComparisonCategory}
use infra_replay.Replay.Runner.{Counts, no_counts, count, summarise}

abbrev pub count_of : ComparisonCategory → Counts → ℕ
count_of ComparisonCategory.match c = c.match
count_of ComparisonCategory.different c = c.different
count_of ComparisonCategory.missing c = c.missing
count_of ComparisonCategory.new c = c.new
count_of ComparisonCategory.error c = c.error

abbrev pub is_category : ComparisonCategory → ComparisonCategory → Bool
is_category ComparisonCategory.match ComparisonCategory.match = true
is_category ComparisonCategory.different ComparisonCategory.different = true
is_category ComparisonCategory.missing ComparisonCategory.missing = true
is_category ComparisonCategory.new ComparisonCategory.new = true
is_category ComparisonCategory.error ComparisonCategory.error = true
is_category a b = false

abbrev pub total : Counts → ℕ
total c = c.match + c.different + c.missing + c.new + c.error

count_of-count :
    (k d : ComparisonCategory) (c : Counts)
    → count_of k (count d c) ≡ (if is_category d k then 1 else 0) + count_of k c
count_of-count ComparisonCategory.match ComparisonCategory.match c = omega arith
count_of-count ComparisonCategory.match ComparisonCategory.different c = omega arith
count_of-count ComparisonCategory.match ComparisonCategory.missing c = omega arith
count_of-count ComparisonCategory.match ComparisonCategory.new c = omega arith
count_of-count ComparisonCategory.match ComparisonCategory.error c = omega arith
count_of-count ComparisonCategory.different ComparisonCategory.match c = omega arith
count_of-count ComparisonCategory.different ComparisonCategory.different c = omega arith
count_of-count ComparisonCategory.different ComparisonCategory.missing c = omega arith
count_of-count ComparisonCategory.different ComparisonCategory.new c = omega arith
count_of-count ComparisonCategory.different ComparisonCategory.error c = omega arith
count_of-count ComparisonCategory.missing ComparisonCategory.match c = omega arith
count_of-count ComparisonCategory.missing ComparisonCategory.different c = omega arith
count_of-count ComparisonCategory.missing ComparisonCategory.missing c = omega arith
count_of-count ComparisonCategory.missing ComparisonCategory.new c = omega arith
count_of-count ComparisonCategory.missing ComparisonCategory.error c = omega arith
count_of-count ComparisonCategory.new ComparisonCategory.match c = omega arith
count_of-count ComparisonCategory.new ComparisonCategory.different c = omega arith
count_of-count ComparisonCategory.new ComparisonCategory.missing c = omega arith
count_of-count ComparisonCategory.new ComparisonCategory.new c = omega arith
count_of-count ComparisonCategory.new ComparisonCategory.error c = omega arith
count_of-count ComparisonCategory.error ComparisonCategory.match c = omega arith
count_of-count ComparisonCategory.error ComparisonCategory.different c = omega arith
count_of-count ComparisonCategory.error ComparisonCategory.missing c = omega arith
count_of-count ComparisonCategory.error ComparisonCategory.new c = omega arith
count_of-count ComparisonCategory.error ComparisonCategory.error c = omega arith

total-count : (d : ComparisonCategory) (c : Counts) → total (count d c) ≡ suc (total c)
total-count ComparisonCategory.match c = omega arith
total-count ComparisonCategory.different c = omega arith
total-count ComparisonCategory.missing c = omega arith
total-count ComparisonCategory.new c = omega arith
total-count ComparisonCategory.error c = omega arith

count_of-summarise :
    (k : ComparisonCategory) (c : Counts) (results : List ComparisonResult)
    → count_of k (summarise c results)
      ≡ length (select (λ r. is_category r.category k) results) + count_of k c
unfolding summarise
count_of-summarise k c [] = omega arith
count_of-summarise k c (r ∷ results) =
    ground (arith, count_of-summarise k (count r.category c) results, count_of-count k r.category c)

total-summarise :
    (c : Counts) (results : List ComparisonResult)
    → total (summarise c results) ≡ length results + total c
unfolding summarise
total-summarise c [] = omega arith
total-summarise c (r ∷ results) =
    omega (arith, total-summarise (count r.category c) results, total-count r.category c)

count_of-no_counts : (k : ComparisonCategory) → count_of k no_counts ≡ 0
count_of-no_counts ComparisonCategory.match = refl
count_of-no_counts ComparisonCategory.different = refl
count_of-no_counts ComparisonCategory.missing = refl
count_of-no_counts ComparisonCategory.new = refl
count_of-no_counts ComparisonCategory.error = refl

-- Each count is the number of the rows of its category, and the counts add up to the number of the
-- rows.
abbrev pub Tallies : Counts → List ComparisonResult → Type 0
Tallies counts results =
    ((k : ComparisonCategory)
      → count_of k counts ≡ length (select (λ r. is_category r.category k) results))
    × (total counts ≡ length results)

pub summarise-Tallies :
    (results : List ComparisonResult) → Tallies (summarise no_counts results) results
summarise-Tallies results = (
  λ k. omega (arith, count_of-summarise k no_counts results, count_of-no_counts k),
  omega (arith, total-summarise no_counts results),
)
