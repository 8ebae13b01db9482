-- ===== src/PeerResearch/Statistics/Ranks.antt =====
-- The rank and the percentile of a value tell the same story.
use zhiniu.Prelude.{◌+◌, ◌*◌, ◌≤◌, ◌<◌, ◌≡◌, refl, List, [], ◌∷◌, ◌++◌, arith, length, count_by}
use zhiniu.Prelude.Int.{ℤ, ltb_ℤ}
use zhiniu.PeerResearch.Statistics.{equal_values, percentile_rank, numeric_rank_desc}

-- Every value is below, equal to or above the target.
count_split :
    (values : List ℤ) (target : ℤ)
    → count_by (λ item. ltb_ℤ item target) values
        + count_by (λ item. equal_values item target) values
        + count_by (λ item. ltb_ℤ target item) values
      ≡ length values
count_split [] target = refl
count_split (x ∷ xs) target = ground (arith, count_split xs target)

-- The percentile, in hundredths of the list, the places above the value, and half of its ties make
-- up the whole list.
pub percentile-rank_duality :
    (values : List ℤ) (target : ℤ)
    → let p = percentile_rank values target in
      let ties = count_by (λ item. equal_values item target) values in
      p.numerator + 200 * numeric_rank_desc values target + 100 * ties ≡ 100 * p.denominator + 200
unfolding percentile_rank numeric_rank_desc
percentile-rank_duality values target = omega (arith, count_split values target)

counts_itself :
    (values : List ℤ) (target : ℤ)
    → 1 ≤ count_by (λ item. equal_values item target) (values ++ target ∷ [])
counts_itself [] target = ground arith
counts_itself (x ∷ xs) target = omega (arith, counts_itself xs target)

-- A value that is compared with others and itself has a percentile strictly between 0 and 100, and
-- a rank between 1 and the number of the values.
pub percentile_rank_bounds :
    (values : List ℤ) (target : ℤ)
    → let all_values = values ++ target ∷ [] in
      let p = percentile_rank all_values target in
      (0 < p.numerator)
      × (p.numerator < 100 * p.denominator)
      × (1 ≤ numeric_rank_desc all_values target)
      × (numeric_rank_desc all_values target ≤ length all_values)
unfolding percentile_rank numeric_rank_desc
percentile_rank_bounds values target =
    omega (arith, count_split (values ++ target ∷ []) target, counts_itself values target)
