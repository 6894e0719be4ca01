-- ===== src/Shared/Minimal.antt =====
-- The two rows of the source compute the recursive length, and the statistics are those of a
-- shortest edit.
use agent_metrics.Prelude.{
  ℕ, suc, ◌+◌, ◌≤◌, ◌≡◌, refl, sym, inl, inr, String, List, [], ◌∷◌, arith, ◌∙◌, ap, subst, some,
  length, get_elem?, or_else,
}
use agent_metrics.Shared.Diff.{
  fill_row, next_row, all_rows, zeros, longest_common_subsequence_length, split_lines,
  diff_text_stats,
}
use agent_metrics.Shared.Subsequence.{
  IsSubsequence, weaken, length-IsSubsequence, lcs, lcs_with, lcs-longest, longest,
}

-- The lines read so far, the last one first.
abbrev pub stack : List String → List String → List String
stack [] seen = seen
stack (x ∷ xs) seen = stack xs (x ∷ seen)

-- A row, from the column after the lines `ys` on.
abbrev columns : List String → List String → List String → List ℕ
columns xs ys [] = []
columns xs ys (z ∷ zs) = lcs xs (z ∷ ys) ∷ columns xs (z ∷ ys) zs

fill_row-columns :
    (x : String) (xs ys zs : List String)
    → fill_row x zs (lcs xs ys) (columns xs ys zs) (lcs (x ∷ xs) ys) ≡ columns (x ∷ xs) ys zs
unfolding fill_row lcs lcs_with
fill_row-columns x xs ys [] = refl
fill_row-columns x xs ys (z ∷ zs) =
    ap (λ row. lcs (x ∷ xs) (z ∷ ys) ∷ row) (fill_row-columns x xs (z ∷ ys) zs)

lcs-nil : (xs : List String) → lcs xs [] ≡ 0
unfolding lcs lcs_with
lcs-nil [] = refl
lcs-nil (x ∷ xs) = refl

abbrev row_at : List String → List String → List ℕ
row_at xs zs = 0 ∷ columns xs [] zs

next_row-row_at :
    (x : String) (xs zs : List String) → next_row x zs (row_at xs zs) ≡ row_at (x ∷ xs) zs
unfolding next_row
next_row-row_at x xs zs =
    ap (λ row. 0 ∷ row)
      (ap (λ n. fill_row x zs n (columns xs [] zs) 0) (sym (lcs-nil xs))
        ∙ ap (fill_row x zs (lcs xs []) (columns xs [] zs)) (sym (lcs-nil (x ∷ xs)))
        ∙ fill_row-columns x xs [] zs)

all_rows-row_at : (ws xs zs : List String) → all_rows ws zs (row_at xs zs) ≡ row_at (stack ws xs) zs
unfolding all_rows
all_rows-row_at [] xs zs = refl
all_rows-row_at (x ∷ ws) xs zs =
    ap (all_rows ws zs) (next_row-row_at x xs zs) ∙ all_rows-row_at ws (x ∷ xs) zs

zeros-columns : (ys zs : List String) → zeros (length zs) ≡ columns [] ys zs
unfolding lcs
zeros-columns ys [] = refl
zeros-columns ys (z ∷ zs) = ap (λ row. 0 ∷ row) (zeros-columns (z ∷ ys) zs)

last_column :
    (xs ys zs : List String)
    → get_elem? (lcs xs ys ∷ columns xs ys zs) (length zs) ≡ some (lcs xs (stack zs ys))
last_column xs ys [] = refl
last_column xs ys (z ∷ zs) = last_column xs (z ∷ ys) zs

-- The source's table and the recursion agree.
rows-lcs :
    (before after : List String)
    → longest_common_subsequence_length before after ≡ lcs (stack before []) (stack after [])
unfolding longest_common_subsequence_length
rows-lcs before after =
    let xs = stack before [] in
    let start : zeros (suc (length after)) ≡ row_at [] after =
      ap (λ row. 0 ∷ row) (zeros-columns [] after) in
    let filled = ap (all_rows before after) start ∙ all_rows-row_at before [] after in
    let head = ap (λ n. n ∷ columns xs [] after) (sym (lcs-nil xs)) in
    ap (λ row. or_else (get_elem? row (length after)) 0) (filled ∙ head)
    ∙ ap (λ o. or_else o 0) (last_column xs [] after)

stack-IsSubsequence :
    (xs zs us bs : List String)
    → IsSubsequence zs xs
    → IsSubsequence us bs
    → IsSubsequence (stack zs us) (stack xs bs)
stack-IsSubsequence [] [] us bs s t = t
stack-IsSubsequence [] (z ∷ zs) us bs s t = absurd s
stack-IsSubsequence (x ∷ xs) [] us bs s t =
    stack-IsSubsequence xs [] us (x ∷ bs) tt (weaken us bs x t)
stack-IsSubsequence (x ∷ xs) (z ∷ zs) us bs (inl (e, s)) t =
    stack-IsSubsequence xs zs (z ∷ us) (x ∷ bs) s (inl (e, t))
stack-IsSubsequence (x ∷ xs) (z ∷ zs) us bs (inr s) t =
    stack-IsSubsequence xs (z ∷ zs) us (x ∷ bs) s (weaken us bs x t)

stack-stack : (xs ys : List String) → stack (stack xs ys) [] ≡ stack ys xs
stack-stack [] ys = refl
stack-stack (x ∷ xs) ys = stack-stack xs (x ∷ ys)

length-stack : (xs ys : List String) → length (stack xs ys) ≡ length xs + length ys
length-stack [] ys = omega arith
length-stack (x ∷ xs) ys = omega (arith, length-stack xs (x ∷ ys))

back : (zs xs : List String) → IsSubsequence zs (stack xs []) → IsSubsequence (stack zs []) xs
back zs xs s =
    subst (IsSubsequence (stack zs [])) (stack-stack xs [])
      (stack-IsSubsequence (stack xs []) zs [] [] s tt)

-- A common subsequence of that length which no other one exceeds.
abbrev pub IsLongest : List String → List String → ℕ → Type 0
IsLongest xs ys n =
    ((zs : List String) × IsSubsequence zs xs × IsSubsequence zs ys × (length zs ≡ n))
    × ((zs : List String) → IsSubsequence zs xs → IsSubsequence zs ys → length zs ≤ n)

-- The two rows give the length of a longest common subsequence of any two lists of lines: there is
-- one of that length, and none is longer.
pub longest_common_subsequence_length-IsLongest :
    (before after : List String)
    → IsLongest before after (longest_common_subsequence_length before after)
longest_common_subsequence_length-IsLongest before after =
    let (zs, s, t, long) = longest (stack before []) (stack after []) in
    subst (IsLongest before after) (sym (rows-lcs before after)) (
      (stack zs [], back zs before s, back zs after t, omega (arith, length-stack zs [], long)),
      λ vs u v.
          let upper =
            lcs-longest (stack before []) (stack after []) (stack vs [])
              (stack-IsSubsequence before vs [] [] u tt)
              (stack-IsSubsequence after vs [] [] v tt) in
          omega (arith, length-stack vs [], upper),
    )

-- The statistics of two texts count the lines beside some lines that the texts have in common in
-- this order: with these, the insertions are all the lines after, and the deletions all the lines
-- before. No lines that the texts have in common in order are more.
pub diff_is_minimal :
    (before after : String)
    → (kept : List String) × IsSubsequence kept (split_lines before)
      × IsSubsequence kept (split_lines after)
      × ((diff_text_stats before after).insertions + length kept ≡ length (split_lines after))
      × ((diff_text_stats before after).deletions + length kept ≡ length (split_lines before))
      × ((zs : List String)
          → IsSubsequence zs (split_lines before)
          → IsSubsequence zs (split_lines after)
          → length zs ≤ length kept)
unfolding diff_text_stats
diff_is_minimal before after =
    let (found, best) =
      longest_common_subsequence_length-IsLongest (split_lines before) (split_lines after) in
    let (kept, s, t, long) = found in
    let below = length-IsSubsequence kept (split_lines before) s in
    let above = length-IsSubsequence kept (split_lines after) t in
    (
      kept,
      s,
      t,
      omega (arith, long, above),
      omega (arith, long, below),
      λ zs u v. omega (arith, long, best zs u v),
    )
