-- ===== src/Shared/Diff.antt =====
-- packages/shared-utils/src/diff.ts: how many lines were inserted and deleted.
use Prim.Native.Char.{code}
use agent_metrics.Prelude.{
  ℕ, zero, suc, ◌+◌, ◌-◌, max, String, List, [], ◌∷◌, ◌==◌, if◌then◌else◌, length, get_elem?,
  or_else,
}
use agent_metrics.Prelude.Texts.{◌=s◌}

pub record DiffStats : Type 0 where
  pub insertions : ℕ
  pub deletions : ℕ

-- `text.split("\n")`
split_at_newlines : String → List String
split_at_newlines String.[] = "" ∷ []
split_at_newlines (String.◌∷◌ c s) =
    let rest = split_at_newlines s in
    if code c == 10
    then "" ∷ rest
    else elim rest [ [] ↦ String.◌∷◌ c String.[] ∷ [] | line ∷ lines ↦ String.◌∷◌ c line ∷ lines ]

-- `lines.pop()` where the last line is empty.
abbrev drop_last_blank : List String → List String
drop_last_blank [] = []
drop_last_blank (line ∷ lines) =
    let rest = drop_last_blank lines in
    elim lines [ [] ↦ if line =s "" then [] else line ∷ [] | _ ∷ _ ↦ line ∷ rest ]

unfoldable pub split_lines : String → List String
unfolding split_at_newlines
split_lines text = drop_last_blank (split_at_newlines text)

-- The inner loop of `longestCommonSubsequenceLength` from one column on: the line `x`, the lines
-- that are left, `previousRow` from the column before, split into its head and its tail, and the
-- entry of `currentRow` before.
unfoldable pub fill_row : String → List String → ℕ → List ℕ → ℕ → List ℕ
fill_row x [] diagonal above left = []
fill_row x (y ∷ ys) diagonal [] left = []
fill_row x (y ∷ ys) diagonal (up ∷ above) left =
    let here = if x =s y then diagonal + 1 else max up left in here ∷ fill_row x ys up above here

-- One round of the outer loop: the row that becomes `previousRow`.
unfoldable pub next_row : String → List String → List ℕ → List ℕ
next_row x ys [] = []
next_row x ys (first ∷ above) = 0 ∷ fill_row x ys first above 0

unfoldable pub all_rows : List String → List String → List ℕ → List ℕ
all_rows [] ys row = row
all_rows (x ∷ xs) ys row = all_rows xs ys (next_row x ys row)

-- `new Array(n).fill(0)`
abbrev pub zeros : ℕ → List ℕ
zeros zero = []
zeros (suc n) = 0 ∷ zeros n

unfoldable pub longest_common_subsequence_length : List String → List String → ℕ
longest_common_subsequence_length before after =
    or_else (get_elem? (all_rows before after (zeros (suc (length after)))) (length after)) 0

unfoldable pub diff_text_stats : String → String → DiffStats
diff_text_stats before after =
    let lcs_length = longest_common_subsequence_length (split_lines before) (split_lines after) in
    record {
      insertions = length (split_lines after) - lcs_length;
      deletions = length (split_lines before) - lcs_length;
    }
