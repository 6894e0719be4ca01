-- ===== src/Usage/Files.antt =====
-- The files that the edits name are counted once each.
use agent_metrics.Prelude.{
  ℕ, ◌+◌, ◌≡◌, refl, String, Bool, false, ◌||◌, List, [], ◌∷◌, arith, if_cases, ap, length, sum_by,
}
use agent_metrics.Prelude.Texts.{contains, add, contains-add, IsNodup, IsNodup-snoc}
use agent_metrics.Usage.Overview.{
  CodeEditRow, OverviewInput, add_all, deduped_files, fallback_count, affected_file_count,
  build_overview_metrics,
}

-- Some edit names the file.
abbrev pub is_named : List CodeEditRow → String → Bool
is_named [] path = false
is_named (row ∷ rows) path = contains row.files_changed path || is_named rows path

add-IsNodup : (xs : List String) (x : String) → IsNodup xs → IsNodup (add xs x)
unfolding add
add-IsNodup xs x n = if_cases IsNodup (contains xs x) (λ there. n) (λ new. IsNodup-snoc xs x n new)

add_all-IsNodup : (seen paths : List String) → IsNodup seen → IsNodup (add_all seen paths)
unfolding add_all
add_all-IsNodup seen [] n = n
add_all-IsNodup seen (path ∷ paths) n =
    add_all-IsNodup (add seen path) paths (add-IsNodup seen path n)

contains-add_all :
    (seen paths : List String) (x : String)
    → contains (add_all seen paths) x ≡ (contains seen x || contains paths x)
unfolding add_all contains
contains-add_all seen [] x = ground arith
contains-add_all seen (path ∷ paths) x =
    ground (arith, contains-add_all (add seen path) paths x, contains-add seen path x)

deduped-IsNodup :
    (seen : List String) (rows : List CodeEditRow)
    → IsNodup seen
    → IsNodup (deduped_files seen rows)
unfolding deduped_files
deduped-IsNodup seen [] n = n
deduped-IsNodup seen (row ∷ rows) n =
    deduped-IsNodup (add_all seen row.files_changed) rows (add_all-IsNodup seen row.files_changed n)

contains-deduped :
    (seen : List String) (rows : List CodeEditRow) (x : String)
    → contains (deduped_files seen rows) x ≡ (contains seen x || is_named rows x)
unfolding deduped_files
contains-deduped seen [] x = ground arith
contains-deduped seen (row ∷ rows) x = ground (
  arith,
  contains-deduped (add_all seen row.files_changed) rows x,
  contains-add_all seen row.files_changed x,
)

-- The numbers of the edits that name no file.
abbrev pub unnamed_files : List CodeEditRow → ℕ
unnamed_files [] = 0
unnamed_files (row ∷ rows) = elim row.files_changed [
  | [] ↦ row.file_count + unnamed_files rows
  | path ∷ paths ↦ unnamed_files rows
]

fallback_count-sum : (rows : List CodeEditRow) → sum_by fallback_count rows ≡ unnamed_files rows
fallback_count-sum [] = refl
fallback_count-sum (row ∷ rows) = ground (arith, fallback_count-sum rows)

-- The number of affected files in an overview is the number of the files that some edit names, each
-- of them counted once, with the own numbers of the edits that name none.
pub files_counted_once :
    (input : OverviewInput)
    → (paths : List String) × IsNodup paths
      × ((path : String) → contains paths path ≡ is_named input.code_edits path)
      × ((build_overview_metrics input).affected_file_count
          ≡ length paths + unnamed_files input.code_edits)
unfolding contains build_overview_metrics affected_file_count
files_counted_once input = (
  deduped_files [] input.code_edits,
  deduped-IsNodup [] input.code_edits tt,
  λ path. contains-deduped [] input.code_edits path,
  ap (◌+◌ (length (deduped_files [] input.code_edits))) (fallback_count-sum input.code_edits),
)
