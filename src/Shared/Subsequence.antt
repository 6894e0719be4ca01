-- ===== src/Shared/Subsequence.antt =====
-- Common subsequences of two lists of lines, and the recursive length of the longest one.
use agent_metrics.Prelude.{
  ℕ, ◌+◌, max, ◌≤◌, ◌≡◌, refl, sym, ◌⊎◌, inl, inr, String, List, [], ◌∷◌, arith, ◌∙◌, if◌then◌else◌,
  length, Bool-cases, leb,
}
use agent_metrics.Prelude.Texts.{◌=s◌, eq_of_=s, =s_of_eq}

-- The first list is what is left of the second one when some of its lines are struck out.
abbrev pub IsSubsequence : List String → List String → Type 0
IsSubsequence [] ys = Unit {0}
IsSubsequence (z ∷ zs) [] = ⊥
IsSubsequence (z ∷ zs) (y ∷ ys) = ((z ≡ y) × IsSubsequence zs ys) ⊎ IsSubsequence (z ∷ zs) ys

pub weaken : (zs ys : List String) (y : String) → IsSubsequence zs ys → IsSubsequence zs (y ∷ ys)
weaken [] ys y s = tt
weaken (z ∷ zs) ys y s = inr s

drop_first : (z : String) (zs ys : List String) → IsSubsequence (z ∷ zs) ys → IsSubsequence zs ys
drop_first z zs [] s = absurd s
drop_first z zs (y ∷ ys) (inl (e, s)) = weaken zs ys y s
drop_first z zs (y ∷ ys) (inr s) = weaken zs ys y (drop_first z zs ys s)

drop_both :
    (z y : String) (zs ys : List String) → IsSubsequence (z ∷ zs) (y ∷ ys) → IsSubsequence zs ys
drop_both z y zs ys (inl (e, s)) = s
drop_both z y zs ys (inr s) = drop_first z zs ys s

pub length-IsSubsequence : (zs ys : List String) → IsSubsequence zs ys → length zs ≤ length ys
length-IsSubsequence [] ys s = omega arith
length-IsSubsequence (z ∷ zs) [] s = absurd s
length-IsSubsequence (z ∷ zs) (y ∷ ys) s =
    omega (arith, length-IsSubsequence zs ys (drop_both z y zs ys s))

-- The length of the longest common subsequence, compared from the first lines on.
unfoldable pub lcs_with : String → (List String → ℕ) → List String → ℕ
lcs_with x shorter [] = 0
lcs_with x shorter (y ∷ ys) =
    if x =s y then shorter ys + 1 else max (shorter (y ∷ ys)) (lcs_with x shorter ys)

unfoldable pub lcs : List String → List String → ℕ
unfolding lcs_with
lcs [] ys = 0
lcs (x ∷ xs) ys = lcs_with x (lcs xs) ys

-- No common subsequence is longer.
pub lcs-longest :
    (xs ys zs : List String) → IsSubsequence zs xs → IsSubsequence zs ys → length zs ≤ lcs xs ys
unfolding lcs
lcs-longest xs ys [] s t = omega arith
lcs-longest [] ys (z ∷ zs) s t = absurd s
lcs-longest (x ∷ xs) [] (z ∷ zs) s t = absurd t
lcs-longest (x ∷ xs) (y ∷ ys) (z ∷ zs) s t = elim (Bool-cases (x =s y)) [
  | inl same ↦ ground (arith, lcs-longest xs ys zs (drop_both z x zs xs s) (drop_both z y zs ys t))
  | inr differ ↦ elim s [
    | inr s' ↦ ground (arith, lcs-longest xs (y ∷ ys) (z ∷ zs) s' t)
    | inl (e, s') ↦ elim t [
      | inr t' ↦ ground (arith, lcs-longest (x ∷ xs) ys (z ∷ zs) (inl (e, s')) t')
      | inl (f, t') ↦ absurd (ground (arith, =s_of_eq x y (sym e ∙ f)))
    ]
  ]
]

-- One of that length.
abbrev pub Longest : List String → List String → Type 0
Longest xs ys =
    (zs : List String) × IsSubsequence zs xs × IsSubsequence zs ys × (length zs ≡ lcs xs ys)

no_common : (xs : List String) → Longest xs []
unfolding lcs lcs_with
no_common [] = ([], tt, tt, refl)
no_common (x ∷ xs) = ([], tt, tt, refl)

pub longest : (xs ys : List String) → Longest xs ys
unfolding lcs
longest [] ys = ([], tt, tt, refl)
longest (x ∷ xs) [] = no_common (x ∷ xs)
longest (x ∷ xs) (y ∷ ys) =
    let (zs, in_xs, in_ys, long) = longest xs ys in
    let (vs, v_xs, v_ys, v_long) = longest xs (y ∷ ys) in
    let (ws, w_xs, w_ys, w_long) = longest (x ∷ xs) ys in
    elim (Bool-cases (x =s y)) [
      | inl same ↦ (x ∷ zs, inl (refl, in_xs), inl (eq_of_=s x y same, in_ys), ground arith)
      | inr differ ↦ elim (Bool-cases (leb (lcs (x ∷ xs) ys) (lcs xs (y ∷ ys)))) [
        | inl above ↦ (vs, weaken vs xs x v_xs, v_ys, ground arith)
        | inr left ↦ (ws, w_xs, weaken ws ys y w_ys, ground arith)
      ]
    ]
