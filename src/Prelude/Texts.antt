-- ===== src/Prelude/Texts.antt =====
-- Sets of texts as lists in the order of insertion: what the sources do with `Set<string>`.
use Prim.Native.Nat.{suc, ◌≤◌}
use Prim.Native.String.{String}
use mathlib.Core.Path.{◌≡◌, refl}
use mathlib.Core.Bool.{Bool, true, false, ◌||◌}
use mathlib.Core.List.{List, [], ◌∷◌, ◌++◌}
use native.Mathlib.Omega.{arith}
use text.Mathlib.Text.{◌==◌ as str_eq}
use text.Mathlib.TextEquality.{eq_iff}
use text.Mathlib.TextPositions.{eq_refl}
use agent_metrics.Prelude.Tests.{if◌then◌else◌}
use agent_metrics.Prelude.Lists.{length, length-append}

infix 50 ◌=s◌
-- `a === b` on texts
abbrev pub ◌=s◌ : String → String → Bool
a =s b = str_eq a b

pub eq_of_=s : (a b : String) → (a =s b) ≡ true → a ≡ b
eq_of_=s a b = (eq_iff a b).0

pub =s_of_eq : (a b : String) → a ≡ b → (a =s b) ≡ true
=s_of_eq a b = (eq_iff a b).1

pub =s_refl : (a : String) → (a =s a) ≡ true
=s_refl a = eq_refl a

-- `set.has(x)`
unfoldable pub contains : List String → String → Bool
contains [] x = false
contains (y ∷ ys) x = (y =s x) || contains ys x

-- `set.add(x)`
unfoldable pub add : List String → String → List String
add xs x = if contains xs x then xs else xs ++ x ∷ []

-- `set.delete(x)`
unfoldable pub delete : List String → String → List String
delete [] x = []
delete (y ∷ ys) x = if y =s x then delete ys x else y ∷ delete ys x

pub contains-append :
    (xs ys : List String) (x : String) → contains (xs ++ ys) x ≡ (contains xs x || contains ys x)
unfolding contains
contains-append [] ys x = refl
contains-append (y ∷ xs) ys x = ground (arith, contains-append xs ys x)

pub contains-add :
    (xs : List String) (x y : String) → contains (add xs x) y ≡ ((x =s y) || contains xs y)
unfolding add contains
contains-add xs x y = ground (arith, contains-append xs (x ∷ []) y, eq_iff x y)

pub contains-delete :
    (xs : List String) (x y : String)
    → contains (delete xs x) y ≡ (if x =s y then false else contains xs y)
unfolding delete contains
contains-delete [] x y = ground arith
contains-delete (z ∷ xs) x y =
    ground (arith, contains-delete xs x y, eq_iff z x, eq_iff x y, eq_iff z y)

pub length-add-le : (xs : List String) (x : String) → length (add xs x) ≤ suc (length xs)
unfolding add
length-add-le xs x = ground (arith, length-append xs (x ∷ []))

pub length-delete-le : (xs : List String) (x : String) → length (delete xs x) ≤ length xs
unfolding delete
length-delete-le [] x = omega arith
length-delete-le (y ∷ xs) x = ground (arith, length-delete-le xs x)

-- No text stands twice in the list.
abbrev pub IsNodup : List String → Type 0
IsNodup [] = Unit {0}
IsNodup (x ∷ xs) = (contains xs x ≡ false) × IsNodup xs

pub IsNodup-snoc :
    (xs : List String) (x : String) → IsNodup xs → contains xs x ≡ false → IsNodup (xs ++ x ∷ [])
unfolding contains
IsNodup-snoc [] x n h = (refl, tt)
IsNodup-snoc (y ∷ xs) x n h = (
  ground (arith, contains-append xs (x ∷ []) y, eq_iff x y, eq_iff y x),
  IsNodup-snoc xs x n.1 (ground arith),
)
