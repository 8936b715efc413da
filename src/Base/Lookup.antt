-- ===== src/Base/Lookup.antt =====
-- A Python set or WeakSet of objects named by numbers, as a list without repetition.
use Prim.Native.Nat.{ℕ}
use mathlib.Core.Path.{◌≡◌, refl}
use mathlib.Core.Logic.{◌≢◌}
use mathlib.Core.Bool.{Bool, true, false, ◌||◌}
use mathlib.Core.List.{List, [], ◌∷◌, ◌++◌}
use native.Mathlib.Omega.{arith}
use aiofastnet.Base.Tests.{◌==◌, if◌then◌else◌}

-- `x in s`
abbrev pub contains : ℕ → List ℕ → Bool
contains a [] = false
contains a (x ∷ xs) = a == x || contains a xs

-- `s.add(x)`
unfoldable pub add : ℕ → List ℕ → List ℕ
add a xs = if contains a xs then xs else a ∷ xs

-- `s.discard(x)`
unfoldable pub discard : ℕ → List ℕ → List ℕ
discard a [] = []
discard a (x ∷ xs) = let rest = discard a xs in if a == x then rest else x ∷ rest

pub discard_nil : (a : ℕ) → discard a [] ≡ []
unfolding discard
discard_nil a = refl

pub contains-discard_self : (a : ℕ) (xs : List ℕ) → contains a (discard a xs) ≡ false
unfolding discard
contains-discard_self a [] = refl
contains-discard_self a (x ∷ xs) = ground (arith, contains-discard_self a xs)

pub contains-discard_ne :
    (a b : ℕ) (xs : List ℕ) → a ≢ b → contains a (discard b xs) ≡ contains a xs
unfolding discard
contains-discard_ne a b [] h = refl
contains-discard_ne a b (x ∷ xs) h = ground (arith, contains-discard_ne a b xs h)

pub contains-add_self : (a : ℕ) (xs : List ℕ) → contains a (add a xs) ≡ true
unfolding add
contains-add_self a xs = ground arith

pub contains-add_ne : (a b : ℕ) (xs : List ℕ) → a ≢ b → contains a (add b xs) ≡ contains a xs
unfolding add
contains-add_ne a b xs h = ground arith

pub contains-append_left :
    (a : ℕ) (xs ys : List ℕ) → contains a xs ≡ true → contains a (xs ++ ys) ≡ true
contains-append_left a [] ys h = ground arith
contains-append_left a (x ∷ xs) ys h = ground (arith, contains-append_left a xs ys)

pub contains-append_right :
    (a : ℕ) (xs ys : List ℕ) → contains a ys ≡ true → contains a (xs ++ ys) ≡ true
contains-append_right a [] ys h = h
contains-append_right a (x ∷ xs) ys h = ground (arith, contains-append_right a xs ys h)
