-- ===== src/Connect/Order.antt =====
-- `_interleave_addrinfos` only reorders (aiofastnet/api_create_connection.py).
use aiofastnet.Base.{
  ℕ, zero, suc, ◌+◌, ◌-◌, ◌≤◌, ◌≡◌, refl, sym, ap, ◌∙◌, Bool, Option, none, some, List, [], ◌∷◌,
  ◌++◌, take, drop, length, take-append-drop, if◌then◌else◌, if-cases, ltb, ◌==◌, arith,
}
use aiofastnet.Connect.Interleave.{
  AddrInfo, add_to_group, group_by_family, values, heads, tails, size, zip_rounds, zip_longest,
  reorder, interleave_addrinfos,
}

-- How many addresses pass a test.
abbrev pub count : (AddrInfo → Bool) → List AddrInfo → ℕ
count p [] = 0
count p (a ∷ l) = (if p a then 1 else 0) + count p l

abbrev total : (AddrInfo → Bool) → List (List AddrInfo) → ℕ
total p [] = 0
total p (l ∷ ls) = count p l + total p ls

count-append :
    (p : AddrInfo → Bool) (xs ys : List AddrInfo) → count p (xs ++ ys) ≡ count p xs + count p ys
count-append p [] ys = omega arith
count-append p (x ∷ xs) ys = omega (arith, count-append p xs ys)

add_to_group-total :
    (p : AddrInfo → Bool) (a : AddrInfo) (g : List (AddrInfo × List AddrInfo))
    → total p (values (add_to_group a g)) ≡ count p (a ∷ []) + total p (values g)
unfolding add_to_group
add_to_group-total p a [] = omega arith
add_to_group-total p a ((b, bs) ∷ g) =
    if-cases (λ r. total p (values r) ≡ count p (a ∷ []) + total p (values ((b, bs) ∷ g)))
      (a.family == b.family) ((b, bs ++ (a ∷ [])) ∷ g) ((b, bs) ∷ add_to_group a g)
      (λ _. let e = count-append p bs (a ∷ []) in omega (arith, e))
      (λ _. let e = add_to_group-total p a g in omega (arith, e))

group_by_family-total :
    (p : AddrInfo → Bool) (infos : List AddrInfo) (g : List (AddrInfo × List AddrInfo))
    → total p (values (group_by_family infos g)) ≡ count p infos + total p (values g)
unfolding group_by_family
group_by_family-total p [] g = omega arith
group_by_family-total p (a ∷ infos) g =
    let e = group_by_family-total p infos (add_to_group a g) in
    let d = add_to_group-total p a g in omega (arith, e, d)

heads-tails-total :
    (p : AddrInfo → Bool) (ls : List (List AddrInfo))
    → count p (heads ls) + total p (tails ls) ≡ total p ls
heads-tails-total p [] = omega arith
heads-tails-total p ([] ∷ ls) = omega (arith, heads-tails-total p ls)
heads-tails-total p ((a ∷ l) ∷ ls) = omega (arith, heads-tails-total p ls)

-- A round takes an address of each list that has one left.
size-tails : (ls : List (List AddrInfo)) → size (tails ls) + length (heads ls) ≡ size ls
size-tails [] = omega arith
size-tails ([] ∷ ls) = omega (arith, size-tails ls)
size-tails ((a ∷ l) ∷ ls) = omega (arith, size-tails ls)

size_zero : (p : AddrInfo → Bool) (ls : List (List AddrInfo)) → size ls ≡ 0 → total p ls ≡ 0
size_zero p [] h = refl
size_zero p ([] ∷ ls) h = let e = size_zero p ls (omega (arith, h)) in omega (arith, e)
size_zero p ((a ∷ l) ∷ ls) h = ground (arith, h)

heads_some : (ls : List (List AddrInfo)) → length (heads ls) ≡ 0 → size ls ≡ 0
heads_some [] h = refl
heads_some ([] ∷ ls) h = let e = heads_some ls h in omega (arith, e)
heads_some ((a ∷ l) ∷ ls) h = ground (arith, h)

-- So many rounds as there are addresses are enough.
zip_rounds-total :
    (p : AddrInfo → Bool) (n : ℕ) (ls : List (List AddrInfo))
    → size ls ≤ n
    → count p (zip_rounds n ls) ≡ total p ls
unfolding zip_rounds
zip_rounds-total p zero ls h = sym (size_zero p ls (omega (arith, h)))
zip_rounds-total p (suc n) ls h =
    let e = zip_rounds-total p n (tails ls) (fewer (length (heads ls)) refl) in
    let d = heads-tails-total p ls in
    let c = count-append p (heads ls) (zip_rounds n (tails ls)) in omega (arith, e, d, c)
  where
    fewer : (k : ℕ) → length (heads ls) ≡ k → size (tails ls) ≤ n
    fewer zero e = let z = heads_some ls e in let t = size-tails ls in omega (arith, z, t)
    fewer (suc k) e = let t = size-tails ls in omega (arith, e, t, h)

abbrev pub Keeps : (AddrInfo → Bool) → List AddrInfo → Option (List AddrInfo) → Type 0
Keeps p infos none = count p infos ≡ 0
Keeps p infos (some order) = count p order ≡ count p infos

reorder-total :
    (p : AddrInfo → Bool) (n : ℕ) (infos : List AddrInfo) (ls : List (List AddrInfo))
    → total p ls ≡ count p infos
    → Keeps p infos (reorder n ls)
unfolding reorder
reorder-total p n infos [] h =
    if-cases (Keeps p infos) (ltb 1 n) none (some []) (λ _. sym h) (λ _. h)
reorder-total p n infos (l ∷ ls) h =
    if-cases (Keeps p infos) (ltb 1 n) (some (take (n - 1) l ++ zip_longest (drop (n - 1) l ∷ ls)))
      (some (zip_longest (l ∷ ls)))
      (λ _.
        let c = count-append p (take (n - 1) l) (zip_longest (drop (n - 1) l ∷ ls)) in
        let z =
          zip_rounds-total p (size (drop (n - 1) l ∷ ls)) (drop (n - 1) l ∷ ls) (omega arith) in
        let d =
          sym (count-append p (take (n - 1) l) (drop (n - 1) l))
          ∙ ap (count p) (take-append-drop (n - 1) l) in
        omega (arith, c, z, d, h))
      (λ _.
        let z = zip_rounds-total p (size (l ∷ ls)) (l ∷ ls) (omega arith) in omega (arith, z, h))

-- Whatever the count of addresses of the first family that go first, interleaving keeps every
-- address, each as often as it was there: as many pass any test before and after.
pub interleave_addrinfos-Keeps :
    (p : AddrInfo → Bool) (infos : List AddrInfo) (n : ℕ)
    → Keeps p infos (interleave_addrinfos infos n)
unfolding interleave_addrinfos
interleave_addrinfos-Keeps p infos n =
    let e = group_by_family-total p infos [] in
    reorder-total p n infos (values (group_by_family infos [])) (omega (arith, e))
