-- ===== src/Connect/Interleave.antt =====
-- `_interleave_addrinfos` of aiofastnet/api_create_connection.py.
use aiofastnet.Base.{
  ℕ, zero, suc, ◌+◌, ◌-◌, ltb, Option, none, some, List, [], ◌∷◌, ◌++◌, take, drop, length, ◌==◌,
  if◌then◌else◌,
}

pub record AddrInfo : Type 0 where
  pub family : ℕ
  pub sock_type : ℕ
  pub proto : ℕ
  pub address : ℕ

-- `addrinfos_by_family[family].append(addr)`, in an ordered dictionary without the keys: a group
-- is never empty, and its first address tells the family.
unfoldable pub add_to_group :
    AddrInfo → List (AddrInfo × List AddrInfo) → List (AddrInfo × List AddrInfo)
add_to_group a [] = (a, []) ∷ []
add_to_group a ((b, bs) ∷ groups) =
    let rest = add_to_group a groups in
    if a.family == b.family then (b, bs ++ (a ∷ [])) ∷ groups else (b, bs) ∷ rest

unfoldable pub group_by_family :
    List AddrInfo → List (AddrInfo × List AddrInfo) → List (AddrInfo × List AddrInfo)
unfolding add_to_group
group_by_family [] groups = groups
group_by_family (a ∷ infos) groups = group_by_family infos (add_to_group a groups)

-- `list(addrinfos_by_family.values())`
abbrev pub values : List (AddrInfo × List AddrInfo) → List (List AddrInfo)
values [] = []
values ((a, rest) ∷ groups) = (a ∷ rest) ∷ values groups

-- One tuple of `zip_longest` without its fillers, and what is left of the lists.
abbrev pub heads : List (List AddrInfo) → List AddrInfo
heads [] = []
heads ([] ∷ ls) = heads ls
heads ((a ∷ l) ∷ ls) = a ∷ heads ls

abbrev pub tails : List (List AddrInfo) → List (List AddrInfo)
tails [] = []
tails ([] ∷ ls) = [] ∷ tails ls
tails ((a ∷ l) ∷ ls) = l ∷ tails ls

-- The addresses of all lists; there are no more tuples than that.
abbrev pub size : List (List AddrInfo) → ℕ
size [] = 0
size (l ∷ ls) = length l + size ls

unfoldable pub zip_rounds : ℕ → List (List AddrInfo) → List AddrInfo
zip_rounds zero ls = []
zip_rounds (suc n) ls = heads ls ++ zip_rounds n (tails ls)

abbrev pub zip_longest : List (List AddrInfo) → List AddrInfo
zip_longest ls = zip_rounds (size ls) ls

-- `reordered`, or `IndexError` for `addrinfos_lists[0]` of no lists
unfoldable pub reorder : ℕ → List (List AddrInfo) → Option (List AddrInfo)
unfolding zip_rounds
reorder count [] = if ltb 1 count then none else some []
reorder count (l ∷ ls) =
    if ltb 1 count
    then some (take (count - 1) l ++ zip_longest (drop (count - 1) l ∷ ls))
    else some (zip_longest (l ∷ ls))

unfoldable pub interleave_addrinfos : List AddrInfo → ℕ → Option (List AddrInfo)
unfolding group_by_family reorder
interleave_addrinfos infos count = reorder count (values (group_by_family infos []))
