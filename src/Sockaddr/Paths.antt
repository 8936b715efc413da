-- ===== src/Sockaddr/Paths.antt =====
-- The paths of unix addresses: which the system keeps, and how they read back
-- (aiofastnet/utils.pyx).
use aiofastnet.Base.{
  ℕ, zero, suc, ◌≡◌, refl, ap, ◌∙◌, Bool, true, false, not, ◌&&◌, ◌||◌, List, [], ◌∷◌, ◌++◌, length,
  ltb, leb, ◌==◌, ◌+◌, ◌-◌, arith, take-length_add,
}
use aiofastnet.Sockaddr.{
  PyAddr, str_addr, bytes_addr, has_zero, zeros, is_named, until_zero, unix_path,
}

-- A path that the system keeps, and how it reads back.
unfoldable pub is_path : List ℕ → Bool
is_path [] = true
is_path (zero ∷ path) = leb (length path) 107
is_path (suc x ∷ path) = not (has_zero path) && leb (length path) 106

unfoldable pub reads_path : List ℕ → PyAddr
reads_path [] = str_addr []
reads_path (zero ∷ path) = bytes_addr (0 ∷ path)
reads_path (suc x ∷ path) = str_addr (suc x ∷ path)

pub until_zero-append :
    (path rest : List ℕ) → has_zero path ≡ false → until_zero (path ++ 0 ∷ rest) ≡ path
unfolding until_zero has_zero
until_zero-append [] rest h = refl
until_zero-append (zero ∷ path) rest h = cc
until_zero-append (suc x ∷ path) rest h = ap (λ q. suc x ∷ q) (until_zero-append path rest h)

pub abstract_fits : (n : ℕ) → ltb 108 (suc n) || false ≡ not (leb n 107)
abstract_fits n = ground arith

pub named_fits :
    (z : Bool) (n : ℕ) → ltb 108 (suc n) || ((suc n == 108) || z) ≡ not (not z && leb n 106)
named_fits true n = ground arith
named_fits false n = ground arith

pub both : (z b : Bool) → not z && b ≡ true → (z ≡ false) × (b ≡ true)
both true b h = cc
both false b h = (refl, h)

pub zeros_first : (n : ℕ) → leb n 106 ≡ true → zeros (108 - suc n) ≡ 0 ∷ zeros (106 - n)
unfolding zeros
zeros_first n h = let e : 108 - suc n ≡ suc (106 - n) = ground arith in ap zeros e

pub named_reads :
    (x : ℕ) (path zs : List ℕ) (k : ℕ)
    → k ≡ suc (length path + 1)
    → has_zero path ≡ false
    → (more : ℕ) → zs ≡ 0 ∷ zeros more
    → unix_path k (suc x ∷ (path ++ zs)) ≡ str_addr (suc x ∷ path)
unfolding unix_path is_named until_zero
named_reads x path zs k e h more z =
    ap (λ i. unix_path i (suc x ∷ (path ++ zs))) e
    ∙ ap (λ q. unix_path (suc (length path + 1)) (suc x ∷ (path ++ q))) z
    ∙ ap (λ q. str_addr (suc x ∷ until_zero q)) (take-length_add path (0 ∷ zeros more) 1)
    ∙ ap (λ q. str_addr (suc x ∷ q)) (until_zero-append path [] h)
