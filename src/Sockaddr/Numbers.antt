-- ===== src/Sockaddr/Numbers.antt =====
-- The numbers of an address and their conversion to a C long (aiofastnet/utils.pyx).
use aiofastnet.Base.{
  ℕ, ◌≡◌, ◌≤◌, ◌<◌, refl, Bool, true, false, Option, none, some, ltb, leb, if-cases, if◌then◌else◌,
  arith,
}
use aiofastnet.Sockaddr.{
  Item, text, unencodable, something, number, negative, Long, long, below_zero, long_of, long_max,
}

-- The value of an element that is a number up to a bound.
unfoldable pub up_to : ℕ → Item → Option ℕ
up_to m (number n) = if leb n m then some n else none
up_to m _ = none

-- How the conversion of an element to a long compares with its value.
pub data Reads (m : ℕ) : Option Long → Option ℕ → Type 0 where
  raises : Reads m none none
  is_negative : Reads m (some below_zero) none
  too_large : (n : ℕ) → m < n → n ≤ long_max → Reads m (some (long n)) none
  fits : (n : ℕ) → n ≤ m → Reads m (some (long n)) (some n)

long_of-number :
    (m n : ℕ) (b c : Bool)
    → ltb long_max n ≡ b
    → leb n m ≡ c
    → m ≤ long_max
    → Reads m (if b then none else some (long n)) (if c then some n else none)
long_of-number m n true true e f h = absurd (ground arith)
long_of-number m n true false e f h = raises
long_of-number m n false true e f h = fits n (ground arith)
long_of-number m n false false e f h = too_large n (ground arith) (ground arith)

pub long_of-Reads : (m : ℕ) (i : Item) → m ≤ long_max → Reads m (long_of i) (up_to m i)
unfolding long_of up_to
long_of-Reads m (text t) h = raises
long_of-Reads m unencodable h = raises
long_of-Reads m something h = raises
long_of-Reads m (number n) h = long_of-number m n _ _ refl refl h
long_of-Reads m (negative n) h =
    if-cases (λ l. Reads m l none) (ltb long_max n) none (some below_zero) (λ _. raises)
      (λ _. is_negative)
