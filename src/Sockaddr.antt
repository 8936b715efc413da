-- ===== src/Sockaddr.antt =====
-- Addresses of Python and of the system: `aiofn_pyaddr_to_sockaddr` and
-- `aiofn_sockaddr_to_pyaddr` with the helpers that fill a `sockaddr` (aiofastnet/utils.pyx).
-- `inet_pton` and `inet_ntop` are parameters. A text is its encoded bytes, and `long` has 64 bits.
pub mod Paths
pub mod Numbers
pub mod Meaning
use aiofastnet.Base.{
  ℕ, zero, suc, ◌+◌, ◌-◌, Bool, true, false, not, ◌&&◌, ◌||◌, Option, none, some, List, [], ◌∷◌,
  ◌++◌, take, length, ltb, ◌==◌, if◌then◌else◌,
}
use Prim.Native.Nat.{◌%◌}

pub data Family : Type 0 where
  af_unix af_inet af_inet6 af_other : Family

-- An element of an address tuple: a text, one that has no encoding, something else, a number, or
-- a negative one: `negative n` is -(n + 1).
pub data Item : Type 0 where
  text : List ℕ → Item
  unencodable something : Item
  number negative : ℕ → Item

pub data PyAddr : Type 0 where
  unencodable_addr other_addr : PyAddr
  str_addr bytes_addr : List ℕ → PyAddr
  tuple_addr : List Item → PyAddr

-- `sockaddr_in`, `sockaddr_in6` and `sockaddr_un`, the last with the length of its path.
pub data Sockaddr : Type 0 where
  sockaddr_in : ℕ → ℕ → Sockaddr
  sockaddr_in6 : ℕ → ℕ → ℕ → ℕ → Sockaddr
  sockaddr_un : List ℕ → ℕ → Sockaddr

pub data Exc : Type 0 where
  type_error value_error dns_lookup_required : Exc

pub data Filled : Type 0 where
  filled : Sockaddr → Filled
  refused : Exc → Filled

-- The room for a path in a `sockaddr_un`.
abbrev pub max_path : ℕ
max_path = 108

abbrev pub long_max : ℕ
long_max = 9223372036854775807

unfoldable pub has_zero : List ℕ → Bool
has_zero [] = false
has_zero (zero ∷ xs) = true
has_zero (suc x ∷ xs) = has_zero xs

unfoldable pub zeros : ℕ → List ℕ
zeros zero = []
zeros (suc n) = 0 ∷ zeros n

-- The bytes that `aiofn_strnlen` counts, and those of a C string.
unfoldable pub until_zero : List ℕ → List ℕ
until_zero [] = []
until_zero (zero ∷ xs) = []
until_zero (suc x ∷ xs) = suc x ∷ until_zero xs

-- A path that names a file, and not an abstract socket.
unfoldable pub is_named : List ℕ → Bool
is_named [] = false
is_named (zero ∷ path) = false
is_named (suc x ∷ path) = true

-- `aiofn_set_unix_sockaddr`
unfoldable pub set_unix_sockaddr : List ℕ → Filled
set_unix_sockaddr path =
    if ltb max_path (length path) || (is_named path && ((length path == max_path) || has_zero path))
    then refused value_error
    else filled (
        sockaddr_un (path ++ zeros (max_path - length path))
          (if is_named path then length path + 1 else length path))

-- A C long.
pub data Long : Type 0 where
  long : ℕ → Long
  below_zero : Long

-- The conversion of an element to a long, which raises for one that is too large or no number.
unfoldable pub long_of : Item → Option Long
long_of (number n) = if ltb long_max n then none else some (long n)
long_of (negative n) = if ltb long_max n then none else some below_zero
long_of _ = none

module _ (pton4 pton6 : List ℕ → Option ℕ) where
  -- `aiofn_set_ipv4_sockaddr` and `aiofn_set_ipv6_sockaddr`, with what -1 comes to.
  unfoldable pub set_ipv4_sockaddr : Option ℕ → ℕ → Filled
  set_ipv4_sockaddr none port = refused dns_lookup_required
  set_ipv4_sockaddr (some a) port = filled (sockaddr_in a (port % 65536))

  unfoldable pub set_ipv6_sockaddr : Option ℕ → ℕ → ℕ → ℕ → Filled
  set_ipv6_sockaddr none port flowinfo scope_id = refused dns_lookup_required
  set_ipv6_sockaddr (some a) port flowinfo scope_id =
      filled (sockaddr_in6 a (port % 65536) (flowinfo % 4294967296) (scope_id % 4294967296))

  unfoldable pub set_sockaddr : Family → List ℕ → ℕ → ℕ → ℕ → Filled
  set_sockaddr af_inet host port flowinfo scope_id =
      set_ipv4_sockaddr (pton4 (until_zero host)) port
  set_sockaddr _ host port flowinfo scope_id =
      set_ipv6_sockaddr (pton6 (until_zero host)) port flowinfo scope_id

  unfoldable pub in_range : Family → List ℕ → Long → Long → Long → Filled
  in_range f host (long port) (long flowinfo) (long scope_id) =
      if ltb 65535 port then refused value_error else set_sockaddr f host port flowinfo scope_id
  in_range f host _ _ _ = refused value_error

  unfoldable pub with_numbers : Family → List ℕ → Option Long → Option Long → Option Long → Filled
  with_numbers f host (some port) (some flowinfo) (some scope_id) =
      in_range f host port flowinfo scope_id
  with_numbers f host _ _ _ = refused value_error

  -- The tuple has two elements or four here.
  unfoldable pub with_host : Family → List Item → Filled
  with_host f (text host ∷ port ∷ []) =
      with_numbers f host (long_of port) (some (long 0)) (some (long 0))
  with_host f (text host ∷ port ∷ flowinfo ∷ scope_id ∷ []) =
      with_numbers f host (long_of port) (long_of flowinfo) (long_of scope_id)
  with_host f _ = refused value_error

  -- The sizes that a family takes.
  unfoldable pub is_size : Family → ℕ → Bool
  is_size af_inet n = n == 2
  is_size af_inet6 n = (n == 2) || (n == 4)
  is_size _ n = false

  -- `aiofn_pyaddr_to_sockaddr`
  unfoldable pub pyaddr_to_sockaddr : Family → PyAddr → Filled
  pyaddr_to_sockaddr af_unix (str_addr path) = set_unix_sockaddr path
  pyaddr_to_sockaddr af_unix (bytes_addr path) = set_unix_sockaddr path
  pyaddr_to_sockaddr af_unix unencodable_addr = refused value_error
  pyaddr_to_sockaddr af_unix _ = refused type_error
  pyaddr_to_sockaddr f (tuple_addr items) =
      if is_size f (length items) then with_host f items else refused value_error
  pyaddr_to_sockaddr f _ = refused type_error

unfoldable pub unix_path : ℕ → List ℕ → PyAddr
unix_path zero path = str_addr []
unix_path (suc n) path =
    if is_named path
    then str_addr (until_zero (take (suc n) path))
    else bytes_addr (take (suc n) path)

-- What `Py_BuildValue` makes of a number of 32 bits that it takes for an int.
unfoldable pub signed : ℕ → Item
signed n = if ltb n 2147483648 then number n else negative (4294967295 - n)

module _ (ntop4 ntop6 : ℕ → List ℕ) where
  -- `aiofn_sockaddr_to_pyaddr`
  unfoldable pub sockaddr_to_pyaddr : Sockaddr → PyAddr
  sockaddr_to_pyaddr (sockaddr_in a port) = tuple_addr (text (ntop4 a) ∷ number port ∷ [])
  sockaddr_to_pyaddr (sockaddr_in6 a port flowinfo scope_id) =
      tuple_addr (text (ntop6 a) ∷ number port ∷ signed flowinfo ∷ signed scope_id ∷ [])
  sockaddr_to_pyaddr (sockaddr_un path n) = unix_path n path
