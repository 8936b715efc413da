-- ===== src/Resolve.antt =====
-- Addresses that need no name resolution: `_ipaddr_info` and `_ensure_resolved` of
-- aiofastnet/api_utils.py. What `inet_pton` accepts is a parameter; a host is named by a number and
-- by whether its text has a percent sign.
use aiofastnet.Base.{
  ℕ, ◌≡◌, refl, Bool, true, not, ◌&&◌, Option, none, some, List, [], ◌∷◌, ◌==◌, if◌then◌else◌,
  if-cases, contains, arith,
}

abbrev pub af_unspec : ℕ
af_unspec = 0

abbrev pub af_inet : ℕ
af_inet = 2

abbrev pub af_inet6 : ℕ
af_inet6 = 10

abbrev pub sock_stream : ℕ
sock_stream = 1

abbrev pub sock_dgram : ℕ
sock_dgram = 2

abbrev pub ipproto_tcp : ℕ
ipproto_tcp = 6

abbrev pub ipproto_udp : ℕ
ipproto_udp = 17

pub record Host : Type 0 where
  pub name : ℕ
  pub has_percent : Bool

pub data Port : Type 0 where
  no_port empty_port : Port
  -- what `int(port)` gives, if it does not raise
  port_value : Option ℕ → Port

pub record Info : Type 0 where
  pub family : ℕ
  pub sock_type : ℕ
  pub proto : ℕ
  pub host : ℕ
  pub port : ℕ
  -- flow info and scope, for IPv6
  pub scope : Option (ℕ × ℕ)

-- The protocol of a socket type.
abbrev pub proto_of : ℕ → Option ℕ
proto_of t =
    if t == sock_stream
    then some ipproto_tcp
    else if t == sock_dgram
    then some ipproto_udp
    else none

abbrev pub number_of : Port → Option ℕ
number_of no_port = some 0
number_of empty_port = some 0
number_of (port_value n) = n

-- `afs`
abbrev pub families : Bool → ℕ → List ℕ
families has_ipv6 family =
    if family == af_unspec
    then (if has_ipv6 then af_inet ∷ af_inet6 ∷ [] else af_inet ∷ [])
    else family ∷ []

abbrev pub info_of : Bool → ℕ → ℕ → ℕ → Host → ℕ → ℕ → ℕ → Info
info_of has_ipv6 af t proto host port flow scope_id = record {
  family = af;
  sock_type = t;
  proto = proto;
  host = host.name;
  port = port;
  scope = if has_ipv6 && af == af_inet6 then some (flow, scope_id) else none;
}

-- The loop over `afs`
unfoldable pub first_family :
    (ℕ → ℕ → Bool) → Bool → List ℕ → ℕ → ℕ → Host → ℕ → ℕ → ℕ → Option Info
first_family pton has_ipv6 [] t proto host port flow scope_id = none
first_family pton has_ipv6 (af ∷ afs) t proto host port flow scope_id =
    let rest = first_family pton has_ipv6 afs t proto host port flow scope_id in
    if pton af host.name then some (info_of has_ipv6 af t proto host port flow scope_id) else rest

-- `_ipaddr_info`, where `inet_pton` exists
unfoldable pub ipaddr_info :
    (ℕ → ℕ → Bool) → Bool → Option Host → Port → ℕ → ℕ → ℕ → ℕ → ℕ → Option Info
unfolding first_family
ipaddr_info pton has_ipv6 none port family t proto flow scope_id = none
ipaddr_info pton has_ipv6 (some host) port family t proto flow scope_id =
    if not (contains proto (0 ∷ ipproto_tcp ∷ ipproto_udp ∷ [])) then none else elim (proto_of t) [
      | none ↦ none
      | some known ↦ elim (number_of port) [
        | none ↦ none
        | some n ↦
            if host.has_percent
            then none
            else first_family pton has_ipv6 (families has_ipv6 family) t known host n flow scope_id
      ]
    ]

-- `_ensure_resolved`: the address itself, or what `getaddrinfo` answers
unfoldable pub ensure_resolved {ℓ} : {R : Type ℓ} → (List Info → R) → R → Option Info → R
ensure_resolved given getaddrinfo none = getaddrinfo
ensure_resolved given getaddrinfo (some info) = given (info ∷ [])

-- The address is one that `inet_pton` takes, in a family of the list.
abbrev pub IsNumeric : (ℕ → ℕ → Bool) → List ℕ → ℕ → Option ℕ → Option ℕ → ℕ → Option Info → Type 0
IsNumeric pton afs t known number name none = Unit {0}
IsNumeric pton afs t known number name (some i) =
    (contains i.family afs ≡ true)
    × (pton i.family name ≡ true)
    × (i.sock_type ≡ t)
    × (known ≡ some i.proto)
    × (number ≡ some i.port)
    × (i.host ≡ name)

first_family-IsNumeric :
    (pton : ℕ → ℕ → Bool) (has_ipv6 : Bool) (afs : List ℕ) (t proto : ℕ) (host : Host)
    (port flow scope_id : ℕ)
    → IsNumeric pton afs t
        (some proto)
        (some port)
        host.name
        (first_family pton has_ipv6 afs t proto host port flow scope_id)
unfolding first_family
first_family-IsNumeric pton has_ipv6 [] t proto host port flow scope_id = tt
first_family-IsNumeric pton has_ipv6 (af ∷ afs) t proto host port flow scope_id =
    let rest = first_family pton has_ipv6 afs t proto host port flow scope_id in
    if-cases (IsNumeric pton (af ∷ afs) t (some proto) (some port) host.name) (pton af host.name)
      (some (info_of has_ipv6 af t proto host port flow scope_id)) rest
      (λ e. (ground arith, e, refl, refl, refl, refl))
      (λ _. weaker rest (first_family-IsNumeric pton has_ipv6 afs t proto host port flow scope_id))
  where
    weaker :
        (o : Option Info)
        → IsNumeric pton afs t (some proto) (some port) host.name o
        → IsNumeric pton (af ∷ afs) t (some proto) (some port) host.name o
    weaker none p = tt
    weaker (some i) (a, b, c, d, e, f) = (ground (arith, a), b, c, d, e, f)

-- An address that `_ipaddr_info` gives without name resolution is of a family that was asked for
-- (for `AF_UNSPEC`, IPv4 or IPv6) in which `inet_pton` takes the host; its protocol is the one of
-- the socket type, and its port is the number that was given, or 0 for none.
pub ipaddr_info-IsNumeric :
    (pton : ℕ → ℕ → Bool) (has_ipv6 : Bool) (host : Host) (port : Port)
    (family t proto flow scope_id : ℕ)
    → IsNumeric pton
        (families has_ipv6 family)
        t
        (proto_of t)
        (number_of port)
        host.name
        (ipaddr_info pton has_ipv6 (some host) port family t proto flow scope_id)
unfolding ipaddr_info
ipaddr_info-IsNumeric pton has_ipv6 host port family t proto flow scope_id =
    let afs = families has_ipv6 family in
    if-cases (IsNumeric pton afs t (proto_of t) (number_of port) host.name)
      (not (contains proto (0 ∷ ipproto_tcp ∷ ipproto_udp ∷ []))) none (typed (proto_of t))
      (λ _. tt) (λ _. typed-IsNumeric (proto_of t))
  where
    found : ℕ → ℕ → Option Info
    found known n =
        if host.has_percent
        then none
        else first_family pton has_ipv6 (families has_ipv6 family) t known host n flow scope_id

    numbered : ℕ → Option ℕ → Option Info
    numbered known o = elim o [ none ↦ none | some n ↦ found known n ]

    typed : Option ℕ → Option Info
    typed k = elim k [ none ↦ none | some known ↦ numbered known (number_of port) ]

    numbered-IsNumeric :
        (known : ℕ) (o : Option ℕ)
        → IsNumeric pton (families has_ipv6 family) t (some known) o host.name (numbered known o)
    numbered-IsNumeric known none = tt
    numbered-IsNumeric known (some n) =
        if-cases (IsNumeric pton (families has_ipv6 family) t (some known) (some n) host.name)
          host.has_percent none
          (first_family pton has_ipv6 (families has_ipv6 family) t known host n flow scope_id)
          (λ _. tt)
          (λ _.
            first_family-IsNumeric pton has_ipv6 (families has_ipv6 family) t known host n flow
              scope_id)

    typed-IsNumeric :
        (k : Option ℕ)
        → IsNumeric pton (families has_ipv6 family) t k (number_of port) host.name (typed k)
    typed-IsNumeric none = tt
    typed-IsNumeric (some known) = numbered-IsNumeric known (number_of port)
