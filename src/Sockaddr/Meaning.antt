-- ===== src/Sockaddr/Meaning.antt =====
-- What an address of Python comes to when it is sent to the system and read back: a description
-- without the system's structures, and a proof that the two conversions of aiofastnet/utils.pyx
-- agree with it.
use aiofastnet.Base.{
  ℕ, zero, suc, ◌≡◌, ◌≤◌, refl, sym, ap, ◌∙◌, Bool, true, false, not, Option, none, some, List, [],
  ◌∷◌, length, ltb, ◌-◌, if◌then◌else◌, arith, ◌<◌, take-append_left, take_all,
}
use aiofastnet.Sockaddr.{
  Family, af_unix, af_inet, af_inet6, af_other, Item, text, unencodable, something, number,
  negative, PyAddr, unencodable_addr, other_addr, str_addr, bytes_addr, tuple_addr, Sockaddr,
  Filled, filled, refused, value_error, Long, long, below_zero, long_max, pyaddr_to_sockaddr,
  with_host, with_numbers, in_range, set_sockaddr, set_ipv4_sockaddr, set_ipv6_sockaddr, is_size,
  signed, has_zero, zeros, is_named, set_unix_sockaddr, until_zero, unix_path, sockaddr_to_pyaddr,
}
use aiofastnet.Sockaddr.Numbers.{up_to, Reads, raises, is_negative, too_large, fits, long_of-Reads}
use aiofastnet.Sockaddr.Paths.{
  is_path, reads_path, abstract_fits, named_fits, both, zeros_first, named_reads,
}
use Prim.Native.Nat.{◌%◌}

module _ (ntop4 ntop6 : ℕ → List ℕ) where
  unfoldable pub answer : Filled → Option PyAddr
  answer (filled s) = some (sockaddr_to_pyaddr ntop4 ntop6 s)
  answer (refused e) = none

  answer-if :
      (b k : Bool) (a : Sockaddr) (r : PyAddr)
      → b ≡ not k
      → (k ≡ true → sockaddr_to_pyaddr ntop4 ntop6 a ≡ r)
      → answer (if b then refused value_error else filled a) ≡ (if k then some r else none)
  unfolding answer
  answer-if true true a r e h = cc
  answer-if true false a r e h = refl
  answer-if false true a r e h = ap some (h refl)
  answer-if false false a r e h = cc

  answer-unix :
      (path : List ℕ)
      → answer (set_unix_sockaddr path) ≡ (if is_path path then some (reads_path path) else none)
  unfolding answer set_unix_sockaddr is_path reads_path is_named sockaddr_to_pyaddr unix_path
      has_zero
  answer-unix [] = refl
  answer-unix (zero ∷ path) = answer-if _ _ _ _ (abstract_fits (length path)) (λ h.
      ap (λ q. bytes_addr (0 ∷ q))
        (take-append_left (length path) path (zeros (108 - suc (length path))) (omega arith)
          ∙ take_all (length path) path (omega arith)))
  answer-unix (suc x ∷ path) = answer-if _ _ _ _ (named_fits (has_zero path) (length path)) (λ h.
      named_reads x path _ _ (omega arith) (both (has_zero path) _ h).0 _
        (zeros_first (length path) (both (has_zero path) _ h).1))

  -- What `inet_pton` makes of the first element.
  unfoldable pub host_address : (List ℕ → Option ℕ) → Item → Option ℕ
  host_address pton (text host) = pton (until_zero host)
  host_address pton _ = none

  -- What an IPv4 address comes to, from what `inet_pton` made of its host and its port.
  unfoldable pub reads_inet : Option ℕ → Option ℕ → Option PyAddr
  reads_inet (some port) (some a) = some (tuple_addr (text (ntop4 a) ∷ number port ∷ []))
  reads_inet _ _ = none

  -- The same for IPv6, with the flow information and the scope cut to 32 bits.
  unfoldable pub reads_inet6 : Option ℕ → Option ℕ → Option ℕ → Option ℕ → Option PyAddr
  reads_inet6 (some port) (some flowinfo) (some scope_id) (some a) = some (
      tuple_addr (
        text (ntop6 a)
        ∷ number port
        ∷ signed (flowinfo % 4294967296)
        ∷ signed (scope_id % 4294967296)
        ∷ []))
  reads_inet6 _ _ _ _ = none

  reads_inet-none : (u : Option ℕ) → reads_inet u none ≡ none
  unfolding reads_inet
  reads_inet-none none = refl
  reads_inet-none (some n) = refl

  reads_inet6-none : (u v w : Option ℕ) → reads_inet6 u v w none ≡ none
  unfolding reads_inet6
  reads_inet6-none none v w = refl
  reads_inet6-none (some n) none w = refl
  reads_inet6-none (some n) (some f) none = refl
  reads_inet6-none (some n) (some f) (some s) = refl

  module _ (pton4 pton6 : List ℕ → Option ℕ) where
    unfoldable pub meaning : Family → PyAddr → Option PyAddr
    meaning af_unix (str_addr path) = if is_path path then some (reads_path path) else none
    meaning af_unix (bytes_addr path) = if is_path path then some (reads_path path) else none
    meaning af_inet (tuple_addr (host ∷ port ∷ [])) =
        reads_inet (up_to 65535 port) (host_address pton4 host)
    meaning af_inet6 (tuple_addr (host ∷ port ∷ [])) =
        reads_inet6 (up_to 65535 port) (some 0) (some 0) (host_address pton6 host)
    meaning af_inet6 (tuple_addr (host ∷ port ∷ flowinfo ∷ scope_id ∷ [])) =
        reads_inet6 (up_to 65535 port) (up_to long_max flowinfo) (up_to long_max scope_id)
          (host_address pton6 host)
    meaning _ _ = none

    set_inet-answer :
        (host : List ℕ) (n : ℕ) (o : Option ℕ)
        → n ≤ 65535
        → answer (set_ipv4_sockaddr pton4 pton6 o n) ≡ reads_inet (some n) o
    unfolding answer set_ipv4_sockaddr reads_inet sockaddr_to_pyaddr
    set_inet-answer host n none h = refl
    set_inet-answer host n (some a) h =
        let e : n % 65536 ≡ n = omega arith in
        ap (λ k. some (tuple_addr (text (ntop4 a) ∷ number k ∷ []))) e

    set_inet6-answer :
        (n f s : ℕ) (o : Option ℕ)
        → n ≤ 65535
        → answer (set_ipv6_sockaddr pton4 pton6 o n f s) ≡ reads_inet6 (some n) (some f) (some s) o
    unfolding answer set_ipv6_sockaddr reads_inet6 sockaddr_to_pyaddr
    set_inet6-answer n f s none h = refl
    set_inet6-answer n f s (some a) h =
        let e : n % 65536 ≡ n = omega arith in
        ap
          (λ k. some (
            tuple_addr
              (text (ntop6 a) ∷ number k ∷ signed (f % 4294967296) ∷ signed (s % 4294967296) ∷ [])))
          e

    -- A port that is too large is refused, and another goes to the address.
    in_range-answer :
        (f : Family) (host : List ℕ) (n flowinfo scope_id : ℕ) (b : Bool) (r : Option PyAddr)
        → ltb 65535 n ≡ b
        → (if b then none else answer (set_sockaddr pton4 pton6 f host n flowinfo scope_id)) ≡ r
        → answer (in_range pton4 pton6 f host (long n) (long flowinfo) (long scope_id)) ≡ r
    unfolding in_range answer
    in_range-answer f host n flowinfo scope_id true r e h =
        ap
          (λ b. answer (
            if b then refused value_error else set_sockaddr pton4 pton6 f host n flowinfo scope_id))
          e
        ∙ h
    in_range-answer f host n flowinfo scope_id false r e h =
        ap
          (λ b. answer (
            if b then refused value_error else set_sockaddr pton4 pton6 f host n flowinfo scope_id))
          e
        ∙ h

    answer-inet :
        (host : List ℕ) (l : Option Long) (u : Option ℕ)
        → Reads 65535 l u
        → answer (with_numbers pton4 pton6 af_inet host l (some (long 0)) (some (long 0)))
          ≡ reads_inet u (pton4 (until_zero host))
    unfolding with_numbers in_range reads_inet answer set_sockaddr
    answer-inet host _ _ raises = refl
    answer-inet host _ _ is_negative = refl
    answer-inet host _ _ (too_large n h k) =
        in_range-answer af_inet host n 0 0 true _ (ground arith) refl
    answer-inet host _ _ (fits n h) =
        in_range-answer af_inet host n 0 0 false _ (ground arith)
          (set_inet-answer host n (pton4 (until_zero host)) h)

    -- A port that is negative or too large is refused, whatever the other numbers are.
    below-answer :
        (f : Family) (host : List ℕ) (l m : Option Long)
        → answer (with_numbers pton4 pton6 f host (some below_zero) l m) ≡ none
    unfolding with_numbers in_range answer
    below-answer f host none m = refl
    below-answer f host (some l) none = refl
    below-answer f host (some l) (some m) = refl

    above-answer :
        (f : Family) (host : List ℕ) (n : ℕ) (l m : Option Long)
        → 65535 < n
        → answer (with_numbers pton4 pton6 f host (some (long n)) l m) ≡ none
    unfolding with_numbers in_range answer
    above-answer f host n none m h = refl
    above-answer f host n (some l) none h = refl
    above-answer f host n (some below_zero) (some m) h = refl
    above-answer f host n (some (long l)) (some below_zero) h = refl
    above-answer f host n (some (long l)) (some (long m)) h =
        in_range-answer f host n l m true none (ground arith) refl

    answer-inet6 :
        (host : List ℕ) (l1 l2 l3 : Option Long) (u1 u2 u3 : Option ℕ)
        → Reads 65535 l1 u1
        → Reads long_max l2 u2
        → Reads long_max l3 u3
        → answer (with_numbers pton4 pton6 af_inet6 host l1 l2 l3)
          ≡ reads_inet6 u1 u2 u3 (pton6 (until_zero host))
    unfolding with_numbers in_range reads_inet6 answer set_sockaddr
    answer-inet6 host _ _ _ _ _ _ raises p q = refl
    answer-inet6 host _ l m _ _ _ is_negative p q = below-answer af_inet6 host l m
    answer-inet6 host _ l m _ _ _ (too_large n h k) p q = above-answer af_inet6 host n l m h
    answer-inet6 host _ _ _ _ _ _ (fits n h) raises q = refl
    answer-inet6 host _ _ _ _ _ _ (fits n h) is_negative raises = refl
    answer-inet6 host _ _ _ _ _ _ (fits n h) is_negative is_negative = refl
    answer-inet6 host _ _ _ _ _ _ (fits n h) is_negative (too_large m i j) = refl
    answer-inet6 host _ _ _ _ _ _ (fits n h) is_negative (fits m i) = refl
    answer-inet6 host _ _ _ _ _ _ (fits n h) (too_large m i j) q = absurd (omega arith)
    answer-inet6 host _ _ _ _ _ _ (fits n h) (fits m i) raises = refl
    answer-inet6 host _ _ _ _ _ _ (fits n h) (fits m i) is_negative = refl
    answer-inet6 host _ _ _ _ _ _ (fits n h) (fits m i) (too_large k j l) = absurd (omega arith)
    answer-inet6 host _ _ _ _ _ _ (fits n h) (fits m i) (fits k j) =
        in_range-answer af_inet6 host n m k false _ (ground arith)
          (set_inet6-answer n m k (pton6 (until_zero host)) h)

    -- Tuples of the sizes that are taken, whatever their first element is.
    answer-pair :
        (host port : Item)
        → answer (with_host pton4 pton6 af_inet (host ∷ port ∷ []))
          ≡ meaning af_inet (tuple_addr (host ∷ port ∷ []))
    unfolding with_host answer meaning host_address
    answer-pair (text host) port = answer-inet host _ _ (long_of-Reads 65535 port (ground arith))
    answer-pair unencodable port = sym (reads_inet-none (up_to 65535 port))
    answer-pair something port = sym (reads_inet-none (up_to 65535 port))
    answer-pair (number n) port = sym (reads_inet-none (up_to 65535 port))
    answer-pair (negative n) port = sym (reads_inet-none (up_to 65535 port))

    answer-pair6 :
        (host port : Item)
        → answer (with_host pton4 pton6 af_inet6 (host ∷ port ∷ []))
          ≡ meaning af_inet6 (tuple_addr (host ∷ port ∷ []))
    unfolding with_host answer meaning host_address
    answer-pair6 (text host) port =
        answer-inet6 host _ _ _ _ _ _ (long_of-Reads 65535 port (ground arith))
          (fits 0 (ground arith)) (fits 0 (ground arith))
    answer-pair6 unencodable port = sym (reads_inet6-none (up_to 65535 port) (some 0) (some 0))
    answer-pair6 something port = sym (reads_inet6-none (up_to 65535 port) (some 0) (some 0))
    answer-pair6 (number n) port = sym (reads_inet6-none (up_to 65535 port) (some 0) (some 0))
    answer-pair6 (negative n) port = sym (reads_inet6-none (up_to 65535 port) (some 0) (some 0))

    answer-quad6 :
        (host port flowinfo scope_id : Item)
        → answer (with_host pton4 pton6 af_inet6 (host ∷ port ∷ flowinfo ∷ scope_id ∷ []))
          ≡ meaning af_inet6 (tuple_addr (host ∷ port ∷ flowinfo ∷ scope_id ∷ []))
    unfolding with_host answer meaning host_address
    answer-quad6 (text host) port flowinfo scope_id =
        answer-inet6 host _ _ _ _ _ _ (long_of-Reads 65535 port (ground arith))
          (long_of-Reads long_max flowinfo (ground arith))
          (long_of-Reads long_max scope_id (ground arith))
    answer-quad6 unencodable port flowinfo scope_id =
        sym
          (reads_inet6-none (up_to 65535 port) (up_to long_max flowinfo) (up_to long_max scope_id))
    answer-quad6 something port flowinfo scope_id =
        sym
          (reads_inet6-none (up_to 65535 port) (up_to long_max flowinfo) (up_to long_max scope_id))
    answer-quad6 (number n) port flowinfo scope_id =
        sym
          (reads_inet6-none (up_to 65535 port) (up_to long_max flowinfo) (up_to long_max scope_id))
    answer-quad6 (negative n) port flowinfo scope_id =
        sym
          (reads_inet6-none (up_to 65535 port) (up_to long_max flowinfo) (up_to long_max scope_id))

    answer-tuple :
        (items : List Item)
        → answer (pyaddr_to_sockaddr pton4 pton6 af_inet (tuple_addr items))
          ≡ meaning af_inet (tuple_addr items)
    unfolding pyaddr_to_sockaddr is_size answer meaning
    answer-tuple [] = refl
    answer-tuple (x ∷ []) = refl
    answer-tuple (x ∷ y ∷ []) = answer-pair x y
    answer-tuple (x ∷ y ∷ z ∷ items) = ground arith

    answer-tuple6 :
        (items : List Item)
        → answer (pyaddr_to_sockaddr pton4 pton6 af_inet6 (tuple_addr items))
          ≡ meaning af_inet6 (tuple_addr items)
    unfolding pyaddr_to_sockaddr is_size answer meaning
    answer-tuple6 [] = refl
    answer-tuple6 (x ∷ []) = refl
    answer-tuple6 (x ∷ y ∷ []) = answer-pair6 x y
    answer-tuple6 (x ∷ y ∷ z ∷ []) = refl
    answer-tuple6 (x ∷ y ∷ z ∷ w ∷ []) = answer-quad6 x y z w
    answer-tuple6 (x ∷ y ∷ z ∷ w ∷ v ∷ items) = ground arith

    -- What an address becomes when it is converted for the system and back is what its family and
    -- its parts say, for every address, those that are refused included.
    pub pyaddr_to_sockaddr-answer :
        (f : Family) (addr : PyAddr)
        → answer (pyaddr_to_sockaddr pton4 pton6 f addr) ≡ meaning f addr
    unfolding pyaddr_to_sockaddr is_size answer meaning
    pyaddr_to_sockaddr-answer af_unix (str_addr path) = answer-unix path
    pyaddr_to_sockaddr-answer af_unix (bytes_addr path) = answer-unix path
    pyaddr_to_sockaddr-answer af_inet (tuple_addr items) = answer-tuple items
    pyaddr_to_sockaddr-answer af_inet6 (tuple_addr items) = answer-tuple6 items
    pyaddr_to_sockaddr-answer af_unix unencodable_addr = refl
    pyaddr_to_sockaddr-answer af_unix other_addr = refl
    pyaddr_to_sockaddr-answer af_unix (tuple_addr items) = refl
    pyaddr_to_sockaddr-answer af_inet unencodable_addr = refl
    pyaddr_to_sockaddr-answer af_inet other_addr = refl
    pyaddr_to_sockaddr-answer af_inet (str_addr path) = refl
    pyaddr_to_sockaddr-answer af_inet (bytes_addr path) = refl
    pyaddr_to_sockaddr-answer af_inet6 unencodable_addr = refl
    pyaddr_to_sockaddr-answer af_inet6 other_addr = refl
    pyaddr_to_sockaddr-answer af_inet6 (str_addr path) = refl
    pyaddr_to_sockaddr-answer af_inet6 (bytes_addr path) = refl
    pyaddr_to_sockaddr-answer af_other unencodable_addr = refl
    pyaddr_to_sockaddr-answer af_other other_addr = refl
    pyaddr_to_sockaddr-answer af_other (str_addr path) = refl
    pyaddr_to_sockaddr-answer af_other (bytes_addr path) = refl
    pyaddr_to_sockaddr-answer af_other (tuple_addr items) = refl
