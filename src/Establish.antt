-- ===== src/Establish.antt =====
-- `_create_connection_transport` of aiofastnet/api_utils.py: which transport carries a connection,
-- and what happens to it when the connection is not made. The protocol factory, the transports
-- and `create_connection` of asyncio are parameters, by what they raise.
use aiofastnet.Base.{
  ◌≡◌, ◌⊎◌, Bool, true, false, not, ◌||◌, Option, none, some, if◌then◌else◌, ℕ, List, [], ◌∷◌,
}

pub data SslArgument : Type 0 where
  no_ssl ssl_true : SslArgument
  -- a context, and whether it asks for the fallback engine
  context : (forced : Bool) → SslArgument

pub record Setup : Type 0 where
  -- `_should_fallback_to_asyncio`
  pub fallback : Bool
  pub ssl : SslArgument
  pub server : Bool
  pub buffered : Bool
  -- `OPENSSL_DYN_LIBS is not None`
  pub dyn_libs : Bool
  -- what `setblocking`, the protocol factory, `create_transport_context`, the constructor of the
  -- transport, that of the `SelectorSocketTransport` below it, asyncio's `create_connection`, and
  -- the waiter raise
  pub unblock : Option ℕ
  pub factory : Option ℕ
  pub made_context : Option ℕ
  pub construct : Option ℕ
  pub carrier : Option ℕ
  pub asyncio_connect : Option ℕ
  pub waiter : Option ℕ

pub data Kind : Type 0 where
  -- `SSLTransport_Transport` over a transport of asyncio, and over `SelectorSocketTransport`
  tls_over_asyncio tls_over_selector : Kind
  -- `SSLTransport_Socket`, and `SelectorSocketTransport`
  tls_socket selector_socket : Kind
  -- asyncio's transport, wrapped for the protocol or as the server attaches it
  wrapped wrapped_buffered asyncio_transport : Kind

pub data Made : Type 0 where
  established : Kind → Made
  -- an exception, and whether `transport.close()` was called for it
  raised : (error : ℕ) (closed : Bool) → Made

abbrev pub is_true : SslArgument → Bool
is_true no_ssl = false
is_true _ = true

-- `_ssl_needs_fallback_engine`; a new context asks for nothing
abbrev pub needs_fallback_engine : Bool → SslArgument → Bool
needs_fallback_engine dyn_libs (context forced) = not dyn_libs || forced
needs_fallback_engine dyn_libs _ = not dyn_libs

-- The waiter, if there is one: without a server.
unfoldable pub await_waiter : Bool → Option ℕ → Kind → Made
await_waiter true outcome k = established k
await_waiter false none k = established k
await_waiter false (some e) k = raised e true

abbrev pub wrapped_kind : Bool → Bool → Kind
wrapped_kind true buffered = asyncio_transport
wrapped_kind false buffered = if buffered then wrapped_buffered else wrapped

-- A call that may raise, and what follows it.
unfoldable pub first : Option ℕ → Made → Made
first none next = next
first (some e) next = raised e false

-- The part that falls back to asyncio.
unfoldable pub over_asyncio : Setup → Made
unfolding await_waiter first
over_asyncio s =
    if is_true s.ssl
    then first s.factory (
        first s.construct
          (first s.asyncio_connect (await_waiter s.server s.waiter tls_over_asyncio)))
    else first s.factory (first s.asyncio_connect (established (wrapped_kind s.server s.buffered)))

abbrev pub own_kind : Setup → Kind
own_kind s =
    if is_true s.ssl
    then if needs_fallback_engine s.dyn_libs s.ssl then tls_over_selector else tls_socket
    else selector_socket

-- A context is made only for a Boolean, and there is a transport below only with the fallback engine.
abbrev pub context_error : SslArgument → Option ℕ → Option ℕ
context_error ssl_true o = o
context_error _ o = none

abbrev pub carrier_error : Kind → Option ℕ → Option ℕ
carrier_error tls_over_selector o = o
carrier_error _ o = none

unfoldable pub own_transport : Setup → Made
unfolding await_waiter first
own_transport s = first s.factory (
    first (context_error s.ssl s.made_context) (
      first s.construct (
        first (carrier_error (own_kind s) s.carrier)
          (await_waiter s.server s.waiter (own_kind s)))))

unfoldable pub create_connection_transport : Setup → Made
unfolding over_asyncio own_transport first
create_connection_transport s =
    first s.unblock (if s.fallback then over_asyncio s else own_transport s)

abbrev pub is_tls : Kind → Bool
is_tls tls_over_asyncio = true
is_tls tls_over_selector = true
is_tls tls_socket = true
is_tls _ = false

abbrev pub is_native : Kind → Bool
is_native tls_over_selector = true
is_native tls_socket = true
is_native selector_socket = true
is_native _ = false

-- The calls that are made before the wait, by what they raise, in order.
abbrev pub before_wait : Setup → List (Option ℕ)
before_wait s =
    if s.fallback
    then if is_true s.ssl
      then s.unblock ∷ s.factory ∷ s.construct ∷ s.asyncio_connect ∷ []
      else s.unblock ∷ s.factory ∷ s.asyncio_connect ∷ []
    else s.unblock
      ∷ s.factory
      ∷ context_error s.ssl s.made_context
      ∷ s.construct
      ∷ carrier_error (own_kind s) s.carrier
      ∷ []

abbrev pub or_else : Option ℕ → Option ℕ → Option ℕ
or_else none o = o
or_else (some e) o = some e

abbrev pub first_error : List (Option ℕ) → Option ℕ
first_error [] = none
first_error (o ∷ os) = or_else o (first_error os)

-- What a caller may rely on, given the first error before the wait.
abbrev pub Answers : Option ℕ → Setup → Made → Type 0
Answers error s (established k) =
    (error ≡ none)
    × (is_tls k ≡ is_true s.ssl)
    × (is_native k ≡ not s.fallback)
    × ((s.server ≡ true) ⊎ (s.waiter ≡ none) ⊎ ((s.fallback ≡ true) × (is_true s.ssl ≡ false)))
Answers error s (raised e true) = (error ≡ none) × (s.server ≡ false) × (s.waiter ≡ some e)
Answers error s (raised e false) = error ≡ some e

abbrev pub Establishes : Setup → Made → Type 0
Establishes s m = Answers (first_error (before_wait s)) s m
