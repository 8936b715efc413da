-- ===== src/Arguments.antt =====
-- The checks of the arguments that concern TLS (aiofastnet/api_utils.py, aiofastnet/constants.py).
-- Durations are numbers of some type with a test `value <= 0`.
use aiofastnet.Base.{
  ℕ, ◌+◌, ◌*◌, ◌≤◌, ◌<◌, ◌≡◌, refl, Bool, true, false, not, Option, none, some, ltb, if◌then◌else◌,
  if-cases, ◌⊎◌, inl, inr, arith,
}

pub data Checked {ℓ} (A : Type ℓ) : Type ℓ where
  value : A → Checked A
  value_error : Checked A

-- `SSL_TIMEOUT_DEFAULTS` and `SSL_BIO_SIZE_DEFAULTS`, in seconds and bytes
abbrev pub handshake_timeout_default : ℕ
handshake_timeout_default = 60

abbrev pub shutdown_timeout_default : ℕ
shutdown_timeout_default = 30

abbrev pub bio_size_default : ℕ
bio_size_default = 16 * (16 * 1024 + 64)

abbrev pub bio_size_min : ℕ
bio_size_min = 16384

-- `_validate_ssl_timeout`
unfoldable pub validate_ssl_timeout {ℓ} :
    {A : Type ℓ} → (A → Bool) → A → Option A → Bool → Checked A
validate_ssl_timeout not_positive default none ssl = value default
validate_ssl_timeout not_positive default (some t) ssl =
    if not ssl then value_error else if not_positive t then value_error else value t

-- `_validate_bio_size`
unfoldable pub validate_bio_size : Option ℕ → Bool → Checked ℕ
validate_bio_size none ssl = value bio_size_default
validate_bio_size (some n) ssl =
    if not ssl then value_error else if ltb n bio_size_min then value_error else value n

-- What `_validate_bio_size` promises: the default, or the given size, which then is at least 16384
-- and comes with TLS; it refuses any other size.
abbrev pub IsBioSize : Option ℕ → Bool → Checked ℕ → Type 0
IsBioSize none ssl r = r ≡ value bio_size_default
IsBioSize (some n) ssl (value m) = (m ≡ n) × (ssl ≡ true) × (bio_size_min ≤ n)
IsBioSize (some n) ssl value_error = (ssl ≡ false) ⊎ (n < bio_size_min)

-- `_validate_bio_size` gives the default if no size is given. A given size is returned as it is if
-- TLS is used and it is at least 16384, and refused only if one of these does not hold.
pub validate_bio_size-IsBioSize :
    (given : Option ℕ) (ssl : Bool) → IsBioSize given ssl (validate_bio_size given ssl)
unfolding validate_bio_size
validate_bio_size-IsBioSize none ssl = refl
validate_bio_size-IsBioSize (some n) true =
    if-cases (IsBioSize (some n) true) (ltb n bio_size_min) value_error (value n)
      (λ e. inr (ground (arith, e))) (λ e. (refl, refl, ground (arith, e)))
validate_bio_size-IsBioSize (some n) false = inl refl
