-- ===== src/Providers/Errors.antt =====
-- providers/errors.py, with the provider errors of contracts/errors.py: the typed error of an HTTP status
-- and of a failed request. Messages are left out. Delays are whole milliseconds; reading the text of a
-- header as a delay is a parameter.
pub mod Laws
mod Tests
use dev_harness.Common.{
  ℕ, String, Bool, true, false, Option, none, some, List, [], ◌∷◌, Eq, ◌==◌, nat_eq, if◌then◌else◌,
}
use dev_harness.Dict
use dev_harness.Dict.{Dict}

pub data ProviderError : Type 0 where
  rate_limited_error : (retry_after : ℕ) → ProviderError
  provider_overloaded_error context_overflow_error auth_error transient_error : ProviderError

pub data ErrorClass : Type 0 where
  rate_limited provider_overloaded context_overflow auth transient : ErrorClass

abbrev pub retryable : ErrorClass → Bool
retryable rate_limited = true
retryable provider_overloaded = true
retryable context_overflow = false
retryable auth = false
retryable transient = true

abbrev pub class_of : ProviderError → ErrorClass
class_of (rate_limited_error t) = rate_limited
class_of provider_overloaded_error = provider_overloaded
class_of context_overflow_error = context_overflow
class_of auth_error = auth
class_of transient_error = transient

-- `_STATUS_MAP`
abbrev pub status_map : Dict ℕ ErrorClass
status_map =
    (429, rate_limited)
    ∷ (529, provider_overloaded)
    ∷ (401, auth)
    ∷ (403, auth)
    ∷ (400, context_overflow)
    ∷ []

or_zero : Option ℕ → ℕ
or_zero none = 0
or_zero (some t) = t

mapped : Option ℕ → Option ErrorClass → ProviderError
unfolding or_zero
mapped after none = transient_error
mapped after (some rate_limited) = rate_limited_error (or_zero after)
mapped after (some provider_overloaded) = provider_overloaded_error
mapped after (some context_overflow) = context_overflow_error
mapped after (some auth) = auth_error
mapped after (some transient) = transient_error

unfoldable pub map_status : ℕ → Option ℕ → ProviderError
unfolding mapped
map_status code after = mapped after (Dict.get code status_map)

-- What httpx raises, as far as the code tells it apart.
pub data Failure : Type 0 where
  timeout_exception transport_error any_other : Failure
  http_status_error : (status : ℕ) (retry_after : Option String) → Failure

module _ (seconds : String → Option ℕ) where
  unfoldable pub retry_after : Option String → Option ℕ
  retry_after none = none
  retry_after (some value) = seconds value

  unfoldable pub map_exception : Failure → ProviderError
  unfolding map_status retry_after
  map_exception timeout_exception = transient_error
  map_exception (http_status_error status header) = map_status status (retry_after header)
  map_exception transport_error = transient_error
  map_exception any_other = transient_error

-- The rows of `fault_table`: the code, the class and whether it may be retried.
abbrev pub fault_table : List (ℕ × ErrorClass × Bool)
fault_table =
    (429, rate_limited, true)
    ∷ (529, provider_overloaded, true)
    ∷ (401, auth, false)
    ∷ (403, auth, false)
    ∷ (400, context_overflow, false)
    ∷ (500, transient, true)
    ∷ (502, transient, true)
    ∷ (503, transient, true)
    ∷ (504, transient, true)
    ∷ []
