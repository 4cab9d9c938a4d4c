-- ===== src/Providers/Errors/Laws.antt =====
-- providers/errors.py: the fault catalogue tells what is raised.
use dev_harness.Common.{
  ℕ, String, ◌≡◌, refl, Bool, true, Option, List, [], ◌∷◌, arith, ◌==◌, nat_eq, if◌then◌else◌,
}
use dev_harness.Dict
use dev_harness.Providers.Errors.{
  ProviderError, ErrorClass, transient, retryable, class_of, mapped, map_status, Failure,
  http_status_error, timeout_exception, transport_error, any_other, map_exception, fault_table,
}

-- What a catalogue says of a code; a code that it does not have is transient.
unfoldable pub catalogued : ℕ → List (ℕ × ErrorClass × Bool) → ErrorClass × Bool
catalogued code [] = (transient, true)
catalogued code ((c, class, again) ∷ rows) =
    if c == code then (class, again) else catalogued code rows

-- The class of an error, and whether it may be retried.
abbrev pub verdict : ProviderError → ErrorClass × Bool
verdict e = (class_of e, retryable (class_of e))

abbrev pub code_of : Failure → ℕ
code_of (http_status_error status header) = status
code_of _ = 500

-- Every failed request raises the class of error that the fault catalogue has for its status, with the
-- catalogue's answer whether it may be retried; a status that the catalogue does not have, and a failure
-- without a status, count as transient.
pub fault_table_agrees :
    (seconds : String → Option ℕ) (f : Failure)
    → verdict (map_exception seconds f) ≡ catalogued (code_of f) fault_table
unfolding map_exception map_status catalogued Dict.get mapped
fault_table_agrees seconds timeout_exception = refl
fault_table_agrees seconds transport_error = refl
fault_table_agrees seconds any_other = refl
fault_table_agrees seconds (http_status_error status header) = ground arith
