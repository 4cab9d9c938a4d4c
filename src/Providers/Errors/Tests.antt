-- ===== src/Providers/Errors/Tests.antt =====
-- A rate limited request.
use dev_harness.Common.{ℕ, String, ◌≡◌, Option, some, nat_eq}
use dev_harness.Providers.Errors.{http_status_error, map_exception, fault_table}
use dev_harness.Providers.Errors.Laws.{verdict, catalogued, fault_table_agrees}

abbrev seconds : String → Option ℕ
seconds text = some 1000

fault_table_agrees_example :
    verdict (map_exception seconds (http_status_error 429 (some "1"))) ≡ catalogued 429 fault_table
fault_table_agrees_example = fault_table_agrees seconds (http_status_error 429 (some "1"))
