-- ===== src/Otel.antt =====
-- otel/otel.go: the shutdown functions that `SetupOTelSDK` collects. What each provider's
-- constructor returns is a parameter: its error, or the errors that its shutdown will return. An
-- error is the list of the errors that are joined in it; nil is the empty list.
pub mod Cleanup
pub mod Example
mod Tests
use huba.Common.{
  ℕ, zero, suc, ◌+◌, ◌-◌, ◌*◌, ◌/◌, ◌%◌, ◌^◌, ◌≤◌, ◌<◌, String, ◌<>◌, ◌≡◌, refl, sym, ap, ◌∙◌, ◌≢◌,
  ◌↔◌, ◌⊎◌, inl, inr, Bool, true, false, not, ◌&&◌, ◌||◌, Option, none, some, List, [], ◌∷◌, ◌++◌,
  map, arith, eq_iff, eq_refl, ltb, leb, ◌==◌, str_eq, if◌then◌else◌, ltb→lt, lt→ltb, leb→le,
  ==_iff, tests, Bool-cases, Option-cases, is_some, length, get_elem?, set, erase_idx, take,
  replicate, All, length-append, length-set, length-replicate, length-erase_idx, Fallible, ok, err,
  ◌>>=◌, ◌>>◌, map_err, Fallible-cases,
}

-- A provider: its name, and what its `Shutdown` returns.
pub record Provider : Type 0 where
  pub name : String
  pub shutdown_errors : List String

-- The variable `shutdownFuncs`, and the providers whose `Shutdown` has been called, oldest first.
pub record Sdk : Type 0 where
  pub shutdown_funcs : List Provider
  pub called : List String

unfoldable pub call_all : List Provider → List String
call_all [] = []
call_all (p ∷ rest) = p.shutdown_errors ++ call_all rest

unfoldable pub names : List Provider → List String
names [] = []
names (p ∷ rest) = p.name ∷ names rest

-- The closure `shutdown`: every function once, in order, and then none.
unfoldable pub shutdown : Sdk → Sdk × List String
unfolding call_all names
shutdown s = (
  record { shutdown_funcs = []; called = s.called ++ names s.shutdown_funcs },
  call_all s.shutdown_funcs,
)

-- The closure `handleErr`: the error joined with those of the shutdown.
unfoldable pub handle_err : List String → Sdk → Sdk × List String
handle_err in_err s = let (t, e) = shutdown s in (t, in_err ++ e)

unfoldable pub append_func : Provider → Sdk → Sdk
append_func p s = record s { shutdown_funcs = s.shutdown_funcs ++ p ∷ [] }

-- The blocks for the trace, meter and logger providers are alike.
unfoldable pub add_providers : List (Fallible (List String) Provider) → Sdk → Sdk × List String
add_providers [] s = (s, [])
add_providers (made ∷ rest) s = elim made [
  | err e ↦ handle_err e s
  | ok p ↦ add_providers rest (append_func p s)
]

unfoldable pub setup_otel_sdk :
    Fallible (List String) Provider
    → Fallible (List String) Provider
    → Fallible (List String) Provider
    → Sdk × List String
setup_otel_sdk tracer meter logger =
    add_providers (tracer ∷ meter ∷ logger ∷ []) (record { shutdown_funcs = []; called = [] })

-- `newTracerProvider`, `newMeterProvider` and `newLoggerProvider`, given what the exporter's
-- constructor returns: its error, or the errors with which the provider over it will shut down. The
-- intervals of the exports are left out.
abbrev pub provider_of :
    String → Fallible (List String) (List String) → Fallible (List String) Provider
provider_of name (err e) = err e
provider_of name (ok shutdown_errors) =
    ok (record { name = name; shutdown_errors = shutdown_errors })

unfoldable pub new_tracer_provider :
    Fallible (List String) (List String) → Fallible (List String) Provider
new_tracer_provider trace_exporter = provider_of "tracer" trace_exporter

unfoldable pub new_meter_provider :
    Fallible (List String) (List String) → Fallible (List String) Provider
new_meter_provider metric_exporter = provider_of "meter" metric_exporter

unfoldable pub new_logger_provider :
    Fallible (List String) (List String) → Fallible (List String) Provider
new_logger_provider log_exporter = provider_of "logger" log_exporter
