-- ===== src/Otel/Example.antt =====
-- otel/example/main.go. Parameters: what the constructors of the providers return, and how the HTTP
-- server ends. The routes are those of net/http.
use huba.Common.{ℕ, ◌+◌, String, ◌<>◌, List, [], ◌∷◌, ◌++◌, Fallible}
use huba.Common.Int.{pos}
use huba.Common.Decimal.{format_int}
use huba.Otel.{Provider, Sdk, shutdown, setup_otel_sdk}

-- `ListenAndServe` returns with an error, or an interruption comes first, upon which `srv.Shutdown`
-- returns; an error is the list of the errors joined in it.
pub data Ending : Type 0 where
  server_returns : List String → Ending
  interrupted : List String → Ending

unfoldable pub error_of : Ending → List String
error_of (server_returns e) = e
error_of (interrupted e) = e

-- `run`: the providers as it leaves them, and its error. The deferred function joins the error of
-- the shutdown.
unfoldable pub run :
    Fallible (List String) Provider
    → Fallible (List String) Provider
    → Fallible (List String) Provider
    → Ending
    → Sdk × List String
unfolding error_of
run tracer meter logger ending =
    let (s, e) = setup_otel_sdk tracer meter logger in
    elim e [
      | first ∷ rest ↦ (s, first ∷ rest)
      | [] ↦ let (t, f) = shutdown s in (t, error_of ending ++ f)
    ]

-- `rolldice`, given the answer of `rand.Intn(6)`.
unfoldable pub rolldice : ℕ → String
rolldice n = format_int (pos (1 + n)) <> "\n"
