-- ===== src/Otel/Tests.antt =====
-- The theorems at concrete providers.
use huba.Common.{arith, refl}
use huba.Common.Decimal.{format_int}
use huba.Otel.{
  add_providers, append_func, shutdown, new_tracer_provider, new_meter_provider,
  new_logger_provider,
}
use huba.Otel.Example.{error_of, interrupted, run, rolldice}
use huba.Otel.Cleanup.{run_lem}
use huba.Common.{◌≡◌, [], ◌∷◌, ok, err}
use huba.Otel.{Provider, call_all, names, setup_otel_sdk}

abbrev tracer : Provider
tracer = record { name = "tracer"; shutdown_errors = "flush" ∷ [] }

run_lem_example :
    ((run (ok tracer) (ok tracer) (err ("exporter" ∷ [])) (interrupted [])).0
      ≡ record { shutdown_funcs = []; called = "tracer" ∷ "tracer" ∷ [] })
    × ((run (ok tracer) (ok tracer) (err ("exporter" ∷ [])) (interrupted [])).1
        ≡ "exporter" ∷ "flush" ∷ "flush" ∷ [])
unfolding names call_all
run_lem_example =
    run_lem (ok tracer) (ok tracer) (err ("exporter" ∷ [])) (interrupted []) (λ e h n. ground arith)

-- The server ends and all providers are shut down.
all_made :
    (run
      (new_tracer_provider (ok []))
      (new_meter_provider (ok ("m" ∷ [])))
      (new_logger_provider (ok []))
      (interrupted ("s" ∷ []))).1
    ≡ "s" ∷ "m" ∷ []
unfolding run setup_otel_sdk add_providers append_func shutdown call_all error_of
    new_tracer_provider new_meter_provider new_logger_provider
all_made = refl

a_roll : rolldice 5 ≡ "6\n"
unfolding rolldice format_int
a_roll = refl
