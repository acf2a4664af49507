-- ===== src/Otel/Cleanup.antt =====
-- What is shut down, and when.
use huba.Common.{
  String, ◌≡◌, refl, Option, none, some, List, [], ◌∷◌, ◌++◌, arith, Fallible, ok, err, ◌≢◌, inl,
  inr, Option-cases,
}
use mathlib.Core.List.{append-nil, append_assoc}
use huba.Otel.Example.{Ending, error_of, run}
use huba.Otel.{
  Provider, Sdk, call_all, names, shutdown, handle_err, append_func, add_providers, setup_otel_sdk,
}

-- The providers that are made before the first failure, and the errors of that failure, if any.
abbrev pub made_before : List (Fallible (List String) Provider) → List Provider
made_before [] = []
made_before (err e ∷ rest) = []
made_before (ok p ∷ rest) = p ∷ made_before rest

abbrev pub first_failure : List (Fallible (List String) Provider) → Option (List String)
first_failure [] = none
first_failure (err e ∷ rest) = some e
first_failure (ok p ∷ rest) = first_failure rest

add_providers_lem :
    (made : List (Fallible (List String) Provider)) (ps : List Provider)
    → add_providers made (record { shutdown_funcs = ps; called = [] }) ≡ elim (first_failure made) [
      | none ↦ (record { shutdown_funcs = ps ++ made_before made; called = [] }, [])
      | some e ↦ (
        record { shutdown_funcs = []; called = names (ps ++ made_before made) },
        e ++ call_all (ps ++ made_before made),
      )
    ]
unfolding add_providers append_func handle_err shutdown
add_providers_lem [] ps = ground (arith, append-nil ps)
add_providers_lem (err e ∷ rest) ps = ground (arith, append-nil ps)
add_providers_lem (ok p ∷ rest) ps =
    ground
      (arith, add_providers_lem rest (ps ++ p ∷ []), append_assoc ps (p ∷ []) (made_before rest))

-- If one of the three providers cannot be made, `SetupOTelSDK` shuts down those that were made
-- before it, each once and in order, keeps no shutdown function, and returns the error joined with
-- those of the shutdowns. Otherwise it returns no error, calls no shutdown, and keeps the three
-- functions in order.
setup_otel_sdk_lem :
    (tracer meter logger : Fallible (List String) Provider)
    → let made = tracer ∷ meter ∷ logger ∷ [] in
      setup_otel_sdk tracer meter logger ≡ elim (first_failure made) [
        | none ↦ (record { shutdown_funcs = made_before made; called = [] }, [])
        | some e ↦ (
          record { shutdown_funcs = []; called = names (made_before made) },
          e ++ call_all (made_before made),
        )
      ]
unfolding setup_otel_sdk
setup_otel_sdk_lem tracer meter logger = add_providers_lem (tracer ∷ meter ∷ logger ∷ []) []

-- The returned `shutdown` calls every kept function once, in order, and joins their errors; a second
-- call calls none and returns nil.
shutdown_once :
    (s : Sdk)
    → let (t, e) = shutdown s in
      (t.called ≡ s.called ++ names s.shutdown_funcs)
      × (e ≡ call_all s.shutdown_funcs)
      × (shutdown t ≡ (t, []))
unfolding shutdown
shutdown_once s = (refl, refl, ground (arith, append-nil (s.called ++ names s.shutdown_funcs)))

-- An error joined with others is not nil.
nonempty : (e f : List String) → e ≢ [] → (x : String) × ((r : List String) × (e ++ f ≡ x ∷ r))
nonempty [] f h = absurd (h refl)
nonempty (x ∷ e) f h = (x, (e ++ f, refl))

-- However the demonstration's `run` goes, nothing leaks: in the end no shutdown function is kept, and
-- the providers that were made have been shut down, each once and in order. If all three were made,
-- `run` returns the error of the HTTP server joined with those of the shutdowns; otherwise the server
-- is not started, and `run` returns the first constructor's error joined with those of the shutdowns.
-- (An error that a constructor returns is not nil.)
pub run_lem :
    (tracer meter logger : Fallible (List String) Provider) (ending : Ending)
    → let made = tracer ∷ meter ∷ logger ∷ [] in
      ((e : List String) → first_failure made ≡ some e → e ≢ [])
      → (run tracer meter logger ending).0
          ≡ record { shutdown_funcs = []; called = names (made_before made) }
        × ((run tracer meter logger ending).1 ≡ elim (first_failure made) [
          | none ↦ error_of ending ++ call_all (made_before made)
          | some e ↦ e ++ call_all (made_before made)
        ])
unfolding run shutdown
run_lem tracer meter logger ending real =
    let made = tracer ∷ meter ∷ logger ∷ [] in
    let up = setup_otel_sdk_lem tracer meter logger in
    elim (Option-cases (first_failure made)) [
      | inl n ↦ ground (arith, up, n)
      | inr (e, n) ↦
          ground (arith, up, n, real e n, nonempty e (call_all (made_before made)) (real e n))
    ]
