-- ===== src/Server/Tests.antt =====
-- The middleware at two base handlers.
use huba.Common.{◌≡◌, refl, ◌⊎◌, true, none, some, [], ◌∷◌, ◌++◌, is_some}
use huba.Common.Decimal.{format_int}
use huba.Server.{access, Request, World, Handler, main_handler, chain, random_string}
use huba.Server.Chain.{base_result, line_of, status_of, chain_lem}

abbrev request : Request
request = record { request_id = none; method = "GET"; path = "/" }

abbrev fresh : World
fresh = record { status = none; body = ""; log = [] }

abbrev panicking : Handler
panicking r w = (w, some "something went wrong")

chain_lem_example :
    let (w', panic) = base_result 1700 panicking request fresh in
    let (out, escaped) = chain 1700 5 9 panicking request fresh in
    (escaped ≡ none)
    × (out.log ≡ w'.log ++ line_of 1700 5 9 request panic ∷ [])
    × (out.status ≡ status_of w'.status panic)
    × ((is_some panic ≡ true) ⊎ (out.body ≡ w'.body))
chain_lem_example = chain_lem 1700 5 9 panicking request fresh

main_request : chain 1700 5 9 main_handler request fresh ≡ (
  record {
    status = some 200;
    body = "Hello, Production-Grade HTTP Interceptor!";
    log = access "1700" "GET" "/" 4 ∷ [];
  },
  none,
)
unfolding chain main_handler format_int
main_request = refl

first_letters : random_string (0 ∷ 63 ∷ []) ≡ some b'a' ∷ some b'b' ∷ []
unfolding random_string
first_letters = refl
