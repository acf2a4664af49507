-- ===== src/Server.antt =====
-- main.go: the middleware around the base handler, and the periodic log line. Clock readings are
-- arguments; the routing of net/http and the endless loop of the logger are left out.
pub mod Chain
mod Tests
use huba.Common.{
  ℕ, zero, suc, ◌+◌, ◌-◌, ◌*◌, ◌/◌, ◌%◌, ◌^◌, ◌≤◌, ◌<◌, String, ◌<>◌, ◌≡◌, refl, sym, ap, ◌∙◌, ◌≢◌,
  ◌↔◌, ◌⊎◌, inl, inr, Bool, true, false, not, ◌&&◌, ◌||◌, Option, none, some, List, [], ◌∷◌, ◌++◌,
  map, arith, eq_iff, eq_refl, ltb, leb, ◌==◌, str_eq, if◌then◌else◌, ltb→lt, lt→ltb, leb→le,
  ==_iff, tests, Bool-cases, Option-cases, is_some, length, get_elem?, set, erase_idx, take,
  replicate, All, length-append, length-set, length-replicate, length-erase_idx, Fallible, ok, err,
  ◌>>=◌, ◌>>◌, map_err, Fallible-cases, get_elem?-set_self, set-set, set-get_elem?, get_elem?-below,
  get_elem?-set_ne,
}
use huba.Common.Int.{ℤ, pos}
use huba.Common.Decimal.{format_int}
use huba.Common.Script.{codes}

-- `log.Printf`: the line of a finished request, with its duration, or that of a panic.
pub data Line : Type 0 where
  access : String → String → String → ℕ → Line
  recovered : String → Line

-- What a handler reads and writes. `status` is `none` until the header is sent.
pub record Request : Type 0 where
  pub request_id : Option String
  pub method : String
  pub path : String

pub record World : Type 0 where
  pub status : Option ℕ
  pub body : String
  pub log : List Line

-- A handler returns, or panics with a value.
abbrev pub Handler : Type 0
Handler = Request → World → World × Option String

-- The first write sends the header, with 200 unless another status was set before.
unfoldable pub send_header : ℕ → World → World
send_header code w = record w { status = elim w.status [ none ↦ some code | some s ↦ some s ] }

unfoldable pub write : String → World → World
unfolding send_header
write text w = let w' = send_header 200 w in record w' { body = w'.body <> text }

unfoldable pub http_error : String → ℕ → World → World
unfolding send_header write
http_error text code w = write (text <> "\n") (send_header code w)

unfoldable pub print_line : Line → World → World
print_line line w = record w { log = w.log ++ line ∷ [] }

unfoldable pub with_request_id : ℕ → Handler → Handler
with_request_id now next r w = next (record r { request_id = some (format_int (pos now)) }) w

-- A request without an id is logged under the empty one.
unfoldable pub id_of : Request → String
id_of r = elim r.request_id [ none ↦ "" | some id ↦ id ]

unfoldable pub logging_middleware : ℕ → ℕ → Handler → Handler
unfolding print_line id_of
logging_middleware start finish next r w =
    let (w', panic) = next r w in
    elim panic [
      | some value ↦ (w', some value)
      | none ↦ (print_line (access (id_of r) r.method r.path (finish - start)) w', none)
    ]

unfoldable pub recovery_middleware : Handler → Handler
unfolding print_line http_error
recovery_middleware next r w =
    let (w', panic) = next r w in
    elim panic [
      | none ↦ (w', none)
      | some value ↦
          (http_error "Internal Server Error" 500 (print_line (recovered value) w'), none)
    ]

unfoldable pub main_handler : Handler
unfolding write
main_handler r w = (write "Hello, Production-Grade HTTP Interceptor!" w, none)

-- The handler that `main` builds around the base handler.
unfoldable pub chain : ℕ → ℕ → ℕ → Handler → Handler
unfolding recovery_middleware with_request_id logging_middleware
chain now start finish base =
    recovery_middleware (with_request_id now (logging_middleware start finish base))

abbrev pub charset : List ℕ
charset = codes "abcdefghijklmnopqrstuvwxyzABCDEFGHIJKLMNOPQRSTUVWXYZ0123456789"

unfoldable pub random_number : ℕ → ℕ
random_number now = 1000 + now % 9000

-- One byte for each clock reading; `none` would be an index out of range.
unfoldable pub random_string : List ℕ → List (Option ℕ)
random_string nows = map (λ now. get_elem? charset (now % length charset)) nows
