-- ===== src/Server/Chain.antt =====
-- What the middleware guarantees.
use huba.Common.{
  ℕ, ◌-◌, ◌%◌, ◌≤◌, ◌<◌, String, ◌≡◌, refl, ◌⊎◌, inl, inr, true, Option, none, some, List, [], ◌∷◌,
  ◌++◌, arith, Option-cases, is_some, length, get_elem?, All, get_elem?-below,
}
use huba.Common.Int.{pos}
use huba.Common.Decimal.{format_int}
use huba.Server.{
  Line, access, recovered, Request, World, Handler, chain, charset, random_number, random_string,
}

-- What the base handler does with the request as it reaches it.
abbrev pub base_result : ℕ → Handler → Request → World → World × Option String
base_result now base r w = base (record r { request_id = some (format_int (pos now)) }) w

abbrev pub line_of : ℕ → ℕ → ℕ → Request → Option String → Line
line_of now start finish r none = access (format_int (pos now)) r.method r.path (finish - start)
line_of now start finish r (some value) = recovered value

abbrev pub status_of : Option ℕ → Option String → Option ℕ
status_of s none = s
status_of none (some value) = some 500
status_of (some s) (some value) = some s

-- Whatever the base handler does, a request through the middleware never panics, and adds exactly
-- one line to the log: after a normal end the access line, under the id that the base handler was
-- given, and after a panic the line of the recovered value and no access line. The status is the one
-- that the base handler left, but 500 after a panic before any header; a body without a panic is
-- left as it was.
pub chain_lem :
    (now start finish : ℕ) (base : Handler) (r : Request) (w : World)
    → let (w', panic) = base_result now base r w in
      let (out, escaped) = chain now start finish base r w in
      (escaped ≡ none)
      × (out.log ≡ w'.log ++ line_of now start finish r panic ∷ [])
      × (out.status ≡ status_of w'.status panic)
      × ((is_some panic ≡ true) ⊎ (out.body ≡ w'.body))
unfolding chain
chain_lem now start finish base r w = elim (Option-cases (base_result now base r w).1) [
  | inl e ↦ ground arith
  | inr (value, e) ↦ ground arith
]

-- The number has four digits.
pub random_number_bounds : (now : ℕ) → (1000 ≤ random_number now) × (random_number now ≤ 9999)
unfolding random_number
random_number_bounds now = omega arith

get_elem?-charset : (i : ℕ) → i < length charset → is_some (get_elem? charset i) ≡ true
get_elem?-charset i h = let (x, e) = get_elem?-below charset i h in rw e refl

-- Every clock reading gives a character.
pub random_string_lem : (nows : List ℕ) → All (λ c. is_some c ≡ true) (random_string nows)
unfolding random_string
random_string_lem [] = tt
random_string_lem (now ∷ nows) =
    (get_elem?-charset (now % length charset) (omega arith), random_string_lem nows)
