-- ===== src/Common/Script.antt =====
-- Programs that call components and print: a step from a state gives the new state, the lines
-- printed, and a value; `none` where `log.Fatalf` has ended the program.
use Prim.Native.Nat.{ℕ}
use Prim.Native.String.{String}
use Prim.Native.Char.{code}
use mathlib.Core.Bool.{Bool, true, false}
use mathlib.Core.Option.{Option, none, some}
use mathlib.Core.List.{List, [], ◌∷◌, ◌++◌}

abbrev pub Script : Type 0 → Type 0 → Type 0
Script S A = S → S × List String × Option A

infixl 5 ◌>>=◌ ◌>>◌
abbrev pub ◌>>=◌ : {S A B : Type 0} → Script S A → (A → Script S B) → Script S B
◌>>=◌ m f s =
    let (s', lines, o) = m s in
    elim o [
      | none ↦ (s', lines, none)
      | some a ↦ let (s'', more, p) = f a s' in (s'', lines ++ more, p)
    ]

abbrev pub ◌>>◌ : {S A B : Type 0} → Script S A → Script S B → Script S B
m >> k = m >>= λ _. k

abbrev pub pure : {S A : Type 0} → A → Script S A
pure a s = (s, [], some a)

abbrev pub print : {S : Type 0} → String → Script S (Unit {0})
print line s = (s, line ∷ [], some tt)

abbrev pub fatal : {S A : Type 0} → String → Script S A
fatal line s = (s, line ∷ [], none)

-- A call of an operation that changes the state.
abbrev pub call : {S A : Type 0} → (S → S × A) → Script S A
call step s = let (s', a) = step s in (s', [], some a)

abbrev pub call2 : {S A B : Type 0} → (S → S × A × B) → Script S (A × B)
call2 step s = let (s', a, b) = step s in (s', [], some (a, b))

-- `%v` of a Boolean.
abbrev pub show_bool : Bool → String
show_bool true = "true"
show_bool false = "false"

-- The code points of a text: its bytes, if it is ASCII.
abbrev pub codes : String → List ℕ
codes String.[] = []
codes (String.◌∷◌ c s) = code c ∷ codes s
