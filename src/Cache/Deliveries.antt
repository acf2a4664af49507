-- ===== src/Cache/Deliveries.antt =====
-- Commands that are executed at ascending times, once or several times for one call.
use huba.Common.{Fallible, ◌<◌, err, ℕ, ◌≤◌, String, ◌≡◌, refl, ap, List, [], ◌∷◌, ◌++◌, arith, ok}
use huba.Cache.Redis.{Delivery, answered, failed, times, send}

abbrev pub Ascends : ℕ → List ℕ → Type 0
Ascends t [] = Unit
Ascends t (u ∷ us) = t ≤ u × Ascends u us

abbrev pub last_time : ℕ → List ℕ → ℕ
last_time t [] = t
last_time t (u ∷ us) = last_time u us

pub le-last_time : (t : ℕ) (us : List ℕ) → Ascends t us → t ≤ last_time t us
le-last_time t [] a = omega arith
le-last_time t (u ∷ us) a = omega (arith, le-last_time u us a.1)

abbrev pub map_ok : {A B : Type 0} → (A → B) → Fallible String A → Fallible String B
map_ok f (ok a) = ok (f a)
map_ok f (err e) = err e

-- Two ways to execute a command that agree at each execution agree for the whole call.
module _ {S T A B : Type 0} (step : ℕ → S → S × A) (other : ℕ → T → T × B) (view : A → B)
    (R : ℕ → S → T → Type 0)
    (sim : (t u : ℕ) (s : S) (h : T)
      → t ≤ u
      → R t s h
      → R u (step u s).0 (other u h).0 × (view (step u s).1 ≡ (other u h).1)) where
  agree_answered :
      (lost : List ℕ) (t u : ℕ) (s : S) (h : T)
      → R t s h
      → Ascends t (lost ++ u ∷ [])
      → R
          (last_time t (lost ++ u ∷ []))
          (send step (answered lost u) s).0
          (send other (answered lost u) h).0
        × (map_ok view (send step (answered lost u) s).1 ≡ (send other (answered lost u) h).1)
  unfolding send
  agree_answered [] t u s h holds a = let (held, same) = sim t u s h a.0 holds in (held, ap ok same)
  agree_answered (v ∷ lost) t u s h holds a =
      agree_answered lost v u (step v s).0 (other v h).0 (sim t v s h a.0 holds).0 a.1

  agree_failed :
      (lost : List ℕ) (e : String) (t : ℕ) (s : S) (h : T)
      → R t s h
      → Ascends t lost
      → R (last_time t lost) (send step (failed lost e) s).0 (send other (failed lost e) h).0
  unfolding send
  agree_failed [] e t s h holds a = holds
  agree_failed (v ∷ lost) e t s h holds a =
      agree_failed lost e v (step v s).0 (other v h).0 (sim t v s h a.0 holds).0 a.1

  pub send-agrees :
      (d : Delivery) (t : ℕ) (s : S) (h : T)
      → R t s h
      → Ascends t (times d)
      → R (last_time t (times d)) (send step d s).0 (send other d h).0
        × (map_ok view (send step d s).1 ≡ (send other d h).1)
  unfolding send
  send-agrees (answered lost u) t s h holds a = agree_answered lost t u s h holds a
  send-agrees (failed lost e) t s h holds a = (agree_failed lost e t s h holds a, refl)

-- What holds of an answer, if there is one.
abbrev pub Answers : {A : Type 0} → (A → Type 0) → Fallible String A → Type 0
Answers Q (ok a) = Q a
Answers Q (err e) = Unit

-- What every execution before `finish` keeps and gives holds for the whole call.
module _ {S A : Type 0} (step : ℕ → S → S × A) (finish : ℕ) (P : ℕ → S → Type 0) (Q : A → Type 0)
    (keep : (t u : ℕ) (s : S)
      → t ≤ u
      → u < finish
      → P t s
      → P u (step u s).0 × Q (step u s).1) where
  keep_answered :
      (lost : List ℕ) (t u : ℕ) (s : S)
      → P t s
      → Ascends t (lost ++ u ∷ [])
      → last_time t (lost ++ u ∷ []) < finish
      → P (last_time t (lost ++ u ∷ [])) (send step (answered lost u) s).0
        × Answers Q (send step (answered lost u) s).1
  unfolding send
  keep_answered [] t u s holds a b = keep t u s a.0 b holds
  keep_answered (v ∷ lost) t u s holds a b =
      let v-lt : v < finish = omega (arith, le-last_time v (lost ++ u ∷ []) a.1, b) in
      keep_answered lost v u (step v s).0 (keep t v s a.0 v-lt holds).0 a.1 b

  keep_failed :
      (lost : List ℕ) (e : String) (t : ℕ) (s : S)
      → P t s
      → Ascends t lost
      → last_time t lost < finish
      → P (last_time t lost) (send step (failed lost e) s).0
  unfolding send
  keep_failed [] e t s holds a b = holds
  keep_failed (v ∷ lost) e t s holds a b =
      let v-lt : v < finish = omega (arith, le-last_time v lost a.1, b) in
      keep_failed lost e v (step v s).0 (keep t v s a.0 v-lt holds).0 a.1 b

  pub send-keeps :
      (d : Delivery) (t : ℕ) (s : S)
      → P t s
      → Ascends t (times d)
      → last_time t (times d) < finish
      → P (last_time t (times d)) (send step d s).0 × Answers Q (send step d s).1
  unfolding send
  send-keeps (answered lost u) t s holds a b = keep_answered lost t u s holds a b
  send-keeps (failed lost e) t s holds a b = (keep_failed lost e t s holds a b, tt)
