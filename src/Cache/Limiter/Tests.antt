-- ===== src/Cache/Limiter/Tests.antt =====
-- The theorems on the rate limiter at a small server of sorted sets.
use huba.Common.{
  ◌≤◌, List, ℕ, zero, suc, ◌+◌, ◌/◌, ◌%◌, String, ◌≡◌, refl, ap, inl, inr, true, Option, none, some,
  [], ◌∷◌, arith, eq_iff, leb, ◌==◌, str_eq, if◌then◌else◌, Option-cases, is_some, replicate,
  Fallible, ok, err,
}
use Prim.Native.Char.{code}
use huba.Common.Int.{ℤ, pos, negsuc}
use huba.Cache.Redis.{Delivery, answered, failed}
use huba.Cache.Limiter.{SortedSets, IsSortedSets, above, remaining_quota}
use huba.Cache.Limiter.Bursts.{allow_all, bursts_allowed}
use huba.Cache.Limiter.Bounds.{allow_calls, members_bounded}
use huba.Cache.Limiter.Quota.{remaining_quota_unreadable}

-- Numbers as strokes, behind their sign.
abbrev strokes : ℕ → String
strokes zero = ""
strokes (suc n) = String.◌∷◌ "|" (strokes n)

abbrev count_strokes : String → ℕ
count_strokes String.[] = 0
count_strokes (String.◌∷◌ c s) = suc (count_strokes s)

count-strokes : (n : ℕ) → count_strokes (strokes n) ≡ n
count-strokes zero = refl
count-strokes (suc n) = ap suc (count-strokes n)

abbrev signed : ℤ → String
signed (pos n) = String.◌∷◌ "+" (strokes n)
signed (negsuc n) = String.◌∷◌ "-" (strokes n)

abbrev read_signed : String → Option ℤ
read_signed String.[] = none
read_signed (String.◌∷◌ c s) =
    if code c == b'+'
    then some (pos (count_strokes s))
    else if code c == b'-'
    then some (negsuc (count_strokes s))
    else none

read-signed : (z : ℤ) → read_signed (signed z) ≡ some z
read-signed (pos n) = ap (λ (k : ℕ). some (pos k)) (count-strokes n)
read-signed (negsuc n) = ap (λ (k : ℕ). some (negsuc k)) (count-strokes n)

-- The number of members and the score of each, for each time and key.
abbrev Sets : Type 0
Sets = ℕ → String → ℕ × (String → Option ℕ)

abbrev update : Sets → String → ℕ × (String → Option ℕ) → Sets
update s key v u j = if str_eq key j then v else s u j

abbrev trim : Option ℤ → ℕ × (String → Option ℕ) → ℕ × (String → Option ℕ)
trim none v = v
trim (some z) (n, score) = (n, λ name. above z (score name))

abbrev trimmed : Option ℤ → String → Sets → Sets × Fallible String ℕ
trimmed none key s = (s, err "no float")
trimmed (some z) key s = ((λ u j. if str_eq key j then trim (some z) (s u j) else s u j), ok 0)

abbrev add_member : ℕ → String → ℕ × (String → Option ℕ) → ℕ × (String → Option ℕ)
add_member n name (count, score) = (
  if is_some (score name) then count else count + 1,
  λ other. if str_eq name other then some n else score other,
)

abbrev sets : SortedSets
sets = record {
  Server = Sets;
  card = λ s u key. (s u key).0;
  score = λ s u key. (s u key).1;
  read = read_signed;
  number = signed;
  seconds = λ n. "1700000000";
  random = "0.17";
  rune_text = λ z. "�";
  expired = leb;
  zrem_range = λ t key max s. trimmed (read_signed max) key s;
  zadd = λ t key n name s. update s key (add_member n name (s t key));
  expire = λ t key window s.
      if window % 1000000000 == 0
      then (
        (λ u j.
            if str_eq key j
            then if leb (t + window / 1000000) u then (0, λ name. none) else s t key
            else s u j),
        ok 1,
      )
      else (s, err "no integer");
}

sets-IsSortedSets : IsSortedSets sets
sets-IsSortedSets = record {
  read-number = read-signed;
  read_replacement = refl;
  rune_text_invalid = λ n h. refl;
  zrem_range_unreadable = λ t key max s h. rw h refl;
  zrem_range_ok = λ t key max z s h. rw h refl;
  score-zrem_range = λ t key max name z s h. ground (arith, eq_iff key key);
  card-zrem_range = λ t u key max s h. elim (Option-cases (read_signed max)) [
    | inl e ↦ ground (arith, eq_iff key key)
    | inr (z, e) ↦ ground (arith, eq_iff key key)
  ];
  score-zadd = λ t n key name s. ground (arith, eq_iff key key, eq_iff name name);
  card-zadd = λ t n key name s. ground (arith, eq_iff key key);
  expire_ok = λ t window key s h. ground arith;
  card-expire = λ t u window key s h p le. ground (arith, eq_iff key key);
  score-expire = λ t u window key name s h p le. ground (arith, eq_iff key key);
}

abbrev unused : Sets
unused u key = (0, λ name. none)

bursts_allowed_example :
    allow_all sets
      (record { window = 60000000000; max_requests = pos 2 })
      "user"
      1700000000
      (1 ∷ 2 ∷ 3 ∷ 4 ∷ 5 ∷ [])
      unused
    ≡ replicate 5 (true, none)
bursts_allowed_example =
    bursts_allowed sets sets-IsSortedSets 60000000000 2 "user" 1700000000 0 unused
      (1 ∷ 2 ∷ 3 ∷ 4 ∷ 5 ∷ []) (omega arith) (omega arith) (omega arith) (λ u h. refl) (omega arith)

remaining_quota_unreadable_example :
    ((remaining_quota sets
        (answered [] 1)
        (answered [] 2)
        "user"
        1700000000
        (record { window = 60000000000; max_requests = pos 2 })
        unused).1
      ≡ 0)
    × (is_some
          (remaining_quota sets
            (answered [] 1)
            (answered [] 2)
            "user"
            1700000000
            (record { window = 60000000000; max_requests = pos 2 })
            unused).2
        ≡ true)
remaining_quota_unreadable_example =
    remaining_quota_unreadable sets sets-IsSortedSets (answered [] 1) (answered [] 2) "user"
      1700000000 (record { window = 60000000000; max_requests = pos 2 }) unused (omega arith)

abbrev spread : List (Delivery × ℕ)
spread =
    (answered (1 ∷ []) 2, 1700000000)
    ∷ (failed (3 ∷ []) "timeout", 1700000001)
    ∷ (answered [] 4, 1700000002)
    ∷ []

members_bounded_example :
    sets.card
      (allow_calls sets
        (record { window = 60000000000; max_requests = pos 2 })
        "user"
        spread
        unused)
      9
      "ratelimit:user"
    ≤ 2
members_bounded_example =
    members_bounded sets sets-IsSortedSets 60000000000 2 "user" spread 0 9 unused (omega arith)
      (omega arith) (λ v h. omega arith) (omega arith) (omega arith)
