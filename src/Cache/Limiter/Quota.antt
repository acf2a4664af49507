-- ===== src/Cache/Limiter/Quota.antt =====
-- The remaining quota, and what a call of `Allow` counts.
use huba.Common.{
  ℕ, ◌+◌, ◌-◌, ◌/◌, ◌<◌, String, ◌<>◌, ◌≡◌, refl, ap, ◌∙◌, inl, inr, true, arith, is_some,
  Fallible-cases,
}
use huba.Common.Int.{pos, sub_ℕ}
use huba.Cache.Redis.{Delivery, answered, failed, send, repeat}
use huba.Cache.Limiter.{SortedSets, IsSortedSets, RateLimiter, remaining_quota}

-- `RemainingQuota` never succeeds at a real time. Where the clock less the window is past 1114111,
-- the last code point (as Unix times are), it returns 0 with an error, whatever the network does,
-- since `string(n)` of that number is no number for the server.
pub remaining_quota_unreadable :
    (r : SortedSets) (laws : IsSortedSets r) (d_remove d_count : Delivery) (key : String) (now : ℕ)
    (rl : RateLimiter) (s : r.Server)
    → rl.window / 1000000000 + 0x10FFFF < now
    → ((remaining_quota r d_remove d_count key now rl s).1 ≡ 0)
      × (is_some (remaining_quota r d_remove d_count key now rl s).2 ≡ true)
unfolding remaining_quota send
remaining_quota_unreadable r laws (failed lost e) d_count key now rl s late = (refl, refl)
remaining_quota_unreadable r laws (answered lost t) d_count key now rl s late =
    let secs = rl.window / 1000000000 in
    let max = r.rune_text (pos (now - secs)) in
    let before = repeat (λ t. r.zrem_range t ("ratelimit:" <> key) max) lost s in
    let whole : sub_ℕ now secs ≡ pos (now - secs) = ground arith in
    let text = laws.rune_text_invalid (now - secs) (omega (arith, late)) in
    let refused =
      laws.zrem_range_unreadable t ("ratelimit:" <> key) max before
        (ap r.read text ∙ laws.read_replacement) in
    rw whole (elim (Fallible-cases (r.zrem_range t ("ratelimit:" <> key) max before).1) [
      | inl (n, e) ↦ absurd (ground arith)
      | inr (p, e) ↦ rw e (refl, refl)
    ])
