-- ===== src/RateLimit/Window.antt =====
-- cmd/hsc/ratelimit.go: what is refused, by the requests since the last tick.
use hostscore.Prelude.{
  ℕ, suc, ◌≡◌, refl, sym, ap, ◌∙◌, List, [], ◌∷◌, Bool, true, false, ltb, if◌then◌else◌, str_eq,
  str_eq-eq, str_eq_refl, arith, Bool-cases, inl, inr,
}
use hostscore.RateLimit.{
  RateLimiter, new_rate_limiter, read, increment, limit_exceeded, Event, tick, request, handle,
  serve,
}

-- The answers that are due where each address has made `made` requests since the last tick.
abbrev pub due : (List ℕ → ℕ) → List Event → List Bool
due made [] = []
due made (tick ∷ es) = due (λ a. 0) es
due made (request addr ∷ es) =
    ltb 10 (suc (made addr)) ∷ due (λ a. if str_eq addr a then suc (made a) else made a) es

str_eq_left : (a b c : List ℕ) → str_eq a b ≡ true → str_eq a c ≡ str_eq b c
str_eq_left a b c h = ap (λ x. str_eq x c) (str_eq-eq a b h)

read-increment :
    (addr a : List ℕ) (m : List (List ℕ × ℕ))
    → read a (increment addr m) ≡ (if str_eq addr a then suc (read a m) else read a m)
read-increment addr a [] = ground arith
read-increment addr a ((k, n) ∷ m) = elim (Bool-cases (str_eq k addr)) [
  | inl same ↦ rw (same, str_eq_left k addr a same) (ground arith)
  | inr other ↦ rw other (elim (Bool-cases (str_eq addr a)) [
    | inl asked ↦
        let apart : str_eq k a ≡ false = ap (str_eq k) (sym (str_eq-eq addr a asked)) ∙ other in
        rw (asked, apart, read-increment addr a m, asked) refl
    | inr not_asked ↦ rw (not_asked, read-increment addr a m, not_asked) refl
  ])
]

serve-due :
    (es : List Event) (rl : RateLimiter) (made : List ℕ → ℕ)
    → ((a : List ℕ) → read a rl.requests ≡ made a)
    → serve es rl ≡ due made es
unfolding serve limit_exceeded handle new_rate_limiter
serve-due [] rl made h = refl
serve-due (tick ∷ es) rl made h = serve-due es new_rate_limiter (λ a. 0) (λ a. refl)
serve-due (request addr ∷ es) rl made h =
    let counted : read addr (increment addr rl.requests) ≡ suc (made addr) =
      read-increment addr addr rl.requests ∙ rw (str_eq_refl addr) (ap suc (h addr)) in
    rw counted (
      ap (◌∷◌ (ltb 10 (suc (made addr))))
        (serve-due es _ _ (λ a. rw (read-increment addr a rl.requests, h a) refl)))

-- A request is refused exactly when its address has made more than ten since the last tick, this one
-- counted; the requests of other addresses do not count.
pub serve-IsDue : (es : List Event) → serve es new_rate_limiter ≡ due (λ a. 0) es
unfolding new_rate_limiter
serve-IsDue es = serve-due es new_rate_limiter (λ a. 0) (λ a. refl)
