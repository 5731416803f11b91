-- ===== src/RateLimit/Tests.antt =====
-- Eleven requests of a host with one of another between them, a tick, and one more.
use hostscore.Prelude.{ℕ, zero, suc, ◌≡◌, refl, [], ◌∷◌, ◌++◌, List, Bool, true, false}
use hostscore.RateLimit.{Event, tick, request, serve, new_rate_limiter, get_remote_host, loopback}
use hostscore.RateLimit.Window.{due, serve-IsDue}

abbrev requests : ℕ → List Event
requests zero = []
requests (suc n) = request (7 ∷ []) ∷ requests n

abbrev events : List Event
events = requests 10 ++ (request (8 ∷ []) ∷ request (7 ∷ []) ∷ tick ∷ request (7 ∷ []) ∷ [])

serve-IsDue_example : serve events new_rate_limiter ≡ due (λ a. 0) events
serve-IsDue_example = serve-IsDue events

abbrev answers : List Bool
answers =
    false ∷ false ∷ false ∷ false ∷ false ∷ false ∷ false ∷ false ∷ false ∷ false ∷ false ∷ true
    ∷ false ∷ []

eleventh : serve events new_rate_limiter ≡ answers
unfolding serve new_rate_limiter
eleventh = refl

-- A proxy on the same machine tells who asks.
behind_proxy :
    get_remote_host (λ a. a) (record { remote_addr = loopback; forwarded_for = (9 ∷ []) ∷ [] })
    ≡ 9 ∷ []
unfolding get_remote_host
behind_proxy = refl
