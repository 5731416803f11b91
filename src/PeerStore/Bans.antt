-- ===== src/PeerStore/Bans.antt =====
-- internal/syncerutil/store.go: which peers are banned, after any calls.
use hostscore.Prelude.{
  ℕ, ◌+◌, ◌-◌, ◌≤◌, ◌≡◌, refl, sym, ap, ◌∙◌, List, [], ◌∷◌, Bool, true, false, ◌||◌, Option, none,
  some, arith, ltb, leb, if◌then◌else◌, str_eq, str_eq-eq, All, Bool-cases, Option-cases, inl, inr,
}
use hostscore.PeerStore.{
  PeerLib, PeerBan, PeerInfo, Bans, EphemeralPeerStore, JsonPeerStore, Call, add, list, update, ask,
  forbid, remove_ban, find_peer, look_for, ban_keys, banned, add_peer, list_peers, update_peer_info,
  canonical, unless_expired, save, in_memory, writes, run_call, or_same,
}
use mathlib.Core.Path.{subst}

-- Whether a ban on a key stands at a time.
abbrev pub live : ℕ → Option PeerBan → Bool
live t none = false
live t (some b) = ltb t b.expiry

-- The calls, with the time of each and the success of its write.
abbrev pub Timed : Type 0
Timed = Bool × ℕ × Call

unfoldable pub run_calls : PeerLib → List Timed → JsonPeerStore → JsonPeerStore
unfolding run_call
run_calls lib [] s = s
run_calls lib ((ok, at, call) ∷ cs) s = run_calls lib cs (run_call lib ok at call s)

abbrev pub one_of : (List ℕ → Bool) → List (List ℕ) → Bool
one_of f [] = false
one_of f (k ∷ ks) = f k || one_of f ks

-- Whether a key is banned at `t` after some calls, as told by the last ban of it, or else by `old`.
abbrev pub told : PeerLib → ℕ → List Timed → List ℕ → Bool → Bool
told lib t [] k old = old
told lib t ((ok, at, forbid addr duration reason) ∷ cs) k old =
    told lib t cs k (if str_eq (canonical lib addr) k then ltb t (at + duration) else old)
told lib t ((ok, at, add addr) ∷ cs) k old = told lib t cs k old
told lib t ((ok, at, list) ∷ cs) k old = told lib t cs k old
told lib t ((ok, at, update addr f) ∷ cs) k old = told lib t cs k old
told lib t ((ok, at, ask addr) ∷ cs) k old = told lib t cs k old

-- Two maps have the same bans that stand at `t` or later.
abbrev Same : ℕ → Bans → Bans → Type 0
Same t bans bans' = (u : ℕ) (k : List ℕ) → t ≤ u → live u (bans k) ≡ live u (bans' k)

remove_ban-Same :
    (t : ℕ) (k : List ℕ) (b : PeerBan) (bans : Bans)
    → bans k ≡ some b
    → leb b.expiry t ≡ true
    → Same t (remove_ban k bans) bans
remove_ban-Same t k b bans h old u j le = elim (Bool-cases (str_eq k j)) [
  | inl same ↦
      let here : bans j ≡ some b = subst (λ i. bans i ≡ some b) (str_eq-eq k j same) h in
      rw (same, here) (ground arith)
  | inr other ↦ rw other refl
]

unless_expired-live :
    (t u : ℕ) (o : Option PeerBan) → t ≤ u → live u (unless_expired t o) ≡ live u o
unless_expired-live t u none le = refl
unless_expired-live t u (some b) le = ground arith

look_for-Same : (t : ℕ) (ks : List (List ℕ)) (bans : Bans) → Same t (look_for t ks bans).0 bans
unfolding look_for
look_for-Same t [] bans u j le = refl
look_for-Same t (k ∷ ks) bans u j le = elim (Option-cases (bans k)) [
  | inl h ↦ rw (h, look_for) (look_for-Same t ks bans u j le)
  | inr (b, h) ↦ elim (Bool-cases (leb b.expiry t)) [
    | inl old ↦
        rw (h, old, look_for)
          (look_for-Same t ks (remove_ban k bans) u j le ∙ remove_ban-Same t k b bans h old u j le)
    | inr standing ↦ rw (h, standing, look_for) refl
  ]
]

one_of_same :
    (f g : List ℕ → Bool) (ks : List (List ℕ))
    → ((k : List ℕ) → f k ≡ g k)
    → one_of f ks ≡ one_of g ks
one_of_same f g [] h = refl
one_of_same f g (k ∷ ks) h = rw (h k, one_of_same f g ks h) refl

look_for-one_of :
    (t : ℕ) (ks : List (List ℕ)) (bans : Bans)
    → (look_for t ks bans).1 ≡ one_of (λ k. live t (bans k)) ks
unfolding look_for
look_for-one_of t [] bans = refl
look_for-one_of t (k ∷ ks) bans = elim (Option-cases (bans k)) [
  | inl h ↦ rw (h, look_for) (look_for-one_of t ks bans)
  | inr (b, h) ↦ elim (Bool-cases (leb b.expiry t)) [
    | inl old ↦
        let gone : ltb t b.expiry ≡ false = ground arith in
        rw (h, old, gone, look_for)
          (look_for-one_of t ks (remove_ban k bans)
            ∙ one_of_same _ _ ks (λ j. remove_ban-Same t k b bans h old t j (omega arith)))
    | inr standing ↦
        let there : ltb t b.expiry ≡ true = ground arith in rw (h, standing, there, look_for) refl
  ]
]

banned-Same :
    (lib : PeerLib) (t : ℕ) (peer : List ℕ) (s : EphemeralPeerStore)
    → Same t (banned lib t peer s).0.bans s.bans
unfolding banned
banned-Same lib t peer s = look_for-Same t (ban_keys lib peer) s.bans

list_peers-Same :
    (lib : PeerLib) (t : ℕ) (ps : List (List ℕ × PeerInfo)) (s : EphemeralPeerStore)
    → Same t (list_peers lib t ps s).0.bans s.bans
unfolding list_peers
list_peers-Same lib t [] s u k le = refl
list_peers-Same lib t ((addr, p) ∷ ps) s u k le =
    list_peers-Same lib t ps (banned lib t addr s).0 u k le ∙ banned-Same lib t addr s u k le

add_peer-bans : (t : ℕ) (addr : List ℕ) (s : EphemeralPeerStore) → (add_peer t addr s).bans ≡ s.bans
unfolding add_peer
add_peer-bans t addr s = elim (Option-cases (find_peer addr s.peers)) [
  | inl h ↦ rw (h, add_peer) refl
  | inr (p, h) ↦ rw (h, add_peer) refl
]

update_peer_info-bans :
    (addr : List ℕ) (f : PeerInfo → PeerInfo) (s : EphemeralPeerStore)
    → (or_same s (update_peer_info addr f s)).bans ≡ s.bans
unfolding update_peer_info
update_peer_info-bans addr f s = elim (Option-cases (find_peer addr s.peers)) [
  | inl h ↦ rw (h, update_peer_info, or_same) refl
  | inr (p, h) ↦ rw (h, update_peer_info, or_same) refl
]

save-Same :
    (ok : Bool) (t : ℕ) (s : JsonPeerStore) → Same t (save ok t s).0.memory.bans s.memory.bans
unfolding save
save-Same ok t s u k le = elim (Bool-cases (ltb (t - s.last_save) 5_000_000_000)) [
  | inl early ↦ rw early refl
  | inr late ↦ elim (Bool-cases ok) [
    | inl written ↦ rw (late, written) (unless_expired-live t u (s.memory.bans k) le)
    | inr failed ↦ rw (late, failed) (unless_expired-live t u (s.memory.bans k) le)
  ]
]

-- What one call tells of a key.
in_memory-told :
    (lib : PeerLib) (ok : Bool) (at t : ℕ) (call : Call) (s : EphemeralPeerStore) (k : List ℕ)
    → at ≤ t
    → live t ((in_memory lib at call s).bans k)
      ≡ told lib t ((ok, at, call) ∷ []) k (live t (s.bans k))
unfolding in_memory
in_memory-told lib ok at t (add addr) s k le = ap (λ b. live t (b k)) (add_peer-bans at addr s)
in_memory-told lib ok at t list s k le = list_peers-Same lib at s.peers s t k le
in_memory-told lib ok at t (update addr f) s k le =
    ap (λ b. live t (b k)) (update_peer_info-bans addr f s)
in_memory-told lib ok at t (ask addr) s k le = banned-Same lib at addr s t k le
in_memory-told lib ok at t (forbid addr duration reason) s k le =
    elim (Bool-cases (str_eq (canonical lib addr) k)) [
      | inl same ↦ rw same refl
      | inr other ↦ rw other refl
    ]

run_call-told :
    (lib : PeerLib) (ok : Bool) (at t : ℕ) (call : Call) (s : JsonPeerStore) (k : List ℕ)
    → at ≤ t
    → live t ((run_call lib ok at call s).memory.bans k)
      ≡ told lib t ((ok, at, call) ∷ []) k (live t (s.memory.bans k))
unfolding run_call
run_call-told lib ok at t call s k le = elim (Bool-cases (writes call)) [
  | inl w ↦ rw w (
      save-Same ok at (record s { memory = in_memory lib at call s.memory }) t k le
      ∙ in_memory-told lib ok at t call s.memory k le)
  | inr r ↦ rw r (in_memory-told lib ok at t call s.memory k le)
]

told_first :
    (lib : PeerLib) (t : ℕ) (c : Timed) (cs : List Timed) (k : List ℕ) (old : Bool)
    → told lib t (c ∷ cs) k old ≡ told lib t cs k (told lib t (c ∷ []) k old)
told_first lib t (ok, at, add addr) cs k old = refl
told_first lib t (ok, at, list) cs k old = refl
told_first lib t (ok, at, update addr f) cs k old = refl
told_first lib t (ok, at, ask addr) cs k old = refl
told_first lib t (ok, at, forbid addr duration reason) cs k old = refl

run_calls-told :
    (lib : PeerLib) (t : ℕ) (cs : List Timed) (s : JsonPeerStore) (k : List ℕ)
    → All (λ c. c.1 ≤ t) cs
    → live t ((run_calls lib cs s).memory.bans k) ≡ told lib t cs k (live t (s.memory.bans k))
unfolding run_calls
run_calls-told lib t [] s k le = refl
run_calls-told lib t ((ok, at, call) ∷ cs) s k (le, les) =
    run_calls-told lib t cs (run_call lib ok at call s) k les
    ∙ ap (told lib t cs k) (run_call-told lib ok at t call s k le)
    ∙ sym (told_first lib t (ok, at, call) cs k (live t (s.memory.bans k)))

-- After any calls up to a time, whatever their order and the success of their writes, a peer is banned
-- at that time if and only if its address, or one of the subnets /32, /24, /16 and /8 of its host, is
-- banned: the last ban of it among the calls stands for its duration, and a ban from before the calls
-- until its expiry if none of the calls bans it again. Expired bans that are dropped on the way change
-- no answer.
pub run_calls-banned :
    (lib : PeerLib) (t : ℕ) (cs : List Timed) (s : JsonPeerStore) (peer : List ℕ)
    → All (λ c. c.1 ≤ t) cs
    → (banned lib t peer (run_calls lib cs s).memory).1
      ≡ one_of (λ k. told lib t cs k (live t (s.memory.bans k))) (ban_keys lib peer)
unfolding banned
run_calls-banned lib t cs s peer les =
    look_for-one_of t (ban_keys lib peer) (run_calls lib cs s).memory.bans
    ∙ one_of_same _ _ (ban_keys lib peer) (λ k. run_calls-told lib t cs s k les)
