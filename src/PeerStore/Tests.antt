-- ===== src/PeerStore/Tests.antt =====
-- Two bans of 100 ns, of a subnet and then of a peer, asked for when the first has run out.
use hostscore.Prelude.{◌≡◌, refl, [], ◌∷◌, List, true, false, none, some, arith}
use hostscore.PeerStore.{PeerLib, JsonPeerStore, add, list, forbid, load, banned, ban_keys}
use hostscore.PeerStore.Bans.{Timed, run_calls, told, one_of, live, run_calls-banned}

-- The host is the first byte, and its subnets are that byte and the length of the mask.
abbrev lib : PeerLib
lib = record {
  split_host = λ s. elim s [ [] ↦ none | b ∷ _ ↦ some (b ∷ []) ];
  subnet = λ host mask. mask ∷ host;
  parse_cidr = λ _. none;
}

abbrev calls : List Timed
calls =
    (true, 10, forbid (16 ∷ 7 ∷ []) 100 [])
    ∷ (false, 20, add (7 ∷ 1 ∷ []))
    ∷ (true, 60, forbid (7 ∷ 1 ∷ []) 100 [])
    ∷ (true, 120, list)
    ∷ []

abbrev start : JsonPeerStore
unfolding load
start = load none

run_calls-banned_example :
    (banned lib 130 (7 ∷ 1 ∷ []) (run_calls lib calls start).memory).1
    ≡ one_of
        (λ k. told lib 130 calls k (live 130 (start.memory.bans k)))
        (ban_keys lib (7 ∷ 1 ∷ []))
run_calls-banned_example = run_calls-banned lib 130 calls start (7 ∷ 1 ∷ []) (omega arith)

-- The peer is banned at 130, another of the subnet is not.
still_banned : (banned lib 130 (7 ∷ 1 ∷ []) (run_calls lib calls start).memory).1 ≡ true
unfolding banned run_calls load
still_banned = refl

not_banned : (banned lib 130 (7 ∷ 2 ∷ []) (run_calls lib calls start).memory).1 ≡ false
unfolding banned run_calls load
not_banned = refl
