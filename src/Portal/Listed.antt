-- ===== src/Portal/Listed.antt =====
-- A host with an id, a storage price and one scan, for the tests of the listings.
use hostscore.Prelude.{ℕ, [], ◌∷◌, Bool}
use hostscore.Types.Examples.{priced}
use hostscore.Portal.{PortalHost}

abbrev pub host : ℕ → ℕ → Bool → PortalHost
host id price online = record {
  id = id;
  rank = id;
  public_key = id;
  net_address = 97 ∷ [];
  scan_histories = (online ∷ []) ∷ [];
  settings = priced price;
}
