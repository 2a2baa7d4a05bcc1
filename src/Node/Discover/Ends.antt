-- ===== src/Node/Discover/Ends.antt =====
-- The rounds of `discover_peers_in_bucket` in src/node/discovery.rs.
use Prim.Native.String.{String}
use tewta.Base.{ℕ, ◌+◌, ◌≡◌, ◌<◌, ◌≤◌, false, some, List, [], ◌∷◌, length}
use tewta.Node.Discover.{World, Discovery, Round, goes_on, leaves, discovery_loop, responses}
use tewta.Node.Lookup.{has_contact}
use tewta.Peer.{PeerId}

-- No contact twice.
abbrev pub Once : List (PeerId × String) → Type 0
Once [] = Unit {0}
Once (c ∷ cs) = (has_contact c cs ≡ false) × Once cs

abbrev weight : World → Discovery → ℕ
weight world self = length self.candidates + responses world self.providers

-- What a round does to a state.
data Rounded (world : World) (self : Discovery) : Round → Type 0 where
  further :
      (next : Discovery)
      → weight world next < weight world self
      → Once next.old_candidates
      → next.missing_peers ≤ self.missing_peers
      → Rounded world self (goes_on next)
  at_end :
      (last : Discovery)
      → Once last.old_candidates
      → last.missing_peers ≤ self.missing_peers
      → Rounded world self (leaves last)

-- How the loop has ended.
pub record Ended (world : World) (fuel : ℕ) (self : Discovery) : Type 0 where
  pub last : Discovery
  pub ends : discovery_loop fuel world self ≡ some last
  pub once : Once last.old_candidates
  pub no_more_missing : last.missing_peers ≤ self.missing_peers
