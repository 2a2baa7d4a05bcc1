-- ===== src/Node/Discover/Starts.antt =====
-- The calls of `discover_peers_in_bucket` that `refresh_buckets` spawns.
use tewta.Base.{ℕ, ◌≡◌, ◌<◌, ◌-◌, some, [], length, All, All-imp, arith}
use tewta.Node.Connections.{
  ConnectionPool, peers_on_bucket, peers_on_bucket_and_under, kademlia_bucket_size, refresh_buckets,
}
use tewta.Node.Connections.Buckets.{Fillable, refresh_buckets-Fillable}
use tewta.Node.Discover.{Discovery, discovery_start}

-- The loop begins, with someone missing.
pub record Begins (self : ConnectionPool) (bucket : ℕ × ℕ) : Type 0 where
  pub discovery : Discovery
  pub starts : discovery_start self bucket.0 bucket.1 ≡ some discovery
  pub someone_missing : 0 < discovery.missing_peers

Fillable-Begins : (self : ConnectionPool) (c : ℕ × ℕ) → Fillable self c → Begins self c
unfolding discovery_start
Fillable-Begins self c f =
    let present = length (peers_on_bucket c.0 c.1 self) in
    record {
      discovery = record {
        providers = peers_on_bucket_and_under c.0 self;
        candidates = [];
        old_candidates = [];
        missing_peers = kademlia_bucket_size - present;
      };
      starts = ground (arith, f.level_bound, f.id_bound, f.room);
      someone_missing = omega (arith, f.room);
    }

-- Every discovery that `refresh_buckets` spawns, if it starts on the same pool, passes its assertion,
-- subtracts without overflow, and has a peer to look for.
pub refresh_buckets-Begins : (self : ConnectionPool) → All (Begins self) (refresh_buckets self)
refresh_buckets-Begins self =
    All-imp (Fillable-Begins self) (refresh_buckets self) (refresh_buckets-Fillable self)
