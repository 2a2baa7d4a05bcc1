-- ===== src/Tests/Peers.antt =====
-- Identifiers, their distances and buckets, and requests for a bucket.
use Prim.Native.Nat.Ordering.{lt}
use tewta.Base.{◌≡◌, ◌↔◌, refl, inl, arith, true, none, some, ◌∷◌, replicate}
use tewta.Discovery.{bucket_mask}
use tewta.Discovery.Mask.{matches-bucket}
use tewta.Peer.{
  PeerId, IsPeerId, bucket, byte_bucket, generate_in_bucket, distance, cmp_bytes, matches,
}
use tewta.Peer.Closeness.{cmp-distance_of_Farther}
use tewta.Peer.Generate.{bucket-generate_in_bucket}
use tewta.Tests.Samples.{peer, peer-IsPeerId}

peer_9 : IsPeerId (peer 9)
peer_9 = peer-IsPeerId 9 (omega arith)

peer_7 : IsPeerId (peer 7)
peer_7 = peer-IsPeerId 7 (omega arith)

peer_130 : IsPeerId (peer 130)
peer_130 = peer-IsPeerId 130 (omega arith)

-- The generated target differs in the second byte.
abbrev target : PeerId
target = record { bytes = 7 ∷ 39 ∷ replicate 30 7 }

generated : generate_in_bucket (peer 7) 5 1 ≡ some target
unfolding generate_in_bucket
generated = refl

refused : generate_in_bucket (peer 7) 128 0 ≡ none
unfolding generate_in_bucket
refused = refl

near : bucket (peer 7) (peer 9) ≡ some (2, 2)
unfolding bucket byte_bucket
near = refl

far : bucket (peer 7) (peer 130) ≡ some (0, 1)
unfolding bucket byte_bucket
far = refl

same : bucket (peer 7) (peer 7) ≡ none
unfolding bucket byte_bucket
same = refl

bucket-generate_in_bucket_example :
    (t : PeerId) × (generate_in_bucket (peer 7) 5 1 ≡ some t)
    × IsPeerId t
    × (bucket (peer 7) t ≡ some (5, 1))
bucket-generate_in_bucket_example =
    bucket-generate_in_bucket (peer 7) 5 1 peer_7 (omega arith) (omega arith)

matches-bucket_example :
    (matches (peer 9) target (bucket_mask 5) ≡ true) ↔ (bucket (peer 9) (peer 7) ≡ some (5, 1))
matches-bucket_example =
    matches-bucket (peer 7) (peer 9) target 5 1 peer_7 peer_9 (omega arith) (omega arith) generated

cmp-distance_of_Farther_example :
    cmp_bytes (distance (peer 7) (peer 9)) (distance (peer 7) (peer 130)) ≡ lt
cmp-distance_of_Farther_example =
    cmp-distance_of_Farther (peer 7) (peer 130) (peer 9) 0 1 2 2 peer_7 peer_130 peer_9 far near
      (inl (omega arith))
