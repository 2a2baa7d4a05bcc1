-- ===== src/Discovery.antt =====
-- The request of `discover_peers_in_bucket` in src/node/discovery.rs: its target and its mask.
pub mod Mask
use tewta.Base.{ℕ, zero, suc, ◌/◌, ◌%◌, List, [], ◌∷◌, ◌++◌, replicate}

-- The byte pushed last: the level's pair of bits and those before it. The source's fifth arm is
-- `unreachable_unchecked`; the argument is below 4.
unfoldable pub last_mask : ℕ → ℕ
last_mask zero = 0b11000000
last_mask (suc zero) = 0b11110000
last_mask (suc (suc zero)) = 0b11111100
last_mask _ = 0b11111111

unfoldable pub bucket_mask : ℕ → List ℕ
bucket_mask bucket_level = replicate (bucket_level / 4) 0xFF ++ last_mask (bucket_level % 4) ∷ []
