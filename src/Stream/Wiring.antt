-- ===== src/Stream/Wiring.antt =====
-- How the two streams of `TestStream::new` in src/stream.rs are wired.
use tewta.Base.{ℕ, none, some, ◌≡◌, ◌≢◌, refl, arith}
use tewta.Stream.{TestReadHalf, TestWriteHalf, new, into_split, reunite}

-- The one writes where the other reads, and wakes who waits there.
pub record Feeds (w : TestWriteHalf) (r : TestReadHalf) : Type 0 where
  pub same_bytes : w.bytes ≡ r.bytes
  pub same_waker : w.to_wake_on_write ≡ r.waken_on_readable

-- No cell of the one is a cell of the other.
pub record Apart (w : TestWriteHalf) (r : TestReadHalf) : Type 0 where
  pub other_bytes : w.bytes ≢ r.bytes
  pub other_waker : w.to_wake_on_write ≢ r.waken_on_readable

-- Of the two streams that are made, each writes where the other reads and wakes who waits there,
-- and not where it reads itself; and a stream that is split is the same when it is reunited, while
-- the halves of different sides do not reunite.
pub new-Feeds :
    (fresh log_id : ℕ)
    → let (left, right) = new fresh log_id in
      let (left_r, left_w) = into_split left in
      let (right_r, right_w) = into_split right in
      Feeds left_w right_r
      × Feeds right_w left_r
      × Apart left_w left_r
      × Apart right_w right_r
      × (reunite left_r left_w ≡ some left)
      × (reunite right_r right_w ≡ some right)
      × (reunite left_r right_w ≡ none)
      × (reunite right_r left_w ≡ none)
unfolding new into_split reunite
new-Feeds fresh log_id = (
  record { same_bytes = refl; same_waker = refl },
  record { same_bytes = refl; same_waker = refl },
  record { other_bytes = λ h. omega arith; other_waker = λ h. omega arith },
  record { other_bytes = λ h. omega arith; other_waker = λ h. omega arith },
  ground arith,
  ground arith,
  ground arith,
  ground arith,
)
