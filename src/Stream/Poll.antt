-- ===== src/Stream/Poll.antt =====
-- What a single poll of a half of a test stream does, in src/stream.rs.
use tewta.Base.{
  ℕ, ◌<◌, ◌≡◌, ◌⊎◌, inl, inr, refl, arith, Bool, true, false, some, List, [], ◌∷◌, ◌++◌, append-nil,
  length, min, ltb, if◌then◌else◌, length-take, take-append-drop, Bool-cases,
}
use tewta.Stream.{
  Shared, TestReadHalf, TestWriteHalf, Polled, ready, pending, update_waker, drain, check_readable,
  poll_read, poll_write,
}

-- An answer of a read with `n` bytes of room: the bytes at the front, as many as there are and fit;
-- or none, and the bytes stay, since they are locked or there are none.
abbrev pub IsRead : Bool → ℕ → List ℕ → Polled (List ℕ) → List ℕ → Type 0
IsRead acquired n before (ready got) after =
    (acquired ≡ true)
    × (got ++ after ≡ before)
    × (length got ≡ min n (length before))
    × (0 < length before)
IsRead acquired n before pending after =
    (after ≡ before) × ((acquired ≡ false) ⊎ (length before ≡ 0))

drain-IsRead : (n : ℕ) (bytes : List ℕ) → IsRead true n bytes (drain n bytes).0 (drain n bytes).1
unfolding drain
drain-IsRead n [] = (refl, inr refl)
drain-IsRead n (b ∷ bytes) = elim (Bool-cases (ltb n (length (b ∷ bytes)))) [
  | inl more ↦
      rw more (refl, take-append-drop n (b ∷ bytes), length-take n (b ∷ bytes), omega arith)
  | inr rest ↦ rw rest (refl, append-nil (b ∷ bytes), ground (arith, rest), omega arith)
]

pub check_readable-IsRead :
    (acquired : Bool) (n : ℕ) (half : TestReadHalf) (shared : Shared)
    → let (polled, half', shared') = check_readable acquired n half shared in
      IsRead acquired n shared.bytes polled shared'.bytes
unfolding check_readable
check_readable-IsRead true n half shared = drain-IsRead n shared.bytes
check_readable-IsRead false n half shared = (refl, inl refl)

-- A poll that reads answers with bytes from the front, as many as there are and fit, which are none
-- only if the buffer has no room, and leaves the others; any other poll leaves all the bytes, which
-- are then locked or none. The waker is stored exactly if its lock is acquired.
pub poll_read_bounds :
    (a b : Bool) (waker n : ℕ) (half : TestReadHalf) (shared : Shared)
    → let (polled, half', shared') = poll_read a b waker n half shared in
      IsRead b n shared.bytes polled shared'.bytes
      × (shared'.waker ≡ (if a then some waker else shared.waker))
unfolding poll_read
poll_read_bounds true b waker n half shared = (
  check_readable-IsRead b n (update_waker true waker half shared).0
      (update_waker true waker half shared).1,
  ground arith,
)
poll_read_bounds false b waker n half shared = (
  check_readable-IsRead b n (update_waker false waker half shared).0
      (update_waker false waker half shared).1,
  ground arith,
)

-- A write half between two polls, as `poll_write` leaves it.
abbrev pub IsBetween : TestWriteHalf → Type 0
IsBetween half = half.woke ≡ false

-- A poll that acquires both locks completes: it answers the length of its buffer, wakes who reads,
-- and is ready for the next write. The bytes are appended exactly if no poll before did it.
pub poll_write_completes :
    (buf : List ℕ) (half : TestWriteHalf) (shared : Shared)
    → IsBetween half
    → let w = poll_write true true buf half shared in
      (w.polled ≡ ready (length buf))
      × (w.woken ≡ shared.waker)
      × (w.half.wrote ≡ false)
      × IsBetween w.half
      × (w.shared.bytes ≡ (if half.wrote then shared.bytes else shared.bytes ++ buf))
      × (w.shared.waker ≡ shared.waker)
unfolding poll_write
poll_write_completes buf half shared h = ground arith
