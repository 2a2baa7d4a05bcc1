-- ===== src/Stream/Schedule.antt =====
-- The interleavings of the polls of src/stream.rs in one direction: a task that reads, a task that
-- writes, and what they share. A poll is two steps, since it takes two locks one after the other,
-- and a step of the other task may stand between them. A task that has a pending write polls it
-- again with the same bytes, as the contract of `AsyncWrite` asks.
use tewta.Base.{ℕ, ◌≡◌, Bool, true, false, ◌||◌, Option, none, some, List, [], ◌++◌, ◌==◌}
use tewta.Stream.{
  Shared, TestReadHalf, TestWriteHalf, Polled, ready, pending, update_waker, check_readable, extend,
  wake, complete,
}

-- Where the reading task stands: not in `poll_read`, between its two locks, or waiting for a wake
-- since its last poll was pending.
pub data Reading : Type 0 where
  idle : Reading
  checking : (waker remaining : ℕ) → Reading
  parked : (waker : ℕ) → Reading

-- Where the writing task stands: between two writes, between the two locks of a poll, or after a
-- pending poll.
pub data Writing : Type 0 where
  resting : Writing
  waking : (buf : List ℕ) → Writing
  suspended : (buf : List ℕ) → Writing

-- The bytes that completed reads gave and that completed writes took are kept as they come, and
-- if the reading task was woken since its last poll began.
pub record Direction : Type 0 where
  pub shared : Shared
  pub reader : TestReadHalf
  pub writer : TestWriteHalf
  pub reading : Reading
  pub writing : Writing
  pub woken : Bool
  pub received : List ℕ
  pub accepted : List ℕ

abbrev pub can_poll_read : Reading → Bool
can_poll_read (checking w n) = false
can_poll_read _ = true

abbrev pub wakes : Option ℕ → Reading → Bool
wakes none r = false
wakes (some w) idle = false
wakes (some w) (checking v n) = w == v
wakes (some w) (parked v) = w == v

unfoldable pub begin_read : Bool → ℕ → ℕ → Direction → Direction
begin_read acquired waker remaining s =
    let (reader, shared) = update_waker acquired waker s.reader s.shared in
    record s { reader = reader; shared = shared; reading = checking waker remaining; woken = false }

abbrev pub got : Polled (List ℕ) → ℕ → Direction → Direction
got (ready bytes) waker s = record s { reading = idle; received = s.received ++ bytes }
got pending waker s = record s { reading = parked waker }

unfoldable pub end_read : Bool → ℕ → ℕ → Direction → Direction
end_read acquired waker remaining s =
    let (polled, reader, shared) = check_readable acquired remaining s.reader s.shared in
    got polled waker (record s { reader = reader; shared = shared })

unfoldable pub begin_write : Bool → List ℕ → Direction → Direction
begin_write acquired buf s =
    let (writer, shared) = extend acquired buf s.writer s.shared in
    record s { writer = writer; shared = shared; writing = waking buf }

abbrev pub took : Polled ℕ → List ℕ → Direction → Direction
took (ready n) buf s = record s { writing = resting; accepted = s.accepted ++ buf }
took pending buf s = record s { writing = suspended buf }

unfoldable pub end_write : Bool → List ℕ → Direction → Direction
end_write acquired buf s =
    let (woken, writer) = wake acquired s.writer s.shared in
    let (polled, writer) = complete buf writer in
    took polled buf (record s { writer = writer; woken = s.woken || wakes woken s.reading })

pub data Step (s t : Direction) : Type 0 where
  read_begins :
      (acquired : Bool) (waker remaining : ℕ)
      → can_poll_read s.reading ≡ true
      → t ≡ begin_read acquired waker remaining s
      → Step s t
  read_ends :
      (acquired : Bool) (waker remaining : ℕ)
      → s.reading ≡ checking waker remaining
      → t ≡ end_read acquired waker remaining s
      → Step s t
  write_begins :
      (acquired : Bool) (buf : List ℕ)
      → s.writing ≡ resting
      → t ≡ begin_write acquired buf s
      → Step s t
  write_resumes :
      (acquired : Bool) (buf : List ℕ)
      → s.writing ≡ suspended buf
      → t ≡ begin_write acquired buf s
      → Step s t
  write_ends :
      (acquired : Bool) (buf : List ℕ)
      → s.writing ≡ waking buf
      → t ≡ end_write acquired buf s
      → Step s t

-- The halves of two sides as `into_split` makes them, with nothing on its way.
pub record IsStart (s : Direction) : Type 0 where
  pub no_bytes : s.shared.bytes ≡ []
  pub no_read : s.reading ≡ idle
  pub no_write : s.writing ≡ resting
  pub not_wrote : s.writer.wrote ≡ false
  pub not_woke : s.writer.woke ≡ false
  pub none_received : s.received ≡ []
  pub none_accepted : s.accepted ≡ []

pub data Reach : Direction → Type 0 where
  start : (s : Direction) → IsStart s → Reach s
  later : {s t : Direction} → Reach s → Step s t → Reach t
