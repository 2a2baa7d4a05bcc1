-- ===== src/Stream.antt =====
-- src/stream.rs: the streams of a test network, which keep what is sent in memory. An `Arc` is the
-- address of what it shares. A section under a lock is one step; if a lock is acquired when its
-- future is polled is drawn from outside. A waker is the number of the task that it wakes.
pub mod Wiring
pub mod Poll
pub mod Schedule
pub mod Steps
pub mod Wakeup
pub mod Fifo
use tewta.Base.{
  ℕ, zero, suc, ◌+◌, Bool, true, false, ◌&&◌, not, Option, none, some, List, [], ◌∷◌, ◌++◌, length,
  take, drop, ltb, ◌==◌, if◌then◌else◌,
}

-- What is shared in one direction: the bytes on their way, and the waker of who reads them.
pub record Shared : Type 0 where
  pub bytes : List ℕ
  pub waker : Option ℕ

pub record TestStream : Type 0 where
  pub inbound : ℕ
  pub outbound : ℕ
  pub to_wake_on_write : ℕ
  pub waken_on_readable : ℕ
  pub log_id : ℕ × Bool

-- Four new cells, at the addresses from `fresh` on.
unfoldable pub new : ℕ → ℕ → TestStream × TestStream
new fresh log_id = (
  record {
    inbound = fresh;
    outbound = fresh + 1;
    to_wake_on_write = fresh + 2;
    waken_on_readable = fresh + 3;
    log_id = (log_id, true);
  },
  record {
    inbound = fresh + 1;
    outbound = fresh;
    to_wake_on_write = fresh + 3;
    waken_on_readable = fresh + 2;
    log_id = (log_id, false);
  },
)

-- A future is kept, or not, between two polls.
pub record TestReadHalf : Type 0 where
  pub bytes : ℕ
  pub waken_on_readable : ℕ
  pub lock_fut : Bool
  pub waker_lock_fut : Bool
  pub log_id : ℕ × Bool

pub record TestWriteHalf : Type 0 where
  pub bytes : ℕ
  pub to_wake_on_write : ℕ
  pub wrote : Bool
  pub woke : Bool
  pub lock_fut : Bool
  pub waker_lock_fut : Bool
  pub log_id : ℕ × Bool

unfoldable pub into_split : TestStream → TestReadHalf × TestWriteHalf
into_split self = (
  record {
    bytes = self.inbound;
    waken_on_readable = self.waken_on_readable;
    lock_fut = false;
    waker_lock_fut = false;
    log_id = self.log_id;
  },
  record {
    bytes = self.outbound;
    to_wake_on_write = self.to_wake_on_write;
    wrote = false;
    woke = false;
    lock_fut = false;
    waker_lock_fut = false;
    log_id = self.log_id;
  },
)

abbrev pub same_bool : Bool → Bool → Bool
same_bool true b = b
same_bool false b = not b

-- `none` is the panic of the assertion.
unfoldable pub reunite : TestReadHalf → TestWriteHalf → Option TestStream
reunite self other =
    if self.log_id.0 == other.log_id.0 && same_bool self.log_id.1 other.log_id.1
    then some (record {
      inbound = self.bytes;
      outbound = other.bytes;
      to_wake_on_write = other.to_wake_on_write;
      waken_on_readable = self.waken_on_readable;
      log_id = self.log_id;
    })
    else none

pub data Polled {ℓ} (A : Type ℓ) : Type ℓ where
  ready : A → Polled A
  pending : Polled A

-- "Updating waker".
unfoldable pub update_waker : Bool → ℕ → TestReadHalf → Shared → TestReadHalf × Shared
update_waker true waker self shared =
    (record self { waker_lock_fut = false }, record shared { waker = some waker })
update_waker false waker self shared = (record self { waker_lock_fut = true }, shared)

-- What fits into a buffer with `remaining` bytes of room, and what stays.
unfoldable pub drain : ℕ → List ℕ → Polled (List ℕ) × List ℕ
drain remaining [] = (pending, [])
drain remaining (b ∷ bytes) =
    if ltb remaining (length (b ∷ bytes))
    then (ready (take remaining (b ∷ bytes)), drop remaining (b ∷ bytes))
    else (ready (b ∷ bytes), [])

-- "Checking readable".
unfoldable pub check_readable :
    Bool → ℕ → TestReadHalf → Shared → Polled (List ℕ) × TestReadHalf × Shared
unfolding drain
check_readable true remaining self shared =
    let (polled, bytes) = drain remaining shared.bytes in
    (polled, record self { lock_fut = false }, record shared { bytes = bytes })
check_readable false remaining self shared = (pending, record self { lock_fut = true }, shared)

-- `a` and `b` tell if the lock of the waker, and of the bytes, is acquired.
unfoldable pub poll_read :
    (a b : Bool) → ℕ → ℕ → TestReadHalf → Shared → Polled (List ℕ) × TestReadHalf × Shared
unfolding update_waker check_readable
poll_read a b waker remaining self shared =
    let (self, shared) = update_waker a waker self shared in check_readable b remaining self shared

unfoldable pub extend : Bool → List ℕ → TestWriteHalf → Shared → TestWriteHalf × Shared
extend acquired buf self shared =
    if self.wrote
    then (self, shared)
    else if acquired
    then (
      record self { lock_fut = false; wrote = true },
      record shared { bytes = shared.bytes ++ buf },
    )
    else (record self { lock_fut = true }, shared)

-- The waker that is woken, if any.
unfoldable pub wake : Bool → TestWriteHalf → Shared → Option ℕ × TestWriteHalf
wake acquired self shared =
    if self.wrote && not self.woke
    then if acquired
      then (shared.waker, record self { waker_lock_fut = false; woke = true })
      else (none, record self { waker_lock_fut = true })
    else (none, self)

unfoldable pub complete : List ℕ → TestWriteHalf → Polled ℕ × TestWriteHalf
complete buf self =
    if self.wrote && self.woke
    then (ready (length buf), record self { wrote = false; woke = false })
    else (pending, self)

-- The answer to the poll, the waker that is woken, and the state after.
pub record Written : Type 0 where
  pub polled : Polled ℕ
  pub woken : Option ℕ
  pub half : TestWriteHalf
  pub shared : Shared

-- `a` and `b` tell if the lock of the bytes, and of the waker, is acquired.
unfoldable pub poll_write : (a b : Bool) → List ℕ → TestWriteHalf → Shared → Written
unfolding extend wake complete
poll_write a b buf self shared =
    let (self, shared) = extend a buf self shared in
    let (woken, self) = wake b self shared in
    let (polled, self) = complete buf self in
    record { polled = polled; woken = woken; half = self; shared = shared }

abbrev pub poll_flush : Polled (Unit {0})
poll_flush = ready tt

-- `none` is the panic of `unimplemented!`.
abbrev pub poll_shutdown : Option (Polled (Unit {0}))
poll_shutdown = none
