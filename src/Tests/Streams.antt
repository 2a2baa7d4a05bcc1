-- ===== src/Tests/Streams.antt =====
-- Test streams.
use tewta.Base.{ℕ, ◌≡◌, refl, arith, true, false, none, some, List, [], ◌∷◌, ◌++◌}
use tewta.Frame.{frame}
use tewta.PeerMap
use tewta.Stream.{
  Shared, TestReadHalf, TestWriteHalf, ready, poll_read, poll_write, update_waker, check_readable,
  extend, wake, complete,
}
use tewta.Stream.Poll.{IsRead, poll_read_bounds, poll_write_completes}
use tewta.Stream.Schedule.{
  Direction, idle, resting, begin_read, end_read, begin_write, end_write, read_begins, read_ends,
  write_begins, Reach, start, later,
}
use tewta.Stream.Wakeup.{IsServed, no_lost_wakeup}
use tewta.Stream.Fifo.{on_its_way, received-accepted}

abbrev reader : TestReadHalf
reader = record {
  bytes = 0;
  waken_on_readable = 2;
  lock_fut = false;
  waker_lock_fut = false;
  log_id = (9, true);
}

abbrev writer : TestWriteHalf
writer = record {
  bytes = 0;
  to_wake_on_write = 2;
  wrote = false;
  woke = false;
  lock_fut = false;
  waker_lock_fut = false;
  log_id = (9, false);
}

abbrev on_start : Direction
on_start = record {
  shared = record { bytes = []; waker = none };
  reader = reader;
  writer = writer;
  reading = idle;
  writing = resting;
  woken = false;
  received = [];
  accepted = [];
}

on_start-Reach : Reach on_start
on_start-Reach = start on_start (record {
  no_bytes = refl;
  no_read = refl;
  no_write = refl;
  not_wrote = refl;
  not_woke = refl;
  none_received = refl;
  none_accepted = refl;
})

abbrev greeting : List ℕ
greeting = 104 ∷ 105 ∷ []

-- Task 4 finds nothing to read and waits; then a write puts two bytes on their way.
abbrev waits : Direction
waits = end_read true 4 8 (begin_read true 4 8 on_start)

abbrev half_written : Direction
half_written = begin_write true greeting waits

half_written-Reach : Reach half_written
unfolding begin_read end_read begin_write update_waker check_readable extend
half_written-Reach =
    later
      (later (later on_start-Reach (read_begins true 4 8 refl refl)) (read_ends true 4 8 refl refl))
      (write_begins true greeting refl refl)

no_lost_wakeup_example : IsServed half_written
unfolding begin_read end_read begin_write update_waker check_readable extend
no_lost_wakeup_example = no_lost_wakeup 4 half_written-Reach refl (omega arith)

received-accepted_example :
    half_written.received ++ half_written.shared.bytes
    ≡ half_written.accepted ++ on_its_way half_written
received-accepted_example = received-accepted half_written-Reach

-- The write wakes task 4, which reads one byte after the other.
woken : (end_write true greeting half_written).woken ≡ true
unfolding begin_read end_read begin_write end_write update_waker check_readable extend wake complete
woken = refl

abbrev first_read : Direction
first_read = end_read true 4 1 (begin_read false 4 1 (end_write true greeting half_written))

first : (first_read.received ≡ 104 ∷ []) × (first_read.shared.bytes ≡ 105 ∷ [])
unfolding begin_read end_read begin_write end_write update_waker check_readable extend wake complete
first = (refl, refl)

abbrev full : Shared
full = record { bytes = greeting; waker = none }

poll_read_bounds_example :
    let (polled, half, shared) = poll_read true true 4 1 reader full in
    IsRead true 1 greeting polled shared.bytes × (shared.waker ≡ some 4)
poll_read_bounds_example = poll_read_bounds true true 4 1 reader full

-- The future of a write was dropped behind the write and before the wake: the next write answers
-- that it took its bytes, and does not.
abbrev cancelled : TestWriteHalf
cancelled = record writer { wrote = true }

poll_write_completes_example :
    let w = poll_write true true (1 ∷ 2 ∷ 3 ∷ []) cancelled full in
    (w.polled ≡ ready 3)
    × (w.woken ≡ none)
    × (w.half.wrote ≡ false)
    × (w.half.woke ≡ false)
    × (w.shared.bytes ≡ greeting)
    × (w.shared.waker ≡ none)
poll_write_completes_example = poll_write_completes (1 ∷ 2 ∷ 3 ∷ []) cancelled full refl

abbrev ping_frames : List ℕ
ping_frames = frame (4 ∷ 1 ∷ []) ++ frame (4 ∷ 2 ∷ [])

abbrev pinged : Direction
pinged = end_write true ping_frames (begin_write true ping_frames on_start)
