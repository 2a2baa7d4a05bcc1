-- ===== src/Stream/Steps.antt =====
-- The outcomes of the second half of a write's poll, in src/stream.rs.
use tewta.Base.{◌≡◌, arith, ℕ, Bool, true, false, ◌||◌, none, List, length}
use tewta.Stream.{TestWriteHalf, ready, pending, wake, complete}
use tewta.Stream.Schedule.{Direction, end_write, took, wakes}

abbrev pub refused : TestWriteHalf → TestWriteHalf
refused half = record half { waker_lock_fut = true }

abbrev pub completed : TestWriteHalf → TestWriteHalf
completed half = record half { waker_lock_fut = false; wrote = false; woke = false }

module _ (buf : List ℕ) (s : Direction) where
  pub end_write-unwritten :
      (acquired : Bool)
      → s.writer.wrote ≡ false
      → end_write acquired buf s
        ≡ took pending buf (record s { woken = s.woken || wakes none s.reading })
  unfolding end_write wake complete
  end_write-unwritten acquired e = ground (arith, e)

  pub end_write-refused :
      s.writer.wrote ≡ true
      → s.writer.woke ≡ false
      → end_write false buf s
        ≡ took pending buf
            (record s { writer = refused s.writer; woken = s.woken || wakes none s.reading })
  unfolding end_write wake complete
  end_write-refused e f = ground (arith, e, f)

  pub end_write-acquired :
      s.writer.wrote ≡ true
      → s.writer.woke ≡ false
      → end_write true buf s
        ≡ took (ready (length buf)) buf (record s {
          writer = completed s.writer;
          woken = s.woken || wakes s.shared.waker s.reading;
        })
  unfolding end_write wake complete
  end_write-acquired e f = ground (arith, e, f)
