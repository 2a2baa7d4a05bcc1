-- ===== src/Stream/Wakeup.antt =====
-- Who is woken in one direction of a test stream of src/stream.rs.
use tewta.Base.{
  ℕ, ◌≡◌, ◌≢◌, ◌<◌, ◌⊎◌, inl, inr, refl, sym, ap, ◌∙◌, subst, arith, Bool, true, false, ◌||◌, none,
  some, List, length,
}
use tewta.Stream.{
  Shared, TestReadHalf, TestWriteHalf, Polled, ready, pending, update_waker, check_readable, extend,
}
use tewta.Stream.Poll.{IsRead, check_readable-IsRead}
use tewta.Stream.Steps.{refused, end_write-unwritten, end_write-refused, end_write-acquired}
use tewta.Stream.Schedule.{
  Direction, Reading, idle, checking, parked, resting, begin_read, end_read, begin_write, end_write,
  got, wakes, Step, read_begins, read_ends, write_begins, write_resumes, write_ends, Reach, start,
  later,
}
use tewta.Stream.Fifo.{IsFifo, Reach-IsFifo}

-- A half that reads and has the future of a lock, which wakes the task when the lock is free.
abbrev pub IsLocked : TestReadHalf → Type 0
IsLocked half = (half.waker_lock_fut ≡ true) ⊎ (half.lock_fut ≡ true)

-- The task that waits is known to the writer, and there is nothing to read, or it was woken, or a
-- write has still to wake it.
abbrev pub IsCared : ℕ → Shared → (woken wrote : Bool) → Type 0
IsCared w shared woken wrote =
    (shared.waker ≡ some w) × ((length shared.bytes ≡ 0) ⊎ (woken ≡ true) ⊎ (wrote ≡ true))

abbrev pub Attended : Reading → TestReadHalf → Shared → (woken wrote : Bool) → Type 0
Attended idle half shared woken wrote = Unit
Attended (checking w n) half shared woken wrote =
    (half.waker_lock_fut ≡ true) ⊎ (shared.waker ≡ some w)
Attended (parked w) half shared woken wrote = IsLocked half ⊎ IsCared w shared woken wrote

abbrev IsAttended : Direction → Type 0
IsAttended s = Attended s.reading s.reader s.shared s.woken s.writer.wrote

begin_read-IsAttended : (a : Bool) (w n : ℕ) (s : Direction) → IsAttended (begin_read a w n s)
unfolding begin_read update_waker
begin_read-IsAttended true w n s = inr refl
begin_read-IsAttended false w n s = inl refl

got-IsAttended :
    (polled : Polled (List ℕ)) (w n : ℕ) (a : Bool) (s : Direction) (half : TestReadHalf)
    (shared : Shared)
    → IsRead a n s.shared.bytes polled shared.bytes
    → Attended (checking w n) s.reader s.shared s.woken s.writer.wrote
    → half.waker_lock_fut ≡ s.reader.waker_lock_fut
    → shared.waker ≡ s.shared.waker
    → (a ≡ false → half.lock_fut ≡ true)
    → IsAttended (got polled w (record s { reader = half; shared = shared }))
got-IsAttended (ready bytes) w n a s half shared read asked f g l = tt
got-IsAttended pending w n a s half shared (same, inl refused) asked f g l = inl (inr (l refused))
got-IsAttended pending w n a s half shared (same, inr empty) (inl locked) f g l =
    inl (inl (f ∙ locked))
got-IsAttended pending w n a s half shared (same, inr empty) (inr known) f g l =
    inr (g ∙ known, inl (ap length same ∙ empty))

end_read-IsAttended :
    (a : Bool) (w n : ℕ) (s : Direction)
    → Attended (checking w n) s.reader s.shared s.woken s.writer.wrote
    → IsAttended (end_read a w n s)
unfolding end_read check_readable
end_read-IsAttended true w n s h =
    got-IsAttended (check_readable true n s.reader s.shared).0 w n true s
      (check_readable true n s.reader s.shared).1 (check_readable true n s.reader s.shared).2
      (check_readable-IsRead true n s.reader s.shared) h refl refl (λ e. cc e)
end_read-IsAttended false w n s h =
    got-IsAttended (check_readable false n s.reader s.shared).0 w n false s
      (check_readable false n s.reader s.shared).1 (check_readable false n s.reader s.shared).2
      (check_readable-IsRead false n s.reader s.shared) h refl refl (λ e. refl)

-- A write changes the bytes only to have to wake who reads them.
extend-Attended :
    (r : Reading) (half : TestReadHalf) (woken a : Bool) (buf : List ℕ) (writer : TestWriteHalf)
    (shared : Shared)
    → Attended r half shared woken writer.wrote
    → Attended r half (extend a buf writer shared).1 woken (extend a buf writer shared).0.wrote
unfolding extend
extend-Attended idle half woken a buf writer shared h = tt
extend-Attended (checking w n) half woken a buf writer shared h = ground arith
extend-Attended (parked w) half woken a buf writer shared h = ground arith

wakes_self : (w : ℕ) (woken : Bool) → (woken || wakes (some w) (parked w)) ≡ true
wakes_self w true = refl
wakes_self w false = ground arith

-- A wake that was given stays.
woken-Attended :
    (r : Reading) (half : TestReadHalf) (shared : Shared) (woken more wrote : Bool)
    → Attended r half shared woken wrote
    → Attended r half shared (woken || more) wrote
woken-Attended r half shared true more wrote h = h
woken-Attended idle half shared false more wrote h = tt
woken-Attended (checking w n) half shared false more wrote h = h
woken-Attended (parked w) half shared false more wrote h = ground arith

completed-Attended :
    (r : Reading) (half : TestReadHalf) (shared : Shared) (woken wrote : Bool)
    → Attended r half shared woken wrote
    → Attended r half shared (woken || wakes shared.waker r) false
completed-Attended idle half shared woken wrote h = tt
completed-Attended (checking w n) half shared woken wrote h = h
completed-Attended (parked w) half shared woken wrote (inl locked) = inl locked
completed-Attended (parked w) half shared woken wrote (inr (known, why)) =
    inr (known, inr (inl (ap (λ k. woken || wakes k (parked w)) known ∙ wakes_self w woken)))

begin_write-IsAttended :
    (a : Bool) (buf : List ℕ) (s : Direction) → IsAttended s → IsAttended (begin_write a buf s)
unfolding begin_write
begin_write-IsAttended a buf s h =
    extend-Attended s.reading s.reader s.woken a buf s.writer s.shared h

end_write-IsAttended :
    (a wrote : Bool) (buf : List ℕ) (s : Direction)
    → s.writer.wrote ≡ wrote
    → s.writer.woke ≡ false
    → IsAttended s
    → IsAttended (end_write a buf s)
end_write-IsAttended a false buf s e f h =
    subst IsAttended (sym (end_write-unwritten buf s a e))
      (woken-Attended s.reading s.reader s.shared s.woken (wakes none s.reading) s.writer.wrote h)
end_write-IsAttended true true buf s e f h =
    subst IsAttended (sym (end_write-acquired buf s e f))
      (completed-Attended s.reading s.reader s.shared s.woken s.writer.wrote h)
end_write-IsAttended false true buf s e f h =
    subst IsAttended (sym (end_write-refused buf s e f))
      (woken-Attended s.reading s.reader s.shared s.woken (wakes none s.reading) s.writer.wrote h)

Step-IsAttended : {s t : Direction} → Step s t → s.writer.woke ≡ false → IsAttended s → IsAttended t
Step-IsAttended {s} (read_begins a w n g e) f h =
    subst IsAttended (sym e) (begin_read-IsAttended a w n s)
Step-IsAttended {s} (read_ends a w n g e) f h = subst IsAttended (sym e) (
    end_read-IsAttended a w n s
      (subst (λ r. Attended r s.reader s.shared s.woken s.writer.wrote) g h))
Step-IsAttended {s} (write_begins a buf g e) f h =
    subst IsAttended (sym e) (begin_write-IsAttended a buf s h)
Step-IsAttended {s} (write_resumes a buf g e) f h =
    subst IsAttended (sym e) (begin_write-IsAttended a buf s h)
Step-IsAttended {s} (write_ends a buf g e) f h =
    subst IsAttended (sym e) (end_write-IsAttended a s.writer.wrote buf s refl f h)

Reach-IsAttended : {s : Direction} → Reach s → IsAttended s
Reach-IsAttended (start s h) =
    subst (λ r. Attended r s.reader s.shared s.woken s.writer.wrote) (sym h.no_read) tt
Reach-IsAttended (later r st) = Step-IsAttended st (Reach-IsFifo r).woke_no (Reach-IsAttended r)

-- What becomes of a task that waits although there is something to read.
pub data IsServed (s : Direction) : Type 0 where
  locked : IsLocked s.reader → IsServed s
  woken : s.woken ≡ true → IsServed s
  due :
      s.writing ≢ resting
      → s.writer.wrote ≡ true
      → ((buf : List ℕ) → (end_write true buf s).woken ≡ true)
      → IsServed s

served :
    (s : Direction) (w : ℕ)
    → IsFifo s
    → s.reading ≡ parked w
    → 0 < length s.shared.bytes
    → IsLocked s.reader ⊎ IsCared w s.shared s.woken s.writer.wrote
    → IsServed s
served s w fifo e some_bytes (inl l) = locked l
served s w fifo e some_bytes (inr (known, inl empty)) = absurd (omega arith)
served s w fifo e some_bytes (inr (known, inr (inl was))) = woken was
served s w fifo e some_bytes (inr (known, inr (inr wrote))) =
    due (λ rest. cc (fifo.at_rest rest)) wrote
      (λ buf.
        ap (λ t. t.woken) (end_write-acquired buf s wrote fifo.woke_no)
        ∙ ap (λ k. s.woken || wakes k s.reading) known
        ∙ ap (λ r. s.woken || wakes (some w) r) e
        ∙ wakes_self w s.woken)

-- No wake is lost, whatever locks are acquired and however the polls are interleaved: a task that
-- waits although there is something to read waits for a lock, or was woken since its last poll
-- began, or a write is under way that has put its bytes there, and that wakes the task once its
-- poll acquires the lock of the waker.
pub no_lost_wakeup :
    {s : Direction} (w : ℕ)
    → Reach s
    → s.reading ≡ parked w
    → 0 < length s.shared.bytes
    → IsServed s
no_lost_wakeup {s} w r e some_bytes =
    served s w (Reach-IsFifo r) e some_bytes
      (subst (λ k. Attended k s.reader s.shared s.woken s.writer.wrote) e (Reach-IsAttended r))
