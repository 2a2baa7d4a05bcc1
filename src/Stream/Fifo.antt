-- ===== src/Stream/Fifo.antt =====
-- The bytes that go through one direction of a test stream of src/stream.rs.
use tewta.Base.{
  ℕ, length, ◌||◌, none, subst, ◌≡◌, refl, sym, ap, ◌∙◌, arith, Bool, true, false, List, [], ◌++◌,
  append_assoc, append-nil,
}
use tewta.Stream.{
  TestReadHalf, TestWriteHalf, Shared, Polled, ready, pending, update_waker, check_readable, extend,
}
use tewta.Stream.Steps.{
  refused, completed, end_write-unwritten, end_write-refused, end_write-acquired,
}
use tewta.Stream.Poll.{IsRead, check_readable-IsRead}
use tewta.Stream.Schedule.{
  Direction, Writing, resting, waking, suspended, begin_read, end_read, begin_write, end_write, got,
  took, wakes, Step, read_begins, read_ends, write_begins, write_resumes, write_ends, IsStart,
  Reach, start, later,
}

-- What a write that is not complete has put on its way.
abbrev pub in_write : Bool → Writing → List ℕ
in_write false w = []
in_write true resting = []
in_write true (waking buf) = buf
in_write true (suspended buf) = buf

abbrev pub on_its_way : Direction → List ℕ
on_its_way s = in_write s.writer.wrote s.writing

pub record IsFifo (s : Direction) : Type 0 where
  pub kept : s.received ++ s.shared.bytes ≡ s.accepted ++ on_its_way s
  pub woke_no : s.writer.woke ≡ false
  pub at_rest : s.writing ≡ resting → s.writer.wrote ≡ false

start-IsFifo : (s : Direction) → IsStart s → IsFifo s
start-IsFifo s h = record {
  kept = ground (arith, h.no_bytes, h.not_wrote, h.none_received, h.none_accepted);
  woke_no = h.not_woke;
  at_rest = λ _. h.not_wrote;
}

begin_read-IsFifo : (a : Bool) (w n : ℕ) (s : Direction) → IsFifo s → IsFifo (begin_read a w n s)
unfolding begin_read update_waker
begin_read-IsFifo true w n s h = record { kept = h.kept; woke_no = h.woke_no; at_rest = h.at_rest }
begin_read-IsFifo false w n s h = record { kept = h.kept; woke_no = h.woke_no; at_rest = h.at_rest }

got-IsFifo :
    (a : Bool) (n w : ℕ) (s : Direction)
    → IsFifo s
    → (polled : Polled (List ℕ)) (r : TestReadHalf) (shared : Shared)
    → IsRead a n s.shared.bytes polled shared.bytes
    → IsFifo (got polled w (record s { reader = r; shared = shared }))
got-IsFifo a n w s h (ready bytes) r shared read = record {
  kept = append_assoc s.received bytes shared.bytes ∙ ap (λ xs. s.received ++ xs) read.1 ∙ h.kept;
  woke_no = h.woke_no;
  at_rest = h.at_rest;
}
got-IsFifo a n w s h pending r shared read = record {
  kept = ap (λ xs. s.received ++ xs) read.0 ∙ h.kept;
  woke_no = h.woke_no;
  at_rest = h.at_rest;
}

begin_write-kept :
    (a w : Bool) (buf : List ℕ) (s : Direction)
    → s.writer.wrote ≡ w
    → s.received ++ s.shared.bytes ≡ s.accepted ++ in_write w (waking buf)
    → (begin_write a buf s).received ++ (begin_write a buf s).shared.bytes
      ≡ (begin_write a buf s).accepted ++ on_its_way (begin_write a buf s)
unfolding begin_write extend
begin_write-kept a true buf s e h = simp e h
begin_write-kept true false buf s e h = simp e (
    sym (append_assoc s.received s.shared.bytes buf)
    ∙ ap (λ xs. xs ++ buf) (h ∙ append-nil s.accepted))
begin_write-kept false false buf s e h = simp e h

begin_write-IsFifo :
    (a : Bool) (buf : List ℕ) (s : Direction)
    → IsFifo s
    → in_write s.writer.wrote s.writing ≡ in_write s.writer.wrote (waking buf)
    → IsFifo (begin_write a buf s)
unfolding begin_write extend
begin_write-IsFifo a buf s h same = record {
  kept = begin_write-kept a s.writer.wrote buf s refl (h.kept ∙ ap (λ xs. s.accepted ++ xs) same);
  woke_no = ground (arith, h.woke_no);
  at_rest = λ e. cc e;
}

in_write_same : (w : Bool) (buf : List ℕ) → in_write w (waking buf) ≡ in_write w (suspended buf)
in_write_same true buf = refl
in_write_same false buf = refl

-- What is left of a write when its poll ends.
module _ (buf : List ℕ) (s : Direction) (h : IsFifo s) (e : s.writing ≡ waking buf) where
  kept_waking : s.received ++ s.shared.bytes ≡ s.accepted ++ in_write s.writer.wrote (waking buf)
  kept_waking = h.kept ∙ ap (λ w. s.accepted ++ in_write s.writer.wrote w) e

  suspended-IsFifo :
      (writer : TestWriteHalf) (woken : Bool)
      → writer.wrote ≡ s.writer.wrote
      → writer.woke ≡ false
      → IsFifo (took pending buf (record s { writer = writer; woken = woken }))
  suspended-IsFifo writer woken same unwoken = record {
    kept =
        kept_waking
        ∙ ap (λ xs. s.accepted ++ xs)
            (in_write_same s.writer.wrote buf ∙ ap (λ w. in_write w (suspended buf)) (sym same));
    woke_no = unwoken;
    at_rest = λ x. cc x;
  }

  completed-IsFifo :
      (n : ℕ) (woken : Bool)
      → s.writer.wrote ≡ true
      → IsFifo (took (ready n) buf (record s { writer = completed s.writer; woken = woken }))
  completed-IsFifo n woken f = record {
    kept =
        kept_waking
        ∙ ap (λ w. s.accepted ++ in_write w (waking buf)) f
        ∙ sym (append-nil (s.accepted ++ buf));
    woke_no = refl;
    at_rest = λ x. refl;
  }

  end_write-IsFifo : (a w : Bool) → s.writer.wrote ≡ w → IsFifo (end_write a buf s)
  end_write-IsFifo a false f =
      subst IsFifo (sym (end_write-unwritten buf s a f))
        (suspended-IsFifo s.writer (s.woken || wakes none s.reading) refl h.woke_no)
  end_write-IsFifo true true f =
      subst IsFifo (sym (end_write-acquired buf s f h.woke_no))
        (completed-IsFifo (length buf) (s.woken || wakes s.shared.waker s.reading) f)
  end_write-IsFifo false true f =
      subst IsFifo (sym (end_write-refused buf s f h.woke_no))
        (suspended-IsFifo (refused s.writer) (s.woken || wakes none s.reading) refl h.woke_no)

end_read-IsFifo : (a : Bool) (w n : ℕ) (s : Direction) → IsFifo s → IsFifo (end_read a w n s)
unfolding end_read
end_read-IsFifo a w n s h =
    got-IsFifo a n w s h (check_readable a n s.reader s.shared).0
      (check_readable a n s.reader s.shared).1 (check_readable a n s.reader s.shared).2
      (check_readable-IsRead a n s.reader s.shared)

Step-IsFifo : {s t : Direction} → Step s t → IsFifo s → IsFifo t
Step-IsFifo {s} (read_begins a w n g e) h = rw e (begin_read-IsFifo a w n s h)
Step-IsFifo {s} (read_ends a w n g e) h = rw e (end_read-IsFifo a w n s h)
Step-IsFifo {s} (write_begins a buf g e) h =
    rw e (begin_write-IsFifo a buf s h (ground (arith, g, h.at_rest g)))
Step-IsFifo {s} (write_resumes a buf g e) h = rw e (
    begin_write-IsFifo a buf s h
      (ap (in_write s.writer.wrote) g ∙ sym (in_write_same s.writer.wrote buf)))
Step-IsFifo {s} (write_ends a buf g e) h = rw e (end_write-IsFifo buf s h g a s.writer.wrote refl)

pub Reach-IsFifo : {s : Direction} → Reach s → IsFifo s
Reach-IsFifo (start s h) = start-IsFifo s h
Reach-IsFifo (later r st) = Step-IsFifo st (Reach-IsFifo r)

-- Whatever locks are acquired and however the polls are interleaved, no byte is lost, doubled or
-- moved: what was read, and then what is on its way, is what completed writes took, and then the
-- bytes of a write that is not complete, if it has put them on their way already.
pub received-accepted :
    {s : Direction} → Reach s → s.received ++ s.shared.bytes ≡ s.accepted ++ on_its_way s
received-accepted r = (Reach-IsFifo r).kept
