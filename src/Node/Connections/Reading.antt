-- ===== src/Node/Connections/Reading.antt =====
-- The task that `insert` of src/node/connections.rs spawns: it reads packets, one after another, and
-- hands each to `on_packet`.
use tewta.Base.{
  ℕ, zero, suc, ◌+◌, ◌*◌, ◌≡◌, ◌≢◌, ap, ◌∙◌, ◌<◌, refl, List, [], ◌∷◌, length, length-drop, arith,
}
use tewta.Base.Result.{Result, ok, err}
use tewta.Crypto.{Parcel}
use tewta.Frame.{FrameRead, packet, too_large, unexpected_eof, read_frame, read_u32, read_exact}
use tewta.Packets.{Packet}

-- How the task ends: by the panic of `unwrap` at the end of the stream, by `unimplemented!`, or (in
-- the model alone) without fuel.
pub data LoopEnd : Type 0 where
  end_of_stream unimplemented out_of_fuel : LoopEnd

module _ {E : Type 0} (wire : Parcel E Packet) where
  -- A packet that does not parse is skipped.
  abbrev pub parsed : Result E Packet → List Packet → List Packet
  parsed (ok p) rest = p ∷ rest
  parsed (err e) rest = rest

  -- The packets handed on, in order.
  unfoldable pub read_loop : ℕ → List ℕ → List Packet × LoopEnd
  read_loop zero r = ([], out_of_fuel)
  read_loop (suc fuel) r = elim (read_frame r) [
    | packet bytes rest ↦
        let (handled, end) = read_loop fuel rest in
        (parsed (wire.from_raw_bytes bytes) handled, end)
    | too_large ↦ ([], unimplemented)
    | unexpected_eof ↦ ([], end_of_stream)
  ]

  -- The task: each frame takes four bytes, so that the length is more fuel than is needed.
  unfoldable pub read_task : List ℕ → List Packet × LoopEnd
  read_task r = read_loop (suc (length r)) r

read_frame-shorter :
    (r bytes rest : List ℕ) → read_frame r ≡ packet bytes rest → length rest < length r
unfolding read_frame read_u32 read_exact
read_frame-shorter (a ∷ b ∷ c ∷ d ∷ s) bytes rest h =
    let n = ((a * 256 + b) * 256 + c) * 256 + d in ground (arith, length-drop n s)
read_frame-shorter [] bytes rest h = cc h
read_frame-shorter (a ∷ []) bytes rest h = cc h
read_frame-shorter (a ∷ b ∷ []) bytes rest h = cc h
read_frame-shorter (a ∷ b ∷ c ∷ []) bytes rest h = cc h

read_frame_nil : read_frame [] ≡ unexpected_eof
unfolding read_frame read_u32
read_frame_nil = refl

data FrameCases (r : List ℕ) : Type 0 where
  is_packet : (bytes rest : List ℕ) → read_frame r ≡ packet bytes rest → FrameCases r
  is_large : read_frame r ≡ too_large → FrameCases r
  is_eof : read_frame r ≡ unexpected_eof → FrameCases r

frame_cases : (r : List ℕ) → FrameCases r
frame_cases r = go (read_frame r) refl
  where
    go : (f : FrameRead) → read_frame r ≡ f → FrameCases r
    go (packet bytes rest) e = is_packet bytes rest e
    go too_large e = is_large e
    go unexpected_eof e = is_eof e

module _ {E : Type 0} (wire : Parcel E Packet) where
  abbrev pub handle : List ℕ → List Packet × LoopEnd → List Packet × LoopEnd
  handle bytes run = (parsed wire (wire.from_raw_bytes bytes) run.0, run.1)

  loop_packet :
      (fuel : ℕ) (r bytes rest : List ℕ)
      → read_frame r ≡ packet bytes rest
      → read_loop wire (suc fuel) r ≡ handle bytes (read_loop wire fuel rest)
  unfolding read_loop
  loop_packet fuel r bytes rest e = ground (arith, e)

  loop_large :
      (fuel : ℕ) (r : List ℕ)
      → read_frame r ≡ too_large
      → read_loop wire (suc fuel) r ≡ ([], unimplemented)
  unfolding read_loop
  loop_large fuel r e = ground (arith, e)

  loop_eof :
      (fuel : ℕ) (r : List ℕ)
      → read_frame r ≡ unexpected_eof
      → read_loop wire (suc fuel) r ≡ ([], end_of_stream)
  unfolding read_loop
  loop_eof fuel r e = ground (arith, e)

  -- Every fuel above the length of the stream gives the same run, and that does not run out.
  loop_enough :
      (fuel more : ℕ) (r : List ℕ)
      → length r < fuel
      → length r < more
      → (read_loop wire fuel r ≡ read_loop wire more r) × ((read_loop wire fuel r).1 ≢ out_of_fuel)
  loop_enough zero more r h k = absurd (omega arith)
  loop_enough (suc fuel) zero r h k = absurd (omega arith)
  loop_enough (suc fuel) (suc more) r h k = elim (frame_cases r) [
    | is_packet bytes rest e ↦
        let shorter = read_frame-shorter r bytes rest e in
        let rec = loop_enough fuel more rest (omega arith) (omega arith) in
        rw (loop_packet fuel r bytes rest e, loop_packet more r bytes rest e)
          (ap (handle bytes) rec.0, rec.1)
    | is_large e ↦ rw (loop_large fuel r e, loop_large more r e) (refl, λ c. cc c)
    | is_eof e ↦ rw (loop_eof fuel r e, loop_eof more r e) (refl, λ c. cc c)
  ]

  pub read_task_step :
      (r bytes rest : List ℕ)
      → read_frame r ≡ packet bytes rest
      → read_task wire r ≡ handle bytes (read_task wire rest)
  unfolding read_task
  read_task_step r bytes rest e =
      let shorter = read_frame-shorter r bytes rest e in
      let same = (loop_enough (length r) (suc (length rest)) rest shorter (omega arith)).0 in
      loop_packet (length r) r bytes rest e ∙ ap (handle bytes) same

  pub read_task_nil : read_task wire [] ≡ ([], end_of_stream)
  unfolding read_task
  read_task_nil = loop_eof 0 [] read_frame_nil
