-- ===== src/Frame/RoundTrip.antt =====
-- Frames between a writer and a reader.
use tewta.Base.{
  ℕ, ◌%◌, ◌^◌, ◌≡◌, ◌≤◌, ◌<◌, ap, List, ◌++◌, length, some, arith, length-append,
  take-length-append, drop-length-append, append_assoc, ◌∙◌,
}
use tewta.Frame.{
  max_packet_size, to_be_bytes, frame, read_u32, read_exact, packet, too_large, read_frame,
}

read_u32-to_be_bytes :
    (n : ℕ) (rest : List ℕ) → n < 2 ^ 32 → read_u32 (to_be_bytes n ++ rest) ≡ some (n, rest)
unfolding read_u32 to_be_bytes
read_u32-to_be_bytes n rest h = ground arith

read_exact-append : (p rest : List ℕ) → read_exact (length p) (p ++ rest) ≡ some (p, rest)
unfolding read_exact
read_exact-append p rest =
    ground (arith, length-append p rest, take-length-append p rest, drop-length-append p rest)

read_u32-frame :
    (p rest : List ℕ) → length p < 2 ^ 32 → read_u32 (frame p ++ rest) ≡ some (length p, p ++ rest)
unfolding frame
read_u32-frame p rest h =
    let n = length p % 2 ^ 32 in
    let same : n ≡ length p = omega arith in
    ap read_u32 (append_assoc (to_be_bytes n) p rest)
    ∙ read_u32-to_be_bytes n (p ++ rest) (omega arith)
    ∙ ap (λ m. some (m, p ++ rest)) same

-- A packet of fewer than `MAX_PACKET_SIZE` bytes is read back from its frame, and the bytes after
-- the frame stay.
pub read_frame-frame :
    (p rest : List ℕ) → length p < max_packet_size → read_frame (frame p ++ rest) ≡ packet p rest
unfolding read_frame
read_frame-frame p rest h =
    ground (arith, read_u32-frame p rest (omega arith), read_exact-append p rest)

-- A header that announces `MAX_PACKET_SIZE` bytes or more is refused, whatever follows it: no byte
-- of the packet is read.
pub read_frame_too_large :
    (n : ℕ) (rest : List ℕ)
    → max_packet_size ≤ n
    → n < 2 ^ 32
    → read_frame (to_be_bytes n ++ rest) ≡ too_large
unfolding read_frame
read_frame_too_large n rest h k = ground (arith, read_u32-to_be_bytes n rest k)
