-- ===== src/Frame.antt =====
-- The framing that src/node/connections.rs and src/node/handshake.rs share: a packet's bytes behind
-- their number, as four bytes with the highest first.
pub mod RoundTrip
use tewta.Base.{
  ℕ, ◌+◌, ◌*◌, ◌/◌, ◌%◌, ◌^◌, ◌≡◌, List, [], ◌∷◌, ◌++◌, length, take, drop, ltb, leb, if◌then◌else◌,
  Option, none, some,
}

abbrev pub max_packet_size : ℕ
max_packet_size = 1000000

-- `u32::to_be_bytes`.
unfoldable pub to_be_bytes : ℕ → List ℕ
to_be_bytes n = n / 2 ^ 24 % 256 ∷ n / 2 ^ 16 % 256 ∷ n / 2 ^ 8 % 256 ∷ n % 256 ∷ []

-- The length as `u32`, then the bytes: what the two `write_all` write.
unfoldable pub frame : List ℕ → List ℕ
frame p = to_be_bytes (length p % 2 ^ 32) ++ p

-- `read_u32` of tokio: the number that four bytes stand for, and the bytes after them. `none` is
-- the end of the stream.
unfoldable pub read_u32 : List ℕ → Option (ℕ × List ℕ)
read_u32 (a ∷ b ∷ c ∷ d ∷ rest) = some (((a * 256 + b) * 256 + c) * 256 + d, rest)
read_u32 _ = none

-- `read_exact` into a buffer of `n` bytes.
unfoldable pub read_exact : ℕ → List ℕ → Option (List ℕ × List ℕ)
read_exact n stream = if leb n (length stream) then some (take n stream, drop n stream) else none

pub data FrameRead : Type 0 where
  packet : List ℕ → List ℕ → FrameRead
  too_large unexpected_eof : FrameRead

abbrev read_body : Option (List ℕ × List ℕ) → FrameRead
read_body none = unexpected_eof
read_body (some (p, rest)) = packet p rest

abbrev read_sized : Option (ℕ × List ℕ) → FrameRead
read_sized none = unexpected_eof
read_sized (some (size, rest)) =
    if leb max_packet_size size then too_large else read_body (read_exact size rest)

-- Reading a packet: its size, the test of the size, and then its bytes.
unfoldable pub read_frame : List ℕ → FrameRead
read_frame stream = read_sized (read_u32 stream)
