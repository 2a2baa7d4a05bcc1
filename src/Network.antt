-- ===== src/Network.antt =====
-- `connect` of src/lib.rs: the registry through which the nodes of a test network reach each other.
-- A listener is the channel of the streams that a node accepts. A text is the list of its bytes.
pub mod Decimal
pub mod Reaches
use tewta.Base.{
  ℕ, zero, suc, ◌+◌, ◌-◌, ◌*◌, ◌/◌, ◌%◌, ◌^◌, Bool, true, false, not, ◌&&◌, Option, none, some,
  List, [], ◌∷◌, ◌++◌, length, take, drop, get_elem?, set, ltb, ◌==◌, if◌then◌else◌,
}
use tewta.Commands.{is_ascii_digit}
use tewta.Node.Events.{Channel}
use tewta.Peer.{eq_bytes}
use tewta.Stream.{TestStream, new}

-- The digits of a number, behind those of its tenth. A round divides by ten.
unfoldable pub digits : ℕ → ℕ → List ℕ
digits zero n = []
digits (suc fuel) n =
    let front = digits fuel (n / 10) in
    if ltb n 10 then (b'0' + n) ∷ [] else front ++ (b'0' + n % 10) ∷ []

abbrev pub local : List ℕ
local = b'l' ∷ b'o' ∷ b'c' ∷ b'a' ∷ b'l' ∷ b'-' ∷ []

-- `format!("local-{}", n)`.
unfoldable pub local_addr : ℕ → List ℕ
unfolding digits
local_addr n = local ++ digits (n + 1) n

unfoldable pub read_digits : ℕ → List ℕ → Option ℕ
read_digits n [] = some n
read_digits n (c ∷ s) =
    let next = n * 10 + (c - b'0') in
    let rest = read_digits next s in if is_ascii_digit c && ltb next (2 ^ 64) then rest else none

-- `str::parse::<usize>`, which allows a sign in front of the digits.
unfoldable pub parse_usize : List ℕ → Option ℕ
unfolding read_digits
parse_usize [] = none
parse_usize (c ∷ []) = read_digits 0 (c ∷ [])
parse_usize (c ∷ d ∷ s) = if c == b'+' then read_digits 0 (d ∷ s) else read_digits 0 (c ∷ d ∷ s)

-- `addr.starts_with("local-")`.
unfoldable pub is_local : List ℕ → Bool
is_local addr = eq_bytes (take 6 addr) local

-- How a call ends: with our stream and the registry, or with `None`, or with a panic.
pub data Connected : Type 0 where
  reached : TestStream → List (Channel TestStream) → Connected
  unreached : Connected
  panicked : Connected

abbrev pub send_to :
    ℕ
    → TestStream × TestStream
    → List (Channel TestStream)
    → Option (Channel TestStream)
    → Connected
send_to n (our_stream, their_stream) listeners none = unreached
send_to n (our_stream, their_stream) listeners (some c) =
    if c.receiver_dropped
    then panicked
    else reached our_stream (set listeners n (record c { queue = c.queue ++ their_stream ∷ [] }))

abbrev pub send_parsed : Option ℕ → TestStream × TestStream → List (Channel TestStream) → Connected
send_parsed none streams listeners = panicked
send_parsed (some n) streams listeners = send_to n streams listeners (get_elem? listeners n)

-- The cells of the streams have the addresses from `fresh` on.
unfoldable pub connect : (fresh log_id : ℕ) → List ℕ → List (Channel TestStream) → Connected
unfolding is_local parse_usize
connect fresh log_id addr listeners =
    if not (is_local addr)
    then panicked
    else send_parsed (parse_usize (drop 6 addr)) (new fresh log_id) listeners
