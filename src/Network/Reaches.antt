-- ===== src/Network/Reaches.antt =====
-- Which node `connect` of src/lib.rs reaches.
use tewta.Base.{
  ℕ, zero, suc, ◌^◌, ◌<◌, ◌≤◌, ◌≡◌, ◌⊎◌, inl, inr, refl, sym, subst, arith, true, false, Option,
  none, some, List, [], ◌∷◌, ◌++◌, length, drop, get_elem?, set, Bool-cases,
}
use tewta.Network.{
  local_addr, parse_usize, is_local, Connected, reached, unreached, panicked, send_to, send_parsed,
  connect,
}
use tewta.Network.Decimal.{parse_usize-digits}
use tewta.Node.Events.{Channel}
use tewta.Peer.{eq_bytes}
use tewta.Stream.{TestStream, new}

-- The end of a call for the node of a number: there is no such node; or its channel is closed, and
-- the call panics; or the node gets the other end of the stream, behind those it got before, and
-- the other nodes get nothing.
pub data Served (fresh log_id n : ℕ) (ls : List (Channel TestStream)) (end : Connected)
    : Type 0 where
  no_node : length ls ≤ n → end ≡ unreached → Served fresh log_id n ls end
  closed :
      (c : Channel TestStream)
      → get_elem? ls n ≡ some c
      → c.receiver_dropped ≡ true
      → end ≡ panicked
      → Served fresh log_id n ls end
  accepts :
      (c : Channel TestStream)
      → get_elem? ls n ≡ some c
      → c.receiver_dropped ≡ false
      → end
        ≡ reached
            (new fresh log_id).0
            (set ls n (record c { queue = c.queue ++ (new fresh log_id).1 ∷ [] }))
      → Served fresh log_id n ls end

get_elem?-none : {A : Type 0} (xs : List A) (i : ℕ) → get_elem? xs i ≡ none → length xs ≤ i
get_elem?-none [] i e = omega arith
get_elem?-none (x ∷ xs) zero e = cc e
get_elem?-none (x ∷ xs) (suc i) e = omega (arith, get_elem?-none xs i e)

send_to-Served :
    (fresh log_id n : ℕ) (ls : List (Channel TestStream)) (c : Option (Channel TestStream))
    → get_elem? ls n ≡ c
    → Served fresh log_id n ls (send_to n (new fresh log_id) ls c)
send_to-Served fresh log_id n ls none e = no_node (get_elem?-none ls n e) refl
send_to-Served fresh log_id n ls (some c) e = elim (Bool-cases c.receiver_dropped) [
  | inl gone ↦ closed c e gone (ground (arith, gone))
  | inr there ↦ accepts c e there (ground (arith, there))
]

connect_lem :
    (fresh log_id : ℕ) (addr : List ℕ) (ls : List (Channel TestStream)) (n : Option ℕ)
    → is_local addr ≡ true
    → parse_usize (drop 6 addr) ≡ n
    → connect fresh log_id addr ls ≡ send_parsed n (new fresh log_id) ls
unfolding connect
connect_lem fresh log_id addr ls n l e = rw (l, e) refl

connect_panics :
    (fresh log_id : ℕ) (addr : List ℕ) (ls : List (Channel TestStream))
    → (is_local addr ≡ false) ⊎ (parse_usize (drop 6 addr) ≡ none)
    → connect fresh log_id addr ls ≡ panicked
unfolding connect
connect_panics fresh log_id addr ls (inl e) = rw e refl
connect_panics fresh log_id addr ls (inr e) = elim (Bool-cases (is_local addr)) [
  | inl l ↦ connect_lem fresh log_id addr ls none l e
  | inr l ↦ rw l refl
]

-- The address of a node, its number in decimal digits behind `local-`, leads to the node with that
-- number, for a number of 64 bits. Any address that does not begin so, or does not go on with a
-- number of 64 bits, makes the call panic.
pub connect-Served :
    (fresh log_id : ℕ) (ls : List (Channel TestStream))
    → ((n : ℕ) → n < 2 ^ 64 → Served fresh log_id n ls (connect fresh log_id (local_addr n) ls))
      × ((addr : List ℕ)
          → (is_local addr ≡ false) ⊎ (parse_usize (drop 6 addr) ≡ none)
          → connect fresh log_id addr ls ≡ panicked)
unfolding local_addr is_local eq_bytes
connect-Served fresh log_id ls = (
  λ n h.
      subst (Served fresh log_id n ls)
        (sym (connect_lem fresh log_id (local_addr n) ls (some n) refl (parse_usize-digits n h)))
        (send_to-Served fresh log_id n ls (get_elem? ls n) refl),
  λ addr why. connect_panics fresh log_id addr ls why,
)
