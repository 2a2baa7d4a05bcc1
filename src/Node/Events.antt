-- ===== src/Node/Events.antt =====
-- src/node/events.rs: the listeners of one kind of event. A sender and its receiver share a
-- channel; the list holds the channels, and a receiver reads the queue of its own. Sending fails
-- exactly if the receiver is dropped, since the channels are unbounded.
pub mod Delivery
use tewta.Base.{
  ℕ, zero, suc, ◌-◌, ◌+◌, Bool, true, false, Option, none, some, List, [], ◌∷◌, ◌++◌, ltb,
  if◌then◌else◌, length, get_elem?, set, take, drop,
}

pub record Channel {ℓ} (T : Type ℓ) : Type ℓ where
  pub receiver_dropped : Bool
  pub queue : List T

pub record EventListeners {ℓ} (T : Type ℓ) : Type ℓ where
  pub listeners : List (Channel T)

module _ {ℓ} {T : Type ℓ} where
  -- `Vec::remove`.
  abbrev pub remove : List (Channel T) → ℕ → List (Channel T)
  remove [] i = []
  remove (c ∷ cs) zero = cs
  remove (c ∷ cs) (suc i) = c ∷ remove cs i

  -- `if listeners[i].send(event.clone()).await.is_err() { listeners.remove(i); }`
  unfoldable pub send_at : T → ℕ → List (Channel T) → List (Channel T)
  send_at event i listeners = elim (get_elem? listeners i) [
    | none ↦ listeners
    | some c ↦
        if c.receiver_dropped
        then remove listeners i
        else set listeners i (record c { queue = c.queue ++ event ∷ [] })
  ]

  -- `for i in (1..n + 1).rev()`.
  unfoldable pub send_down : T → ℕ → List (Channel T) → List (Channel T)
  unfolding send_at
  send_down event zero listeners = listeners
  send_down event (suc n) listeners = send_down event n (send_at event (suc n) listeners)

  unfoldable pub event : T → EventListeners T → EventListeners T
  unfolding send_down
  event e self =
      let ls = self.listeners in
      let ls = if ltb 1 (length ls) then send_down e (length ls - 1) ls else ls in
      record { listeners = elim ls [ [] ↦ [] | c ∷ cs ↦ send_at e 0 (c ∷ cs) ] }

  -- The receiver is the channel at the end.
  unfoldable pub listen : EventListeners T → EventListeners T
  listen self = record {
    listeners = self.listeners ++ record { receiver_dropped = false; queue = [] } ∷ [];
  }

abbrev pub default {ℓ} : {T : Type ℓ} → EventListeners T
default = record { listeners = [] }
