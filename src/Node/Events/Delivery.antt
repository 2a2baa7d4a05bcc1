-- ===== src/Node/Events/Delivery.antt =====
-- `event` of src/node/events.rs against the delivery to each listener.
use tewta.Base.{
  ℕ, zero, suc, ◌-◌, ◌≡◌, refl, ap, sym, ◌∙◌, List, [], ◌∷◌, ◌++◌, if◌then◌else◌, length, take,
  drop, arith, append_assoc, append-nil,
}
use tewta.Node.Events.{Channel, EventListeners, send_at, send_down, event}

module _ {ℓ} {T : Type ℓ} where
  -- What becomes of one listener: nothing if its receiver is dropped, and else it has the event.
  abbrev pub delivered : T → Channel T → List (Channel T)
  delivered e c = if c.receiver_dropped then [] else record c { queue = c.queue ++ e ∷ [] } ∷ []

  abbrev pub deliver : T → List (Channel T) → List (Channel T)
  deliver e [] = []
  deliver e (c ∷ cs) = delivered e c ++ deliver e cs

  send_at-suc :
      (e : T) (i : ℕ) (c : Channel T) (cs : List (Channel T))
      → send_at e (suc i) (c ∷ cs) ≡ c ∷ send_at e i cs
  unfolding send_at
  send_at-suc e i c cs = ground arith

  send_at-zero :
      (e : T) (c : Channel T) (cs : List (Channel T)) → send_at e 0 (c ∷ cs) ≡ delivered e c ++ cs
  unfolding send_at
  send_at-zero e c cs = ground arith

  -- The state of the loop from the back: the listeners from index `n` on are served.
  abbrev served : T → ℕ → List (Channel T) → List (Channel T)
  served e n cs = deliver e (take n cs) ++ drop n cs

  served-send_at :
      (e : T) (n : ℕ) (cs : List (Channel T)) → served e n (send_at e n cs) ≡ served e (suc n) cs
  served-send_at e zero [] = unfold send_at in refl
  served-send_at e (suc n) [] = unfold send_at in refl
  served-send_at e zero (c ∷ cs) =
      send_at-zero e c cs ∙ ap (λ l. l ++ cs) (sym (append-nil (delivered e c)))
  served-send_at e (suc n) (c ∷ cs) = rw (send_at-suc e n c cs) (
      append_assoc (delivered e c) (deliver e (take n (send_at e n cs))) (drop n (send_at e n cs))
      ∙ ap (λ l. delivered e c ++ l) (served-send_at e n cs)
      ∙ sym (append_assoc (delivered e c) (deliver e (take (suc n) cs)) (drop (suc n) cs)))

  send_down-served :
      (e : T) (n : ℕ) (first : Channel T) (cs : List (Channel T))
      → send_down e n (first ∷ cs) ≡ first ∷ served e n cs
  unfolding send_down
  send_down-served e zero first cs = refl
  send_down-served e (suc n) first cs =
      ap (send_down e n) (send_at-suc e n first cs)
      ∙ send_down-served e n first (send_at e n cs)
      ∙ ap (λ l. first ∷ l) (served-send_at e n cs)

  served_all : (e : T) (cs : List (Channel T)) → served e (length cs) cs ≡ deliver e cs
  served_all e [] = refl
  served_all e (c ∷ cs) =
      append_assoc (delivered e c) (deliver e (take (length cs) cs)) (drop (length cs) cs)
      ∙ ap (λ l. delivered e c ++ l) (served_all e cs)

  event_of :
      (e : T) (ls : List (Channel T))
      → (event e (record { listeners = ls })).listeners ≡ deliver e ls
  unfolding event
  event_of e [] = refl
  event_of e (c ∷ []) = send_at-zero e c []
  event_of e (c ∷ d ∷ cs) =
      let down : send_down e (length (c ∷ d ∷ cs) - 1) (c ∷ d ∷ cs) ≡ c ∷ deliver e (d ∷ cs) =
        ap (λ n. send_down e n (c ∷ d ∷ cs)) {x = length (c ∷ d ∷ cs) - 1} {y = length (d ∷ cs)}
          (omega arith)
        ∙ send_down-served e (length (d ∷ cs)) c (d ∷ cs)
        ∙ ap (λ l. c ∷ l) (served_all e (d ∷ cs)) in
      ground (arith, down, send_at-zero e c (deliver e (d ∷ cs)))

  -- An event is appended once to the queue of every listener whose receiver is there, the others
  -- are removed, and the order stays: the loop that removes by index from the back serves all.
  pub event-deliver :
      (e : T) (self : EventListeners T) → (event e self).listeners ≡ deliver e self.listeners
  event-deliver e self = event_of e self.listeners
