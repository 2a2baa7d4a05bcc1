-- ===== src/Node/Counter.antt =====
-- src/node/counter.rs: request identifiers from an atomic `u32`.
use tewta.Base.{ℕ, zero, suc, ◌+◌, ◌%◌, ◌^◌, ◌<◌, ◌≡◌, ◌≢◌, arith}

pub record Counter : Type 0 where
  pub value : ℕ

-- `Counter::default()`.
abbrev pub default : Counter
default = record { value = 0 }

-- `fetch_add` returns the value before, and wraps around.
unfoldable pub next : Counter → Counter × ℕ
next c = (record { value = (c.value + 1) % 2 ^ 32 }, c.value)

abbrev pub IsValid : Counter → Type 0
IsValid c = c.value < 2 ^ 32

-- `n` calls of `next`.
unfoldable pub advance : ℕ → Counter → Counter
unfolding next
advance zero c = c
advance (suc n) c = advance n (next c).0

pub next-IsValid : (c : Counter) → IsValid (next c).0
unfolding next
next-IsValid c = omega arith

advance-value : (n : ℕ) (c : Counter) → IsValid c → (advance n c).value ≡ (c.value + n) % 2 ^ 32
unfolding advance
advance-value zero c h = omega arith
advance-value (suc n) c h = omega (arith, advance-value n (next c).0 (next-IsValid c))

-- Two requests fewer than 2^32 calls apart get different identifiers.
pub next_distinct :
    (c : Counter) (n : ℕ) → IsValid c → 0 < n → n < 2 ^ 32 → (next (advance n c)).1 ≢ (next c).1
unfolding next
next_distinct c n h pos below e = omega (arith, advance-value n c h)
