-- ===== src/Throttle.antt =====
-- core/alteriom_hil/service.py: AddressThrottle, which bounds what an address asks of a sign-in.
-- Times are whole units of the monotonic clock.
pub mod Bounds
pub mod Times
pub mod Kept
pub mod Counts
mod Tests
use esp32_rig.Base.{
  ℕ, zero, suc, ◌+◌, ◌-◌, ◌%◌, String, Bool, true, false, not, ◌&&◌, ◌||◌, Option, none, some, List,
  [], ◌∷◌, ◌++◌, eqb, ltb, leb, length, filter, lookup, put, if◌then◌else◌,
}
use esp32_rig.Store.Table.{delete_where}

pub record Throttle : Type 0 where
  pub window : ℕ
  pub sweep_every : ℕ
  pub book : List (String × List ℕ)
  pub calls : ℕ

-- `now - at < self.window`, in numbers that may be below zero
abbrev pub is_recent : ℕ → ℕ → ℕ → Bool
is_recent window now at = ltb now (at + window)

abbrev pub is_idle : ℕ → ℕ → List ℕ → Bool
is_idle window now [] = true
is_idle window now (t ∷ []) = not (is_recent window now t)
is_idle window now (t ∷ u ∷ ts) = is_idle window now (u ∷ ts)

unfoldable pub sweep : ℕ → ℕ → List (String × List ℕ) → List (String × List ℕ)
sweep window now = delete_where (λ e. is_idle window now e.1)

-- `recent[-allowed:] if allowed > 0 else []`
abbrev pub last_of : ℕ → List ℕ → List ℕ
last_of n [] = []
last_of n (t ∷ ts) = let rest = last_of n ts in if ltb (length ts) n then t ∷ rest else rest

abbrev pub times_of : String → List (String × List ℕ) → List ℕ
times_of address book = elim (lookup address book) [ none ↦ [] | some ts ↦ ts ]

-- The book after the sweep that this call may pay for.
unfoldable pub swept : ℕ → Throttle → List (String × List ℕ)
unfolding sweep
swept now t = if eqb ((t.calls + 1) % t.sweep_every) 0 then sweep t.window now t.book else t.book

abbrev pub recent_of : String → ℕ → Throttle → List ℕ
recent_of address now t = filter (is_recent t.window now) (times_of address (swept now t))

unfoldable pub too_many : String → ℕ → ℕ → Throttle → Bool × Throttle
unfolding swept
too_many address allowed now t =
    let recent = recent_of address now t in
    let refused = leb allowed (length recent) in
    (
      refused,
      record t {
        calls = t.calls + 1;
        book =
            put address (if refused then last_of allowed recent else recent ++ now ∷ [])
              (swept now t);
      },
    )
