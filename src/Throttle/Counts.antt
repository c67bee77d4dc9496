-- ===== src/Throttle/Counts.antt =====
-- AddressThrottle against a count of every attempt that was ever let through.
use esp32_rig.Base.{
  ℕ, ◌≤◌, ◌≡◌, refl, sym, ap, ap₂, subst, ◌∙◌, String, List, [], ◌∷◌, arith, leb, length, filter,
  Bool-cases, inl, inr,
}
use esp32_rig.Throttle.{Throttle, is_recent, swept, recent_of, too_many}
use esp32_rig.Throttle.Kept.{
  Log, times_in, exceeds, count_attempt, replies, counts, InOrder, Counts, swept-Counts,
  refused-Counts, passed-Counts,
}

-- One attempt is answered as the count answers it, and both go on alike.
step-Counts :
    (n last now : ℕ) (a : String) (t : Throttle) (log : Log)
    → last ≤ now
    → Counts t.window n last t.book log
    → ((too_many a n now t).0 ≡ exceeds t.window n a now log)
      × Counts t.window n now (too_many a n now t).1.book (count_attempt t.window n a now log)
unfolding too_many exceeds
step-Counts n last now a t log le c =
    let s = swept-Counts n last now t log le c in
    let recents = recent_of a now t in
    let same : leb n (length recents)
        ≡ leb n (length (filter (is_recent t.window now) (times_in a log))) =
      ap (λ l. leb n (length l)) (s.agree a now (omega arith)) in
    (
      same,
      elim (Bool-cases (leb n (length recents))) [
        | inl refused ↦
            rw (refused, sym same ∙ refused) (refused-Counts t.window n now (swept now t) log s a)
        | inr passed ↦
            rw (passed, sym same ∙ passed)
              (passed-Counts t.window n now (swept now t) log s a passed)
      ],
    )

replies-Counts :
    (n last : ℕ) (attempts : List (String × ℕ)) (t : Throttle) (log : Log)
    → InOrder last attempts
    → Counts t.window n last t.book log
    → replies n attempts t ≡ counts t.window n attempts log
unfolding replies counts too_many
replies-Counts n last [] t log order c = refl
replies-Counts n last ((a, now) ∷ rest) t log order c =
    let (same, next) = step-Counts n last now a t log order.0 c in
    ap₂ (λ b bs. b ∷ bs) same (replies-Counts n now rest (too_many a n now t).1 _ order.1 next)

-- A throttle that starts with an empty book answers every sequence of attempts, in the order of the
-- clock and with one allowance, as a count over all the attempts that it ever let through would: what
-- it forgets, of refused attempts and in its sweeps, is never missed.
pub replies-counts :
    (n : ℕ) (attempts : List (String × ℕ)) (t : Throttle)
    → t.book ≡ []
    → InOrder 0 attempts
    → replies n attempts t ≡ counts t.window n attempts []
replies-counts n attempts t new order = replies-Counts n 0 attempts t [] order (
    subst (λ book. Counts t.window n 0 book []) (sym new)
      (record {
        distinct = tt;
        between = λ a. omega arith;
        short = λ a. omega arith;
        agree = λ a now le. refl;
      }))
