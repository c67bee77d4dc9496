-- ===== src/Throttle/Bounds.antt =====
-- What a throttle keeps in memory, whoever calls it.
use esp32_rig.Base.{
  ℕ, ◌+◌, ◌%◌, ◌≤◌, ◌≡◌, min, String, not, List, [], ◌∷◌, ◌++◌, arith, eqb, leb, length,
  length-append, All, All-filter, put, if◌then◌else◌, Bool-cases, inl, inr, ◌==◌,
}
use esp32_rig.Throttle.{Throttle, is_idle, sweep, last_of, swept, recent_of, too_many}

-- No address has more attempts than it is allowed.
abbrev pub IsBounded : ℕ → List (String × List ℕ) → Type 0
IsBounded n = All (λ e. length e.1 ≤ n)

length-last_of : (n : ℕ) (ts : List ℕ) → length (last_of n ts) ≡ min n (length ts)
length-last_of n [] = omega arith
length-last_of n (t ∷ ts) = ground (arith, length-last_of n ts)

put-IsBounded :
    (n : ℕ) (k : String) (ts : List ℕ) (book : List (String × List ℕ))
    → length ts ≤ n
    → IsBounded n book
    → IsBounded n (put k ts book)
put-IsBounded n k ts [] h b = (h, tt)
put-IsBounded n k ts ((j, us) ∷ book) h b = elim (Bool-cases (j == k)) [
  | inl e ↦ rw e (h, b.1)
  | inr e ↦ rw e (b.0, put-IsBounded n k ts book h b.1)
]

swept-IsBounded : (n now : ℕ) (t : Throttle) → IsBounded n t.book → IsBounded n (swept now t)
unfolding swept sweep
swept-IsBounded n now t b = elim (Bool-cases (eqb ((t.calls + 1) % t.sweep_every) 0)) [
  | inl e ↦ rw e (All-filter (λ u. length u.1 ≤ n) (λ u. not (is_idle t.window now u.1)) t.book b)
  | inr e ↦ rw e b
]

times-le :
    (allowed now : ℕ) (recent : List ℕ)
    → length (if leb allowed (length recent) then last_of allowed recent else recent ++ now ∷ [])
      ≤ allowed
times-le allowed now recent =
    ground (arith, length-last_of allowed recent, length-append recent (now ∷ []))

too_many-IsBounded :
    (n allowed now : ℕ) (address : String) (t : Throttle)
    → allowed ≤ n
    → IsBounded n t.book
    → IsBounded n (too_many address allowed now t).1.book
unfolding too_many
too_many-IsBounded n allowed now address t fits b =
    put-IsBounded n address _ (swept now t)
      (omega (arith, times-le allowed now (recent_of address now t))) (swept-IsBounded n now t b)

-- One call of `too_many`.
pub record Attempt : Type 0 where
  pub address : String
  pub allowed : ℕ
  pub now : ℕ

unfoldable pub serve : List Attempt → Throttle → Throttle
serve [] t = t
serve (a ∷ rest) t = serve rest (too_many a.address a.allowed a.now t).1

-- After any calls, by whomever and whenever, no address has more attempts in the book of a throttle
-- than the highest allowance that they name, if none had before.
pub serve-IsBounded :
    (n : ℕ) (attempts : List Attempt) (t : Throttle)
    → All (λ a. a.allowed ≤ n) attempts
    → IsBounded n t.book
    → IsBounded n (serve attempts t).book
unfolding serve
serve-IsBounded n [] t h b = b
serve-IsBounded n (a ∷ rest) t h b =
    serve-IsBounded n rest (too_many a.address a.allowed a.now t).1 h.1
      (too_many-IsBounded n a.allowed a.now a.address t h.0 b)
