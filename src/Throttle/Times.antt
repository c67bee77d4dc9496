-- ===== src/Throttle/Times.antt =====
-- Times of attempts, oldest first, and the entries of a book.
use esp32_rig.Base.{
  ℕ, ◌≤◌, ◌≡◌, refl, subst, String, Bool, true, false, not, List, [], ◌∷◌, ◌++◌, arith, length,
  filter, put, has_key, if◌then◌else◌, Bool-cases, inl, inr, eq_iff, ◌==◌,
}
use esp32_rig.Throttle.{is_recent, is_idle, sweep, last_of, times_of}

-- From `a` on, in order, and none after `b`.
abbrev pub Between : ℕ → List ℕ → ℕ → Type 0
Between a [] b = a ≤ b
Between a (t ∷ ts) b = (a ≤ t) × Between t ts b

pub Between-later : (a : ℕ) (ts : List ℕ) (b c : ℕ) → b ≤ c → Between a ts b → Between a ts c
Between-later a [] b c le h = omega arith
Between-later a (t ∷ ts) b c le h = (h.0, Between-later t ts b c le h.1)

Between-earlier : (a a' : ℕ) (ts : List ℕ) (b : ℕ) → a' ≤ a → Between a ts b → Between a' ts b
Between-earlier a a' [] b le h = omega arith
Between-earlier a a' (t ∷ ts) b le h = let f = h.0 in (omega arith, h.1)

pub Between-filter :
    (p : ℕ → Bool) (a : ℕ) (ts : List ℕ) (b : ℕ) → Between a ts b → Between a (filter p ts) b
Between-filter p a [] b h = h
Between-filter p a (t ∷ ts) b h = elim (Bool-cases (p t)) [
  | inl stays ↦ rw stays (h.0, Between-filter p t ts b h.1)
  | inr goes ↦ rw goes (Between-earlier t a (filter p ts) b h.0 (Between-filter p t ts b h.1))
]

pub Between-append : (a : ℕ) (ts : List ℕ) (b : ℕ) → Between a ts b → Between a (ts ++ b ∷ []) b
Between-append a [] b h = (h, omega arith)
Between-append a (t ∷ ts) b h = (h.0, Between-append t ts b h.1)

module _ (window now : ℕ) where
  abbrev recents : List ℕ → List ℕ
  recents = filter (is_recent window now)

  -- If the last is not recent, none is.
  pub idle-none :
      (a : ℕ) (ts : List ℕ) (b : ℕ)
      → Between a ts b
      → is_idle window now ts ≡ true
      → recents ts ≡ []
  idle-none a [] b h e = refl
  idle-none a (t ∷ []) b h e = ground arith
  idle-none a (t ∷ u ∷ ts) b h e =
      let none_later = idle-none t (u ∷ ts) b h.1 e in
      let le = h.1.0 in ground (arith, none_later, le)

  -- What is recent later was recent before.
  pub recents-again :
      (later : ℕ) (ts : List ℕ)
      → now ≤ later
      → filter (is_recent window later) (recents ts) ≡ filter (is_recent window later) ts
  recents-again later [] le = refl
  recents-again later (t ∷ ts) le = ground (arith, recents-again later ts le)

pub length-filter_le : (p : ℕ → Bool) (ts : List ℕ) → length (filter p ts) ≤ length ts
length-filter_le p [] = omega arith
length-filter_le p (t ∷ ts) = ground (arith, length-filter_le p ts)

pub last_of-all : (n : ℕ) (ts : List ℕ) → length ts ≤ n → last_of n ts ≡ ts
last_of-all n [] h = refl
last_of-all n (t ∷ ts) h = ground (arith, last_of-all n ts)

abbrev pub Book : Type 0
Book = List (String × List ℕ)

-- No address has two entries.
abbrev pub Distinct : Book → Type 0
Distinct [] = Unit {0}
Distinct ((k, ts) ∷ book) = (has_key k book ≡ false) × Distinct book

pub times_of-put :
    (k : String) (ts : List ℕ) (a : String) (book : Book)
    → times_of a (put k ts book) ≡ (if k == a then ts else times_of a book)
times_of-put k ts a [] = ground arith
times_of-put k ts a ((j, us) ∷ book) =
    ground (arith, times_of-put k ts a book, eq_iff j k, eq_iff j a, eq_iff k a)

has_key-put_other :
    (k : String) (ts : List ℕ) (a : String) (book : Book)
    → (k == a) ≡ false
    → has_key a book ≡ false
    → has_key a (put k ts book) ≡ false
has_key-put_other k ts a [] other h = ground arith
has_key-put_other k ts a ((j, us) ∷ book) other h =
    ground (arith, has_key-put_other k ts a book other)

pub Distinct-put :
    (k : String) (ts : List ℕ) (book : Book) → Distinct book → Distinct (put k ts book)
Distinct-put k ts [] d = (refl, tt)
Distinct-put k ts ((j, us) ∷ book) d = elim (Bool-cases (j == k)) [
  | inl same ↦ rw same (subst (λ i. has_key i book ≡ false) ((eq_iff j k).0 same) d.0, d.1)
  | inr other ↦ rw other (
    has_key-put_other k ts j book (ground (arith, eq_iff j k, eq_iff k j)) d.0,
    Distinct-put k ts book d.1,
  )
]

has_key-filter :
    (p : String × List ℕ → Bool) (a : String) (book : Book)
    → has_key a book ≡ false
    → has_key a (filter p book) ≡ false
has_key-filter p a [] h = refl
has_key-filter p a ((j, us) ∷ book) h = ground (arith, has_key-filter p a book)

Distinct-filter :
    (p : String × List ℕ → Bool) (book : Book) → Distinct book → Distinct (filter p book)
Distinct-filter p [] d = tt
Distinct-filter p ((j, us) ∷ book) d = elim (Bool-cases (p (j, us))) [
  | inl stays ↦ rw stays (has_key-filter p j book d.0, Distinct-filter p book d.1)
  | inr goes ↦ rw goes (Distinct-filter p book d.1)
]

times_of-absent : (a : String) (book : Book) → has_key a book ≡ false → times_of a book ≡ []
times_of-absent a [] h = refl
times_of-absent a ((j, us) ∷ book) h = ground (arith, times_of-absent a book)

times_of-cons :
    (j : String) (us : List ℕ) (a : String) (book : Book)
    → times_of a ((j, us) ∷ book) ≡ (if j == a then us else times_of a book)
times_of-cons j us a book = ground arith

-- A sweep takes the entries of the addresses that are idle.
pub times_of-sweep :
    (window now : ℕ) (a : String) (book : Book)
    → Distinct book
    → times_of a (sweep window now book)
      ≡ (if is_idle window now (times_of a book) then [] else times_of a book)
unfolding sweep
times_of-sweep window now a [] d = refl
times_of-sweep window now a ((j, us) ∷ book) d = elim (Bool-cases (j == a)) [
  | inl same ↦ elim (Bool-cases (is_idle window now us)) [
    | inl idle ↦
        let absent =
          has_key-filter (λ e. not (is_idle window now e.1)) a book
            (subst (λ i. has_key i book ≡ false) ((eq_iff j a).0 same) d.0) in
        rw (times_of-cons j us a book, same, idle)
          (times_of-absent a (sweep window now book) absent)
    | inr busy ↦
        rw
          (
            times_of-cons j us a book,
            same,
            busy,
            times_of-cons j us a (sweep window now book),
            same,
          )
          refl
  ]
  | inr other ↦
      let rest = times_of-sweep window now a book d.1 in
      elim (Bool-cases (is_idle window now us)) [
        | inl idle ↦ rw (times_of-cons j us a book, other, idle) rest
        | inr busy ↦
            rw
              (
                times_of-cons j us a book,
                other,
                busy,
                times_of-cons j us a (sweep window now book),
                other,
              )
              rest
      ]
]

pub Distinct-sweep :
    (window now : ℕ) (book : Book) → Distinct book → Distinct (sweep window now book)
unfolding sweep
Distinct-sweep window now book d = Distinct-filter _ book d
