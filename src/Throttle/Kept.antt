-- ===== src/Throttle/Kept.antt =====
-- The book of a throttle beside the log of every attempt that was let through.
use esp32_rig.Base.{
  ℕ, ◌+◌, ◌%◌, ◌≤◌, ◌≡◌, refl, sym, ap, ◌∙◌, String, Bool, false, List, [], ◌∷◌, ◌++◌, arith, eqb,
  leb, length, length-append, filter, filter-append, put, if◌then◌else◌, Bool-cases, inl, inr,
  eq_iff, ◌==◌,
}
use esp32_rig.Throttle.{Throttle, is_recent, is_idle, sweep, last_of, times_of, swept, too_many}
use esp32_rig.Throttle.Times.{
  Between, Between-later, Between-filter, Between-append, idle-none, recents-again,
  length-filter_le, last_of-all, Book, Distinct, times_of-put, Distinct-put, times_of-sweep,
  Distinct-sweep,
}

-- The attempts that were let through, oldest first, with their addresses.
abbrev pub Log : Type 0
Log = List (String × ℕ)

abbrev pub times_in : String → Log → List ℕ
times_in a [] = []
times_in a ((k, t) ∷ log) = if k == a then t ∷ times_in a log else times_in a log

-- An attempt is one too many if as many of its address were let through within the window.
unfoldable pub exceeds : ℕ → ℕ → String → ℕ → Log → Bool
exceeds window allowed a now log =
    leb allowed (length (filter (is_recent window now) (times_in a log)))

abbrev pub count_attempt : ℕ → ℕ → String → ℕ → Log → Log
count_attempt window allowed a now log =
    if exceeds window allowed a now log then log else log ++ (a, now) ∷ []

-- What the throttle answers, and what the count answers.
unfoldable pub replies : ℕ → List (String × ℕ) → Throttle → List Bool
replies allowed [] t = []
replies allowed ((a, now) ∷ rest) t =
    (too_many a allowed now t).0 ∷ replies allowed rest (too_many a allowed now t).1

unfoldable pub counts : ℕ → ℕ → List (String × ℕ) → Log → List Bool
counts window allowed [] log = []
counts window allowed ((a, now) ∷ rest) log =
    exceeds window allowed a now log
    ∷ counts window allowed rest (count_attempt window allowed a now log)

-- The clock does not go back.
abbrev pub InOrder : ℕ → List (String × ℕ) → Type 0
InOrder last [] = Unit {0}
InOrder last ((a, now) ∷ rest) = (last ≤ now) × InOrder now rest

-- A book that counts as the log does, from some time on.
pub record Counts (window n last : ℕ) (book : Book) (log : Log) : Type 0 where
  pub distinct : Distinct book
  pub between : (a : String) → Between 0 (times_of a book) last
  pub short : (a : String) → length (times_of a book) ≤ n
  pub agree :
      (a : String) (now : ℕ)
      → last ≤ now
      → filter (is_recent window now) (times_of a book)
        ≡ filter (is_recent window now) (times_in a log)

times_in-append :
    (a : String) (log : Log) (k : String) (now : ℕ)
    → times_in a (log ++ (k, now) ∷ [])
      ≡ (if k == a then times_in a log ++ now ∷ [] else times_in a log)
times_in-append a [] k now = refl
times_in-append a ((j, t) ∷ log) k now = ground (arith, times_in-append a log k now)

module _ (window n last : ℕ) (book : Book) (log : Log) (c : Counts window n last book log) (now : ℕ)
    (le : last ≤ now) where
  -- A sweep forgets nothing that will be counted.
  sweep-agree :
      (a : String) (later : ℕ)
      → now ≤ later
      → filter (is_recent window later) (times_of a (sweep window now book))
        ≡ filter (is_recent window later) (times_of a book)
  sweep-agree a later le' = elim (Bool-cases (is_idle window now (times_of a book))) [
    | inl idle ↦
        let gone : filter (is_recent window now) (times_of a book) ≡ [] =
          idle-none window now 0 (times_of a book) last (c.between a) idle in
        rw (times_of-sweep window now a book c.distinct, idle)
          (sym (
            sym (recents-again window now later (times_of a book) le')
            ∙ ap (filter (is_recent window later)) gone))
    | inr busy ↦ rw (times_of-sweep window now a book c.distinct, busy) refl
  ]

  sweep-Counts : Counts window n now (sweep window now book) log
  sweep-Counts = record {
    distinct = Distinct-sweep window now book c.distinct;
    between = λ a. elim (Bool-cases (is_idle window now (times_of a book))) [
      | inl idle ↦ rw (times_of-sweep window now a book c.distinct, idle) (omega arith)
      | inr busy ↦
          rw (times_of-sweep window now a book c.distinct, busy)
            (Between-later 0 (times_of a book) last now le (c.between a))
    ];
    short = λ a. elim (Bool-cases (is_idle window now (times_of a book))) [
      | inl idle ↦ rw (times_of-sweep window now a book c.distinct, idle) (omega arith)
      | inr busy ↦ rw (times_of-sweep window now a book c.distinct, busy) (c.short a)
    ];
    agree = λ a later le'. sweep-agree a later le' ∙ c.agree a later (omega arith);
  }

  later-Counts : Counts window n now book log
  later-Counts = record {
    distinct = c.distinct;
    between = λ a. Between-later 0 (times_of a book) last now le (c.between a);
    short = c.short;
    agree = λ a later le'. c.agree a later (omega arith);
  }

pub swept-Counts :
    (n last now : ℕ) (t : Throttle) (log : Log)
    → last ≤ now
    → Counts t.window n last t.book log
    → Counts t.window n now (swept now t) log
unfolding swept
swept-Counts n last now t log le c = elim (Bool-cases (eqb ((t.calls + 1) % t.sweep_every) 0)) [
  | inl sweeps ↦ rw sweeps (sweep-Counts t.window n last t.book log c now le)
  | inr not_yet ↦ rw not_yet (later-Counts t.window n last t.book log c now le)
]

module _ (window n now : ℕ) (book : Book) (log : Log) (c : Counts window n now book log)
    (a : String) where
  -- The times of one address written anew.
  put-Counts :
      (ts : List ℕ) (log' : Log)
      → Between 0 ts now
      → length ts ≤ n
      → ((later : ℕ)
          → now ≤ later
          → filter (is_recent window later) ts ≡ filter (is_recent window later) (times_in a log'))
      → ((b : String) → (a == b) ≡ false → times_in b log' ≡ times_in b log)
      → Counts window n now (put a ts book) log'
  put-Counts ts log' between short agree others = record {
    distinct = Distinct-put a ts book c.distinct;
    between = λ b. elim (Bool-cases (a == b)) [
      | inl same ↦ rw (times_of-put a ts b book, same) between
      | inr other ↦ rw (times_of-put a ts b book, other) (c.between b)
    ];
    short = λ b. elim (Bool-cases (a == b)) [
      | inl same ↦ rw (times_of-put a ts b book, same) short
      | inr other ↦ rw (times_of-put a ts b book, other) (c.short b)
    ];
    agree = λ b later le. elim (Bool-cases (a == b)) [
      | inl same ↦
          rw (times_of-put a ts b book, same)
            (agree later le
              ∙ ap (λ k. filter (is_recent window later) (times_in k log')) ((eq_iff a b).0 same))
      | inr other ↦
          rw (times_of-put a ts b book, other)
            (c.agree b later le ∙ ap (filter (is_recent window later)) (sym (others b other)))
    ];
  }

  abbrev recent : List ℕ
  recent = filter (is_recent window now) (times_of a book)

  recent-le : length recent ≤ n
  recent-le =
      let short = c.short a in
      omega (arith, length-filter_le (is_recent window now) (times_of a book))

  recent-agree :
      (later : ℕ)
      → now ≤ later
      → filter (is_recent window later) recent ≡ filter (is_recent window later) (times_in a log)
  recent-agree later le = recents-again window now later (times_of a book) le ∙ c.agree a later le

  pub refused-Counts : Counts window n now (put a (last_of n recent) book) log
  refused-Counts = rw (last_of-all n recent recent-le) (
      put-Counts recent log
        (Between-filter (is_recent window now) 0 (times_of a book) now (c.between a)) recent-le
        recent-agree (λ b other. refl))

  pub passed-Counts :
      leb n (length recent) ≡ false
      → Counts window n now (put a (recent ++ now ∷ []) book) (log ++ (a, now) ∷ [])
  passed-Counts room =
      let mine : times_in a (log ++ (a, now) ∷ []) ≡ times_in a log ++ now ∷ [] =
        rw (times_in-append a log a now, (eq_iff a a).1 refl) refl in
      put-Counts (recent ++ now ∷ []) (log ++ (a, now) ∷ [])
        (Between-append 0 recent now
          (Between-filter (is_recent window now) 0 (times_of a book) now (c.between a)))
        (ground (arith, length-append recent (now ∷ [])))
        (λ later le.
          filter-append (is_recent window later) recent (now ∷ [])
          ∙ ap (λ l. l ++ filter (is_recent window later) (now ∷ [])) (recent-agree later le)
          ∙ sym (filter-append (is_recent window later) (times_in a log) (now ∷ []))
          ∙ ap (filter (is_recent window later)) (sym mine))
        (λ b other. rw (times_in-append b log a now, other) refl)
