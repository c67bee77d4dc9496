-- ===== src/Store/Holds/Quarantine.antt =====
-- When a board is quarantined, and that nothing but a clean check of its own clears it.
use esp32_rig.Base.{
  ℕ, ◌+◌, ◌≤◌, ◌≡◌, refl, sorted_set, sorted_texts, ◌∙◌, String, true, false, not, ◌⊎◌, inl, inr,
  Option, none, some, List, [], ◌∷◌, ◌++◌, arith, eq_iff, first, filter, lookup, put, Bool-cases,
  if◌then◌else◌, ◌==◌,
}
use esp32_rig.Allocation.{reserved, quarantined}
use esp32_rig.Store.Holds.{
  Holds, HeldBoard, Verdict, Settings, Decision, hold_it, release_it, leave_it, decide, decide_free,
  streak_of, is_inconclusive, is_failure, is_of_job, cleared_by, head, enact, drop_key,
  board_verdicts, apply_boards, apply_quarantine,
}

-- The conclusive verdicts, newest first.
abbrev pub conclusive : List Verdict → List Verdict
conclusive = filter (λ v. not (is_inconclusive v))

-- How many of the first verdicts are failures.
abbrev pub failures : List Verdict → ℕ
failures [] = 0
failures (v ∷ vs) = let rest = failures vs in if is_failure v then rest + 1 else 0

-- The loop counts the failures since the last clean check; inconclusive ones neither count nor end
-- the count.
streak_of-failures :
    (vs : List Verdict) (n : ℕ) (checks : List String)
    → (streak_of vs (n, checks)).0 ≡ n + failures (conclusive vs)
unfolding streak_of
streak_of-failures [] n checks = omega arith
streak_of-failures (v ∷ vs) n checks =
    ground
      (arith, streak_of-failures vs n checks, streak_of-failures vs (n + 1) (checks ++ v.failed))

-- A board is quarantined only when it is not held, quarantine is on, the run just checked it, and
-- since its last clean check it failed at least the set number of times, inconclusive checks aside.
pub decide-hold_it :
    (settings : Settings) (job : String) (hold : Option HeldBoard) (history : List Verdict) (n : ℕ)
    (checks : List String)
    → decide settings job hold history ≡ hold_it n checks
    → (hold ≡ none)
      × (settings.enabled ≡ true)
      × (n ≡ failures (conclusive history))
      × (settings.after_failures ≤ n)
      × (is_of_job job (head history) ≡ true)
unfolding decide decide_free
decide-hold_it settings job (some h) history n checks e = absurd (ground arith)
decide-hold_it settings job none history n checks e =
    ground (arith, streak_of-failures history 0 [])

pub decide-holds :
    (settings : Settings) (job : String) (history : List Verdict)
    → settings.enabled ≡ true
    → settings.after_failures ≤ failures (conclusive history)
    → is_of_job job (head history) ≡ true
    → (checks : List String) × (decide settings job none history
        ≡ hold_it (failures (conclusive history)) checks)
unfolding decide decide_free
decide-holds settings job history on enough just =
    (sorted_set (streak_of history (0, [])).1, ground (arith, streak_of-failures history 0 []))

-- A board is released only when it was quarantined and its newest conclusive check is this run's and
-- clean.
pub decide-release_it :
    (settings : Settings) (job : String) (hold : Option HeldBoard) (history : List Verdict)
    → decide settings job hold history ≡ release_it
    → (h : HeldBoard) × (hold ≡ some h)
      × (h.state ≡ quarantined)
      × (cleared_by job (first (λ v. not (is_inconclusive v)) history) ≡ true)
unfolding decide decide_free
decide-release_it settings job none history e = absurd (ground arith)
decide-release_it settings job (some h) history e = (h, refl, ground arith, ground arith)

decide-reserved :
    (settings : Settings) (job : String) (h : HeldBoard) (history : List Verdict)
    → h.state ≡ reserved
    → decide settings job (some h) history ≡ leave_it
unfolding decide
decide-reserved settings job h history e = ground arith

lookup-put_ne :
    (k j : String) (v : HeldBoard) (m : Holds)
    → (j == k) ≡ false
    → lookup k (put j v m) ≡ lookup k m
lookup-put_ne k j v [] ne = ground arith
lookup-put_ne k j v ((i, w) ∷ m) ne = ground (arith, lookup-put_ne k j v m, eq_iff i j)

lookup-drop_ne :
    (k j : String) (m : Holds) → (j == k) ≡ false → lookup k (drop_key j m) ≡ lookup k m
lookup-drop_ne k j [] ne = refl
lookup-drop_ne k j ((i, w) ∷ m) ne = ground (arith, lookup-drop_ne k j m, eq_iff i j)

module _ (text : ℕ → List String → String) (settings : Settings) (job : String) (now : ℕ) where
  enact_ne :
      (b k : String) (d : Decision) (holds : Holds)
      → (b == k) ≡ false
      → lookup k (enact text job now b d holds) ≡ lookup k holds
  unfolding enact
  enact_ne b k (hold_it n checks) holds ne = lookup-put_ne k b _ holds ne
  enact_ne b k leave_it holds ne = refl
  enact_ne b k release_it holds ne = ground (arith, lookup-drop_ne k b holds)

  apply_boards-reserved :
      (verdicts : List Verdict) (before : Holds) (k : String) (h : HeldBoard) (boards : List String)
      (holds : Holds)
      → lookup k before ≡ some h
      → h.state ≡ reserved
      → lookup k holds ≡ some h
      → lookup k (apply_boards text settings job now verdicts before boards holds) ≡ some h
  unfolding apply_boards
  apply_boards-reserved verdicts before k h [] holds was res hit = hit
  apply_boards-reserved verdicts before k h (b ∷ bs) holds was res hit =
      apply_boards-reserved verdicts before k h bs _ was res (kept (Bool-cases (b == k)))
    where
      kept :
          ((b == k) ≡ true) ⊎ ((b == k) ≡ false)
          → lookup k (
              enact text job now b
                (decide settings job (lookup b before) (board_verdicts b 50 verdicts))
                holds)
            ≡ some h
      kept (inl same) =
          let e : b ≡ k = (eq_iff b k).0 same in
          rw (e, was, decide-reserved settings job h (board_verdicts k 50 verdicts) res)
            (unfold enact in hit)
      kept (inr ne) = enact_ne b k _ holds ne ∙ hit

  -- Whatever the verdicts, a board that is reserved stays reserved, with its reason.
  pub apply_quarantine-reserved :
      (verdicts : List Verdict) (boards : List String) (holds : Holds) (k : String) (h : HeldBoard)
      → lookup k holds ≡ some h
      → h.state ≡ reserved
      → lookup k (apply_quarantine text settings job now verdicts boards holds) ≡ some h
  unfolding apply_quarantine
  apply_quarantine-reserved verdicts boards holds k h was res =
      apply_boards-reserved verdicts holds k h (sorted_texts boards) holds was res was
