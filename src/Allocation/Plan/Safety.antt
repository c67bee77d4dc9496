-- ===== src/Allocation/Plan/Safety.antt =====
-- The plan over a farm: whatever starts, no worker's runs hold a board or a resource twice.
use mathlib.Core.List.{append_assoc, append-nil}
use mathlib.Core.Path.{subst}
use esp32_rig.Base.{
  ℕ, max, eqb, String, ◌≡◌, refl, sym, ap, ◌∙◌, Bool, true, false, Option, some, List, [], ◌∷◌,
  ◌++◌, arith, length, filter, same_name, same_name→eq, same_name_refl, Bool-cases, Option-cases,
  All, All-filter, All-map, filter-append, inl, inr, if◌then◌else◌,
}
use esp32_rig.Allocation.{Demand, Grant}
use esp32_rig.Allocation.Reason.{Reason}
use esp32_rig.Allocation.Rig.{
  Rig, attempt, granted, activate, block, Outcome-cases, eligible, runs_profile, grant_alone,
  grant_shared, attempt_alone, attempt_idle, attempt_shared, attempt_boards,
}
use esp32_rig.Allocation.Rig.Exclusive.{IsExclusive, Beside, attempt-Beside, append-IsExclusive}
use esp32_rig.Allocation.Plan.{
  Plan, Farm, limit_of, runs_on, rig_names, rig_of, rigs_of, offered, candidates, candidates_in,
  candidates_named, started, Tried-cases, Offer-cases, try_rigs, update_rig, block_all, settle,
  place, place_all, plan, no_plan,
}

module _ (P : Rig → Type 0) (d : Demand) where
  head_of_All : (rs qs : List Rig) → rs ≡ qs → All P rs → All P qs
  head_of_All rs qs e h = subst (All P) e h

  -- The rigs offered to a demand are rigs of the farm.
  candidates_in-All :
      (rigs rs : List Rig) → All P rigs → candidates_in d rigs ≡ offered rs → All P rs
  unfolding candidates_in
  candidates_in-All rigs rs h e =
      ground (
        arith,
        All-filter P (λ r. eligible r d) rigs h,
        All-filter P (λ r. runs_profile r d) rigs h,
      )

  candidates_named-All :
      (k : String) (rigs rs : List Rig)
      → All P rigs
      → candidates_named d k rigs ≡ offered rs
      → All P rs
  unfolding candidates_named
  candidates_named-All k [] rs h e = absurd (cc)
  candidates_named-All k (r ∷ rigs) rs h e = candidates_in-All (r ∷ rigs) rs h (ground arith)

  pub candidates-All : (rigs rs : List Rig) → All P rigs → candidates d rigs ≡ offered rs → All P rs
  unfolding candidates
  candidates-All rigs rs h e = elim (Option-cases d.rig) [
    | inl anywhere ↦ candidates_in-All rigs rs h (ground arith)
    | inr (k, named) ↦
        candidates_named-All k (filter (λ r. same_name r.name (some k)) rigs) rs
          (All-filter P _ rigs h) (ground arith)
  ]

  -- The rig that starts a demand is one of those tried, and granted it.
  pub try_rigs-started :
      (rs : List Rig) (r : Rig) (g : Grant)
      → All P rs
      → try_rigs d rs ≡ started r g
      → P r × (attempt r d ≡ granted g)
  unfolding try_rigs
  try_rigs-started [] r g h e = absurd (cc)
  try_rigs-started (x ∷ xs) r g h e = elim (Outcome-cases (attempt x d)) [
    | inl (g', hit) ↦ let same : x ≡ r = ground arith in (subst P same h.0, ground arith)
    | inr (why, whole, missed) ↦ try_rigs-started xs r g h.1 (ground arith)
  ]

module _ (P Q : Rig → Type 0) where
  -- A change of the rigs with a name, where the others keep what they had.
  pub update_rig-All :
      (k : Option String) (f : Rig → Rig) (rigs : List Rig)
      → ((r : Rig) → same_name r.name k ≡ true → P r → Q (f r))
      → ((r : Rig) → same_name r.name k ≡ false → P r → Q r)
      → All P rigs
      → All Q (update_rig k f rigs)
  unfolding update_rig
  update_rig-All k f [] hit miss h = tt
  update_rig-All k f (r ∷ rs) hit miss h = elim (Bool-cases (same_name r.name k)) [
    | inl e ↦ rw e (hit r e h.0, update_rig-All k f rs hit miss h.1)
    | inr e ↦ rw e (miss r e h.0, update_rig-All k f rs hit miss h.1)
  ]

pub attempt-worker :
    (r : Rig) (d : Demand) (g : Grant) → attempt r d ≡ granted g → g.worker ≡ r.name
unfolding attempt attempt_alone attempt_idle attempt_shared attempt_boards grant_alone grant_shared
attempt-worker r d g e = ground arith

-- The runs on a worker: those that ran before and those that the plan starts.
abbrev pub runs_of : Farm → List Grant → Option String → List Grant
runs_of f starts k = runs_on k (f.running ++ starts)

-- A rig of the loop has the runs of its worker, and its worker's limit.
pub record Tracks (f : Farm) (starts : List Grant) (r : Rig) : Type 0 where
  pub active : r.active ≡ runs_of f starts r.name
  pub limit : r.limit ≡ max 1 (limit_of f r.name)

abbrev pub bound_of : Farm → Option String → ℕ
bound_of f k = max (max 1 (limit_of f k)) (length (runs_on k f.running))

abbrev pub AllExclusive : Farm → List Grant → Type 0
AllExclusive f starts = (k : Option String) → IsExclusive (bound_of f k) (runs_of f starts k)

-- The loop's invariant.
pub record IsTracked (f : Farm) (rigs : List Rig) (starts : List Grant) : Type 0 where
  pub tracked : All (Tracks f starts) rigs
  pub exclusive : AllExclusive f starts

block-Tracks :
    (f : Farm) (starts : List Grant) (r : Rig) (d : Demand) (whole : Bool)
    → Tracks f starts r
    → Tracks f starts (block r d whole)
unfolding block
block-Tracks f starts r d whole t = record { active = ground arith; limit = ground arith }

block_all-Tracks :
    (f : Farm) (starts : List Grant) (d : Demand) (outs : List (Rig × Reason × Bool))
    (rigs : List Rig)
    → All (Tracks f starts) rigs
    → All (Tracks f starts) (block_all d outs rigs)
unfolding block_all
block_all-Tracks f starts d [] rigs h = h
block_all-Tracks f starts d ((r, why, whole) ∷ rest) rigs h = block_all-Tracks f starts d rest _ (
    update_rig-All (Tracks f starts) (Tracks f starts) r.name (λ q. block q d whole) rigs
      (λ q _ t. block-Tracks f starts q d whole t) (λ q _ t. t) h)

runs_of-start :
    (f : Farm) (starts : List Grant) (g : Grant) (k : Option String)
    → runs_of f (starts ++ g ∷ []) k
      ≡ runs_of f starts k ++ (if same_name g.worker k then g ∷ [] else [])
runs_of-start f starts g k =
    ap (runs_on k) (sym (append_assoc f.running starts (g ∷ [])))
    ∙ filter-append (λ h. same_name h.worker k) (f.running ++ starts) (g ∷ [])

-- What is said of a worker, said of its name in another spelling.
same_name-false : (a b c : Option String) → a ≡ b → same_name c b ≡ false → same_name a c ≡ false
same_name-false a b c e h = elim (Bool-cases (same_name a c)) [
  | inl yes_same ↦ absurd (cc (h, same_name_refl b, sym e ∙ same_name→eq a c yes_same))
  | inr fine ↦ fine
]

module _ (f : Farm) (starts : List Grant) (d : Demand) (r : Rig) (g : Grant) (t : Tracks f starts r)
    (e : attempt r d ≡ granted g) where
  abbrev after_start : List Grant
  after_start = starts ++ g ∷ []

  start_hit :
      (q : Rig)
      → same_name q.name r.name ≡ true
      → Tracks f starts q
      → Tracks f after_start (activate g q)
  start_hit q same tq =
      let here : same_name g.worker q.name ≡ true =
        rw (attempt-worker r d g e, same_name→eq q.name r.name same) (same_name_refl r.name) in
      record {
        active = rw (runs_of-start f starts g q.name, here) (ap (λ l. l ++ g ∷ []) tq.active);
        limit = tq.limit;
      }

  start_miss :
      (q : Rig) → same_name q.name r.name ≡ false → Tracks f starts q → Tracks f after_start q
  start_miss q other tq =
      let away = same_name-false g.worker r.name q.name (attempt-worker r d g e) other in
      record {
        active = rw (runs_of-start f starts g q.name, away) (tq.active ∙ sym (append-nil _));
        limit = tq.limit;
      }

  start-Beside :
      (k : Option String) → r.name ≡ k → Beside (max 1 (limit_of f k)) (runs_of f starts k) g
  start-Beside k same =
      subst (λ j. Beside (max 1 (limit_of f j)) (runs_of f starts j) g) same
        (subst (λ l. Beside l (runs_of f starts r.name) g) t.limit
          (subst (λ gs. Beside r.limit gs g) t.active (attempt-Beside r d g e)))

  start-exclusive : AllExclusive f starts → AllExclusive f after_start
  start-exclusive v k = elim (Bool-cases (same_name g.worker k)) [
    | inl here ↦
        let same : r.name ≡ k = sym (attempt-worker r d g e) ∙ same_name→eq g.worker k here in
        rw (runs_of-start f starts g k, here)
          (append-IsExclusive (max 1 (limit_of f k)) (bound_of f k) (runs_of f starts k) g
            (omega arith) (omega arith) (start-Beside k same) (v k))
    | inr away ↦ rw (runs_of-start f starts g k, away, append-nil) (v k)
  ]

  start-IsTracked :
      (rigs : List Rig)
      → IsTracked f rigs starts
      → IsTracked f (update_rig r.name (activate g) rigs) after_start
  start-IsTracked rigs v = record {
    tracked =
        update_rig-All (Tracks f starts) (Tracks f after_start) r.name (activate g) rigs start_hit
          start_miss v.tracked;
    exclusive = start-exclusive v.exclusive;
  }

settle-IsTracked :
    (f : Farm) (d : Demand) (rigs rs : List Rig) (p : Plan)
    → IsTracked f rigs p.start
    → All (Tracks f p.start) rs
    → let next = settle d (try_rigs d rs) rigs p in IsTracked f next.0 next.1.start
unfolding settle
settle-IsTracked f d rigs rs p v h = elim (Tried-cases (try_rigs d rs)) [
  | inl (r, g, e) ↦
      let (t, granting) = try_rigs-started (Tracks f p.start) d rs r g h e in
      rw (e, settle) (start-IsTracked f p.start d r g t granting rigs v)
  | inr (outs, e) ↦
      rw (e, settle)
        (record { tracked = block_all-Tracks f _ d outs rigs v.tracked; exclusive = v.exclusive })
]

place-IsTracked :
    (f : Farm) (d : Demand) (rigs : List Rig) (p : Plan)
    → IsTracked f rigs p.start
    → IsTracked f (place d rigs p).0 (place d rigs p).1.start
unfolding place
place-IsTracked f d rigs p v = elim (Offer-cases (candidates d rigs)) [
  | inr (why, e) ↦ rw (e, place) (record { tracked = v.tracked; exclusive = v.exclusive })
  | inl (rs, e) ↦
      rw (e, place)
        (settle-IsTracked f d rigs rs p v (candidates-All (Tracks f p.start) d rigs rs v.tracked e))
]

place_all-IsTracked :
    (f : Farm) (ds : List Demand) (rigs : List Rig) (p : Plan)
    → IsTracked f rigs p.start
    → IsTracked f (place_all ds rigs p).0 (place_all ds rigs p).1.start
unfolding place_all
place_all-IsTracked f [] rigs p v = v
place_all-IsTracked f (d ∷ ds) rigs p v =
    place_all-IsTracked f ds (place d rigs p).0 (place d rigs p).1 (place-IsTracked f d rigs p v)

rigs_of-IsTracked : (f : Farm) → AllExclusive f [] → IsTracked f (rigs_of f) []
unfolding rigs_of rig_of
rigs_of-IsTracked f v = record {
  tracked =
      All-map (Tracks f []) (rig_of f (eqb (length (rig_names f)) 1)) (rig_names f)
        λ k. record { active = ap (runs_on k) (sym (append-nil f.running)); limit = refl };
  exclusive = v;
}

-- Whatever the queue, and paused or not: if no two running jobs of a worker hold a board or a
-- resource in common, and a running job that is not shared is its worker's only one, then the same
-- holds of the running jobs together with those that the plan starts. They are on each worker at
-- most its limit (one, for a limit of zero), or what ran there already where that is more.
pub plan-AllExclusive :
    (queue : List Demand) (f : Farm) (paused : Bool)
    → AllExclusive f []
    → AllExclusive f (plan queue f paused).start
unfolding plan
plan-AllExclusive queue f true v = v
plan-AllExclusive queue f false v =
    (place_all-IsTracked f queue (rigs_of f) no_plan (rigs_of-IsTracked f v)).exclusive
