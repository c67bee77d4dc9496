-- ===== src/Node/Logs.antt =====
-- A log sent in chunks to a portal that keeps what it is sent.
use esp32_rig.Base.{
  ℕ, zero, suc, ◌+◌, ◌≤◌, ◌<◌, ◌≡◌, refl, sym, ap, ap₂, ◌∙◌, String, true, false, some, [], ◌∷◌,
  ◌++◌, arith, length, take, lookup, ok, inl, inr, Bool-cases, length-append,
}
use mathlib.Core.List.{append-nil, append_assoc}
use esp32_rig.Node.{
  Bytes, drop, is_nil, returned, Node, ship_log, Portal, log_chunk_bytes, value_or, ship_loop,
}

-- What the portal has of a run's log, and what a request at its end does.
abbrev pub Keeps : {P : Type 0} → Portal P → (String → P → Bytes) → Type 0
Keeps {P = P} portal kept =
    (job : String) (offset : ℕ) (chunk : Bytes) (p : P)
    → offset ≡ length (kept job p)
    → ((portal.post_log job offset chunk p).0 ≡ ok (some (offset + length chunk)))
      × (kept job (portal.post_log job offset chunk p).1 ≡ kept job p ++ chunk)

chunk-rest : (n : ℕ) (xs : Bytes) → take n xs ++ drop (length (take n xs)) xs ≡ xs
chunk-rest zero xs = refl
chunk-rest (suc n) [] = refl
chunk-rest (suc n) (x ∷ xs) = ap (λ ys. x ∷ ys) (chunk-rest n xs)

drop-nil : (n : ℕ) → drop n [] ≡ []
drop-nil zero = refl
drop-nil (suc n) = refl

drop-plus : (i j : ℕ) (xs : Bytes) → drop (i + j) xs ≡ drop j (drop i xs)
drop-plus zero j xs = ap (λ k. drop k xs) {x = 0 + j} {y = j} (omega arith)
drop-plus (suc i) j [] = drop-nil (suc i + j) ∙ sym (drop-nil j)
drop-plus (suc i) j (x ∷ xs) =
    ap (λ k. drop k (x ∷ xs)) {x = suc i + j} {y = suc (i + j)} (omega arith) ∙ drop-plus i j xs

chunk-nil : (n : ℕ) (xs : Bytes) → 1 ≤ n → is_nil (take n xs) ≡ true → xs ≡ []
chunk-nil n [] h e = refl
chunk-nil zero (x ∷ xs) h e = absurd (omega arith)
chunk-nil (suc n) (x ∷ xs) h e = absurd (cc)

some_length : (xs : Bytes) → is_nil xs ≡ false → 1 ≤ length xs
some_length [] h = absurd (cc)
some_length (x ∷ xs) h = omega arith

module _ {P : Type 0} (portal : Portal P) (kept : String → P → Bytes)
    (keeps : Keeps portal kept) where
  ship_loop-sends :
      (fuel : ℕ) (job : String) (log : Bytes) (offset : ℕ) (p : P)
      → kept job p ++ drop offset log ≡ log
      → offset ≡ length (kept job p)
      → length (drop offset log) < fuel
      → ((ship_loop portal fuel true job log offset p).0 ≡ returned)
        × (kept job (ship_loop portal fuel true job log offset p).2 ≡ log)
  unfolding ship_loop
  ship_loop-sends zero job log offset p whole ends enough = absurd (omega arith)
  ship_loop-sends (suc fuel) job log offset p whole ends enough =
      let rest = drop offset log in
      let chunk = take log_chunk_bytes rest in
      let (answer, more) = keeps job offset chunk p ends in
      elim (Bool-cases (is_nil chunk)) [
        | inl done ↦
            let none_left : rest ≡ [] = chunk-nil log_chunk_bytes rest (omega arith) done in
            let all : kept job p ≡ log =
              sym (append-nil (kept job p)) ∙ ap (λ xs. kept job p ++ xs) (sym none_left) ∙ whole in
            rw done (refl, all)
        | inr some_bytes ↦
            let next = (portal.post_log job offset chunk p).1 in
            let left = drop-plus offset (length chunk) log in
            let split : chunk ++ drop (length chunk) rest ≡ rest =
              chunk-rest log_chunk_bytes rest in
            let whole' : kept job next ++ drop (offset + length chunk) log ≡ log =
              ap₂ (λ xs ys. xs ++ ys) more left
              ∙ append_assoc (kept job p) chunk (drop (length chunk) rest)
              ∙ ap (λ xs. kept job p ++ xs) split
              ∙ whole in
            let ends' : offset + length chunk ≡ length (kept job next) =
              omega (arith, ends, ap length more, length-append (kept job p) chunk) in
            let enough' : length (drop (offset + length chunk) log) < fuel = omega (
              arith,
              enough,
              some_length chunk some_bytes,
              ap length split,
              length-append chunk (drop (length chunk) rest),
              ap length left,
            ) in
            rw (some_bytes, answer)
              (ship_loop-sends fuel job log (offset + length chunk) next whole' ends' enough')
      ]

length-drop_le : (n : ℕ) (xs : Bytes) → length (drop n xs) ≤ length xs
length-drop_le zero xs = omega arith
length-drop_le (suc n) [] = omega arith
length-drop_le (suc n) (x ∷ xs) = omega (arith, length-drop_le n xs)

-- A portal adds what it is sent at the end of what it has of a run's log, and answers the size. What
-- it has so far is the part of the file before the offset that the node keeps, or before 0. Then
-- sending the log until it is done returns, within one turn more than the log has bytes, and the
-- portal has the whole log.
pub ship_log-sends :
    {P : Type 0} (portal : Portal P) (kept : String → P → Bytes) (fuel : ℕ) (job : String)
    (log : Bytes) (n : Node) (p : P)
    → Keeps portal kept
    → lookup job n.logs ≡ some log
    → kept job p ++ drop (value_or (lookup job n.offsets) 0) log ≡ log
    → value_or (lookup job n.offsets) 0 ≡ length (kept job p)
    → length log < fuel
    → ((ship_log portal fuel true job n p).0 ≡ returned)
      × (kept job (ship_log portal fuel true job n p).2 ≡ log)
unfolding ship_log
ship_log-sends portal kept fuel job log n p keeps found whole ends enough =
    let offset = value_or (lookup job n.offsets) 0 in
    rw found (
      ship_loop-sends portal kept keeps fuel job log offset p whole ends
        (omega (arith, enough, length-drop_le offset log)))
