-- ===== src/Allocation/Coverage/Fits.antt =====
-- The statement of what a run missed agrees with the dispatcher's own test.
use esp32_rig.Base.{
  ℕ, zero, suc, min, ◌≡◌, refl, ap, ◌∙◌, Bool, true, false, List, [], ◌∷◌, arith, All, length, take,
  filter, Bool-cases, inl, inr,
}
use esp32_rig.Allocation.{Board, Need}
use esp32_rig.Allocation.Needs.{
  matches, held_out, required, take_count, remove_board, remove_boards, needs_fit, same_board,
}
use esp32_rig.Allocation.Coverage.{Shortage, covers, coverage}

abbrev pub is_nil : List Shortage → Bool
is_nil [] = true
is_nil (s ∷ ss) = false

-- No board is held out.
abbrev pub AllIn : List Board → Type 0
AllIn = All (λ b. held_out b ≡ false)

take-min : (n : ℕ) (bs : List Board) → take (min (length bs) n) bs ≡ take n bs
take-min zero bs =
    let none_left : min (length bs) 0 ≡ 0 = omega arith in ap (λ k. take k bs) none_left
take-min (suc n) [] =
    let none_there : min 0 (suc n) ≡ 0 = omega arith in ap (λ k. take k []) none_there
take-min (suc n) (b ∷ bs) =
    let both : min (length (b ∷ bs)) (suc n) ≡ suc (min (length bs) n) = omega arith in
    ap (λ k. take k (b ∷ bs)) both ∙ ap (λ l. b ∷ l) (take-min n bs)

filter-covers :
    (n : Need) (bs : List Board) → AllIn bs → filter (λ b. matches b n) bs ≡ filter (covers n) bs
unfolding matches
filter-covers n [] h = refl
filter-covers n (b ∷ bs) h = ground (arith, h.0, filter-covers n bs h.1)

remove_board-AllIn : (b : Board) (bs : List Board) → AllIn bs → AllIn (remove_board b bs)
unfolding remove_board
remove_board-AllIn b [] h = tt
remove_board-AllIn b (x ∷ bs) h = elim (Bool-cases (same_board x b)) [
  | inl e ↦ rw e h.1
  | inr e ↦ rw e (h.0, remove_board-AllIn b bs h.1)
]

remove_boards-AllIn : (gone bs : List Board) → AllIn bs → AllIn (remove_boards gone bs)
remove_boards-AllIn [] bs h = h
remove_boards-AllIn (b ∷ gone) bs h =
    remove_boards-AllIn gone (remove_board b bs) (remove_board-AllIn b bs h)

-- On boards of which none is held out, and for needs of which none is optional, nothing is missing
-- from a run exactly where the dispatcher finds that the boards are enough.
pub is_nil-coverage :
    (needs : List Need) (boards : List Board)
    → All (λ n. n.optional ≡ false) needs
    → AllIn boards
    → is_nil (coverage needs boards) ≡ needs_fit needs boards
unfolding coverage needs_fit take_count required
is_nil-coverage [] boards o h = refl
is_nil-coverage (n ∷ ns) boards o h =
    let matching = filter (covers n) boards in
    let rest =
      is_nil-coverage ns (remove_boards (take n.count matching) boards) o.1
        (remove_boards-AllIn (take n.count matching) boards h) in
    ground (arith, o.0, filter-covers n boards h, take-min n.count matching, rest)
