-- ===== src/Throttle/Tests.antt =====
-- Three attempts with an allowance of two.
use esp32_rig.Base.{String, ℕ, ◌≡◌, refl, true, false, List, [], ◌∷◌, arith}
use esp32_rig.Throttle.{Throttle, too_many, swept}
use esp32_rig.Throttle.Kept.{replies, counts}
use esp32_rig.Throttle.Counts.{replies-counts}
use esp32_rig.Throttle.Bounds.{Attempt, serve}

abbrev empty : Throttle
empty = record { window = 60; sweep_every = 256; book = []; calls = 0 }

abbrev try_at : ℕ → Attempt
try_at now = record { address = "10.0.0.1"; allowed = 2; now = now }

abbrev attempts : List Attempt
attempts = try_at 1 ∷ try_at 2 ∷ try_at 3 ∷ []

-- The third is refused, and one that comes when the first has left the window is not.
refusal : (too_many "10.0.0.1" 2 3 (serve (try_at 1 ∷ try_at 2 ∷ []) empty)).0 ≡ true
unfolding too_many swept serve
refusal = refl

allowed_again : (too_many "10.0.0.1" 2 61 (serve (try_at 1 ∷ try_at 2 ∷ []) empty)).0 ≡ false
unfolding too_many swept serve
allowed_again = refl

abbrev four : List (String × ℕ)
four = ("10.0.0.1", 1) ∷ ("10.0.0.1", 2) ∷ ("10.0.0.1", 3) ∷ ("10.0.0.1", 61) ∷ []

answers : replies 2 four empty ≡ false ∷ false ∷ true ∷ false ∷ []
unfolding replies too_many swept
answers = refl

replies-counts_example : replies 2 four empty ≡ counts 60 2 four []
replies-counts_example =
    replies-counts 2 four empty refl (omega arith, (omega arith, (omega arith, (omega arith, tt))))
