-- ===== src/Providers/Budget.antt =====
-- providers.py: the messages that a day's budget lets a rig send. The file's text is what
-- `json.loads` gives for it; two processes that lock it take their turns.
use esp32_rig.Base.{
  ℕ, zero, suc, ◌+◌, ◌-◌, ◌≡◌, refl, sym, ap, subst, ◌∙◌, String, Bool, true, false, Option, none,
  some, arith, leb, min, if◌then◌else◌, ◌==◌, eq_iff, inl, inr, Bool-cases, Option-cases,
}

-- `record.get("used")`
pub data Used : Type 0 where
  no_number negative : Used
  number : ℕ → Used

-- What the file holds; one that is not UTF-8 cannot be decoded.
pub data Text : Type 0 where
  undecodable blank no_json no_mapping undated : Text
  dated : String → Used → Text

abbrev pub used_number : Used → ℕ
used_number no_number = 0
used_number negative = 0
used_number (number n) = n

-- `_read_budget` of the decoded text; `none` where decoding it raises.
abbrev pub read_budget : Text → String → Option ℕ
read_budget undecodable today = none
read_budget (dated day used) today = some (if day == today then used_number used else 0)
read_budget _ today = some 0

-- What a call of `consume_budget` comes to.
pub data Consumed : Type 0 where
  granted refused decode_error : Consumed

abbrev pub is_granted : Consumed → Bool
is_granted granted = true
is_granted _ = false

abbrev pub consume_read : ℕ → String → Option ℕ → Text → Consumed × Text
consume_read max_per_day today none text = (decode_error, text)
consume_read max_per_day today (some used) text =
    if leb max_per_day used then (refused, text) else (granted, dated today (number (used + 1)))

-- The answer, and the file after.
unfoldable pub consume_budget : ℕ → String → Text → Consumed × Text
consume_budget max_per_day today text = consume_read max_per_day today (read_budget text today) text

-- `budget_used`; it raises on a file that cannot be decoded, and one that is not there is `blank`.
unfoldable pub budget_used : String → Text → Option ℕ
budget_used today text = read_budget text today

-- So many attempts of a day, one after another: the messages allowed, and the file after.
pub consume_all : ℕ → String → ℕ → Text → ℕ × Text
unfolding consume_budget
consume_all max_per_day today zero text = (0, text)
consume_all max_per_day today (suc n) text =
    let first = consume_budget max_per_day today text in
    let rest = consume_all max_per_day today n first.1 in
    ((if is_granted first.0 then 1 else 0) + rest.0, rest.1)

read-own : (today : String) (n : ℕ) → read_budget (dated today (number n)) today ≡ some n
read-own today n = ground (arith, eq_iff today today)

-- What a run of attempts does to a file that has used so many of the day's messages, or that cannot be
-- decoded.
abbrev pub IsAllowance : ℕ → String → ℕ → Text → Option ℕ → ℕ × Text → Type 0
IsAllowance max_per_day today n text none (sent, text') = (sent ≡ 0) × (text' ≡ text)
IsAllowance max_per_day today n text (some used) (sent, text') =
    (sent ≡ min n (max_per_day - used)) × (budget_used today text' ≡ some (used + sent))

consume_all-refused :
    (max_per_day : ℕ) (today : String) (n : ℕ) (text : Text)
    → (consume_budget max_per_day today text).1 ≡ text
    → is_granted (consume_budget max_per_day today text).0 ≡ false
    → consume_all max_per_day today n text ≡ (0, text)
unfolding consume_all
consume_all-refused max_per_day today zero text same none_left = refl
consume_all-refused max_per_day today (suc n) text same none_left =
    let idle = consume_all-refused max_per_day today n text same none_left in
    rw (none_left, same, idle) refl

consume_all-some :
    (max_per_day : ℕ) (today : String) (n : ℕ) (text : Text) (used : ℕ)
    → read_budget text today ≡ some used
    → IsAllowance max_per_day today n text (some used) (consume_all max_per_day today n text)
unfolding consume_all consume_budget budget_used
consume_all-some max_per_day today zero text used e = (omega arith, e ∙ ap some (omega arith))
consume_all-some max_per_day today (suc n) text used e = elim (Bool-cases (leb max_per_day used)) [
  | inl spent ↦
      let idle =
        consume_all-refused max_per_day today (suc n) text (rw (e, spent) refl)
          (rw (e, spent) refl) in
      subst (IsAllowance max_per_day today (suc n) text (some used)) (sym idle)
        (ground (arith, spent), e ∙ ap some (omega arith))
  | inr room ↦
      let next = dated today (number (used + 1)) in
      let first : consume_budget max_per_day today text ≡ (granted, next) = rw (e, room) refl in
      let (sent, left) =
        consume_all-some max_per_day today n next (used + 1) (read-own today (used + 1)) in
      let rest = consume_all max_per_day today n next in
      let whole : consume_all max_per_day today (suc n) text ≡ (1 + rest.0, rest.1) =
        rw first refl in
      subst (IsAllowance max_per_day today (suc n) text (some used)) (sym whole)
        (ground (arith, sent, room), left ∙ ap some (omega arith))
]

-- Out of any number of attempts of one day, whoever makes them: where the file can be decoded, as many
-- are allowed as the day's budget has left, or all if they are fewer, and the file then says how many
-- the day has used; where it cannot, none is allowed, and the file is left as it is.
pub consume_all-granted :
    (max_per_day : ℕ) (today : String) (n : ℕ) (text : Text)
    → IsAllowance max_per_day today n text
        (budget_used today text)
        (consume_all max_per_day today n text)
unfolding budget_used consume_budget
consume_all-granted max_per_day today n text = elim (Option-cases (read_budget text today)) [
  | inl fails ↦
      let idle = consume_all-refused max_per_day today n text (rw fails refl) (rw fails refl) in
      rw (fails, idle, IsAllowance) (refl, refl)
  | inr (used, read) ↦
      subst (λ r. IsAllowance max_per_day today n text r (consume_all max_per_day today n text))
        (sym read) (consume_all-some max_per_day today n text used read)
]
