-- ===== src/Providers/Der/Encoded.antt =====
-- A key as it is written in DER, and what the parser reads of it.
use esp32_rig.Base.{
  ℕ, zero, suc, ◌+◌, ◌-◌, ◌%◌, ◌≤◌, ◌<◌, ◌≡◌, refl, sym, subst, ◌∙◌, ap, true, false, ◌||◌, [], ◌∷◌,
  ◌++◌, arith, length, take, eqb, ltb, leb, ok, length-append,
}
use mathlib.Core.List.{append_assoc}
use esp32_rig.Providers.Der.{
  Bytes, Item, drop, byte_at, slice, from_bytes, item_to, sized_item, der_item,
}

-- The length of the contents: one byte, or the number of the bytes that follow and those bytes.
pub data Size : Type 0 where
  short : ℕ → Size
  long : Bytes → Size

abbrev pub size_bytes : Size → Bytes
size_bytes (short n) = n ∷ []
size_bytes (long bytes) = (128 + length bytes) ∷ bytes

-- The size is one that DER knows, and is that of the contents.
abbrev pub Sizes : Size → Bytes → Type 0
Sizes (short n) contents = (n < 128) × (n ≡ length contents)
Sizes (long bytes) contents =
    (1 ≤ length bytes) × (length bytes ≤ 4) × (from_bytes bytes ≡ length contents)

abbrev pub item : ℕ → Size → Bytes → Bytes
item tag size contents = tag ∷ (size_bytes size ++ contents)

-- What stands from a place of the bytes on.
abbrev pub StandsAt : Bytes → ℕ → Bytes → Type 0
StandsAt bytes offset rest = (drop offset bytes ≡ rest) × (offset + length rest ≡ length bytes)

drop-nil : (i : ℕ) → drop {A = ℕ} i [] ≡ []
drop-nil zero = refl
drop-nil (suc i) = refl

drop-plus : (i j : ℕ) (bytes : Bytes) → drop (i + j) bytes ≡ drop j (drop i bytes)
drop-plus zero j bytes = ap (λ k. drop k bytes) {x = 0 + j} {y = j} (omega arith)
drop-plus (suc i) j [] = drop-nil (suc i + j) ∙ sym (drop-nil j)
drop-plus (suc i) j (x ∷ xs) =
    ap (λ k. drop k (x ∷ xs)) {x = suc i + j} {y = suc (i + j)} (omega arith) ∙ drop-plus i j xs

drop-append : (xs ys : Bytes) → drop (length xs) (xs ++ ys) ≡ ys
drop-append [] ys = refl
drop-append (x ∷ xs) ys = drop-append xs ys

take-append : (xs ys : Bytes) → take (length xs) (xs ++ ys) ≡ xs
take-append [] ys = refl
take-append (x ∷ xs) ys = ap (λ zs. x ∷ zs) (take-append xs ys)

module _ (bytes : Bytes) (offset : ℕ) where
  pub past :
      (xs ys : Bytes) → StandsAt bytes offset (xs ++ ys) → StandsAt bytes (offset + length xs) ys
  past xs ys (here, ends) = (
    drop-plus offset (length xs) bytes ∙ ap (drop (length xs)) here ∙ drop-append xs ys,
    omega (arith, length-append xs ys),
  )

  pub onward :
      (x : ℕ) (xs : Bytes) → StandsAt bytes offset (x ∷ xs) → StandsAt bytes (offset + 1) xs
  onward x xs = past (x ∷ []) xs

  pub slice-at :
      (xs ys : Bytes)
      → StandsAt bytes offset (xs ++ ys)
      → slice bytes offset (offset + length xs) ≡ xs
  slice-at xs ys (here, ends) =
      ap (λ n. take n (drop offset bytes)) {x = offset + length xs - offset} {y = length xs}
        (omega arith)
      ∙ ap (take (length xs)) here
      ∙ take-append xs ys

  pub byte_at-at :
      (x : ℕ) (ys : Bytes) → StandsAt bytes offset (x ∷ ys) → byte_at bytes offset ≡ ok x
  byte_at-at x ys (here, ends) = rw here refl

  item_to-at :
      (tag : ℕ) (contents after : Bytes) (size : ℕ)
      → StandsAt bytes offset (contents ++ after)
      → size ≡ length contents
      → item_to bytes tag offset size
        ≡ ok (record { tag = tag; start = offset; end = offset + length contents })
  item_to-at tag contents after size (here, ends) same =
      ground (arith, length-append contents after)

moved_to : (bytes rest : Bytes) (i j : ℕ) → i ≡ j → StandsAt bytes i rest → StandsAt bytes j rest
moved_to bytes rest i j e = subst (λ k. StandsAt bytes k rest) e

-- Where the contents start.
abbrev pub start_of : ℕ → Size → ℕ
start_of offset (short n) = offset + 2
start_of offset (long more) = offset + 2 + length more

abbrev pub found : ℕ → ℕ → Bytes → Item
found tag start contents = record { tag = tag; start = start; end = start + length contents }

module _ (bytes : Bytes) (offset tag : ℕ) (contents after : Bytes) where
  short_at :
      (n : ℕ)
      → Sizes (short n) contents
      → StandsAt bytes (offset + 2) (contents ++ after)
      → sized_item bytes offset tag n ≡ ok (found tag (offset + 2) contents)
  short_at n sized there =
      let small : leb 128 n ≡ false = ground (arith, sized.0) in
      rw small (item_to-at bytes (offset + 2) tag contents after n there sized.1)

  long_at :
      (more : Bytes)
      → Sizes (long more) contents
      → StandsAt bytes (offset + 2) (more ++ (contents ++ after))
      → sized_item bytes offset tag (128 + length more)
        ≡ ok (found tag (offset + 2 + length more) contents)
  long_at more sized there =
      let great : leb 128 (128 + length more) ≡ true = ground arith in
      let count : (128 + length more) % 128 ≡ length more = omega (arith, sized.1) in
      let fits : (eqb (length more) 0
            || (ltb 4 (length more) || ltb (length bytes) (offset + 2 + length more)))
          ≡ false =
        ground (arith, sized.0, sized.1, there.1, length-append more (contents ++ after)) in
      rw (great, count, fits)
        (item_to-at bytes (offset + 2 + length more) tag contents after _
          (past bytes (offset + 2) more (contents ++ after) there)
          (ap from_bytes (slice-at bytes (offset + 2) more (contents ++ after) there) ∙ sized.2))

  der_item-at :
      (size : Size)
      → Sizes size contents
      → StandsAt bytes offset (tag ∷ (size_bytes size ++ (contents ++ after)))
      → (der_item bytes offset ≡ ok (found tag (start_of offset size) contents))
        × StandsAt bytes (start_of offset size) (contents ++ after)
  unfolding der_item
  der_item-at (short n) sized there =
      let next = onward bytes offset tag _ there in
      let body =
        moved_to bytes (contents ++ after) (offset + 1 + 1) (offset + 2) (omega arith)
          (past bytes (offset + 1) (n ∷ []) _ next) in
      let room : ltb (length bytes) (offset + 2) ≡ false = ground (arith, there.1) in
      (
        rw (room, byte_at-at bytes offset tag _ there, byte_at-at bytes (offset + 1) n _ next)
            (short_at n sized body),
        body,
      )
  der_item-at (long more) sized there =
      let next = onward bytes offset tag _ there in
      let body =
        moved_to bytes (more ++ (contents ++ after)) (offset + 1 + 1) (offset + 2) (omega arith)
          (past bytes (offset + 1) ((128 + length more) ∷ []) _ next) in
      let room : ltb (length bytes) (offset + 2) ≡ false = ground (arith, there.1) in
      (
        rw
            (
              room,
              byte_at-at bytes offset tag _ there,
              byte_at-at bytes (offset + 1) (128 + length more) _ next,
            )
            (long_at more sized body),
        past bytes (offset + 2) more (contents ++ after) body,
      )

  pub item_at :
      (size : Size)
      → Sizes size contents
      → StandsAt bytes offset (item tag size contents ++ after)
      → (der_item bytes offset ≡ ok (found tag (start_of offset size) contents))
        × StandsAt bytes (start_of offset size) (contents ++ after)
  item_at size sized there = der_item-at size sized (
      subst (λ rest. StandsAt bytes offset (tag ∷ rest))
        (append_assoc (size_bytes size) contents after) there)
