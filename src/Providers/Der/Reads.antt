-- ===== src/Providers/Der/Reads.antt =====
-- The parser reads no byte that is not there.
use esp32_rig.Base.{
  ℕ, zero, suc, ◌+◌, ◌%◌, ◌≤◌, ◌<◌, ◌≡◌, refl, subst, ok-inj, Bool, true, false, not, ◌||◌, [], ◌∷◌,
  arith, length, eqb, leb, ltb, Result, ok, err, ◌>>=◌, refuse, inl, inr, Bool-cases, >>=-eq-ok,
}
use esp32_rig.Providers.Der.{
  Bytes, DerError, index_error, Item, byte_at, slice, item_to, long_item, sized_item, der_item,
  spki_rsa_bits, check_oid, key_bits, modulus_bits, from_bytes, malformed_length, truncated,
  no_spki, no_rsa_key, no_public_key, no_rsa_public_key, no_modulus,
}

abbrev pub is_index_error : {A : Type 0} → Result DerError A → Bool
is_index_error (err index_error) = true
is_index_error _ = false

-- What a chain of reads does not raise.
data Reads {A : Type 0} (r : Result DerError A) : Type 0 where
  reads : is_index_error r ≡ false → Reads r

reads_self : {A : Type 0} (r : Result DerError A) → Reads r → is_index_error r ≡ false
reads_self r (reads h) = h

-- An error that is not that of a subscript is none of another type either.
err-reads : (A B : Type 0) (e : DerError) → Reads {A = A} (err e) → Reads {A = B} (err e)
err-reads A B index_error (reads h) = absurd (cc)
err-reads A B truncated h = reads refl
err-reads A B malformed_length h = reads refl
err-reads A B no_spki h = reads refl
err-reads A B no_rsa_key h = reads refl
err-reads A B no_public_key h = reads refl
err-reads A B no_rsa_public_key h = reads refl
err-reads A B no_modulus h = reads refl

chain-reads :
    {A B : Type 0} (r : Result DerError A) (next : A → Result DerError B)
    → Reads r
    → ((a : A) → r ≡ ok a → Reads (next a))
    → Reads (do a ← r; next a)
chain-reads (ok a) next h f = f a refl
chain-reads {A} {B} (err e) next h f = err-reads A B e h

refuse-reads : (test : Bool) (e : DerError) → Reads {A = Unit {0}} (err e) → Reads (refuse test e)
refuse-reads true e h = h
refuse-reads false e h = reads refl

-- A check that passed.
passed : (test : Bool) (e : DerError) (u : Unit {0}) → refuse test e ≡ ok u → test ≡ false
passed true e u h = absurd (cc)
passed false e u h = refl

byte_at-reads : (bytes : Bytes) (i : ℕ) → i < length bytes → Reads (byte_at bytes i)
byte_at-reads [] i h = absurd (omega arith)
byte_at-reads (b ∷ bs) zero h = reads refl
byte_at-reads (b ∷ bs) (suc i) h = byte_at-reads bs i (omega arith)

-- An item that was read lies within the bytes.
abbrev pub IsWithin : Bytes → ℕ → Item → Type 0
IsWithin bytes offset item =
    (offset + 2 ≤ item.start) × (item.start ≤ item.end) × (item.end ≤ length bytes)

item_to-IsWithin :
    (bytes : Bytes) (tag start size offset : ℕ) (item : Item)
    → offset + 2 ≤ start
    → item_to bytes tag start size ≡ ok item
    → IsWithin bytes offset item
item_to-IsWithin bytes tag start size offset item h e =
    elim (Bool-cases (ltb (length bytes) (start + size))) [
      | inl c ↦ absurd (ground arith)
      | inr c ↦
          subst (IsWithin bytes offset)
            {x = record { tag = tag; start = start; end = start + size }} {y = item}
            (ok-inj {E = DerError} (ground arith)) (h, omega arith, ground arith)
    ]

item_to-reads : (bytes : Bytes) (tag start size : ℕ) → Reads (item_to bytes tag start size)
item_to-reads bytes tag start size = reads (ground arith)

long_item-reads : (bytes : Bytes) (tag start count : ℕ) → Reads (long_item bytes tag start count)
long_item-reads bytes tag start count =
    let size = from_bytes (slice bytes start (start + count)) in
    chain-reads
      (refuse (eqb count 0 || (ltb 4 count || ltb (length bytes) (start + count))) malformed_length)
      _ (refuse-reads _ malformed_length (reads refl))
      (λ u h. item_to-reads bytes tag (start + count) size)

sized_item-reads : (bytes : Bytes) (offset tag size : ℕ) → Reads (sized_item bytes offset tag size)
sized_item-reads bytes offset tag size = elim (Bool-cases (leb 128 size)) [
  | inl long ↦ rw long (long_item-reads bytes tag (offset + 2) (size % 128))
  | inr short ↦ rw short (item_to-reads bytes tag (offset + 2) size)
]

der_item-reads : (bytes : Bytes) (offset : ℕ) → Reads (der_item bytes offset)
unfolding der_item
der_item-reads bytes offset =
    let small = ltb (length bytes) (offset + 2) in
    chain-reads (refuse small truncated) _ (refuse-reads _ truncated (reads refl)) (λ u h.
      let room = passed small truncated u h in
      chain-reads (byte_at bytes offset) _ (byte_at-reads bytes offset (ground arith)) (λ tag e.
        chain-reads (byte_at bytes (offset + 1)) _ (byte_at-reads bytes (offset + 1) (ground arith))
          (λ size e'. sized_item-reads bytes offset tag size)))

long_item-IsWithin :
    (bytes : Bytes) (tag start count offset : ℕ) (item : Item)
    → offset + 2 ≤ start
    → long_item bytes tag start count ≡ ok item
    → IsWithin bytes offset item
long_item-IsWithin bytes tag start count offset item h e =
    let (u, checked, e1) =
      >>=-eq-ok
        (refuse (eqb count 0 || (ltb 4 count || ltb (length bytes) (start + count)))
          malformed_length)
        _ e in
    item_to-IsWithin bytes tag (start + count) _ offset item (omega arith) e1

sized_item-IsWithin :
    (bytes : Bytes) (offset tag size : ℕ) (item : Item)
    → sized_item bytes offset tag size ≡ ok item
    → IsWithin bytes offset item
sized_item-IsWithin bytes offset tag size item e = elim (Bool-cases (leb 128 size)) [
  | inl long ↦
      long_item-IsWithin bytes tag (offset + 2) (size % 128) offset item (omega arith)
        (ground arith)
  | inr short ↦
      item_to-IsWithin bytes tag (offset + 2) size offset item (omega arith) (ground arith)
]

pub der_item-IsWithin :
    (bytes : Bytes) (offset : ℕ) (item : Item)
    → der_item bytes offset ≡ ok item
    → IsWithin bytes offset item
unfolding der_item
der_item-IsWithin bytes offset item e =
    let (u, h, e1) = >>=-eq-ok (refuse (ltb (length bytes) (offset + 2)) truncated) _ e in
    let (tag, h2, e2) = >>=-eq-ok (byte_at bytes offset) _ e1 in
    let (size, h3, e3) = >>=-eq-ok (byte_at bytes (offset + 1)) _ e2 in
    sized_item-IsWithin bytes offset tag size item e3

check_oid-reads : (der : Bytes) (start : ℕ) → Reads (check_oid der start)
unfolding check_oid
check_oid-reads der start =
    chain-reads (der_item der start) _ (der_item-reads der start)
      (λ oid h. refuse-reads _ no_rsa_key (reads refl))

modulus_bits-reads : (der : Bytes) (start : ℕ) → Reads (modulus_bits der start)
unfolding modulus_bits
modulus_bits-reads der start =
    chain-reads (der_item der start) _ (der_item-reads der start) (λ key h.
      chain-reads (refuse (not (eqb key.tag 0x30)) no_rsa_public_key) _
        (refuse-reads _ no_rsa_public_key (reads refl))
        (λ u c. chain-reads (der_item der key.start) _ (der_item-reads der key.start) (λ modulus h'.
          chain-reads (refuse (not (eqb modulus.tag 0x02)) no_modulus) _
            (refuse-reads _ no_modulus (reads refl)) (λ u' c'. reads refl))))

key_bits-reads : (der : Bytes) (start : ℕ) → Reads (key_bits der start)
unfolding key_bits
key_bits-reads der start = chain-reads (der_item der start) _ (der_item-reads der start) (λ bits h.
    let wrong = not (eqb bits.tag 0x03) || leb bits.end bits.start in
    chain-reads (refuse wrong no_public_key) _ (refuse-reads _ no_public_key (reads refl)) (λ u c.
      let right = passed wrong no_public_key u c in
      let within = der_item-IsWithin der start bits h in
      chain-reads (byte_at der bits.start) _ (byte_at-reads der bits.start (ground arith))
        (λ unused b.
          chain-reads (refuse (not (eqb unused 0)) no_public_key) _
            (refuse-reads _ no_public_key (reads refl))
            (λ u' c'. modulus_bits-reads der (bits.start + 1)))))

spki_reads : (der : Bytes) → Reads (spki_rsa_bits der)
unfolding spki_rsa_bits
spki_reads der = chain-reads (der_item der 0) _ (der_item-reads der 0) (λ spki h.
    chain-reads (refuse (not (eqb spki.tag 0x30) || not (eqb spki.end (length der))) no_spki) _
      (refuse-reads _ no_spki (reads refl))
      (λ u c.
        chain-reads (der_item der spki.start) _ (der_item-reads der spki.start) (λ algorithm h'.
          chain-reads (refuse (not (eqb algorithm.tag 0x30)) no_spki) _
            (refuse-reads _ no_spki (reads refl))
            (λ u' c'.
              chain-reads (check_oid der algorithm.start) _ (check_oid-reads der algorithm.start)
                (λ u'' c''. key_bits-reads der algorithm.end)))))

-- Whatever the bytes are, the parser subscripts none that is not there: it gives a size or one of
-- its own refusals.
pub spki_rsa_bits-reads : (der : Bytes) → is_index_error (spki_rsa_bits der) ≡ false
spki_rsa_bits-reads der = reads_self (spki_rsa_bits der) (spki_reads der)
