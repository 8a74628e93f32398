-- ===== src/Stalwart/PrincipalId.antt =====
-- `EncodePrincipalID` (internal/stalwart/id.go): the number of a principal as an account id.
use hosting.Common.{
  ℕ, zero, suc, ◌+◌, ◌*◌, ◌/◌, ◌%◌, ◌^◌, ◌≤◌, ◌<◌, ◌≡◌, refl, ◌∙◌, inl, inr, Bool, true, ◌&&◌,
  Bytes, codes, Option, none, some, [], ◌∷◌, length, ◌==◌, ==_iff, Bool-cases, arith, if◌then◌else◌,
}

abbrev pub stalwart_alphabet : Bytes
stalwart_alphabet = codes "abcdefghijklmnopqrstuvwxyz792013"

unfoldable pub get_or : Bytes → ℕ → ℕ → ℕ
get_or [] i d = d
get_or (c ∷ s) zero d = c
get_or (c ∷ s) (suc i) d = get_or s i d

-- `for id > 0 { i--; buf[i] = ...; id /= 32 }` with room bytes left in front of those written;
-- `none` is the panic of an index out of range.
unfoldable pub encode_digits : ℕ → ℕ → Bytes → Option Bytes
unfolding get_or
encode_digits zero id written = if id == 0 then some written else none
encode_digits (suc room) id written =
    let rest = encode_digits room (id / 32) (get_or stalwart_alphabet (id % 32) 0 ∷ written) in
    if id == 0 then some written else rest

-- The buffer has 7 bytes.
unfoldable pub encode_principal_id : ℕ → Option Bytes
encode_principal_id id = if id == 0 then some (codes "a") else encode_digits 7 id []

-- Reading an id: the place of a letter in an alphabet, and the number with these digits.
unfoldable pub place : Bytes → ℕ → ℕ
place [] c = 0
place (d ∷ s) c = let rest = place s c in if d == c then 0 else suc rest

unfoldable pub number : ℕ → Bytes → ℕ
unfolding place
number n [] = n
number n (c ∷ s) = number (n * 32 + place stalwart_alphabet c) s

all_below : ℕ → (ℕ → Bool) → Bool
all_below zero p = true
all_below (suc n) p = p n && all_below n p

all_below-true : (n : ℕ) (p : ℕ → Bool) (x : ℕ) → all_below n p ≡ true → x < n → p x ≡ true
unfolding all_below
all_below-true zero p x h lt = absurd (omega arith)
all_below-true (suc n) p x h lt = ground (arith, all_below-true n p x)

places : all_below 32 (λ d. place stalwart_alphabet (get_or stalwart_alphabet d 0) == d) ≡ true
unfolding all_below place get_or
places = refl

place-get_or : (d : ℕ) → d < 32 → place stalwart_alphabet (get_or stalwart_alphabet d 0) ≡ d
place-get_or d h = (==_iff _ d).0 (all_below-true 32 _ d places h)

-- The numbers that so many digits hold.
abbrev capacity : ℕ → ℕ
capacity zero = 1
capacity (suc room) = 32 * capacity room

number-step :
    (id : ℕ) (written : Bytes)
    → number (id / 32) (get_or stalwart_alphabet (id % 32) 0 ∷ written) ≡ number id written
unfolding number
number-step id written =
    let d = place-get_or (id % 32) (omega arith) in
    let e : id / 32 * 32 + id % 32 ≡ id = omega arith in rw (d, e) refl

encode_digits-number :
    (room id : ℕ) (written : Bytes)
    → id < capacity room
    → (text : Bytes) × (encode_digits room id written ≡ some text)
      × (number 0 text ≡ number id written)
      × (length text ≤ room + length written)
unfolding encode_digits
encode_digits-number zero id written h =
    let e : id ≡ 0 = omega arith in (written, rw e refl, rw e refl, omega arith)
encode_digits-number (suc room) id written h = elim (Bool-cases (id == 0)) [
  | inl y ↦ (written, rw y refl, rw ((==_iff id 0).0 y) refl, omega arith)
  | inr n ↦
      let digit = get_or stalwart_alphabet (id % 32) 0 in
      let (text, e, v, l) = encode_digits-number room (id / 32) (digit ∷ written) (omega arith) in
      (text, rw n e, v ∙ number-step id written, omega arith)
]

number-nil : (id : ℕ) → number id [] ≡ id
unfolding number
number-nil id = refl

zero_letter : (id : ℕ) → id ≡ 0 → number 0 (codes "a") ≡ id
unfolding number place
zero_letter id e = rw e refl

-- Every 32-bit number has an id: its encoding stays within the buffer, has at most 7 letters, and
-- read as a number in base 32 gives the number back.
pub encode_principal_id-number :
    (id : ℕ)
    → id < 2 ^ 32
    → (text : Bytes) × (encode_principal_id id ≡ some text)
      × (number 0 text ≡ id)
      × (length text ≤ 7)
unfolding encode_principal_id
encode_principal_id-number id h = elim (Bool-cases (id == 0)) [
  | inl y ↦ (codes "a", rw y refl, zero_letter id ((==_iff id 0).0 y), omega arith)
  | inr n ↦
      let (text, e, v, l) = encode_digits-number 7 id [] (omega arith) in
      (text, rw n e, v ∙ number-nil id, omega arith)
]
