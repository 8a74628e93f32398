-- ===== src/Ula/Hex.antt =====
-- `%x` of a number that is not negative, and that it can be read back.
use hosting.Common.{
  ℕ, zero, suc, ◌+◌, ◌-◌, ◌*◌, ◌/◌, ◌%◌, ◌≤◌, ◌<◌, ◌≡◌, ◌≢◌, refl, sym, ap, ◌∙◌, [], ◌∷◌, ◌++◌,
  Bytes, ltb, arith, if◌then◌else◌, Bool-cases, inl, inr,
}
use hosting.Common.Split.{Lacks}

-- The digit of a value below 16.
hex_digit : ℕ → ℕ
hex_digit k = if ltb k 10 then b'0' + k else b'a' + (k - 10)

-- The first argument is fuel: a round divides `n` by 16, so `n` rounds are enough.
hex_from : ℕ → ℕ → Bytes
hex_from zero n = hex_digit n ∷ []
hex_from (suc fuel) n =
    let more = hex_from fuel (n / 16) ++ (hex_digit (n % 16) ∷ []) in
    if ltb n 16 then hex_digit n ∷ [] else more

unfoldable pub hex : ℕ → Bytes
unfolding hex_from hex_digit
hex n = hex_from n n

digit_value : ℕ → ℕ
digit_value c = if ltb c b'a' then c - b'0' else c - b'a' + 10

value_from : ℕ → Bytes → ℕ
value_from acc [] = acc
value_from acc (c ∷ s) = value_from (acc * 16 + digit_value c) s

digit_value-hex_digit : (k : ℕ) → k < 16 → digit_value (hex_digit k) ≡ k
unfolding digit_value hex_digit
digit_value-hex_digit k h = ground arith

value_from-append :
    (acc : ℕ) (s : Bytes) (c : ℕ)
    → value_from acc (s ++ (c ∷ [])) ≡ value_from acc s * 16 + digit_value c
unfolding value_from
value_from-append acc [] c = refl
value_from-append acc (d ∷ s) c = value_from-append (acc * 16 + digit_value d) s c

value-hex_from : (fuel n : ℕ) → n ≤ fuel → value_from 0 (hex_from fuel n) ≡ n
unfolding hex_from
value-hex_from zero n h =
    (unfold value_from in omega (arith, digit_value-hex_digit n (omega arith)))
value-hex_from (suc fuel) n h = elim (Bool-cases (ltb n 16)) [
  | inl y ↦ rw y (unfold value_from in omega (arith, digit_value-hex_digit n (ground arith)))
  | inr big ↦
      let d : 16 ≤ n = ground arith in
      rw (big, value_from-append)
        (omega (
          arith,
          value-hex_from fuel (n / 16) (omega arith),
          digit_value-hex_digit (n % 16) (omega arith),
        ))
]

-- Two numbers with one text are one number.
pub hex_injective : (m n : ℕ) → hex m ≡ hex n → m ≡ n
unfolding hex
hex_injective m n e =
    sym (value-hex_from m m (omega arith))
    ∙ (ap (value_from 0) e ∙ value-hex_from n n (omega arith))

hex_digit_ne_colon : (k : ℕ) → k < 16 → hex_digit k ≢ b':'
unfolding hex_digit
hex_digit_ne_colon k h e = ground arith

Lacks-append : (b : ℕ) (s : Bytes) (c : ℕ) → Lacks b s → c ≢ b → Lacks b (s ++ (c ∷ []))
Lacks-append b [] c h n = (n, tt)
Lacks-append b (d ∷ s) c h n = (h.0, Lacks-append b s c h.1 n)

hex_from-Lacks : (fuel n : ℕ) → n ≤ fuel → Lacks b':' (hex_from fuel n)
unfolding hex_from
hex_from-Lacks zero n h = (hex_digit_ne_colon n (omega arith), tt)
hex_from-Lacks (suc fuel) n h = elim (Bool-cases (ltb n 16)) [
  | inl y ↦ rw y (hex_digit_ne_colon n (ground arith), tt)
  | inr big ↦
      let d : 16 ≤ n = ground arith in
      rw big (
        Lacks-append b':' (hex_from fuel (n / 16)) (hex_digit (n % 16))
          (hex_from-Lacks fuel (n / 16) (omega arith)) (hex_digit_ne_colon (n % 16) (omega arith)))
]

pub hex-Lacks : (n : ℕ) → Lacks b':' (hex n)
unfolding hex
hex-Lacks n = hex_from-Lacks n n (omega arith)
