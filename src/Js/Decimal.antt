-- ===== src/Js/Decimal.antt =====
-- Decimal text: reading back what `to_string` writes.
use network_monitoring.Base.{
  ℕ, zero, suc, ◌+◌, ◌-◌, ◌*◌, ◌/◌, ◌%◌, ◌≤◌, ◌<◌, ◌≡◌, ap, ◌∙◌, [], ◌∷◌, arith, ltb, ltb→lt,
  Bool-cases, inl, inr, All, Str,
}
use network_monitoring.Js.Text.{digit, to_string_from, to_string}

-- The value of decimal digits after `acc`.
unfoldable pub of_digits : ℕ → Str → ℕ
of_digits acc [] = acc
of_digits acc (c ∷ s) = of_digits (acc * 10 + (c - b'0')) s

abbrev pub IsDigit : ℕ → Type 0
IsDigit c = (b'0' ≤ c) × (c ≤ b'9')

digit-decimal : (d : ℕ) → d < 10 → digit d ≡ 48 + d
unfolding digit
digit-decimal d h = ground arith

digit-value : (d : ℕ) → d < 10 → 0 * 10 + (digit d - 48) ≡ d
digit-value d h = omega (arith, digit-decimal d h)

last_digit : (n : ℕ) → n / 10 * 10 + (digit (n % 10) - 48) ≡ n
last_digit n = omega (arith, digit-decimal (n % 10) (omega arith))

digit-IsDigit : (d : ℕ) → d < 10 → IsDigit (digit d)
digit-IsDigit d h = omega (arith, digit-decimal d h)

of_digits-to_string_from :
    (fuel n : ℕ) (acc : Str)
    → n < fuel
    → of_digits 0 (to_string_from fuel 10 n acc) ≡ of_digits n acc
unfolding to_string_from of_digits
of_digits-to_string_from zero n acc h = elim h [ ]
of_digits-to_string_from (suc fuel) n acc h = elim (Bool-cases (ltb n 10)) [
  | inl small ↦
      rw (small, to_string_from) (ap (λ m. of_digits m acc) (digit-value n (ltb→lt _ _ small)))
  | inr large ↦
      rw (large, to_string_from)
        (of_digits-to_string_from fuel (n / 10) (digit (n % 10) ∷ acc) (ground arith)
          ∙ ap (λ m. of_digits m acc) (last_digit n))
]

-- A number is read back from its decimal text.
pub of_digits-to_string : (n : ℕ) → of_digits 0 (to_string 10 n) ≡ n
unfolding to_string of_digits
of_digits-to_string n = of_digits-to_string_from (suc n) n [] (omega arith)

to_string_from-digits :
    (fuel n : ℕ) (acc : Str)
    → n < fuel
    → All IsDigit acc
    → All IsDigit (to_string_from fuel 10 n acc)
unfolding to_string_from
to_string_from-digits zero n acc h k = elim h [ ]
to_string_from-digits (suc fuel) n acc h k = elim (Bool-cases (ltb n 10)) [
  | inl small ↦ rw (small, to_string_from) (digit-IsDigit n (ltb→lt _ _ small), k)
  | inr large ↦
      rw (large, to_string_from)
        (to_string_from-digits fuel (n / 10) _ (ground arith)
          (digit-IsDigit (n % 10) (omega arith), k))
]

pub to_string-digits : (n : ℕ) → All IsDigit (to_string 10 n)
unfolding to_string
to_string-digits n = to_string_from-digits (suc n) n [] (omega arith) tt
