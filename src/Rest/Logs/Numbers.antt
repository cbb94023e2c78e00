-- ===== src/Rest/Logs/Numbers.antt =====
-- The numbers in the query of a log.
use Prim.Native.Char.{code}
use k8sagent_orchestrator.Prelude.{
  ℕ, zero, suc, ◌+◌, ◌-◌, ◌*◌, ◌/◌, ◌%◌, ◌<◌, String, ◌≡◌, refl, sym, ap, ◌∙◌, false, Option, some,
  none, arith, ltb, Bool-cases, inl, inr, decimal, digits_before, digit, code-digit, ◌==◌, ne-eqb,
}
use k8sagent_orchestrator.Prelude.Int.{ℤ, pos, two63}
use k8sagent_orchestrator.Rest.Wake.{digits_value, some_digits, signed, atoi}
use k8sagent_orchestrator.Rest.Logs.{parse_int, in_range, log_options, LogQuery}

digits_value-digit :
    (acc d : ℕ) (s : String)
    → d < 10
    → digits_value acc (String.◌∷◌ (digit d) s) ≡ digits_value (acc * 10 + d) s
unfolding digits_value
digits_value-digit acc d s h =
    let e = code-digit d h in
    let v : acc * 10 + (code (digit d) - 48) ≡ acc * 10 + d = omega arith in
    ground (arith, ap (λ a. digits_value a s) v)

digits_value-digits_before :
    (fuel n : ℕ) (rest : String)
    → n < fuel
    → digits_value 0 (digits_before fuel n rest) ≡ digits_value n rest
unfolding digits_before
digits_value-digits_before zero n rest h = absurd (omega arith)
digits_value-digits_before (suc fuel) n rest h = elim (Bool-cases (ltb n 10)) [
  | inl small ↦
      let e : 0 * 10 + n ≡ n = omega arith in
      rw small (digits_value-digit 0 n rest (ground arith) ∙ ap (λ a. digits_value a rest) e)
  | inr big ↦
      let e : n / 10 * 10 + n % 10 ≡ n = omega arith in
      rw big (
        digits_value-digits_before fuel (n / 10) (String.◌∷◌ (digit (n % 10)) rest) (ground arith)
        ∙ digits_value-digit (n / 10) (n % 10) rest (omega arith)
        ∙ ap (λ a. digits_value a rest) e)
]

-- The first character is a digit.
digits_before-head :
    (fuel n : ℕ) (rest : String)
    → n < fuel
    → (d : ℕ) × (s : String) × (d < 10) × (digits_before fuel n rest ≡ String.◌∷◌ (digit d) s)
unfolding digits_before
digits_before-head zero n rest h = absurd (omega arith)
digits_before-head (suc fuel) n rest h = elim (Bool-cases (ltb n 10)) [
  | inl small ↦ (n, rest, ground arith, rw small refl)
  | inr big ↦
      let (d, s, p, e) =
        digits_before-head fuel (n / 10) (String.◌∷◌ (digit (n % 10)) rest) (ground arith) in
      (d, s, p, rw big e)
]

atoi-digit :
    (d : ℕ) (s : String)
    → d < 10
    → atoi (String.◌∷◌ (digit d) s) ≡ signed false (digits_value 0 (String.◌∷◌ (digit d) s))
unfolding atoi some_digits
atoi-digit d s h = ground (arith, code-digit d h)

in_range-pos : (n : ℕ) → n < two63 → in_range (pos n) ≡ some (pos n)
unfolding in_range
in_range-pos n h = ground arith

atoi-decimal : (n : ℕ) → atoi (decimal n) ≡ some (pos n)
unfolding decimal digits_value signed
atoi-decimal n =
    let (d, s, p, e) = digits_before-head (suc n) n "" (omega arith) in
    let value : digits_value 0 (String.◌∷◌ (digit d) s) ≡ some n =
      ap (digits_value 0) (sym e) ∙ digits_value-digits_before (suc n) n "" (omega arith) in
    ap atoi e ∙ atoi-digit d s p ∙ ap (signed false) value

parse_int-decimal : (n : ℕ) → n < two63 → parse_int (decimal n) ≡ some (pos n)
unfolding parse_int
parse_int-decimal n h =
    ap (λ (x : Option ℤ). elim x as (λ _. Option ℤ) [ none ↦ none | some m ↦ in_range m ])
      (atoi-decimal n)
    ∙ in_range-pos n h

decimal-ne-empty : (n : ℕ) → (decimal n == "") ≡ false
unfolding atoi
decimal-ne-empty n = ne-eqb (decimal n) "" (λ e.
    let none_is_some : ◌≡◌ {A = Option ℤ} none (some (pos n)) = sym (ap atoi e) ∙ atoi-decimal n in
    absurd (ground arith))

-- A number of lines or of seconds in decimal digits, up to the range of `int64`, is asked for as it is.
pub log_options-decimal :
    (q : LogQuery) (lines seconds : ℕ)
    → lines < two63
    → seconds < two63
    → q.tail_lines ≡ decimal lines
    → q.since_seconds ≡ decimal seconds
    → ((log_options q).tail_lines ≡ pos lines)
      × ((log_options q).since_seconds ≡ some (pos seconds))
unfolding log_options
log_options-decimal q lines seconds h k e f = (
  ground (arith, parse_int-decimal lines h, decimal-ne-empty lines),
  ground (arith, parse_int-decimal seconds k, decimal-ne-empty seconds),
)
