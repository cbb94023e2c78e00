-- ===== src/Prelude/Decimal.antt =====
-- `fmt.Sprintf("%d", n)` for n ≥ 0.
use Prim.Native.Nat.{ℕ, zero, suc, ◌+◌, ◌-◌, ◌*◌, ◌/◌, ◌%◌, ◌<◌}
use Prim.Native.Char.{Char, code, char}
use Prim.Native.String.{String}
use mathlib.Core.Path.{◌≡◌, refl, ap, sym, ◌∙◌}
use native.Mathlib.Omega.{arith}
use package.k8sagent_orchestrator.Prelude.Tests.{ltb, if◌then◌else◌, Bool-cases}
use mathlib.Core.Logic.{inl, inr}

pub digit : ℕ → Char
digit zero = char b'0' tt
digit (suc zero) = char b'1' tt
digit (suc (suc zero)) = char b'2' tt
digit (suc (suc (suc zero))) = char b'3' tt
digit (suc (suc (suc (suc zero)))) = char b'4' tt
digit (suc (suc (suc (suc (suc zero))))) = char b'5' tt
digit (suc (suc (suc (suc (suc (suc zero)))))) = char b'6' tt
digit (suc (suc (suc (suc (suc (suc (suc zero))))))) = char b'7' tt
digit (suc (suc (suc (suc (suc (suc (suc (suc zero)))))))) = char b'8' tt
digit (suc (suc (suc (suc (suc (suc (suc (suc (suc n))))))))) = char b'9' tt

-- The digits of `n` before `rest`; `fuel` above `n` is enough.
unfoldable pub digits_before : ℕ → ℕ → String → String
unfolding digit
digits_before zero n rest = rest
digits_before (suc fuel) n rest =
    let more = digits_before fuel (n / 10) (String.◌∷◌ (digit (n % 10)) rest) in
    if ltb n 10 then String.◌∷◌ (digit n) rest else more

unfoldable pub decimal : ℕ → String
unfolding digits_before
decimal n = digits_before (suc n) n ""

value_from : ℕ → String → ℕ
value_from acc String.[] = acc
value_from acc (String.◌∷◌ c s) = value_from (acc * 10 + (code c - 48)) s

pub code-digit : (n : ℕ) → n < 10 → code (digit n) ≡ 48 + n
unfolding digit
code-digit zero h = refl
code-digit (suc zero) h = refl
code-digit (suc (suc zero)) h = refl
code-digit (suc (suc (suc zero))) h = refl
code-digit (suc (suc (suc (suc zero)))) h = refl
code-digit (suc (suc (suc (suc (suc zero))))) h = refl
code-digit (suc (suc (suc (suc (suc (suc zero)))))) h = refl
code-digit (suc (suc (suc (suc (suc (suc (suc zero))))))) h = refl
code-digit (suc (suc (suc (suc (suc (suc (suc (suc zero)))))))) h = refl
code-digit (suc (suc (suc (suc (suc (suc (suc (suc (suc n))))))))) h = omega arith

value_from-digits_before :
    (fuel n : ℕ) (rest : String)
    → n < fuel
    → value_from 0 (digits_before fuel n rest) ≡ value_from n rest
unfolding value_from digits_before
value_from-digits_before zero n rest h = elim h [ ]
value_from-digits_before (suc fuel) n rest h = elim (Bool-cases (ltb n 10)) [
  | inl small ↦
      let e : 0 * 10 + (code (digit n) - 48) ≡ n = omega (arith, code-digit n (ground arith)) in
      rw small (ap (λ a. value_from a rest) e)
  | inr big ↦
      let e : n / 10 * 10 + (code (digit (n % 10)) - 48) ≡ n =
        omega (arith, code-digit (n % 10) (omega arith)) in
      rw big (
        value_from-digits_before fuel (n / 10) (String.◌∷◌ (digit (n % 10)) rest) (ground arith)
        ∙ ap (λ a. value_from a rest) e)
]

pub decimal_injective : (n m : ℕ) → decimal n ≡ decimal m → n ≡ m
unfolding decimal value_from
decimal_injective n m e =
    sym (value_from-digits_before (suc n) n "" (omega arith))
    ∙ ap (value_from 0) e
    ∙ value_from-digits_before (suc m) m "" (omega arith)

decimal_example : decimal 65535 ≡ "65535"
unfolding decimal
decimal_example = refl
