-- ===== src/Prelude/Text.antt =====
-- Whole texts, and joins of two with a separator character.
use Prim.Native.Nat.{ℕ}
use Prim.Native.Char.{Char, code}
use Prim.Native.String
use Prim.Native.String.{String, [], ◌∷◌}
use mathlib.Core.Path.{◌≡◌, refl, ap, sym, ◌∙◌}
use mathlib.Core.Logic.{◌≢◌}
use mathlib.Core.Bool.{true, false}
use native.Mathlib.Omega.{arith}
use text.Mathlib.Text.{◌==◌}
use text.Mathlib.TextEquality.{eq_iff}
use text.Mathlib.TextLemmas.{nil-append, cons-append, head-eq_of_cons-eq, tail-eq_of_cons-eq}

infixl 65 ◌<>◌
abbrev pub ◌<>◌ : String → String → String
s <> t = String.◌++◌ s t

-- No character of the text has this code point.
abbrev pub Lacks : ℕ → String → Type 0
Lacks n [] = Unit
Lacks n (c ∷ s) = (code c ≢ n) × Lacks n s

-- Two joins are equal only if the parts are, where the first parts lack the separator.
pub append_separator_injective :
    (sep : Char) (s t u v : String)
    → Lacks (code sep) s
    → Lacks (code sep) t
    → s <> (sep ∷ u) ≡ t <> (sep ∷ v)
    → (s ≡ t) × (u ≡ v)
append_separator_injective sep [] [] u v ls lt e =
    (refl, tail-eq_of_cons-eq (sym (nil-append _) ∙ e ∙ nil-append _))
append_separator_injective sep [] (d ∷ t) u v ls lt e =
    absurd (
      lt.0
        (ap code (sym (head-eq_of_cons-eq (sym (nil-append _) ∙ e ∙ cons-append d t (sep ∷ v))))))
append_separator_injective sep (c ∷ s) [] u v ls lt e =
    absurd
      (ls.0 (ap code (head-eq_of_cons-eq (sym (cons-append c s (sep ∷ u)) ∙ e ∙ nil-append _))))
append_separator_injective sep (c ∷ s) (d ∷ t) u v ls lt e =
    let e' = sym (cons-append c s (sep ∷ u)) ∙ e ∙ cons-append d t (sep ∷ v) in
    let (es, eu) = append_separator_injective sep s t u v ls.1 lt.1 (tail-eq_of_cons-eq e') in
    (cc (head-eq_of_cons-eq e'), eu)

pub text_self : (s : String) → (s == s) ≡ true
text_self s = (eq_iff s s).1 refl

pub ne-eqb : (s t : String) → s ≢ t → (s == t) ≡ false
ne-eqb s t h = ground (arith, eq_iff s t)
