-- ===== src/Rest/Logs/Following.antt =====
-- What a client that follows a log gets.
use k8sagent_orchestrator.Prelude.{
  ℕ, suc, ◌+◌, ◌≤◌, ◌<◌, ◌≡◌, refl, sym, ap, ◌∙◌, ◌≢◌, List, [], ◌∷◌, ◌++◌, arith, ltb, length, All,
  Bool-cases, inl, inr,
}
use mathlib.Core.List.{append-nil, append_assoc}
use k8sagent_orchestrator.Rest.Logs.{
  max_token, newline, carriage_return, drop_cr, scan, unlines, followed,
}

-- A byte of a line.
abbrev pub IsPlain : ℕ → Type 0
IsPlain b = (b ≢ newline) × (b ≢ carriage_return)

-- A line without line breaks that fits the buffer with its newline.
abbrev pub Fits : List ℕ → Type 0
Fits line = All IsPlain line × (length line < max_token)

-- A last line, with a newline.
abbrev pub finished : List ℕ → List ℕ
finished [] = []
finished (b ∷ line) = (b ∷ line) ++ newline ∷ []

drop_cr-plain : (line : List ℕ) → All IsPlain line → drop_cr line ≡ line
unfolding drop_cr
drop_cr-plain [] h = refl
drop_cr-plain (b ∷ []) h = ground arith
drop_cr-plain (b ∷ (c ∷ bs)) h = ap (λ l. b ∷ l) (drop_cr-plain (c ∷ bs) h.1)

scan-step :
    (held : List ℕ) (count b : ℕ) (rest : List ℕ)
    → b ≢ newline
    → count + 1 < max_token
    → scan held count (b ∷ rest) ≡ scan (held ++ b ∷ []) (count + 1) rest
unfolding scan
scan-step held count b rest h p = ground arith

scan-newline :
    (held : List ℕ) (count : ℕ) (rest : List ℕ)
    → scan held count (newline ∷ rest) ≡ drop_cr held ∷ scan [] 0 rest
unfolding scan
scan-newline held count rest = refl

scan-full :
    (held : List ℕ) (count b : ℕ) (rest : List ℕ)
    → b ≢ newline
    → max_token ≤ count + 1
    → scan held count (b ∷ rest) ≡ []
unfolding scan
scan-full held count b rest h p = ground arith

-- Bytes without a newline are read to the end of the line, while the buffer has room.
scan-plain :
    (held : List ℕ) (count : ℕ) (line rest : List ℕ)
    → All IsPlain line
    → count + length line < max_token
    → scan held count (line ++ rest) ≡ scan (held ++ line) (count + length line) rest
scan-plain held count [] rest h p =
    let e : count ≡ count + 0 = omega arith in
    ap (λ l. scan l count rest) (sym (append-nil held)) ∙ ap (λ n. scan (held ++ []) n rest) e
scan-plain held count (b ∷ line) rest h p =
    let e : count + 1 + length line ≡ count + suc (length line) = omega arith in
    scan-step held count b (line ++ rest) h.0.0 (omega arith)
    ∙ scan-plain (held ++ b ∷ []) (count + 1) line rest h.1 (omega arith)
    ∙ ap (λ l. scan l (count + 1 + length line) rest) (append_assoc held (b ∷ []) line)
    ∙ ap (λ n. scan (held ++ b ∷ line) n rest) e

-- A line that fills the buffer ends the scan.
scan-long :
    (held : List ℕ) (count : ℕ) (line rest : List ℕ)
    → All IsPlain line
    → count < max_token
    → max_token ≤ count + length line
    → scan held count (line ++ rest) ≡ []
scan-long held count [] rest h p q = absurd (omega arith)
scan-long held count (b ∷ line) rest h p q = elim (Bool-cases (ltb (count + 1) max_token)) [
  | inl room ↦
      scan-step held count b (line ++ rest) h.0.0 (ground arith)
      ∙ scan-long (held ++ b ∷ []) (count + 1) line rest h.1 (ground arith) (omega arith)
  | inr full ↦ scan-full held count b (line ++ rest) h.0.0 (ground arith)
]

scan-last : (line : List ℕ) (n : ℕ) → All IsPlain line → unlines (scan line n []) ≡ finished line
unfolding scan
scan-last [] n h = refl
scan-last (b ∷ line) n h = ap (λ l. l ++ newline ∷ []) (drop_cr-plain (b ∷ line) h)

followed-line :
    (line rest : List ℕ)
    → Fits line
    → followed (line ++ newline ∷ rest) ≡ line ++ newline ∷ followed rest
unfolding followed
followed-line line rest (h, p) =
    ap unlines (
      scan-plain [] 0 line (newline ∷ rest) h (omega arith)
      ∙ scan-newline line (0 + length line) rest)
    ∙ ap (λ l. l ++ newline ∷ unlines (scan [] 0 rest)) (drop_cr-plain line h)

followed-lines :
    (lines : List (List ℕ)) (rest : List ℕ)
    → All Fits lines
    → followed (unlines lines ++ rest) ≡ unlines lines ++ followed rest
followed-lines [] rest h = refl
followed-lines (line ∷ lines) rest h =
    ap followed (append_assoc line (newline ∷ unlines lines) rest)
    ∙ followed-line line (unlines lines ++ rest) h.0
    ∙ ap (λ l. line ++ newline ∷ l) (followed-lines lines rest h.1)
    ∙ sym (append_assoc line (newline ∷ unlines lines) (followed rest))

-- After lines that fit the buffer and hold no carriage return, and a last line without a newline: a
-- client gets all of it, with a newline at its end, if the last line is shorter than the buffer; if it is
-- not, the client gets the lines before it and nothing of what comes from there on.
pub followed-cut :
    (lines : List (List ℕ)) (last : List ℕ)
    → All Fits lines
    → All IsPlain last
    → (length last < max_token → followed (unlines lines ++ last) ≡ unlines lines ++ finished last)
      × (max_token ≤ length last
          → (more : List ℕ) → followed (unlines lines ++ (last ++ more)) ≡ unlines lines)
unfolding followed
followed-cut lines last h k = (
  λ p.
      followed-lines lines last h
      ∙ ap (λ l. unlines lines ++ l)
          (ap followed (sym (append-nil last))
            ∙ ap unlines (scan-plain [] 0 last [] k (omega arith))
            ∙ scan-last last _ k),
  λ p more.
      followed-lines lines (last ++ more) h
      ∙ ap (λ l. unlines lines ++ unlines l)
          (scan-long [] 0 last more k (omega arith) (omega arith))
      ∙ append-nil (unlines lines),
)
