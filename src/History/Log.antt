-- ===== src/History/Log.antt =====
-- The specification of the history stores: the newest `max` of an agent's events since its
-- history was last cleared, oldest first.
use k8sagent_orchestrator.Prelude.{
  ℕ, ◌+◌, ◌-◌, ◌≤◌, String, ◌≡◌, refl, sym, ap, ◌∙◌, Bool, true, false, ◌&&◌, List, [], ◌∷◌, ◌++◌,
  arith, ◌==◌, if◌then◌else◌, length, drop, length-append, length-drop, drop-drop,
  drop-append_of_le,
}
use k8sagent_orchestrator.Cache.{Time}
use k8sagent_orchestrator.Api.{LifecycleEvent}
use k8sagent_orchestrator.History.Keys.{IsNamespace}

-- One call on a history store, with the clock reading that it made.
pub data Op : Type 0 where
  append : (namespace name event_type reason message : String) → Time → Op
  clear : (namespace name : String) → Op

abbrev pub event_of : String → String → String → Time → LifecycleEvent
event_of event_type reason message now = record {
  time = now;
  reason = reason;
  event_type = event_type;
  message = message;
}

-- All events of an agent since its last `clear`, oldest first; the newest call stands first in the log.
unfoldable pub recorded : List Op → String → String → List LifecycleEvent
recorded [] ns name = []
recorded (append a b event_type reason message now ∷ log) ns name =
    if a == ns && b == name
    then recorded log ns name ++ event_of event_type reason message now ∷ []
    else recorded log ns name
recorded (clear a b ∷ log) ns name = if a == ns && b == name then [] else recorded log ns name

-- The last `n` items.
abbrev pub last_n {ℓ} : {A : Type ℓ} → ℕ → List A → List A
last_n n xs = drop (length xs - n) xs

module _ {ℓ} {A : Type ℓ} where
  pub length-last_n : (n : ℕ) (xs : List A) → length (last_n n xs) ≤ n
  length-last_n n xs = omega (arith, length-drop (length xs - n) xs)

  -- Appending to what was kept and trimming again is trimming the whole.
  pub last_n-append : (n : ℕ) (xs ys : List A) → last_n n (last_n n xs ++ ys) ≡ last_n n (xs ++ ys)
  last_n-append n xs ys =
      let k = length xs - n in
      let all = xs ++ ys in
      let short = drop-append_of_le k xs ys (omega arith) in
      let size : k + (length (drop k all) - n) ≡ length all - n =
        omega (arith, length-drop k all, length-append xs ys) in
      ap (last_n n) (sym short)
      ∙ drop-drop (length (drop k all) - n) k all
      ∙ ap (λ i. drop i all) size

-- The call names a Kubernetes namespace.
abbrev pub IsNamed : Op → Type 0
IsNamed (append ns name event_type reason message now) = IsNamespace ns
IsNamed (clear ns name) = IsNamespace ns

module _ {ℓ} {A : Type ℓ} where
  pub last_n-nil : (max : ℕ) → last_n {A = A} max [] ≡ []
  last_n-nil max = let none_over : 0 - max ≡ 0 = omega arith in rw none_over refl

  pub trimmed :
      (here : Bool) (max : ℕ) (events new : List A)
      → (if here then last_n max (last_n max events ++ new) else last_n max events)
        ≡ last_n max (if here then events ++ new else events)
  trimmed true max events new = last_n-append max events new
  trimmed false max events new = refl
