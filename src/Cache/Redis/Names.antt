-- ===== src/Cache/Redis/Names.antt =====
-- The keys of internal/cache/redis_cache.go.
use Prim.Native.Char.{Char, char, code}
use text.Mathlib.TextLemmas.{
  nil-append, cons-append, append_assoc, append_cancel_left, head-eq_of_cons-eq,
}
use k8sagent_orchestrator.Prelude.{
  ℕ, String, ◌≡◌, sym, ap, ◌∙◌, ◌≢◌, false, ◌&&◌, arith, ◌==◌, eq_iff, ne-eqb, Lacks,
  append_separator_injective, ◌<>◌,
}
use k8sagent_orchestrator.Cache.Memory.Keys.{IsNamespace}
use k8sagent_orchestrator.Cache.Redis.{field_key, index_key}

-- Kubernetes names hold no colon.
abbrev pub IsName : String → Type 0
IsName s = Lacks b':' s

abbrev slash : Char
slash = char b'/' tt

abbrev colon : Char
colon = char b':' tt

abbrev dash : Char
dash = char b'-' tt

single-append : (c : Char) (s : String) → String.◌∷◌ c "" <> s ≡ String.◌∷◌ c s
single-append c s = cons-append c "" s ∙ ap (String.◌∷◌ c) (nil-append s)

-- A text between two separators.
slashed : (ns rest : String) → ns <> ("/" <> rest) ≡ ns <> String.◌∷◌ slash rest
slashed ns rest = ap (λ s. ns <> s) (single-append slash rest)

coloned : (name field : String) → name <> (":" <> field) ≡ name <> String.◌∷◌ colon field
coloned name field = ap (λ s. name <> s) (single-append colon field)

-- Two fields have the same key only if they are the same field of the same agent.
pub field_key_injective :
    (ns name f ns' name' f' : String)
    → IsNamespace ns
    → IsNamespace ns'
    → IsName name
    → IsName name'
    → field_key ns name f ≡ field_key ns' name' f'
    → (ns ≡ ns') × (name ≡ name') × (f ≡ f')
unfolding field_key
field_key_injective ns name f ns' name' f' h h' k k' e =
    let bare = append_cancel_left "cache:" _ _ e in
    let (es, rest) =
      append_separator_injective slash ns ns' (name <> (":" <> f)) (name' <> (":" <> f')) h h'
        (sym (slashed ns _) ∙ bare ∙ slashed ns' _) in
    let (en, ef) =
      append_separator_injective colon name name' f f' k k'
        (sym (coloned name f) ∙ rest ∙ coloned name' f') in
    (es, en, ef)

index_key_injective :
    (ns name ns' name' : String)
    → IsNamespace ns
    → IsNamespace ns'
    → index_key ns name ≡ index_key ns' name'
    → (ns ≡ ns') × (name ≡ name')
unfolding index_key
index_key_injective ns name ns' name' h h' e =
    append_separator_injective slash ns ns' name name' h h'
      (sym (slashed ns name) ∙ append_cancel_left "cache-idx:" _ _ e ∙ slashed ns' name')

pub field_key-eq :
    (ns name f ns' name' f' : String)
    → IsNamespace ns
    → IsNamespace ns'
    → IsName name
    → IsName name'
    → (field_key ns name f == field_key ns' name' f') ≡ (ns == ns' && name == name' && f == f')
field_key-eq ns name f ns' name' f' h h' k k' = ground (
  arith,
  eq_iff (field_key ns name f) (field_key ns' name' f'),
  eq_iff ns ns',
  eq_iff name name',
  eq_iff f f',
  field_key_injective ns name f ns' name' f' h h' k k',
)

pub index_key-eq :
    (ns name ns' name' : String)
    → IsNamespace ns
    → IsNamespace ns'
    → (index_key ns name == index_key ns' name') ≡ (ns == ns' && name == name')
index_key-eq ns name ns' name' h h' = ground (
  arith,
  eq_iff (index_key ns name) (index_key ns' name'),
  eq_iff ns ns',
  eq_iff name name',
  index_key_injective ns name ns' name' h h',
)

-- No field is stored under the key of an index.
index_key-field_key : (ns name ns' name' f : String) → index_key ns name ≢ field_key ns' name' f
unfolding index_key field_key
index_key-field_key ns name ns' name' f e =
    let left = append_assoc "cache" "-idx:" (ns <> ("/" <> name)) in
    let right = append_assoc "cache" ":" (ns' <> ("/" <> (name' <> (":" <> f)))) in
    let rest = append_cancel_left "cache" _ _ (sym left ∙ e ∙ right) in
    let first : dash ≡ colon =
      head-eq_of_cons-eq
        (sym (cons-append dash "idx:" (ns <> ("/" <> name))) ∙ rest ∙ single-append colon _) in
    let codes : ◌≡◌ {A = ℕ} b'-' b':' = ap code first in absurd (omega arith)

pub index-ne-field :
    (ns name ns' name' f : String) → (index_key ns name == field_key ns' name' f) ≡ false
index-ne-field ns name ns' name' f = ne-eqb _ _ (index_key-field_key ns name ns' name' f)

pub field-ne-index :
    (ns name ns' name' f : String) → (field_key ns' name' f == index_key ns name) ≡ false
field-ne-index ns name ns' name' f =
    ne-eqb _ _ (λ e. index_key-field_key ns name ns' name' f (sym e))
