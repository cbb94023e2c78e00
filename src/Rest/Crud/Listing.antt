-- ===== src/Rest/Crud/Listing.antt =====
-- The addresses that the API gives for the services of agents, against the names of the services that the
-- controller creates.
use Prim.Native.Char.{char}
use text.Mathlib.TextLemmas.{cons-append, append_cancel_left, cons-ne-nil}
use k8sagent_orchestrator.Prelude.{
  String, ◌≡◌, refl, ap, sym, ◌∙◌, ◌≢◌, ◌↔◌, Bool, true, false, List, [], ◌∷◌, map, keep, arith,
  ◌<>◌, Bool-cases, inl, inr, eq_iff,
}
use k8sagent_orchestrator.Prelude.Int.{ℤ, pos, negsuc, ltb_ℤ, format_ℤ}
use k8sagent_orchestrator.Api.{Agent}
use k8sagent_orchestrator.Controller.Services.{starts_with_digit, service_name_for}
use k8sagent_orchestrator.Controller.Services.Names.{starts_with_digit-service_name_for}
use k8sagent_orchestrator.Rest.Wake.{service_url}
use k8sagent_orchestrator.Rest.Crud.{service_info, service_infos}

-- The address of a service in the cluster.
abbrev pub address : (service namespace : String) → ℤ → String
address service namespace port =
    "http://" <> (service <> ("." <> (namespace <> (".svc.cluster.local:" <> format_ℤ port))))

abbrev pub has_port : Agent → Bool
has_port a = ltb_ℤ (pos 0) a.spec.service_port

has_port_cons :
    (a : Agent) (port : ℤ) (namespace : String) (items : List Agent)
    → a.spec.service_port ≡ port
    → service_infos namespace items ≡ map (service_info namespace) (keep has_port items)
    → service_infos namespace (a ∷ items) ≡ map (service_info namespace) (keep has_port (a ∷ items))
unfolding service_infos
has_port_cons a (pos n) namespace items e ih = ground arith
has_port_cons a (negsuc n) namespace items e ih = ground arith

-- The listing holds the agents that have a port, in the order of the server, each once.
pub service_infos-keep :
    (namespace : String) (items : List Agent)
    → service_infos namespace items ≡ map (service_info namespace) (keep has_port items)
unfolding service_infos
service_infos-keep namespace [] = refl
service_infos-keep namespace (a ∷ items) =
    has_port_cons a _ namespace items refl (service_infos-keep namespace items)

starts_with_digit-append :
    (s t : String) → starts_with_digit s ≡ true → starts_with_digit (s <> t) ≡ true
unfolding starts_with_digit
starts_with_digit-append String.[] t h = cc (h)
starts_with_digit-append (String.◌∷◌ c s) t h = rw (cons-append c s t) h

-- An address names no service whose name starts with a digit.
address-ne :
    (s t namespace : String) (port : ℤ)
    → starts_with_digit s ≡ true
    → starts_with_digit t ≡ false
    → t ≢ ""
    → address s namespace port ≢ address t namespace port
unfolding starts_with_digit
address-ne s String.[] namespace port hs ht d e = absurd (d refl)
address-ne s (String.◌∷◌ c t) namespace port hs ht d e =
    let rest = "." <> (namespace <> (".svc.cluster.local:" <> format_ℤ port)) in
    let same : s <> rest ≡ String.◌∷◌ c t <> rest = append_cancel_left "http://" _ _ e in
    let left = starts_with_digit-append s rest hs in
    let right : starts_with_digit (String.◌∷◌ c t <> rest) ≡ false = rw (cons-append c t rest) ht in
    cc (ap starts_with_digit same)

prefix_nonempty : (s : String) → "agt-" <> s ≢ ""
prefix_nonempty s e =
    cons-ne-nil (char b'a' tt) ("gt-" <> s) (sym (cons-append (char b'a' tt) "gt-" s) ∙ e)

unprefixed : (s : String) → starts_with_digit s ≡ false → service_name_for s ≡ s
unfolding service_name_for
unprefixed s h = rw h refl

service_name_for-nonempty : (s : String) → s ≢ "" → service_name_for s ≢ ""
unfolding service_name_for
service_name_for-nonempty s d = elim (Bool-cases (starts_with_digit s)) [
  | inl h ↦ rw h (prefix_nonempty s)
  | inr h ↦ rw h d
]

url_of_status :
    (namespace : String) (a : Agent)
    → has_port a ≡ true
    → a.status.service_name ≡ service_name_for a.meta.name
    → service_name_for a.meta.name ≢ ""
    → service_url namespace a ≡ address (service_name_for a.meta.name) namespace a.spec.service_port
unfolding service_url
url_of_status namespace a h s d = ground (arith, eq_iff a.status.service_name "")

same_address :
    (s namespace : String) (port : ℤ)
    → s ≢ ""
    → (address s namespace port ≡ address (service_name_for s) namespace port)
      ↔ (starts_with_digit s ≡ false)
same_address s namespace port d = elim (Bool-cases (starts_with_digit s)) [
  | inl h ↦ (
    λ e. absurd (
        address-ne s (service_name_for s) namespace port h (starts_with_digit-service_name_for s)
          (service_name_for-nonempty s d) e),
    λ off. cc off,
  )
  | inr h ↦ (λ e. h, λ off. ap (λ t. address t namespace port) (sym (unprefixed s h)))
]

-- Where the status names the agent's service, the keepalive endpoint answers that service's address. The
-- listing gives it too, but only for an agent whose name does not start with a digit.
pub service_url-address :
    (namespace : String) (a : Agent)
    → has_port a ≡ true
    → a.status.service_name ≡ service_name_for a.meta.name
    → a.meta.name ≢ ""
    → (service_url namespace a
        ≡ address (service_name_for a.meta.name) namespace a.spec.service_port)
      × (((service_info namespace a).url ≡ service_url namespace a)
          ↔ starts_with_digit a.meta.name ≡ false)
unfolding service_info
service_url-address namespace a h s d =
    let url = url_of_status namespace a h s (service_name_for-nonempty a.meta.name d) in
    (url, rw url (same_address a.meta.name namespace a.spec.service_port d))
