-- ===== src/Rest/Routes/Groups.antt =====
-- The two groups of routes for agents serve the same.
use k8sagent_orchestrator.Prelude.{
  String, ◌≡◌, refl, sym, ap, subst, ◌∙◌, ◌≢◌, Bool, false, Option, none, some, List, [], ◌∷◌, ◌++◌,
  map, ◌==◌, if◌then◌else◌, arith, ne-eqb, All,
}
use mathlib.Core.List.{append-nil}
use k8sagent_orchestrator.Prelude.Map
use k8sagent_orchestrator.Prelude.Map.{Map}
use k8sagent_orchestrator.Rest.{ns_name}
use k8sagent_orchestrator.Rest.Routes.{
  Segment, fixed, param, Handler, Route, agent_table, below, namespaced, short,
  register_agent_routes, register_routes, match_path, Fits, Match, matches, param_of, request_of,
}

abbrev with_namespace : String → Match → Match
with_namespace ns (h, (tracked, params)) = (h, (tracked, ("namespace", ns) ∷ params))

matches-append :
    (rs qs : List Route) (method : String) (path : List String)
    → matches match_path (rs ++ qs) method path
      ≡ matches match_path rs method path ++ matches match_path qs method path
unfolding matches
matches-append [] qs method path = refl
matches-append (r ∷ rs) qs method path = ground (arith, matches-append rs qs method path)

short-short :
    (rs : List Route) (method : String) (rest : List String)
    → matches match_path (map (below short) rs) method ("api" ∷ "v1" ∷ "agents" ∷ rest)
      ≡ matches match_path rs method rest
unfolding matches match_path
short-short [] method rest = refl
short-short (r ∷ rs) method rest = ground (arith, short-short rs method rest)

namespaced-short :
    (rs : List Route) (method : String) (rest : List String)
    → matches match_path (map (below namespaced) rs) method ("api" ∷ "v1" ∷ "agents" ∷ rest) ≡ []
unfolding matches match_path
namespaced-short [] method rest = refl
namespaced-short (r ∷ rs) method rest = ground (arith, namespaced-short rs method rest)

short-namespaced :
    (rs : List Route) (method ns : String) (rest : List String)
    → matches match_path
        (map (below short) rs)
        method
        ("api" ∷ "v1" ∷ "namespaces" ∷ ns ∷ "agents" ∷ rest)
      ≡ []
unfolding matches match_path
short-namespaced [] method ns rest = refl
short-namespaced (r ∷ rs) method ns rest = ground (arith, short-namespaced rs method ns rest)

namespaced-namespaced :
    (rs : List Route) (method ns : String) (rest : List String)
    → (ns == "") ≡ false
    → matches match_path
        (map (below namespaced) rs)
        method
        ("api" ∷ "v1" ∷ "namespaces" ∷ ns ∷ "agents" ∷ rest)
      ≡ map (with_namespace ns) (matches match_path rs method rest)
unfolding matches match_path
namespaced-namespaced [] method ns rest h = refl
namespaced-namespaced (r ∷ rs) method ns rest h =
    ground (arith, namespaced-namespaced rs method ns rest h)

matches-miss :
    (r : Route) (rs : List Route) (method : String) (path : List String)
    → match_path r.pattern path ≡ none
    → matches match_path (r ∷ rs) method path ≡ matches match_path rs method path
unfolding matches
matches-miss r rs method path e = ground arith

-- A path below /api/v1 whose next segment is not info fits only the routes of the groups.
matches-groups :
    (method segment : String) (rest : List String)
    → ("info" == segment) ≡ false
    → matches match_path register_routes method ("api" ∷ "v1" ∷ segment ∷ rest)
      ≡ matches match_path (register_agent_routes namespaced) method ("api" ∷ "v1" ∷ segment ∷ rest)
        ++ matches match_path (register_agent_routes short) method ("api" ∷ "v1" ∷ segment ∷ rest)
unfolding register_routes match_path
matches-groups method segment rest h =
    let path = "api" ∷ "v1" ∷ segment ∷ rest in
    matches-miss _ _ method path refl
    ∙ matches-miss _ _ method path (rw h refl)
    ∙ matches-miss _ _ method path refl
    ∙ matches-miss _ _ method path refl
    ∙ matches-append (register_agent_routes namespaced) (register_agent_routes short) method path

matches-short :
    (method : String) (rest : List String)
    → matches match_path register_routes method ("api" ∷ "v1" ∷ "agents" ∷ rest)
      ≡ matches match_path agent_table method rest
unfolding register_agent_routes
matches-short method rest =
    matches-groups method "agents" rest refl
    ∙ ap
        (λ l.
          l
          ++ matches match_path (register_agent_routes short) method
              ("api" ∷ "v1" ∷ "agents" ∷ rest))
        (namespaced-short agent_table method rest)
    ∙ short-short agent_table method rest

matches-namespaced :
    (method ns : String) (rest : List String)
    → (ns == "") ≡ false
    → matches match_path register_routes method ("api" ∷ "v1" ∷ "namespaces" ∷ ns ∷ "agents" ∷ rest)
      ≡ map (with_namespace ns) (matches match_path agent_table method rest)
unfolding register_agent_routes
matches-namespaced method ns rest h =
    matches-groups method "namespaces" (ns ∷ "agents" ∷ rest) refl
    ∙ ap
        (λ l.
          matches match_path (register_agent_routes namespaced) method
            ("api" ∷ "v1" ∷ "namespaces" ∷ ns ∷ "agents" ∷ rest)
          ++ l)
        (short-namespaced agent_table method ns rest)
    ∙ append-nil _
    ∙ namespaced-namespaced agent_table method ns rest h

-- No parameter of the pattern has the name.
abbrev pub IsSilent : String → List Segment → Type 0
IsSilent k [] = Unit
IsSilent k (fixed s ∷ pattern) = IsSilent k pattern
IsSilent k (param j ∷ pattern) = ((j == k) ≡ false) × IsSilent k pattern
IsSilent k (Segment.wildcard ∷ pattern) = IsSilent k pattern

abbrev pub Unset : String → Option (Map String) → Type 0
Unset k none = Unit
Unset k (some params) = Map.lookup k params ≡ none

pub match_path-Unset :
    (k : String) (pattern : List Segment) (path : List String)
    → IsSilent k pattern
    → Unset k (match_path pattern path)
unfolding match_path Map.lookup
match_path-Unset k [] [] s = refl
match_path-Unset k [] (x ∷ xs) s = tt
match_path-Unset k (Segment.wildcard ∷ pattern) [] s = tt
match_path-Unset k (Segment.wildcard ∷ pattern) (x ∷ xs) s = refl
match_path-Unset k (fixed t ∷ pattern) [] s = tt
match_path-Unset k (fixed t ∷ pattern) (x ∷ xs) s =
    let ih = match_path-Unset k pattern xs s in ground arith
match_path-Unset k (param j ∷ pattern) [] s = tt
match_path-Unset k (param j ∷ pattern) (x ∷ xs) s =
    let ih = match_path-Unset k pattern xs s.1 in ground (arith, s.0)

abbrev IsUnset : String → Match → Type 0
IsUnset k (h, (tracked, params)) = Map.lookup k params ≡ none

matches-IsUnset :
    (k : String) (rs : List Route) (method : String) (path : List String)
    → All (λ r. IsSilent k r.pattern) rs
    → All (IsUnset k) (matches match_path rs method path)
unfolding matches
matches-IsUnset k [] method path s = tt
matches-IsUnset k (r ∷ rs) method path s =
    let unset = match_path-Unset k r.pattern path s.0 in
    ground (arith, matches-IsUnset k rs method path s.1)

agent_table-IsSilent : All (λ r. IsSilent "namespace" r.pattern) agent_table
agent_table-IsSilent = ground arith

-- What a handler gets of a request: whether it is tracked, the namespace and the name, and the parameters.
abbrev pub seen :
    (default_namespace : String)
    → Match
    → Handler × (Bool × ((String × String) × (String × String)))
seen default_namespace (h, (tracked, params)) = (
  h,
  (
    tracked,
    (
      ns_name (request_of default_namespace params),
      (param_of "field" params, param_of "key" params),
    ),
  ),
)

seen-one :
    (ns : String) (x : Match)
    → (ns == "") ≡ false
    → IsUnset "namespace" x
    → seen ns (with_namespace ns x) ≡ seen ns x
unfolding request_of ns_name Map.lookup
seen-one ns (handler, (tracked, params)) h u =
    let set : (if ns == "" then ns else ns) ≡ ns = ground arith in
    let unset : param_of "namespace" params ≡ "" = ground arith in
    let names : String → Handler × (Bool × ((String × String) × (String × String))) = λ n. (
      handler,
      (tracked, ((n, param_of "name" params), (param_of "field" params, param_of "key" params))),
    ) in
    ap names set ∙ ap (λ n. names (if n == "" then ns else n)) (sym unset)

seen-with_namespace :
    (ns : String) (found : List Match)
    → (ns == "") ≡ false
    → All (IsUnset "namespace") found
    → map (seen ns) (map (with_namespace ns) found) ≡ map (seen ns) found
seen-with_namespace ns [] h u = refl
seen-with_namespace ns (x ∷ found) h u =
    ap (λ y. y ∷ map (seen ns) (map (with_namespace ns) found)) (seen-one ns x h u.0)
    ∙ ap (λ l. seen ns x ∷ l) (seen-with_namespace ns found h u.1)

fits_default :
    (method ns : String) (rest : List String)
    → ns ≢ ""
    → map (seen ns) (matches match_path register_routes method ("api" ∷ "v1" ∷ "agents" ∷ rest))
      ≡ map (seen ns) (
          matches match_path register_routes method
            ("api" ∷ "v1" ∷ "namespaces" ∷ ns ∷ "agents" ∷ rest))
fits_default method ns rest d =
    let h = ne-eqb ns "" d in
    let unset = matches-IsUnset "namespace" agent_table method rest agent_table-IsSilent in
    ap (map (seen ns)) (matches-short method rest)
    ∙ sym (seen-with_namespace ns (matches match_path agent_table method rest) h unset)
    ∙ ap (map (seen ns)) (sym (matches-namespaced method ns rest h))

-- Where the router fits patterns to paths as documented, for any method and any path below the agents: the
-- short path fits the same routes as the path with the server's default namespace, in the same order, and
-- their handlers get the same namespace, name and other parameters.
pub matches-default_namespace :
    (fits : Fits) (method ns : String) (rest : List String)
    → ((pattern : List Segment) (path : List String) → fits pattern path ≡ match_path pattern path)
    → ns ≢ ""
    → map (seen ns) (matches fits register_routes method ("api" ∷ "v1" ∷ "agents" ∷ rest))
      ≡ map
          (seen ns)
          (matches fits register_routes method ("api" ∷ "v1" ∷ "namespaces" ∷ ns ∷ "agents" ∷ rest))
matches-default_namespace fits method ns rest documented d =
    let same : match_path ≡ fits = λ i pattern path. sym (documented pattern path) i in
    subst
      (λ (g : Fits).
        map (seen ns) (matches g register_routes method ("api" ∷ "v1" ∷ "agents" ∷ rest))
        ≡ map (seen ns)
            (matches g register_routes method ("api" ∷ "v1" ∷ "namespaces" ∷ ns ∷ "agents" ∷ rest)))
      same (fits_default method ns rest d)
