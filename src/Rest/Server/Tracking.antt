-- ===== src/Rest/Server/Tracking.antt =====
-- Which requests count as activity of an agent.
use mathlib.Core.List.{Memᴰ}
use k8sagent_orchestrator.Prelude.{
  String, ◌≡◌, refl, subst, false, Option, none, some, List, [], ◌∷◌, ◌==◌, if◌then◌else◌, All,
  arith, Bool-cases, inl, inr, not,
}
use k8sagent_orchestrator.Prelude.Map
use k8sagent_orchestrator.Prelude.Map.{Map}
use k8sagent_orchestrator.Idle.{Watcher, touch_activity}
use k8sagent_orchestrator.Idle.Middleware.{activity_middleware}
use k8sagent_orchestrator.Rest.{ns_name}
use k8sagent_orchestrator.Rest.Routes.{
  Segment, fixed, param, Route, Match, register_routes, matches, match_path, param_of, request_of,
}
use k8sagent_orchestrator.Rest.Routes.Groups.{IsSilent, Unset, match_path-Unset}
use k8sagent_orchestrator.Rest.Routes.Taken.{Keeps, matches-All, All-implies, register_routes-All}
use k8sagent_orchestrator.Rest.Server.{
  Server, HttpRequest, Router, IsRouter, run_handler, run_match,
}

-- The pattern has the parameter `name`.
abbrev Names : List Segment → Type 0
Names [] = ⊥
Names (fixed s ∷ pattern) = Names pattern
Names (param j ∷ pattern) = if j == "name" then Unit else Names pattern
Names (Segment.wildcard ∷ pattern) = ⊥

abbrev IsNamed : Option (Map String) → Type 0
IsNamed none = Unit
IsNamed (some params) = (param_of "name" params == "") ≡ false

match_path-IsNamed :
    (pattern : List Segment) (path : List String)
    → Names pattern
    → IsNamed (match_path pattern path)
unfolding match_path Map.lookup
match_path-IsNamed [] path n = elim n [ ]
match_path-IsNamed (Segment.wildcard ∷ pattern) path n = elim n [ ]
match_path-IsNamed (fixed t ∷ pattern) [] n = tt
match_path-IsNamed (fixed t ∷ pattern) (x ∷ xs) n =
    let ih = match_path-IsNamed pattern xs n in ground arith
match_path-IsNamed (param j ∷ pattern) [] n = tt
match_path-IsNamed (param j ∷ pattern) (x ∷ xs) n = elim (Bool-cases (j == "name")) [
  | inl e ↦ ground arith
  | inr e ↦
      let named : Names pattern = subst (λ b. if b then Unit else Names pattern) e n in
      let ih = match_path-IsNamed pattern xs named in ground arith
]

-- A tracked route has the parameter, another has not.
abbrev IsTracking : Route → Type 0
IsTracking r = if r.tracked then Names r.pattern else IsSilent "name" r.pattern

register_routes-IsTracking : All IsTracking register_routes
register_routes-IsTracking =
    register_routes-All IsTracking (ground arith) (ground arith) (ground arith)

-- A match is tracked exactly if it has a name.
abbrev TracksNamed : Match → Type 0
TracksNamed (h, (tracked, params)) = tracked ≡ not (param_of "name" params == "")

Keeps-tracked :
    (method : String) (path : List String) (r : Route)
    → IsTracking r
    → Keeps TracksNamed match_path method path r
Keeps-tracked method path r tracking params e fits = elim (Bool-cases r.tracked) [
  | inl t ↦
      let names : Names r.pattern =
        subst (λ b. if b then Names r.pattern else IsSilent "name" r.pattern) t tracking in
      let named : (param_of "name" params == "") ≡ false =
        subst IsNamed fits (match_path-IsNamed r.pattern path names) in
      rw (t, named) refl
  | inr t ↦
      let silent : IsSilent "name" r.pattern =
        subst (λ b. if b then Names r.pattern else IsSilent "name" r.pattern) t tracking in
      let unset : Map.lookup "name" params ≡ none =
        subst (Unset "name") fits (match_path-Unset "name" r.pattern path silent) in
      let unnamed : param_of "name" params ≡ "" = ground arith in rw (t, unnamed) refl
]

taken-TracksNamed :
    (method : String) (path : List String) (m : Match)
    → Memᴰ m (matches match_path register_routes method path)
    → TracksNamed m
taken-TracksNamed method path m = matches-All TracksNamed match_path register_routes method path m (
    All-implies IsTracking (Keeps TracksNamed match_path method path) (Keeps-tracked method path)
      register_routes register_routes-IsTracking)

module _ {W C K : Type 0} (find : Router) (s : Server W C K) where
  -- A request that takes a route counts as activity of the agent that its path names, at once before the
  -- handler runs, and a request whose path names no agent touches none.
  pub run_match-touches :
      IsRouter find
      → (r : HttpRequest) (m : Match) (watcher : Watcher) (w : W)
      → find register_routes r.method r.path ≡ some m
      → s.idle_watcher ≡ some watcher
      → let (h, (tracked, params)) = m in
        let c = request_of s.namespace params in
        run_match s m r w
        ≡ run_handler s h c params r (
            if param_of "name" params == ""
            then w
            else touch_activity s.env s.cache s.float_to_int64 (ns_name c).0 (ns_name c).1 w)
  unfolding run_match activity_middleware ns_name request_of
  run_match-touches router r m watcher w found enabled =
      let tracks =
        taken-TracksNamed r.method r.path m
          (router.takes register_routes r.method r.path m found) in
      elim (Bool-cases (param_of "name" m.1.1 == "")) [
        | inl e ↦ rw (tracks, enabled, e) refl
        | inr e ↦ rw (tracks, enabled, e) refl
      ]
