-- ===== src/Rest/Wake.antt =====
-- internal/rest/handlers.go: waking an agent, and the keepalive endpoint.
pub mod Waiting
use Prim.Native.Char.{code}
use Prim.Native.String
use k8sagent_orchestrator.Prelude.{
  ℕ, zero, suc, ◌+◌, ◌-◌, ◌*◌, ◌/◌, String, Bool, true, false, not, ◌&&◌, Option, none, some, List,
  ◌==◌, eqb, ltb, leb, if◌then◌else◌, ◌<>◌,
}
use k8sagent_orchestrator.Prelude.Int.{ℤ, pos, negsuc, leb_ℤ, ltb_ℤ, format_ℤ}
use k8sagent_orchestrator.Cache.{Time}
use k8sagent_orchestrator.Api.{Agent, running}
use k8sagent_orchestrator.Io.{Io, ◌>>=◌, ◌>>◌, pure, Result, ok, err, ApiError, is_not_found}
use k8sagent_orchestrator.Kube.{Env}
use k8sagent_orchestrator.Rest.{
  Request, Response, woken_body, respond_ok, respond_error, ns_name, annotate, log_history,
}
use k8sagent_orchestrator.Rest.Lifecycle.{with_paused, started_at, restart_at}

abbrev pub second : ℕ
second = 1000000000

-- The URL of the agent's service, empty without a port.
unfoldable pub service_url : String → Agent → String
service_url namespace a =
    let svc_name =
      if not (a.status.service_name == "") then a.status.service_name else a.meta.name in
    if ltb_ℤ (pos 0) a.spec.service_port
    then "http://"
      <> (svc_name
          <> ("." <> (namespace <> (".svc.cluster.local:" <> format_ℤ a.spec.service_port))))
    else ""

-- `strconv.Atoi` on the decimal digits and an optional sign; a value out of the range of `int` is an error
-- there, and here one that the caller's bounds refuse.
unfoldable pub digits_value : ℕ → String → Option ℕ
digits_value acc String.[] = some acc
digits_value acc (String.◌∷◌ c s) =
    let rest = digits_value (acc * 10 + (code c - 48)) s in
    if leb b'0' (code c) && leb (code c) b'9' then rest else none

unfoldable pub some_digits : String → Option ℕ
unfolding digits_value
some_digits String.[] = none
some_digits (String.◌∷◌ c s) = digits_value 0 (String.◌∷◌ c s)

unfoldable pub signed : Bool → Option ℕ → Option ℤ
signed negative none = none
signed true (some zero) = some (pos 0)
signed true (some (suc n)) = some (negsuc n)
signed false (some n) = some (pos n)

unfoldable pub atoi : String → Option ℤ
unfolding signed some_digits
atoi String.[] = none
atoi (String.◌∷◌ c s) =
    if eqb (code c) b'-'
    then signed true (some_digits s)
    else if eqb (code c) b'+'
    then signed false (some_digits s)
    else signed false (some_digits (String.◌∷◌ c s))

within : ℤ → ℕ
within (pos n) = if leb n 120 then n else 30
within (negsuc n) = 30

-- The seconds that `?wait=` asks for: 30 unless it is a number from 0 to 120.
unfoldable pub wait_seconds : String → ℕ
unfolding atoi within
wait_seconds ws = if ws == "" then 30 else elim (atoi ws) [ none ↦ 30 | some n ↦ within n ]

-- The phase and the service URL.
abbrev pub Woken : Type 0
Woken = String × String

-- A round for every two seconds of the wait, and two more.
abbrev pub rounds : ℕ → ℕ
rounds wait_timeout = wait_timeout / (2 * second) + 2

module _ {W : Type 0} (e : Env W) where
  -- "Poll until Running or timeout": `none` if the fuel runs out.
  unfoldable pub poll : ℕ → String → String → Time → String → Io W (Option String)
  poll zero namespace name deadline phase w = (none, w)
  poll (suc fuel) namespace name deadline phase w =
      let (now, w₁) = e.now w in
      let (reply, w₂) = e.get_agent namespace name w₁ in
      let next = λ (p : String). poll fuel namespace name deadline p (e.sleep (2 * second) w₂) in
      let seen : Option String × W = elim reply [
        | err _ ↦ next phase
        | ok fresh ↦ elim (fresh.status.phase == running) [
          | true ↦ (some fresh.status.phase, w₂)
          | false ↦ next fresh.status.phase
        ]
      ] in
      elim (ltb now deadline) [ true ↦ seen | false ↦ (some phase, w₁) ]

  -- From the deadline on.
  wait_running : ℕ → String → String → String → ℕ → Io W (Option (Result Woken))
  wait_running fuel namespace name url wait_timeout w =
      let (now, w₁) = e.now w in
      let (phase, w₂) = poll fuel namespace name (now + wait_timeout) "" w₁ in
      (elim phase [ none ↦ none | some p ↦ some (ok (p, url)) ], w₂)

  unfoldable pub wake_agent : ℕ → String → String → ℕ → Io W (Option (Result Woken))
  unfolding wait_running service_url log_history
  wake_agent fuel namespace name wait_timeout = do
    reply ← e.get_agent namespace name
    elim reply [
      | err x ↦ pure (some (err x))
      | ok a ↦
          let url = service_url namespace a in
          let unpaused : Io W (Option (Result Woken)) = (do
            now ← e.now
            let stamp = e.rfc3339 now
            let started = annotate started_at stamp (with_paused false a)
            let restarted = annotate restart_at stamp started
            reply ← e.patch_agent a (annotate "orchestrator.dev/wake-reason" "keepalive" restarted)
            elim reply [
              | err x ↦ pure (some (err x))
              | ok _ ↦ do
                log_history e namespace name "WokeUp" "Agent woken via keepalive (was idle-paused)"
                wait_running fuel namespace name url wait_timeout
            ]) in
          if not a.spec.paused && a.status.phase == running
          then pure (some (ok (a.status.phase, url)))
          else if a.spec.paused
          then unpaused
          else wait_running fuel namespace name url wait_timeout
    ]

  -- The answer; `none` if the fuel of the loop ran out.
  unfoldable pub handle_keepalive : Request → String → Io W (Option Response)
  unfolding ns_name wake_agent wait_seconds
  handle_keepalive c wait =
      let (namespace, name) = ns_name c in
      let wait_sec = wait_seconds wait in
      let wait_timeout = wait_sec * second in
      (do
        woken ← wake_agent (rounds wait_timeout) namespace name wait_timeout
        pure (elim woken [
          | none ↦ none
          | some (err x) ↦ some (
              if is_not_found x
              then respond_error 404 "agent not found"
              else respond_error 500 x.text)
          | some (ok (phase, url)) ↦
              let waiting : String = if eqb wait_sec 0 then "accepted" else "starting" in
              some (
                respond_ok
                  (woken_body (if not (phase == running) then waiting else "running") phase url))
        ]))
