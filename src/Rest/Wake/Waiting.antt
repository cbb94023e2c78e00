-- ===== src/Rest/Wake/Waiting.antt =====
-- Termination of the wait of the keepalive endpoint.
use k8sagent_orchestrator.Prelude.{
  ℕ, zero, suc, ◌+◌, ◌*◌, ◌≤◌, ◌<◌, String, ◌≡◌, refl, ◌≢◌, Option, none, some, arith,
}
use k8sagent_orchestrator.Prelude.Int.{ℤ, pos, negsuc}
use k8sagent_orchestrator.Cache.{Time}
use k8sagent_orchestrator.Api.{Agent}
use k8sagent_orchestrator.Io.{Result, ok, err}
use k8sagent_orchestrator.Kube.{Env}
use k8sagent_orchestrator.Rest.{Request, ns_name}
use k8sagent_orchestrator.Rest.Wake.{
  second, poll, wait_running, wake_agent, wait_seconds, handle_keepalive, rounds, within, atoi,
  service_url,
}

within-bounded : (n : ℤ) → within n ≤ 120
unfolding within
within-bounded (pos n) = ground arith
within-bounded (negsuc n) = ground arith

bounded_of : (ws : String) (n : Option ℤ) → atoi ws ≡ n → wait_seconds ws ≤ 120
unfolding wait_seconds
bounded_of ws none e = ground arith
bounded_of ws (some n) e = ground (arith, within-bounded n)

-- The wait is at most two minutes, whatever the query says.
pub wait_seconds-bounded : (ws : String) → wait_seconds ws ≤ 120
wait_seconds-bounded ws = bounded_of ws _ refl

-- The clock of a world: reading it tells it and does not turn it back, no more than a lookup does, and a
-- sleep takes at least its duration.
pub record ClockLaws {W : Type 0} (env : Env W) : Type 0 where
  pub clock : W → Time
  pub now_reads : (w : W) → (env.now w).0 ≡ clock w
  pub now_forward : (w : W) → clock w ≤ clock (env.now w).1
  pub get_forward : (ns name : String) (w : W) → clock w ≤ clock (env.get_agent ns name w).1
  pub sleep_forward : (d : ℕ) (w : W) → clock w + d ≤ clock (env.sleep d w)

module _ {W : Type 0} (env : Env W) (laws : ClockLaws env) where
  -- The world of the next round.
  abbrev next : String → String → W → W
  next ns name w = env.sleep (2 * second) (env.get_agent ns name (env.now w).1).1

  poll_step :
      (fuel : ℕ) (ns name : String) (deadline : Time) (phase : String) (w : W)
      (reply : Result Agent)
      → (env.get_agent ns name (env.now w).1).0 ≡ reply
      → ((p : String)
          → (env.now w).0 < deadline
          → (poll env fuel ns name deadline p (next ns name w)).0 ≢ none)
      → (poll env (suc fuel) ns name deadline phase w).0 ≢ none
  unfolding poll
  poll_step fuel ns name deadline phase w (ok fresh) e more =
      ground (arith, more fresh.status.phase)
  poll_step fuel ns name deadline phase w (err x) e more = ground (arith, more phase)

  -- With a round for every two seconds that are left, and one more, the loop gives a phase.
  poll_ends :
      (fuel : ℕ) (ns name : String) (deadline : Time) (phase : String) (w : W)
      → 0 < fuel
      → deadline + 2 * second ≤ laws.clock w + fuel * (2 * second)
      → (poll env fuel ns name deadline phase w).0 ≢ none
  poll_ends zero ns name deadline phase w p h = absurd (omega arith)
  poll_ends (suc fuel) ns name deadline phase w p h =
      let told = laws.now_reads w in
      let read = laws.now_forward w in
      let got = laws.get_forward ns name (env.now w).1 in
      let slept = laws.sleep_forward (2 * second) (env.get_agent ns name (env.now w).1).1 in
      poll_step fuel ns name deadline phase w _ refl
        (λ q early. poll_ends fuel ns name deadline q (next ns name w) (omega arith) (omega arith))

  wait_ends :
      (ns name url : String) (wait_timeout : ℕ) (w : W)
      → (wait_running env (rounds wait_timeout) ns name url wait_timeout w).0 ≢ none
  unfolding wait_running
  wait_ends ns name url wait_timeout w =
      let told = laws.now_reads w in
      let read = laws.now_forward w in
      let ends =
        poll_ends (rounds wait_timeout) ns name ((env.now w).0 + wait_timeout) "" (env.now w).1
          (omega arith) (omega arith) in
      ground arith

  wake_ends :
      (ns name : String) (wait_timeout : ℕ) (w : W) (reply : Result Agent)
      → (env.get_agent ns name w).0 ≡ reply
      → (wake_agent env (rounds wait_timeout) ns name wait_timeout w).0 ≢ none
  unfolding wake_agent
  wake_ends ns name wait_timeout w (err x) e = ground arith
  wake_ends ns name wait_timeout w (ok a) e =
      grind (arith, wait_ends ns name (service_url ns a) wait_timeout)

  -- On a clock that is not turned back and that a sleep moves forward, the keepalive endpoint answers:
  -- its loop, which has a round for every two seconds of the wait and two more, ends by itself. The wait
  -- is at most two minutes.
  pub handle_keepalive-answers :
      (c : Request) (wait : String) (w : W)
      → ((handle_keepalive env c wait w).0 ≢ none) × (wait_seconds wait ≤ 120)
  unfolding handle_keepalive
  handle_keepalive-answers c wait w =
      let ends = wake_ends (ns_name c).0 (ns_name c).1 (wait_seconds wait * second) w _ refl in
      (ground arith, wait_seconds-bounded wait)
