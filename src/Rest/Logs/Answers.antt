-- ===== src/Rest/Logs/Answers.antt =====
-- The answer of `handleGetLogs`.
use k8sagent_orchestrator.Prelude.{
  ℕ, ◌≡◌, sym, ap, ◌∙◌, ◌≢◌, String, Bool, none, some, List, [], arith, if◌then◌else◌, All, ne-eqb,
  ◌<>◌,
}
use mathlib.Core.List.{append-nil}
use k8sagent_orchestrator.Api.{Agent}
use k8sagent_orchestrator.Io.{Io, ok, err, Result, is_not_found, pure}
use k8sagent_orchestrator.Kube.{Env}
use k8sagent_orchestrator.Rest.{
  Request, Response, bytes_body, respond_ok, respond_error, ns_name, with_agent,
}
use k8sagent_orchestrator.Rest.Logs.{
  Client, LogQuery, LogStream, Answer, got, log_options, raw_clientset, handle_get_logs, deliver,
  unlines, followed, answer_agent, answer_clientset, answer_stream,
}
use k8sagent_orchestrator.Rest.Logs.Following.{Fits, followed-cut}

-- The whole log; a stream that breaks is an error unless it is followed.
abbrev pub whole : (follow : Bool) → LogStream → Response
whole follow s = elim s.failure [
  | none ↦ respond_ok (bytes_body s.bytes)
  | some e ↦
      if follow
      then respond_ok (bytes_body s.bytes)
      else respond_error 500 ("error reading logs: " <> e)
]

followed-unlines :
    (lines : List (List ℕ)) → All Fits lines → followed (unlines lines) ≡ unlines lines
followed-unlines lines h =
    ap followed (sym (append-nil (unlines lines)))
    ∙ (followed-cut lines [] h tt).0 (ground arith)
    ∙ append-nil (unlines lines)

deliver-whole :
    (follow : Bool) (s : LogStream) (lines : List (List ℕ))
    → s.bytes ≡ unlines lines
    → All Fits lines
    → deliver follow s ≡ whole follow s
unfolding deliver
deliver-whole follow s lines e h =
    let f : followed s.bytes ≡ s.bytes = ap followed e ∙ followed-unlines lines h ∙ sym e in
    ground arith

with_agent-found :
    {W : Type 0} (env : Env W) (namespace name : String) (handle : Agent → Io W Response)
    (a : Agent) (w w' : W)
    → env.get_agent namespace name w ≡ (ok a, w')
    → with_agent env namespace name handle w ≡ handle a w'
unfolding with_agent
with_agent-found {W = W} env namespace name handle a w w' found =
    ap
      (λ (x : Result Agent × W).
        (elim x.0 as (λ _. Io W Response) [
          | err e ↦
              if is_not_found e
              then pure (respond_error 404 "agent not found")
              else pure (respond_error 500 e.text)
          | ok b ↦ handle b
        ])
          x.1)
      found

module _ {W C K : Type 0} (client : Client W C K) where
  answer_agent-got :
      (c : Request) (q : LogQuery) (a : Agent) (k : K) (w w' : W)
      → a.status.pod_name ≢ ""
      → raw_clientset client w ≡ (got k, w')
      → answer_agent client c q a w ≡ answer_clientset client c q a (got k) w'
  unfolding answer_agent
  answer_agent-got c q a k w w' pod e =
      ap
        (λ b.
          (if b then pure (respond_error 404 "agent has no running pod") else (λ v.
              answer_clientset client c q a (raw_clientset client v).0 (raw_clientset client v).1))
            w)
        (ne-eqb a.status.pod_name "" pod)
      ∙ ap (λ (x : Answer K × W). answer_clientset client c q a x.0 x.1) e

module _ {W C K : Type 0} (env : Env W) (client : Client W C K) where
  -- Where the agent is found, has a pod and the stream opens, and every line of the log ends with a newline,
  -- fits the buffer and holds no carriage return: the answer is the whole log, followed or not. A stream
  -- that breaks is an error 500, but if it is followed the answer is what came before.
  pub handle_get_logs-whole :
      (c : Request) (q : LogQuery) (a : Agent) (k : K) (s : LogStream) (lines : List (List ℕ))
      (w w' w'' : W)
      → env.get_agent (ns_name c).0 (ns_name c).1 w ≡ (ok a, w')
      → a.status.pod_name ≢ ""
      → raw_clientset client w' ≡ (got k, w'')
      → (client.stream k (ns_name c).0 a.status.pod_name (log_options q) w'').0 ≡ got s
      → s.bytes ≡ unlines lines
      → All Fits lines
      → (handle_get_logs env client c q w).0 ≡ whole (log_options q).follow s
  unfolding handle_get_logs answer_clientset answer_stream
  handle_get_logs-whole c q a k s lines w w' w'' found pod clientset opened bytes fits =
      let agent_lem =
        with_agent-found env (ns_name c).0 (ns_name c).1 (λ agent. answer_agent client c q agent) a
          w w' found in
      ap (λ (x : Response × W). x.0)
        (agent_lem ∙ answer_agent-got client c q a k w' w'' pod clientset)
      ∙ ap (answer_stream client q) opened
      ∙ deliver-whole (log_options q).follow s lines bytes fits
