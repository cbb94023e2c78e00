-- ===== src/Tests/Logs.antt =====
-- The theorems on the log endpoint, at a log of two lines.
use k8sagent_orchestrator.Prelude.{
  ℕ, ◌≡◌, refl, String, none, some, List, [], ◌∷◌, ◌++◌, arith, All, decimal, eq_iff,
}
use k8sagent_orchestrator.Api.{Agent}
use k8sagent_orchestrator.Rest.{Request, bytes_body, respond_ok}
use k8sagent_orchestrator.Rest.Logs.{
  Client, LogQuery, LogStream, got, failed, handle_get_logs, raw_clientset, unlines, followed,
}
use k8sagent_orchestrator.Rest.Logs.Following.{Fits, followed-cut}
use k8sagent_orchestrator.Rest.Logs.Answers.{handle_get_logs-whole}
use k8sagent_orchestrator.Tests.World.{World, cluster, agent, with_agents}

-- "hi" and "ok"
abbrev lines : List (List ℕ)
lines = (104 ∷ 105 ∷ []) ∷ (111 ∷ 107 ∷ []) ∷ []

fits : All Fits lines
fits = ground arith

abbrev log : LogStream
log = record { bytes = unlines lines; failure = none }

-- The process does not run in a cluster, and has a home directory.
abbrev client : Client World String String
client = record {
  in_cluster_config = λ w. (failed "not in a cluster", w);
  getenv = λ name w. ("", w);
  user_home_dir = λ w. (some "/root", w);
  build_config_from_flags = λ path w. (got path, w);
  new_for_config = λ config w. (got config, w);
  stream = λ cs namespace pod_name options w. (got log, w);
}

abbrev running_agent : Agent
running_agent = record agent { status = record agent.status { pod_name = "demo-1" } }

abbrev world : World
world = with_agents (running_agent ∷ []) []

abbrev request : Request
request = record { namespace = ""; name = "demo"; default_namespace = "default" }

abbrev query : LogQuery
query = record {
  tail_lines = decimal 20;
  since_seconds = decimal 60;
  container = none;
  follow = "true";
}

clientset : raw_clientset client world ≡ (got "/root/.kube/config", world)
unfolding raw_clientset
clientset = refl

handle_get_logs-whole_example :
    (handle_get_logs cluster client request query world).0 ≡ respond_ok (bytes_body (unlines lines))
handle_get_logs-whole_example =
    handle_get_logs-whole cluster client request query running_agent "/root/.kube/config" log lines
      world world world refl (λ e. ground (arith, (eq_iff "demo-1" "").1 e)) clientset refl refl
      fits

followed-cut_example : followed (unlines lines ++ (33 ∷ [])) ≡ unlines lines ++ (33 ∷ 10 ∷ [])
followed-cut_example = (followed-cut lines (33 ∷ []) fits (ground arith)).0 (ground arith)
