-- ===== src/Rest/Logs.antt =====
-- internal/rest/handlers.go: `handleGetLogs` and `rawClientset`; internal/rest/kubeconfig.go. The Kubernetes
-- client that opens a log is a parameter, with the files and variables that it is configured from.
pub mod Numbers
pub mod Following
pub mod Answers
use k8sagent_orchestrator.Prelude.{
  ℕ, zero, suc, ◌+◌, String, Bool, true, false, Option, none, some, List, [], ◌∷◌, ◌++◌, ◌==◌, eqb,
  ltb, leb, if◌then◌else◌, ◌<>◌,
}
use k8sagent_orchestrator.Prelude.Int.{ℤ, pos, negsuc, two63}
use k8sagent_orchestrator.Api.{Agent}
use k8sagent_orchestrator.Io.{Io, ◌>>=◌, pure}
use k8sagent_orchestrator.Kube.{Env}
use k8sagent_orchestrator.Rest.{
  Request, Response, bytes_body, respond_ok, respond_error, ns_name, with_agent,
}
use k8sagent_orchestrator.Rest.Wake.{atoi}

-- A value, or the text of an error.
pub data Answer (A : Type 0) : Type 0 where
  got : A → Answer A
  failed : String → Answer A

-- `corev1.PodLogOptions`
pub record PodLogOptions : Type 0 where
  pub container : String
  pub tail_lines : ℤ
  pub follow : Bool
  pub since_seconds : Option ℤ

-- What a log stream gives: its bytes, and the error that ends it if it does not end by itself.
pub record LogStream : Type 0 where
  pub bytes : List ℕ
  pub failure : Option String

-- Configurations `C` and clientsets `K` of client-go, and what the process runs in.
pub record Client (W C K : Type 0) : Type 0 where
  pub in_cluster_config : Io W (Answer C)
  pub getenv : String → Io W String
  pub user_home_dir : Io W (Option String)
  pub build_config_from_flags : String → Io W (Answer C)
  pub new_for_config : C → Io W (Answer K)
  pub stream : K → (namespace pod_name : String) → PodLogOptions → Io W (Answer LogStream)

-- The query parameters; `container` is `none` where it is not given.
pub record LogQuery : Type 0 where
  pub tail_lines : String
  pub since_seconds : String
  pub container : Option String
  pub follow : String

-- `strconv.ParseInt(s, 10, 64)`: an error out of the range of `int64`.
unfoldable pub in_range : ℤ → Option ℤ
in_range (pos n) = if ltb n two63 then some (pos n) else none
in_range (negsuc n) = if ltb n two63 then some (negsuc n) else none

unfoldable pub parse_int : String → Option ℤ
unfolding in_range
parse_int s = elim (atoi s) [ none ↦ none | some n ↦ in_range n ]

unfoldable pub log_options : LogQuery → PodLogOptions
unfolding parse_int
log_options q = record {
  container = elim q.container [ none ↦ "agent" | some name ↦ name ];
  tail_lines =
      if q.tail_lines == ""
      then pos 100
      else elim (parse_int q.tail_lines) [ none ↦ pos 100 | some n ↦ n ];
  follow = q.follow == "true";
  since_seconds = if q.since_seconds == "" then none else parse_int q.since_seconds;
}

-- `bufio.MaxScanTokenSize`
abbrev pub max_token : ℕ
max_token = 65536

abbrev pub newline : ℕ
newline = 10

abbrev pub carriage_return : ℕ
carriage_return = 13

-- A line without the `\r` at its end.
unfoldable pub drop_cr : List ℕ → List ℕ
drop_cr [] = []
drop_cr (b ∷ []) = if eqb b carriage_return then [] else b ∷ []
drop_cr (b ∷ (c ∷ bs)) = b ∷ drop_cr (c ∷ bs)

-- `bufio.Scanner` over a stream, with `line` read since the last newline, `count` bytes: the buffer holds
-- `max_token` bytes, and a scan stops when they hold no newline. What is left when the stream ends is a
-- last line.
unfoldable pub scan : (line : List ℕ) → (count : ℕ) → List ℕ → List (List ℕ)
unfolding drop_cr
scan [] count [] = []
scan (b ∷ line) count [] = drop_cr (b ∷ line) ∷ []
scan line count (b ∷ bs) =
    let next = scan [] 0 bs in
    let more = scan (line ++ b ∷ []) (count + 1) bs in
    if eqb b newline then drop_cr line ∷ next else if ltb (count + 1) max_token then more else []

-- `fmt.Fprintf(c.Writer, "%s\n", line)` for every line
abbrev pub unlines : List (List ℕ) → List ℕ
unlines [] = []
unlines (line ∷ lines) = line ++ newline ∷ unlines lines

-- The loop that follows a log.
unfoldable pub followed : List ℕ → List ℕ
unfolding scan
followed bytes = unlines (scan [] 0 bytes)

-- The answer from an open stream.
unfoldable pub deliver : Bool → LogStream → Response
unfolding followed
deliver follow s = if follow then respond_ok (bytes_body (followed s.bytes)) else elim s.failure [
  | none ↦ respond_ok (bytes_body s.bytes)
  | some e ↦ respond_error 500 ("error reading logs: " <> e)
]

module _ {W C K : Type 0} (client : Client W C K) where
  -- The path of the configuration file.
  unfoldable pub kubeconfig_path : Io W String
  kubeconfig_path = do
    kubeconfig ← client.getenv "KUBECONFIG"
    if kubeconfig == ""
        then (do
          home ← client.user_home_dir
          pure (elim home [ none ↦ "" | some dir ↦ dir <> "/.kube/config" ]))
        else pure kubeconfig

  unfoldable pub get_rest_config : Io W (Answer C)
  unfolding kubeconfig_path
  get_rest_config = do
    cfg ← client.in_cluster_config
    elim cfg [
      | got c ↦ pure (got c)
      | failed _ ↦ kubeconfig_path >>= (λ path. client.build_config_from_flags path)
    ]

  unfoldable pub raw_clientset : Io W (Answer K)
  unfolding get_rest_config
  raw_clientset = do
    cfg ← get_rest_config
    elim cfg [ got c ↦ client.new_for_config c | failed e ↦ pure (failed e) ]

  -- The handler from the opened stream on, from the clientset on, and from the agent on.
  unfoldable pub answer_stream : LogQuery → Answer LogStream → Response
  unfolding deliver log_options
  answer_stream q (failed e) = respond_error 500 ("error opening log stream: " <> e)
  answer_stream q (got s) = deliver (log_options q).follow s

  unfoldable pub answer_clientset : Request → LogQuery → Agent → Answer K → Io W Response
  unfolding answer_stream ns_name log_options
  answer_clientset c q agent (failed e) =
      pure (respond_error 500 ("failed to create k8s clientset: " <> e))
  answer_clientset c q agent (got cs) = do
    opened ← client.stream cs (ns_name c).0 agent.status.pod_name (log_options q)
    pure (answer_stream q opened)

  unfoldable pub answer_agent : Request → LogQuery → Agent → Io W Response
  unfolding answer_clientset raw_clientset
  answer_agent c q agent =
      if agent.status.pod_name == ""
      then pure (respond_error 404 "agent has no running pod")
      else raw_clientset >>= (λ clientset. answer_clientset c q agent clientset)

module _ {W C K : Type 0} (env : Env W) (client : Client W C K) where
  unfoldable pub handle_get_logs : Request → LogQuery → Io W Response
  unfolding ns_name with_agent answer_agent
  handle_get_logs c q =
      with_agent env (ns_name c).0 (ns_name c).1 (λ agent. answer_agent client c q agent)
