-- ===== src/Rest/Environment.antt =====
-- internal/rest/handlers.go: the environment variables of an agent.
pub mod Merging
use k8sagent_orchestrator.Prelude.{
  ℕ, zero, suc, String, Bool, not, Option, none, some, List, [], ◌∷◌, ◌++◌, ◌==◌, map, length, set,
  keep, decimal, if◌then◌else◌, ◌<>◌,
}
use k8sagent_orchestrator.Prelude.Map
use k8sagent_orchestrator.Prelude.Map.{Map}
use k8sagent_orchestrator.Api.{Agent, EnvVar}
use k8sagent_orchestrator.Io.{Io, ◌>>=◌, ◌>>◌, pure}
use k8sagent_orchestrator.Kube.{Env}
use k8sagent_orchestrator.Rest.{
  Request, Response, Body, invalid, valid, env_body, respond_ok, respond_error, ns_name, with_agent,
  patched, emit, log_history,
}

-- `for i, e := range result { idx[e.Name] = i }`, from index `i` on
unfoldable pub index_from : ℕ → List EnvVar → Map ℕ → Map ℕ
index_from i [] idx = idx
index_from i (e ∷ result) idx = index_from (suc i) result (Map.insert e.name i idx)

-- The loop over the new variables. A new one stands at the index that the list had as its length.
unfoldable pub merge_from : List EnvVar → Map ℕ → List EnvVar → List EnvVar
merge_from result idx [] = result
merge_from result idx (nv ∷ new_vars) =
    let appended =
      merge_from (result ++ nv ∷ []) (Map.insert nv.name (length result) idx) new_vars in
    elim (Map.lookup nv.name idx) [
      | some i ↦ merge_from (set result i nv) idx new_vars
      | none ↦ appended
    ]

unfoldable pub merge_env_vars : List EnvVar → List EnvVar → List EnvVar
unfolding index_from merge_from
merge_env_vars existing new_vars = merge_from existing (index_from 0 existing []) new_vars

-- `%v` of a list of texts
joined : List String → String
joined [] = ""
joined (s ∷ []) = s
joined (s ∷ t ∷ rest) = s <> (" " <> joined (t ∷ rest))

unfoldable pub format_names : List String → String
unfolding joined
format_names names = "[" <> (joined names <> "]")

abbrev pub with_env : Agent → List EnvVar → Agent
with_env a vars = record a { spec = record a.spec { env = vars } }

-- The filter of `handleDeleteEnvKey`.
unfoldable pub without_var : String → List EnvVar → List EnvVar
without_var key vars = keep (λ e. not (e.name == key)) vars

module _ {W : Type 0} (e : Env W) where
  unfoldable pub handle_get_env : Request → Io W Response
  unfolding ns_name with_agent
  handle_get_env c =
      let (namespace, name) = ns_name c in
      with_agent e namespace name (λ a. pure (respond_ok (env_body a.spec.env)))

  unfoldable pub handle_set_env : Request → Body (List EnvVar) → Io W Response
  unfolding ns_name with_agent patched emit log_history
  handle_set_env c (invalid message) = pure (respond_error 400 ("invalid body: " <> message))
  handle_set_env c (valid vars) =
      let (namespace, name) = ns_name c in
      let text : String =
        "Env vars replaced via REST API ("
        <> (decimal (length vars) <> " vars, pod recreation triggered)") in
      with_agent e namespace name (λ a. patched e a (with_env a vars) (λ a'. do
        emit e a' "EnvReplaced" text
        log_history e namespace name "EnvReplaced" text
        pure (respond_ok (env_body a'.spec.env))))

  unfoldable pub handle_merge_env : Request → Body (List EnvVar) → Io W Response
  unfolding ns_name with_agent patched emit log_history merge_env_vars format_names
  handle_merge_env c (invalid message) = pure (respond_error 400 ("invalid body: " <> message))
  handle_merge_env c (valid vars) =
      let (namespace, name) = ns_name c in
      with_agent e namespace name (λ a.
        let merged = merge_env_vars a.spec.env vars in
        let text : String =
          "Env vars merged via REST API (upserted: "
          <> (format_names (map (λ v. v.name) vars)
              <> (", total: " <> (decimal (length merged) <> ", pod recreation triggered)"))) in
        patched e a (with_env a merged) (λ a'. do
          emit e a' "EnvMerged" text
          log_history e namespace name "EnvMerged" text
          pure (respond_ok (env_body a'.spec.env))))

  unfoldable pub handle_delete_env_key : (String → String) → Request → String → Io W Response
  unfolding ns_name with_agent patched emit log_history without_var
  handle_delete_env_key quoted c key =
      let (namespace, name) = ns_name c in
      let text : String =
        "Env var " <> (quoted key <> " removed via REST API (pod recreation triggered)") in
      with_agent e namespace name (λ a. patched e a (with_env a (without_var key a.spec.env)) (λ a'.
        do
          emit e a' "EnvDeleted" text
          log_history e namespace name "EnvDeleted" text
          pure (respond_ok (env_body a'.spec.env))))
