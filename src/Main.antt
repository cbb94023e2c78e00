-- ===== src/Main.antt =====
-- cmd/main.go: the start of the program, as a function of its flags. The controller manager, the Redis
-- client and the process are parameters; log lines are left out.
pub mod Starting
pub mod Watching
use k8sagent_orchestrator.Prelude.{
  ℕ, ◌*◌, ◌≤◌, String, ◌≡◌, Bool, false, Option, none, some, List, [], ◌∷◌, ◌==◌, if◌then◌else◌,
  ltb,
}
use k8sagent_orchestrator.Prelude.Int.{ℤ, pos, ◌*ℤ◌, wrap64}
use k8sagent_orchestrator.Io.{Io, ◌>>=◌, ◌>>◌, pure}
use k8sagent_orchestrator.Rest.Wake.{second}
use k8sagent_orchestrator.Idle.{Watcher}

-- The flags that `flag.Parse` fills; an `int` has 64 bits.
pub record Flags : Type 0 where
  pub metrics_addr : String
  pub probe_addr : String
  pub rest_addr : String
  pub default_namespace : String
  pub leader_elect : Bool
  pub debug : Bool
  pub idle_timeout_default : ℤ
  pub idle_check_interval : ℤ
  pub ui_addr : String
  pub redis_addr : String
  pub redis_password : String
  pub redis_db : ℤ
  pub history_max_entries : ℤ

-- What the flags are where the command line gives none.
abbrev pub default_flags : Flags
default_flags = record {
  metrics_addr = ":8080";
  probe_addr = ":8081";
  rest_addr = ":8082";
  default_namespace = "default";
  leader_elect = false;
  debug = false;
  idle_timeout_default = pos 0;
  idle_check_interval = pos 30;
  ui_addr = ":8083";
  redis_addr = "";
  redis_password = "";
  redis_db = pos 0;
  history_max_entries = pos 1000;
}

-- `ctrl.Options`, with the namespaces that the client's cache is limited to; none means all.
pub record ManagerOptions : Type 0 where
  pub metrics_addr : String
  pub cached_namespaces : List String
  pub probe_addr : String
  pub leader_elect : Bool

-- `redis.Options`
pub record RedisOptions : Type 0 where
  pub addr : String
  pub password : String
  pub db : ℤ

-- The cache and the history of the program.
pub data Stores : Type 0 where
  redis_stores : RedisOptions → (max_entries : ℤ) → Stores
  in_memory_stores : (max_entries : ℤ) → Stores

-- A `go` statement of `main`: the REST server, the web page and the watcher, with what they are built from.
pub data Goroutine : Type 0 where
  rest_server : (addr namespace : String) (debug : Bool) → Watcher → Stores → Goroutine
  web_ui : (addr : String) → Goroutine
  idle_watcher : Watcher → Stores → Goroutine

-- Each call gives the text of its error, if there is one. `get_config` is `ctrl.GetConfigOrDie`, which exits
-- with 1 on an error, and `start` returns when the manager stops.
pub record Platform (W : Type 0) : Type 0 where
  pub getenv : String → Io W String
  pub get_config : Io W (Option String)
  pub new_manager : ManagerOptions → Io W (Option String)
  pub ping : RedisOptions → Io W (Option String)
  pub set_up_controller : Stores → Io W (Option String)
  pub add_healthz_check : Io W (Option String)
  pub add_readyz_check : Io W (Option String)
  pub spawn : Goroutine → W → W
  pub start : Io W (Option String)

-- The default namespace, unless WATCH_NAMESPACE names another.
unfoldable pub namespace_of : Flags → (watch_namespace : String) → String
namespace_of flags watch_namespace =
    if watch_namespace == "" then flags.default_namespace else watch_namespace

unfoldable pub manager_options : Flags → (default_namespace : String) → ManagerOptions
manager_options flags default_namespace = record {
  metrics_addr = flags.metrics_addr;
  cached_namespaces = if default_namespace == "" then [] else default_namespace ∷ [];
  probe_addr = flags.probe_addr;
  leader_elect = flags.leader_elect;
}

unfoldable pub redis_options : Flags → RedisOptions
redis_options flags = record {
  addr = flags.redis_addr;
  password = flags.redis_password;
  db = flags.redis_db;
}

-- `time.Duration(n) * time.Second`, twice
unfoldable pub watcher_of : Flags → Watcher
watcher_of flags = record {
  global_timeout = wrap64 (flags.idle_timeout_default *ℤ pos second);
  check_interval = wrap64 (flags.idle_check_interval *ℤ pos second);
}

module _ {W : Type 0} (platform : Platform W) where
  -- `if err := step; err != nil { os.Exit(1) }`: the code of the exit, or what follows.
  unfoldable pub or_exit : Io W (Option String) → Io W ℕ → Io W ℕ
  or_exit step next = do failure ← step; elim failure [ none ↦ next | some _ ↦ pure 1 ]

  unfoldable pub with_stores : Flags → (Stores → Io W ℕ) → Io W ℕ
  unfolding or_exit redis_options
  with_stores flags next =
      if flags.redis_addr == ""
      then next (in_memory_stores flags.history_max_entries)
      else or_exit (platform.ping (redis_options flags))
          (next (redis_stores (redis_options flags) flags.history_max_entries))

  -- The three `go` statements, and the manager, until it stops. Both branches of the test of the idle timeout
  -- start the watcher.
  unfoldable pub run : Flags → (default_namespace : String) → Stores → Io W ℕ
  unfolding or_exit watcher_of
  run flags default_namespace stores = do
    platform.spawn
        (rest_server flags.rest_addr default_namespace flags.debug (watcher_of flags) stores)
    platform.spawn (web_ui flags.ui_addr)
    platform.spawn (idle_watcher (watcher_of flags) stores)
    or_exit platform.start (pure 0)

  -- The exit code of the program.
  unfoldable pub main : Flags → Io W ℕ
  unfolding or_exit with_stores run namespace_of manager_options
  main flags = do
    watch_namespace ← platform.getenv "WATCH_NAMESPACE"
    or_exit platform.get_config (
        or_exit (platform.new_manager (manager_options flags (namespace_of flags watch_namespace)))
          (with_stores flags (λ stores. or_exit (platform.set_up_controller stores) (
            or_exit platform.add_healthz_check (
              or_exit platform.add_readyz_check
                (run flags (namespace_of flags watch_namespace) stores))))))
