-- ===== src/Main/Starting.antt =====
-- What the program starts.
use k8sagent_orchestrator.Prelude.{String, List, [], ◌∷◌, ◌==◌, if◌then◌else◌}
use k8sagent_orchestrator.Io.{Io}
use k8sagent_orchestrator.Main.{
  Flags, Platform, Stores, Goroutine, rest_server, web_ui, idle_watcher, redis_stores,
  in_memory_stores, redis_options, watcher_of,
}

abbrev lifted : {W A : Type 0} → Io W A → Io (W × List Goroutine) A
lifted step (w, started) = let (a, w') = step w in (a, (w', started))

-- The platform with the list of what was started, the newest first.
abbrev pub traced : {W : Type 0} → Platform W → Platform (W × List Goroutine)
traced platform = record {
  getenv = λ name. lifted (platform.getenv name);
  get_config = lifted platform.get_config;
  new_manager = λ options. lifted (platform.new_manager options);
  ping = λ options. lifted (platform.ping options);
  set_up_controller = λ stores. lifted (platform.set_up_controller stores);
  add_healthz_check = lifted platform.add_healthz_check;
  add_readyz_check = lifted platform.add_readyz_check;
  spawn = λ g (w, started). (platform.spawn g w, g ∷ started);
  start = lifted platform.start;
}

-- The stores that the flags ask for.
abbrev pub stores_of : Flags → Stores
stores_of flags =
    if flags.redis_addr == ""
    then in_memory_stores flags.history_max_entries
    else redis_stores (redis_options flags) flags.history_max_entries

-- The watcher, the web page and the REST server, over one pair of stores.
abbrev pub all_of : Flags → (namespace : String) → List Goroutine
all_of flags namespace =
    idle_watcher (watcher_of flags) (stores_of flags)
    ∷ web_ui flags.ui_addr
    ∷ rest_server flags.rest_addr namespace flags.debug (watcher_of flags) (stores_of flags)
    ∷ []
