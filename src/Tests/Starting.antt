-- ===== src/Tests/Starting.antt =====
-- The theorems on the start of the program, with its default flags.
use k8sagent_orchestrator.Prelude.{none, some}
use k8sagent_orchestrator.Main.{Platform}

-- A platform on which everything works but Redis, for the namespace "agents".
abbrev platform : Platform Unit
platform = record {
  getenv = λ name w. ("agents", w);
  get_config = λ w. (none, w);
  new_manager = λ options w. (none, w);
  ping = λ options w. (some "refused", w);
  set_up_controller = λ stores w. (none, w);
  add_healthz_check = λ w. (none, w);
  add_readyz_check = λ w. (none, w);
  spawn = λ g w. w;
  start = λ w. (none, w);
}
