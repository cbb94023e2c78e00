-- ===== src/History/Laws.antt =====
-- What the code that uses a history relies on.
use k8sagent_orchestrator.Prelude.{String, ◌≡◌, Option, none, some, List, [], ◌∷◌}
use k8sagent_orchestrator.Api.{LifecycleEvent}
use k8sagent_orchestrator.History.{HistoryStore}

-- Type, reason and message of the newest event of a listing.
abbrev pub newest_of : List LifecycleEvent → Option (String × (String × String))
newest_of [] = none
newest_of (e ∷ []) = some (e.event_type, (e.reason, e.message))
newest_of (e ∷ f ∷ events) = newest_of (f ∷ events)

-- An event that was appended is the newest of its agent, and a listing ends with it and changes nothing.
pub record HistoryLaws {W : Type 0} (store : HistoryStore W) : Type 0 where
  pub newest : W → String → String → Option (String × (String × String))
  pub list-newest :
      (namespace name : String) (w : W)
      → newest_of (store.list namespace name w).0 ≡ newest w namespace name
  pub newest-append :
      (namespace name event_type reason message : String) (w : W)
      → newest (store.append namespace name event_type reason message w) namespace name
        ≡ some (event_type, (reason, message))
