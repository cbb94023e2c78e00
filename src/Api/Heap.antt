-- ===== src/Api/Heap.antt =====
-- The memory that the structures of api/v1alpha1 point into: a slice, a map or a pointer is nil or an
-- address. A slice stands for its whole array. `E` is `corev1.EnvVar`, `F` any other foreign structure,
-- and `T` a pointer to a `metav1.Time`.
use k8sagent_orchestrator.Prelude.{
  ℕ, ◌+◌, ◌≤◌, ◌<◌, String, ◌≡◌, refl, ◌∙◌, Bool, Option, List, arith, if◌then◌else◌, eqb, ◌⊎◌, inr,
}
use k8sagent_orchestrator.Prelude.Int.{ℤ}
use k8sagent_orchestrator.Prelude.Map.{Map}
use k8sagent_orchestrator.Api.{AgentCondition, LifecycleEvent}

-- `AgentSpec` in memory, `int32` and text fields by value.
pub record SpecCell (E F : Type 0) : Type 0 where
  pub image : String
  pub image_pull_policy : String
  pub image_pull_secrets : Option ℕ
  pub env : Option ℕ
  pub env_from : Option ℕ
  pub resources : F
  pub service_account_name : String
  pub command : Option ℕ
  pub args : Option ℕ
  pub volumes : Option ℕ
  pub volume_mounts : Option ℕ
  pub restart_policy : String
  pub pod_labels : Option ℕ
  pub pod_annotations : Option ℕ
  pub paused : Bool
  pub self_healing_disabled : Bool
  pub service_port : ℤ
  pub service_protocol : String
  pub idle_timeout : ℤ

pub record StatusCell (T : Type 0) : Type 0 where
  pub phase : String
  pub pod_name : String
  pub pod_ip : String
  pub message : String
  pub observed_generation : ℕ
  pub last_updated : Option T
  pub conditions : Option ℕ
  pub restored_at : Option T
  pub restored_from : String
  pub service_name : String

-- `Agent`, with the metadata as a foreign structure.
pub record AgentCell (E F T : Type 0) : Type 0 where
  pub meta : F
  pub spec : SpecCell E F
  pub status : StatusCell T

pub record AgentListCell (F : Type 0) : Type 0 where
  pub meta : F
  pub agents : Option ℕ

pub data Cell (E F T : Type 0) : Type 0 where
  free : Cell E F T
  texts : List String → Cell E F T
  labels : Map String → Cell E F T
  envs : List E → Cell E F T
  items : List F → Cell E F T
  condition_items : List AgentCondition → Cell E F T
  a_condition : AgentCondition → Cell E F T
  an_event : LifecycleEvent → Cell E F T
  a_spec : SpecCell E F → Cell E F T
  a_status : StatusCell T → Cell E F T
  an_agent : AgentCell E F T → Cell E F T
  agent_items : List (AgentCell E F T) → Cell E F T
  an_agent_list : AgentListCell F → Cell E F T

pub record Heap (E F T : Type 0) : Type 0 where
  pub cells : ℕ → Cell E F T
  pub next : ℕ

module _ {E F T : Type 0} where
  abbrev pub alloc : Cell E F T → Heap E F T → ℕ × Heap E F T
  alloc c h =
      (h.next, record { cells = λ a. if eqb a h.next then c else h.cells a; next = h.next + 1 })

  abbrev pub write : ℕ → Cell E F T → Heap E F T → Heap E F T
  write a c h = record h { cells = λ b. if eqb b a then c else h.cells b }

  -- Two memories hold the same from `lo` up to `hi`.
  abbrev pub Agrees : (lo hi : ℕ) → Heap E F T → Heap E F T → Type 0
  Agrees lo hi h h' = (a : ℕ) → lo ≤ a → a < hi → h'.cells a ≡ h.cells a

  -- Only new cells are written.
  abbrev pub Extends : Heap E F T → Heap E F T → Type 0
  Extends h h' = (h.next ≤ h'.next) × Agrees 0 h.next h h'

  pub Extends-refl : (h : Heap E F T) → Extends h h
  Extends-refl h = (omega arith, λ a p q. refl)

  pub Extends-trans : (h h' h'' : Heap E F T) → Extends h h' → Extends h' h'' → Extends h h''
  Extends-trans h h' h'' (p, f) (q, g) =
      (omega arith, λ a u v. g a (omega arith) (omega arith) ∙ f a u v)

  pub Extends-alloc : (c : Cell E F T) (h : Heap E F T) → Extends h (alloc c h).1
  Extends-alloc c h = (omega arith, λ a p q. ground arith)

  pub cells-write : (a : ℕ) (c : Cell E F T) (h : Heap E F T) → (write a c h).cells a ≡ c
  cells-write a c h = ground arith

  -- A write outside of a range leaves the range as it is.
  pub Agrees-write :
      (lo hi a : ℕ) (c : Cell E F T) (h : Heap E F T)
      → (a < lo ⊎ hi ≤ a)
      → Agrees lo hi h (write a c h)
  Agrees-write lo hi a c h out b p q = ground arith

  pub Extends-write :
      (h h' : Heap E F T) (a : ℕ) (c : Cell E F T)
      → Extends h h'
      → h.next ≤ a
      → Extends h (write a c h')
  Extends-write h h' a c (p, e) q =
      (p, λ b u v. Agrees-write 0 h.next a c h' (inr q) b u v ∙ e b u v)
