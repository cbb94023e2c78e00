-- ===== src/Io.antt =====
-- Go code that acts on the world, as a function on the state of the world; and the results of calls.
use k8sagent_orchestrator.Prelude.{String, Bool, true, false, ◌≡◌, refl, ◌⊎◌, inl, inr}

abbrev pub Io : Type 0 → Type 0 → Type 0
Io W A = W → A × W

infixl 5 ◌>>=◌ ◌>>◌
abbrev pub ◌>>=◌ : {W A B : Type 0} → Io W A → (A → Io W B) → Io W B
◌>>=◌ m f w = let (a, w') = m w in f a w'

abbrev pub ◌>>◌ : {W B : Type 0} → (W → W) → Io W B → Io W B
◌>>◌ m n w = n (m w)

abbrev pub pure : {W A : Type 0} → A → Io W A
pure a w = (a, w)

-- What `k8s.io/apimachinery/pkg/api/errors` tells apart.
pub data Reason : Type 0 where
  not_found already_exists conflict other : Reason

pub record ApiError : Type 0 where
  pub reason : Reason
  pub text : String

abbrev pub is_not_found : ApiError → Bool
is_not_found e = elim e.reason [ Reason.not_found ↦ true | _ ↦ false ]

abbrev pub is_already_exists : ApiError → Bool
is_already_exists e = elim e.reason [ Reason.already_exists ↦ true | _ ↦ false ]

abbrev pub is_conflict : ApiError → Bool
is_conflict e = elim e.reason [ Reason.conflict ↦ true | _ ↦ false ]

pub data Result (A : Type 0) : Type 0 where
  ok : A → Result A
  err : ApiError → Result A

pub Result-cases :
    {A : Type 0} (x : Result A) → ((a : A) × (x ≡ ok a)) ⊎ ((e : ApiError) × (x ≡ err e))
Result-cases (ok a) = inl (a, refl)
Result-cases (err e) = inr (e, refl)
