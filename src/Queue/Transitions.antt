-- ===== src/Queue/Transitions.antt =====
-- services/queue-service/internal/store/transitions.go.
use qms.Base.{String, Bool, true, false, Option, none, some, List, [], ◌∷◌, ◌=?◌, if◌then◌else◌}

unfoldable pub transition_map : List (String × List String)
transition_map =
    ("call_next", "waiting" ∷ [])
    ∷ ("start_serving", "called" ∷ [])
    ∷ ("complete", "serving" ∷ [])
    ∷ ("cancel", "waiting" ∷ [])
    ∷ ("hold", "waiting" ∷ [])
    ∷ ("unhold", "held" ∷ [])
    ∷ ("recall", "called" ∷ [])
    ∷ ("transfer", "waiting" ∷ "called" ∷ "serving" ∷ [])
    ∷ ("no_show", "called" ∷ [])
    ∷ []

-- A read of the map: the value, or that there is none.
allowed_from : String → List (String × List String) → Option (List String)
allowed_from action [] = none
allowed_from action ((a, statuses) ∷ rest) =
    if a =? action then some statuses else allowed_from action rest

-- The loop over the allowed statuses.
is_among : String → List String → Bool
is_among s [] = false
is_among s (t ∷ ts) = if t =? s then true else is_among s ts

unfoldable pub valid_transition : String → String → Bool
unfolding transition_map allowed_from is_among
valid_transition action from_status = elim (allowed_from action transition_map) [
  | none ↦ false
  | some allowed ↦ is_among from_status allowed
]
