-- ===== src/Net/Callbacks.antt =====
-- What client.cpp and serial.cpp share when handlers of the user call the endpoint back: a call is
-- both an input of the endpoint, as a step of its own, and part of the step in which it is made.
use mathlib.Core.List.{map}
use sephi.Base.{◌≡◌, ◌∙◌, ap, sym, refl, List, [], ◌∷◌, foldl, All}

module _ {S I C : Type 0} (step : S → I → S) (call : S → C → S) (input_of : C → I)
    (IsUp : S → Type 0) (call-IsUp : (s : S) (x : C) → IsUp s → IsUp (call s x))
    (call-step : (s : S) (x : C) → IsUp s → step s (input_of x) ≡ call s x) where
  pub calls-steps :
      (s : S) (calls : List C) → IsUp s → foldl step s (map input_of calls) ≡ foldl call s calls
  calls-steps s [] up = refl
  calls-steps s (x ∷ calls) up =
      ap (λ s'. foldl step s' (map input_of calls)) (call-step s x up)
      ∙ calls-steps (call s x) calls (call-IsUp s x up)

  -- The step, then the calls.
  pub after_step :
      (s t : S) (i : I) (calls : List C)
      → step s i ≡ t
      → IsUp t
      → foldl call t calls ≡ foldl step s (i ∷ map input_of calls)
  after_step s t i calls e up =
      sym (ap (λ t'. foldl step t' (map input_of calls)) e ∙ calls-steps t calls up)

module _ {S C : Type 0} (call : S → C → S) (f : S → S) (Keeps : C → Type 0)
    (call-commutes : (s : S) (x : C) → Keeps x → f (call s x) ≡ call (f s) x) where
  -- What commutes with a call commutes with calls.
  pub calls-commute :
      (s : S) (calls : List C) → All Keeps calls → f (foldl call s calls) ≡ foldl call (f s) calls
  calls-commute s [] keeps = refl
  calls-commute s (x ∷ calls) (k, keeps) =
      calls-commute (call s x) calls keeps ∙ ap (λ s'. foldl call s' calls) (call-commutes s x k)
