-- ===== src/Node/Effect/Made.antt =====
-- The steps that a program has made when it ends, by the plan that it follows.
use mathlib.Core.List.{append-nil, append_assoc}
use paseo_node.Base.{◌≡◌, refl, sym, ap, ◌∙◌, List, [], ◌∷◌, ◌++◌, inl, inr}
use paseo_node.Node.Effect.{Mode, Exit, done, failed, panicked, Oracle, Program, next, return, run}
use paseo_node.Node.Effect.Laws.{steps, steps-append, run_outcome}
use paseo_node.Node.Effect.Follows.{Follows}

module _ {S E : Type 0} {m : Program S E (Unit {0})} {plan : List (Mode × S)}
    (h : Follows m plan tt) where
  result_of_run :
      (o : Oracle S E) (r : Exit (Unit {0}) E × List S)
      → next {0, 0} {A = Unit {0}} o r (λ _. return tt) ≡ r
  result_of_run o (done tt, t) = refl
  result_of_run o (failed e, t) = refl
  result_of_run o (panicked, t) = refl

  pub as_planned : (o : Oracle S E) → m o [] ≡ run plan o []
  as_planned o = h.same_run o [] ∙ result_of_run o (run plan o [])

  -- When it is done it has made all of them.
  pub done_steps : (o : Oracle S E) → (m o []).0 ≡ done tt → (m o []).1 ≡ steps plan
  done_steps o finished = elim (run_outcome plan o []) [
    | inl all ↦ ap (λ r. r.1) (as_planned o ∙ all)
    | inr stop ↦ absurd (stop.ends (sym (ap (λ r. r.0) (as_planned o ∙ stop.result)) ∙ finished))
  ]

  -- They stand first in the plan.
  pub made_steps : (o : Oracle S E) → (rest : List S) × ((m o []).1 ++ rest ≡ steps plan)
  unfolding steps
  made_steps o = elim (run_outcome plan o []) [
    | inl all ↦ ([], append-nil _ ∙ ap (λ r. r.1) (as_planned o ∙ all))
    | inr stop ↦ (
      steps stop.after,
      ap (λ r. r.1 ++ steps stop.after) (as_planned o ∙ stop.result)
          ∙ append_assoc (steps stop.before) (stop.at ∷ []) (steps stop.after)
          ∙ sym (steps-append stop.before ((stop.mode, stop.at) ∷ stop.after))
          ∙ sym (ap steps stop.split),
    )
  ]
