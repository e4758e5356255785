-- ===== src/Node/Effect/Within.antt =====
-- A program that is part of one over more steps.
use mathlib.Core.List.{append_assoc, map-append, append-nil}
use paseo_node.Base.{◌≡◌, refl, sym, ap, ◌∙◌, List, [], ◌∷◌, ◌++◌, map}
use paseo_node.Node.Effect.{
  Mode, Exit, done, failed, panicked, Oracle, Program, judge, next, return, perform, run,
}
use paseo_node.Node.Effect.Follows.{Follows}

module _ {R S : Type 0} (f : R → S) where
  abbrev pub taken : List (Mode × R) → List (Mode × S)
  taken = map (λ p. (p.0, f p.1))

  longer :
      (t : List S) (u : List R) (r : R) → (t ++ map f u) ++ (f r ∷ []) ≡ t ++ map f (u ++ (r ∷ []))
  longer t u r =
      append_assoc t (map f u) (f r ∷ []) ∙ ap (λ l. t ++ l) (sym (map-append f u (r ∷ [])))

module _ {R S E : Type 0} (f : R → S) where
  -- The part's steps are taken for steps of the whole, whose oracle judges them.
  abbrev pub inside : Oracle S E → List S → Oracle R E
  inside o t u r = o (t ++ map f u) (f r)

  abbrev pub widen {ℓ} : {A : Type ℓ} → List S → Exit A E × List R → Exit A E × List S
  widen t (x, u) = (x, t ++ map f u)

  unfoldable pub within {ℓ} : {A : Type ℓ} → Program R E A → Program S E A
  within m o t = widen t (m (inside o t) [])

  taken_step :
      (plan : List (Mode × R)) (o : Oracle S E) (t : List S) (u : List R) (v : List S)
      (x : Exit (Unit {0}) E)
      → v ≡ t ++ map f u
      → (run (taken f plan) o (t ++ map f u) ≡ widen t (run plan (inside o t) u))
      → next {0, 0} {A = Unit {0}} o (x, v) (λ _. run (taken f plan))
        ≡ widen t (next {0, 0} {A = Unit {0}} (inside o t) (x, u) (λ _. run plan))
  taken_step plan o t u v (done tt) e h = rw e h
  taken_step plan o t u v (failed x) e h = rw e refl
  taken_step plan o t u v panicked e h = rw e refl

  run-taken :
      (plan : List (Mode × R)) (o : Oracle S E) (t : List S) (u : List R)
      → run (taken f plan) o (t ++ map f u) ≡ widen t (run plan (inside o t) u)
  unfolding run perform
  run-taken [] o t u = refl
  run-taken ((mode, r) ∷ plan) o t u =
      taken_step plan o t (u ++ (r ∷ [])) _ (judge mode (o (t ++ map f u) (f r))) (longer f t u r)
        (run-taken plan o t (u ++ (r ∷ [])))

  widen-next {ℓ} :
      {A : Type ℓ} (a : A) (o : Oracle S E) (t : List S) (r : Exit (Unit {0}) E × List R)
      → widen t (next (inside o t) r (λ _. return a)) ≡ next o (widen t r) (λ _. return a)
  widen-next a o t (done tt, u) = refl
  widen-next a o t (failed e, u) = refl
  widen-next a o t (panicked, u) = refl

  pub Follows-within {ℓ} :
      {A : Type ℓ} {m : Program R E A} {plan : List (Mode × R)} {a : A}
      → Follows m plan a
      → Follows (within m) (taken f plan) a
  unfolding within
  Follows-within {m} {plan} {a} h = record {
    same_run = λ o t.
        ap (widen t) (h.same_run (inside o t) [])
        ∙ widen-next a o t (run plan (inside o t) [])
        ∙ ap (λ r. next o r (λ _. return a))
            (sym (run-taken plan o t []) ∙ ap (run (taken f plan) o) (append-nil t));
  }
