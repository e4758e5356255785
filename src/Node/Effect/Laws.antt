-- ===== src/Node/Effect/Laws.antt =====
-- What a plan leaves behind when it runs: all its steps, or those up to the one that ended it.
use mathlib.Core.List.{append-nil, append_assoc, map-append}
use paseo_node.Base.{
  ◌≡◌, refl, ap, ◌∙◌, Bool, true, false, List, [], ◌∷◌, ◌++◌, map, All, ◌≢◌, ◌⊎◌, inl, inr,
}
use paseo_node.Node.Effect.{
  Mode, infallible, fallible, required, Exit, done, failed, panicked, Verdict, accepts, refuses,
  Oracle, Program, judge, next, perform, run,
}

-- The plan of a conditional block.
abbrev pub planned {ℓ} : {A : Type ℓ} → Bool → List A → List A
planned true plan = plan
planned false plan = []

unfoldable pub steps : {S : Type 0} → List (Mode × S) → List S
steps = map (λ p. p.1)

pub All-planned :
    {A : Type 0} (P : A → Type 0) (test : Bool) (plan : List A)
    → (test ≡ true → All P plan)
    → All P (planned test plan)
All-planned P true plan h = h refl
All-planned P false plan h = tt

pub steps-append : {S : Type 0} (xs ys : List (Mode × S)) → steps (xs ++ ys) ≡ steps xs ++ steps ys
unfolding steps
steps-append xs ys = map-append _ xs ys

-- A verdict lets the run go on, or its refusal ends it.
abbrev Refusal : (S : Type 0) {E : Type 0} → Mode → Verdict E → Type 0
Refusal S {E} mode v =
    (e : E) × (v ≡ refuses e)
    × (judge mode (refuses e) ≢ done tt)
    × ((o : Oracle S E) (t : List S) (k : Unit {0} → Program S E (Unit {0}))
        → next o (judge mode (refuses e), t) k ≡ (judge mode (refuses e), t))

judge_cases :
    (S : Type 0) {E : Type 0} (mode : Mode) (v : Verdict E)
    → (judge mode v ≡ done tt) ⊎ Refusal S mode v
judge_cases S infallible v = inl refl
judge_cases S fallible accepts = inl refl
judge_cases S fallible (refuses e) = inr (e, refl, cc, λ o t k. refl)
judge_cases S required accepts = inl refl
judge_cases S required (refuses e) = inr (e, refl, cc, λ o t k. refl)

module _ {S E : Type 0} where
  run_append_from :
      (xs ys : List (Mode × S)) (o : Oracle S E) (r : Exit (Unit {0}) E × List S)
      → ((t : List S) → run (xs ++ ys) o t ≡ next o (run xs o t) (λ _. run ys))
      → next o r (λ _. run (xs ++ ys)) ≡ next o (next o r (λ _. run xs)) (λ _. run ys)
  run_append_from xs ys o (done a, t) h = h t
  run_append_from xs ys o (failed e, t) h = refl
  run_append_from xs ys o (panicked, t) h = refl

  -- A plan in two parts runs the second after the first, if that is done.
  pub run-append :
      (xs ys : List (Mode × S)) (o : Oracle S E) (t : List S)
      → run (xs ++ ys) o t ≡ next o (run xs o t) (λ _. run ys)
  unfolding run
  run-append [] ys o t = refl
  run-append ((mode, s) ∷ xs) ys o t =
      run_append_from xs ys o (perform mode s o t) (run-append xs ys o)

  -- A plan that a step ended: the steps before it were made, the oracle refused it, and its mode
  -- lets a refusal end the run.
  pub record Stops (plan : List (Mode × S)) (o : Oracle S E) (t : List S) : Type 0 where
    pub before : List (Mode × S)
    pub mode : Mode
    pub at : S
    pub after : List (Mode × S)
    pub error : E
    pub split : plan ≡ before ++ ((mode, at) ∷ after)
    pub refused : o (t ++ steps before) at ≡ refuses error
    pub ends : judge mode (refuses error) ≢ done tt
    pub result : run plan o t ≡ (judge mode (refuses error), t ++ (steps before ++ (at ∷ [])))

  Stops-here :
      (mode : Mode) (s : S) (plan : List (Mode × S)) (o : Oracle S E) (t : List S) (e : E)
      → o t s ≡ refuses e
      → judge mode (refuses e) ≢ done tt
      → next o (judge mode (refuses e), t ++ (s ∷ [])) (λ _. run plan)
        ≡ (judge mode (refuses e), t ++ (s ∷ []))
      → Stops ((mode, s) ∷ plan) o t
  unfolding run perform steps
  Stops-here mode s plan o t e refused ends stuck = record {
    before = [];
    mode = mode;
    at = s;
    after = plan;
    error = e;
    split = refl;
    refused = rw (append-nil t) refused;
    ends = ends;
    result = rw refused stuck;
  }

  Stops-later :
      (mode : Mode) (s : S) (plan : List (Mode × S)) (o : Oracle S E) (t : List S)
      → perform mode s o t ≡ (done tt, t ++ (s ∷ []))
      → Stops plan o (t ++ (s ∷ []))
      → Stops ((mode, s) ∷ plan) o t
  unfolding run steps
  Stops-later mode s plan o t passed c = record {
    before = (mode, s) ∷ c.before;
    mode = c.mode;
    at = c.at;
    after = c.after;
    error = c.error;
    split = ap (λ r. (mode, s) ∷ r) c.split;
    refused = rw (← append_assoc t (s ∷ []) (steps c.before)) c.refused;
    ends = c.ends;
    result = rw passed (
        c.result
        ∙ ap (λ l. (judge c.mode (refuses c.error), l))
            (append_assoc t (s ∷ []) (steps c.before ++ (c.at ∷ []))));
  }

  -- A run makes all the steps of its plan and is done, or stops at a step that was refused. An
  -- infallible step never ends it.
  pub run_outcome :
      (plan : List (Mode × S)) (o : Oracle S E) (t : List S)
      → (run plan o t ≡ (done tt, t ++ steps plan)) ⊎ Stops plan o t
  unfolding run steps perform
  run_outcome [] o t = inl (rw append-nil)
  run_outcome ((mode, s) ∷ plan) o t = elim (judge_cases S mode (o t s)) [
    | inl passed ↦ elim (run_outcome plan o (t ++ (s ∷ []))) [
      | inl all ↦
          inl (rw passed (all ∙ ap (λ l. (done tt, l)) (append_assoc t (s ∷ []) (steps plan))))
      | inr c ↦ inr (Stops-later mode s plan o t (rw passed) c)
    ]
    | inr (e, refused, ends, stuck) ↦
        inr (Stops-here mode s plan o t e refused ends (stuck o (t ++ (s ∷ [])) (λ _. run plan)))
  ]
