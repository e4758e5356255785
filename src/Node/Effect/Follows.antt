-- ===== src/Node/Effect/Follows.antt =====
-- A program that makes the steps of a plan: rules that read the plan off the program.
use paseo_node.Base.{◌≡◌, refl, sym, Bool, true, false, List, [], ◌∷◌, ◌++◌}
use paseo_node.Node.Effect.{
  Mode, Exit, done, failed, panicked, Oracle, Program, next, ◌>>=◌, ◌>>◌, return, perform, when,
  run,
}
use paseo_node.Node.Effect.Laws.{run-append, planned}

-- The program runs the plan and returns the value.
pub record Follows {ℓ} {S E : Type 0} {A : Type ℓ} (m : Program S E A) (plan : List (Mode × S))
    (a : A) : Type ℓ where
  pub same_run : (o : Oracle S E) (t : List S) → m o t ≡ next o (run plan o t) (λ _. return a)

module _ {S E : Type 0} where
  return_of_run {ℓ} :
      {A : Type ℓ} (a : A) (o : Oracle S E) (t : List S)
      → return {E = E} a o t ≡ next o (run [] o t) (λ _. return a)
  unfolding run
  return_of_run a o t = refl

  pub Follows-return {ℓ} : {A : Type ℓ} (a : A) → Follows {S = S} {E = E} (return a) [] a
  Follows-return a = record { same_run = return_of_run a }

  performed :
      (o : Oracle S E) (r : Exit (Unit {0}) E × List S)
      → next {0, 0} o (next {0, 0} {A = Unit {0}} o r (λ _. return tt)) (λ _. return tt) ≡ r
  performed o (done tt, t) = refl
  performed o (failed e, t) = refl
  performed o (panicked, t) = refl

  perform_of_run :
      (mode : Mode) (s : S) (o : Oracle S E) (t : List S)
      → perform mode s o t ≡ next o (run ((mode, s) ∷ []) o t) (λ _. return tt)
  unfolding run
  perform_of_run mode s o t = sym (performed o (perform mode s o t))

  pub Follows-perform : (mode : Mode) (s : S) → Follows {E = E} (perform mode s) ((mode, s) ∷ []) tt
  Follows-perform mode s = record { same_run = perform_of_run mode s }

  in_sequence {ℓ κ} :
      {A : Type ℓ} {B : Type κ} (f : A → Program S E B) (ys : List (Mode × S)) (a : A) (b : B)
      → Follows (f a) ys b
      → (o : Oracle S E) (r : Exit (Unit {0}) E × List S)
      → next o (next o r (λ _. return a)) f ≡ next o (next o r (λ _. run ys)) (λ _. return b)
  in_sequence f ys a b h o (done tt, t) = h.same_run o t
  in_sequence f ys a b h o (failed e, t) = refl
  in_sequence f ys a b h o (panicked, t) = refl

  pub Follows-bind {ℓ κ} :
      {A : Type ℓ} {B : Type κ} {m : Program S E A} (f : A → Program S E B)
      {xs ys : List (Mode × S)} {a : A} {b : B}
      → Follows m xs a
      → Follows (f a) ys b
      → Follows (m >>= f) (xs ++ ys) b
  Follows-bind {m} f {xs} {ys} {a} {b} first second = record {
    same_run = λ o t.
        rw (first.same_run o t, run-append xs ys o t) (in_sequence f ys a b second o (run xs o t));
  }

  pub Follows-then {κ} :
      {B : Type κ} {m : Program S E (Unit {0})} {k : Program S E B} {xs ys : List (Mode × S)}
      {b : B}
      → Follows m xs tt
      → Follows k ys b
      → Follows (m >> k) (xs ++ ys) b
  Follows-then {k} first second = Follows-bind (λ _. k) first second

  pub Follows-when :
      (test : Bool) {m : Program S E (Unit {0})} {xs : List (Mode × S)}
      → Follows m xs tt
      → Follows (when test m) (planned test xs) tt
  Follows-when true h = h
  Follows-when false h = Follows-return tt
