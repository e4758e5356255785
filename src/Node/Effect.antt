-- ===== src/Node/Effect.antt =====
-- Code whose work is done by calls of other crates: a program over an oracle that accepts or
-- refuses each step, with the list of the steps made so far. What a refusal does is the code's:
-- `?` returns the error, `expect` panics, and a call that cannot fail goes on.
pub mod Laws
pub mod Follows
pub mod Within
pub mod Made
use paseo_node.Base.{Bool, true, false, List, [], ◌∷◌, ◌++◌}

pub data Mode : Type 0 where
  infallible fallible required : Mode

pub data Exit {ℓ} (A : Type ℓ) (E : Type 0) : Type ℓ where
  done : A → Exit A E
  failed : E → Exit A E
  panicked : Exit A E

pub data Verdict (E : Type 0) : Type 0 where
  accepts : Verdict E
  refuses : E → Verdict E

-- The verdict on a step may depend on the steps before it.
abbrev pub Oracle : Type 0 → Type 0 → Type 0
Oracle S E = List S → S → Verdict E

abbrev pub Program {ℓ} : Type 0 → Type 0 → Type ℓ → Type ℓ
Program S E A = Oracle S E → List S → Exit A E × List S

abbrev pub judge : {E : Type 0} → Mode → Verdict E → Exit (Unit {0}) E
judge infallible v = done tt
judge fallible accepts = done tt
judge fallible (refuses e) = failed e
judge required accepts = done tt
judge required (refuses e) = panicked

module _ {S E : Type 0} where
  abbrev pub next {ℓ κ} :
      {A : Type ℓ} {B : Type κ}
      → Oracle S E
      → Exit A E × List S
      → (A → Program S E B)
      → Exit B E × List S
  next o (done a, t) f = f a o t
  next o (failed e, t) f = (failed e, t)
  next o (panicked, t) f = (panicked, t)

  infixl 5 ◌>>=◌ ◌>>◌
  abbrev pub ◌>>=◌ {ℓ κ} :
      {A : Type ℓ} {B : Type κ} → Program S E A → (A → Program S E B) → Program S E B
  ◌>>=◌ m f o t = next o (m o t) f

  abbrev pub ◌>>◌ {ℓ} : {B : Type ℓ} → Program S E (Unit {0}) → Program S E B → Program S E B
  ◌>>◌ m k o t = next o (m o t) (λ _. k)

  abbrev pub return {ℓ} : {A : Type ℓ} → A → Program S E A
  return a o t = (done a, t)

  unfoldable pub perform : Mode → S → Program S E (Unit {0})
  perform mode s o t = (judge mode (o t s), t ++ (s ∷ []))

  -- `if test { … }`
  abbrev pub when : Bool → Program S E (Unit {0}) → Program S E (Unit {0})
  when true m = m
  when false m = return tt

  -- A plan is a list of steps with their modes; it runs until a step ends it.
  unfoldable pub run : List (Mode × S) → Program S E (Unit {0})
  run [] = return tt
  run ((mode, s) ∷ plan) = perform mode s >> run plan
