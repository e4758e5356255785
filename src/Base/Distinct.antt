-- ===== src/Base/Distinct.antt =====
-- Lists without repetition, and membership through `map` and `keep`.
use Prim.Native.Nat.{◌≤◌}
use mathlib.Core.Path.{subst, ◌≡◌, refl, ap, sym, ◌∙◌}
use mathlib.Core.Bool.{Bool, true}
use mathlib.Core.Logic.{inl, inr}
use mathlib.Core.List.{List, [], ◌∷◌, map, Memᴰ}
use paseo_node.Base.Decide.{Bool-cases}
use native.Mathlib.Omega.{arith}
use paseo_node.Base.Lists.{length, keep}

module _ {ℓ} {A : Type ℓ} where
  abbrev pub Distinct : List A → Type ℓ
  Distinct [] = Unit
  Distinct (x ∷ xs) = ¬ (Memᴰ x xs) × Distinct xs

  mem_cons_of_keep :
      (p : A → Bool) (x a : A) (xs : List A)
      → p x ≡ true
      → (Memᴰ a (keep p xs) → Memᴰ a xs × (p a ≡ true))
      → Memᴰ a (x ∷ keep p xs)
      → Memᴰ a (x ∷ xs) × (p a ≡ true)
  mem_cons_of_keep p x a xs kept later (Memᴰ.head e) = (Memᴰ.head e, ap p e ∙ kept)
  mem_cons_of_keep p x a xs kept later (Memᴰ.tail n) =
      let (listed, e) = later n in (Memᴰ.tail listed, e)

  pub mem-keep :
      (p : A → Bool) (xs : List A) (a : A) → Memᴰ a (keep p xs) → Memᴰ a xs × (p a ≡ true)
  mem-keep p [] a m = elim m [ ]
  mem-keep p (x ∷ xs) a m = elim (Bool-cases (p x)) [
    | inl kept ↦ mem_cons_of_keep p x a xs kept (mem-keep p xs a) (rw kept at m)
    | inr dropped ↦ let (later, e) = mem-keep p xs a (rw dropped at m) in (Memᴰ.tail later, e)
  ]

  pub mem-keep_of :
      (p : A → Bool) (xs : List A) (a : A) → Memᴰ a xs → p a ≡ true → Memᴰ a (keep p xs)
  mem-keep_of p [] a m h = elim m [ ]
  mem-keep_of p (x ∷ xs) a (Memᴰ.head e) h = rw (ap p (sym e) ∙ h) (Memᴰ.head e)
  mem-keep_of p (x ∷ xs) a (Memᴰ.tail m) h = elim (Bool-cases (p x)) [
    | inl kept ↦ rw kept (Memᴰ.tail (mem-keep_of p xs a m h))
    | inr dropped ↦ rw dropped (mem-keep_of p xs a m h)
  ]

  pub keep-Distinct : (p : A → Bool) (xs : List A) → Distinct xs → Distinct (keep p xs)
  keep-Distinct p [] d = tt
  keep-Distinct p (x ∷ xs) (fresh, d) = elim (Bool-cases (p x)) [
    | inl kept ↦ rw kept (λ m. fresh (mem-keep p xs x m).0, keep-Distinct p xs d)
    | inr dropped ↦ rw dropped (keep-Distinct p xs d)
  ]

  pub length-keep : (p : A → Bool) (xs : List A) → length (keep p xs) ≤ length xs
  length-keep p [] = omega arith
  length-keep p (x ∷ xs) = ground (arith, length-keep p xs)

module _ {ℓ κ} {A : Type ℓ} {B : Type κ} (f : A → B) where
  pub mem-map_of : (xs : List A) (a : A) → Memᴰ a xs → Memᴰ (f a) (map f xs)
  mem-map_of [] a m = elim m [ ]
  mem-map_of (x ∷ xs) a (Memᴰ.head e) = Memᴰ.head (ap f e)
  mem-map_of (x ∷ xs) a (Memᴰ.tail m) = Memᴰ.tail (mem-map_of xs a m)

  pub mem-map : (xs : List A) (b : B) → Memᴰ b (map f xs) → (a : A) × Memᴰ a xs × (b ≡ f a)
  mem-map [] b m = elim m [ ]
  mem-map (x ∷ xs) b (Memᴰ.head e) = (x, Memᴰ.head refl, e)
  mem-map (x ∷ xs) b (Memᴰ.tail m) = let (a, listed, e) = mem-map xs b m in (a, Memᴰ.tail listed, e)

  pub map-Distinct :
      (xs : List A) → ((a b : A) → f a ≡ f b → a ≡ b) → Distinct xs → Distinct (map f xs)
  map-Distinct [] injective d = tt
  map-Distinct (x ∷ xs) injective (fresh, d) = (
    λ m.
        let (a, listed, e) = mem-map xs (f x) m in
        fresh (subst (λ y. Memᴰ y xs) (sym (injective x a e)) listed),
    map-Distinct xs injective d,
  )
