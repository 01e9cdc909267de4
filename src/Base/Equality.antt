-- ===== src/Base/Equality.antt =====
-- Go's `==` on numbers and strings: one operator for every type whose equality can be decided.
use Prim.Native.Nat.{ℕ}
use mathlib.Core.Path.{◌≡◌, refl, ap, ap₂}
use mathlib.Core.Logic.{ite, dite}
use mathlib.Core.Bool.{Bool, true, false}
use mathlib.Core.List.{List, [], ◌∷◌, head?, tail}
use mathlib.Core.Option.{some-injective}
use native.Mathlib.Decide.{ℕ_discrete}

pub record Eq {ℓ} (A : Type ℓ) : Type ℓ where
  pub dec : Discrete A

module _ {ℓ} {A : Type ℓ} ⦃e : Eq A⦄ where
  infix 50 ◌==◌
  abbrev pub ◌==◌ : A → A → Bool
  a == b = ite (e.dec a b) true false

  cons_ne : (x y : A) (xs ys : List A) → ¬ (x ≡ y) → ¬ (x ∷ xs ≡ y ∷ ys)
  cons_ne x y xs ys h p = h (some-injective x y (ap head? p))

  tail_ne : (x y : A) (xs ys : List A) → ¬ (xs ≡ ys) → ¬ (x ∷ xs ≡ y ∷ ys)
  tail_ne x y xs ys h p = h (ap tail p)

  unfoldable pub list_dec : Discrete (List A)
  unfolding cons_ne tail_ne
  list_dec [] [] = yes refl
  list_dec [] (y ∷ ys) = no (λ p. cc)
  list_dec (x ∷ xs) [] = no (λ p. cc)
  list_dec (x ∷ xs) (y ∷ ys) =
      let rest = list_dec xs ys in
      dite (e.dec x y) (λ p. dite rest (λ q. yes (ap₂ ◌∷◌ p q)) (λ q. no (tail_ne x y xs ys q)))
        (λ p. no (cons_ne x y xs ys p))

instance abbrev pub nat_eq : Eq ℕ
nat_eq = record { dec = ℕ_discrete }

instance abbrev pub list_eq : Eq (List ℕ)
list_eq = record { dec = list_dec }
