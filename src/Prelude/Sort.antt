-- ===== src/Prelude/Sort.antt =====
-- sort.Slice of Go, as an insertion sort, and what reordering leaves alone.
use mathlib.Core.Path.{◌≡◌, refl, ◌∙◌, ap}
use mathlib.Core.Bool.{Bool, true, false, ◌||◌}
use mathlib.Core.List.{List, [], ◌∷◌, Permᴰ}
use native.Mathlib.Omega.{arith}
use kaftar.Prelude.Tests.{if◌then◌else◌}
use kaftar.Prelude.Lists.{any}

or_swap : (a b c : Bool) → (a || (b || c)) ≡ (b || (a || c))
or_swap true true c = refl
or_swap true false c = refl
or_swap false true c = refl
or_swap false false c = refl

module _ {ℓ} {A : Type ℓ} where
  unfoldable pub insert_by : (A → A → Bool) → A → List A → List A
  insert_by lt a [] = a ∷ []
  insert_by lt a (x ∷ xs) = let rest = insert_by lt a xs in if lt a x then a ∷ x ∷ xs else x ∷ rest

  unfoldable pub sort_by : (A → A → Bool) → List A → List A
  unfolding insert_by
  sort_by lt [] = []
  sort_by lt (x ∷ xs) = insert_by lt x (sort_by lt xs)

  any-insert_by :
      (p : A → Bool) (lt : A → A → Bool) (a : A) (xs : List A)
      → any p (insert_by lt a xs) ≡ (p a || any p xs)
  unfolding any insert_by
  any-insert_by p lt a [] = refl
  any-insert_by p lt a (x ∷ xs) =
      ground (arith, any-insert_by p lt a xs, or_swap (p a) (p x) (any p xs))

  pub any-sort_by :
      (p : A → Bool) (lt : A → A → Bool) (xs : List A) → any p (sort_by lt xs) ≡ any p xs
  unfolding any sort_by
  any-sort_by p lt [] = refl
  any-sort_by p lt (x ∷ xs) =
      any-insert_by p lt x (sort_by lt xs) ∙ ap (λ b. p x || b) (any-sort_by p lt xs)

  pub any-perm : (p : A → Bool) {xs ys : List A} → Permᴰ xs ys → any p xs ≡ any p ys
  unfolding any
  any-perm p Permᴰ.nil = refl
  any-perm p (Permᴰ.cons e h) = cc (ap p e, any-perm p h)
  any-perm p (Permᴰ.swap {a = a} {b = b} {a' = c} {b' = d} {l = l} e f) =
      or_swap (p a) (p b) (any p l) ∙ cc (ap p e, ap p f)
  any-perm p (Permᴰ.trans h k) = any-perm p h ∙ any-perm p k
