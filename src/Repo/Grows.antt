-- ===== src/Repo/Grows.antt =====
-- How a table changes: every row that was there is still there, in its place, related to what it
-- was; new rows stand at the end.
use kaftar.Prelude.{
  ◌≡◌, refl, List, [], ◌∷◌, ◌++◌, map, Bool, true, false, ◌&&◌, not, is_some, if◌then◌else◌, arith,
  All, length, ap, suc,
}
use kaftar.Repo.Model.{Row}
use kaftar.Repo.Table.{Store, update_rows}

module _ {ℓ} {A : Type ℓ} where
  abbrev pub Grows : (A → A → Type 0) → List A → List A → Type 0
  Grows R [] ys = Unit
  Grows R (x ∷ xs) [] = ⊥
  Grows R (x ∷ xs) (y ∷ ys) = R x y × Grows R xs ys

  pub Grows-refl : (R : A → A → Type 0) → ((x : A) → R x x) → (xs : List A) → Grows R xs xs
  Grows-refl R h [] = tt
  Grows-refl R h (x ∷ xs) = (h x, Grows-refl R h xs)

  pub Grows-append :
      (R : A → A → Type 0) → ((x : A) → R x x) → (xs ys : List A) → Grows R xs (xs ++ ys)
  Grows-append R h [] ys = tt
  Grows-append R h (x ∷ xs) ys = (h x, Grows-append R h xs ys)

  pub Grows-trans :
      (R : A → A → Type 0)
      → ((x y z : A) → R x y → R y z → R x z)
      → (xs ys zs : List A) → Grows R xs ys
      → Grows R ys zs
      → Grows R xs zs
  Grows-trans R h [] ys zs p q = tt
  Grows-trans R h (x ∷ xs) [] zs p q = absurd p
  Grows-trans R h (x ∷ xs) (y ∷ ys) [] p q = absurd q
  Grows-trans R h (x ∷ xs) (y ∷ ys) (z ∷ zs) p q =
      (h x y z p.0 q.0, Grows-trans R h xs ys zs p.1 q.1)

  pub Grows-map :
      (R : A → A → Type 0) (f : A → A) (xs : List A)
      → All (λ x. R x (f x)) xs
      → Grows R xs (map f xs)
  Grows-map R f [] a = tt
  Grows-map R f (x ∷ xs) a = (a.0, Grows-map R f xs a.1)

  -- With no new row, what the relation carries over holds of all rows.
  pub Grows-All :
      (R : A → A → Type 0) (P Q : A → Type 0)
      → ((x y : A) → R x y → P x → Q y)
      → (xs ys : List A) → length ys ≡ length xs
      → Grows R xs ys
      → All P xs
      → All Q ys
  Grows-All R P Q h [] [] e g a = tt
  Grows-All R P Q h [] (y ∷ ys) e g a = absurd (omega arith)
  Grows-All R P Q h (x ∷ xs) [] e g a = tt
  Grows-All R P Q h (x ∷ xs) (y ∷ ys) e g a =
      (h x y g.0 a.0, Grows-All R P Q h xs ys (omega arith) g.1 a.1)

-- An update of the rows that pass a test.
pub Grows-update_rows :
    (R : Row → Row → Type 0) (p : Row → Bool) (f : Row → Row)
    → ((r : Row) → R r r)
    → (s : Store) → All (λ r. p r ≡ true → R r (f r)) s
    → Grows R s (update_rows p f s)
unfolding update_rows
Grows-update_rows R p f h [] a = tt
Grows-update_rows R p f h (r ∷ s) a =
    (choose (not (is_some r.deleted_at)) (p r) a.0, Grows-update_rows R p f h s a.1)
  where
    choose : (b c : Bool) → (c ≡ true → R r (f r)) → R r (if b && c then f r else r)
    choose false c k = h r
    choose true false k = h r
    choose true true k = k refl

-- What an update keeps of every row.
pub All-update_rows :
    (P Q : Row → Type 0) (p : Row → Bool) (f : Row → Row) (s : Store)
    → All (λ r. P r → Q r) s
    → All (λ r. p r ≡ true → P r → Q (f r)) s
    → All P s
    → All Q (update_rows p f s)
unfolding update_rows
All-update_rows P Q p f [] k a i = tt
All-update_rows P Q p f (r ∷ s) k a i =
    (choose (not (is_some r.deleted_at)) (p r) a.0, All-update_rows P Q p f s k.1 a.1 i.1)
  where
    choose : (b c : Bool) → (c ≡ true → P r → Q (f r)) → Q (if b && c then f r else r)
    choose false c h = k.0 i.0
    choose true false h = k.0 i.0
    choose true true h = h refl i.0

pub length-update_rows :
    (p : Row → Bool) (f : Row → Row) (s : Store) → length (update_rows p f s) ≡ length s
unfolding update_rows
length-update_rows p f [] = refl
length-update_rows p f (r ∷ s) = ap suc (length-update_rows p f s)
