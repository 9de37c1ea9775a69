-- ===== src/Metrics/Vector.antt =====
-- A vector of Prometheus metrics: the value that each combination of labels has.
use kaftar.Prelude.{
  String, ◌≡◌, refl, sym, ◌∙◌, subst, List, [], ◌∷◌, Bool, true, false, ◌&&◌, str_eq, str_eq_iff,
  str_eq_refl, if◌then◌else◌, arith, Bool-cases, inl, inr,
}

abbrev pub Labels : Type 0
Labels = List String

unfoldable pub same_labels : Labels → Labels → Bool
same_labels [] [] = true
same_labels [] (b ∷ bs) = false
same_labels (a ∷ as') [] = false
same_labels (a ∷ as') (b ∷ bs) = str_eq a b && same_labels as' bs

abbrev pub Vector {ℓ} : Type ℓ → Type ℓ
Vector A = List (Labels × A)

module _ {ℓ} {A : Type ℓ} (zero_value : A) where
  -- Labels that were never used have the zero value.
  unfoldable pub value_at : Labels → Vector A → A
  unfolding same_labels
  value_at labels [] = zero_value
  value_at labels ((l, a) ∷ rest) =
      let later = value_at labels rest in if same_labels l labels then a else later

  -- WithLabelValues(...), and a change of the metric it answers.
  unfoldable pub change : Labels → (A → A) → Vector A → Vector A
  unfolding same_labels
  change labels f [] = (labels, f zero_value) ∷ []
  change labels f ((l, a) ∷ rest) =
      let changed = change labels f rest in
      if same_labels l labels then (l, f a) ∷ rest else (l, a) ∷ changed

pub same_labels_iff : (a b : Labels) → same_labels a b ≡ true → a ≡ b
unfolding same_labels
same_labels_iff [] [] h = refl
same_labels_iff [] (b ∷ bs) h = absurd (ground arith)
same_labels_iff (a ∷ as') [] h = absurd (ground arith)
same_labels_iff (a ∷ as') (b ∷ bs) h = elim (Bool-cases (str_eq a b)) [
  | inl e ↦ rw ((str_eq_iff a b).0 e, same_labels_iff as' bs (rw e at h)) refl
  | inr e ↦ absurd (grind (arith, e, h))
]

pub same_labels_refl : (a : Labels) → same_labels a a ≡ true
unfolding same_labels
same_labels_refl [] = refl
same_labels_refl (a ∷ as') = ground (arith, str_eq_refl a, same_labels_refl as')

shadowed {ℓ} :
    {A : Type ℓ} (b : Bool) (x y z : A)
    → (if b then x else y) ≡ (if b then x else (if b then z else y))
shadowed true x y z = refl
shadowed false x y z = refl

other_labels :
    (l labels asked : Labels)
    → same_labels l labels ≡ false
    → same_labels l asked ≡ true
    → same_labels labels asked ≡ false
other_labels l labels asked h k = elim (Bool-cases (same_labels labels asked)) [
  | inr e ↦ e
  | inl e ↦ absurd (
      ground (
        arith,
        h,
        same_labels_refl labels,
        subst (λ x. same_labels x labels ≡ false)
            (same_labels_iff l asked k ∙ sym (same_labels_iff labels asked e)) h,
      ))
]

module _ {ℓ} {A : Type ℓ} (zero_value : A) where
  -- A change shows at its own labels, and nowhere else.
  pub value_at-change :
      (labels asked : Labels) (f : A → A) (v : Vector A)
      → value_at zero_value asked (change zero_value labels f v) ≡ (
          if same_labels labels asked
          then f (value_at zero_value labels v)
          else value_at zero_value asked v)
  unfolding value_at change
  value_at-change labels asked f [] = ground arith
  value_at-change labels asked f ((l, a) ∷ rest) = elim (Bool-cases (same_labels l labels)) [
    | inl e ↦
        rw (same_labels_iff l labels e, same_labels_refl labels)
          (shadowed (same_labels labels asked) _ _ _)
    | inr e ↦ elim (Bool-cases (same_labels l asked)) [
      | inl k ↦ rw (e, k, other_labels l labels asked e k) refl
      | inr k ↦ rw (e, k) (value_at-change labels asked f rest)
    ]
  ]
