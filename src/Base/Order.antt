-- ===== src/Base/Order.antt =====
-- `ORDER BY` on a list: insertion by a strict order, and what a filter leaves of a sorted list.
use mathlib.Core.Path.{◌≡◌, refl, sym, ◌∙◌}
use mathlib.Core.Bool.{Bool, true, false, ◌&&◌, ◌||◌}
use mathlib.Core.List.{List, [], ◌∷◌, ◌++◌}
use mathlib.Core.Logic.{inl, inr}
use native.Mathlib.Omega.{arith}
use abhishek_bhat2005_reachi.Base.Tests.{if◌then◌else◌, Bool-cases}
use abhishek_bhat2005_reachi.Base.Lists.{keep, any, All}

-- `same a b` says that two rows have the same primary key.
pub record IsOrder {ℓ} {A : Type ℓ} (lt same : A → A → Bool) : Type ℓ where
  pub irrefl : (a : A) → lt a a ≡ false
  pub trans : (a b c : A) → lt a b ≡ true → lt b c ≡ true → lt a c ≡ true
  pub total : (a b : A) → same b a ≡ false → lt a b ≡ false → lt b a ≡ true

module _ {ℓ} {A : Type ℓ} (lt : A → A → Bool) where
  unfoldable pub insert_by : A → List A → List A
  insert_by e [] = e ∷ []
  insert_by e (x ∷ xs) = let rest = insert_by e xs in if lt x e then x ∷ rest else e ∷ x ∷ xs

  unfoldable pub sort_by : List A → List A
  unfolding insert_by
  sort_by [] = []
  sort_by (x ∷ xs) = insert_by x (sort_by xs)

  abbrev pub Ascends : List A → Type ℓ
  Ascends [] = Unit
  Ascends (x ∷ xs) = All (λ y. lt x y ≡ true) xs × Ascends xs

module _ {ℓ} {A : Type ℓ} (same : A → A → Bool) where
  abbrev pub AreUnlike : List A → Type 0
  AreUnlike [] = Unit
  AreUnlike (x ∷ xs) = (any (same x) xs ≡ false) × AreUnlike xs

  keep-none : (p q : A → Bool) (xs : List A) → any q xs ≡ false → any q (keep p xs) ≡ false
  keep-none p q [] h = refl
  keep-none p q (x ∷ xs) h = ground (arith, keep-none p q xs)

  pub keep-AreUnlike : (p : A → Bool) (xs : List A) → AreUnlike xs → AreUnlike (keep p xs)
  keep-AreUnlike p [] h = tt
  keep-AreUnlike p (x ∷ xs) h = elim (Bool-cases (p x)) [
    | inl kept ↦ rw kept (keep-none p (same x) xs h.0, keep-AreUnlike p xs h.1)
    | inr gone ↦ rw gone (keep-AreUnlike p xs h.1)
  ]

pub keep-keep {ℓ} :
    {A : Type ℓ} (p q : A → Bool) (xs : List A) → keep q (keep p xs) ≡ keep (λ x. p x && q x) xs
keep-keep p q [] = refl
keep-keep p q (x ∷ xs) = ground (arith, keep-keep p q xs)

module _ {ℓ} {A : Type ℓ} {lt same : A → A → Bool} (o : IsOrder lt same) where
  lower-All :
      (x e : A) (ys : List A)
      → lt e x ≡ true
      → All (λ y. lt x y ≡ true) ys
      → All (λ y. lt e y ≡ true) ys
  lower-All x e [] h k = tt
  lower-All x e (y ∷ ys) h k = (o.trans e x y h k.0, lower-All x e ys h k.1)

  insert-All :
      (x e : A) (ys : List A)
      → lt x e ≡ true
      → All (λ y. lt x y ≡ true) ys
      → All (λ y. lt x y ≡ true) (insert_by lt e ys)
  unfolding insert_by
  insert-All x e [] h k = (h, tt)
  insert-All x e (y ∷ ys) h k = elim (Bool-cases (lt y e)) [
    | inl before ↦ rw (before, insert_by) (k.0, insert-All x e ys h k.1)
    | inr not_before ↦ rw (not_before, insert_by) (h, k)
  ]

  insert-Ascends :
      (e : A) (xs : List A)
      → any (same e) xs ≡ false
      → Ascends lt xs
      → Ascends lt (insert_by lt e xs)
  unfolding insert_by
  insert-Ascends e [] new h = (tt, tt)
  insert-Ascends e (x ∷ xs) new h = elim (Bool-cases (lt x e)) [
    | inl before ↦
        rw (before, insert_by)
          (insert-All x e xs before h.0, insert-Ascends e xs (ground arith) h.1)
    | inr not_before ↦
        let after : lt e x ≡ true = o.total x e (ground arith) not_before in
        rw (not_before, insert_by) ((after, lower-All x e xs after h.0), h)
  ]

  insert-front : (e : A) (ys : List A) → All (λ y. lt e y ≡ true) ys → insert_by lt e ys ≡ e ∷ ys
  unfolding insert_by
  insert-front e [] h = refl
  insert-front e (y ∷ ys) h = elim (Bool-cases (lt y e)) [
    | inl before ↦ absurd (ground (arith, o.trans e y e, o.irrefl e, h.0))
    | inr not_before ↦ rw (not_before, insert_by) refl
  ]

  keep-All :
      (p : A → Bool) (e : A) (ys : List A)
      → All (λ y. lt e y ≡ true) ys
      → All (λ y. lt e y ≡ true) (keep p ys)
  keep-All p e [] h = tt
  keep-All p e (y ∷ ys) h = elim (Bool-cases (p y)) [
    | inl kept ↦ rw kept (h.0, keep-All p e ys h.1)
    | inr gone ↦ rw gone (keep-All p e ys h.1)
  ]

  insert-kept :
      (p : A → Bool) (e x : A) (xs : List A)
      → lt x e ≡ false
      → All (λ y. lt e y ≡ true) (x ∷ xs)
      → keep p (e ∷ x ∷ xs) ≡ (if p e then insert_by lt e (keep p (x ∷ xs)) else keep p (x ∷ xs))
  insert-kept p e x xs h below = elim (Bool-cases (p e)) [
    | inl kept ↦ rw kept (sym (insert-front e (keep p (x ∷ xs)) (keep-All p e (x ∷ xs) below)))
    | inr gone ↦ rw gone refl
  ]

  -- A filter before the insertion or after it.
  keep-insert :
      (p : A → Bool) (e : A) (xs : List A)
      → any (same e) xs ≡ false
      → Ascends lt xs
      → keep p (insert_by lt e xs) ≡ (if p e then insert_by lt e (keep p xs) else keep p xs)
  unfolding insert_by
  keep-insert p e [] new h = refl
  keep-insert p e (x ∷ xs) new h = elim (Bool-cases (lt x e)) [
    | inl before ↦
        let rest = keep-insert p e xs (ground arith) h.1 in
        elim (Bool-cases (p x)) [
          | inl kept ↦ rw (before, insert_by) (rw kept (ground (arith, rest, before)))
          | inr gone ↦ rw (before, insert_by) (rw gone rest)
        ]
    | inr not_before ↦
        let after : lt e x ≡ true = o.total x e (ground arith) not_before in
        rw (not_before, insert_by)
          (insert-kept p e x xs not_before (after, lower-All x e xs after h.0))
  ]

  any-insert : (q : A → Bool) (e : A) (xs : List A) → any q (insert_by lt e xs) ≡ (q e || any q xs)
  unfolding insert_by
  any-insert q e [] = refl
  any-insert q e (x ∷ xs) = elim (Bool-cases (lt x e)) [
    | inl before ↦ rw (before, insert_by) (ground (arith, any-insert q e xs))
    | inr not_before ↦ rw (not_before, insert_by) refl
  ]

  any-sort : (q : A → Bool) (xs : List A) → any q (sort_by lt xs) ≡ any q xs
  unfolding sort_by
  any-sort q [] = refl
  any-sort q (x ∷ xs) = ground (arith, any-insert q x (sort_by lt xs), any-sort q xs)

  pub sort-Ascends : (xs : List A) → AreUnlike same xs → Ascends lt (sort_by lt xs)
  unfolding sort_by
  sort-Ascends [] h = tt
  sort-Ascends (x ∷ xs) h =
      insert-Ascends x (sort_by lt xs) (any-sort (same x) xs ∙ h.0) (sort-Ascends xs h.1)

  -- A filter before sorting or after it.
  pub keep-sort :
      (p : A → Bool) (xs : List A)
      → AreUnlike same xs
      → keep p (sort_by lt xs) ≡ sort_by lt (keep p xs)
  unfolding sort_by
  keep-sort p [] h = refl
  keep-sort p (x ∷ xs) h =
      let step =
        keep-insert p x (sort_by lt xs) (any-sort (same x) xs ∙ h.0) (sort-Ascends xs h.1) in
      elim (Bool-cases (p x)) [
        | inl kept ↦ rw (step, keep-sort p xs h.1) (rw (kept, sort_by) refl)
        | inr gone ↦ rw (step, keep-sort p xs h.1) (rw (gone, sort_by) refl)
      ]

  keep_behind_least : (e : A) (ys : List A) → All (λ y. lt e y ≡ true) ys → keep (lt e) ys ≡ ys
  keep_behind_least e [] h = refl
  keep_behind_least e (y ∷ ys) h = ground (arith, keep_behind_least e ys h.1)

  middle :
      (e : A) (xs : List A) (y : A) (ys : List A)
      → All (λ z. lt e z ≡ true) (xs ++ y ∷ ys)
      → lt e y ≡ true
  middle e [] y ys h = h.0
  middle e (x ∷ xs) y ys h = middle e xs y ys h.1

  -- Behind a row of an ascending list stand the rows that it precedes.
  pub keep_behind :
      (pre : List A) (x : A) (rest : List A)
      → Ascends lt (pre ++ x ∷ rest)
      → keep (lt x) (pre ++ x ∷ rest) ≡ rest
  keep_behind [] x rest h = ground (arith, o.irrefl x, keep_behind_least x rest h.0)
  keep_behind (y ∷ pre) x rest h =
      let ahead = middle y pre x rest h.0 in
      ground (arith, o.trans y x y ahead, o.irrefl y, keep_behind pre x rest h.1)
