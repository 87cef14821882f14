-- ===== src/Queue/Sorting.antt =====
-- The order in which the pages are read: by id, each row once.
use abhishek_bhat2005_reachi.Base.{
  ℕ, ◌≤◌, ◌<◌, ◌≡◌, refl, Bool, false, List, [], ◌∷◌, ◌++◌, arith, All, keep, drop, any, ◌==◌, leb,
}
use abhishek_bhat2005_reachi.Schema.{Email}
use abhishek_bhat2005_reachi.Queue.{insert_by_id, sort_by_id}

-- The primary key: no two rows have the same id.
abbrev pub DistinctIds : List Email → Type 0
DistinctIds [] = Unit {0}
DistinctIds (e ∷ es) = (any (λ x. x.id == e.id) es ≡ false) × DistinctIds es

abbrev pub IsAscending : List Email → Type 0
IsAscending [] = Unit {0}
IsAscending (e ∷ es) = All (λ x. e.id < x.id) es × IsAscending es

any-keep : (p q : Email → Bool) (es : List Email) → any q es ≡ false → any q (keep p es) ≡ false
any-keep p q [] h = refl
any-keep p q (e ∷ es) h = ground (arith, any-keep p q es)

pub keep-DistinctIds :
    (p : Email → Bool) (es : List Email) → DistinctIds es → DistinctIds (keep p es)
keep-DistinctIds p [] h = tt
keep-DistinctIds p (e ∷ es) h =
    ground (arith, keep-DistinctIds p es h.1, any-keep p (λ x. x.id == e.id) es h.0)

any-insert_by_id :
    (q : Email → Bool) (e : Email) (es : List Email)
    → q e ≡ false
    → any q es ≡ false
    → any q (insert_by_id e es) ≡ false
unfolding insert_by_id
any-insert_by_id q e [] h k = ground arith
any-insert_by_id q e (x ∷ xs) h k = ground (arith, any-insert_by_id q e xs)

All-insert_by_id {ℓ} :
    (P : Email → Type ℓ) (e : Email) (es : List Email) → P e → All P es → All P (insert_by_id e es)
unfolding insert_by_id
All-insert_by_id P e [] h k = (h, k)
All-insert_by_id P e (x ∷ xs) h k = ground (arith, All-insert_by_id P e xs h k.1)

All-below : (b c : ℕ) (es : List Email) → b ≤ c → All (λ x. c < x.id) es → All (λ x. b < x.id) es
All-below b c [] h k = tt
All-below b c (x ∷ xs) h k = (omega arith, All-below b c xs h k.1)

insert_by_id-IsAscending :
    (e : Email) (es : List Email)
    → any (λ x. x.id == e.id) es ≡ false
    → IsAscending es
    → IsAscending (insert_by_id e es)
unfolding insert_by_id
insert_by_id-IsAscending e [] h k = (tt, tt)
insert_by_id-IsAscending e (x ∷ xs) h k = ground (
  arith,
  insert_by_id-IsAscending e xs,
  All-below e.id x.id xs,
  All-insert_by_id (λ (y : Email). x.id < y.id) e xs,
)

any-sort_by_id :
    (q : Email → Bool) (es : List Email) → any q es ≡ false → any q (sort_by_id es) ≡ false
unfolding sort_by_id
any-sort_by_id q [] h = refl
any-sort_by_id q (e ∷ es) h =
    ground (arith, any-sort_by_id q es, any-insert_by_id q e (sort_by_id es))

pub sort_by_id-IsAscending : (es : List Email) → DistinctIds es → IsAscending (sort_by_id es)
unfolding sort_by_id
sort_by_id-IsAscending [] h = tt
sort_by_id-IsAscending (e ∷ es) h =
    insert_by_id-IsAscending e (sort_by_id es) (any-sort_by_id (λ x. x.id == e.id) es h.0)
      (sort_by_id-IsAscending es h.1)

-- Behind a row of an ascending list stand the rows with larger ids.
keep_above : (b : ℕ) (es : List Email) → All (λ x. b < x.id) es → keep (λ e. leb b e.id) es ≡ es
keep_above b [] h = refl
keep_above b (x ∷ xs) h = ground (arith, keep_above b xs h.1)

All-middle :
    (b : ℕ) (xs : List Email) (y : Email) (ys : List Email)
    → All (λ x. b < x.id) (xs ++ y ∷ ys)
    → b < y.id
All-middle b [] y ys h = h.0
All-middle b (x ∷ xs) y ys h = All-middle b xs y ys h.1

pub after_row :
    (pre : List Email) (x : Email) (rest : List Email)
    → IsAscending (pre ++ x ∷ rest)
    → drop 1 (keep (λ e. leb x.id e.id) (pre ++ x ∷ rest)) ≡ rest
after_row [] x rest h = ground (arith, keep_above x.id rest h.0)
after_row (y ∷ pre) x rest h =
    ground (arith, All-middle y.id pre x rest h.0, after_row pre x rest h.1)
