-- ===== src/Queue/Paging.antt =====
-- The loops of email-queue.ts and reconcile.ts end, and queue every wanted row once, by id.
use abhishek_bhat2005_reachi.Base.{
  ℕ, Text, codes, zero, suc, ◌+◌, ◌≤◌, ◌<◌, ◌≡◌, refl, ap, ◌∙◌, Bool, List, [], ◌∷◌, ◌++◌, Option,
  none, some, map, append_assoc, arith, length, keep, drop, take, get_last?, ltb, Bool-cases,
  Option-cases, inl, inr, length-take, length-append, take-append-drop, map-append, length-drop,
  ltb→lt, sym,
}
use abhishek_bhat2005_reachi.Schema.{Email}
use abhishek_bhat2005_reachi.Queue.{
  QueuedJob, QueueableEmail, job_options, select, after_cursor, find_page, enqueue_email_rows,
  enqueue_pages, enqueue_pages_at, sort_by_id,
}
use abhishek_bhat2005_reachi.Queue.Sorting.{
  DistinctIds, IsAscending, keep-DistinctIds, sort_by_id-IsAscending, after_row,
}

record EndsIn (xs : List Email) : Type 0 where
  init : List Email
  last : Email
  split : xs ≡ init ++ last ∷ []
  found : get_last? (map select xs) ≡ some (select last)

EndsIn-cons : (x y : Email) (xs : List Email) → EndsIn (y ∷ xs) → EndsIn (x ∷ y ∷ xs)
EndsIn-cons x y xs e = record {
  init = x ∷ e.init;
  last = e.last;
  split = ap (◌∷◌ x) e.split;
  found = e.found;
}

ends_in : (x : Email) (xs : List Email) → EndsIn (x ∷ xs)
ends_in x [] = record { init = []; last = x; split = refl; found = refl }
ends_in x (y ∷ xs) = EndsIn-cons x y xs (ends_in y xs)

nonempty_split : (xs : List Email) → 0 < length xs → EndsIn xs
nonempty_split [] h = absurd (omega arith)
nonempty_split (x ∷ xs) h = ends_in x xs

pub length-map {ℓ κ} :
    {A : Type ℓ} {B : Type κ} (f : A → B) (xs : List A) → length (map f xs) ≡ length xs
length-map f [] = refl
length-map f (x ∷ xs) = ap suc (length-map f xs)

take-all {ℓ} : {A : Type ℓ} (n : ℕ) (xs : List A) → length xs ≤ n → take n xs ≡ xs
take-all zero [] h = refl
take-all zero (x ∷ xs) h = absurd (omega arith)
take-all (suc n) [] h = refl
take-all (suc n) (x ∷ xs) h = ap (◌∷◌ x) (take-all n xs (omega arith))

module _ (wanted : Email → Bool) (size : ℕ) (rows : List Email) (now : ℕ) where
  abbrev sorted : List Email
  sorted = sort_by_id (keep wanted rows)

  abbrev jobs_of : List Email → List QueuedJob
  jobs_of es = enqueue_email_rows (map select es) now

  jobs_of-append : (xs ys : List Email) → jobs_of xs ++ jobs_of ys ≡ jobs_of (xs ++ ys)
  unfolding enqueue_email_rows
  jobs_of-append xs ys = rw (map-append, map-append)

  page :
      (cursor : Option ℕ) (rest : List Email)
      → after_cursor cursor sorted ≡ rest
      → find_page wanted cursor size rows ≡ map select (take size rest)
  unfolding find_page
  page cursor rest e = rw e

  -- The last page: it is short, so it is all that is left.
  last_page :
      (fuel : ℕ) (cursor : Option ℕ) (rest : List Email)
      → find_page wanted cursor size rows ≡ map select rest
      → length rest < size
      → enqueue_pages_at wanted size rows (λ c. now) (suc fuel) cursor
        ≡ some (jobs_of rest, length rest)
  unfolding enqueue_pages_at
  last_page fuel cursor [] e h = rw (e, enqueue_pages_at) (rw e)
  last_page fuel cursor (x ∷ rest) e h =
      let end = ends_in x rest in
      rw (e, enqueue_pages_at) (rw end.found (ground (arith, e, length-map select (x ∷ rest))))

  -- A full page, and what the rest of the loop adds.
  full_page :
      (fuel : ℕ) (cursor : Option ℕ) (first : List Email) (last : Email) (more : List QueuedJob)
      (n : ℕ)
      → find_page wanted cursor size rows ≡ map select first
      → get_last? (map select first) ≡ some (select last)
      → size ≤ length first
      → enqueue_pages_at wanted size rows (λ c. now) fuel (some last.id) ≡ some (more, n)
      → enqueue_pages_at wanted size rows (λ c. now) (suc fuel) cursor
        ≡ some (jobs_of first ++ more, length first + n)
  unfolding enqueue_pages_at
  full_page fuel cursor first last more n e f h rest =
      rw (e, enqueue_pages_at) (rw f (ground (arith, e, rest, length-map select first)))

  drop_shorter :
      (rest : List Email) → 0 < size → size ≤ length rest → length (drop size rest) < length rest
  drop_shorter rest pos h = omega (arith, length-drop size rest)

  split_at :
      (pre first rest' rest init : List Email) (last : Email)
      → sorted ≡ pre ++ rest
      → first ++ rest' ≡ rest
      → first ≡ init ++ last ∷ []
      → sorted ≡ (pre ++ init) ++ last ∷ rest'
  split_at pre first rest' rest init last s e f = rw (s, ← e, f) (simp append_assoc)

  whole :
      (xs ys rest : List Email)
      → xs ++ ys ≡ rest
      → ◌≡◌ {A = Option (List QueuedJob × ℕ)}
          (some (jobs_of xs ++ jobs_of ys, length xs + length ys))
          (some (jobs_of rest, length rest))
  whole xs ys rest e = rw (← e, jobs_of-append, length-append)

  pages_lem :
      (fuel : ℕ) (cursor : Option ℕ) (pre rest : List Email)
      → 0 < size
      → IsAscending sorted
      → sorted ≡ pre ++ rest
      → after_cursor cursor sorted ≡ rest
      → length rest < fuel
      → enqueue_pages_at wanted size rows (λ c. now) fuel cursor ≡ some (jobs_of rest, length rest)
  pages_lem zero cursor pre rest pos asc s e h = absurd (omega arith)
  pages_lem (suc fuel) cursor pre rest pos asc s e h = elim (Bool-cases (ltb (length rest) size)) [
    | inl short ↦
        last_page fuel cursor rest
          (page cursor rest e
            ∙ ap (map select) (take-all size rest (omega (arith, ltb→lt _ _ short))))
          (ltb→lt _ _ short)
    | inr full ↦
        let enough : size ≤ length rest = ground arith in
        let size_first : length (take size rest) ≡ size = omega (arith, length-take size rest) in
        let end = nonempty_split (take size rest) (omega arith) in
        let at_last : sorted ≡ (pre ++ end.init) ++ end.last ∷ drop size rest =
          split_at pre (take size rest) (drop size rest) rest end.init end.last s
            (take-append-drop size rest) end.split in
        full_page fuel cursor (take size rest) end.last (jobs_of (drop size rest))
          (length (drop size rest)) (page cursor rest e) end.found (omega arith)
          (pages_lem fuel (some end.last.id) ((pre ++ end.init) ++ end.last ∷ []) (drop size rest)
            pos asc
            (at_last ∙ sym (append_assoc (pre ++ end.init) (end.last ∷ []) (drop size rest)))
            (rw at_last (after_row (pre ++ end.init) end.last (drop size rest) (rw at_last at asc)))
            (omega (arith, drop_shorter rest pos enough)))
        ∙ whole (take size rest) (drop size rest) rest (take-append-drop size rest)
  ]

-- A job, but for its delay.
abbrev pub untimed : QueuedJob → Text × ℕ × Text
untimed job = (job.name, job.scheduled_email_id, job.opts.job_id)

untimed-rows :
    (emails : List QueueableEmail) (now now' : ℕ)
    → map untimed (enqueue_email_rows emails now) ≡ map untimed (enqueue_email_rows emails now')
unfolding enqueue_email_rows job_options
untimed-rows [] now now' = refl
untimed-rows (e ∷ es) now now' =
    ap (◌∷◌ (codes "send-email", e.id, e.bull_job_id)) (untimed-rows es now now')

module _ (wanted : Email → Bool) (size : ℕ) (rows : List Email) (clock : Option ℕ → ℕ)
    (now : ℕ) where
  -- The same jobs are queued whatever the times of the pages are, but for their delays.
  any_clock :
      (fuel : ℕ) (cursor : Option ℕ) (jobs : List QueuedJob) (n : ℕ)
      → enqueue_pages_at wanted size rows (λ c. now) fuel cursor ≡ some (jobs, n)
      → (jobs' : List QueuedJob) × (enqueue_pages_at wanted size rows clock fuel cursor
          ≡ some (jobs', n))
        × (map untimed jobs' ≡ map untimed jobs)
  unfolding enqueue_pages_at
  any_clock zero cursor jobs n h = absurd (cc)
  any_clock (suc fuel) cursor jobs n h =
      let emails = find_page wanted cursor size rows in
      let here = enqueue_email_rows emails (clock cursor) in
      let there = enqueue_email_rows emails now in
      let alike = untimed-rows emails (clock cursor) now in
      elim (Option-cases (get_last? emails)) [
        | inl empty ↦
            let same : (there ≡ jobs) × (length emails ≡ n) = ground (arith, empty) in
            (here, rw (empty, enqueue_pages_at) (rw same.1 refl), rw (← same.0) alike)
        | inr (last, found) ↦ elim (Bool-cases (ltb (length emails) size)) [
          | inl short ↦
              let same : (there ≡ jobs) × (length emails ≡ n) = ground (arith, found, short) in
              (here, rw (found, enqueue_pages_at) (rw short (rw same.1 refl)), rw (← same.0) alike)
          | inr full ↦
              elim (Option-cases
                (enqueue_pages_at wanted size rows (λ c. now) fuel (some last.id))) [
                  | inl out ↦ absurd (ground (arith, found, full, out))
                  | inr ((more, k), rest) ↦
                      let same : (there ++ more ≡ jobs) × (length emails + k ≡ n) =
                        ground (arith, found, full, rest) in
                      let (more', rest', later) = any_clock fuel (some last.id) more k rest in
                      (
                        here ++ more',
                        rw (found, enqueue_pages_at) (rw full (rw rest' (rw same.1 refl))),
                        rw (← same.0, map-append, map-append) (rw (alike, later) refl),
                      )
                ]
        ]
      ]

-- With distinct ids and pages of at least one row the loops end: they take at most as many rounds as
-- there are rows that they want, and one more. They have then queued a job for each of them, once, in
-- the order of their ids, and counted them: where the time is read once, each with the delay up to
-- its next attempt from then; and whatever the times are at which the pages are queued, the same jobs
-- but for their delays.
pub enqueue_pages_lem :
    (wanted : Email → Bool) (size : ℕ) (rows : List Email) (clock : Option ℕ → ℕ) (now fuel : ℕ)
    → DistinctIds rows
    → 0 < size
    → length (sort_by_id (keep wanted rows)) < fuel
    → (enqueue_pages wanted size rows now fuel none
        ≡ some (
          enqueue_email_rows (map select (sort_by_id (keep wanted rows))) now,
          length (sort_by_id (keep wanted rows)),
        ))
      × (jobs : List QueuedJob) × (enqueue_pages_at wanted size rows clock fuel none
          ≡ some (jobs, length (sort_by_id (keep wanted rows))))
      × (map untimed jobs
          ≡ map untimed (enqueue_email_rows (map select (sort_by_id (keep wanted rows))) now))
unfolding enqueue_pages
enqueue_pages_lem wanted size rows clock now fuel distinct pos enough =
    let all = sort_by_id (keep wanted rows) in
    let once : enqueue_pages_at wanted size rows (λ c. now) fuel none
        ≡ some (enqueue_email_rows (map select all) now, length all) =
      pages_lem wanted size rows now fuel none [] all pos
        (sort_by_id-IsAscending (keep wanted rows) (keep-DistinctIds wanted rows distinct)) refl
        refl enough in
    let (jobs, queued, alike) = any_clock wanted size rows clock now fuel none _ _ once in
    (once, jobs, queued, alike)
