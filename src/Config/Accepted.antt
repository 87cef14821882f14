-- ===== src/Config/Accepted.antt =====
-- What an accepted configuration guarantees.
use abhishek_bhat2005_reachi.Base.{
  ℕ, Option, ◌≤◌, ◌≡◌, ◌∙◌, none, text_eq, refl, Bool, true, false, not, some, List, [], ◌∷◌, ◌++◌,
  map, Text, codes, any, keep, arith, Bool-cases, Option-cases, inl, inr, take, drop,
}
use abhishek_bhat2005_reachi.Api.{is_policy}
use abhishek_bhat2005_reachi.Api.Lists.{is_limit}
use abhishek_bhat2005_reachi.Config.{
  EnvPlatform, Environment, AppConfig, Check, schema_fields, passes, field_issues, number,
  config_of, refine_issues, accept_if_none, environment_schema, with_port, load_config,
  email_api_config,
}

-- The five comparisons of the refinement.
pub record IsRefined (c : AppConfig) : Type 0 where
  pub least : c.min_send_delay_ms ≤ c.default_min_send_delay_ms
  pub greatest : c.default_min_send_delay_ms ≤ c.max_send_delay_ms
  pub hourly : c.default_emails_per_hour ≤ c.max_emails_per_hour
  pub page : c.api_page_size ≤ c.api_max_page_size
  pub reservation : 3600000 ≤ c.rate_limit_reservation_ttl_ms

refine_issues-IsRefined : (c : AppConfig) → refine_issues c ≡ [] → IsRefined c
unfolding refine_issues
refine_issues-IsRefined c h = record {
  least = ground arith;
  greatest = ground arith;
  hourly = ground arith;
  page = ground arith;
  reservation = ground arith;
}

append-nil : (xs ys : List Text) → xs ++ ys ≡ [] → (xs ≡ []) × (ys ≡ [])
append-nil [] ys h = (refl, h)
append-nil (x ∷ xs) ys h = absurd (cc)

accepted :
    (issues : List Text) (c c' : AppConfig)
    → accept_if_none issues c ≡ some c'
    → (issues ≡ []) × (c ≡ c')
accepted [] c c' h = (refl, cc)
accepted (i ∷ is) c c' h = absurd (cc)

abbrev Field : Type 0
Field = Text × Check

none_kept :
    (p : Field → Bool) (fs : List Field) → map (λ f. f.0) (keep p fs) ≡ [] → any p fs ≡ false
none_kept p [] h = refl
none_kept p (f ∷ fs) h = elim (Bool-cases (p f)) [
  | inl kept ↦ absurd (ground (arith, kept))
  | inr gone ↦ ground (arith, gone, none_kept p fs)
]

any-at :
    (p : Field → Bool) (fs : List Field) (f : Field) (gs : List Field)
    → any p (fs ++ f ∷ gs) ≡ false
    → p f ≡ false
any-at p [] f gs h = ground arith
any-at p (x ∷ fs) f gs h = any-at p fs f gs (ground arith)

-- The number in a variable that is set.
abbrev pub given_number : EnvPlatform → Option Text → Option ℕ
given_number P none = none
given_number P (some s) = P.coerce_number s

module _ (P : EnvPlatform) (env : Environment) where
  number-positive :
      (name : Text) → (not (passes P Check.positive (env name))) ≡ false → 1 ≤ number P env name
  unfolding passes
  number-positive name h = elim (Option-cases (env name)) [
    | inl missing ↦ absurd (ground (arith, missing))
    | inr (s, given) ↦ elim (Option-cases (P.coerce_number s)) [
      | inl bad ↦ absurd (ground (arith, given, bad))
      | inr (n, good) ↦ ground (arith, given, good)
    ]
  ]

  -- A positive field, by its place in the schema.
  positive_field :
      (before after : List Field) (name : Text)
      → before ++ (name, Check.positive) ∷ after ≡ schema_fields
      → field_issues P env ≡ []
      → 1 ≤ number P env name
  unfolding field_issues
  positive_field before after name place h =
      let fails = λ (f : Field). not (passes P f.1 (env f.0)) in
      let none_fails : any fails (before ++ (name, Check.positive) ∷ after) ≡ false =
        rw place (none_kept fails schema_fields h) in
      number-positive name (any-at fails before (name, Check.positive) after none_fails)

  -- A number that passes is there.
  number-some :
      (name : Text)
      → (not (passes P Check.positive (env name))) ≡ false
      → some (number P env name) ≡ given_number P (env name)
  unfolding passes
  number-some name h = elim (Option-cases (env name)) [
    | inl missing ↦ absurd (ground (arith, missing))
    | inr (s, given) ↦ elim (Option-cases (P.coerce_number s)) [
      | inl bad ↦ absurd (ground (arith, given, bad))
      | inr (n, good) ↦ ground (arith, given, good)
    ]
  ]

  positive_number :
      (before after : List Field) (name : Text)
      → before ++ (name, Check.positive) ∷ after ≡ schema_fields
      → field_issues P env ≡ []
      → some (number P env name) ≡ given_number P (env name)
  unfolding field_issues
  positive_number before after name place h =
      let fails = λ (f : Field). not (passes P f.1 (env f.0)) in
      let none_fails : any fails (before ++ (name, Check.positive) ∷ after) ≡ false =
        rw place (none_kept fails schema_fields h) in
      number-some name (any-at fails before (name, Check.positive) after none_fails)

port_lem :
    (P : EnvPlatform) (env : Environment)
    → given_number P (with_port env (codes "BACKEND_PORT")) ≡ (elim (env (codes "PORT")) [
      | none ↦ given_number P (env (codes "BACKEND_PORT"))
      | some port ↦ P.coerce_number port
    ])
unfolding with_port text_eq
port_lem P env = elim (Option-cases (env (codes "PORT"))) [
  | inl missing ↦ rw missing refl
  | inr (s, given) ↦ rw given refl
]

-- What an accepted configuration guarantees: the defaults that the compose form is given pass the
-- API's own checks of a policy and of a page size, a page of the queue's loops has at least one row,
-- keys of reservations live for an hour at least, and the port is the number in `PORT` where that is
-- set, and the one in `BACKEND_PORT` else.
pub load_config_lem :
    (P : EnvPlatform) (env : Environment) (c : AppConfig)
    → load_config P env ≡ some c
    → (is_policy (email_api_config c) c.default_emails_per_hour c.default_min_send_delay_ms ≡ true)
      × (is_limit (email_api_config c) (some c.api_page_size) ≡ true)
      × (1 ≤ c.reconciliation_batch_size)
      × (3600000 ≤ c.rate_limit_reservation_ttl_ms)
      × (some c.backend_port ≡ (elim (env (codes "PORT")) [
        | none ↦ given_number P (env (codes "BACKEND_PORT"))
        | some port ↦ P.coerce_number port
      ]))
unfolding load_config environment_schema config_of
load_config_lem P env c h =
    let made = config_of P (with_port env) in
    let (all_pass, same) =
      accepted (field_issues P (with_port env) ++ refine_issues made) made c h in
    let (fields, refined) =
      append-nil (field_issues P (with_port env)) (refine_issues made) all_pass in
    let r = refine_issues-IsRefined made refined in
    let emails =
      positive_field P (with_port env) (take 30 schema_fields) (drop 31 schema_fields)
        (codes "DEFAULT_EMAILS_PER_HOUR") refl fields in
    let page =
      positive_field P (with_port env) (take 43 schema_fields) (drop 44 schema_fields)
        (codes "API_PAGE_SIZE") refl fields in
    let batch =
      positive_field P (with_port env) (take 36 schema_fields) (drop 37 schema_fields)
        (codes "RECONCILIATION_BATCH_SIZE") refl fields in
    let port =
      positive_number P (with_port env) (take 2 schema_fields) (drop 3 schema_fields)
        (codes "BACKEND_PORT") refl fields
      ∙ port_lem P env in
    rw (← same) (
      ground (arith, r.least, r.greatest, r.hourly, emails),
      ground (arith, r.page, page),
      batch,
      r.reservation,
      port,
    )
