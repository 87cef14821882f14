-- ===== src/Session/Examples.antt =====
-- A session that is stored, read, touched and closed.
use abhishek_bhat2005_reachi.Base.{
  ◌+◌, ◌≡◌, refl, true, Option, none, some, [], ◌∷◌, Text, codes, text_eq, ok, if◌then◌else◌, ltb,
}
use abhishek_bhat2005_reachi.GoogleUser.{AuthenticatedUser}
use abhishek_bhat2005_reachi.Session.{
  TextEntry, SessionRedis, SessionData, SessionJson, StoreConfig, renewed_entry, get, set, touch,
  destroy, Logout,
}
use abhishek_bhat2005_reachi.Session.Store.{get-set, get-touch}

-- A server whose keys are a function.
abbrev redis : SessionRedis
redis = record {
  Keys = Text → Option TextEntry;
  entry = λ s k. s k;
  psetex = λ k ttl v clock s j.
      if text_eq k j then some (record { value = v; expires_at = clock + ttl }) else s j;
  del = λ k s j. if text_eq k j then none else s j;
  pexpire = λ k ttl clock s j. if text_eq k j then renewed_entry ttl clock (s j) else s j;
  entry-psetex = λ k ttl v clock s j. refl;
  entry-del = λ k s j. refl;
  entry-pexpire = λ k ttl clock s j. refl;
}

abbrev session : SessionData
session = record { expires = some 5000; user = some 1; rest = [] }

abbrev json : SessionJson
json = record {
  stringify = λ s. elim s.expires [ none ↦ [] | some t ↦ t ∷ [] ];
  parse = λ s. elim s [
    | [] ↦ none
    | t ∷ rest ↦ some (record { expires = some t; user = some 1; rest = [] })
  ];
}

abbrev config : StoreConfig
config = record { key_prefix = codes "s:"; default_ttl_ms = 3000 }

get-set_example :
    get redis json config
      (codes "a")
      4999
      true
      (set redis json config (codes "a") session 1000 true (λ k. none)).1
    ≡ (if text_eq (codes "a") (codes "a")
        then ok (if ltb 4999 (1000 + 4000) then some session else none)
        else get redis json config (codes "a") 4999 true (λ k. none))
get-set_example =
    get-set redis json config (codes "a") (codes "a") session 1000 4999 (λ k. none) refl

found :
    get redis json config
      (codes "a")
      2000
      true
      (set redis json config (codes "a") session 1000 true (λ k. none)).1
    ≡ ok (some session)
unfolding get set text_eq
found = refl

get-touch_example :
    get redis json config
      (codes "a")
      4500
      true
      (touch redis json config
        (codes "a")
        session
        2000
        true
        (set redis json config (codes "a") session 1000 true (λ k. none)).1).1
    ≡ ok (if ltb 4500 (2000 + 3000) then some session else none)
get-touch_example =
    get-touch redis json config (codes "a") session (some session) 2000 4500
      (set redis json config (codes "a") session 1000 true (λ k. none)).1 found

abbrev user : AuthenticatedUser
user = record { id = 1; email = codes "a@b"; name = codes "A"; avatar_url = none }

-- The session is destroyed, and the request has another one.
abbrev log_out : Logout redis
log_out id keys = record {
  outcome = ok tt;
  new_id = codes "b";
  keys = (destroy redis json config id true keys).1;
}

abbrev stored : redis.Keys
stored = (set redis json config (codes "a") session 1000 true (λ k. none)).1
