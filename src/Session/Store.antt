-- ===== src/Session/Store.antt =====
-- What is read back from the store of sessions.
use abhishek_bhat2005_reachi.Base.{
  ℕ, ◌+◌, ◌≡◌, refl, true, Option, none, some, Text, text_eq, text_eq_refl, text_eq-append, ltb, ok,
  if◌then◌else◌, arith, Bool-cases, inl, inr,
}
use abhishek_bhat2005_reachi.Session.{
  TextEntry, session_of, live_text, renewed_entry, SessionRedis, SessionData, SessionJson,
  StoreConfig, key, ttl_ms, get, set, touch, Logout,
}

-- A text that is read twice, from an entry that was live.
renewed_lem :
    (J : SessionJson) (e : Option TextEntry) (ttl clock clock' : ℕ) (found : Option SessionData)
    → session_of J (live_text clock e) ≡ ok found
    → session_of J (live_text clock' (renewed_entry ttl clock e))
      ≡ ok (if ltb clock' (clock + ttl) then found else none)
renewed_lem J none ttl clock clock' found h = ground arith
renewed_lem J (some e) ttl clock clock' found h = elim (Bool-cases (ltb clock e.expires_at)) [
  | inl before ↦
      let read_before : session_of J (some e.value) ≡ ok found = rw before at h in
      elim (Bool-cases (ltb clock' (clock + ttl))) [
        | inl within ↦ rw before (rw within read_before)
        | inr over ↦ rw before (rw over refl)
      ]
  | inr after ↦ let nothing : ok none ≡ ok found = rw after at h in rw after (ground arith)
]

-- A session that was stored is what is read under its id, until the expiry of its cookie, or the
-- default time to live, is over, and then nothing is; the other sessions are read as before.
pub get-set :
    (R : SessionRedis) (J : SessionJson) (config : StoreConfig) (id id' : Text)
    (session : SessionData) (clock clock' : ℕ) (keys : R.Keys)
    → J.parse (J.stringify session) ≡ some session
    → get R J config id' clock' true (set R J config id session clock true keys).1 ≡ (
        if text_eq id id'
        then ok (if ltb clock' (clock + ttl_ms config session clock) then some session else none)
        else get R J config id' clock' true keys)
unfolding set get
get-set R J config id id' session clock clock' keys json =
    rw
      (
        R.entry-psetex (key config id) (ttl_ms config session clock) (J.stringify session) clock
            keys (key config id'),
        text_eq-append config.key_prefix id id',
      )
      (elim (Bool-cases (text_eq id id')) [
        | inl same ↦ rw same (ground (arith, json))
        | inr other ↦ rw other refl
      ])

-- A touched session is read as before, now until the new expiry; and a session that is over stays so.
pub get-touch :
    (R : SessionRedis) (J : SessionJson) (config : StoreConfig) (id : Text) (session : SessionData)
    (found : Option SessionData) (clock clock' : ℕ) (keys : R.Keys)
    → get R J config id clock true keys ≡ ok found
    → get R J config id clock' true (touch R J config id session clock true keys).1
      ≡ ok (if ltb clock' (clock + ttl_ms config session clock) then found else none)
unfolding touch get
get-touch R J config id session found clock clock' keys h =
    rw
      (
        R.entry-pexpire (key config id) (ttl_ms config session clock) clock keys (key config id),
        text_eq_refl (key config id),
      )
      (renewed_lem J (R.entry keys (key config id)) (ttl_ms config session clock) clock clock' found
        h)

-- What passport documents of a logout that succeeds: the session is regenerated, so the store has
-- destroyed the one that the request came with.
abbrev pub Regenerates : (R : SessionRedis) → StoreConfig → Logout R → Type 0
Regenerates R config log_out =
    (id : Text) (keys : R.Keys)
    → (log_out id keys).outcome ≡ ok tt
    → R.entry (log_out id keys).keys (key config id) ≡ none
