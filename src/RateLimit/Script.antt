-- ===== src/RateLimit/Script.antt =====
-- `reserveScript`, seen through the three values that it reads of a sender's keys.
use abhishek_bhat2005_reachi.Base.{
  ℕ, ◌+◌, ◌≤◌, ◌<◌, ◌≡◌, Bool, true, false, not, ◌&&◌, List, [], ◌∷◌, Option, none, some,
  text_eq_refl, arith, ltb, leb, if◌then◌else◌, ◌⊎◌, Bool-cases, max, inl, inr,
}
use abhishek_bhat2005_reachi.RateLimit.Server.{
  Redis, Entry, live, get, exists, expiring, incremented, value_of,
}
use abhishek_bhat2005_reachi.RateLimit.Keys.{AreApart}
use abhishek_bhat2005_reachi.RateLimit.{RateKeys, or_zero, flag, take_reservation, reserve_script}

module _ (R : Redis) (k : RateKeys) (apart : AreApart k) where
  entry_after_incr :
      (e : Option Entry) (clock t : ℕ)
      → expiring t (live clock (some (incremented (live clock e))))
        ≡ some (record { value = or_zero (value_of (live clock e)) + 1; expires_at = some t })
  entry_after_incr none clock t = ground arith
  entry_after_incr (some e) clock t = ground arith

  module _ (now hour_end ttl clock : ℕ) (s : R.Store) where
    abbrev taken : R.Store
    taken = take_reservation R k now hour_end ttl clock s

    -- The keys after `take_reservation`, one by one.
    taken-count :
        R.entry taken k.count
        ≡ some (record {
          value = or_zero (get R k.count clock s) + 1;
          expires_at = some (hour_end + ttl);
        })
    unfolding take_reservation
    taken-count =
        rw (R.entry-pexpireat, R.entry-incr, R.entry-set_px, text_eq_refl, apart.reservation_count)
          (entry_after_incr (R.entry s k.count) clock (hour_end + ttl))

    taken-next : R.entry taken k.next ≡ R.entry s k.next
    unfolding take_reservation
    taken-next =
        simp (
          R.entry-pexpireat, R.entry-incr, R.entry-set_px, apart.count_next, apart.reservation_next,
        )

    taken-reservation :
        R.entry taken k.reservation ≡ some (record { value = now; expires_at = some (clock + ttl) })
    unfolding take_reservation
    taken-reservation =
        simp
          (R.entry-pexpireat, R.entry-incr, R.entry-set_px, apart.count_reservation, text_eq_refl)

  -- The reply and the keys of a refused reservation, and of an admitted one.
  module _ (now hour_end limit delay ttl clock : ℕ) (s : R.Store) where
    abbrev reserved : List ℕ × R.Store
    reserved = reserve_script R k now hour_end limit delay ttl clock s

    abbrev held : Bool
    held = exists R k.reservation clock s

    abbrev counted : ℕ
    counted = or_zero (get R k.count clock s)

    abbrev next_at : ℕ
    next_at = or_zero (get R k.next clock s)

    pub record IsRefused : Type 0 where
      pub why : ((held ≡ false) × (limit ≤ counted)) ⊎ (now < next_at)
      pub reply :
          (reserved.0 ≡ 0 ∷ max hour_end next_at ∷ 0 ∷ [])
          ⊎ ((reserved.0 ≡ 0 ∷ next_at ∷ flag held ∷ []) × (now < next_at))
      pub unchanged : reserved.1 ≡ s

    pub record IsAdmitted : Type 0 where
      pub within : (held ≡ true) ⊎ (counted < limit)
      pub spaced : next_at ≤ now
      pub reply : reserved.0 ≡ 1 ∷ now ∷ flag held ∷ []
      pub next :
          R.entry reserved.1 k.next
          ≡ some (record { value = now + delay; expires_at = some (clock + ttl) })
      pub count : R.entry reserved.1 k.count ≡ (
          if held
          then R.entry s k.count
          else some (record { value = counted + 1; expires_at = some (hour_end + ttl) }))
      pub reservation : R.entry reserved.1 k.reservation ≡ (
          if held
          then R.entry s k.reservation
          else some (record { value = now; expires_at = some (clock + ttl) }))

    pub reserve_script-cases : IsRefused ⊎ IsAdmitted
    unfolding reserve_script
    reserve_script-cases = elim (Bool-cases (not held && leb limit counted)) [
      | inl full ↦
          inl (record { why = ground arith; reply = inl (ground arith); unchanged = ground arith })
      | inr room ↦ elim (Bool-cases (ltb now next_at)) [
        | inl early ↦ inl (record {
          why = inr (ground arith);
          reply = inr (ground arith);
          unchanged = ground arith;
        })
        | inr due ↦ inr (record {
          within = ground arith;
          spaced = ground arith;
          reply = ground arith;
          next = rw (room, reserve_script) (rw due (simp (R.entry-set_px, text_eq_refl)));
          count =
              rw (room, reserve_script)
                (rw due (
                  simp (R.entry-set_px, apart.next_count)
                    (ground (arith, taken-count now hour_end ttl clock s))));
          reservation =
              rw (room, reserve_script)
                (rw due (
                  simp (R.entry-set_px, apart.next_reservation)
                    (ground (arith, taken-reservation now hour_end ttl clock s))));
        })
      ]
    ]
