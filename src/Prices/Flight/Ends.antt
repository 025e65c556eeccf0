-- ===== src/Prices/Flight/Ends.antt =====
-- A call for a detail ends, whatever the others do to the caches, and where its answer comes from.
use the_wealth.Base.{
  ℕ, zero, suc, ◌+◌, ◌-◌, ◌/◌, ◌≤◌, ◌<◌, ◌≡◌, ◌≢◌, refl, ap, ◌∙◌, Bool, true, false, Option, none,
  some, ◌⊎◌, inl, inr, String, ltb, arith, Bool-cases, if◌then◌else◌,
}
use the_wealth.Outcome.{Result, ok, raise}
use the_wealth.Cache.{set_nx}
use the_wealth.Prices.{Now, PriceCaches, is_positive}
use the_wealth.Prices.Quote.{
  Answer, DomesticOutput, OverseasOutput, DetailOutput, fetch_domestic_price_detail,
  fetch_overseas_price_detail,
}
use the_wealth.Prices.Detail.{Decimals, Payload, get_cached_price_detail}
use the_wealth.Prices.Flight.{
  Phase, started, contending, polling, fetching, storing, storing_price, releasing, returned,
  Detailed, after_read, after_fetch, finish, Moment, lock_key, singleflight_lock_ttl, run_phase,
  run_among, get_or_fetch_domestic_price_detail, get_or_fetch_overseas_price_detail,
}

-- steps that a phase has left at most
abbrev rank : Phase → ℕ
rank started = 45
rank contending = 44
rank (polling elapsed_ms) = 5 + (3079 - elapsed_ms) / 80
rank (fetching is_leader) = 4
rank (storing is_leader detail) = 3
rank (storing_price is_leader detail) = 2
rank (releasing end) = 1
rank (returned end) = 0

polling-rank : (e : ℕ) → e < 3000 → suc ((3079 - (e + 80)) / 80) ≤ (3079 - e) / 80
polling-rank e h = grind arith

after_read-rank : (p : Phase) (r : Detailed) → rank (after_read p r) ≤ rank p
after_read-rank p (raise f) = omega arith
after_read-rank p (ok none) = omega arith
after_read-rank p (ok (some d)) = omega arith

finish-rank : (b : Bool) (r : Detailed) → rank (finish b r) ≤ 1
finish-rank true r = omega arith
finish-rank false r = omega arith

after_fetch-rank : (b : Bool) (r : Detailed) → rank (after_fetch b r) ≤ 3
after_fetch-rank b (raise f) = omega (arith, finish-rank b (raise f))
after_fetch-rank b (ok none) = omega (arith, finish-rank b (ok none))
after_fetch-rank b (ok (some d)) = elim (Bool-cases (is_positive d.current)) [
  | inl e ↦ rw e (omega arith)
  | inr e ↦ rw e (omega (arith, finish-rank b (ok none)))
]

module _ (ds : Decimals) (ticker : String) (ttl : Option ℕ) where
  step-rank :
      (m : Moment) (p : Phase) (c : PriceCaches Payload) (n : ℕ)
      → rank p ≤ suc n
      → rank (run_phase ds ticker ttl m p c).0 ≤ n
  unfolding run_phase
  step-rank m started c n h =
      omega
        (arith, h, after_read-rank contending (get_cached_price_detail ds m.now ticker c.details).0)
  step-rank m contending c n h =
      elim (Bool-cases
        (set_nx m.now.seconds (lock_key ticker) singleflight_lock_ttl "1" c.locks).0) [
          | inl e ↦ rw e (omega (arith, h))
          | inr e ↦ rw e (omega (arith, h))
        ]
  step-rank m (polling e) c n h = elim (Bool-cases (ltb e 3000)) [
    | inl b ↦
        let r = (get_cached_price_detail ds m.now ticker c.details).0 in
        rw b (
          omega
            (arith, h, polling-rank e (ground (arith, b)), after_read-rank (polling (e + 80)) r))
    | inr b ↦ rw b (omega (arith, h))
  ]
  step-rank m (fetching b) c n h = omega (arith, h, after_fetch-rank b m.reply)
  step-rank m (storing b d) c n h = omega (arith, h)
  step-rank m (storing_price b d) c n h = omega (arith, h, finish-rank b (ok (some d)))
  step-rank m (releasing r) c n h = omega (arith, h)
  step-rank m (returned r) c n h = omega (arith, h)

-- the broker's answer, with a price that is not positive as none
abbrev pub checked : Detailed → Detailed
checked (raise fault) = raise fault
checked (ok none) = ok none
checked (ok (some detail)) = if is_positive detail.current then ok (some detail) else ok none

module _ (ds : Decimals) (ticker : String) (ttl : Option ℕ) (times : ℕ → Now) (reply : Detailed)
    (caches : ℕ → PriceCaches Payload) where
  -- what a call would read at a step
  abbrev pub read_at : ℕ → Detailed
  read_at k = (get_cached_price_detail ds (times k) ticker (caches k).details).0

  -- the broker's answer, or what the cache gave at a step
  abbrev pub IsFrom : Detailed → Type 0
  IsFrom end = (checked reply ≡ end) ⊎ ((k : ℕ) × (read_at k ≡ end) × (end ≢ ok none))

  abbrev IsSound : Phase → Type 0
  IsSound started = Unit
  IsSound contending = Unit
  IsSound (polling elapsed_ms) = Unit
  IsSound (fetching is_leader) = Unit
  IsSound (storing is_leader detail) = IsFrom (ok (some detail))
  IsSound (storing_price is_leader detail) = IsFrom (ok (some detail))
  IsSound (releasing end) = IsFrom end
  IsSound (returned end) = IsFrom end

  after_read-IsSound :
      (k : ℕ) (absent : Phase) (r : Detailed)
      → read_at k ≡ r
      → IsSound absent
      → IsSound (after_read absent r)
  after_read-IsSound k absent (raise f) e h = inr (k, e, λ n. absurd (cc n))
  after_read-IsSound k absent (ok none) e h = h
  after_read-IsSound k absent (ok (some d)) e h = inr (k, e, λ n. absurd (cc n))

  finish-IsSound : (b : Bool) (end : Detailed) → IsFrom end → IsSound (finish b end)
  finish-IsSound true end h = h
  finish-IsSound false end h = h

  after_fetch-IsSound : (b : Bool) (r : Detailed) → reply ≡ r → IsSound (after_fetch b r)
  after_fetch-IsSound b (raise f) e = finish-IsSound b (raise f) (inl (ap checked e))
  after_fetch-IsSound b (ok none) e = finish-IsSound b (ok none) (inl (ap checked e))
  after_fetch-IsSound b (ok (some d)) e = elim (Bool-cases (is_positive d.current)) [
    | inl p ↦ rw p (inl (ap checked e ∙ rw p refl))
    | inr p ↦ rw p (finish-IsSound b (ok none) (inl (ap checked e ∙ rw p refl)))
  ]

  abbrev moments : ℕ → Moment
  moments k = record { now = times k; reply = reply }

  step-IsSound :
      (k : ℕ) (p : Phase) → IsSound p → IsSound (run_phase ds ticker ttl (moments k) p (caches k)).0
  unfolding run_phase
  step-IsSound k started h = after_read-IsSound k contending (read_at k) refl tt
  step-IsSound k contending h =
      let taken =
        (set_nx (times k).seconds (lock_key ticker) singleflight_lock_ttl "1" (caches k).locks).0 in
      elim (Bool-cases taken) [ inl e ↦ rw e tt | inr e ↦ rw e tt ]
  step-IsSound k (polling e) h = elim (Bool-cases (ltb e 3000)) [
    | inl b ↦ rw b (after_read-IsSound k (polling (e + 80)) (read_at k) refl tt)
    | inr b ↦ rw b tt
  ]
  step-IsSound k (fetching b) h = after_fetch-IsSound b reply refl
  step-IsSound k (storing b d) h = h
  step-IsSound k (storing_price b d) h = finish-IsSound b (ok (some d)) h
  step-IsSound k (releasing end) h = h
  step-IsSound k (returned end) h = h

  -- a call that has ended, and where its end is from
  abbrev pub Outcome : Phase → Type 0
  Outcome p = (end : Detailed) × (p ≡ returned end) × IsFrom end

  at_end : (p : Phase) → rank p ≤ 0 → IsSound p → Outcome p
  at_end started h s = absurd (omega (arith, h))
  at_end contending h s = absurd (omega (arith, h))
  at_end (polling e) h s = absurd (omega (arith, h))
  at_end (fetching b) h s = absurd (omega (arith, h))
  at_end (storing b d) h s = absurd (omega (arith, h))
  at_end (storing_price b d) h s = absurd (omega (arith, h))
  at_end (releasing end) h s = absurd (omega (arith, h))
  at_end (returned end) h s = (end, refl, s)

  pub run_among-Outcome :
      (n k : ℕ) (p : Phase)
      → rank p ≤ n
      → IsSound p
      → Outcome (run_among ds ticker ttl n moments caches k p)
  unfolding run_among
  run_among-Outcome zero k p h s = at_end p h s
  run_among-Outcome (suc n) k p h s =
      run_among-Outcome n (suc k) (run_phase ds ticker ttl (moments k) p (caches k)).0
        (step-rank ds ticker ttl (moments k) p (caches k) n h) (step-IsSound k p s)

-- A call for a detail, domestic or overseas, ends after at most 45 steps, whatever the other calls do
-- to the caches and the lock in between; it gives what the cache gave at one of its steps, or what the
-- broker answered, a price that is not positive counting as none.
pub get_or_fetch_price_detail-Outcome :
    (ds : Decimals) (ticker : String) (ttl : Option ℕ) (times : ℕ → Now) (token : Result String)
    (answer : Answer DomesticOutput) (overseas : Answer OverseasOutput)
    (again : Answer DetailOutput) (caches : ℕ → PriceCaches Payload)
    → (Outcome ds ticker ttl times
        (fetch_domestic_price_detail ds.decimal token answer)
        caches
        (get_or_fetch_domestic_price_detail ds ticker ttl times token answer caches))
      × (Outcome ds ticker ttl times
          (fetch_overseas_price_detail ds.decimal token overseas again)
          caches
          (get_or_fetch_overseas_price_detail ds ticker ttl times token overseas again caches))
unfolding get_or_fetch_domestic_price_detail get_or_fetch_overseas_price_detail
get_or_fetch_price_detail-Outcome ds ticker ttl times token answer overseas again caches =
    let domestic = fetch_domestic_price_detail ds.decimal token answer in
    let foreign = fetch_overseas_price_detail ds.decimal token overseas again in
    (
      run_among-Outcome ds ticker ttl times domestic caches 45 0 started (omega arith) tt,
      run_among-Outcome ds ticker ttl times foreign caches 45 0 started (omega arith) tt,
    )
