-- ===== src/CashBalance/Caught.antt =====
-- What the failures of the broker's queries leave of an account, and of its cache.
use the_wealth.Base.{
  ℕ, ◌+◌, ◌≤◌, ◌≡◌, refl, ap, ◌∙◌, ◌⊎◌, inl, inr, true, false, Option, none, some, List, [], ◌∷◌,
  String, is_some, ltb, arith, if◌then◌else◌,
}
use the_wealth.Base.Int.{ℤ}
use the_wealth.Base.Text.{str_eq_refl}
use the_wealth.Outcome.{Result, ok, raise, Fault, runtime_error}
use the_wealth.Store.{KisAccount}
use the_wealth.Cache.{Fallback, get}
use the_wealth.Cache.Laws.{live, get-live, setex-live}
use the_wealth.Settlement.Query.{decrypt_keys}
use the_wealth.CashBalance.{
  account_key, account_cache_ttl, CashBalance, PendingOrder, OverseasHolding, OverseasSummary,
  OverseasPresentBalance, BrokerReplies, CashSummaryAccount, compute_pending_buy_reservation,
  usd_of, overseas_or_none, rate_or_fallback,
}
use the_wealth.CashBalance.Fetch.{
  Fetched, kept, reported, with_overseas, with_domestic, with_keys, keep_fetched,
  fetch_cash_balance_for_account,
}

-- an answer, or a `RuntimeError`
abbrev pub IsCaught : {A : Type 0} → Result A → Type 0
IsCaught {A} r = ((a : A) × (r ≡ ok a)) ⊎ (r ≡ raise runtime_error)

-- what an account that was fetched shows, and whether it is kept
abbrev IsOf : KisAccount → Fetched → Type 0
IsOf acct (kept a) = (a.kis_account_id ≡ acct.id) × (is_some a.error ≡ false)
IsOf acct (reported a) = (a.kis_account_id ≡ acct.id) × (is_some a.error ≡ true)

abbrev Answers : KisAccount → Result Fetched → Type 0
Answers acct r = (f : Fetched) × (r ≡ ok f) × IsOf acct f

reservation-ok :
    (r : Result (List PendingOrder))
    → IsCaught r
    → (n : ℤ) × (compute_pending_buy_reservation r ≡ ok n)
reservation-ok r (inl (pending, e)) = rw e (_, refl)
reservation-ok r (inr e) = rw e (_, refl)

usd_of-ok :
    (rate : ℤ) (r : Result OverseasPresentBalance)
    → IsCaught r
    → (usd : ℤ × ℤ) × (usd_of rate r ≡ ok usd)
usd_of-ok rate r (inl (p, e)) = rw e (_, refl)
usd_of-ok rate r (inr e) = rw e (_, refl)

module _ (acct : KisAccount) (replies : BrokerReplies) (message : Fault → String)
    (pending : IsCaught replies.pending_orders) (present : IsCaught replies.present) where
  with_overseas-Answers :
      (domestic : CashBalance) (reservation : ℤ) (found : List OverseasHolding × OverseasSummary)
      → Answers acct (with_overseas acct domestic reservation replies found)
  with_overseas-Answers domestic reservation ([], summary) = (_, refl, (refl, refl))
  with_overseas-Answers domestic reservation (h ∷ hs, summary) =
      let (usd, e) = usd_of-ok (rate_or_fallback replies.exchange_rate) replies.present present in
      rw e (_, refl, (refl, refl))

  with_domestic-Answers :
      (domestic : Result CashBalance)
      → IsCaught domestic
      → Answers acct (with_domestic message acct replies domestic)
  with_domestic-Answers domestic (inl (balance, e)) =
      let (n, f) = reservation-ok replies.pending_orders pending in
      rw (e, f) (with_overseas-Answers balance n (overseas_or_none replies.overseas))
  with_domestic-Answers domestic (inr e) = rw e (_, refl, (refl, refl))

  with_keys-Answers :
      (keys : Option (String × String))
      → IsCaught replies.domestic
      → Answers acct (with_keys message acct replies keys)
  with_keys-Answers none h = (_, refl, (refl, refl))
  with_keys-Answers (some keys) h = with_domestic-Answers replies.domestic h

-- the account is given, and it is in the cache exactly where it has no error
abbrev pub IsGiven :
    ℕ
    → KisAccount
    → Fallback CashSummaryAccount
    → Result CashSummaryAccount × Fallback CashSummaryAccount
    → Type 0
IsGiven later acct c (end, c') =
    (a : CashSummaryAccount) × (end ≡ ok a)
    × (a.kis_account_id ≡ acct.id)
    × (live later (account_key acct.id) c'
        ≡ (if is_some a.error then live later (account_key acct.id) c else some a))

keep_fetched-IsGiven :
    (now later : ℕ) (acct : KisAccount) (c : Fallback CashSummaryAccount) (f : Fetched)
    → later ≤ now + account_cache_ttl
    → IsOf acct f
    → IsGiven later acct c (keep_fetched now acct c (ok f))
keep_fetched-IsGiven now later acct c (kept a) h (i, e) =
    let key = account_key acct.id in
    let in_time : ltb (now + account_cache_ttl) later ≡ false = ground (arith, h) in
    (
      a,
      refl,
      i,
      rw (setex-live now later key key account_cache_ttl a c, str_eq_refl key, in_time, e) refl,
    )
keep_fetched-IsGiven now later acct c (reported a) h (i, e) = (a, refl, i, rw e refl)

-- Where nothing is cached for an account, it is given whatever fails with a `RuntimeError`, and
-- whatever happens to the positions abroad and the exchange rate: no such failure raises. Until
-- thirty seconds have passed the cache gives it again where it has no error, and what the cache gave
-- before where it has one.
pub fetch_cash_balance-IsGiven :
    (now later : ℕ) (message : Fault → String) (decrypt : String → Option String)
    (acct : KisAccount) (replies : BrokerReplies) (c : Fallback CashSummaryAccount)
    → live now (account_key acct.id) c ≡ none
    → IsCaught replies.domestic
    → IsCaught replies.pending_orders
    → IsCaught replies.present
    → now ≤ later
    → later ≤ now + account_cache_ttl
    → IsGiven later acct c (fetch_cash_balance_for_account now message decrypt acct replies c)
unfolding fetch_cash_balance_for_account
fetch_cash_balance-IsGiven now later message decrypt acct replies c absent domestic pending present
      l h =
    let key = account_key acct.id in
    let (value, after) = get-live now later key key c l in
    let (f, e, i) =
      with_keys-Answers acct replies message pending present (decrypt_keys decrypt acct) domestic in
    let (a, end, own, cached) = keep_fetched-IsGiven now later acct (get now key c).1 f h i in
    rw (value ∙ absent, e)
      (a, end, own, cached ∙ ap (λ m. if is_some a.error then m else some a) after)
