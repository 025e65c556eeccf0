-- ===== src/CashBalance/Laws.antt =====
-- The sums that a user is shown, and the failures that they survive.
use mathlib.Core.Path.{subst}
use the_wealth.Base.{
  ℕ, ◌+◌, ◌≤◌, ◌≡◌, refl, sym, ◌∙◌, inl, inr, Bool, true, false, Option, none, some, List, [], ◌∷◌,
  ◌++◌, String, ◌==◌, All, ltb, arith, Bool-cases, select, if◌then◌else◌,
}
use the_wealth.Base.Int.{ℤ, pos, ◌+ℤ◌, int_laws}
use the_wealth.Base.Text.{str_eq}
use the_wealth.Outcome.{Result, ok, raise, Fault}
use the_wealth.Store.{KisAccount}
use the_wealth.Cache.{Fallback, get, setex}
use the_wealth.Cache.Laws.{live, get-live, setex-live}
use the_wealth.OrderLock.{truthy}
use the_wealth.CashBalance.{
  user_key, user_summary_cache_ttl, BrokerReplies, CashSummaryAccount, CashSummaryResponse,
  failed_account,
}
use the_wealth.CashBalance.Fetch.{fetch_cash_balance_for_account}
use the_wealth.CashBalance.Summary.{
  CashCaches, empty_response, plus_given, add_result, gather, summarize, or_summarize,
  aggregate_cash_balance_for_user,
}

-- the sum of a column over the accounts that have no error
abbrev pub counted_amount : (CashSummaryAccount → Option ℤ) → CashSummaryAccount → ℤ
counted_amount column a = if truthy a.error then pos 0 else plus_given (pos 0) (column a)

abbrev pub sum_of : (CashSummaryAccount → Option ℤ) → List CashSummaryAccount → ℤ
sum_of column [] = pos 0
sum_of column (a ∷ rows) = counted_amount column a +ℤ sum_of column rows

pub record IsSummed (r : CashSummaryResponse) : Type 0 where
  pub cash : r.total_cash ≡ sum_of (λ a. a.total_cash) r.accounts
  pub available : r.available_cash ≡ sum_of (λ a. a.available_cash) r.accounts
  pub evaluation : r.total_evaluation ≡ sum_of (λ a. a.total_evaluation) r.accounts
  pub profit_loss : r.total_profit_loss ≡ sum_of (λ a. a.total_profit_loss) r.accounts
  pub flagged : r.has_errors ≡ false → All (λ a. truthy a.error ≡ false) r.accounts

sum_of-snoc :
    (column : CashSummaryAccount → Option ℤ) (rows : List CashSummaryAccount)
    (a : CashSummaryAccount)
    → sum_of column (rows ++ a ∷ []) ≡ sum_of column rows +ℤ counted_amount column a
sum_of-snoc column [] a = omega int_laws
sum_of-snoc column (b ∷ rows) a = rw (sum_of-snoc column rows a) (omega int_laws)

plus_given-sum : (total : ℤ) (o : Option ℤ) → plus_given total o ≡ total +ℤ plus_given (pos 0) o
plus_given-sum total none = omega int_laws
plus_given-sum total (some amount) = omega int_laws

add_zero : (total : ℤ) → total ≡ total +ℤ pos 0
add_zero total = omega int_laws

All-snoc :
    (rows : List CashSummaryAccount) (a : CashSummaryAccount)
    → All (λ b. truthy b.error ≡ false) rows
    → truthy a.error ≡ false
    → All (λ b. truthy b.error ≡ false) (rows ++ a ∷ [])
All-snoc [] a h k = (k, tt)
All-snoc (b ∷ rows) a (h, hs) k = (h, All-snoc rows a hs k)

failed-counted :
    (column : CashSummaryAccount → Option ℤ) (a : CashSummaryAccount)
    → column a ≡ none
    → counted_amount column a ≡ pos 0
failed-counted column a h = elim (Bool-cases (truthy a.error)) [
  | inl e ↦ rw e refl
  | inr e ↦ rw (e, h) refl
]

-- an account that adds nothing
skipped :
    (column : CashSummaryAccount → Option ℤ) (total : ℤ) (rows : List CashSummaryAccount)
    (a : CashSummaryAccount)
    → total ≡ sum_of column rows
    → counted_amount column a ≡ pos 0
    → total ≡ sum_of column (rows ++ a ∷ [])
skipped column total rows a h k =
    rw (sum_of-snoc column rows a, k) (h ∙ add_zero (sum_of column rows))

added :
    (column : CashSummaryAccount → Option ℤ) (total : ℤ) (rows : List CashSummaryAccount)
    (a : CashSummaryAccount)
    → total ≡ sum_of column rows
    → truthy a.error ≡ false
    → plus_given total (column a) ≡ sum_of column (rows ++ a ∷ [])
added column total rows a h e =
    rw (sum_of-snoc column rows a, e, ← h) (plus_given-sum total (column a))

add_result-IsSummed :
    (message : Fault → String) (acct : KisAccount) (result : Result CashSummaryAccount)
    (s : CashSummaryResponse)
    → IsSummed s
    → IsSummed (add_result message acct result s)
add_result-IsSummed message acct (raise fault) s i =
    let a = failed_account acct (message fault) in
    record {
      cash =
          skipped (λ b. b.total_cash) s.total_cash s.accounts a i.cash
            (failed-counted (λ b. b.total_cash) a refl);
      available =
          skipped (λ b. b.available_cash) s.available_cash s.accounts a i.available
            (failed-counted (λ b. b.available_cash) a refl);
      evaluation =
          skipped (λ b. b.total_evaluation) s.total_evaluation s.accounts a i.evaluation
            (failed-counted (λ b. b.total_evaluation) a refl);
      profit_loss =
          skipped (λ b. b.total_profit_loss) s.total_profit_loss s.accounts a i.profit_loss
            (failed-counted (λ b. b.total_profit_loss) a refl);
      flagged = λ h. absurd (cc h);
    }
add_result-IsSummed message acct (ok a) s i = elim (Bool-cases (truthy a.error)) [
  | inl e ↦
      let none_of =
        λ (column : CashSummaryAccount → Option ℤ) (total : ℤ)
            (h : total ≡ sum_of column s.accounts).
          skipped column total s.accounts a h (rw e refl) in
      rw e (record {
        cash = none_of (λ b. b.total_cash) s.total_cash i.cash;
        available = none_of (λ b. b.available_cash) s.available_cash i.available;
        evaluation = none_of (λ b. b.total_evaluation) s.total_evaluation i.evaluation;
        profit_loss = none_of (λ b. b.total_profit_loss) s.total_profit_loss i.profit_loss;
        flagged = λ h. absurd (cc h);
      })
  | inr e ↦ rw e (record {
    cash = added (λ b. b.total_cash) s.total_cash s.accounts a i.cash e;
    available = added (λ b. b.available_cash) s.available_cash s.accounts a i.available e;
    evaluation = added (λ b. b.total_evaluation) s.total_evaluation s.accounts a i.evaluation e;
    profit_loss = added (λ b. b.total_profit_loss) s.total_profit_loss s.accounts a i.profit_loss e;
    flagged = λ h. All-snoc s.accounts a (i.flagged h) e;
  })
]

module _ (now : ℕ) (message : Fault → String) (decrypt : String → Option String)
    (replies : KisAccount → BrokerReplies) where
  gather-IsSummed :
      (accts : List KisAccount) (s : CashSummaryResponse) (c : Fallback CashSummaryAccount)
      → IsSummed s
      → IsSummed (gather now message decrypt replies accts s c).0
  unfolding gather
  gather-IsSummed [] s c i = i
  gather-IsSummed (acct ∷ accts) s c i =
      let (result, c') = fetch_cash_balance_for_account now message decrypt acct (replies acct) c in
      gather-IsSummed accts (add_result message acct result s) c'
        (add_result-IsSummed message acct result s i)

-- every summary that the cache gives from `now` on
abbrev pub AreSummed : ℕ → Fallback CashSummaryResponse → Type 0
AreSummed now c =
    (later : ℕ) (key : String) (r : CashSummaryResponse)
    → now ≤ later
    → live later key c ≡ some r
    → IsSummed r

get-AreSummed :
    (now : ℕ) (key : String) (c : Fallback CashSummaryResponse)
    → AreSummed now c
    → AreSummed now (get now key c).1
get-AreSummed now key c h later other r l e =
    h later other r l (sym ((get-live now later key other c l).1) ∙ e)

setex-AreSummed :
    (now ttl : ℕ) (key : String) (r : CashSummaryResponse) (c : Fallback CashSummaryResponse)
    → IsSummed r
    → AreSummed now c
    → AreSummed now (setex now key ttl r c)
setex-AreSummed now ttl key r c i h later other r' l e =
    let f = sym (setex-live now later key other ttl r c) ∙ e in
    elim (Bool-cases (str_eq key other)) [
      | inl same ↦ elim (Bool-cases (ltb (now + ttl) later)) [
        | inl over ↦ absurd (cc (rw (same, over) at f))
        | inr fresh ↦ subst IsSummed (cc (rw (same, fresh) at f)) i
      ]
      | inr other_key ↦ h later other r' l (rw other_key at f)
    ]

empty-IsSummed : (connected : Bool) → IsSummed (empty_response connected)
empty-IsSummed connected = record {
  cash = refl;
  available = refl;
  evaluation = refl;
  profit_loss = refl;
  flagged = λ h. tt;
}

module _ (now : ℕ) (message : Fault → String) (decrypt : String → Option String)
    (replies : KisAccount → BrokerReplies) (user : ℕ) where
  summarize-AreSummed :
      (accounts : List KisAccount) (caches : CashCaches)
      → AreSummed now caches.summaries
      → IsSummed (summarize now message decrypt replies user accounts caches).0
        × AreSummed now (summarize now message decrypt replies user accounts caches).1.summaries
  summarize-AreSummed [] caches h = (empty-IsSummed false, h)
  summarize-AreSummed (acct ∷ accts) caches h =
      let i =
        gather-IsSummed now message decrypt replies (acct ∷ accts) (empty_response true)
          caches.balances (empty-IsSummed true) in
      (i, setex-AreSummed now user_summary_cache_ttl (user_key user) _ caches.summaries i h)

  or_summarize-AreSummed :
      (accounts : List KisAccount) (cached : Option CashSummaryResponse) (caches : CashCaches)
      → ((r : CashSummaryResponse) → cached ≡ some r → IsSummed r)
      → AreSummed now caches.summaries
      → IsSummed (or_summarize now message decrypt replies user accounts cached caches).0
        × AreSummed now
            (or_summarize now message decrypt replies user accounts cached caches).1.summaries
  or_summarize-AreSummed accounts (some r) caches k h = (k r refl, h)
  or_summarize-AreSummed accounts none caches k h =
      summarize-AreSummed (select (λ a. a.user_id == user) accounts) caches h

  -- Where every summary in the cache adds up, so does the one that a user gets and every one that is
  -- cached then: each of its four totals is the sum of that column over its accounts without an
  -- error, whatever the broker answered, and if it reports no errors no account has one.
  pub aggregate-AreSummed :
      (accounts : List KisAccount) (caches : CashCaches)
      → AreSummed now caches.summaries
      → IsSummed
          (aggregate_cash_balance_for_user now message decrypt replies user accounts caches).0
        × AreSummed now
            (aggregate_cash_balance_for_user now message decrypt replies user accounts
              caches).1.summaries
  unfolding aggregate_cash_balance_for_user
  aggregate-AreSummed accounts caches h =
      let key = user_key user in
      let (_, summaries) = get now key caches.summaries in
      or_summarize-AreSummed accounts (get now key caches.summaries).0
        (record caches { summaries = summaries })
        (λ r e.
          h now key r (omega arith)
            (sym ((get-live now now key key caches.summaries (omega arith)).0) ∙ e))
        (get-AreSummed now key caches.summaries h)
