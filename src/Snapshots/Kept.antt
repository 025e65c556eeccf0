-- ===== src/Snapshots/Kept.antt =====
-- A close that was saved is the previous close of the days that follow.
use mathlib.Core.Path.{subst}
use the_wealth.Base.{
  ℕ, ◌≤◌, ◌<◌, ◌≡◌, refl, sym, ap, ◌∙◌, true, false, ◌&&◌, none, some, List, [], ◌∷◌, String, All,
  ltb, leb, inl, inr, Bool-cases, Option-cases, arith,
}
use the_wealth.Base.Int.{ℤ}
use the_wealth.Base.Text.{Dict, lookup, lookup-insert, str_eq, str_eq_iff, str_eq_refl}
use the_wealth.Settlement.Broker.{member}
use the_wealth.Prices.Bulk.Known.{KeysDistinct}
use the_wealth.Store.{PriceSnapshot}
use the_wealth.Snapshots.{
  is_snapshot, close_row, upsert, upsert_closes, save_snapshots, later_close, last_close,
  get_prev_close,
}

-- no row of the ticker before the day is later than the date
abbrev pub NoneLater : String → ℕ → ℕ → List PriceSnapshot → Type 0
NoneLater ticker date today =
    All (λ s. (str_eq s.ticker ticker && ltb s.snapshot_date today) ≡ true → s.snapshot_date ≤ date)

last_close-le :
    (t : String) (date today : ℕ) (ss : List PriceSnapshot) (d : ℕ) (c : ℤ)
    → NoneLater t date today ss
    → last_close t today ss ≡ some (d, c)
    → d ≤ date
last_close-le t date today [] d c a h = absurd (cc h)
last_close-le t date today (s ∷ ss) d c a h =
    elim (Bool-cases (str_eq s.ticker t && ltb s.snapshot_date today)) [
      | inr e ↦ last_close-le t date today ss d c a.1 (rw e at h)
      | inl e ↦ elim (Option-cases (last_close t today ss)) [
        | inl n ↦
            let same : s.snapshot_date ≡ d = cc (rw (e, n) at h) in
            subst (λ x. x ≤ date) same (a.0 e)
        | inr ((d', c'), n) ↦ elim (Bool-cases (leb d' s.snapshot_date)) [
          | inl l ↦
              let same : s.snapshot_date ≡ d = cc (rw (e, n, l) at h) in
              subst (λ x. x ≤ date) same (a.0 e)
          | inr l ↦
              let same : d' ≡ d = cc (rw (e, n, l) at h) in
              subst (λ x. x ≤ date) same (last_close-le t date today ss d' c' a.1 n)
        ]
      ]
    ]

-- the statement for one row
abbrev put : String → ℕ → ℤ → List PriceSnapshot → List PriceSnapshot
put ticker date close = upsert (λ s. record s { close = close }) (close_row ticker date close)

last_close-put :
    (t : String) (date today : ℕ) (p : ℤ) (ss : List PriceSnapshot)
    → date < today
    → NoneLater t date today ss
    → last_close t today (put t date p ss) ≡ some (date, p)
last_close-put t date today p [] h a =
    let b : ltb date today ≡ true = ground (arith, h) in rw (str_eq_refl t, b) refl
last_close-put t date today p (s ∷ ss) h a = elim (Bool-cases (is_snapshot t date s)) [
  | inl e ↦
      let own : s.snapshot_date ≡ date = ground (arith, e) in
      let f : (str_eq s.ticker t && ltb s.snapshot_date today) ≡ true = ground (arith, e, h) in
      elim (Option-cases (last_close t today ss)) [
        | inl n ↦ rw (e, f, n) (ap (λ d. some (d, p)) own)
        | inr ((d, c), n) ↦
            let le = last_close-le t date today ss d c a.1 n in
            let l : leb d s.snapshot_date ≡ true = ground (arith, own, le) in
            rw (e, f, n, l) (ap (λ x. some (x, p)) own)
      ]
  | inr e ↦ elim (Bool-cases (str_eq s.ticker t && ltb s.snapshot_date today)) [
    | inl f ↦
        let before = a.0 f in
        let l : leb date s.snapshot_date ≡ false = ground (arith, e, f, before) in
        rw (e, f, last_close-put t date today p ss h a.1, l) refl
    | inr f ↦ rw (e, f) (last_close-put t date today p ss h a.1)
  ]
]

last_close-put_other :
    (t u : String) (date today : ℕ) (p : ℤ) (ss : List PriceSnapshot)
    → str_eq u t ≡ false
    → last_close t today (put u date p ss) ≡ last_close t today ss
last_close-put_other t u date today p [] h = rw h refl
last_close-put_other t u date today p (s ∷ ss) h = elim (Bool-cases (is_snapshot u date s)) [
  | inl e ↦
      let same : str_eq s.ticker u ≡ true = ground (arith, e) in
      let other : str_eq s.ticker t ≡ false =
        subst (λ k. str_eq k t ≡ false) (sym ((str_eq_iff s.ticker u).0 same)) h in
      rw (e, other) refl
  | inr e ↦ elim (Bool-cases (str_eq s.ticker t && ltb s.snapshot_date today)) [
    | inl f ↦ rw (e, f) (ap (later_close s) (last_close-put_other t u date today p ss h))
    | inr f ↦ rw (e, f) (last_close-put_other t u date today p ss h)
  ]
]

put-NoneLater :
    (t u : String) (date today : ℕ) (p : ℤ) (ss : List PriceSnapshot)
    → NoneLater t date today ss
    → NoneLater t date today (put u date p ss)
put-NoneLater t u date today p [] a = ((λ e. omega arith), tt)
put-NoneLater t u date today p (s ∷ ss) a = elim (Bool-cases (is_snapshot u date s)) [
  | inl e ↦ rw e a
  | inr e ↦ rw e (a.0, put-NoneLater t u date today p ss a.1)
]

last_close-closes_other :
    (t : String) (date today : ℕ) (prices : Dict ℤ) (ss : List PriceSnapshot)
    → lookup t prices ≡ none
    → last_close t today (upsert_closes date prices ss) ≡ last_close t today ss
unfolding upsert_closes
last_close-closes_other t date today [] ss h = refl
last_close-closes_other t date today ((u, p) ∷ prices) ss h = elim (Bool-cases (str_eq u t)) [
  | inl e ↦ absurd (cc (rw e at h))
  | inr e ↦
      last_close-closes_other t date today prices (put u date p ss) (rw e at h)
      ∙ last_close-put_other t u date today p ss e
]

last_close-closes :
    (t : String) (date today : ℕ) (p : ℤ) (prices : Dict ℤ) (ss : List PriceSnapshot)
    → date < today
    → KeysDistinct prices
    → lookup t prices ≡ some p
    → NoneLater t date today ss
    → last_close t today (upsert_closes date prices ss) ≡ some (date, p)
unfolding upsert_closes
last_close-closes t date today p [] ss l d h a = absurd (cc h)
last_close-closes t date today p ((u, q) ∷ prices) ss l d h a = elim (Bool-cases (str_eq u t)) [
  | inl e ↦
      let same : u ≡ t = (str_eq_iff u t).0 e in
      let own : q ≡ p = cc (rw e at h) in
      let absent : lookup t prices ≡ none = subst (λ k. lookup k prices ≡ none) same d.0 in
      last_close-closes_other t date today prices (put u date q ss) absent
      ∙ rw (same, own) (last_close-put t date today p ss l a)
  | inr e ↦
      last_close-closes t date today p prices (put u date q ss) l d.1 (rw e at h)
        (put-NoneLater t u date today q ss a)
]

get_prev_close-lookup :
    (t : String) (tickers : List String) (today : ℕ) (ss : List PriceSnapshot) (d : ℕ) (p : ℤ)
    → member t tickers ≡ true
    → last_close t today ss ≡ some (d, p)
    → lookup t (get_prev_close tickers today ss) ≡ some p
unfolding get_prev_close
get_prev_close-lookup t [] today ss d p m h = absurd (cc m)
get_prev_close-lookup t (u ∷ us) today ss d p m h = elim (Bool-cases (str_eq u t)) [
  | inl e ↦
      let own : last_close u today ss ≡ some (d, p) =
        subst (λ k. last_close k today ss ≡ some (d, p)) (sym ((str_eq_iff u t).0 e)) h in
      rw own (lookup-insert u t p (get_prev_close us today ss) ∙ rw e refl)
  | inr e ↦
      let rest = get_prev_close-lookup t us today ss d p (rw e at m) h in
      elim (Option-cases (last_close u today ss)) [
        | inl n ↦ rw n rest
        | inr ((d', q), n) ↦ rw n (lookup-insert u t q (get_prev_close us today ss) ∙ rw e rest)
      ]
]

-- A close that is saved for a ticker, among the closes of distinct tickers, is the ticker's previous
-- close for every later day before which the ticker has no later snapshot, whether the date had a row
-- already or not.
pub get_prev_close-save_snapshots :
    (t : String) (date today : ℕ) (p : ℤ) (prices : Dict ℤ) (tickers : List String)
    (ss : List PriceSnapshot)
    → date < today
    → KeysDistinct prices
    → lookup t prices ≡ some p
    → NoneLater t date today ss
    → member t tickers ≡ true
    → lookup t (get_prev_close tickers today (save_snapshots date prices ss).1) ≡ some p
unfolding save_snapshots
get_prev_close-save_snapshots t date today p [] tickers ss l d h a m = absurd (cc h)
get_prev_close-save_snapshots t date today p (q ∷ prices) tickers ss l d h a m =
    get_prev_close-lookup t tickers today (upsert_closes date (q ∷ prices) ss) date p m
      (last_close-closes t date today p (q ∷ prices) ss l d h a)
