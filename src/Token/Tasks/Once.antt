-- ===== src/Token/Tasks/Once.antt =====
-- Where no stale value is cached, the lock lets one task alone ask for a token.
use Prim.Native.Nat.{max}
use mathlib.Core.Path.{subst}
use the_wealth.Base.{
  ℕ, zero, suc, ◌+◌, ◌-◌, ◌≤◌, ◌<◌, ◌≡◌, ◌≢◌, refl, sym, ap, ◌∙◌, ◌⊎◌, inl, inr, true, false, none,
  some, String, List, [], ◌∷◌, ltb, get_elem?, set, arith, All,
}
use the_wealth.Base.Text.{str_eq_refl}
use the_wealth.Outcome.{Result, ok, raise}
use the_wealth.Cache.{Fallback, get, setex}
use the_wealth.Cache.Laws.{live, get-live, setex-live}
use the_wealth.Token.{
  Cached, stamped, rotation_buffer_seconds, TokenReply, issue_token, Phase, started, found_stale,
  queued, locked, found_stale_again, issuing, storing, returned, failed, after_read, after_issue,
  run_phase,
}
use the_wealth.Token.Tasks.{
  World, Step, tick, run, Reach, here, next, run_task_at, may_run, total, holds_lock, is_storing,
}
use the_wealth.Token.Tasks.Counts.{evicts, is_issuing, total-set, total-split, All-set, All-get}

-- every token issued up to the horizon is usable, and is cached, up to the horizon
abbrev pub AreLasting : (ℕ → TokenReply) → ℕ → Type 0
AreLasting replies horizon =
    (n : ℕ) (token : String) (ttl expires_at : ℕ)
    → n ≤ horizon
    → issue_token n (replies n) ≡ ok (token, (ttl, expires_at))
    → (horizon + rotation_buffer_seconds < expires_at)
      × (horizon ≤ n + max (ttl - rotation_buffer_seconds) 60)

-- what a task is about to store lasts to the horizon
abbrev IsGood : ℕ → ℕ → Phase → Type 0
IsGood horizon clock started = Unit
IsGood horizon clock found_stale = Unit
IsGood horizon clock queued = Unit
IsGood horizon clock locked = Unit
IsGood horizon clock found_stale_again = Unit
IsGood horizon clock issuing = Unit
IsGood horizon clock (storing token ttl expires_at) =
    (horizon + rotation_buffer_seconds < expires_at)
    × (horizon ≤ clock + max (ttl - rotation_buffer_seconds) 60)
IsGood horizon clock (returned token) = Unit
IsGood horizon clock (failed fault) = Unit

module _ (key : String) (horizon : ℕ) where
  -- no token yet, or one that is about to be stored
  record IsEmpty (w : World) : Type 0 where
    nothing_cached : (later : ℕ) → w.clock ≤ later → live later key w.cache ≡ none
    counted : w.issued ≡ total is_storing w.tasks

  -- one token, cached
  record IsFull (w : World) : Type 0 where
    token : String
    expires_at : ℕ
    lasts : horizon + rotation_buffer_seconds < expires_at
    cached :
        (later : ℕ)
        → w.clock ≤ later
        → later ≤ horizon
        → live later key w.cache ≡ some (stamped token expires_at)
    counted : w.issued ≡ 1
    none_storing : total is_storing w.tasks ≡ 0
    none_issuing : total is_issuing w.tasks ≡ 0

  record IsSafe (w : World) : Type 0 where
    calm : total evicts w.tasks ≡ 0
    one_inside : total holds_lock w.tasks ≤ 1
    good : All (IsGood horizon w.clock) w.tasks
    state : IsEmpty w ⊎ IsFull w

  -- The sums after one task's change, where it takes no lock that another has.
  kept_count :
      (w : World) (i : ℕ) (p q : Phase) (c : Fallback Cached) (k : ℕ)
      → IsSafe w
      → get_elem? w.tasks i ≡ some p
      → evicts q ≡ 0
      → total holds_lock w.tasks + holds_lock q ≤ 1 + holds_lock p
      → IsGood horizon w.clock q
      → (let v = record w { cache = c; tasks = set w.tasks i q; issued = w.issued + k } in
          IsEmpty v ⊎ IsFull v)
      → IsSafe (record w { cache = c; tasks = set w.tasks i q; issued = w.issued + k })
  kept_count w i p q c k s at h l g st = record {
    calm = omega (arith, s.calm, h, total-set evicts w.tasks i p q at);
    one_inside = omega (arith, l, total-set holds_lock w.tasks i p q at);
    good = All-set (IsGood horizon w.clock) w.tasks i q s.good g;
    state = st;
  }

  -- a value that lasts to the horizon is usable now
  usable_now :
      (now : ℕ) (absent stale : Phase) (token : String) (e : ℕ)
      → now ≤ horizon
      → horizon + rotation_buffer_seconds < e
      → after_read now absent stale (some (stamped token e)) ≡ returned token
  usable_now now absent stale token e h k = ground arith

  module _ (replies : ℕ → TokenReply) (lasting : AreLasting replies horizon) where
    -- A read inside or outside the lock: the cached token, or nothing.
    step-read :
        (w : World) (i : ℕ) (p absent stale : Phase)
        → IsSafe w
        → w.clock ≤ horizon
        → get_elem? w.tasks i ≡ some p
        → evicts absent ≡ 0
        → holds_lock absent ≡ holds_lock p
        → is_storing absent ≡ 0
        → is_storing p ≡ 0
        → is_issuing p ≡ 0
        → IsGood horizon w.clock absent
        → (let (v, c) = get w.clock key w.cache in
            IsSafe (record w {
              cache = c;
              tasks = set w.tasks i (after_read w.clock absent stale v);
              issued = w.issued + 0;
            }))
    step-read w i p absent stale s hz at a l st sp ip g = elim s.state [
      | inl e ↦
          let v : (get w.clock key w.cache).0 ≡ none =
            (get-live w.clock w.clock key key w.cache (omega arith)).0
            ∙ e.nothing_cached w.clock (omega arith) in
          rw v (
            kept_count w i p absent (get w.clock key w.cache).1 0 s at a
              (omega (arith, s.one_inside, l)) g
              (inl (record {
                nothing_cached = λ later h.
                    (get-live w.clock later key key w.cache h).1 ∙ e.nothing_cached later h;
                counted =
                    omega (arith, e.counted, st, sp, total-set is_storing w.tasks i p absent at);
              })))
      | inr f ↦
          let v : (get w.clock key w.cache).0 ≡ some (stamped f.token f.expires_at) =
            (get-live w.clock w.clock key key w.cache (omega arith)).0
            ∙ f.cached w.clock (omega arith) hz in
          rw (v, usable_now w.clock absent stale f.token f.expires_at hz f.lasts)
            (kept_count w i p (returned f.token) (get w.clock key w.cache).1 0 s at refl
              (omega (arith, s.one_inside)) tt
              (inr (record {
                token = f.token;
                expires_at = f.expires_at;
                lasts = f.lasts;
                cached =
                    λ later h k. (get-live w.clock later key key w.cache h).1 ∙ f.cached later h k;
                counted = omega (arith, f.counted);
                none_storing = omega (
                  arith,
                  f.none_storing,
                  sp,
                  total-set is_storing w.tasks i p (returned f.token) at,
                );
                none_issuing = omega (
                  arith,
                  f.none_issuing,
                  ip,
                  total-set is_issuing w.tasks i p (returned f.token) at,
                );
              })))
    ]

    -- A change that touches neither the cache nor a task that issues or stores.
    step-quiet :
        (w : World) (i : ℕ) (p q : Phase)
        → IsSafe w
        → get_elem? w.tasks i ≡ some p
        → evicts q ≡ 0
        → total holds_lock w.tasks + holds_lock q ≤ 1 + holds_lock p
        → IsGood horizon w.clock q
        → is_storing q ≡ 0
        → is_storing p ≡ 0
        → is_issuing q ≡ is_issuing p
        → IsSafe (record w { cache = w.cache; tasks = set w.tasks i q; issued = w.issued + 0 })
    step-quiet w i p q s at a l g sq sp iq = kept_count w i p q w.cache 0 s at a l g (elim s.state [
      | inl e ↦ inl (record {
        nothing_cached = e.nothing_cached;
        counted = omega (arith, e.counted, sq, sp, total-set is_storing w.tasks i p q at);
      })
      | inr f ↦ inr (record {
        token = f.token;
        expires_at = f.expires_at;
        lasts = f.lasts;
        cached = f.cached;
        counted = omega (arith, f.counted);
        none_storing = omega (arith, f.none_storing, sq, sp, total-set is_storing w.tasks i p q at);
        none_issuing = omega (arith, f.none_issuing, iq, total-set is_issuing w.tasks i p q at);
      })
    ])

    -- The request for a token, made where none is cached.
    step-issue :
        (w : World) (i : ℕ) (r : Result (String × (ℕ × ℕ)))
        → IsSafe w
        → w.clock ≤ horizon
        → get_elem? w.tasks i ≡ some issuing
        → issue_token w.clock (replies w.clock) ≡ r
        → IsSafe (record w {
          cache = w.cache;
          tasks = set w.tasks i (after_issue r);
          issued = w.issued + is_storing (after_issue r);
        })
    step-issue w i (raise f) s hz at h =
        kept_count w i issuing (failed f) w.cache 0 s at refl (omega (arith, s.one_inside)) tt
          (elim s.state [
            | inl e ↦ inl (record {
              nothing_cached = e.nothing_cached;
              counted =
                  omega (arith, e.counted, total-set is_storing w.tasks i issuing (failed f) at);
            })
            | inr f' ↦ absurd (
                omega
                  (arith, f'.none_issuing, total-set is_issuing w.tasks i issuing (failed f) at))
          ])
    step-issue w i (ok (t, (ttl, x))) s hz at h =
        kept_count w i issuing (storing t ttl x) w.cache 1 s at refl (omega (arith, s.one_inside))
          (lasting w.clock t ttl x hz h)
          (elim s.state [
            | inl e ↦ inl (record {
              nothing_cached = e.nothing_cached;
              counted =
                  omega
                    (arith, e.counted, total-set is_storing w.tasks i issuing (storing t ttl x) at);
            })
            | inr f ↦ absurd (
                omega (
                  arith,
                  f.none_issuing,
                  total-set is_issuing w.tasks i issuing (storing t ttl x) at,
                ))
          ])

    -- What a write leaves live up to the horizon.
    live-stored :
        (now later ttl : ℕ) (v : Cached) (c : Fallback Cached)
        → horizon ≤ now + ttl
        → later ≤ horizon
        → live later key (setex now key ttl v c) ≡ some v
    live-stored now later ttl v c h k =
        let e : ltb (now + ttl) later ≡ false = ground arith in
        setex-live now later key key ttl v c ∙ (rw (str_eq_refl key, e) refl)

    step-store :
        (w : World) (i : ℕ) (t : String) (ttl x : ℕ)
        → IsSafe w
        → get_elem? w.tasks i ≡ some (storing t ttl x)
        → IsSafe (record w {
          cache = setex w.clock key (max (ttl - rotation_buffer_seconds) 60) (stamped t x) w.cache;
          tasks = set w.tasks i (returned t);
          issued = w.issued + 0;
        })
    step-store w i t ttl x s at =
        let g = All-get (IsGood horizon w.clock) w.tasks i (storing t ttl x) s.good at in
        kept_count w i (storing t ttl x) (returned t) _ 0 s at refl (omega (arith, s.one_inside)) tt
          (elim s.state [
            | inl e ↦ inr (record {
              token = t;
              expires_at = x;
              lasts = g.0;
              cached = λ later h k.
                  live-stored w.clock later (max (ttl - rotation_buffer_seconds) 60) (stamped t x)
                    w.cache g.1 k;
              counted = omega (
                arith,
                e.counted,
                s.one_inside,
                total-split w.tasks,
                total-set is_storing w.tasks i (storing t ttl x) (returned t) at,
              );
              none_storing = omega (
                arith,
                s.one_inside,
                total-split w.tasks,
                total-set is_storing w.tasks i (storing t ttl x) (returned t) at,
              );
              none_issuing = omega (
                arith,
                s.one_inside,
                total-split w.tasks,
                total-set is_storing w.tasks i (storing t ttl x) (returned t) at,
                total-set is_issuing w.tasks i (storing t ttl x) (returned t) at,
              );
            })
            | inr f ↦ absurd (
                omega (
                  arith,
                  f.none_storing,
                  total-set is_storing w.tasks i (storing t ttl x) (returned t) at,
                ))
          ])

    not_stale :
        (w : World) (i : ℕ) (p : Phase) → IsSafe w → get_elem? w.tasks i ≡ some p → evicts p ≢ 1
    not_stale w i p s at h = omega (arith, s.calm, h, total-set evicts w.tasks i p started at)

    lock_free : (ps : List Phase) → may_run ps queued ≡ true → total holds_lock ps ≡ 0
    lock_free ps h = ground arith

    step-IsSafe :
        (w : World) (i : ℕ) (p : Phase)
        → IsSafe w
        → w.clock ≤ horizon
        → get_elem? w.tasks i ≡ some p
        → may_run w.tasks p ≡ true
        → IsSafe (run_task_at key replies i p w)
    unfolding run_phase
    step-IsSafe w i started s hz at m =
        step-read w i started queued found_stale s hz at refl refl refl refl refl tt
    step-IsSafe w i found_stale s hz at m = absurd (not_stale w i found_stale s at refl)
    step-IsSafe w i queued s hz at m =
        step-quiet w i queued locked s at refl (omega (arith, lock_free w.tasks m)) tt refl refl
          refl
    step-IsSafe w i locked s hz at m =
        step-read w i locked issuing found_stale_again s hz at refl refl refl refl refl tt
    step-IsSafe w i found_stale_again s hz at m = absurd (not_stale w i found_stale_again s at refl)
    step-IsSafe w i issuing s hz at m =
        step-issue w i (issue_token w.clock (replies w.clock)) s hz at refl
    step-IsSafe w i (storing t ttl x) s hz at m = step-store w i t ttl x s at
    step-IsSafe w i (returned t) s hz at m =
        step-quiet w i (returned t) (returned t) s at refl (omega (arith, s.one_inside)) tt refl
          refl refl
    step-IsSafe w i (failed f) s hz at m =
        step-quiet w i (failed f) (failed f) s at refl (omega (arith, s.one_inside)) tt refl refl
          refl

    IsGood-tick :
        (n : ℕ) (ps : List Phase) → All (IsGood horizon n) ps → All (IsGood horizon (n + 1)) ps
    IsGood-tick n [] a = tt
    IsGood-tick n (started ∷ ps) a = (tt, IsGood-tick n ps a.1)
    IsGood-tick n (found_stale ∷ ps) a = (tt, IsGood-tick n ps a.1)
    IsGood-tick n (queued ∷ ps) a = (tt, IsGood-tick n ps a.1)
    IsGood-tick n (locked ∷ ps) a = (tt, IsGood-tick n ps a.1)
    IsGood-tick n (found_stale_again ∷ ps) a = (tt, IsGood-tick n ps a.1)
    IsGood-tick n (issuing ∷ ps) a = (tt, IsGood-tick n ps a.1)
    IsGood-tick n (storing t ttl x ∷ ps) a = ((a.0.0, omega (arith, a.0.1)), IsGood-tick n ps a.1)
    IsGood-tick n (returned t ∷ ps) a = (tt, IsGood-tick n ps a.1)
    IsGood-tick n (failed f ∷ ps) a = (tt, IsGood-tick n ps a.1)

    IsSafe-tick : (w : World) → IsSafe w → IsSafe (record w { clock = w.clock + 1 })
    IsSafe-tick w s = record {
      calm = s.calm;
      one_inside = s.one_inside;
      good = IsGood-tick w.clock w.tasks s.good;
      state = elim s.state [
        | inl e ↦ inl (record {
          nothing_cached = λ later h. e.nothing_cached later (omega (arith, h));
          counted = e.counted;
        })
        | inr f ↦ inr (record {
          token = f.token;
          expires_at = f.expires_at;
          lasts = f.lasts;
          cached = λ later h k. f.cached later (omega (arith, h)) k;
          counted = f.counted;
          none_storing = f.none_storing;
          none_issuing = f.none_issuing;
        })
      ];
    }

    Step-clock : {w v : World} → Step key replies w v → w.clock ≤ v.clock
    Step-clock {w} (tick e) = omega (arith, ap (λ x. x.clock) e)
    Step-clock {w} (run i p at m e) = omega (arith, ap (λ x. x.clock) e)

    Step-IsSafe : {w v : World} → Step key replies w v → IsSafe w → w.clock ≤ horizon → IsSafe v
    Step-IsSafe {w} (tick e) s h = subst IsSafe (sym e) (IsSafe-tick w s)
    Step-IsSafe {w} (run i p at m e) s h = subst IsSafe (sym e) (step-IsSafe w i p s h at m)

    Reach-IsSafe : {w v : World} → IsSafe w → Reach key replies w v → v.clock ≤ horizon → IsSafe v
    Reach-IsSafe s here h = s
    Reach-IsSafe s (next r st) h =
        Step-IsSafe st (Reach-IsSafe s r (omega (arith, Step-clock st, h)))
          (omega (arith, Step-clock st, h))

    issued_bound : (w : World) → IsSafe w → w.issued ≤ 1
    issued_bound w s = elim s.state [
      | inl e ↦ omega (arith, e.counted, s.one_inside, total-split w.tasks)
      | inr f ↦ omega (arith, f.counted)
    ]

-- tasks that have not begun
abbrev pub waiting_tasks : ℕ → List Phase
waiting_tasks zero = []
waiting_tasks (suc n) = started ∷ waiting_tasks n

storing_none : (n : ℕ) → total is_storing (waiting_tasks n) ≡ 0
storing_none zero = refl
storing_none (suc n) = omega (arith, storing_none n)

start-IsSafe :
    (key : String) (horizon clock n : ℕ) (c : Fallback Cached)
    → ((later : ℕ) → clock ≤ later → live later key c ≡ none)
    → IsSafe key horizon (record { clock = clock; cache = c; tasks = waiting_tasks n; issued = 0 })
start-IsSafe key horizon clock zero c h = record {
  calm = refl;
  one_inside = omega arith;
  good = tt;
  state = inl (record { nothing_cached = h; counted = refl });
}
start-IsSafe key horizon clock (suc n) c h =
    let s = start-IsSafe key horizon clock n c h in
    record {
      calm = omega (arith, s.calm);
      one_inside = omega (arith, s.one_inside);
      good = (tt, s.good);
      state = inl (record { nothing_cached = h; counted = omega (arith, storing_none n) });
    }

-- However many tasks ask for the token and however they interleave, at most one token is issued: in
-- any time in which the tokens that the broker issues stay usable and cached, where nothing was
-- cached under the key at its beginning.
pub token_issued_once :
    (key : String) (horizon clock n : ℕ) (c : Fallback Cached) (replies : ℕ → TokenReply)
    {w : World}
    → AreLasting replies horizon
    → ((later : ℕ) → clock ≤ later → live later key c ≡ none)
    → Reach key replies (record { clock = clock; cache = c; tasks = waiting_tasks n; issued = 0 }) w
    → w.clock ≤ horizon
    → w.issued ≤ 1
token_issued_once key horizon clock n c replies {w} lasting h r k =
    issued_bound key horizon replies lasting w
      (Reach-IsSafe key horizon replies lasting (start-IsSafe key horizon clock n c h) r k)
