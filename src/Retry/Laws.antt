-- ===== src/Retry/Laws.antt =====
-- How often `kis_request` sends, how long it waits, and how it can end.
use Prim.Native.Nat.{min}
use native.Mathlib.Numerals.{add-one}
use the_wealth.Base.{
  ℕ, zero, suc, ◌+◌, ◌-◌, ◌*◌, ◌^◌, ◌≤◌, ◌<◌, ◌≡◌, ◌⊎◌, Bool, true, false, none, List, [], ◌∷◌, ltb,
  arith, if◌then◌else◌,
}
use the_wealth.Retry.{
  Response, Reply, response, network_error, End, returned, raised_unreachable, Event, sent, slept,
  took_token, Random, backoff_ms, retry_cap_ms, is_rate_limited, retry_reason, request_loop,
  kis_request,
}

min-mul : (a b f c : ℕ) → a ≤ b → min (a * f) c ≤ min (b * f) c
min-mul a b f c h = grind arith

randint_window :
    (r : Random) (lo hi : ℕ)
    → lo ≤ hi
    → (lo ≤ r.randint (if ltb hi lo then hi else lo) hi)
      × (r.randint (if ltb hi lo then hi else lo) hi ≤ hi)
randint_window r lo hi h =
    let e : ltb hi lo ≡ false = ground arith in
    rw e (r.randint_lower lo hi h, r.randint_upper lo hi h)

-- A wait lies between its window's ends, doubled for each attempt, and never passes the cap.
pub backoff_ms_bounds :
    (r : Random) (attempt base_min base_max : ℕ)
    → base_min ≤ base_max
    → (min (base_min * 2 ^ (attempt - 1)) retry_cap_ms ≤ backoff_ms r attempt base_min base_max)
      × (backoff_ms r attempt base_min base_max ≤ min (base_max * 2 ^ (attempt - 1)) retry_cap_ms)
unfolding backoff_ms
backoff_ms_bounds r attempt base_min base_max h =
    randint_window r _ _ (min-mul base_min base_max (2 ^ (attempt - 1)) retry_cap_ms h)

abbrev pub sends : List Event → ℕ
sends [] = 0
sends (sent ∷ es) = suc (sends es)
sends (slept _ ∷ es) = sends es
sends (took_token ∷ es) = sends es

module _ (r : Random) (network_retries : ℕ) (can_retry_5xx : Bool) (replies : ℕ → Reply) where
  abbrev loop : ℕ → ℕ → ℕ → List Event × End
  loop = request_loop r network_retries can_retry_5xx replies

  sends-loop : (left a n : ℕ) → sends (loop left a n).0 ≤ left
  unfolding request_loop
  sends-loop zero a n = omega arith
  sends-loop (suc left) a n =
      ground (arith, sends-loop left (a + 1) (n + 1), sends-loop left (a + 1) n)

  sends-loop_pos : (left a n : ℕ) → 0 < left → 0 < sends (loop left a n).0
  unfolding request_loop
  sends-loop_pos zero a n h = h
  sends-loop_pos (suc left) a n h = ground arith

  -- A call sends at least once, and at most once more than it may retry, whatever the replies.
  pub kis_request-sends :
      (max_retries : ℕ)
      → let es = (kis_request r network_retries can_retry_5xx replies max_retries).0 in
        (0 < sends es) × (sends es ≤ max_retries + 1)
  unfolding kis_request
  kis_request-sends max_retries =
      (sends-loop_pos (max_retries + 1) 1 0 (omega arith), sends-loop (max_retries + 1) 1 0)

  loop_returned :
      (left a n : ℕ) (resp : Response)
      → (loop left a n).1 ≡ returned resp
      → (retry_reason can_retry_5xx resp ≡ none) ⊎ (sends (loop left a n).0 ≡ left)
  unfolding request_loop
  loop_returned zero a n resp h = cc
  loop_returned (suc left) a n resp h =
      ground (arith, loop_returned left (a + 1) (n + 1) resp, loop_returned left (a + 1) n resp)

  -- A response that is returned calls for no retry, or every attempt was made.
  pub kis_request_returned :
      (max_retries : ℕ) (resp : Response)
      → (kis_request r network_retries can_retry_5xx replies max_retries).1 ≡ returned resp
      → (retry_reason can_retry_5xx resp ≡ none)
        ⊎ (sends (kis_request r network_retries can_retry_5xx replies max_retries).0
            ≡ max_retries + 1)
  unfolding kis_request
  kis_request_returned max_retries resp h = loop_returned (max_retries + 1) 1 0 resp h

  -- `k` rate-limited replies from the a-th on, and then no answer from the network
  abbrev pub LosesLast : ℕ → ℕ → Type 0
  LosesLast zero a = replies a ≡ network_error
  LosesLast (suc k) a =
      (resp : Response) × (replies a ≡ response resp)
      × (is_rate_limited resp ≡ true)
      × LosesLast k (a + 1)

  loop_unreachable :
      (k a n : ℕ) → n < network_retries → LosesLast k a → (loop (suc k) a n).1 ≡ raised_unreachable
  unfolding request_loop retry_reason
  loop_unreachable zero a n h l = ground arith
  loop_unreachable (suc k) a n h (resp, e, limited, l) =
      ground (arith, loop_unreachable k (a + 1) n h l)

  -- The error behind the loop is reached: where the retries allowed are used up by rate-limited
  -- replies and the last attempt meets a network error, while a network retry is left.
  pub kis_request_unreachable :
      (max_retries : ℕ)
      → 0 < network_retries
      → LosesLast max_retries 1
      → (kis_request r network_retries can_retry_5xx replies max_retries).1 ≡ raised_unreachable
  unfolding kis_request
  kis_request_unreachable max_retries h l = rw add-one (loop_unreachable max_retries 1 0 h l)
