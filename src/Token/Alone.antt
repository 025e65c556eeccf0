-- ===== src/Token/Alone.antt =====
-- A call for the token that no other task interrupts.
use the_wealth.Base.{
  ℕ, zero, suc, ◌≡◌, refl, sym, ap, ◌∙◌, inl, inr, Option, none, some, String, arith, Bool-cases,
  if◌then◌else◌,
}
use the_wealth.Base.Text.{str_eq_refl}
use the_wealth.Outcome.{Result, ok, raise, Fault}
use the_wealth.Cache.{Fallback, get, delete}
use the_wealth.Cache.Laws.{live, get-live, delete-live}
use the_wealth.Token.{
  Cached, parse_cached, TokenReply, issue_token, Phase, found_stale, queued, found_stale_again,
  issuing, returned, failed, after_read, after_issue, run_phase, run_alone, get_kis_access_token,
}

-- what is usable of a cached value: its token, where it is not about to expire
abbrev pub usable : ℕ → Option Cached → Option String
usable now none = none
usable now (some cached) =
    let (token, is_valid) = parse_cached now cached in if is_valid then some token else none

abbrev pub issue_end : Result (String × (ℕ × ℕ)) → Phase
issue_end (raise fault) = failed fault
issue_end (ok (token, rest)) = returned token

abbrev pub outcome : Option String → Result (String × (ℕ × ℕ)) → Phase
outcome (some token) issued = returned token
outcome none issued = issue_end issued

get-value : (now : ℕ) (key : String) (c : Fallback Cached) → (get now key c).0 ≡ live now key c
get-value now key c = (get-live now now key key c (omega arith)).0

module _ (key : String) (now : ℕ) (reply : TokenReply) where
  abbrev run : ℕ → Phase × Fallback Cached → Phase × Fallback Cached
  run n = run_alone n key now reply

  run-returned :
      (n : ℕ) (t : String) (c : Fallback Cached) → run n (returned t, c) ≡ (returned t, c)
  unfolding run_alone run_phase
  run-returned zero t c = refl
  run-returned (suc n) t c = run-returned n t c

  run-failed : (n : ℕ) (f : Fault) (c : Fallback Cached) → run n (failed f, c) ≡ (failed f, c)
  unfolding run_alone run_phase
  run-failed zero f c = refl
  run-failed (suc n) f c = run-failed n f c

  run-after_issue :
      (n : ℕ) (r : Result (String × (ℕ × ℕ))) (c : Fallback Cached)
      → (run (suc n) (after_issue r, c)).0 ≡ issue_end r
  unfolding run_alone run_phase
  run-after_issue n (raise f) c = ap (λ p. p.0) (run-failed n f c)
  run-after_issue n (ok (t, (ttl, e))) c = ap (λ p. p.0) (run-returned n t _)

  run-issuing :
      (n : ℕ) (c : Fallback Cached)
      → (run (suc (suc n)) (issuing, c)).0 ≡ issue_end (issue_token now reply)
  unfolding run_alone run_phase
  run-issuing n c = run-after_issue n (issue_token now reply) c

  run-stale_again :
      (n : ℕ) (c : Fallback Cached)
      → (run (suc (suc (suc n))) (found_stale_again, c)).0 ≡ issue_end (issue_token now reply)
  unfolding run_alone run_phase
  run-stale_again n c = run-issuing n (delete key c)

  run-read_again :
      (n : ℕ) (v : Option Cached) (c : Fallback Cached)
      → (run (suc (suc (suc n))) (after_read now issuing found_stale_again v, c)).0
        ≡ outcome (usable now v) (issue_token now reply)
  run-read_again n none c = run-issuing (suc n) c
  run-read_again n (some cached) c = elim (Bool-cases (parse_cached now cached).1) [
    | inl e ↦ rw e (ap (λ p. p.0) (run-returned (suc (suc (suc n))) (parse_cached now cached).0 c))
    | inr e ↦ rw e (run-stale_again n c)
  ]

  run-queued :
      (n : ℕ) (c : Fallback Cached)
      → (run (suc (suc (suc (suc (suc n))))) (queued, c)).0
        ≡ outcome (usable now (live now key c)) (issue_token now reply)
  unfolding run_alone run_phase
  run-queued n c =
      run-read_again n (get now key c).0 (get now key c).1 ∙ (rw (get-value now key c) refl)

  live-delete : (c : Fallback Cached) → live now key (delete key c) ≡ none
  live-delete c = delete-live now key key c ∙ (rw (str_eq_refl key) refl)

  run-stale : (c : Fallback Cached) → (run 6 (found_stale, c)).0 ≡ issue_end (issue_token now reply)
  unfolding run_alone run_phase
  run-stale c = run-queued 0 (delete key c) ∙ (rw (live-delete c) refl)

  run-read :
      (v : Option Cached) (c : Fallback Cached)
      → live now key c ≡ v
      → (run 6 (after_read now queued found_stale v, c)).0
        ≡ outcome (usable now v) (issue_token now reply)
  run-read none c e = run-queued 1 c ∙ (rw e refl)
  run-read (some cached) c e = elim (Bool-cases (parse_cached now cached).1) [
    | inl valid ↦ rw valid (ap (λ p. p.0) (run-returned 6 (parse_cached now cached).0 c))
    | inr stale ↦ rw stale (run-stale c)
  ]

-- Every call that no other task interrupts ends within its seven steps: with the cached token where
-- its expiry is unknown or more than ten minutes ahead, and else as the issuance ends, with its
-- token or its error.
pub get_kis_access_token-outcome :
    (key : String) (now : ℕ) (reply : TokenReply) (c : Fallback Cached)
    → (get_kis_access_token key now reply c).0
      ≡ outcome (usable now (live now key c)) (issue_token now reply)
unfolding get_kis_access_token run_alone run_phase
get_kis_access_token-outcome key now reply c =
    let g = get-live now now key key c (omega arith) in
    run-read key now reply (get now key c).0 (get now key c).1 (g.1 ∙ sym g.0) ∙ (rw g.0 refl)
