-- ===== src/Tests/Tokens.antt =====
-- kis_token.py with the broker's token of a day.
use the_wealth.Base.{◌+◌, ◌≤◌, ◌≡◌, none, some, [], ◌∷◌, arith, refl}
use the_wealth.Cache.{Fallback, get}
use the_wealth.Cache.Laws.{live}
use the_wealth.Token.{
  Cached, stamped, TokenReply, issued_token, issue_token, started, queued, locked, issuing, storing,
  run_phase, get_kis_access_token,
}
use the_wealth.Token.Alone.{outcome, usable, get_kis_access_token-outcome}
use the_wealth.Token.Tasks.{World, Reach, here, next, run}
use the_wealth.Token.Tasks.Once.{AreLasting, waiting_tasks, token_issued_once}
use the_wealth.Token.Tasks.Twice.{world, token_issued_twice}

abbrev reply : TokenReply
reply = issued_token (some "T") none

-- a token that is over in five minutes
abbrev stale : Fallback Cached
stale = ("k", record { value = stamped "S" 1300; expires_at = 2000 }) ∷ []

get_kis_access_token-outcome_example :
    (get_kis_access_token "k" 1000 reply stale).0
    ≡ outcome (usable 1000 (live 1000 "k" stale)) (issue_token 1000 reply)
get_kis_access_token-outcome_example = get_kis_access_token-outcome "k" 1000 reply stale

a_day : AreLasting (λ _. reply) 2000
a_day n token ttl e h k =
    let p : ttl ≡ 86400 = cc in let q : e ≡ n + 86400 = cc in (omega (arith, q), omega (arith, p))

abbrev at_first : World
at_first = record { clock = 1000; cache = []; tasks = waiting_tasks 3; issued = 0 }

-- the first of three tasks has its token, and the second waits for the lock
abbrev stored : World
stored = record at_first { tasks = storing "T" 86400 87400 ∷ queued ∷ started ∷ []; issued = 1 }

stored-Reach : Reach "k" (λ _. reply) at_first stored
unfolding run_phase get
stored-Reach =
    next
      (next
        (next (next (next here (run 0 started refl refl refl)) (run 1 started refl refl refl))
          (run 0 queued refl refl refl))
        (run 0 locked refl refl refl))
      (run 0 issuing refl refl refl)

token_issued_once_example : stored.issued ≤ 1
token_issued_once_example =
    token_issued_once "k" 2000 1000 3 [] (λ _. reply) {w = stored} a_day (λ n h. refl) stored-Reach
      (omega arith)

token_issued_twice_example :
    (w : World) × Reach "k" (λ _. reply) (world "k" 1000 (λ _. reply) stale started started 0) w
    × (w.issued ≡ 2)
token_issued_twice_example =
    token_issued_twice "k" 1000 (λ _. reply) stale "S" "T" 1300 86400 87400 refl (omega arith) refl
