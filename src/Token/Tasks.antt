-- ===== src/Token/Tasks.antt =====
-- Calls for the token that interleave: the tasks of one event loop, and the lock of their key.
pub mod Counts
pub mod Once
pub mod Twice
use the_wealth.Base.{
  ℕ, zero, suc, ◌+◌, ◌≡◌, Bool, true, false, ◌&&◌, Option, none, some, List, [], ◌∷◌, String, ltb,
  get_elem?, set, if◌then◌else◌,
}
use the_wealth.Cache.{Fallback}
use the_wealth.Token.{
  Cached, TokenReply, Phase, started, found_stale, queued, locked, found_stale_again, issuing,
  storing, returned, failed, run_phase,
}

-- whether a task holds the lock
abbrev pub holds_lock : Phase → ℕ
holds_lock started = 0
holds_lock found_stale = 0
holds_lock queued = 0
holds_lock locked = 1
holds_lock found_stale_again = 1
holds_lock issuing = 1
holds_lock (storing token ttl expires_at) = 1
holds_lock (returned token) = 0
holds_lock (failed fault) = 0

abbrev pub is_storing : Phase → ℕ
is_storing started = 0
is_storing found_stale = 0
is_storing queued = 0
is_storing locked = 0
is_storing found_stale_again = 0
is_storing issuing = 0
is_storing (storing token ttl expires_at) = 1
is_storing (returned token) = 0
is_storing (failed fault) = 0

abbrev pub total : (Phase → ℕ) → List Phase → ℕ
total w [] = 0
total w (p ∷ ps) = w p + total w ps

-- A task before the lock waits while another holds it.
abbrev pub may_run : List Phase → Phase → Bool
may_run tasks queued = elim (total holds_lock tasks) [ zero ↦ true | suc _ ↦ false ]
may_run tasks _ = true

-- tokens that a step has got from the broker
abbrev pub tokens_issued : Phase → Phase → ℕ
tokens_issued issuing p = is_storing p
tokens_issued _ p = 0

pub record World : Type 0 where
  pub clock : ℕ
  pub cache : Fallback Cached
  pub tasks : List Phase
  pub issued : ℕ

abbrev pub run_task_at : String → (ℕ → TokenReply) → ℕ → Phase → World → World
run_task_at key replies i p w =
    let (p', c') = run_phase key w.clock (replies w.clock) p w.cache in
    record w { cache = c'; tasks = set w.tasks i p'; issued = w.issued + tokens_issued p p' }

-- Time passes, or one task runs to its next await; `replies` says what the broker answers when.
pub data Step (key : String) (replies : ℕ → TokenReply) (w v : World) : Type 0 where
  tick : v ≡ record w { clock = w.clock + 1 } → Step key replies w v
  run :
      (i : ℕ) (p : Phase)
      → get_elem? w.tasks i ≡ some p
      → may_run w.tasks p ≡ true
      → v ≡ run_task_at key replies i p w
      → Step key replies w v

pub data Reach (key : String) (replies : ℕ → TokenReply) (w : World) : World → Type 0 where
  here : Reach key replies w w
  next : {u v : World} → Reach key replies w u → Step key replies u v → Reach key replies w v
