-- ===== src/Desk/Queue.antt =====
-- The serial queue of web/src/features/judge/controller.ts: which jobs wait in it.
pub mod Work
pub mod Steps
use platform_for_sudies.Common.{
  ℕ, ◌+◌, Bool, true, false, List, [], ◌∷◌, ◌++◌, if◌then◌else◌, count, ◌≡◌, ap, ◌∙◌, arith, sym,
}
use platform_for_sudies.Desk.{
  Desk, Job, flush_job, refresh_job, reserve_job, refresh, flush, enqueue,
}

abbrev pub is_flush : Job → Bool
is_flush flush_job = true
is_flush refresh_job = false
is_flush (reserve_job n) = false

abbrev pub is_refresh : Job → Bool
is_refresh flush_job = false
is_refresh refresh_job = true
is_refresh (reserve_job n) = false

abbrev one_if : Bool → ℕ
one_if b = if b then 1 else 0

-- The flags tell how many jobs of each kind wait, of which there is never more than one.
pub record IsTidyQueue (queue : List Job) (flush_queued refresh_queued : Bool) : Type 0 where
  pub flushes : count is_flush queue ≡ one_if flush_queued
  pub refreshes : count is_refresh queue ≡ one_if refresh_queued

abbrev pub IsTidy : Desk → Type 0
IsTidy d = IsTidyQueue d.queue d.flush_queued d.refresh_queued

count-append : (p : Job → Bool) (xs ys : List Job) → count p (xs ++ ys) ≡ count p xs + count p ys
count-append p [] ys = ground arith
count-append p (x ∷ xs) ys = ground (arith, count-append p xs ys)

pub refresh-IsTidy : (d : Desk) → IsTidy d → IsTidy (refresh d)
unfolding refresh enqueue
refresh-IsTidy d h = record {
  flushes = ground (arith, h.flushes, count-append is_flush d.queue (refresh_job ∷ []));
  refreshes = ground (arith, h.refreshes, count-append is_refresh d.queue (refresh_job ∷ []));
}

pub flush-IsTidy : (d : Desk) → IsTidy d → IsTidy (flush d)
unfolding flush enqueue
flush-IsTidy d h = record {
  flushes = ground (arith, h.flushes, count-append is_flush d.queue (flush_job ∷ []));
  refreshes = ground (arith, h.refreshes, count-append is_refresh d.queue (flush_job ∷ []));
}

pub enqueue_reserve-IsTidy : (n : ℕ) (d : Desk) → IsTidy d → IsTidy (enqueue (reserve_job n) d)
unfolding enqueue
enqueue_reserve-IsTidy n d h = record {
  flushes = ground (arith, h.flushes, count-append is_flush d.queue (reserve_job n ∷ []));
  refreshes = ground (arith, h.refreshes, count-append is_refresh d.queue (reserve_job n ∷ []));
}
