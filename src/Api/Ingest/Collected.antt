-- ===== src/Api/Ingest/Collected.antt =====
-- src/api.rs, `process_event`: the jobs that an event is to have.
use Prim.Native.String.{◌++◌ as ◌++ᵗ◌}
use mathlib.Core.List.{append-nil, append_assoc}
use qhook.Prelude.{
  ℕ, suc, ◌+◌, ◌≡◌, refl, ◌∙◌, Bool, true, false, String, List, [], ◌∷◌, ◌++◌, length, map, arith,
  if◌then◌else◌,
}
use qhook.Sql.{select_where}
use qhook.Config.{HandlerConfig, QueueConfig, Config}
use qhook.Db.Events.{JobSpec}
use qhook.Workflow.Engine.{Env, Engine, Answer, done, Task, ◌>>=◌, draw}
use qhook.Workflow.Advance.{nat_or}
use qhook.Api.Ingest.{
  passes, collect, retry_max, handler_jobs, queue_jobs, matching_handlers, matching_queues,
}

-- Where a job goes: its handler, its URL and its largest number of attempts.
abbrev pub Target : Type 0
Target = String × String × ℕ

-- The handlers whose filter lets the event through, and the queues.
unfoldable pub handler_targets : Env → String → List (String × HandlerConfig) → List Target
handler_targets env payload hs =
    map (λ c. (c.0, c.1.url, retry_max env.default_retry_max c.1.retry))
      (select_where (λ c. passes env payload c.1.filter) hs)

unfoldable pub queue_targets : Env → String → List (String × QueueConfig) → List Target
queue_targets env payload qs =
    map (λ c. ("queue/" ++ᵗ c.0, "_pull", nat_or env.default_retry_max c.1.max_attempts))
      (select_where (λ c. passes env payload c.1.filter) qs)

-- All the targets of an event.
unfoldable pub targets : Env → Config → String → String → String → List Target
unfolding handler_targets queue_targets
targets env config source event_type payload =
    handler_targets env payload (matching_handlers config source event_type)
    ++ queue_targets env payload (matching_queues config source event_type)

-- With the ULIDs from the n-th on, in order.
unfoldable pub numbered : Env → ℕ → List Target → List JobSpec
numbered env n [] = []
numbered env n ((handler, url, max) ∷ ts) =
    (env.ulid n, handler, url, max) ∷ numbered env (suc n) ts

pub numbered-append :
    (env : Env) (n : ℕ) (ts us : List Target)
    → numbered env n (ts ++ us) ≡ numbered env n ts ++ numbered env (n + length ts) us
unfolding numbered
numbered-append env n [] us = rw (let k : n + 0 ≡ n = omega arith in k) refl
numbered-append env n (t ∷ ts) us =
    let k : suc n + length ts ≡ n + suc (length ts) = omega arith in
    rw (numbered-append env (suc n) ts us, k) refl

-- The state and the answer of a task that collects jobs.
abbrev pub collected : Env → List JobSpec → List Target → Engine → Engine × Answer (List JobSpec)
collected env jobs ts s =
    (record s { drawn = s.drawn + length ts }, done (jobs ++ numbered env s.drawn ts))

collected-nil :
    (env : Env) (jobs : List JobSpec) (s : Engine) → (s, done jobs) ≡ collected env jobs [] s
unfolding numbered
collected-nil env jobs s =
    let k : s.drawn + 0 ≡ s.drawn = omega arith in rw (k, append-nil jobs) refl

collected-cons :
    (env : Env) (jobs : List JobSpec) (handler url : String) (max : ℕ) (ts : List Target)
    (s : Engine)
    → collected env
        (jobs ++ (env.ulid s.drawn, handler, url, max) ∷ [])
        ts
        (record s { drawn = suc s.drawn })
      ≡ collected env jobs ((handler, url, max) ∷ ts) s
unfolding numbered
collected-cons env jobs handler url max ts s =
    let k : s.drawn + suc (length ts) ≡ suc s.drawn + length ts = omega arith in
    rw
      (
        k,
        append_assoc jobs ((env.ulid s.drawn, handler, url, max) ∷ [])
            (numbered env (suc s.drawn) ts),
      )
      refl

-- One target, and those behind it.
collect_lem :
    (env : Env) (wanted : Bool) (t : Target) (next : List JobSpec → Task (List JobSpec))
    (ts : List Target) (jobs : List JobSpec) (s : Engine)
    → ((jobs' : List JobSpec) (s' : Engine) → next jobs' s' ≡ collected env jobs' ts s')
    → collect env wanted t next jobs s ≡ collected env jobs (if wanted then t ∷ ts else ts) s
unfolding draw ◌>>=◌
collect_lem env false t next ts jobs s h = h jobs s
collect_lem env true (handler, url, max) next ts jobs s h =
    h _ (record s { drawn = suc s.drawn }) ∙ collected-cons env jobs handler url max ts s

pub map-if :
    {A B : Type 0} (f : A → B) (b : Bool) (a : A) (as' : List A)
    → map f (if b then a ∷ as' else as') ≡ (if b then f a ∷ map f as' else map f as')
map-if f true a as' = refl
map-if f false a as' = refl

pub handler_jobs_lem :
    (env : Env) (payload : String) (hs : List (String × HandlerConfig)) (jobs : List JobSpec)
    (s : Engine)
    → handler_jobs env payload hs jobs s ≡ collected env jobs (handler_targets env payload hs) s
unfolding handler_jobs handler_targets select_where
handler_jobs_lem env payload [] jobs s = collected-nil env jobs s
handler_jobs_lem env payload ((name, h) ∷ hs) jobs s =
    rw
      (map-if {A = String × HandlerConfig} {B = Target} _ (passes env payload h.filter) (name, h) _)
      (collect_lem env (passes env payload h.filter)
        (name, h.url, retry_max env.default_retry_max h.retry) (handler_jobs env payload hs) _ jobs
        s (handler_jobs_lem env payload hs))

pub queue_jobs_lem :
    (env : Env) (payload : String) (qs : List (String × QueueConfig)) (jobs : List JobSpec)
    (s : Engine)
    → queue_jobs env payload qs jobs s ≡ collected env jobs (queue_targets env payload qs) s
unfolding queue_jobs queue_targets select_where
queue_jobs_lem env payload [] jobs s = collected-nil env jobs s
queue_jobs_lem env payload ((name, q) ∷ qs) jobs s =
    rw (map-if {A = String × QueueConfig} {B = Target} _ (passes env payload q.filter) (name, q) _)
      (collect_lem env (passes env payload q.filter)
        ("queue/" ++ᵗ name, "_pull", nat_or env.default_retry_max q.max_attempts)
        (queue_jobs env payload qs) _ jobs s (queue_jobs_lem env payload qs))
