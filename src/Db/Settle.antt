-- ===== src/Db/Settle.antt =====
-- src/db.rs, `ack_queue_messages` and `nack_queue_messages`: a delivery is settled once.
use qhook.Prelude.{ℕ, ◌≡◌, refl, Bool, false, none, List, [], ◌∷◌, String, arith, All}
use qhook.Prelude.Classes.{string_eq}
use qhook.Sql.{find_where, count_where, update_where}
use qhook.Sql.Counts.{count_where-update_zero}
use qhook.Sql.Laws.{count_where-update_where, update_where_none}
use qhook.Db.{Job, Database, has_status}
use qhook.Db.Jobs.{complete, update_jobs, insert_attempt}
use qhook.Db.Queue.{is_held, ack_one, ack_queue_messages, nack_row, nack_one, nack_queue_messages}

-- No message of the list is held by a consumer of the queue.
abbrev pub NoneHeld : String → List String → Database → Type 0
NoneHeld handler ids db = All (λ id. count_where (is_held handler id) db.jobs ≡ 0) ids

-- An attempt that is recorded leaves the jobs as they are.
ack_one-jobs :
    (now : ℕ) (ulid : String → String) (handler id : String) (db : Database)
    → (ack_one now ulid handler id db).0.jobs
      ≡ update_where (is_held handler id) (complete now) db.jobs
unfolding ack_one update_jobs insert_attempt
ack_one-jobs now ulid handler id db = ground arith

pub completed_not_held :
    (handler id : String) (now : ℕ) (j : Job) → is_held handler id (complete now j) ≡ false
unfolding is_held has_status
completed_not_held handler id now j = ground arith

ack_one-settles :
    (now : ℕ) (ulid : String → String) (handler id : String) (db : Database)
    → count_where (is_held handler id) (ack_one now ulid handler id db).0.jobs ≡ 0
ack_one-settles now ulid handler id db = rw (ack_one-jobs now ulid handler id db) (
    count_where-update_where (is_held handler id) (is_held handler id) (complete now)
      (λ j e. completed_not_held handler id now j) (λ j e. e) db.jobs)

ack_one-keeps :
    (now : ℕ) (ulid : String → String) (handler id other : String) (db : Database)
    → count_where (is_held handler other) db.jobs ≡ 0
    → count_where (is_held handler other) (ack_one now ulid handler id db).0.jobs ≡ 0
ack_one-keeps now ulid handler id other db h = rw (ack_one-jobs now ulid handler id db) (
    count_where-update_zero (is_held handler other) (is_held handler id) (complete now)
      (λ j e. completed_not_held handler other now j) db.jobs h)

ack-keeps :
    (now : ℕ) (ulid : String → String) (handler other : String) (ids : List String) (db : Database)
    → count_where (is_held handler other) db.jobs ≡ 0
    → count_where (is_held handler other) (ack_queue_messages now ulid handler ids db).0.jobs ≡ 0
unfolding ack_queue_messages
ack-keeps now ulid handler other [] db h = h
ack-keeps now ulid handler other (id ∷ ids) db h =
    ack-keeps now ulid handler other ids (ack_one now ulid handler id db).0
      (ack_one-keeps now ulid handler id other db h)

pub ack-NoneHeld :
    (now : ℕ) (ulid : String → String) (handler : String) (ids : List String) (db : Database)
    → NoneHeld handler ids (ack_queue_messages now ulid handler ids db).0
unfolding ack_queue_messages
ack-NoneHeld now ulid handler [] db = tt
ack-NoneHeld now ulid handler (id ∷ ids) db =
    let db' = (ack_one now ulid handler id db).0 in
    (
      ack-keeps now ulid handler id ids db' (ack_one-settles now ulid handler id db),
      ack-NoneHeld now ulid handler ids db',
    )

ack_one_none :
    (now : ℕ) (ulid : String → String) (handler id : String) (db : Database)
    → count_where (is_held handler id) db.jobs ≡ 0
    → ack_one now ulid handler id db ≡ (db, 0)
unfolding ack_one update_jobs
ack_one_none now ulid handler id db h =
    rw (h, update_where_none (is_held handler id) (complete now) db.jobs h)

pub ack_none :
    (now : ℕ) (ulid : String → String) (handler : String) (ids : List String) (db : Database)
    → NoneHeld handler ids db
    → ack_queue_messages now ulid handler ids db ≡ (db, 0)
unfolding ack_queue_messages
ack_none now ulid handler [] db h = refl
ack_none now ulid handler (id ∷ ids) db h =
    rw (ack_one_none now ulid handler id db h.0, ack_none now ulid handler ids db h.1)

find_where-none :
    {A : Type 0} (p : A → Bool) (rows : List A) → count_where p rows ≡ 0 → find_where p rows ≡ none
unfolding find_where count_where
find_where-none p [] h = refl
find_where-none p (r ∷ rows) h = ground (arith, find_where-none p rows)

nack_one_none :
    (now : ℕ) (jitter : ℕ → ℕ) (handler id : String) (db : Database)
    → count_where (is_held handler id) db.jobs ≡ 0
    → nack_one now jitter handler id db ≡ (db, 0, 0)
unfolding nack_one
nack_one_none now jitter handler id db h =
    rw (find_where-none (is_held handler id) db.jobs h, nack_row)

pub nack_none :
    (now : ℕ) (jitter : ℕ → ℕ) (handler : String) (ids : List String) (db : Database)
    → NoneHeld handler ids db
    → nack_queue_messages now jitter handler ids db ≡ (db, 0, 0)
unfolding nack_queue_messages
nack_none now jitter handler [] db h = refl
nack_none now jitter handler (id ∷ ids) db h =
    rw (nack_one_none now jitter handler id db h.0, nack_none now jitter handler ids db h.1)

-- An acknowledgement is final: whatever the messages were, to acknowledge them again or to give
-- them back afterwards, at any time and with any jitter, finds none of them and changes nothing.
pub ack_final :
    (now later : ℕ) (ulid ulid' : String → String) (jitter : ℕ → ℕ) (handler : String)
    (ids : List String) (db : Database)
    → let db' = (ack_queue_messages now ulid handler ids db).0 in
      (ack_queue_messages later ulid' handler ids db' ≡ (db', 0))
      × (nack_queue_messages later jitter handler ids db' ≡ (db', 0, 0))
ack_final now later ulid ulid' jitter handler ids db =
    let db' = (ack_queue_messages now ulid handler ids db).0 in
    let settled = ack-NoneHeld now ulid handler ids db in
    (ack_none later ulid' handler ids db' settled, nack_none later jitter handler ids db' settled)
