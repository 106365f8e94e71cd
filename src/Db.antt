-- ===== src/Db.antt =====
-- src/db.rs: the tables of the schema as records, and a database as its tables.
-- A time is the number of milliseconds since a fixed origin: the texts that `format_now` and
-- `format_dt` write have one width, so that their order as texts is the order of the times.
use qhook.Prelude.{
  ℕ, ◌≡◌, refl, ◌⊎◌, inl, inr, Bool, true, false, Option, none, some, String, List, min,
}
use qhook.Prelude.Classes.{◌==◌, string_eq}
pub mod Events
pub mod Endpoints
pub mod Jobs
pub mod Queue
pub mod Runs
pub mod Steps
pub mod Claim
pub mod Atomic
pub mod Invariant
pub mod Recovery
pub mod Retention
pub mod Settle
pub mod GiveBack
pub mod Fetch
pub mod Callback
pub mod Expiry
pub mod Join
pub mod Branches

-- `driver` of `Database`, for the backends that sqlx serves.
pub data Driver : Type 0 where
  sqlite mysql postgres : Driver

-- The texts in the column `status` of `jobs`.
pub data JobStatus : Type 0 where
  available running completed retryable dead waiting : JobStatus

-- A row of `jobs`: the columns of all migrations.
pub record Job : Type 0 where
  pub id : String
  pub event_id : String
  pub handler : String
  pub url : String
  pub status : JobStatus
  pub attempt : ℕ
  pub max_attempts : ℕ
  pub scheduled_at : ℕ
  pub started_at : Option ℕ
  pub completed_at : Option ℕ
  pub created_at : ℕ
  pub last_error : Option String
  pub workflow_run_id : Option String
  pub step_name : Option String
  pub step_index : Option ℕ
  pub step_input : Option String
  pub step_output : Option String
  pub branch_name : Option String
  pub callback_token : Option String

-- A row of `events`.
pub record Event : Type 0 where
  pub id : String
  pub source : String
  pub event_type : String
  pub payload : String
  pub headers : Option String
  pub unique_key : Option String
  pub created_at : ℕ

-- A row of `job_attempts`.
pub record Attempt : Type 0 where
  pub id : String
  pub job_id : String
  pub attempt : ℕ
  pub status_code : Option ℕ
  pub response_body : Option String
  pub error : Option String
  pub duration_ms : ℕ
  pub created_at : ℕ

-- The texts in the column `status` of `workflow_runs`.
pub data RunStatus : Type 0 where
  run_running run_completed run_failed : RunStatus

-- A row of `workflow_runs`.
pub record Run : Type 0 where
  pub id : String
  pub workflow : String
  pub event_id : String
  pub status : RunStatus
  pub current_step : Option String
  pub created_at : ℕ
  pub completed_at : Option ℕ
  pub parallel_step : Option String
  pub parallel_count : ℕ
  pub parallel_completed : ℕ
  pub timeout_at : Option ℕ
  pub parent_run_id : Option String
  pub parent_step_index : Option ℕ

pub record Database : Type 0 where
  pub driver : Driver
  pub events : List Event
  pub jobs : List Job
  pub attempts : List Attempt
  pub runs : List Run

-- Why a statement is refused: a key is taken, `fetch_one` finds no row, or a column that the
-- program reads as a text is NULL.
pub data DbError : Type 0 where
  unique_violation row_not_found unexpected_null : DbError

pub data Result {ℓ} (A : Type ℓ) : Type ℓ where
  err : DbError → Result A
  ok : A → Result A

-- The operator `?` of the program: an error ends the function, a value is handed on.
infixl 5 ◌>>=◌
abbrev pub ◌>>=◌ {ℓ ℓ'} : {T : Type ℓ} {U : Type ℓ'} → Result T → (T → Result U) → Result U
err refused >>= next = err refused
ok value >>= next = next value

-- `begin`, the statements, `commit`; an early return drops the transaction, which rolls it back.
abbrev pub transaction {ℓ} :
    {A : Type ℓ} → Database → (Database → Result (Database × A)) → Database × Result A
transaction db body = elim (body db) [ ok (db', a) ↦ (db', ok a) | err e ↦ (db, err e) ]

-- status = 's'
unfoldable pub has_status : JobStatus → JobStatus → Bool
has_status available available = true
has_status running running = true
has_status completed completed = true
has_status retryable retryable = true
has_status dead dead = true
has_status waiting waiting = true
has_status _ _ = false

-- status IN ('available', 'retryable')
abbrev pub is_pending : JobStatus → Bool
is_pending available = true
is_pending retryable = true
is_pending _ = false

-- status IN ('completed', 'dead')
abbrev pub is_finished : JobStatus → Bool
is_finished completed = true
is_finished dead = true
is_finished _ = false

-- column = value, for a column that can be NULL
abbrev pub is_value : String → Option String → Bool
is_value v none = false
is_value v (some w) = w == v

-- i32::try_from(max_attempts).unwrap_or(i32::MAX), for a u32
abbrev pub i32_max : ℕ
i32_max = 2147483647

abbrev pub clamp_i32 : ℕ → ℕ
clamp_i32 n = min n i32_max

-- To split on the result of a call and keep the equation.
pub Result-cases {ℓ} :
    {A : Type ℓ} (r : Result A) → ((a : A) × (r ≡ ok a)) ⊎ ((x : DbError) × (r ≡ err x))
Result-cases (ok a) = inl (a, refl)
Result-cases (err x) = inr (x, refl)

-- A chain that ends in a value passed through its first part.
pub >>=-eq-ok {ℓ ℓ'} :
    {T : Type ℓ} {U : Type ℓ'} (first : Result T) (next : T → Result U) {u : U}
    → (first >>= next) ≡ ok u
    → (t : T) × (first ≡ ok t) × (next t ≡ ok u)
>>=-eq-ok (err refused) next chain = cc
>>=-eq-ok (ok value) next chain = (value, refl, chain)
