-- ===== src/Db/Invariant/Rows.antt =====
-- What holds of each row of `jobs` and of the table as a whole.
use qhook.Prelude.{
  ◌≡◌, refl, Bool, true, false, Option, none, some, List, [], ◌∷◌, ◌++◌, map, String, arith, eq_iff,
  if◌then◌else◌, All, All-append, Bool-cases, inl, inr,
}
use qhook.Prelude.Classes.{◌==◌, string_eq}
use qhook.Sql.{delete_where, exists_where}
use qhook.Sql.Laws.{All-update_where, All-delete_where, map-update_where}
use qhook.Db.{Job, Database, running, waiting, ok, has_status, is_finished}
use qhook.Db.Events.{has_job, insert_job_row}
use qhook.Db.Jobs.{update_jobs, delete_jobs}
use qhook.Db.Atomic.{insert_job_row-eq-ok}

abbrev pub is_some : {A : Type 0} → Option A → Bool
is_some none = false
is_some (some _) = true

-- A job that is finished has the time at which it finished, one that is running the time at which
-- it was started, and one that waits for a callback has a token.
pub record JobIsValid (j : Job) : Type 0 where
  pub finished : is_finished j.status ≡ true → is_some j.completed_at ≡ true
  pub started : has_status running j.status ≡ true → is_some j.started_at ≡ true
  pub tokened : has_status waiting j.status ≡ true → is_some j.callback_token ≡ true

abbrev pub absent : String → List String → Bool
absent id [] = true
absent id (k ∷ ks) = let rest = absent id ks in if k == id then false else rest

-- No value stands twice.
abbrev pub IsDistinct : List String → Type 0
IsDistinct [] = Unit
IsDistinct (k ∷ ks) = (absent k ks ≡ true) × IsDistinct ks

pub record IsValid (db : Database) : Type 0 where
  pub rows : All JobIsValid db.jobs
  pub ids : IsDistinct (map (λ j. j.id) db.jobs)

pub update_jobs-IsValid :
    (p : Job → Bool) (f : Job → Job)
    → ((j : Job) → p j ≡ true → JobIsValid j → JobIsValid (f j))
    → ((j : Job) → (f j).id ≡ j.id)
    → (db : Database) → IsValid db
    → IsValid (update_jobs p f db).0
unfolding update_jobs
update_jobs-IsValid p f keep same db v = record {
  rows = All-update_where JobIsValid p f keep db.jobs v.rows;
  ids = rw (map-update_where (λ j. j.id) p f same db.jobs) v.ids;
}

absent-delete_where :
    (id : String) (p : Job → Bool) (rows : List Job)
    → absent id (map (λ j. j.id) rows) ≡ true
    → absent id (map (λ j. j.id) (delete_where p rows)) ≡ true
unfolding delete_where
absent-delete_where id p [] h = refl
absent-delete_where id p (j ∷ js) h = ground (arith, absent-delete_where id p js)

IsDistinct-delete_where :
    (p : Job → Bool) (rows : List Job)
    → IsDistinct (map (λ j. j.id) rows)
    → IsDistinct (map (λ j. j.id) (delete_where p rows))
unfolding delete_where
IsDistinct-delete_where p [] h = tt
IsDistinct-delete_where p (j ∷ js) h = elim (Bool-cases (p j)) [
  | inl e ↦ rw e (IsDistinct-delete_where p js h.1)
  | inr e ↦ rw e (absent-delete_where j.id p js h.0, IsDistinct-delete_where p js h.1)
]

pub delete_jobs-IsValid :
    (p : Job → Bool) (db : Database) → IsValid db → IsValid (delete_jobs p db).0
unfolding delete_jobs
delete_jobs-IsValid p db v = record {
  rows = All-delete_where JobIsValid p db.jobs v.rows;
  ids = IsDistinct-delete_where p db.jobs v.ids;
}

absent-append :
    (id : String) (j : Job) (rows : List Job)
    → (j.id == id) ≡ false
    → absent id (map (λ r. r.id) rows) ≡ true
    → absent id (map (λ r. r.id) (rows ++ j ∷ [])) ≡ true
absent-append id j [] h a = ground arith
absent-append id j (r ∷ rows) h a = ground (arith, absent-append id j rows)

has_job-cons :
    (j r : Job) (rows : List Job)
    → has_job j (r ∷ rows) ≡ false
    → ((j.id == r.id) ≡ false) × (has_job j rows ≡ false)
unfolding has_job exists_where
has_job-cons j r rows h = ground (arith, eq_iff r.id j.id, eq_iff j.id r.id)

-- A row that finds no other row with its id joins the table.
IsDistinct-append :
    (j : Job) (rows : List Job)
    → has_job j rows ≡ false
    → IsDistinct (map (λ r. r.id) rows)
    → IsDistinct (map (λ r. r.id) (rows ++ j ∷ []))
IsDistinct-append j [] h d = (refl, tt)
IsDistinct-append j (r ∷ rows) h d =
    let (other, rest) = has_job-cons j r rows h in
    (absent-append r.id j rows other d.0, IsDistinct-append j rows rest d.1)

new_row-has_job :
    (j : Job) (rows : List Job) {rows' : List Job}
    → insert_job_row j rows ≡ ok rows'
    → has_job j rows ≡ false
unfolding insert_job_row
new_row-has_job j rows h = ground arith

pub insert_job_row-IsValid :
    (j : Job) (rows : List Job) {rows' : List Job}
    → insert_job_row j rows ≡ ok rows'
    → JobIsValid j
    → All JobIsValid rows
    → IsDistinct (map (λ r. r.id) rows)
    → All JobIsValid rows' × IsDistinct (map (λ r. r.id) rows')
insert_job_row-IsValid j rows h v all d = rw (insert_job_row-eq-ok j rows h) (
  All-append JobIsValid rows (j ∷ []) all (v, tt),
  IsDistinct-append j rows (new_row-has_job j rows h) d,
)
