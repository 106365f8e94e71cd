-- ===== src/Workflow/Parents.antt =====
-- src/queue.rs, `resume_parent_workflow`: the recursion from a run to its parent ends.
use qhook.Prelude.{
  ℕ, zero, suc, ◌+◌, ◌≤◌, ◌<◌, ◌≡◌, refl, sym, ◌∙◌, ap, ◌≢◌, eq_iff, Bool, true, false, Option,
  none, some, String, List, [], ◌∷◌, ◌++◌, length, All, arith, ltb, if◌then◌else◌, Bool-cases,
  Option-cases, inl, inr,
}
use qhook.Prelude.Classes.{◌==◌, string_eq}
use qhook.Sql.{find_where, update_where}
use qhook.Db.{Run, Database, run_completed}
use qhook.Db.Runs.{
  has_run_id, update_run, complete_workflow_run, get_workflow_run, get_parent_workflow_run, zip,
}
pub mod Resume

-- How far down the first run with an id stands, from 1; 0 if there is none.
unfoldable pub rank : String → List Run → ℕ
rank id [] = 0
rank id (r ∷ rs) =
    let below = rank id rs in if r.id == id then 1 else (if ltb 0 below then suc below else 0)

-- No run from here on has the id.
unfoldable pub absent_from : Option String → List Run → Bool
absent_from none rs = true
absent_from (some id) [] = true
absent_from (some id) (r ∷ rs) =
    let rest = absent_from (some id) rs in if r.id == id then false else rest

-- No run stands ahead of its parent, or is its own: a run is stored behind its parent.
abbrev pub IsOrdered : List Run → Type 0
IsOrdered [] = Unit
IsOrdered (r ∷ rs) = (absent_from r.parent_run_id (r ∷ rs) ≡ true) × IsOrdered rs

rank-absent : (id : String) (rs : List Run) → absent_from (some id) rs ≡ true → rank id rs ≡ 0
unfolding rank absent_from
rank-absent id [] h = refl
rank-absent id (r ∷ rs) h = elim (Bool-cases (r.id == id)) [
  | inl e ↦ ground arith
  | inr e ↦ ground (arith, rank-absent id rs)
]

rank-bound : (id : String) (rs : List Run) → rank id rs ≤ length rs
unfolding rank
rank-bound id [] = omega arith
rank-bound id (r ∷ rs) = ground (arith, rank-bound id rs)

rank-found :
    (id : String) (rs : List Run) {r : Run}
    → find_where (has_run_id id) rs ≡ some r
    → 0 < rank id rs
unfolding rank find_where has_run_id
rank-found id [] h = ground arith
rank-found id (q ∷ rs) {r} h = elim (Bool-cases (q.id == id)) [
  | inl e ↦ ground arith
  | inr e ↦
      (let h' : find_where (has_run_id id) rs ≡ some r = ground arith in
        ground (arith, rank-found id rs h'))
]

-- A run's parent stands ahead of it.
rank-parent :
    (id p : String) (rs : List Run) {r : Run}
    → IsOrdered rs
    → find_where (has_run_id id) rs ≡ some r
    → r.parent_run_id ≡ some p
    → rank p rs < rank id rs
unfolding rank find_where has_run_id absent_from
rank-parent id p [] o h k = ground arith
rank-parent id p (q ∷ rs) {r} (a, o) h k = elim (Bool-cases (q.id == id)) [
  | inl e ↦
      (let same : q ≡ r = ground arith in
        let e' : absent_from (some p) (q ∷ rs) ≡ true =
          ap (λ o. absent_from o (q ∷ rs)) (sym k ∙ ap (λ s. s.parent_run_id) (sym same)) ∙ a in
        ground (arith, rank-absent p (q ∷ rs) e'))
  | inr e ↦
      (let h' : find_where (has_run_id id) rs ≡ some r = ground arith in
        ground (arith, rank-parent id p rs o h' k, rank-found id rs h'))
]

-- A write that leaves the ids and the parents keeps the order.
module _ (p : Run → Bool) (f : Run → Run) (same_id : (r : Run) → (f r).id ≡ r.id)
    (same_parent : (r : Run) → (f r).parent_run_id ≡ r.parent_run_id) where
  rank-update : (id : String) (rs : List Run) → rank id (update_where p f rs) ≡ rank id rs
  unfolding rank update_where
  rank-update id [] = refl
  rank-update id (r ∷ rs) = elim (Bool-cases (p r)) [
    | inl e ↦ rw (e, same_id r, rank-update id rs) refl
    | inr e ↦ rw (e, rank-update id rs) refl
  ]

  absent-update :
      (o : Option String) (rs : List Run) → absent_from o (update_where p f rs) ≡ absent_from o rs
  unfolding absent_from update_where
  absent-update none rs = refl
  absent-update (some id) [] = refl
  absent-update (some id) (r ∷ rs) = elim (Bool-cases (p r)) [
    | inl e ↦ rw (e, same_id r, absent-update (some id) rs) refl
    | inr e ↦ rw (e, absent-update (some id) rs) refl
  ]

  IsOrdered-update : (rs : List Run) → IsOrdered rs → IsOrdered (update_where p f rs)
  unfolding update_where
  IsOrdered-update [] o = o
  IsOrdered-update (r ∷ rs) (a, o) =
      let kept : (if p r then f r else r).parent_run_id ≡ r.parent_run_id =
        elim (Bool-cases (p r)) [ inl e ↦ rw e (same_parent r) | inr e ↦ rw e refl ] in
      (
        ap (λ q. absent_from q (update_where p f (r ∷ rs))) kept
            ∙ absent-update r.parent_run_id (r ∷ rs)
            ∙ a,
        IsOrdered-update rs o,
      )

absent-append :
    (o : Option String) (rs : List Run) (r : Run)
    → absent_from o rs ≡ true
    → absent_from o (r ∷ []) ≡ true
    → absent_from o (rs ++ r ∷ []) ≡ true
unfolding absent_from
absent-append none rs r h k = refl
absent-append (some id) [] r h k = k
absent-append (some id) (q ∷ rs) r h k = elim (Bool-cases (q.id == id)) [
  | inl e ↦ ground arith
  | inr e ↦
      (let h' : absent_from (some id) rs ≡ true = ground arith in
        rw e (absent-append (some id) rs r h' k))
]

-- A child that is stored behind all runs keeps the order, if its id is new: it is no run's parent.
pub IsOrdered-append :
    (r : Run) (rs : List Run)
    → All (λ q. absent_from q.parent_run_id (r ∷ []) ≡ true) (rs ++ r ∷ [])
    → IsOrdered rs
    → IsOrdered (rs ++ r ∷ [])
IsOrdered-append r [] (a, all) o = (a, tt)
IsOrdered-append r (q ∷ rs) (a, all) (b, o) =
    (absent-append q.parent_run_id (q ∷ rs) r b a, IsOrdered-append r rs all o)
