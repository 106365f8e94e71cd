-- ===== src/Db/Branches.antt =====
-- src/db.rs, `get_branch_outputs`: what the branches of a parallel or map step leave.
use Prim.Native.String
use Prim.Native.Nat.{Ordering}
use qhook.Prelude.{Bool, ◌&&◌, Option, none, some, String, List, [], ◌∷◌}
use qhook.Prelude.Classes.{string_eq}
use qhook.Sql.{select_where}
use qhook.Db.{Job, completed, Database, has_status, is_value}

abbrev pub branch_of : Job → List (String × Option String)
branch_of j = elim j.branch_name [ none ↦ [] | some b ↦ (b, j.step_output) ∷ [] ]

-- A row in its place among rows that are ordered by the name of the branch, behind its equals.
unfoldable pub insert_branch :
    String × Option String → List (String × Option String) → List (String × Option String)
insert_branch b [] = b ∷ []
insert_branch b (c ∷ cs) =
    let later = c ∷ insert_branch b cs in
    elim (String.compare b.0 c.0) [ Ordering.lt ↦ b ∷ c ∷ cs | _ ↦ later ]

unfoldable pub order_branches : List Job → List (String × Option String)
unfolding insert_branch
order_branches [] = []
order_branches (j ∷ js) =
    let rest = order_branches js in elim (branch_of j) [ [] ↦ rest | b ∷ bs ↦ insert_branch b rest ]

-- workflow_run_id = $1 AND step_name = $2 AND status = 'completed'
unfoldable pub is_branch_done : String → String → Job → Bool
is_branch_done run_id step j =
    is_value run_id j.workflow_run_id && is_value step j.step_name && has_status completed j.status

unfoldable pub get_branch_outputs : String → String → Database → List (String × Option String)
unfolding order_branches
get_branch_outputs run_id step db =
    order_branches (select_where (is_branch_done run_id step) db.jobs)
