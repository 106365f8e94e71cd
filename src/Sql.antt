-- ===== src/Sql.antt =====
-- What the statements of src/db.rs do to a table: a table is the list of its rows, and a
-- statement is a function on it.
use qhook.Prelude.{
  Option, none, some, ℕ, zero, suc, ◌≤◌, Bool, true, false, List, [], ◌∷◌, leb, if◌then◌else◌, take,
}
pub mod Laws
pub mod Counts

module _ {A : Type 0} where
  -- UPDATE ... SET f WHERE p
  unfoldable pub update_where : (A → Bool) → (A → A) → List A → List A
  update_where p f [] = []
  update_where p f (r ∷ rs) = (if p r then f r else r) ∷ update_where p f rs

  -- SELECT COUNT(*) ... WHERE p: also the rows that an UPDATE or a DELETE affects.
  unfoldable pub count_where : (A → Bool) → List A → ℕ
  count_where p [] = 0
  count_where p (r ∷ rs) = let n = count_where p rs in if p r then suc n else n

  -- SELECT ... WHERE p
  unfoldable pub select_where : (A → Bool) → List A → List A
  select_where p [] = []
  select_where p (r ∷ rs) = let rest = select_where p rs in if p r then r ∷ rest else rest

  -- DELETE ... WHERE p
  unfoldable pub delete_where : (A → Bool) → List A → List A
  delete_where p [] = []
  delete_where p (r ∷ rs) = let rest = delete_where p rs in if p r then rest else r ∷ rest

  -- EXISTS (SELECT ... WHERE p)
  unfoldable pub exists_where : (A → Bool) → List A → Bool
  exists_where p [] = false
  exists_where p (r ∷ rs) = let rest = exists_where p rs in if p r then true else rest

  -- A row in its place among rows that are ordered by `key`, behind its equals.
  unfoldable pub insert_by : (A → ℕ) → A → List A → List A
  insert_by key a [] = a ∷ []
  insert_by key a (r ∷ rs) =
      let later = r ∷ insert_by key a rs in if leb (key r) (key a) then later else a ∷ r ∷ rs

  unfoldable pub sort_onto : (A → ℕ) → List A → List A → List A
  unfolding insert_by
  sort_onto key [] done = done
  sort_onto key (r ∷ rs) done = sort_onto key rs (insert_by key r done)

  -- ORDER BY key ASC LIMIT n, where rows with one key stay in the table's order
  unfoldable pub order_limit : (A → ℕ) → ℕ → List A → List A
  unfolding sort_onto
  order_limit key n rows = take n (sort_onto key rows [])

-- fetch_optional, or fetch_one: the first row that meets a condition
unfoldable pub find_where {ℓ} : {A : Type ℓ} → (A → Bool) → List A → Option A
find_where p [] = none
find_where p (r ∷ rs) = let rest = find_where p rs in if p r then some r else rest
