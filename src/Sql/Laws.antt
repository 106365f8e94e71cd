-- ===== src/Sql/Laws.antt =====
-- Laws of the statements that every client of the tables uses.
use qhook.Prelude.{
  some, if◌then◌else◌, ◌∙◌, ◌+◌, ◌≡◌, refl, Bool, true, false, List, [], ◌∷◌, arith, All,
  Bool-cases, inl, inr, length, map,
}
use qhook.Sql.{find_where, update_where, count_where, delete_where}

module _ {A : Type 0} where
  -- Once no row meets a condition, an update under it changes nothing.
  pub update_where_none :
      (p : A → Bool) (f : A → A) (rs : List A) → count_where p rs ≡ 0 → update_where p f rs ≡ rs
  unfolding update_where count_where
  update_where_none p f [] h = refl
  update_where_none p f (r ∷ rs) h = ground (arith, update_where_none p f rs)

  -- If the written rows fail a condition, and the rows that are left fail it too, none meets it.
  pub count_where-update_where :
      (q p : A → Bool) (f : A → A)
      → ((r : A) → p r ≡ true → q (f r) ≡ false)
      → ((r : A) → p r ≡ false → q r ≡ false)
      → (rs : List A) → count_where q (update_where p f rs) ≡ 0
  unfolding update_where count_where
  count_where-update_where q p f hit miss [] = refl
  count_where-update_where q p f hit miss (r ∷ rs) = elim (Bool-cases (p r)) [
    | inl e ↦ ground (arith, hit r, count_where-update_where q p f hit miss rs)
    | inr e ↦ ground (arith, miss r, count_where-update_where q p f hit miss rs)
  ]

  pub All-update_where :
      (P : A → Type 0) (p : A → Bool) (f : A → A)
      → ((r : A) → p r ≡ true → P r → P (f r))
      → (rs : List A) → All P rs
      → All P (update_where p f rs)
  unfolding update_where
  All-update_where P p f keep [] h = tt
  All-update_where P p f keep (r ∷ rs) h = elim (Bool-cases (p r)) [
    | inl e ↦ (rw e (keep r e h.0), All-update_where P p f keep rs h.1)
    | inr e ↦ (rw e h.0, All-update_where P p f keep rs h.1)
  ]

  pub All-delete_where :
      (P : A → Type 0) (p : A → Bool) (rs : List A) → All P rs → All P (delete_where p rs)
  unfolding delete_where
  All-delete_where P p [] h = tt
  All-delete_where P p (r ∷ rs) h = elim (Bool-cases (p r)) [
    | inl e ↦ rw e (All-delete_where P p rs h.1)
    | inr e ↦ rw e (h.0, All-delete_where P p rs h.1)
  ]

  -- A column that an update does not write stays as it was, in every row.
  pub map-update_where :
      {B : Type 0} (g : A → B) (p : A → Bool) (f : A → A)
      → ((r : A) → g (f r) ≡ g r)
      → (rs : List A) → map g (update_where p f rs) ≡ map g rs
  unfolding update_where
  map-update_where g p f same [] = refl
  map-update_where g p f same (r ∷ rs) = elim (Bool-cases (p r)) [
    | inl e ↦ rw (e, same r, map-update_where g p f same rs)
    | inr e ↦ rw (e, map-update_where g p f same rs)
  ]

  -- A deletion leaves exactly the rows that the condition fails.
  pub length-delete_where :
      (p : A → Bool) (rs : List A) → length (delete_where p rs) + count_where p rs ≡ length rs
  unfolding delete_where count_where
  length-delete_where p [] = refl
  length-delete_where p (r ∷ rs) = ground (arith, length-delete_where p rs)

  -- The row that a key finds after an update: the one that it found, written if it was selected.
  pub find_where-update_where :
      (q p : A → Bool) (f : A → A)
      → ((r : A) → q (f r) ≡ q r)
      → (rs : List A) {r : A} → find_where q rs ≡ some r
      → find_where q (update_where p f rs) ≡ some (if p r then f r else r)
  unfolding find_where update_where
  find_where-update_where q p f same [] h = cc
  find_where-update_where q p f same (x ∷ rs) {r} h =
      ground (arith, same x, find_where-update_where q p f same rs {r = r})

  pub find_where-holds :
      (q : A → Bool) (rs : List A) {r : A} → find_where q rs ≡ some r → q r ≡ true
  unfolding find_where
  find_where-holds q [] h = cc
  find_where-holds q (x ∷ rs) {r} h = ground (arith, find_where-holds q rs {r = r})

  pub find_where-update_self :
      (q : A → Bool) (f : A → A)
      → ((r : A) → q (f r) ≡ q r)
      → (rs : List A) {r : A} → find_where q rs ≡ some r
      → find_where q (update_where q f rs) ≡ some (f r)
  find_where-update_self q f same rs h =
      find_where-update_where q q f same rs h ∙ rw (find_where-holds q rs h)

  -- A row that an update does not select is found as it was.
  pub find_where-update_other :
      (q p : A → Bool) (f : A → A)
      → ((r : A) → p r ≡ true → (q r ≡ false) × (q (f r) ≡ false))
      → (rs : List A) → find_where q (update_where p f rs) ≡ find_where q rs
  unfolding find_where update_where
  find_where-update_other q p f other [] = refl
  find_where-update_other q p f other (r ∷ rs) = elim (Bool-cases (p r)) [
    | inl e ↦ ground (arith, other r e, find_where-update_other q p f other rs)
    | inr e ↦ ground (arith, find_where-update_other q p f other rs)
  ]
