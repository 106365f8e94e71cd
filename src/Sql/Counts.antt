-- ===== src/Sql/Counts.antt =====
-- How updates and deletions move rows between conditions.
use qhook.Prelude.{
  ◌+◌, ◌≡◌, refl, Bool, true, false, ◌&&◌, List, [], ◌∷◌, arith, All, Bool-cases, inl, inr,
}
use qhook.Sql.{update_where, count_where, select_where, delete_where, exists_where}

module _ {A : Type 0} where
  -- An update that turns rows that fail `q` into rows that meet it adds as many as it writes.
  pub count_where-update_gain :
      (q p : A → Bool) (f : A → A)
      → ((r : A) → p r ≡ true → (q r ≡ false) × (q (f r) ≡ true))
      → (rs : List A) → count_where q (update_where p f rs) ≡ count_where q rs + count_where p rs
  unfolding update_where count_where
  count_where-update_gain q p f gain [] = refl
  count_where-update_gain q p f gain (r ∷ rs) = elim (Bool-cases (p r)) [
    | inl e ↦ ground (arith, gain r e, count_where-update_gain q p f gain rs)
    | inr e ↦ ground (arith, count_where-update_gain q p f gain rs)
  ]

  pub count_where-update_loss :
      (q p : A → Bool) (f : A → A)
      → ((r : A) → p r ≡ true → (q r ≡ true) × (q (f r) ≡ false))
      → (rs : List A) → count_where q (update_where p f rs) + count_where p rs ≡ count_where q rs
  unfolding update_where count_where
  count_where-update_loss q p f loss [] = refl
  count_where-update_loss q p f loss (r ∷ rs) = elim (Bool-cases (p r)) [
    | inl e ↦ ground (arith, loss r e, count_where-update_loss q p f loss rs)
    | inr e ↦ ground (arith, count_where-update_loss q p f loss rs)
  ]

  -- An update that makes no row meet `q` keeps the count at none.
  pub count_where-update_zero :
      (q p : A → Bool) (f : A → A)
      → ((r : A) → q r ≡ false → q (f r) ≡ false)
      → (rs : List A) → count_where q rs ≡ 0
      → count_where q (update_where p f rs) ≡ 0
  unfolding update_where count_where
  count_where-update_zero q p f keep [] h = refl
  count_where-update_zero q p f keep (r ∷ rs) h = elim (Bool-cases (q r)) [
    | inl e ↦ absurd (ground arith)
    | inr e ↦ ground (arith, keep r e, count_where-update_zero q p f keep rs)
  ]

  -- A predicate that the writes establish and that the rows left alone had anyway.
  pub All-update_split :
      (P Q : A → Type 0) (p : A → Bool) (f : A → A)
      → ((r : A) → p r ≡ true → P r → Q (f r))
      → ((r : A) → p r ≡ false → P r → Q r)
      → (rs : List A) → All P rs
      → All Q (update_where p f rs)
  unfolding update_where
  All-update_split P Q p f hit miss [] h = tt
  All-update_split P Q p f hit miss (r ∷ rs) h = elim (Bool-cases (p r)) [
    | inl e ↦ (rw e (hit r e h.0), All-update_split P Q p f hit miss rs h.1)
    | inr e ↦ (rw e (miss r e h.0), All-update_split P Q p f hit miss rs h.1)
  ]

  pub All-delete_split :
      (P Q : A → Type 0) (p : A → Bool)
      → ((r : A) → p r ≡ false → P r → Q r)
      → (rs : List A) → All P rs
      → All Q (delete_where p rs)
  unfolding delete_where
  All-delete_split P Q p miss [] h = tt
  All-delete_split P Q p miss (r ∷ rs) h = elim (Bool-cases (p r)) [
    | inl e ↦ rw e (All-delete_split P Q p miss rs h.1)
    | inr e ↦ rw e (miss r e h.0, All-delete_split P Q p miss rs h.1)
  ]

  pub All-trivial : (P : A → Type 0) → ((r : A) → P r) → (rs : List A) → All P rs
  All-trivial P h [] = tt
  All-trivial P h (r ∷ rs) = (h r, All-trivial P h rs)

  pub count_where-delete_where :
      (q p : A → Bool)
      → ((r : A) → p r ≡ true → q r ≡ false)
      → (rs : List A) → count_where q (delete_where p rs) ≡ count_where q rs
  unfolding delete_where count_where
  count_where-delete_where q p other [] = refl
  count_where-delete_where q p other (r ∷ rs) = elim (Bool-cases (p r)) [
    | inl e ↦ ground (arith, other r e, count_where-delete_where q p other rs)
    | inr e ↦ ground (arith, count_where-delete_where q p other rs)
  ]

  -- A row that meets `q` is left by a deletion, unless it meets the deletion's condition too.
  pub exists_where-delete_where :
      (q p : A → Bool) (rs : List A)
      → exists_where q rs ≡ true
      → exists_where (λ r. q r && p r) rs ≡ false
      → exists_where q (delete_where p rs) ≡ true
  unfolding exists_where delete_where
  exists_where-delete_where q p [] h none_deleted = h
  exists_where-delete_where q p (r ∷ rs) h none_deleted =
      ground (arith, exists_where-delete_where q p rs)

  pub All-select_split :
      (P Q : A → Type 0) (p : A → Bool)
      → ((r : A) → p r ≡ true → P r → Q r)
      → (rs : List A) → All P rs
      → All Q (select_where p rs)
  unfolding select_where
  All-select_split P Q p hit [] h = tt
  All-select_split P Q p hit (r ∷ rs) h = elim (Bool-cases (p r)) [
    | inl e ↦ rw e (hit r e h.0, All-select_split P Q p hit rs h.1)
    | inr e ↦ rw e (All-select_split P Q p hit rs h.1)
  ]
