-- ===== src/Aggregation/Rows/Saved.antt =====
-- What `SaveResult` leaves of the row of an ingredient.
use mathlib.Core.Path.{subst}
use kue_preorder.Prelude.{
  ℕ, ◌==◌, ℤ, ◌≤ℤ◌, ◌≡◌, refl, sym, ap, ◌∙◌, ◌⊎◌, Bool, true, false, List, [], ◌∷◌, contains_func,
  Option, none, some, All, arith, inl, inr, Bool-cases, if◌then◌else◌,
}
use kue_preorder.Aggregation.Batches.{
  ProductionBatch, is_on, batch_on, Line, LineStatus, line_needed, line_ordered, line_received,
}
use kue_preorder.Aggregation.Shop.{is_touched}
use kue_preorder.Aggregation.Rows.{
  ensure_batch, is_row, is_needed, recomputed, inserted, upsert, upsert_all, is_stale, delete_stale,
}

-- The row of an ingredient in a batch.
unfoldable pub row_of : ℕ → ℕ → List Line → Option Line
row_of b i [] = none
row_of b i (l ∷ ls) = let rest = row_of b i ls in if is_row b i l then some l else rest

abbrev pub in_list : ℕ → List Line → Bool
in_list i ls = contains_func (λ l. l.ingredient_id == i) ls

-- A row counts on at most so much.
abbrev pub IsWithin : ℤ → Option Line → Type 0
IsWithin x none = Unit
IsWithin x (some l) = l.usable_stock ≤ℤ x

abbrev or_inserted : ℕ → Line → Option Line → Line
or_inserted b l none = inserted b l
or_inserted b l (some row) = recomputed l row

upsert-row_of :
    (b i : ℕ) (l : Line) (rows : List Line)
    → row_of b i (upsert b l rows)
      ≡ (if l.ingredient_id == i then some (or_inserted b l (row_of b i rows)) else row_of b i rows)
unfolding upsert row_of
upsert-row_of b i l [] = ground arith
upsert-row_of b i l (row ∷ rows) = ground (arith, upsert-row_of b i l rows)

or_inserted-IsWithin :
    (b : ℕ) (l : Line) (o : Option Line) (x : ℤ)
    → l.usable_stock ≤ℤ x
    → IsWithin x (some (or_inserted b l o))
or_inserted-IsWithin b l none x h = h
or_inserted-IsWithin b l (some row) x h = h

upsert_all-IsWithin :
    (bound : ℕ → ℤ) (b i : ℕ) (ls rows : List Line)
    → All (λ l. l.usable_stock ≤ℤ bound l.ingredient_id) ls
    → (in_list i ls ≡ true) ⊎ IsWithin (bound i) (row_of b i rows)
    → IsWithin (bound i) (row_of b i (upsert_all b ls rows))
unfolding upsert_all
upsert_all-IsWithin bound b i [] rows h (inl e) = cc
upsert_all-IsWithin bound b i [] rows h (inr w) = w
upsert_all-IsWithin bound b i (l ∷ ls) rows h c =
    upsert_all-IsWithin bound b i ls (upsert b l rows) h.1
      (elim (Bool-cases (l.ingredient_id == i)) [
        | inl t ↦ inr (
            subst (IsWithin (bound i)) (sym (upsert-row_of b i l rows)) (
              rw t (
                or_inserted-IsWithin b l (row_of b i rows) (bound i)
                  (subst (λ j. l.usable_stock ≤ℤ bound j) (ground (arith, t)) h.0))))
        | inr n ↦ elim c [
          | inl e ↦ inl (rw n at e)
          | inr w ↦ inr (subst (IsWithin (bound i)) (sym (upsert-row_of b i l rows)) (rw n w))
        ]
      ])

stale_other :
    (b i : ℕ) (keep : List Line) (row : Line)
    → in_list i keep ≡ true
    → is_stale b keep row ≡ true
    → is_row b i row ≡ false
stale_other b i keep row e t = elim (Bool-cases (is_row b i row)) [
  | inr f ↦ f
  | inl r ↦
      let same : i ≡ row.ingredient_id = ground (arith, r) in
      let kept = subst (λ j. in_list j keep ≡ true) same e in ground (arith, kept, t)
]

delete_stale-row_of :
    (b i : ℕ) (keep rows : List Line)
    → in_list i keep ≡ true
    → row_of b i (delete_stale b keep rows) ≡ row_of b i rows
unfolding delete_stale row_of
delete_stale-row_of b i keep [] e = refl
delete_stale-row_of b i keep (row ∷ rows) e = elim (Bool-cases (is_stale b keep row)) [
  | inl t ↦ rw t (
      delete_stale-row_of b i keep rows e
      ∙ sym (ap (λ x. if x then some row else row_of b i rows) (stale_other b i keep row e t)))
  | inr f ↦
      rw f (ap (λ x. if is_row b i row then some row else x) (delete_stale-row_of b i keep rows e))
]

-- Procurement has not touched an ingredient of a batch.
abbrev pub IsUntouched : ℕ → ℕ → Line → Type 0
IsUntouched b i row = is_row b i row ≡ true → is_touched row.status ≡ false

untouched_needed : (s : LineStatus) → is_touched s ≡ false → is_needed s ≡ true
untouched_needed line_needed e = refl
untouched_needed line_ordered e = cc
untouched_needed line_received e = cc

fresh_other :
    (b i : ℕ) (keep : List Line) (row : Line)
    → in_list i keep ≡ false
    → IsUntouched b i row
    → is_stale b keep row ≡ false
    → is_row b i row ≡ false
fresh_other b i keep row e u t = elim (Bool-cases (is_row b i row)) [
  | inr f ↦ f
  | inl r ↦
      let same : i ≡ row.ingredient_id = ground (arith, r) in
      let gone = subst (λ j. in_list j keep ≡ false) same e in
      let needed : is_needed row.status ≡ true = untouched_needed row.status (u r) in
      ground (arith, gone, t, r, needed)
]

delete_stale-none :
    (b i : ℕ) (keep rows : List Line)
    → in_list i keep ≡ false
    → All (IsUntouched b i) rows
    → row_of b i (delete_stale b keep rows) ≡ none
unfolding delete_stale row_of
delete_stale-none b i keep [] e h = refl
delete_stale-none b i keep (row ∷ rows) e h = elim (Bool-cases (is_stale b keep row)) [
  | inl t ↦ rw t (delete_stale-none b i keep rows e h.1)
  | inr f ↦ rw f (
      ap (λ x. if x then some row else row_of b i (delete_stale b keep rows))
        (fresh_other b i keep row e h.0 f)
      ∙ delete_stale-none b i keep rows e h.1)
]

upsert-IsUntouched :
    (b i : ℕ) (l : Line) (rows : List Line)
    → All (IsUntouched b i) rows
    → All (IsUntouched b i) (upsert b l rows)
unfolding upsert
upsert-IsUntouched b i l [] h = ((λ e. refl), tt)
upsert-IsUntouched b i l (row ∷ rows) h = elim (Bool-cases (is_row b l.ingredient_id row)) [
  | inl t ↦ rw t (h.0, h.1)
  | inr f ↦ rw f (h.0, upsert-IsUntouched b i l rows h.1)
]

upsert_all-IsUntouched :
    (b i : ℕ) (ls rows : List Line)
    → All (IsUntouched b i) rows
    → All (IsUntouched b i) (upsert_all b ls rows)
unfolding upsert_all
upsert_all-IsUntouched b i [] rows h = h
upsert_all-IsUntouched b i (l ∷ ls) rows h =
    upsert_all-IsUntouched b i ls (upsert b l rows) (upsert-IsUntouched b i l rows h)

-- The requirements that `SaveResult` leaves.
pub saved-IsWithin :
    (bound : ℕ → ℤ) (b i : ℕ) (ls rows : List Line)
    → All (λ l. l.usable_stock ≤ℤ bound l.ingredient_id) ls
    → (in_list i ls ≡ false → All (IsUntouched b i) rows)
    → IsWithin (bound i) (row_of b i (delete_stale b ls (upsert_all b ls rows)))
saved-IsWithin bound b i ls rows h u = elim (Bool-cases (in_list i ls)) [
  | inl t ↦
      subst (IsWithin (bound i)) (sym (delete_stale-row_of b i ls (upsert_all b ls rows) t))
        (upsert_all-IsWithin bound b i ls rows h (inl t))
  | inr f ↦
      subst (IsWithin (bound i))
        (sym (
          delete_stale-none b i ls (upsert_all b ls rows) f
            (upsert_all-IsUntouched b i ls rows (u f))))
        tt
]

-- A day that has its batch gets no other.
batch_on-contains :
    (d : ℤ) (bs : List ProductionBatch) (b : ProductionBatch)
    → batch_on d bs ≡ some b
    → contains_func (is_on d) bs ≡ true
unfolding batch_on
batch_on-contains d [] b e = cc
batch_on-contains d (c ∷ cs) b e = ground (arith, batch_on-contains d cs b)

pub ensure_batch-same :
    (fresh : ℕ) (d : ℤ) (bs : List ProductionBatch) (b : ProductionBatch)
    → batch_on d bs ≡ some b
    → ensure_batch fresh d bs ≡ bs
unfolding ensure_batch
ensure_batch-same fresh d bs b e = rw (batch_on-contains d bs b e) refl
