-- ===== src/Procurement/Ledger.antt =====
-- What a shopping list says is ordered, and what waits in the purchase orders.
pub mod Recorded
use mathlib.Core.Path.{subst}
use kue_preorder.Prelude.{
  +ℤ_assoc, ℕ, ◌==◌, ℤ, pos, ◌+ℤ◌, ltb_ℤ, ◌≡◌, refl, sym, ap, ◌∙◌, Bool, true, false, ◌&&◌, ◌||◌,
  List, [], ◌∷◌, All, arith, inl, inr, Bool-cases, int_laws, if◌then◌else◌,
}
use kue_preorder.Prelude.Result.{Result, ok, err, ◌>>=◌, bind_ok, ok_eq}
use kue_preorder.Platform.Errors.{Error, internal}
use kue_preorder.Aggregation.Batches.{LineStatus, line_needed, line_ordered, line_received, Line}
use kue_preorder.Aggregation.Rows.{
  is_row, recomputed, inserted, upsert, upsert_all, is_stale, delete_stale, procured_status,
  procured_line, add_procured,
}

-- What the rows of an ingredient in a batch say is ordered.
abbrev pub row_ordered : ℕ → ℕ → Line → ℤ
row_ordered b i l = if is_row b i l then l.ordered else pos 0

unfoldable pub ordered_of : ℕ → ℕ → List Line → ℤ
ordered_of b i [] = pos 0
ordered_of b i (l ∷ ls) = row_ordered b i l +ℤ ordered_of b i ls

-- A line that is still needed only has nothing ordered.
abbrev pub IsClean : Line → Type 0
IsClean l = l.status ≡ line_needed → l.ordered ≡ pos 0

-- A change's part in an ingredient of a batch.
abbrev pub part : Bool → ℤ → ℤ
part t x = if t then x else pos 0

procured_line-IsClean :
    (x y : ℤ) (l : Line) → ltb_ℤ (l.ordered +ℤ x) (pos 0) ≡ false → IsClean (procured_line x y l)
procured_line-IsClean x y l h e = ground arith

pub add_zero : (a : ℤ) → a +ℤ pos 0 ≡ a
add_zero a = omega int_laws

pub +ℤ_comm : (a b : ℤ) → a +ℤ b ≡ b +ℤ a
+ℤ_comm a b = omega int_laws

-- Four sums that a proof moves between.
pub swap_middle : (a b c : ℤ) → a +ℤ b +ℤ c ≡ a +ℤ c +ℤ b
swap_middle a b c = omega int_laws

row_ordered-procured :
    (b i c j : ℕ) (x y : ℤ) (l : Line)
    → is_row b i l ≡ true
    → row_ordered c j (procured_line x y l) ≡ row_ordered c j l +ℤ part (c == b && j == i) x
row_ordered-procured b i c j x y l h = ground (arith, add_zero (pos 0))

-- What a change of a row leaves: the sums move by it, and the rows stay clean.
abbrev pub Adds : ℕ → ℕ → ℤ → List Line → List Line → Type 0
Adds b i x rows rows' =
    ((c j : ℕ) → ordered_of c j rows' ≡ ordered_of c j rows +ℤ part (c == b && j == i) x)
    × (All IsClean rows → All IsClean rows')

add_procured_here :
    (b i : ℕ) (x y : ℤ) (l : Line) (ls rows' : List Line)
    → is_row b i l ≡ true
    → (if ltb_ℤ (l.ordered +ℤ x) (pos 0) || ltb_ℤ (l.received +ℤ y) (pos 0)
        then err (internal "check")
        else ok (procured_line x y l ∷ ls))
      ≡ ok rows'
    → Adds b i x (l ∷ ls) rows'
unfolding ordered_of
add_procured_here b i x y l ls rows' h e =
    elim (Bool-cases (ltb_ℤ (l.ordered +ℤ x) (pos 0) || ltb_ℤ (l.received +ℤ y) (pos 0))) [
      | inl t ↦ cc (rw t at e)
      | inr f ↦ subst (Adds b i x (l ∷ ls)) (ok_eq _ _ (rw f at e)) (
        (λ c j.
            ap (λ z. z +ℤ ordered_of c j ls) (row_ordered-procured b i c j x y l h)
            ∙ swap_middle (row_ordered c j l) (part (c == b && j == i) x) (ordered_of c j ls)),
        λ k. (procured_line-IsClean x y l (ground arith), k.1),
      )
    ]

pub add_procured-Adds :
    (b i : ℕ) (x y : ℤ) (rows rows' : List Line)
    → add_procured b i x y rows ≡ ok rows'
    → Adds b i x rows rows'
unfolding add_procured ordered_of
add_procured-Adds b i x y [] rows' e = cc
add_procured-Adds b i x y (l ∷ ls) rows' e = elim (Bool-cases (is_row b i l)) [
  | inl t ↦ add_procured_here b i x y l ls rows' t (rw t at e)
  | inr f ↦
      let (rest, r, q) = bind_ok (add_procured b i x y ls) _ rows' (rw f at e) in
      let ih = add_procured-Adds b i x y ls rest r in
      subst (Adds b i x (l ∷ ls)) (ok_eq _ _ q) (
        (λ c j.
            ap (λ z. row_ordered c j l +ℤ z) (ih.0 c j)
            ∙ sym (+ℤ_assoc (row_ordered c j l) (ordered_of c j ls) (part (c == b && j == i) x))),
        λ k. (k.0, ih.1 k.1),
      )
]

-- What a computation writes leaves the sums as they are.
abbrev pub Same : List Line → List Line → Type 0
Same rows rows' =
    ((c j : ℕ) → ordered_of c j rows' ≡ ordered_of c j rows)
    × (All IsClean rows → All IsClean rows')

Same-trans : (a b c : List Line) → Same a b → Same b c → Same a c
Same-trans a b c h k = ((λ x y. k.0 x y ∙ h.0 x y), λ q. k.1 (h.1 q))

upsert-Same : (b : ℕ) (l : Line) (rows : List Line) → Same rows (upsert b l rows)
unfolding upsert ordered_of
upsert-Same b l [] = ((λ c j. ground (arith, add_zero (pos 0))), λ k. ((λ e. refl), tt))
upsert-Same b l (row ∷ rows) =
    let ih = upsert-Same b l rows in
    elim (Bool-cases (is_row b l.ingredient_id row)) [
      | inl t ↦ rw t ((λ c j. refl), λ k. k)
      | inr f ↦ rw f ((λ c j. ap (λ z. row_ordered c j row +ℤ z) (ih.0 c j)), λ k. (k.0, ih.1 k.1))
    ]

pub upsert_all-Same : (b : ℕ) (ls rows : List Line) → Same rows (upsert_all b ls rows)
unfolding upsert_all
upsert_all-Same b [] rows = ((λ c j. refl), λ k. k)
upsert_all-Same b (l ∷ ls) rows =
    Same-trans rows (upsert b l rows) _ (upsert-Same b l rows)
      (upsert_all-Same b ls (upsert b l rows))

-- A stale row has nothing ordered.
stale_ordered :
    (b c j : ℕ) (keep : List Line) (row : Line)
    → is_stale b keep row ≡ true
    → IsClean row
    → row_ordered c j row ≡ pos 0
stale_ordered b c j keep row t h = ground (arith, h)

pub delete_stale-Same :
    (b : ℕ) (keep rows : List Line)
    → All IsClean rows
    → ((c j : ℕ) → ordered_of c j (delete_stale b keep rows) ≡ ordered_of c j rows)
      × All IsClean (delete_stale b keep rows)
unfolding delete_stale ordered_of
delete_stale-Same b keep [] h = ((λ c j. refl), tt)
delete_stale-Same b keep (row ∷ rows) h =
    let ih = delete_stale-Same b keep rows h.1 in
    elim (Bool-cases (is_stale b keep row)) [
      | inl t ↦ rw t (
        (λ c j.
            ih.0 c j
            ∙ sym (add_zero (ordered_of c j rows))
            ∙ +ℤ_comm (ordered_of c j rows) (pos 0)
            ∙ ap (λ z. z +ℤ ordered_of c j rows) (sym (stale_ordered b c j keep row t h.0))),
        ih.1,
      )
      | inr f ↦ rw f ((λ c j. ap (λ z. row_ordered c j row +ℤ z) (ih.0 c j)), (h.0, ih.1))
    ]
