-- ===== src/Aggregation/Rows/Claimed.antt =====
-- What `SaveResult` leaves of the claims of the batches before.
use kue_preorder.Prelude.{
  ℕ, ◌==◌, ℤ, ◌+ℤ◌, ltb_ℤ, ◌≡◌, refl, sym, ap, ◌∙◌, false, ◌&&◌, List, [], ◌∷◌, some, arith, inl,
  inr, Bool-cases, if◌then◌else◌,
}
use kue_preorder.Aggregation.Batches.{ProductionBatch, Line}
use kue_preorder.Aggregation.Rows.{
  mark_computed, is_row, recomputed, inserted, upsert, upsert_all, is_stale, delete_stale,
  batch_with, claims, claimed_before,
}

-- The rows of the day's own batch claim nothing before it.
claims_own :
    (d : ℤ) (bs : List ProductionBatch) (b : ProductionBatch) (l : Line)
    → batch_with b.id bs ≡ some b
    → ltb_ℤ b.date d ≡ false
    → l.batch_id ≡ b.id
    → claims d bs l ≡ false
unfolding claims
claims_own d bs b l h k e = rw (ap (λ j. batch_with j bs) e ∙ h, k, claims) refl

module _ (d : ℤ) (bs : List ProductionBatch) (b : ProductionBatch) (h : batch_with b.id bs ≡ some b)
    (k : ltb_ℤ b.date d ≡ false) where
  abbrev with_claim : ℕ → Line → ℤ → ℤ
  with_claim i row x =
      if row.ingredient_id == i && claims d bs row then row.usable_stock +ℤ x else x

  unclaimed :
      (i : ℕ) (row : Line)
      → claims d bs row ≡ false
      → (rows : List Line) → claimed_before d bs i (row ∷ rows) ≡ claimed_before d bs i rows
  unfolding claimed_before
  unclaimed i row e rows = ground (arith, e)

  claimed-upsert :
      (i : ℕ) (l : Line) (rows : List Line)
      → claimed_before d bs i (upsert b.id l rows) ≡ claimed_before d bs i rows
  unfolding upsert claimed_before
  claimed-upsert i l [] = ground (arith, claims_own d bs b (inserted b.id l) h k refl)
  claimed-upsert i l (row ∷ rows) = elim (Bool-cases (is_row b.id l.ingredient_id row)) [
    | inl t ↦
        let own : row.batch_id ≡ b.id = ground (arith, t) in
        rw t (
          unclaimed i (recomputed l row) (claims_own d bs b (recomputed l row) h k own) rows
          ∙ sym (unclaimed i row (claims_own d bs b row h k own) rows))
    | inr f ↦ rw f (ap (with_claim i row) (claimed-upsert i l rows))
  ]

  claimed-upsert_all :
      (i : ℕ) (ls rows : List Line)
      → claimed_before d bs i (upsert_all b.id ls rows) ≡ claimed_before d bs i rows
  unfolding upsert_all
  claimed-upsert_all i [] rows = refl
  claimed-upsert_all i (l ∷ ls) rows =
      claimed-upsert_all i ls (upsert b.id l rows) ∙ claimed-upsert i l rows

  claimed-delete_stale :
      (i : ℕ) (keep rows : List Line)
      → claimed_before d bs i (delete_stale b.id keep rows) ≡ claimed_before d bs i rows
  unfolding delete_stale claimed_before
  claimed-delete_stale i keep [] = refl
  claimed-delete_stale i keep (row ∷ rows) = elim (Bool-cases (is_stale b.id keep row)) [
    | inl t ↦
        let own : row.batch_id ≡ b.id = ground (arith, t) in
        rw t (
          claimed-delete_stale i keep rows
          ∙ sym (unclaimed i row (claims_own d bs b row h k own) rows))
    | inr f ↦ rw f (ap (with_claim i row) (claimed-delete_stale i keep rows))
  ]

claims-mark_computed :
    (d : ℤ) (id : ℕ) (now : ℤ) (bs : List ProductionBatch) (l : Line)
    → claims d (mark_computed id now bs) l ≡ claims d bs l
unfolding claims mark_computed batch_with
claims-mark_computed d id now [] l = refl
claims-mark_computed d id now (b ∷ bs) l = ground (arith, claims-mark_computed d id now bs l)

claimed-mark_computed :
    (d : ℤ) (id : ℕ) (now : ℤ) (bs : List ProductionBatch) (i : ℕ) (rows : List Line)
    → claimed_before d (mark_computed id now bs) i rows ≡ claimed_before d bs i rows
unfolding claimed_before
claimed-mark_computed d id now bs i [] = refl
claimed-mark_computed d id now bs i (row ∷ rows) =
    ground (arith, claims-mark_computed d id now bs row, claimed-mark_computed d id now bs i rows)

-- What the batches before claim stays.
pub claimed-saved :
    (d now : ℤ) (bs : List ProductionBatch) (b : ProductionBatch) (i : ℕ) (ls rows : List Line)
    → batch_with b.id bs ≡ some b
    → ltb_ℤ b.date d ≡ false
    → claimed_before d
        (mark_computed b.id now bs)
        i
        (delete_stale b.id ls (upsert_all b.id ls rows))
      ≡ claimed_before d bs i rows
claimed-saved d now bs b i ls rows h k =
    claimed-mark_computed d b.id now bs i (delete_stale b.id ls (upsert_all b.id ls rows))
    ∙ claimed-delete_stale d bs b h k i ls (upsert_all b.id ls rows)
    ∙ claimed-upsert_all d bs b h k i ls rows
