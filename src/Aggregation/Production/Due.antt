-- ===== src/Aggregation/Production/Due.antt =====
-- `LockDue` leaves no batch open whose cutoff has passed.
use mathlib.Core.Path.{subst}
use kue_preorder.Prelude.{
  ℤ, ◌≤ℤ◌, leb_ℤ, eqb_ℤ, ◌≡◌, refl, sym, Bool, true, false, ◌&&◌, ◌||◌, List, [], ◌∷◌,
  contains_func, Option, All, arith, inl, inr, Bool-cases,
}
use kue_preorder.Orders.Store.{Order}
use kue_preorder.Orders.Checkout.Quote.{batch_cutoffs, earliest_cutoff}
use kue_preorder.Aggregation.Batches.{
  batch_open, batch_locked, eqb_status, ProductionBatch, Kitchen, is_on, set_status, insert,
  open_dates,
}
use kue_preorder.Aggregation.Production.{last_of, is_due, lock_each, lock_from, lock_due}

-- A batch that is open and due.
abbrev pub awaits_lock : (ℤ → Option ℤ) → ℤ → ProductionBatch → Bool
awaits_lock cutoffs now b = eqb_status b.status batch_open && is_due (cutoffs b.date) now

-- What a batch that waits to be locked has to be among.
abbrev Among : (ℤ → Option ℤ) → ℤ → List ℤ → ProductionBatch → Type 0
Among cutoffs now ds b = awaits_lock cutoffs now b ≡ true → contains_func (eqb_ℤ b.date) ds ≡ true

set_status-Among :
    (cutoffs : ℤ → Option ℤ) (now d : ℤ) (ds : List ℤ) (bs : List ProductionBatch)
    → All (Among cutoffs now (d ∷ ds)) bs
    → All (Among cutoffs now ds) ((set_status d (batch_open ∷ []) batch_locked bs).1)
unfolding set_status
set_status-Among cutoffs now d ds [] h = tt
set_status-Among cutoffs now d ds (b ∷ bs) h =
    elim (Bool-cases (is_on d b && contains_func (eqb_status b.status) (batch_open ∷ []))) [
      | inl t ↦ rw t ((λ e. cc), set_status-Among cutoffs now d ds bs h.1)
      | inr f ↦ rw f ((λ e. ground (arith, h.0)), set_status-Among cutoffs now d ds bs h.1)
    ]

not_due-Among :
    (cutoffs : ℤ → Option ℤ) (now d : ℤ) (ds : List ℤ) (bs : List ProductionBatch)
    → is_due (cutoffs d) now ≡ false
    → All (Among cutoffs now (d ∷ ds)) bs
    → All (Among cutoffs now ds) bs
not_due-Among cutoffs now d ds [] f h = tt
not_due-Among cutoffs now d ds (b ∷ bs) f h =
    ((λ e. ground (arith, h.0)), not_due-Among cutoffs now d ds bs f h.1)

none_awaits :
    (cutoffs : ℤ → Option ℤ) (now : ℤ) (bs : List ProductionBatch)
    → All (Among cutoffs now []) bs
    → All (λ b. awaits_lock cutoffs now b ≡ false) bs
none_awaits cutoffs now [] h = tt
none_awaits cutoffs now (b ∷ bs) h = (ground (arith, h.0), none_awaits cutoffs now bs h.1)

lock_each_all :
    (cutoffs : ℤ → Option ℤ) (now : ℤ) (ds : List ℤ) (bs : List ProductionBatch)
    → All (Among cutoffs now ds) bs
    → All (λ b. awaits_lock cutoffs now b ≡ false) ((lock_each cutoffs now ds bs).1)
unfolding lock_each
lock_each_all cutoffs now [] bs h = none_awaits cutoffs now bs h
lock_each_all cutoffs now (d ∷ ds) bs h = elim (Bool-cases (is_due (cutoffs d) now)) [
  | inl t ↦ rw t (lock_each_all cutoffs now ds _ (set_status-Among cutoffs now d ds bs h))
  | inr f ↦ rw f (lock_each_all cutoffs now ds bs (not_due-Among cutoffs now d ds bs f h))
]

-- The loop reads the cutoffs at its dates only.
lock_each-eq :
    (c c' : ℤ → Option ℤ) (now : ℤ) (ds : List ℤ) (bs : List ProductionBatch)
    → All (λ d. c d ≡ c' d) ds
    → lock_each c now ds bs ≡ lock_each c' now ds bs
unfolding lock_each
lock_each-eq c c' now [] bs h = refl
lock_each-eq c c' now (d ∷ ds) bs h = rw (
  h.0,
  lock_each-eq c c' now ds bs h.1,
  lock_each-eq c c' now ds ((set_status d (batch_open ∷ []) batch_locked bs).1) h.1,
)

IsSorted : List ℤ → Type 0
IsSorted [] = Unit
IsSorted (d ∷ ds) = All (λ x. d ≤ℤ x) ds × IsSorted ds

insert-All {ℓ} : (P : ℤ → Type ℓ) (d : ℤ) (ds : List ℤ) → P d → All P ds → All P (insert d ds)
unfolding insert
insert-All P d [] p h = (p, tt)
insert-All P d (e ∷ es) p h = elim (Bool-cases (leb_ℤ d e)) [
  | inl t ↦ rw t (p, h)
  | inr f ↦ rw f (h.0, insert-All P d es p h.1)
]

All-below : (d e : ℤ) (ds : List ℤ) → d ≤ℤ e → All (λ x. e ≤ℤ x) ds → All (λ x. d ≤ℤ x) ds
All-below d e [] le h = tt
All-below d e (x ∷ xs) le h = (omega (arith, le, h.0), All-below d e xs le h.1)

insert-IsSorted : (d : ℤ) (ds : List ℤ) → IsSorted ds → IsSorted (insert d ds)
unfolding IsSorted insert
insert-IsSorted d [] h = (tt, tt)
insert-IsSorted d (e ∷ es) h = elim (Bool-cases (leb_ℤ d e)) [
  | inl t ↦ rw t ((ground (arith, t), All-below d e es (ground (arith, t)) h.0), h)
  | inr f ↦ rw f (insert-All _ d es (ground (arith, f)) h.0, insert-IsSorted d es h.1)
]

open_dates-IsSorted : (bs : List ProductionBatch) → IsSorted (open_dates bs)
unfolding IsSorted open_dates
open_dates-IsSorted [] = tt
open_dates-IsSorted (b ∷ bs) = elim (Bool-cases (eqb_status b.status batch_open)) [
  | inl t ↦ rw t (insert-IsSorted b.date (open_dates bs) (open_dates-IsSorted bs))
  | inr f ↦ rw f (open_dates-IsSorted bs)
]

insert-contains :
    (x d : ℤ) (ds : List ℤ)
    → contains_func (eqb_ℤ x) (insert d ds) ≡ (eqb_ℤ x d || contains_func (eqb_ℤ x) ds)
unfolding insert
insert-contains x d [] = refl
insert-contains x d (e ∷ es) = ground (arith, insert-contains x d es)

more-Among :
    (cutoffs : ℤ → Option ℤ) (now d : ℤ) (ds : List ℤ) (bs : List ProductionBatch)
    → All (Among cutoffs now ds) bs
    → All (Among cutoffs now (insert d ds)) bs
more-Among cutoffs now d ds [] h = tt
more-Among cutoffs now d ds (b ∷ bs) h =
    ((λ e. ground (arith, h.0, insert-contains b.date d ds)), more-Among cutoffs now d ds bs h.1)

open_dates-open :
    (b : ProductionBatch) (bs : List ProductionBatch)
    → eqb_status b.status batch_open ≡ true
    → insert b.date (open_dates bs) ≡ open_dates (b ∷ bs)
unfolding open_dates
open_dates-open b bs t = rw t refl

open_dates-other :
    (b : ProductionBatch) (bs : List ProductionBatch)
    → eqb_status b.status batch_open ≡ false
    → open_dates bs ≡ open_dates (b ∷ bs)
unfolding open_dates
open_dates-other b bs f = rw f refl

open_dates-Among :
    (cutoffs : ℤ → Option ℤ) (now : ℤ) (bs : List ProductionBatch)
    → All (Among cutoffs now (open_dates bs)) bs
open_dates-Among cutoffs now [] = tt
open_dates-Among cutoffs now (b ∷ bs) =
    let rest = open_dates-Among cutoffs now bs in
    elim (Bool-cases (eqb_status b.status batch_open)) [
      | inl t ↦
          subst (λ ds. All (Among cutoffs now ds) (b ∷ bs)) (open_dates-open b bs t)
            (
              (λ e. ground (arith, insert-contains b.date b.date (open_dates bs))),
              more-Among cutoffs now b.date (open_dates bs) bs rest,
            )
      | inr f ↦
          subst (λ ds. All (Among cutoffs now ds) (b ∷ bs)) (open_dates-other b bs f)
            ((λ e. cc), rest)
    ]

last_bound : (d : ℤ) (ds : List ℤ) → IsSorted (d ∷ ds) → All (λ x. x ≤ℤ last_of d ds) (d ∷ ds)
unfolding IsSorted last_of
last_bound d [] h = (omega arith, tt)
last_bound d (e ∷ es) h = let later = last_bound e es h.1 in (omega (arith, h.0.0, later.0), later)

read_between :
    (os : List Order) (from to : ℤ) (ds : List ℤ)
    → All (λ x. from ≤ℤ x) ds
    → All (λ x. x ≤ℤ to) ds
    → All (λ x. batch_cutoffs os from to x ≡ earliest_cutoff x os) ds
unfolding batch_cutoffs
read_between os from to [] low high = tt
read_between os from to (d ∷ ds) low high =
    (ground (arith, low.0, high.0), read_between os from to ds low.1 high.1)

-- The range that the cutoffs are read for holds every open date.
lock_from-eq :
    (os : List Order) (now : ℤ) (ds : List ℤ) (bs : List ProductionBatch)
    → IsSorted ds
    → lock_from os now ds bs ≡ lock_each (λ x. earliest_cutoff x os) now ds bs
unfolding lock_from lock_each IsSorted
lock_from-eq os now [] bs h = refl
lock_from-eq os now (d ∷ ds) bs h =
    lock_each-eq (batch_cutoffs os d (last_of d ds)) (λ x. earliest_cutoff x os) now (d ∷ ds) bs
      (read_between os d (last_of d ds) (d ∷ ds) (omega arith, h.0) (last_bound d ds h))

-- After LockDue, no batch is open whose shopping cutoff, the earliest of the orders that count for
-- production on its day, has passed.
pub lock_due_complete :
    (os : List Order) (now : ℤ) (k : Kitchen)
    → All
        (λ b. awaits_lock (λ d. earliest_cutoff d os) now b ≡ false)
        ((lock_due os now k).1.batches)
unfolding lock_due
lock_due_complete os now k =
    let cutoffs : ℤ → Option ℤ = λ d. earliest_cutoff d os in
    subst (λ x. All (λ b. awaits_lock cutoffs now b ≡ false) (x.1))
      (sym (lock_from-eq os now (open_dates k.batches) k.batches (open_dates-IsSorted k.batches)))
      (lock_each_all cutoffs now (open_dates k.batches) k.batches
        (open_dates-Among cutoffs now k.batches))
