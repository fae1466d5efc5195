-- ===== src/Inventory/Consume/Apart.antt =====
-- The lots of the table one by one: in what the queries return, and after a consumption.
use mathlib.Core.Path.{subst}
use kue_preorder.Prelude.{
  ℕ, ◌==◌, ℤ, min_ℤ, ◌≡◌, ◌≢◌, refl, sym, List, [], ◌∷◌, map, All, arith, if◌then◌else◌,
}
use kue_preorder.Prelude.Word.{◌-64◌}
use kue_preorder.Inventory.Stock.{
  Lot, LotStatus, Movement, Stock, with_sums, insert, rows_of, status_set, exhausted,
}
use kue_preorder.Inventory.Consume.{draw, take_from}
use kue_preorder.Inventory.Consume.Nonneg.{AreApart, IsCurrent}

insert-other :
    (k : ℕ) (l : Lot) (ls : List Lot)
    → l.id ≢ k
    → All (λ q. q.id ≢ k) ls
    → All (λ q. q.id ≢ k) (insert l ls)
unfolding insert
insert-other k l [] n h = (n, tt)
insert-other k l (q ∷ ls) n h = ground (arith, insert-other k l ls n h.1)

insert-AreApart :
    (l : Lot) (ls : List Lot) → All (λ q. q.id ≢ l.id) ls → AreApart ls → AreApart (insert l ls)
unfolding insert
insert-AreApart l [] n a = (tt, tt)
insert-AreApart l (q ∷ ls) n a =
    ground (arith, insert-AreApart l ls n.1 a.1, insert-other q.id l ls (λ e. n.0 (sym e)) a.0)

rows_of-other :
    (i k : ℕ) (statuses : List LotStatus) (ls : List Lot)
    → All (λ q. q.id ≢ k) ls
    → All (λ q. q.id ≢ k) (rows_of i statuses ls)
unfolding rows_of
rows_of-other i k statuses [] h = tt
rows_of-other i k statuses (l ∷ ls) h = ground (
  arith,
  rows_of-other i k statuses ls h.1,
  insert-other k l (rows_of i statuses ls) h.0 (rows_of-other i k statuses ls h.1),
)

pub rows_of-AreApart :
    (i : ℕ) (statuses : List LotStatus) (ls : List Lot)
    → AreApart ls
    → AreApart (rows_of i statuses ls)
unfolding rows_of
rows_of-AreApart i statuses [] a = tt
rows_of-AreApart i statuses (l ∷ ls) a = ground (
  arith,
  rows_of-AreApart i statuses ls a.1,
  insert-AreApart l (rows_of i statuses ls) (rows_of-other i l.id statuses ls a.0)
      (rows_of-AreApart i statuses ls a.1),
)

with_sums-other :
    (s : Stock) (k : ℕ) (ls : List Lot)
    → All (λ q. q.id ≢ k) ls
    → All (λ q. q.id ≢ k) (map (with_sums s) ls)
with_sums-other s k [] h = tt
with_sums-other s k (l ∷ ls) h = (h.0, with_sums-other s k ls h.1)

pub with_sums-AreApart : (s : Stock) (ls : List Lot) → AreApart ls → AreApart (map (with_sums s) ls)
with_sums-AreApart s [] a = tt
with_sums-AreApart s (l ∷ ls) a = (with_sums-other s l.id ls a.0, with_sums-AreApart s ls a.1)

pub with_sums-IsCurrent : (s : Stock) (ls : List Lot) → All (IsCurrent s) (map (with_sums s) ls)
with_sums-IsCurrent s [] = tt
with_sums-IsCurrent s (l ∷ ls) = (refl, with_sums-IsCurrent s ls)

status_set-other :
    (id k : ℕ) (status : LotStatus) (ls : List Lot)
    → All (λ q. q.id ≢ k) ls
    → All (λ q. q.id ≢ k) (status_set id status ls)
unfolding status_set
status_set-other id k status [] h = tt
status_set-other id k status (l ∷ ls) h = ground (arith, status_set-other id k status ls h.1)

kept_id :
    (id : ℕ) (status : LotStatus) (l : Lot)
    → (if l.id == id then record l { status = status } else l).id ≡ l.id
kept_id id status l = ground arith

pub status_set-AreApart :
    (id : ℕ) (status : LotStatus) (ls : List Lot) → AreApart ls → AreApart (status_set id status ls)
unfolding status_set
status_set-AreApart id status [] a = tt
status_set-AreApart id status (l ∷ ls) a = (
  subst (λ k. All (λ q. q.id ≢ k) (status_set id status ls)) (sym (kept_id id status l))
      (status_set-other id l.id status ls a.0),
  status_set-AreApart id status ls a.1,
)

pub take_from-AreApart :
    (move : Lot → ℤ → Movement) (l : Lot) (t : ℤ) (s : Stock)
    → AreApart s.lots
    → AreApart (take_from move l t s).lots
unfolding take_from
take_from-AreApart move l t s a = ground (arith, status_set-AreApart l.id exhausted s.lots a)

pub draw-AreApart :
    (move : Lot → ℤ → Movement) (ls : List Lot) (r : ℤ) (s : Stock)
    → AreApart s.lots
    → AreApart (draw move ls r s).1.lots
unfolding draw
draw-AreApart move [] r s a = a
draw-AreApart move (l ∷ ls) r s a =
    let now = take_from-AreApart move l (min_ℤ l.balance r) s a in
    ground (
      arith,
      now,
      draw-AreApart move ls r s a,
      draw-AreApart move ls (r -64 min_ℤ l.balance r) (take_from move l (min_ℤ l.balance r) s) now,
    )
