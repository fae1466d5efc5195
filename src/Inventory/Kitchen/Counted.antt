-- ===== src/Inventory/Kitchen/Counted.antt =====
-- Stock counts, beside consumptions.
use kue_preorder.Prelude.{
  ℕ, ◌==◌, ℤ, pos, ◌+ℤ◌, ◌-ℤ◌, ◌≤ℤ◌, ltb_ℤ, leb_ℤ, eqb_ℤ, min_ℤ, +ℤ_parts, eq_of_parts, ◌≡◌, ◌≢◌,
  refl, sym, Bool, true, false, List, [], ◌∷◌, ◌++◌, map, All, arith, inl, inr, Bool-cases,
  if◌then◌else◌, Option-cases,
}
use kue_preorder.Prelude.Word.{◌-64◌}
use kue_preorder.Platform.Journal.{AuditEntry, Event}
use kue_preorder.Platform.Caller.{Principal}
use kue_preorder.Inventory.Stock.{
  Lot, Movement, Stock, balance_of, lots_of, rows_of, with_sums, insert_movement,
}
use kue_preorder.Inventory.Consume.{draw, take_from}
use kue_preorder.Inventory.Consume.Nonneg.{AreApart, IsNonneg, balance_of-append, draw-IsNonneg}
use kue_preorder.Inventory.Consume.Apart.{
  rows_of-AreApart, with_sums-AreApart, with_sums-IsCurrent, draw-AreApart,
}
use kue_preorder.Inventory.Consume.Whole.{IsSoundStock}
use kue_preorder.Inventory.Intake.{Ingredient}
use kue_preorder.Inventory.Kitchen.{
  CountInput, counted, adjusting, count_down, count_up, newest_available, total_from, apply_count,
}

draw_zero :
    (move : Lot → ℤ → Movement) (ls : List Lot) (s : Stock) → draw move ls (pos 0) s ≡ (pos 0, s)
unfolding draw
draw_zero move [] s = refl
draw_zero move (l ∷ ls) s =
    let t : leb_ℤ (min_ℤ l.balance (pos 0)) (pos 0) ≡ true = ground arith in
    rw t (draw_zero move ls s)

count_down_zero :
    (move : Lot → ℤ → Movement) (ls : List Lot) (s : Stock)
    → count_down move ls (pos 0) s ≡ (pos 0, s)
unfolding count_down
count_down_zero move [] s = refl
count_down_zero move (l ∷ ls) s = refl

-- The loop of a count, which looks before each lot whether anything remains, takes exactly what the
-- loop of a consumption takes, which looks after each lot that it took from.
pub count_down-draw :
    (move : Lot → ℤ → Movement) (ls : List Lot) (r : ℤ) (s : Stock)
    → count_down move ls r s ≡ draw move ls r s
unfolding count_down draw
count_down-draw move [] r s = refl
count_down-draw move (l ∷ ls) r s = elim (Bool-cases (eqb_ℤ r (pos 0))) [
  | inl z ↦
      (let same : r ≡ pos 0 = eq_of_parts r (pos 0) (ground (arith, z)) in
        rw z (rw same (sym (draw_zero move (l ∷ ls) s))))
  | inr n ↦ elim (Bool-cases (leb_ℤ (min_ℤ l.balance r) (pos 0))) [
    | inl t ↦ rw (n, t) (count_down-draw move ls r s)
    | inr f ↦ elim (Bool-cases (eqb_ℤ (r -64 min_ℤ l.balance r) (pos 0))) [
      | inl z ↦
          (let left : r -64 min_ℤ l.balance r ≡ pos 0 = eq_of_parts _ (pos 0) (ground (arith, z)) in
            rw (n, f, z)
              (rw left (count_down_zero move ls (take_from move l (min_ℤ l.balance r) s))))
      | inr m ↦
          rw (n, f, m)
            (count_down-draw move ls (r -64 min_ℤ l.balance r)
              (take_from move l (min_ℤ l.balance r) s))
    ]
  ]
]

grown : (b : Bool) (x y : ℤ) → pos 0 ≤ℤ x → pos 0 ≤ℤ y → pos 0 ≤ℤ (if b then x +ℤ y else x)
grown true x y h k = omega (arith, +ℤ_parts x y)
grown false x y h k = h

-- The journals hold no stock.
journal_sound :
    (s : Stock) {a : List AuditEntry} {e : List Event}
    → IsSoundStock s
    → IsSoundStock (record s { audits = a; events = e })
journal_sound s h = record { apart = h.apart; nonneg = h.nonneg }

-- Stock that comes in takes nothing from any lot.
incoming-IsNonneg :
    (s : Stock) (m : Movement) → pos 0 ≤ℤ m.qty → IsNonneg s → IsNonneg (insert_movement m s)
incoming-IsNonneg s m q h k =
    rw (balance_of-append k s.movements m)
      (grown (m.lot_id == k) (balance_of k s.movements) m.qty (h k) q)

append-other :
    (k : ℕ) (ls : List Lot) (l : Lot)
    → l.id ≢ k
    → All (λ q. q.id ≢ k) ls
    → All (λ q. q.id ≢ k) (ls ++ l ∷ [])
append-other k [] l n h = (n, tt)
append-other k (q ∷ ls) l n h = (h.0, append-other k ls l n h.1)

append-AreApart :
    (ls : List Lot) (l : Lot) → All (λ q. q.id ≢ l.id) ls → AreApart ls → AreApart (ls ++ l ∷ [])
append-AreApart [] l n a = (tt, tt)
append-AreApart (q ∷ ls) l n a =
    (append-other q.id ls l (λ e. n.0 (sym e)) a.0, append-AreApart ls l n.1 a.1)

count_up_sound :
    (p : Principal) (ing : Ingredient) (i : CountInput) (fresh : ℕ) (now diff : ℤ) (lots : List Lot)
    (s : Stock)
    → IsSoundStock s
    → All (λ q. q.id ≢ fresh) s.lots
    → pos 0 ≤ℤ diff
    → IsSoundStock (count_up p ing i fresh now diff lots s)
unfolding count_up
count_up_sound p ing i fresh now diff lots s h new d = elim (Option-cases (newest_available lots)) [
  | inl e ↦
      rw (e, count_up)
        (record {
          apart = append-AreApart s.lots _ new h.apart;
          nonneg = incoming-IsNonneg s _ d h.nonneg;
        })
  | inr (l, e) ↦
      rw (e, count_up) (record { apart = h.apart; nonneg = incoming-IsNonneg s _ d h.nonneg })
]

count_down_sound :
    (p : Principal) (i : CountInput) (now r : ℤ) (s : Stock)
    → IsSoundStock s
    → IsSoundStock (
        (count_down
          (λ l t. adjusting p i now l (pos 0 -ℤ t))
          (lots_of i.ingredient_id counted s)
          r
          s).1)
unfolding lots_of
count_down_sound p i now r s h =
    let rows = rows_of i.ingredient_id counted s.lots in
    let move = λ (l : Lot) (t : ℤ). adjusting p i now l (pos 0 -ℤ t) in
    rw (count_down-draw move (map (with_sums s) rows) r s) (record {
      apart = draw-AreApart move (map (with_sums s) rows) r s h.apart;
      nonneg =
          draw-IsNonneg move (λ l t. refl) (λ l t. refl) (map (with_sums s) rows) r s
            (with_sums-AreApart s rows (rows_of-AreApart i.ingredient_id counted s.lots h.apart))
            (with_sums-IsCurrent s rows) h.nonneg;
    })

-- From a stock in which no lot has given more than it got and no lot stands twice, a stock count leaves
-- such a stock, whatever the number counted. The id that a new lot would get is not in use.
pub apply_count_sound :
    (p : Principal) (ing : Ingredient) (i : CountInput) (fresh : ℕ) (now : ℤ) (s : Stock)
    → IsSoundStock s
    → All (λ q. q.id ≢ fresh) s.lots
    → IsSoundStock (apply_count p ing i fresh now s)
unfolding apply_count
apply_count_sound p ing i fresh now s h new =
    let lots = lots_of i.ingredient_id counted s in
    let diff = i.actual -64 total_from (pos 0) lots in
    elim (Bool-cases (eqb_ℤ diff (pos 0))) [
      | inl z ↦ rw z h
      | inr n ↦ elim (Bool-cases (ltb_ℤ diff (pos 0))) [
        | inl t ↦ rw (n, t) (journal_sound _ (count_down_sound p i now (pos 0 -64 diff) s h))
        | inr f ↦
            rw (n, f)
              (journal_sound _
                (count_up_sound p ing i fresh now diff lots s h new (ground (arith, f))))
      ]
    ]
