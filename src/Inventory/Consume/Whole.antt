-- ===== src/Inventory/Consume/Whole.antt =====
-- A consumption as a whole.
use kue_preorder.Prelude.{
  ltb, ℤ, pos, negsuc, ◌+ℤ◌, ◌-ℤ◌, ◌≤ℤ◌, leb_ℤ, min_ℤ, ◌≡◌, refl, Bool, true, false, List, [], ◌∷◌,
  map, All, arith, inl, inr, Bool-cases, if◌then◌else◌,
}
use kue_preorder.Prelude.Word.{wrap64, ◌-64◌, InInt64}
use kue_preorder.Inventory.Stock.{Stock, with_sums, rows_of, lots_of, available}
use kue_preorder.Inventory.Consume.{
  Batch, Use, Used, used_of, insert as insert_use, told, taking, draw, sorted, consume_each,
  consume_all,
}
use kue_preorder.Inventory.Consume.Taken.{held, held_nonneg, draw_remaining}
use kue_preorder.Inventory.Consume.Apart.{
  rows_of-AreApart, with_sums-AreApart, with_sums-IsCurrent, draw-AreApart,
}
use kue_preorder.Inventory.Consume.Nonneg.{AreApart, IsNonneg, draw-IsNonneg}

-- A lot stands once in the table, and none has given more than it got.
pub record IsSoundStock (s : Stock) : Type 0 where
  pub apart : AreApart s.lots
  pub nonneg : IsNonneg s

-- One ingredient: the stock stays sound, what is missing is between nothing and all that was asked.
draw_sound :
    (b : Batch) (u : Use) (s : Stock)
    → IsSoundStock s
    → IsSoundStock
        ((draw (taking b u.ingredient_id) (lots_of u.ingredient_id (available ∷ []) s) u.qty s).1)
unfolding lots_of
draw_sound b u s h =
    let rows = rows_of u.ingredient_id (available ∷ []) s.lots in
    record {
      apart = draw-AreApart _ (lots_of u.ingredient_id (available ∷ []) s) u.qty s h.apart;
      nonneg =
          draw-IsNonneg (taking b u.ingredient_id) (λ l t. refl) (λ l t. refl)
            (map (with_sums s) rows) u.qty s
            (with_sums-AreApart s rows
              (rows_of-AreApart u.ingredient_id (available ∷ []) s.lots h.apart))
            (with_sums-IsCurrent s rows) h.nonneg;
    }

-- The uses that the loop does not pass over.
pub positive : List Use → List Use
positive [] = []
positive (u ∷ us) = let rest = positive us in if leb_ℤ u.qty (pos 0) then rest else u ∷ rest

abbrev pub Accounts : Use → Used → Type 0
Accounts u r =
    (r.ingredient_id ≡ u.ingredient_id)
    × (pos 0 ≤ℤ r.consumed)
    × (pos 0 ≤ℤ r.missing)
    × (r.consumed +ℤ r.missing ≡ u.qty)

-- A result for each use, in the same order.
abbrev pub AccountsAll : List Use → List Used → Type 0
AccountsAll [] [] = Unit
AccountsAll (u ∷ us) (r ∷ rs) = Accounts u r × AccountsAll us rs
AccountsAll _ _ = ⊥

used_split :
    (q h : ℤ)
    → leb_ℤ q (pos 0) ≡ false
    → InInt64 q
    → pos 0 ≤ℤ h
    → (pos 0 ≤ℤ q -64 (q -ℤ min_ℤ q h))
      × (pos 0 ≤ℤ q -ℤ min_ℤ q h)
      × (q -64 (q -ℤ min_ℤ q h) +ℤ (q -ℤ min_ℤ q h) ≡ q)
unfolding ◌-64◌ wrap64 ◌-ℤ◌ ◌+ℤ◌
used_split (pos q) (pos h) f i k = ground arith
used_split (negsuc q) h f i k = absurd (ground arith)
used_split (pos q) (negsuc h) f i k = absurd (omega arith)

pub used_lem :
    (u : Use) (h : ℤ)
    → leb_ℤ u.qty (pos 0) ≡ false
    → InInt64 u.qty
    → pos 0 ≤ℤ h
    → Accounts u (used_of u (u.qty -ℤ min_ℤ u.qty h))
used_lem u h f i k = let (low, left, all) = used_split u.qty h f i k in (refl, low, left, all)

consume_each_sound :
    (b : Batch) (us : List Use) (s : Stock)
    → IsSoundStock s
    → All (λ u. InInt64 u.qty) us
    → IsSoundStock (consume_each b us s).2 × AccountsAll (positive us) (consume_each b us s).0
unfolding consume_each positive
consume_each_sound b [] s h i = (h, tt)
consume_each_sound b (u ∷ us) s h i = elim (Bool-cases (leb_ℤ u.qty (pos 0))) [
  | inl t ↦ rw t (consume_each_sound b us s h i.1)
  | inr f ↦
      (let lots = lots_of u.ingredient_id (available ∷ []) s in
        let rest = consume_each_sound b us _ (draw_sound b u s h) i.1 in
        let left = draw_remaining (taking b u.ingredient_id) lots u.qty s (ground arith) i.0 in
        rw f (rest.0, (rw left (used_lem u (held lots) f i.0 (held_nonneg lots)), rest.1)))
]

insert_use-All {ℓ} :
    (P : Use → Type ℓ) (u : Use) (us : List Use) → P u → All P us → All P (insert_use u us)
unfolding insert_use
insert_use-All P u [] p h = (p, tt)
insert_use-All P u (v ∷ us) p h = elim (Bool-cases (ltb v.ingredient_id u.ingredient_id)) [
  | inl t ↦ rw t (h.0, insert_use-All P u us p h.1)
  | inr f ↦ rw f (p, h)
]

pub sorted-All {ℓ} : (P : Use → Type ℓ) (us : List Use) → All P us → All P (sorted us)
unfolding sorted
sorted-All P [] h = tt
sorted-All P (u ∷ us) h = insert_use-All P u (sorted us) h.0 (sorted-All P us h.1)

publish_sound : (c : Bool) (b : Batch) (s : Stock) → IsSoundStock s → IsSoundStock (told c b s)
publish_sound true b s h = record { apart = h.apart; nonneg = h.nonneg }
publish_sound false b s h = h

-- From a stock in which no lot has given more than it got, `Consume` leaves such a stock. It answers
-- for every positive use, in the order of the ingredients: what it took and what it missed are both
-- at least nothing, and together what was asked. The quantities are any int64.
pub consume_all_sound :
    (b : Batch) (uses : List Use) (s : Stock)
    → IsSoundStock s
    → All (λ u. InInt64 u.qty) uses
    → IsSoundStock ((consume_all b uses s).1)
      × AccountsAll (positive (sorted uses)) (consume_all b uses s).0
unfolding consume_all
consume_all_sound b uses s h i =
    let each = consume_each_sound b (sorted uses) s h (sorted-All _ uses i) in
    let (out, changed, s') = consume_each b (sorted uses) s in
    (publish_sound changed b s' each.0, each.1)
