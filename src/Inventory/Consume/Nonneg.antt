-- ===== src/Inventory/Consume/Nonneg.antt =====
-- Consumption and the balances of the lots.
use mathlib.Core.Path.{subst}
use kue_preorder.Prelude.{
  ℕ, ◌==◌, ℤ, pos, ◌+ℤ◌, ◌-ℤ◌, ◌≤ℤ◌, leb_ℤ, eqb_ℤ, min_ℤ, int_laws, +ℤ_parts, -ℤ_parts, ◌≡◌, ◌≢◌,
  ◌∙◌, refl, sym, Bool, true, false, List, [], ◌∷◌, ◌++◌, All, arith, inl, inr, Bool-cases,
  if◌then◌else◌,
}
use kue_preorder.Prelude.Word.{◌-64◌}
use kue_preorder.Inventory.Stock.{Lot, Movement, Stock, balance_of}
use kue_preorder.Inventory.Consume.{draw, take_from}

-- No lot stands twice.
abbrev pub AreApart : List Lot → Type 0
AreApart [] = Unit
AreApart (l ∷ ls) = All (λ q. q.id ≢ l.id) ls × AreApart ls

-- The lots say what the movements of `s` add up to.
abbrev pub IsCurrent : Stock → Lot → Type 0
IsCurrent s l = l.balance ≡ balance_of l.id s.movements

-- No lot has given more than it got.
abbrev pub IsNonneg : Stock → Type 0
IsNonneg s = (k : ℕ) → pos 0 ≤ℤ balance_of k s.movements

add_if :
    (b c : Bool) (x y r : ℤ)
    → (let inner = if c then r +ℤ y else r in if b then x +ℤ inner else inner)
      ≡ (let first = if b then x +ℤ r else r in if c then first +ℤ y else first)
add_if true true x y r = omega int_laws
add_if true false x y r = refl
add_if false true x y r = refl
add_if false false x y r = refl

flip_zero :
    (c : Bool) (y : ℤ) → (if c then y +ℤ pos 0 else pos 0) ≡ (if c then pos 0 +ℤ y else pos 0)
flip_zero true y = omega int_laws
flip_zero false y = refl

pub balance_of-append :
    (k : ℕ) (ms : List Movement) (m : Movement)
    → balance_of k (ms ++ m ∷ [])
      ≡ (if m.lot_id == k then balance_of k ms +ℤ m.qty else balance_of k ms)
unfolding balance_of
balance_of-append k [] m = flip_zero (m.lot_id == k) m.qty
balance_of-append k (n ∷ ms) m =
    rw (balance_of-append k ms m)
      (add_if (n.lot_id == k) (m.lot_id == k) n.qty m.qty (balance_of k ms))

pub take_from-movements :
    (move : Lot → ℤ → Movement) (l : Lot) (t : ℤ) (s : Stock)
    → (take_from move l t s).movements ≡ s.movements ++ move l t ∷ []
unfolding take_from
take_from-movements move l t s = ground arith

left_nonneg : (b r : ℤ) → pos 0 ≤ℤ b → pos 0 ≤ℤ b +ℤ (pos 0 -ℤ min_ℤ b r)
left_nonneg b r h = ground (arith, +ℤ_parts b (pos 0 -ℤ min_ℤ b r), -ℤ_parts (pos 0) (min_ℤ b r))

module _ (move : Lot → ℤ → Movement) (own : (l : Lot) (t : ℤ) → (move l t).lot_id ≡ l.id)
    (out : (l : Lot) (t : ℤ) → (move l t).qty ≡ pos 0 -ℤ t) where
  take_from-other :
      (l : Lot) (t : ℤ) (s : Stock) (k : ℕ)
      → k ≢ l.id
      → balance_of k (take_from move l t s).movements ≡ balance_of k s.movements
  take_from-other l t s k n =
      rw (take_from-movements move l t s)
        (balance_of-append k s.movements (move l t) ∙ ground (arith, own l t))

  take_from-own :
      (l : Lot) (t : ℤ) (s : Stock)
      → balance_of l.id (take_from move l t s).movements
        ≡ balance_of l.id s.movements +ℤ (pos 0 -ℤ t)
  take_from-own l t s =
      rw (take_from-movements move l t s)
        (balance_of-append l.id s.movements (move l t) ∙ ground (arith, own l t, out l t))

  take_from-IsNonneg :
      (l : Lot) (r : ℤ) (s : Stock)
      → IsCurrent s l
      → IsNonneg s
      → IsNonneg (take_from move l (min_ℤ l.balance r) s)
  take_from-IsNonneg l r s c h k = elim (Bool-cases (k == l.id)) [
    | inl t ↦
        (let same : k ≡ l.id = ground (arith, t) in
          rw (same, take_from-own l (min_ℤ l.balance r) s, sym c)
            (left_nonneg l.balance r (subst (λ x. pos 0 ≤ℤ x) (sym c) (h l.id))))
    | inr f ↦ rw (take_from-other l (min_ℤ l.balance r) s k (ground arith)) (h k)
  ]

  still-IsCurrent :
      (l : Lot) (t : ℤ) (s : Stock) (ls : List Lot)
      → All (λ q. q.id ≢ l.id) ls
      → All (IsCurrent s) ls
      → All (IsCurrent (take_from move l t s)) ls
  still-IsCurrent l t s [] a c = tt
  still-IsCurrent l t s (q ∷ ls) a c =
      (rw (take_from-other l t s q.id a.0) c.0, still-IsCurrent l t s ls a.1 c.1)

  pub draw-IsNonneg :
      (ls : List Lot) (r : ℤ) (s : Stock)
      → AreApart ls
      → All (IsCurrent s) ls
      → IsNonneg s
      → IsNonneg ((draw move ls r s).1)
  unfolding draw
  draw-IsNonneg [] r s a c h = h
  draw-IsNonneg (l ∷ ls) r s a c h =
      let t = min_ℤ l.balance r in
      let now = take_from-IsNonneg l r s c.0 h in
      elim (Bool-cases (leb_ℤ t (pos 0))) [
        | inl y ↦ rw y (draw-IsNonneg ls r s a.1 c.1 h)
        | inr n ↦ elim (Bool-cases (eqb_ℤ (r -64 t) (pos 0))) [
          | inl z ↦ rw (n, z) now
          | inr m ↦
              rw (n, m)
                (draw-IsNonneg ls (r -64 t) (take_from move l t s) a.1
                  (still-IsCurrent l t s ls a.0 c.1) now)
        ]
      ]
