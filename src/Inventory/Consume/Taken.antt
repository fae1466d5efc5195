-- ===== src/Inventory/Consume/Taken.antt =====
-- How much the loop over the lots takes.
use kue_preorder.Prelude.{
  ℤ, pos, negsuc, ◌+ℤ◌, ◌-ℤ◌, ◌≤ℤ◌, leb_ℤ, eqb_ℤ, min_ℤ, max_ℤ, +ℤ_parts, ◌≡◌, ◌∙◌, true, false,
  List, [], ◌∷◌, arith, inl, inr, Bool-cases,
}
use kue_preorder.Prelude.Word.{wrap64, ◌-64◌, InInt64}
use kue_preorder.Inventory.Stock.{Lot, Movement, Stock}
use kue_preorder.Inventory.Consume.{draw, take_from}

-- What lots hold, the empty ones aside.
unfoldable pub held : List Lot → ℤ
held [] = pos 0
held (l ∷ ls) = max_ℤ l.balance (pos 0) +ℤ held ls

pub held_nonneg : (ls : List Lot) → pos 0 ≤ℤ held ls
unfolding held
held_nonneg [] = omega arith
held_nonneg (l ∷ ls) = ground (arith, held_nonneg ls, +ℤ_parts (max_ℤ l.balance (pos 0)) (held ls))

pub take_exact :
    (r b : ℤ)
    → pos 0 ≤ℤ r
    → InInt64 r
    → leb_ℤ (min_ℤ b r) (pos 0) ≡ false
    → (r -64 min_ℤ b r ≡ r -ℤ min_ℤ b r) × (pos 0 ≤ℤ r -ℤ min_ℤ b r) × InInt64 (r -ℤ min_ℤ b r)
unfolding ◌-64◌ wrap64 ◌-ℤ◌
take_exact (pos r) (pos b) h i f = ground arith
take_exact (pos r) (negsuc b) h i f = absurd (ground arith)
take_exact (negsuc r) b h i f = absurd (omega arith)

skip_sum :
    (r b h : ℤ)
    → pos 0 ≤ℤ r
    → pos 0 ≤ℤ h
    → leb_ℤ (min_ℤ b r) (pos 0) ≡ true
    → r -ℤ min_ℤ r h ≡ r -ℤ min_ℤ r (max_ℤ b (pos 0) +ℤ h)
unfolding ◌-ℤ◌ ◌+ℤ◌
skip_sum (pos r) (pos b) (pos h) k l t = ground arith
skip_sum (pos r) (negsuc b) (pos h) k l t = ground arith
skip_sum (negsuc r) b h k l t = absurd (omega arith)
skip_sum (pos r) b (negsuc h) k l t = absurd (omega arith)

step_sum :
    (r b h : ℤ)
    → pos 0 ≤ℤ r
    → pos 0 ≤ℤ h
    → leb_ℤ (min_ℤ b r) (pos 0) ≡ false
    → (r -ℤ min_ℤ b r) -ℤ min_ℤ (r -ℤ min_ℤ b r) h ≡ r -ℤ min_ℤ r (max_ℤ b (pos 0) +ℤ h)
unfolding ◌-ℤ◌ ◌+ℤ◌
step_sum (pos r) (pos b) (pos h) k l t = ground arith
step_sum (pos r) (negsuc b) (pos h) k l t = absurd (ground arith)
step_sum (negsuc r) b h k l t = absurd (omega arith)
step_sum (pos r) b (negsuc h) k l t = absurd (omega arith)

last_sum :
    (r b h : ℤ)
    → pos 0 ≤ℤ r
    → pos 0 ≤ℤ h
    → leb_ℤ (min_ℤ b r) (pos 0) ≡ false
    → eqb_ℤ (r -ℤ min_ℤ b r) (pos 0) ≡ true
    → r -ℤ min_ℤ b r ≡ r -ℤ min_ℤ r (max_ℤ b (pos 0) +ℤ h)
unfolding ◌-ℤ◌ ◌+ℤ◌
last_sum (pos r) (pos b) (pos h) k l t z = ground arith
last_sum (pos r) (negsuc b) (pos h) k l t z = absurd (ground arith)
last_sum (negsuc r) b h k l t z = absurd (omega arith)
last_sum (pos r) b (negsuc h) k l t z = absurd (omega arith)

nothing_held : (r : ℤ) → pos 0 ≤ℤ r → r ≡ r -ℤ min_ℤ r (pos 0)
unfolding ◌-ℤ◌
nothing_held (pos r) h = ground arith
nothing_held (negsuc r) h = absurd (omega arith)

-- The loop leaves of `remaining` what the lots do not hold: it takes the smaller of the two, exactly,
-- whatever the lots.
pub draw_remaining :
    (move : Lot → ℤ → Movement) (ls : List Lot) (remaining : ℤ) (s : Stock)
    → pos 0 ≤ℤ remaining
    → InInt64 remaining
    → (draw move ls remaining s).0 ≡ remaining -ℤ min_ℤ remaining (held ls)
unfolding draw held
draw_remaining move [] r s h i = nothing_held r h
draw_remaining move (l ∷ ls) r s h i = elim (Bool-cases (leb_ℤ (min_ℤ l.balance r) (pos 0))) [
  | inl t ↦
      rw t (draw_remaining move ls r s h i ∙ skip_sum r l.balance (held ls) h (held_nonneg ls) t)
  | inr f ↦
      (let (e, low, range) = take_exact r l.balance h i f in
        elim (Bool-cases (eqb_ℤ (r -ℤ min_ℤ l.balance r) (pos 0))) [
          | inl z ↦ rw (f, e, z) (last_sum r l.balance (held ls) h (held_nonneg ls) f z)
          | inr n ↦
              rw (f, e, n)
                (draw_remaining move ls (r -ℤ min_ℤ l.balance r)
                    (take_from move l (min_ℤ l.balance r) s) low range
                  ∙ step_sum r l.balance (held ls) h (held_nonneg ls) f)
        ])
]
