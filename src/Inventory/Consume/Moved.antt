-- ===== src/Inventory/Consume/Moved.antt =====
-- What a consumption takes out of the ledger of movements.
use kue_preorder.Prelude.{
  ℕ, ◌==◌, ℤ, pos, ◌+ℤ◌, ◌-ℤ◌, ◌≤ℤ◌, leb_ℤ, eqb_ℤ, min_ℤ, ◌≡◌, refl, ap, ◌∙◌, Bool, true, false,
  List, [], ◌∷◌, ◌++◌, All, arith, inl, inr, Bool-cases, int_laws, pos_part, neg_part,
  if◌then◌else◌,
}
use kue_preorder.Prelude.Word.{◌-64◌, InInt64}
use kue_preorder.Inventory.Stock.{Lot, Movement, Stock, available, lots_of}
use kue_preorder.Inventory.Consume.{
  Batch, Use, Used, used_of, told, taking, take_from, draw, sorted, consume_each, consume_all,
}
use kue_preorder.Inventory.Consume.Taken.{held, held_nonneg, take_exact, draw_remaining}
use kue_preorder.Inventory.Consume.Whole.{Accounts, used_lem, sorted-All}

-- What the movements of an ingredient add up to.
unfoldable pub moved : ℕ → List Movement → ℤ
moved i [] = pos 0
moved i (m ∷ ms) = let rest = moved i ms in if m.ingredient_id == i then m.qty +ℤ rest else rest

-- What is added to one ingredient.
abbrev pub plus_if : Bool → ℤ → ℤ → ℤ
plus_if t x y = if t then x +ℤ y else x

last_sum : (a b c : ℤ) → a +ℤ (b +ℤ c) ≡ a +ℤ b +ℤ c
last_sum a b c = omega int_laws

zero_left : (a : ℤ) → a +ℤ pos 0 ≡ pos 0 +ℤ a
zero_left a = omega int_laws

pub moved-append :
    (i : ℕ) (ms : List Movement) (m : Movement)
    → moved i (ms ++ m ∷ []) ≡ plus_if (m.ingredient_id == i) (moved i ms) m.qty
unfolding moved
moved-append i [] m = ground (arith, zero_left m.qty)
moved-append i (n ∷ ms) m = ground (arith, moved-append i ms m, last_sum n.qty (moved i ms) m.qty)

-- The movements of `move` all belong to ingredient `i`, and take what they are told to.
pub record Takes (i : ℕ) (move : Lot → ℤ → Movement) : Type 0 where
  pub own : (l : Lot) (t : ℤ) → (move l t).ingredient_id ≡ i
  pub out : (l : Lot) (t : ℤ) → (move l t).qty ≡ pos 0 -ℤ t

take_from-moved :
    (i j : ℕ) (move : Lot → ℤ → Movement) (l : Lot) (t : ℤ) (s : Stock)
    → Takes i move
    → moved j (take_from move l t s).movements ≡ plus_if (i == j) (moved j s.movements) (pos 0 -ℤ t)
unfolding take_from
take_from-moved i j move l t s h =
    let added =
      moved-append j s.movements (move l t)
      ∙ ap (λ x. plus_if (x == j) (moved j s.movements) (move l t).qty) (h.own l t)
      ∙ ap (plus_if (i == j) (moved j s.movements)) (h.out l t) in
    elim (Bool-cases (eqb_ℤ t l.balance)) [ inl y ↦ rw y added | inr n ↦ rw n added ]

same_sum : (t : Bool) (x r : ℤ) → x ≡ plus_if t x (r -ℤ r)
same_sum true x r = omega int_laws
same_sum false x r = refl

one_sum : (t : Bool) (x r take : ℤ) → plus_if t x (pos 0 -ℤ take) ≡ plus_if t x (r -ℤ take -ℤ r)
one_sum true x r take = omega int_laws
one_sum false x r take = refl

two_sums :
    (t : Bool) (x r take left : ℤ)
    → plus_if t (plus_if t x (pos 0 -ℤ take)) (left -ℤ (r -ℤ take)) ≡ plus_if t x (left -ℤ r)
two_sums true x r take left = omega int_laws
two_sums false x r take left = refl

-- The loop moves what it answers to have taken.
pub draw-moved :
    (i j : ℕ) (move : Lot → ℤ → Movement) (ls : List Lot) (r : ℤ) (s : Stock)
    → Takes i move
    → pos 0 ≤ℤ r
    → InInt64 r
    → moved j (draw move ls r s).1.movements
      ≡ plus_if (i == j) (moved j s.movements) ((draw move ls r s).0 -ℤ r)
unfolding draw
draw-moved i j move [] r s h low range = same_sum (i == j) (moved j s.movements) r
draw-moved i j move (l ∷ ls) r s h low range =
    elim (Bool-cases (leb_ℤ (min_ℤ l.balance r) (pos 0))) [
      | inl t ↦ rw t (draw-moved i j move ls r s h low range)
      | inr f ↦
          (let take = min_ℤ l.balance r in
            let (e, rest_low, rest_range) = take_exact r l.balance low range f in
            let here = take_from-moved i j move l take s h in
            elim (Bool-cases (eqb_ℤ (r -ℤ take) (pos 0))) [
              | inl z ↦ rw (f, e, z) (here ∙ one_sum (i == j) (moved j s.movements) r take)
              | inr n ↦
                  rw (f, e, n)
                    (draw-moved i j move ls (r -ℤ take) (take_from move l take s) h rest_low
                        rest_range
                      ∙ ap
                          (λ x.
                            plus_if (i == j) x (
                              (draw move ls (r -ℤ take) (take_from move l take s)).0
                              -ℤ (r -ℤ take)))
                          here
                      ∙ two_sums (i == j) (moved j s.movements) r take
                          (draw move ls (r -ℤ take) (take_from move l take s)).0)
            ])
    ]

-- What the results say was taken of an ingredient.
unfoldable pub consumed_of : ℕ → List Used → ℤ
consumed_of j [] = pos 0
consumed_of j (r ∷ rs) =
    let rest = consumed_of j rs in if r.ingredient_id == j then r.consumed +ℤ rest else rest

no_use : (x : ℤ) → x ≡ x -ℤ pos 0
no_use x = omega int_laws

use_sum :
    (t : Bool) (x left qty taken rest : ℤ)
    → taken +ℤ left ≡ qty
    → plus_if t x (left -ℤ qty) -ℤ rest ≡ x -ℤ (if t then taken +ℤ rest else rest)
use_sum true x left qty taken rest e = omega (int_laws, ap pos_part e, ap neg_part e)
use_sum false x left qty taken rest e = refl

consume_each-moved :
    (b : Batch) (us : List Use) (s : Stock) (j : ℕ)
    → All (λ u. InInt64 u.qty) us
    → moved j (consume_each b us s).2.movements
      ≡ moved j s.movements -ℤ consumed_of j (consume_each b us s).0
unfolding consume_each consumed_of
consume_each-moved b [] s j i = no_use (moved j s.movements)
consume_each-moved b (u ∷ us) s j i = elim (Bool-cases (leb_ℤ u.qty (pos 0))) [
  | inl t ↦ rw t (consume_each-moved b us s j i.1)
  | inr f ↦
      (let lots = lots_of u.ingredient_id (available ∷ []) s in
        let one = draw (taking b u.ingredient_id) lots u.qty s in
        let low : pos 0 ≤ℤ u.qty = ground arith in
        let left = draw_remaining (taking b u.ingredient_id) lots u.qty s low i.0 in
        let taken : Accounts u (used_of u one.0) =
          rw left (used_lem u (held lots) f i.0 (held_nonneg lots)) in
        let rest = consume_each b us one.1 in
        rw f (
          consume_each-moved b us one.1 j i.1
          ∙ ap (λ x. x -ℤ consumed_of j rest.0)
              (draw-moved u.ingredient_id j (taking b u.ingredient_id) lots u.qty s
                (record { own = λ l t. refl; out = λ l t. refl }) low i.0)
          ∙ use_sum (u.ingredient_id == j) (moved j s.movements) one.0 u.qty (u.qty -64 one.0)
              (consumed_of j rest.0) taken.3))
]

told-moved :
    (c : Bool) (b : Batch) (s : Stock) (j : ℕ)
    → moved j (told c b s).movements ≡ moved j s.movements
told-moved true b s j = refl
told-moved false b s j = refl

-- The ledger loses of each ingredient exactly what the answer says was taken.
pub consume_all-moved :
    (b : Batch) (uses : List Use) (s : Stock) (j : ℕ)
    → All (λ u. InInt64 u.qty) uses
    → moved j (consume_all b uses s).1.movements
      ≡ moved j s.movements -ℤ consumed_of j (consume_all b uses s).0
unfolding consume_all
consume_all-moved b uses s j i =
    let (out, changed, s') = consume_each b (sorted uses) s in
    told-moved changed b s' j ∙ consume_each-moved b (sorted uses) s j (sorted-All _ uses i)
