-- ===== src/Payments/Dp/Amount.antt =====
-- What DPRequired promises: the smallest down payment that covers the policy's share and cost.
use Prim.Native.Nat.{min, max}
use kue_preorder.Prelude.{
  ℕ, ℤ, pos, negsuc, ◌≤ℤ◌, ◌+◌, ◌-◌, ◌*◌, ◌/◌, ◌≤◌, ◌<◌, ◌≡◌, refl, Bool, true, false, arith,
}
use kue_preorder.Prelude.Word.{two_63, quo, pos_add64, pos_sub64, pos_mul64}
use kue_preorder.Prelude.Result.{ok}
use kue_preorder.Payments.Dp.{Policy, max_order_total, ceil_div, dp_required}

-- On a non-negative number that leaves room, `ceilDiv` is the rounded-up quotient.
pub ceil_div_pos : (a b : ℕ) → 1 ≤ b → a + b < two_63 → ceil_div (pos a) b ≡ pos ((a + b - 1) / b)
unfolding ceil_div quo
ceil_div_pos a b h k = rw (pos_add64 a b k, pos_sub64 (a + b) 1 (omega arith) k)

-- The down payment in plain numbers.
dp_amount : Bool → ℕ → ℕ → ℕ → ℕ
dp_amount true pc t c = min (max ((t * pc + 99) / 100) c) t
dp_amount false pc t c = min ((t * pc + 99) / 100) t

percent_bound : (t pc : ℕ) → pc ≤ 100 → t * pc ≤ t * 100
percent_bound t pc h = grind arith

percent_pos : (t pc : ℕ) → 1 ≤ pc → 1 ≤ t → 1 ≤ t * pc
percent_pos t pc h k = grind arith

dp_amount_least :
    (b : Bool) (pc t c : ℕ)
    → 1 ≤ pc
    → pc ≤ 100
    → 1 ≤ t
    → (1 ≤ dp_amount b pc t c)
      × (dp_amount b pc t c ≤ t)
      × (t * pc ≤ 100 * dp_amount b pc t c)
      × (b ≡ true → min c t ≤ dp_amount b pc t c)
      × ((d : ℕ) → t * pc ≤ 100 * d → (b ≡ true → min c t ≤ d) → dp_amount b pc t c ≤ d)
unfolding dp_amount
dp_amount_least true pc t c h k l =
    let bound = percent_bound t pc k in
    let low = percent_pos t pc h l in
    (
      omega arith,
      omega arith,
      omega arith,
      λ _. omega arith,
      λ d e f. let g = f refl in omega arith,
    )
dp_amount_least false pc t c h k l =
    let bound = percent_bound t pc k in
    let low = percent_pos t pc h l in
    (omega arith, omega arith, omega arith, λ e. cc, λ d e f. omega arith)

dp_required_pos :
    (p : Policy) (pc t c : ℕ)
    → p.dp_min_percent ≡ pos pc
    → 1 ≤ pc
    → pc ≤ 100
    → 1 ≤ t
    → t ≤ max_order_total
    → c ≤ max_order_total
    → dp_required p (pos t) (pos c) ≡ ok (pos (dp_amount p.dp_covers_ingredient_cost pc t c))
unfolding dp_required dp_amount
dp_required_pos p pc t c e h k l m n =
    let bound = percent_bound t pc k in ground (arith, pos_mul64 t pc, ceil_div_pos (t * pc) 100, e)

-- Under a policy whose share is 1 to 100 percent, for a total of 1 to 2^40 rupiah and a cost of 0 to
-- 2^40, `DPRequired` returns a down payment: at least 1 and at most the total, at least the policy's
-- share of the total and, where the policy covers the ingredients, their cost or the total if that is
-- less. Every other amount that is at least those is no smaller.
pub dp_required_least :
    (p : Policy) (pc t c : ℕ)
    → p.dp_min_percent ≡ pos pc
    → 1 ≤ pc
    → pc ≤ 100
    → 1 ≤ t
    → t ≤ max_order_total
    → c ≤ max_order_total
    → (dp : ℕ) × (dp_required p (pos t) (pos c) ≡ ok (pos dp))
      × (1 ≤ dp)
      × (dp ≤ t)
      × (t * pc ≤ 100 * dp)
      × (p.dp_covers_ingredient_cost ≡ true → min c t ≤ dp)
      × ((d : ℕ) → t * pc ≤ 100 * d → (p.dp_covers_ingredient_cost ≡ true → min c t ≤ d) → dp ≤ d)
dp_required_least p pc t c e h k l m n =
    let b = p.dp_covers_ingredient_cost in
    let (low, high, share, cost, least) = dp_amount_least b pc t c h k l in
    (dp_amount b pc t c, dp_required_pos p pc t c e h k l m n, low, high, share, cost, least)

-- The guards that an accepted call has passed.
dp_required_guards :
    (p : Policy) (t c d : ℤ)
    → dp_required p t c ≡ ok d
    → (pos 1 ≤ℤ p.dp_min_percent)
      × (p.dp_min_percent ≤ℤ pos 100)
      × (pos 1 ≤ℤ t)
      × (t ≤ℤ pos max_order_total)
      × (pos 0 ≤ℤ c)
      × (c ≤ℤ pos max_order_total)
unfolding dp_required
dp_required_guards p t c d h =
    (ground arith, ground arith, ground arith, ground arith, ground arith, ground arith)

pos_of : (z : ℤ) → pos 0 ≤ℤ z → (n : ℕ) × (z ≡ pos n)
pos_of (pos n) h = (n, refl)
pos_of (negsuc n) h = absurd (omega arith)

dp_required_bounds_pos :
    (p : Policy) (pc tn cn : ℕ) (t c d : ℤ)
    → p.dp_min_percent ≡ pos pc
    → t ≡ pos tn
    → c ≡ pos cn
    → dp_required p t c ≡ ok d
    → (pos 1 ≤ℤ d) × (d ≤ℤ t)
dp_required_bounds_pos p pc tn cn t c d ep et ec h =
    let (a1, a2, a3, a4, a5, a6) = dp_required_guards p t c d h in
    let (dn, ed, low, high, share, cost, least) =
      dp_required_least p pc tn cn ep (ground (arith, ep)) (ground (arith, ep)) (ground (arith, et))
        (ground (arith, et)) (ground (arith, ec)) in
    ground (arith, ed, low, high, et, ec)

-- A down payment lies between 1 rupiah and the total.
pub dp_required_bounds :
    (p : Policy) (t c d : ℤ)
    → dp_required p t c ≡ ok d
    → (pos 1 ≤ℤ d) × (d ≤ℤ t) × (t ≤ℤ pos max_order_total)
dp_required_bounds p t c d h =
    let (a1, a2, a3, a4, a5, a6) = dp_required_guards p t c d h in
    let (pc, ep) = pos_of p.dp_min_percent (omega arith) in
    let (tn, et) = pos_of t (omega arith) in
    let (cn, ec) = pos_of c (omega arith) in
    let (low, high) = dp_required_bounds_pos p pc tn cn t c d ep et ec h in (low, high, a4)
