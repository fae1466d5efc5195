-- ===== src/Inventory/Kitchen/Discarded.antt =====
-- Throwing a lot away.
use kue_preorder.Prelude.{
  ℕ, ◌+◌, ◌≤◌, ℤ, pos, pos_part, neg_part, ◌+ℤ◌, ◌-ℤ◌, ◌≡◌, ◌≢◌, ◌∙◌, arith, int_laws, false,
}
use kue_preorder.Prelude.Word.{◌-64◌, -64_exact, InInt64}
use kue_preorder.Prelude.Result.{ok}
use kue_preorder.Platform.Caller.{Principal}
use kue_preorder.Inventory.Stock.{Lot, Stock, balance_of}
use kue_preorder.Inventory.Consume.Nonneg.{balance_of-append}
use kue_preorder.Inventory.Kitchen.{CheckInput, discard, check_locked}

module _ (p : Principal) (l : Lot) (i : CheckInput) (now : ℤ) (s : Stock) where
  discard-other :
      (k : ℕ) → k ≢ l.id → balance_of k (discard p l i now s).movements ≡ balance_of k s.movements
  unfolding discard
  discard-other k n = balance_of-append k s.movements _ ∙ ground arith

  discard-own :
      balance_of l.id (discard p l i now s).movements
      ≡ balance_of l.id s.movements +ℤ (pos 0 -64 l.balance)
  unfolding discard
  discard-own = balance_of-append l.id s.movements _ ∙ ground arith

discarded_moves :
    (p : Principal) (l : Lot) (i : CheckInput) (now : ℤ) (s s' : Stock)
    → i.passed ≡ false
    → check_locked p i now l s ≡ ok s'
    → s'.movements ≡ (discard p l i now s).movements
unfolding check_locked discard
discarded_moves p l i now s s' f run = ground arith

negated_range : (x : ℤ) → pos_part x + neg_part x ≤ 100000000 → InInt64 (pos 0 -ℤ x)
unfolding ◌-ℤ◌
negated_range x h = ground arith

-- A check that fails a lot, on the lot as the ledger has it under the lock, leaves nothing of the lot, and
-- the balance of every other lot as it was. The balance is at most 100 tonnes of grams.
pub check_discards :
    (p : Principal) (l : Lot) (i : CheckInput) (now : ℤ) (s s' : Stock)
    → l.balance ≡ balance_of l.id s.movements
    → (pos_part l.balance + neg_part l.balance) ≤ 100000000
    → i.passed ≡ false
    → check_locked p i now l s ≡ ok s'
    → (balance_of l.id s'.movements ≡ pos 0)
      × ((k : ℕ) → k ≢ l.id → balance_of k s'.movements ≡ balance_of k s.movements)
check_discards p l i now s s' e b f run =
    let moved = discarded_moves p l i now s s' f run in
    let exact : pos 0 -64 l.balance ≡ pos 0 -ℤ l.balance =
      -64_exact (pos 0) l.balance (negated_range l.balance b) in
    (
      rw (moved, discard-own p l i now s, exact, e) (omega int_laws),
      λ k n. rw moved (discard-other p l i now s k n),
    )
