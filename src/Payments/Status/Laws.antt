-- ===== src/Payments/Status/Laws.antt =====
-- How payments.Settle and payments.Close move a status.
use kue_preorder.Prelude.{ℤ, ◌≤ℤ◌, ◌≡◌, ◌⊎◌, true, false, some, none, arith}
use kue_preorder.Platform.Errors.{payments_closed, illegal_close}
use kue_preorder.Payments.Status.{
  Status, unpaid, dp_paid, paid_in_full, forfeited, refunded, Amounts, is_closed, rank, due_status,
  settle, close,
}

-- On open payments `Settle` never fails and never moves the status down, and the status it returns
-- is the higher of the one before and the one that the amounts call for.
pub settle_open :
    (s : Status) (a : Amounts)
    → is_closed s ≡ false
    → ((settle s a).1 ≡ none)
      × (rank s ≤ℤ rank (settle s a).0)
      × (rank (due_status a) ≤ℤ rank (settle s a).0)
      × (((settle s a).0 ≡ s) ⊎ ((settle s a).0 ≡ due_status a))
unfolding settle is_closed
settle_open forfeited a h = cc
settle_open refunded a h = cc
settle_open _ a h = ground arith

-- A refund or a forfeit is final: `Settle` reports the money and changes nothing.
pub settle_closed :
    (s : Status) (a : Amounts) → is_closed s ≡ true → settle s a ≡ (s, some payments_closed)
unfolding settle is_closed
settle_closed s a h = ground arith

-- More money in the ledger never calls for a lower status.
pub due_status_mono :
    (t d p q : ℤ)
    → p ≤ℤ q
    → rank (due_status (record { total_idr = t; dp_required_idr = d; paid_idr = p }))
      ≤ℤ rank (due_status (record { total_idr = t; dp_required_idr = d; paid_idr = q }))
unfolding due_status rank
due_status_mono t d p q h = ground arith

-- Payments that arrive one by one leave the status that the last balance alone would have: a
-- settlement seen late, or never, changes nothing once a later one is seen.
pub settle_catches_up :
    (s : Status) (t d p q : ℤ)
    → p ≤ℤ q
    → (settle
        (settle s (record { total_idr = t; dp_required_idr = d; paid_idr = p })).0
        (record { total_idr = t; dp_required_idr = d; paid_idr = q })).0
      ≡ (settle s (record { total_idr = t; dp_required_idr = d; paid_idr = q })).0
unfolding settle due_status rank is_closed
settle_catches_up unpaid t d p q h = ground arith
settle_catches_up _ t d p q h = ground arith

-- `Close` succeeds exactly for a forfeit of a paid DP and for a refund of anything paid, and ends
-- in a closed status; otherwise the status stays.
pub close_lem :
    (s to : Status)
    → (((close s to).1 ≡ none)
        × ((close s to).0 ≡ to)
        × (is_closed to ≡ true)
        × ((s ≡ dp_paid) ⊎ ((s ≡ paid_in_full) × (to ≡ refunded))))
      ⊎ (((close s to).1 ≡ some illegal_close)
          × ((close s to).0 ≡ s)
          × ((is_closed to ≡ false)
              ⊎ (s ≡ unpaid)
              ⊎ (is_closed s ≡ true)
              ⊎ ((s ≡ paid_in_full) × (to ≡ forfeited))))
unfolding close is_closed
close_lem s to = ground arith
