-- ===== src/Inventory/Countable.antt =====
-- internal/inventory/domain.go: `Countable` and `Usable`. A date is the number of a day in Jakarta,
-- seven hours ahead of UTC (internal/platform/clock/date.go); instants are nanoseconds.
use kue_preorder.Prelude.{
  ℕ, ◌==◌, ℤ, pos, ◌+ℤ◌, ◌-ℤ◌, ltb_ℤ, leb_ℤ, Bool, true, false, not, ◌&&◌, ◌||◌, List, [], ◌∷◌,
  Option, none, some, if◌then◌else◌,
}
use kue_preorder.Prelude.Word.{◌+64◌}
use kue_preorder.Scheduling.Time.{date_at}
use kue_preorder.Inventory.Stock.{Lot, available, eqb_status}

pub data LeftoverPolicy : Type 0 where
  auto confirm never : LeftoverPolicy

-- `CheckValidFor`: 24 hours.
abbrev pub check_valid_for : ℤ
check_valid_for = pos 86400000000000

abbrev expires_before : Option ℤ → ℤ → Bool
expires_before none t = false
expires_before (some e) t = ltb_ℤ e t

abbrev checked_lately : Option ℤ → ℤ → Bool
checked_lately none now = false
checked_lately (some t) now = leb_ℤ t now && leb_ℤ (now -ℤ t) check_valid_for

-- `Countable`.
unfoldable pub countable : Lot → LeftoverPolicy → ℤ → ℤ → Bool
unfolding date_at
countable l policy date now =
    if not (eqb_status l.status available) || leb_ℤ l.balance (pos 0)
    then false
    else if expires_before l.expires_at (date_at (date +ℤ pos 1) (pos 0))
    then false
    else elim policy [ auto ↦ true | confirm ↦ checked_lately l.last_ok_at now | never ↦ false ]

-- `Usable`: the loop's sum for one ingredient, with the policies as a map.
unfoldable pub usable_from : (ℕ → Option LeftoverPolicy) → ℤ → ℤ → ℕ → ℤ → List Lot → ℤ
unfolding countable
usable_from policies date now ingredient sum [] = sum
usable_from policies date now ingredient sum (l ∷ ls) =
    usable_from policies date now ingredient
      (elim (policies l.ingredient_id) [
        | none ↦ sum
        | some policy ↦
            if l.ingredient_id == ingredient && countable l policy date now
            then sum +64 l.balance
            else sum
      ])
      ls

unfoldable pub usable : List Lot → (ℕ → Option LeftoverPolicy) → ℤ → ℤ → ℕ → ℤ
unfolding usable_from
usable lots policies date now ingredient = usable_from policies date now ingredient (pos 0) lots
