-- ===== src/Inventory/Requests.antt =====
-- internal/inventory/service.go: the idempotency keys of the calls that the kitchen's app may send again
-- (`retried`, `claim`, `sameRequest`), and `GetLot` (internal/inventory/postgres/repo.go).
use kue_preorder.Prelude.{
  ℕ, ◌==◌, not, ◌&&◌, ◌||◌, List, [], ◌∷◌, ◌++◌, Option, none, some, if◌then◌else◌,
}
use kue_preorder.Prelude.Text.{Text, eqb_text}
use kue_preorder.Prelude.Result.{Result, ok, err}
use kue_preorder.Platform.Errors.{Error, not_found, precondition}
use kue_preorder.Inventory.Stock.{Lot, Stock, RequestKind, eqb_request, Request, with_sums}

unfoldable pub lot_in : ℕ → List Lot → Option Lot
lot_in id [] = none
lot_in id (l ∷ ls) = let rest = lot_in id ls in if l.id == id then some l else rest

abbrev found_lot : Stock → Option Lot → Result Error Lot
found_lot s none = err not_found
found_lot s (some l) = ok (with_sums s l)

-- `GetLot`.
unfoldable pub get_lot : ℕ → Stock → Result Error Lot
unfolding lot_in
get_lot id s = found_lot s (lot_in id s.lots)

unfoldable pub request_in : RequestKind → ℕ → List Request → Option Request
request_in kind key [] = none
request_in kind key (r ∷ rs) =
    let rest = request_in kind key rs in
    if eqb_request r.kind kind && r.key == key then some r else rest

-- `sameRequest`.
unfoldable pub same_request : Request → Text → ℕ → Result Error (Option Request)
same_request held body actor =
    if not (eqb_text held.body body) || not (held.actor_id == actor)
    then err (precondition "idempotency_key_reused")
    else ok (some held)

abbrev pub held_or_new : Option Request → Text → ℕ → Result Error (Option Request)
held_or_new none body actor = ok none
held_or_new (some held) body actor = same_request held body actor

-- `retried`.
unfoldable pub retried : RequestKind → ℕ → Text → ℕ → Stock → Result Error (Option Request)
unfolding request_in same_request
retried kind key body actor s =
    if key == 0 then ok none else held_or_new (request_in kind key s.requests) body actor

-- `claim`: none, with the key claimed; or the call that holds it.
unfoldable pub claim : Request → Stock → Result Error (Option Request × Stock)
unfolding request_in same_request
claim r s = elim (held_or_new (request_in r.kind r.key s.requests) r.body r.actor_id) [
  | err e ↦ err e
  | ok none ↦ ok (none, record s { requests = s.requests ++ r ∷ [] })
  | ok (some held) ↦ ok (some held, s)
]
