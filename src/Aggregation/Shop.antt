-- ===== src/Aggregation/Shop.antt =====
-- internal/aggregation/compute.go: `Shop`, what a batch has to buy after the stock it counts on and what
-- was already ordered, in packs. A map from
-- ingredients is a list with each ingredient at most once; the result is sorted, so that the order in
-- which a map is read does not matter.
pub mod Lookup
pub mod Covers
pub mod Listed
use kue_preorder.Prelude.{
  ℕ, ltb, ◌==◌, ℤ, pos, leb_ℤ, min_ℤ, max_ℤ, Option, none, some, Bool, true, false, not, List, [],
  ◌∷◌, if◌then◌else◌,
}
use kue_preorder.Prelude.Float.{Float, Floats, float_zero, float_1e_minus_9}
use kue_preorder.Prelude.Word.{◌-64◌}
use kue_preorder.Aggregation.Batches.{
  DefaultPack, LineStatus, line_needed, line_ordered, line_received, Line, insert_line,
}

pub record Need : Type 0 where
  pub ingredient_id : ℕ
  pub qty : ℤ

-- A line past `LineNeeded`.
abbrev pub is_touched : LineStatus → Bool
is_touched line_needed = false
is_touched line_ordered = true
is_touched line_received = true

abbrev pub of_ingredient : ℕ → Line → Bool
of_ingredient i l = l.ingredient_id == i

-- `&Line{IngredientID: n.IngredientID, Status: LineNeeded}`, in a batch.
abbrev pub new_line : ℕ → ℕ → Line
new_line batch_id i = record {
  batch_id = batch_id;
  ingredient_id = i;
  needed = pos 0;
  usable_stock = pos 0;
  ordered = pos 0;
  received = pos 0;
  to_buy = pos 0;
  pack = none;
  packs = pos 0;
  status = line_needed;
}

-- What a new computation keeps of a line that procurement has touched.
abbrev pub kept : ℕ → Line → Line
kept batch_id e = record (new_line batch_id e.ingredient_id) {
  ordered = e.ordered;
  received = e.received;
  status = e.status;
}

-- `lines[l.IngredientID] = l`.
unfoldable pub put_line : Line → List Line → List Line
put_line l [] = l ∷ []
put_line l (k ∷ ks) =
    let rest = put_line l ks in if of_ingredient l.ingredient_id k then l ∷ ks else k ∷ rest

-- The loop over the existing lines.
unfoldable pub carried : ℕ → List Line → List Line → List Line
unfolding put_line
carried batch_id [] acc = acc
carried batch_id (e ∷ es) acc =
    carried batch_id es (if is_touched e.status then put_line (kept batch_id e) acc else acc)

-- The body of the loop over the needs.
unfoldable pub with_need : ℕ → Need → List Line → List Line
with_need batch_id n [] = record (new_line batch_id n.ingredient_id) { needed = n.qty } ∷ []
with_need batch_id n (l ∷ ls) =
    let rest = with_need batch_id n ls in
    if of_ingredient n.ingredient_id l then record l { needed = n.qty } ∷ ls else l ∷ rest

unfoldable pub with_needs : ℕ → List Need → List Line → List Line
with_needs batch_id [] acc = acc
with_needs batch_id (n ∷ ns) acc = with_needs batch_id ns (with_need batch_id n acc)

module _ (F : Floats) (packs : ℕ → Option DefaultPack) where
  -- `packsFor`.
  unfoldable pub packs_for : ℤ → Float → ℤ
  packs_for qty size =
      if leb_ℤ qty (pos 0)
      then pos 0
      else F.to_int (F.ceil (F.sub (F.div (F.of_int qty) size) float_1e_minus_9))

  -- The pack of a line, if its size is above 0.
  abbrev sized : Option DefaultPack → Option DefaultPack
  sized none = none
  sized (some p) = if F.lt float_zero p.size then some p else none

  abbrev count : ℤ → Option DefaultPack → ℤ
  count qty none = pos 0
  count qty (some p) = packs_for qty p.size

  -- The body of the last loop.
  unfoldable pub served : (ℕ → ℤ) → Line → Line
  unfolding packs_for
  served stock l =
      let usable = min_ℤ (max_ℤ (stock l.ingredient_id) (pos 0)) l.needed in
      let to_buy = max_ℤ (l.needed -64 usable -64 l.ordered) (pos 0) in
      record l {
        usable_stock = usable;
        to_buy = to_buy;
        pack = sized (packs l.ingredient_id);
        packs = count to_buy (sized (packs l.ingredient_id));
      }

  -- The last loop, with the sort after it.
  unfoldable pub listed : (ℕ → ℤ) → List Line → List Line
  unfolding served
  listed stock [] = []
  listed stock (l ∷ ls) = insert_line (served stock l) (listed stock ls)

  -- `Shop`, for the lines of a batch.
  unfoldable pub shop : ℕ → List Need → (ℕ → ℤ) → List Line → List Line
  unfolding carried with_needs listed
  shop batch_id needs stock existing =
      listed stock (with_needs batch_id needs (carried batch_id existing []))
