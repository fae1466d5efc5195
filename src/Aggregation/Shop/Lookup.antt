-- ===== src/Aggregation/Shop/Lookup.antt =====
-- Which line `Shop` leaves for an ingredient, from what is needed of it and what was ordered.
use kue_preorder.Prelude.{
  ℕ, ◌==◌, ℤ, ◌≡◌, refl, ap, ◌∙◌, Bool, true, false, ◌&&◌, List, [], ◌∷◌, Option, none, some, arith,
  if◌then◌else◌,
}
use kue_preorder.Prelude.Float.{Floats}
use kue_preorder.Aggregation.Batches.{DefaultPack, Line, insert_line}
use kue_preorder.Aggregation.Shop.{
  Need, is_touched, of_ingredient, new_line, kept, put_line, carried, with_need, with_needs, served,
  listed, shop,
}

-- The first line of an ingredient.
abbrev pub line_of : ℕ → List Line → Option Line
line_of i [] = none
line_of i (l ∷ ls) = let rest = line_of i ls in if of_ingredient i l then some l else rest

unfoldable pub or_else {ℓ} : {A : Type ℓ} → Option A → Option A → Option A
or_else (some x) y = some x
or_else none y = y

-- What is needed of an ingredient: the last need counts.
unfoldable pub need_of : ℕ → List Need → Option ℤ
unfolding or_else
need_of i [] = none
need_of i (n ∷ ns) = or_else (need_of i ns) (if n.ingredient_id == i then some n.qty else none)

-- The line of an ingredient that procurement has touched.
unfoldable pub touched_of : ℕ → List Line → Option Line
unfolding or_else
touched_of i [] = none
touched_of i (e ∷ es) =
    or_else (touched_of i es) (if is_touched e.status && e.ingredient_id == i then some e else none)

put_line-line_of :
    (i : ℕ) (l : Line) (ls : List Line)
    → line_of i (put_line l ls) ≡ (if l.ingredient_id == i then some l else line_of i ls)
unfolding put_line
put_line-line_of i l [] = refl
put_line-line_of i l (k ∷ ks) = ground (arith, put_line-line_of i l ks)

insert_line-line_of :
    (i : ℕ) (l : Line) (ls : List Line)
    → line_of i (insert_line l ls) ≡ (if l.ingredient_id == i then some l else line_of i ls)
unfolding insert_line
insert_line-line_of i l [] = refl
insert_line-line_of i l (k ∷ ks) = ground (arith, insert_line-line_of i l ks)

unfoldable pub or_new : ℕ → ℕ → Option Line → Line
or_new b i none = new_line b i
or_new b i (some l) = l

with_need-line_of :
    (b i : ℕ) (n : Need) (ls : List Line)
    → line_of i (with_need b n ls) ≡ (
        if n.ingredient_id == i
        then some (record (or_new b i (line_of i ls)) { needed = n.qty })
        else line_of i ls)
unfolding with_need or_new
with_need-line_of b i n [] = ground arith
with_need-line_of b i n (l ∷ ls) = ground (arith, with_need-line_of b i n ls)

-- A line with what is needed of it.
unfoldable pub wanted : ℕ → ℕ → Option ℤ → Option Line → Option Line
unfolding or_new
wanted b i none x = x
wanted b i (some q) x = some (record (or_new b i x) { needed = q })

wanted-or_else :
    (b i : ℕ) (o : Option ℤ) (t : Bool) (x : Option Line) (q : ℤ)
    → wanted b i o (if t then some (record (or_new b i x) { needed = q }) else x)
      ≡ wanted b i (or_else o (if t then some q else none)) x
unfolding wanted or_else or_new
wanted-or_else b i none true x q = refl
wanted-or_else b i none false x q = refl
wanted-or_else b i (some p) true x q = refl
wanted-or_else b i (some p) false x q = refl

with_needs-line_of :
    (b i : ℕ) (ns : List Need) (acc : List Line)
    → line_of i (with_needs b ns acc) ≡ wanted b i (need_of i ns) (line_of i acc)
unfolding with_needs need_of wanted
with_needs-line_of b i [] acc = refl
with_needs-line_of b i (n ∷ ns) acc =
    with_needs-line_of b i ns (with_need b n acc)
    ∙ ap (wanted b i (need_of i ns)) (with_need-line_of b i n acc)
    ∙ wanted-or_else b i (need_of i ns) (n.ingredient_id == i) (line_of i acc) n.qty

unfoldable pub kept_of : ℕ → Option Line → Option Line
kept_of b none = none
kept_of b (some e) = some (kept b e)

kept_of-or_else :
    (b i : ℕ) (o : Option Line) (e : Line) (t : Bool) (acc : List Line)
    → or_else (kept_of b o) (line_of i (if t then put_line (kept b e) acc else acc))
      ≡ or_else
          (kept_of b (or_else o (if t && e.ingredient_id == i then some e else none)))
          (line_of i acc)
unfolding or_else kept_of
kept_of-or_else b i (some x) e t acc = refl
kept_of-or_else b i none e false acc = refl
kept_of-or_else b i none e true acc =
    put_line-line_of i (kept b e) acc ∙ split (e.ingredient_id == i)
  where
    split :
        (t : Bool)
        → (if t then some (kept b e) else line_of i acc)
          ≡ or_else (kept_of b (if t then some e else none)) (line_of i acc)
    split true = refl
    split false = refl

carried-line_of :
    (b i : ℕ) (es acc : List Line)
    → line_of i (carried b es acc) ≡ or_else (kept_of b (touched_of i es)) (line_of i acc)
unfolding carried touched_of or_else kept_of
carried-line_of b i [] acc = refl
carried-line_of b i (e ∷ es) acc =
    carried-line_of b i es (if is_touched e.status then put_line (kept b e) acc else acc)
    ∙ kept_of-or_else b i (touched_of i es) e (is_touched e.status) acc

unfoldable pub served_of : Floats → (ℕ → Option DefaultPack) → (ℕ → ℤ) → Option Line → Option Line
served_of F packs stock none = none
served_of F packs stock (some l) = some (served F packs stock l)

served_of-if :
    (F : Floats) (packs : ℕ → Option DefaultPack) (stock : ℕ → ℤ) (t : Bool) (l : Line)
    (x : Option Line)
    → (if t then some (served F packs stock l) else served_of F packs stock x)
      ≡ served_of F packs stock (if t then some l else x)
unfolding served_of
served_of-if F packs stock true l x = refl
served_of-if F packs stock false l x = refl

listed-line_of :
    (F : Floats) (packs : ℕ → Option DefaultPack) (stock : ℕ → ℤ) (i : ℕ) (ls : List Line)
    → line_of i (listed F packs stock ls) ≡ served_of F packs stock (line_of i ls)
unfolding listed served_of served
listed-line_of F packs stock i [] = refl
listed-line_of F packs stock i (l ∷ ls) =
    insert_line-line_of i (served F packs stock l) (listed F packs stock ls)
    ∙ ap (λ x. if of_ingredient i l then some (served F packs stock l) else x)
        (listed-line_of F packs stock i ls)
    ∙ served_of-if F packs stock (of_ingredient i l) l (line_of i ls)

or_else-none : (o : Option Line) → or_else o none ≡ o
unfolding or_else
or_else-none none = refl
or_else-none (some x) = refl

pub shop-line_of :
    (F : Floats) (packs : ℕ → Option DefaultPack) (b : ℕ) (needs : List Need) (stock : ℕ → ℤ)
    (existing : List Line) (i : ℕ)
    → line_of i (shop F packs b needs stock existing)
      ≡ served_of F packs stock (wanted b i (need_of i needs) (kept_of b (touched_of i existing)))
unfolding shop
shop-line_of F packs b needs stock existing i =
    listed-line_of F packs stock i (with_needs b needs (carried b existing []))
    ∙ ap (served_of F packs stock) (
        with_needs-line_of b i needs (carried b existing [])
        ∙ ap (wanted b i (need_of i needs))
            (carried-line_of b i existing [] ∙ or_else-none (kept_of b (touched_of i existing))))
