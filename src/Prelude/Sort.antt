-- ===== src/Prelude/Sort.antt =====
-- `slices.SortFunc` as an insertion sort: a sort by distinct keys has one result.
use kue_preorder.Prelude.Tests.{if◌then◌else◌}
use kue_preorder.Prelude.Lists.{All}
use mathlib.Core.Path.{◌≡◌, refl, ap, ◌∙◌, subst}
use mathlib.Core.Bool.{Bool, true, false, ◌||◌}
use mathlib.Core.List.{List, [], ◌∷◌, Permᴰ}
use native.Mathlib.Omega.{arith}

-- `before x y` is `compare(x, y) <= 0`.
unfoldable pub insert_by : {A : Type 0} → (A → A → Bool) → A → List A → List A
insert_by before x [] = x ∷ []
insert_by before x (y ∷ ys) =
    let rest = insert_by before x ys in if before x y then x ∷ y ∷ ys else y ∷ rest

unfoldable pub sort_by : {A : Type 0} → (A → A → Bool) → List A → List A
unfolding insert_by
sort_by before [] = []
sort_by before (x ∷ xs) = insert_by before x (sort_by before xs)

-- A comparison of keys.
pub record IsOrder {A : Type 0} (before : A → A → Bool) : Type 0 where
  pub total : (x y : A) → (before x y || before y x) ≡ true
  pub trans : (x y z : A) → before x y ≡ true → before y z ≡ true → before x z ≡ true

-- Two entries whose keys differ.
abbrev pub Apart : {A : Type 0} → (A → A → Bool) → A → A → Type 0
Apart before x y = before x y ≡ true → before y x ≡ false

abbrev pub AllApart : {A : Type 0} → (A → A → Bool) → List A → Type 0
AllApart before [] = Unit
AllApart before (x ∷ xs) = All (Apart before x) xs × AllApart before xs

module _ {A : Type 0} (before : A → A → Bool) (o : IsOrder before) where
  Apart-sym : (x y : A) → Apart before x y → Apart before y x
  Apart-sym x y h = ground (arith, h)

  insert_by_comm :
      (x y : A) (l : List A)
      → Apart before x y
      → insert_by before x (insert_by before y l) ≡ insert_by before y (insert_by before x l)
  unfolding insert_by
  insert_by_comm x y [] h = ground (arith, o.total x y, h)
  insert_by_comm x y (z ∷ zs) h =
      ground (arith, o.total x y, h, o.trans x y z, o.trans y x z, insert_by_comm x y zs h)

  -- A rearrangement keeps what holds of all entries, and of all pairs.
  Perm-All : (P : A → Type 0) {xs ys : List A} → Permᴰ xs ys → All P xs → All P ys
  Perm-All P Permᴰ.nil h = tt
  Perm-All P (Permᴰ.cons e d) h = (subst P e h.0, Perm-All P d h.1)
  Perm-All P (Permᴰ.swap e f) h = (subst P f h.1.0, (subst P e h.0, h.1.1))
  Perm-All P (Permᴰ.trans d e) h = Perm-All P e (Perm-All P d h)

  Perm-AllApart : {xs ys : List A} → Permᴰ xs ys → AllApart before xs → AllApart before ys
  Perm-AllApart Permᴰ.nil h = tt
  Perm-AllApart (Permᴰ.cons {a = a} {b = b} {l₂ = l} e d) h =
      (subst (λ x. All (Apart before x) l) e (Perm-All (Apart before a) d h.0), Perm-AllApart d h.1)
  Perm-AllApart (Permᴰ.swap {a = a} {b = b} {b' = b'} {l = l} e f) h = (
    (
      subst (λ x. Apart before x b') f (subst (Apart before b) e (Apart-sym a b h.0.0)),
      subst (λ x. All (Apart before x) l) f h.1.0,
    ),
    (subst (λ x. All (Apart before x) l) e h.0.1, h.1.1),
  )
  Perm-AllApart (Permᴰ.trans d e) h = Perm-AllApart e (Perm-AllApart d h)

  -- Entries with distinct keys are sorted to one list, however they stand.
  pub sort_by-Perm :
      {xs ys : List A} → Permᴰ xs ys → AllApart before xs → sort_by before xs ≡ sort_by before ys
  unfolding sort_by
  sort_by-Perm Permᴰ.nil h = refl
  sort_by-Perm (Permᴰ.cons {b = b} {l₁ = l} e d) h =
      ap (λ x. insert_by before x (sort_by before l)) e
      ∙ ap (insert_by before b) (sort_by-Perm d h.1)
  sort_by-Perm (Permᴰ.swap {a = a} {b = b} {a' = a'} {l = l} e f) h =
      insert_by_comm a b (sort_by before l) h.0.0
      ∙ ap (λ x. insert_by before x (insert_by before a (sort_by before l))) f
      ∙ ap (λ x. insert_by before a' (insert_by before x (sort_by before l))) e
  sort_by-Perm (Permᴰ.trans d e) h = sort_by-Perm d h ∙ sort_by-Perm e (Perm-AllApart d h)
