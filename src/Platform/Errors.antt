-- ===== src/Platform/Errors.antt =====
-- internal/platform/apperr: the errors that services return. A validation error carries the names
-- of the invalid fields in the order in which they were recorded; the messages for the person
-- editing are left out. The packages' own sentinel errors stand here too.
use Prim.Native.String.{String}
use text.Mathlib.Text.{◌==◌ as str_eq}
use kue_preorder.Prelude.{
  Bool, true, false, ◌||◌, List, [], ◌∷◌, ◌++◌, ◌≡◌, ◌⊎◌, refl, Bool-cases, inl, inr, if◌then◌else◌,
}
use kue_preorder.Prelude.Result.{Result, ok, err, ◌>>=◌}

pub data Error : Type 0 where
  unauthenticated forbidden not_found : Error
  precondition : String → Error
  validation : List String → Error
  illegal_transition payment_required : Error
  invalid_amount payments_closed illegal_close : Error
  rejection : String → Error
  internal : String → Error

abbrev pub Fields : Type 0
Fields = List String

-- The fields with an error so far.
pub seen : String → Fields → Bool
seen field [] = false
seen field (f ∷ fs) = str_eq f field || seen field fs

-- `Fields.Check`: the first message for a field wins.
unfoldable pub check : Bool → String → Fields → Fields
check b field fs = if b then fs else if seen field fs then fs else fs ++ field ∷ []

-- `Fields.Err`.
unfoldable pub fields_err : Fields → Result Error (Unit {0})
fields_err [] = ok tt
fields_err (f ∷ fs) = err (validation (f ∷ fs))

append_one_ne_nil : (fs : Fields) (f : String) → fs ++ f ∷ [] ≡ [] → ⊥
append_one_ne_nil [] f e = cc
append_one_ne_nil (g ∷ fs) f e = cc

seen_nil : (f : String) → seen f [] ≡ false
unfolding seen
seen_nil f = refl

-- A check leaves no field error exactly if there was none and it passed.
pub check-eq-nil :
    (b : Bool) (f : String) (fs : Fields) → check b f fs ≡ [] → (b ≡ true) × (fs ≡ [])
unfolding check
check-eq-nil true f fs e = (refl, e)
check-eq-nil false f [] e = absurd (append_one_ne_nil [] f (rw (seen_nil f) at e))
check-eq-nil false f (g ∷ fs) e = elim (Bool-cases (seen f (g ∷ fs))) [
  | inl s ↦ cc (rw s at e)
  | inr s ↦ absurd (append_one_ne_nil (g ∷ fs) f (rw s at e))
]

pub fields_err-eq-ok : (fs : Fields) {u : Unit} → fields_err fs ≡ ok u → fs ≡ []
unfolding fields_err
fields_err-eq-ok [] e = refl
fields_err-eq-ok (f ∷ fs) e = cc

pub Result-cases :
    {A : Type 0} (r : Result Error A) → ((a : A) × (r ≡ ok a)) ⊎ ((e : Error) × (r ≡ err e))
Result-cases (ok a) = inl (a, refl)
Result-cases (err e) = inr (e, refl)

-- What a call that succeeded began with.
pub >>=_ok :
    {A B : Type 0} (m : Result Error A) (f : A → Result Error B) {b : B}
    → (m >>= f) ≡ ok b
    → (a : A) × (m ≡ ok a) × (f a ≡ ok b)
>>=_ok (ok a) f h = (a, refl, h)
>>=_ok (err e) f h = cc

-- `Join`: the field errors of several checks as one error; any other error comes first.
merge_fields : Fields → Fields → Fields
merge_fields [] merged = merged
merge_fields (f ∷ fs) merged = merge_fields fs (check false f merged)

join_from : Fields → List (Result Error (Unit {0})) → Result Error (Unit {0})
unfolding merge_fields
join_from merged [] = fields_err merged
join_from merged (ok u ∷ es) = join_from merged es
join_from merged (err (validation fs) ∷ es) = join_from (merge_fields fs merged) es
join_from merged (err e ∷ es) = err e

unfoldable pub join : List (Result Error (Unit {0})) → Result Error (Unit {0})
unfolding join_from
join es = join_from [] es

merge_fields-eq-nil : (fs merged : Fields) → merge_fields fs merged ≡ [] → (fs ≡ []) × (merged ≡ [])
unfolding merge_fields
merge_fields-eq-nil [] merged h = (refl, h)
merge_fields-eq-nil (f ∷ fs) merged h =
    let rest = merge_fields-eq-nil fs (check false f merged) h in
    let c = check-eq-nil false f merged rest.1 in cc

-- Two checks of fields are joined without an error exactly if neither has one.
pub join_ok :
    (fs gs : Fields) {u : Unit {0}}
    → join (fields_err fs ∷ fields_err gs ∷ []) ≡ ok u
    → (fs ≡ []) × (gs ≡ [])
unfolding join fields_err
join_ok [] [] h = (refl, refl)
join_ok [] (g ∷ gs) h = (refl, (merge_fields-eq-nil (g ∷ gs) [] (fields_err-eq-ok _ h)).0)
join_ok (f ∷ fs) [] h = ((merge_fields-eq-nil (f ∷ fs) [] (fields_err-eq-ok _ h)).0, refl)
join_ok (f ∷ fs) (g ∷ gs) h =
    let both = merge_fields-eq-nil (g ∷ gs) _ (fields_err-eq-ok _ h) in
    ((merge_fields-eq-nil (f ∷ fs) [] both.1).0, both.0)

pub ok_inj : {A : Type 0} (a b : A) (r : Result Error A) → r ≡ ok a → r ≡ ok b → a ≡ b
ok_inj a b r h k = cc
