-- ===== src/Aggregation/Production/Once.antt =====
-- A day's production is completed once.
use mathlib.Core.Path.{subst}
use kue_preorder.Prelude.{
  ℕ, ltb, ◌==◌, ℤ, pos, ◌-ℤ◌, ltb_ℤ, ◌≡◌, ◌≢◌, refl, sym, ap, ◌∙◌, true, false, List, [], ◌∷◌,
  contains_func, some, All, arith, inl, inr, Bool-cases, Option-cases,
}
use kue_preorder.Prelude.Word.{InInt64}
use kue_preorder.Prelude.Result.{Result, ok, err}
use kue_preorder.Platform.Errors.{Error, precondition, Result-cases, ok_inj}
use kue_preorder.Platform.Caller.{Principal, authorize}
use kue_preorder.Scheduling.Time.{date_of}
use kue_preorder.Inventory.Consume.{Used, sorted, consume_all}
use kue_preorder.Inventory.Consume.Whole.{IsSoundStock, AccountsAll, positive, consume_all_sound}
use kue_preorder.Inventory.Consume.Moved.{moved, consumed_of, consume_all-moved}
use kue_preorder.Aggregation.Batches.{
  BatchStatus, batch_open, batch_locked, batch_in_production, batch_done, eqb_status,
  ProductionBatch, Line, Kitchen, batch_on, set_status, lines, insert_line,
}
use kue_preorder.Aggregation.Production.{
  staff, uses_of, finish, complete_batch, complete_on, complete_as, complete,
}

pub set_status-batch_on :
    (d : ℤ) (from : List BatchStatus) (to : BatchStatus) (bs : List ProductionBatch)
    (b : ProductionBatch)
    → batch_on d bs ≡ some b
    → contains_func (eqb_status b.status) from ≡ true
    → batch_on d ((set_status d from to bs).1) ≡ some (record b { status = to })
unfolding batch_on set_status
set_status-batch_on d from to [] b e h = cc
set_status-batch_on d from to (c ∷ cs) b e h = ground (arith, set_status-batch_on d from to cs b)

pub set_status-other :
    (d d' : ℤ) (from : List BatchStatus) (to : BatchStatus) (bs : List ProductionBatch)
    → d ≢ d'
    → batch_on d' ((set_status d from to bs).1) ≡ batch_on d' bs
unfolding batch_on set_status
set_status-other d d' from to [] ne = refl
set_status-other d d' from to (c ∷ cs) ne = ground (arith, set_status-other d d' from to cs ne)

still_open :
    (s : BatchStatus)
    → eqb_status s batch_done ≡ false
    → contains_func (eqb_status s) (batch_open ∷ batch_locked ∷ batch_in_production ∷ []) ≡ true
still_open batch_open h = refl
still_open batch_locked h = refl
still_open batch_in_production h = refl
still_open batch_done h = cc

-- What a completed day went through.
Completes : ℤ → ℤ → Kitchen → List Used → Kitchen → Type 0
unfolding uses_of
Completes d now k used k' =
    (actor : ℕ) × (b : ProductionBatch) × (batch_on d k.batches ≡ some b)
    × (eqb_status b.status batch_done ≡ false)
    × (let run =
          consume_all (record { id = b.id; actor_id = actor; at = now })
            (uses_of (lines b.id k.requirements)) k.stock in
        (used ≡ run.0) × (k' ≡ finish actor b d now run.1 k))

complete_batch_parts :
    (actor : ℕ) (b : ProductionBatch) (d now : ℤ) (k k' : Kitchen) (used : List Used)
    → batch_on d k.batches ≡ some b
    → complete_batch actor b d now k ≡ (ok used, k')
    → Completes d now k used k'
unfolding Completes complete_batch
complete_batch_parts actor b d now k k' used e h =
    elim (Bool-cases (eqb_status b.status batch_done)) [
      | inl t ↦ cc (rw t at h)
      | inr f ↦
          let g = rw f at h in
          (
            actor,
            b,
            e,
            f,
            (ok_inj used _ (ok used) refl (sym (ap (λ x. x.0) g)), sym (ap (λ x. x.1) g)),
          )
    ]

complete_on_parts :
    (actor : ℕ) (d now : ℤ) (k k' : Kitchen) (used : List Used)
    → complete_on actor d now k ≡ (ok used, k')
    → Completes d now k used k'
unfolding complete_on
complete_on_parts actor d now k k' used h = elim (Option-cases (batch_on d k.batches)) [
  | inl n ↦ cc (rw (n, complete_on) at h)
  | inr (b, e) ↦ complete_batch_parts actor b d now k k' used e (rw (e, complete_on) at h)
]

complete_as_parts :
    (p : Principal) (d now : ℤ) (k k' : Kitchen) (used : List Used)
    → complete_as p d now k ≡ (ok used, k')
    → Completes d now k used k'
unfolding complete_as
complete_as_parts p d now k k' used h = elim (Bool-cases (ltb_ℤ (date_of now) d)) [
  | inl t ↦ cc (rw t at h)
  | inr f ↦ complete_on_parts p.auth_user_id d now k k' used (rw (f, complete_as) at h)
]

complete_parts :
    (caller : Result Error Principal) (d now : ℤ) (k k' : Kitchen) (used : List Used)
    → complete caller d now k ≡ (ok used, k')
    → Completes d now k used k'
unfolding complete
complete_parts caller d now k k' used h = elim (Result-cases (authorize caller staff)) [
  | inr (e, g) ↦ cc (rw (g, complete) at h)
  | inl (p, g) ↦ complete_as_parts p d now k k' used (rw (g, complete) at h)
]

uses_of-InInt64 :
    (ls : List Line) → All (λ l. InInt64 l.needed) ls → All (λ u. InInt64 u.qty) (uses_of ls)
unfolding uses_of
uses_of-InInt64 [] h = tt
uses_of-InInt64 (l ∷ ls) h = elim (Bool-cases (ltb_ℤ (pos 0) l.needed)) [
  | inl t ↦ rw t (h.0, uses_of-InInt64 ls h.1)
  | inr f ↦ rw f (uses_of-InInt64 ls h.1)
]

insert_line-All {ℓ} :
    (P : Line → Type ℓ) (l : Line) (ls : List Line) → P l → All P ls → All P (insert_line l ls)
unfolding insert_line
insert_line-All P l [] p h = (p, tt)
insert_line-All P l (k ∷ ks) p h = elim (Bool-cases (ltb k.ingredient_id l.ingredient_id)) [
  | inl t ↦ rw t (h.0, insert_line-All P l ks p h.1)
  | inr f ↦ rw f (p, h)
]

lines-All {ℓ} : (P : Line → Type ℓ) (id : ℕ) (ls : List Line) → All P ls → All P (lines id ls)
unfolding lines
lines-All P id [] h = tt
lines-All P id (l ∷ ls) h = elim (Bool-cases (l.batch_id == id)) [
  | inl t ↦ rw t (insert_line-All P l (lines id ls) h.0 (lines-All P id ls h.1))
  | inr f ↦ rw f (lines-All P id ls h.1)
]

-- A day that is done is refused.
complete_done :
    (caller : Result Error Principal) (d now : ℤ) (k : Kitchen) (b : ProductionBatch)
    → batch_on d k.batches ≡ some b
    → eqb_status b.status batch_done ≡ true
    → (e : Error) × (complete caller d now k ≡ (err e, k))
unfolding complete complete_as complete_on complete_batch
complete_done caller d now k b h t = elim (Result-cases (authorize caller staff)) [
  | inr (e, g) ↦ (e, rw (g, complete))
  | inl (p, g) ↦ elim (Bool-cases (ltb_ℤ (date_of now) d)) [
    | inl early ↦ (precondition "not_production_day", rw (g, complete, early))
    | inr due ↦ (precondition "batch_done", rw (g, complete, due, complete_on, h, t))
  ]
]

-- Once Complete has answered for a day, every later call for that day is refused and changes nothing,
-- whoever calls and at any time.
pub complete_once :
    (caller caller' : Result Error Principal) (d now now' : ℤ) (k k' : Kitchen) (used : List Used)
    → complete caller d now k ≡ (ok used, k')
    → (e : Error) × (complete caller' d now' k' ≡ (err e, k'))
unfolding Completes finish
complete_once caller caller' d now now' k k' used h =
    let (actor, b, e, f, (u, g)) = complete_parts caller d now k k' used h in
    complete_done caller' d now' k' (record b { status = batch_done })
      (ap (λ x. batch_on d x.batches) g
        ∙ set_status-batch_on d _ batch_done k.batches b e (still_open b.status f))
      refl

-- What a Complete that answers has done, from a stock in which no lot has given more than it got: the
-- day's batch, which was not done, is done and the batches of other days stay; the stock is such a
-- stock again; of each ingredient that the shopping list of the batch needs, the answer says what was
-- taken and what was missing, both at least nothing and together what is needed; and the movements of
-- every ingredient add up to what they did before less exactly what the answer says was taken of it.
-- The needs are any int64.
pub complete_accounts :
    (caller : Result Error Principal) (d now : ℤ) (k k' : Kitchen) (used : List Used)
    → IsSoundStock k.stock
    → All (λ l. InInt64 l.needed) k.requirements
    → complete caller d now k ≡ (ok used, k')
    → (b : ProductionBatch) × (batch_on d k.batches ≡ some b)
      × (b.status ≢ batch_done)
      × (batch_on d k'.batches ≡ some (record b { status = batch_done }))
      × ((d' : ℤ) → d ≢ d' → batch_on d' k'.batches ≡ batch_on d' k.batches)
      × IsSoundStock k'.stock
      × AccountsAll (positive (sorted (uses_of (lines b.id k.requirements)))) used
      × ((j : ℕ) → moved j k'.stock.movements ≡ moved j k.stock.movements -ℤ consumed_of j used)
unfolding Completes finish
complete_accounts caller d now k k' used sound fits h =
    let (actor, b, e, f, (u, g)) = complete_parts caller d now k k' used h in
    let uses = uses_of (lines b.id k.requirements) in
    let in_range = uses_of-InInt64 _ (lines-All _ b.id k.requirements fits) in
    let all =
      consume_all_sound (record { id = b.id; actor_id = actor; at = now }) uses k.stock sound
        in_range in
    (
      b,
      e,
      (λ t. cc (rw t at f)),
      ap (λ x. batch_on d x.batches) g
          ∙ set_status-batch_on d _ batch_done k.batches b e (still_open b.status f),
      (λ d' ne.
          ap (λ x. batch_on d' x.batches) g ∙ set_status-other d d' _ batch_done k.batches ne),
      subst (λ x. IsSoundStock x.stock) (sym g)
          (record { apart = all.0.apart; nonneg = all.0.nonneg }),
      subst (AccountsAll (positive (sorted uses))) (sym u) all.1,
      (λ j.
          ap (λ x. moved j x.stock.movements) g
          ∙ consume_all-moved (record { id = b.id; actor_id = actor; at = now }) uses k.stock j
              in_range
          ∙ ap (λ x. moved j k.stock.movements -ℤ consumed_of j x) (sym u)),
    )
