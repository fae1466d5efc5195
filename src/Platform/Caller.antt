-- ===== src/Platform/Caller.antt =====
-- internal/identity: the signed-in caller with its roles, and the authorize step that every staff
-- service begins with. Whether a request carries a verified user is the caller's argument.
use kue_preorder.Prelude.{ℕ, Bool, true, false, List, Option, contains_func, if◌then◌else◌}
use kue_preorder.Prelude.Text.{Text}
use kue_preorder.Prelude.Result.{Result, ok, err, ◌>>=◌}
use kue_preorder.Platform.Errors.{Error, forbidden}

pub data Role : Type 0 where
  owner kitchen : Role

abbrev eqb_role : Role → Role → Bool
eqb_role owner owner = true
eqb_role kitchen kitchen = true
eqb_role _ _ = false

-- `Principal` within its tenant; the customer id is none until the user has ordered.
pub record Principal : Type 0 where
  pub auth_user_id : ℕ
  pub roles : List Role
  pub customer_id : Option ℕ

-- What a customer types of themselves, and the customer record.
pub record CustomerInput : Type 0 where
  pub name : Text
  pub email : Text

pub record Customer : Type 0 where
  pub id : ℕ
  pub name : Text
  pub phone : Text
  pub email : Text

unfoldable pub has_role : Principal → Role → Bool
has_role p role = contains_func (eqb_role role) p.roles

-- `authorize`: any of the roles will do.
unfoldable pub authorize : Result Error Principal → List Role → Result Error Principal
unfolding has_role
authorize caller allowed = do
  p ← caller
  if contains_func (has_role p) allowed then ok p else err forbidden
