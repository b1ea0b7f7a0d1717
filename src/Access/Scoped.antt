-- ===== src/Access/Scoped.antt =====
-- Whom the guards let in.
use vof_backend.Access.Guards.{
  User, is_manager, is_org_admin, is_rep, is_in_workspace, require_workspace_access,
  require_org_access, require_rep_access,
}
use vof_backend.Access.Jwt.{Role, manager, org_admin, rep, viewer}
use vof_backend.Errors.{forbidden, ok, err}
use vof_backend.Prelude.{◌==◌, ℕ, ◌≡◌, refl, true, false, Option, none, some, arith}

is_manager-only :
    (r : Role) → is_manager r ≡ true → (r ≡ manager) × (is_org_admin r ≡ false) × (is_rep r ≡ false)
unfolding is_manager is_org_admin is_rep
is_manager-only manager h = (refl, refl, refl)
is_manager-only org_admin h = cc
is_manager-only rep h = cc
is_manager-only viewer h = cc

is_in_workspace-some : (o : Option ℕ) (w : ℕ) → is_in_workspace o w ≡ true → o ≡ some w
unfolding is_in_workspace
is_in_workspace-some none w h = cc
is_in_workspace-some (some v) w h = grind arith

-- What a success of the guard of a workspace tests.
require_workspace_access-ok :
    (w : ℕ) (u v : User)
    → require_workspace_access w u ≡ ok v
    → (v ≡ u) × (is_manager u.role ≡ true) × (is_in_workspace u.workspace_id w ≡ true)
unfolding require_workspace_access
require_workspace_access-ok w u v h = ground arith

only_workspace :
    (o : Option ℕ) (w w' : ℕ) → o ≡ some w → (w == w') ≡ false → is_in_workspace o w' ≡ false
unfolding is_in_workspace
only_workspace none w w' h n = cc
only_workspace (some v) w w' h n = ground arith

-- A user whom the guard of a workspace lets in is a manager of that workspace, and the guard gives the
-- user. The guard of every other workspace, that of every organization and that of the representatives
-- refuse the user as forbidden.
pub require_workspace_access-only :
    (w : ℕ) (u v : User)
    → require_workspace_access w u ≡ ok v
    → (v ≡ u)
      × (u.role ≡ manager)
      × (u.workspace_id ≡ some w)
      × ((w' : ℕ) → (w == w') ≡ false → require_workspace_access w' u ≡ err forbidden)
      × ((o : ℕ) → require_org_access o u ≡ err forbidden)
      × (require_rep_access u ≡ err forbidden)
unfolding require_workspace_access require_org_access require_rep_access
require_workspace_access-only w u v h =
    let (same, boss, spot) = require_workspace_access-ok w u v h in
    let (role, no_admin, no_rep) = is_manager-only u.role boss in
    let place = is_in_workspace-some u.workspace_id w spot in
    (
      same,
      role,
      place,
      λ w' n. rw (only_workspace u.workspace_id w w' place n) refl,
      λ o. rw no_admin refl,
      rw no_rep refl,
    )
