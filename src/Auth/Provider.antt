-- ===== src/Auth/Provider.antt =====
-- frontend/src/features/auth/auth-provider.tsx and frontend/src/features/auth/protected-route.tsx: the
-- user that the pages know of.
pub mod Runs
use enterprise_crm.Common.{Bool, true, false, not, ◌&&◌, Option, none, some, is_some, if◌then◌else◌}
use enterprise_crm.Hooks.{Loaded, content}

-- The provider's state; `restoring` says whether the first call for the user has not yet settled.
pub record AuthState (User : Type 0) : Type 0 where
  pub user : Option User
  pub is_loading : Bool
  pub is_active : Bool
  pub restoring : Bool

abbrev pub first_state : {User : Type 0} → AuthState User
first_state = record { user = none; is_loading = true; is_active = true; restoring = true }

abbrev pub user_of : {User : Type 0} → Loaded User → Option User
user_of (content user) = some user
user_of _ = none

-- `restoreSession` once its call has settled.
unfoldable pub restore_session : {User : Type 0} → Loaded User → AuthState User → AuthState User
restore_session loaded state =
    let settled = record state { restoring = false } in
    if state.is_active
    then record settled { user = user_of loaded; is_loading = false }
    else settled

-- The cleanup of the effect.
unfoldable pub unmount : {User : Type 0} → AuthState User → AuthState User
unmount state = record state { is_active = false }

-- `signIn` and `refreshUser` end: an error is passed on and changes nothing.
unfoldable pub sign_in : {User : Type 0} → Loaded User → AuthState User → AuthState User
sign_in (content user) state = record state { user = some user }
sign_in _ state = state

-- `signOut` ends, whatever its call comes to.
unfoldable pub sign_out : {User : Type 0} → Loaded Unit → AuthState User → AuthState User
sign_out loaded state = record state { user = none }

-- `ProtectedRoute`: it sends to the login page, waits, or shows what it protects.
unfoldable pub sends_to_login : {User : Type 0} → AuthState User → Bool
sends_to_login state = not state.is_loading && not (is_some state.user)

unfoldable pub shows_children : {User : Type 0} → AuthState User → Bool
shows_children state = not state.is_loading && is_some state.user
