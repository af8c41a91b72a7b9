-- ===== src/Auth/Provider/Runs.antt =====
-- frontend/src/features/auth/auth-provider.tsx: whom the pages take for the reader after any run of the
-- calls' ends.
use enterprise_crm.Common.{
  ◌≡◌, refl, ap, ◌∙◌, Bool, true, false, not, ◌&&◌, ◌||◌, Option, none, some, is_some, or_else,
  List, [], ◌∷◌, arith,
}
use enterprise_crm.Hooks.{Loaded, content, api_failure, other_failure}
use enterprise_crm.Auth.Provider.{
  AuthState, restore_session, sign_in, sign_out, sends_to_login, shows_children,
}

-- The end of a call: of the first one for the user, of a sign-in or a refresh of the user, and of a
-- sign-out.
pub data End (User : Type 0) : Type 0 where
  restored signed_in : Loaded User → End User
  signed_out : Loaded Unit → End User

abbrev end_call : {User : Type 0} → End User → AuthState User → AuthState User
end_call (restored loaded) state = restore_session loaded state
end_call (signed_in loaded) state = sign_in loaded state
end_call (signed_out loaded) state = sign_out loaded state

pub run : {User : Type 0} → List (End User) → AuthState User → AuthState User
run [] state = state
run (end ∷ ends) state = run ends (end_call end state)

-- Whom a call's end names: nobody, where the first call fails or the reader signs out, and it says
-- nothing where a sign-in fails.
abbrev names : {User : Type 0} → End User → Option (Option User)
names (restored (content user)) = some (some user)
names (restored failure) = some none
names (signed_in (content user)) = some (some user)
names (signed_in failure) = none
names (signed_out loaded) = some none

-- Whom the last of the ends names that says anything.
pub newest : {User : Type 0} → List (End User) → Option (Option User)
newest [] = none
newest (end ∷ ends) = elim (newest ends) [ none ↦ names end | some named ↦ some named ]

pub has_restored : {User : Type 0} → List (End User) → Bool
has_restored [] = false
has_restored (restored loaded ∷ ends) = true
has_restored (end ∷ ends) = has_restored ends

end_call-active :
    {User : Type 0} (end : End User) (state : AuthState User)
    → (end_call end state).is_active ≡ state.is_active
unfolding restore_session sign_in sign_out
end_call-active (restored loaded) state = ground arith
end_call-active (signed_in (content user)) state = refl
end_call-active (signed_in (api_failure message)) state = refl
end_call-active (signed_in other_failure) state = refl
end_call-active (signed_out loaded) state = refl

end_call-user :
    {User : Type 0} (end : End User) (state : AuthState User)
    → state.is_active ≡ true
    → (end_call end state).user ≡ or_else (names end) state.user
unfolding restore_session sign_in sign_out
end_call-user (restored (content user)) state active = ground arith
end_call-user (restored (api_failure message)) state active = ground arith
end_call-user (restored other_failure) state active = ground arith
end_call-user (signed_in (content user)) state active = refl
end_call-user (signed_in (api_failure message)) state active = refl
end_call-user (signed_in other_failure) state active = refl
end_call-user (signed_out loaded) state active = refl

end_call-loading :
    {User : Type 0} (end : End User) (state : AuthState User)
    → state.is_active ≡ true
    → (end_call end state).is_loading ≡ (state.is_loading && not (has_restored (end ∷ [])))
unfolding has_restored restore_session sign_in sign_out
end_call-loading (restored (content user)) state active = ground arith
end_call-loading (restored (api_failure message)) state active = ground arith
end_call-loading (restored other_failure) state active = ground arith
end_call-loading (signed_in (content user)) state active = ground arith
end_call-loading (signed_in (api_failure message)) state active = ground arith
end_call-loading (signed_in other_failure) state active = ground arith
end_call-loading (signed_out loaded) state active = ground arith

has_restored-first :
    {User : Type 0} (end : End User) (ends : List (End User))
    → has_restored (end ∷ ends) ≡ (has_restored (end ∷ []) || has_restored ends)
unfolding has_restored
has_restored-first (restored loaded) ends = refl
has_restored-first (signed_in loaded) ends = refl
has_restored-first (signed_out loaded) ends = refl

or_else_newer :
    {A : Type 0} (newer older : Option A) (old : A)
    → or_else newer (or_else older old)
      ≡ or_else (elim newer [ none ↦ older | some value ↦ some value ]) old
or_else_newer none older old = refl
or_else_newer (some value) older old = refl

run-user :
    {User : Type 0} (ends : List (End User)) (state : AuthState User)
    → state.is_active ≡ true
    → (run ends state).user ≡ or_else (newest ends) state.user
unfolding run newest
run-user [] state active = refl
run-user (end ∷ ends) state active =
    run-user ends (end_call end state) (end_call-active end state ∙ active)
    ∙ ap (or_else (newest ends)) (end_call-user end state active)
    ∙ or_else_newer (newest ends) (names end) state.user

run-loading :
    {User : Type 0} (ends : List (End User)) (state : AuthState User)
    → state.is_active ≡ true
    → (run ends state).is_loading ≡ (state.is_loading && not (has_restored ends))
unfolding run has_restored
run-loading [] state active = ground arith
run-loading (end ∷ ends) state active = ground (
  arith,
  run-loading ends (end_call end state) (end_call-active end state ∙ active),
  end_call-loading end state active,
  has_restored-first end ends,
)

-- In whatever order the calls of a mounted provider end, the pages take for the reader whom the last end
-- names that says anything, nobody where this is a failure of the first call or a sign-out, and the
-- reader of before where none does. A protected page sends to the login page exactly if the first call
-- has ended and there is no such reader, and shows what it protects exactly if it has ended and there
-- is one. So the first call, if it fails after a sign-in that has succeeded, sends the reader back.
pub run-newest :
    {User : Type 0} (ends : List (End User)) (state : AuthState User)
    → state.is_active ≡ true
    → ((run ends state).user ≡ or_else (newest ends) state.user)
      × (sends_to_login (run ends state) ≡ (
          (not state.is_loading || has_restored ends)
          && not (is_some (or_else (newest ends) state.user))))
      × (shows_children (run ends state) ≡ (
          (not state.is_loading || has_restored ends)
          && is_some (or_else (newest ends) state.user)))
unfolding sends_to_login shows_children
run-newest ends state active =
    ground (arith, run-user ends state active, run-loading ends state active)
