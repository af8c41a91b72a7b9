-- ===== src/Tests/Shell.antt =====
-- The theorems on the pages' shell: navigation, the palette and the user that the pages know of.
use enterprise_crm.Common.{
  ◌≡◌, refl, String, not, ◌&&◌, ◌||◌, is_some, or_else, List, [], ◌∷◌, ◌==◌,
}
use enterprise_crm.Common.Text.{trim}
use enterprise_crm.Hooks.{content, api_failure}
use enterprise_crm.Auth.Provider.{AuthState, first_state, sends_to_login, shows_children}
use enterprise_crm.Auth.Provider.Runs.{
  End, restored, signed_in, run, newest, has_restored, run-newest,
}
use enterprise_crm.Palette.{Palette, opened, ended, can_search, change_query, settle_search}
use enterprise_crm.Palette.Search.{is_stuck, is_waiting, change_query-is_stuck}

-- A sign-in succeeds, and then the first call for the user fails.
abbrev overtaken : List (End String)
overtaken = signed_in (content "ann") ∷ restored (api_failure "expired") ∷ []

abbrev before_sign_in : AuthState String
before_sign_in = first_state

run-newest_example :
    ((run overtaken before_sign_in).user ≡ or_else (newest overtaken) before_sign_in.user)
    × (sends_to_login (run overtaken before_sign_in) ≡ (
        (not before_sign_in.is_loading || has_restored overtaken)
        && not (is_some (or_else (newest overtaken) before_sign_in.user))))
    × (shows_children (run overtaken before_sign_in) ≡ (
        (not before_sign_in.is_loading || has_restored overtaken)
        && is_some (or_else (newest overtaken) before_sign_in.user)))
run-newest_example = run-newest overtaken before_sign_in refl

abbrev auditor : List String
auditor = "audit_logs.read" ∷ "deals.read" ∷ "search.read" ∷ []

abbrev searched : Palette
searched = record opened { query = "acme"; run = ended }

change_query-is_stuck_example :
    (is_stuck (change_query auditor "acme " searched)
      ≡ (can_search auditor "acme " && ((trim "acme " == trim "acme") && not (is_waiting ended))))
    × ((change_query auditor "acme " searched).results ≡ [])
    × (is_stuck (settle_search (content []) searched) ≡ is_stuck searched)
change_query-is_stuck_example = change_query-is_stuck auditor "acme " searched (content [])
