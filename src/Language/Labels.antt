-- ===== src/Language/Labels.antt =====
-- frontend/src/components/i18n/i18n-provider.tsx: the labels of the program's names.
use Prim.Native.Char.{Char, code}
use enterprise_crm.Common.{
  ◌≡◌, refl, ℕ, ◌-◌, String, Bool, List, [], ◌∷◌, ◌<>◌, ◌==◌, eqb, if◌then◌else◌, map,
}
use enterprise_crm.Common.Text.{in_range, digit_at}

abbrev is_lower : ℕ → Bool
is_lower n = in_range b'a' b'z' n

-- `toUpperCase` of a letter of ASCII. The names that the program labels are in ASCII.
unfoldable pub to_upper : Char → Char
unfolding digit_at
to_upper c = if is_lower (code c) then digit_at "ABCDEFGHIJKLMNOPQRSTUVWXYZ" (code c - b'a') else c

abbrev pub capitalize : String → String
capitalize String.[] = ""
capitalize (String.◌∷◌ c rest) = String.◌∷◌ (to_upper c) rest

abbrev pub push_char : Char → List String → List String
push_char c [] = String.◌∷◌ c String.[] ∷ []
push_char c (word ∷ words) = String.◌∷◌ c word ∷ words

-- `value.split(separator)`, for a separator of one character.
unfoldable pub split : ℕ → String → List String
split separator String.[] = "" ∷ []
split separator (String.◌∷◌ c rest) =
    let parts = split separator rest in
    if eqb (code c) separator then "" ∷ parts else push_char c parts

unfoldable pub join_words : List String → String
join_words [] = ""
join_words (word ∷ []) = word
join_words (word ∷ next ∷ words) = word <> (" " <> join_words (next ∷ words))

unfoldable pub humanize_enum : String → String
unfolding split to_upper join_words
humanize_enum value = join_words (map capitalize (split b'_' value))

-- `value.split(".", 2)` with its defaults: the resource, and the action or "".
abbrev resource_action : List String → String × String
resource_action [] = ("", "")
resource_action (resource ∷ []) = (resource, "")
resource_action (resource ∷ action ∷ others) = (resource, action)

-- `permissionLabel` where the page is in English.
unfoldable pub permission_label : String → String
unfolding split humanize_enum
permission_label value =
    let parts = resource_action (split b'.' value) in
    if parts.1 == ""
    then humanize_enum parts.0
    else humanize_enum parts.0 <> (" · " <> humanize_enum parts.1)

humanize_sample : humanize_enum "closed_won" ≡ "Closed Won"
unfolding humanize_enum
humanize_sample = refl

permission_sample : permission_label "audit_logs.read" ≡ "Audit Logs · Read"
unfolding permission_label
permission_sample = refl
