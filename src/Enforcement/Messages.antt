-- ===== src/Enforcement/Messages.antt =====
-- enforcement.py, the message copy: titles and bodies of the notifications.
use v_cx_credit_guard.Prelude.{
  ℤ, pos, negsuc, suc, String, false, Option, none, some, List, [], ◌∷◌, map, concat, join, str,
  str_eq, or_else, if◌then◌else◌,
}
use v_cx_credit_guard.Model.Enums.{
  EnforcementKind, remove_user_roles, disable_auto_triage, disable_pr_remediation, entity_text,
}
use v_cx_credit_guard.Model.Limits.{CreditLimit, RoleRef, UndoSnapshot, EnforcementAction}
use v_cx_credit_guard.Enforcement.Plan.{Target}
use v_cx_credit_guard.Checkmarx.{truthy}

-- What an f-string writes for an optional text.
abbrev pub shown : Option String → String
shown label = or_else label "None"

unfoldable pub str_ℤ : ℤ → String
unfolding concat str
str_ℤ (pos n) = str n
str_ℤ (negsuc n) = concat ("-" ∷ str (suc n) ∷ [])

-- `xs or []` of a key that may be missing.
abbrev pub or_empty {ℓ} : {A : Type ℓ} → Option (List A) → List A
or_empty none = []
or_empty (some xs) = xs

unfoldable pub entity_shown : CreditLimit → String
entity_shown l = or_else (truthy l.entity_label) l.entity_id

-- `", ".join(xs) or "none"`
unfoldable pub joined_or_none : List String → String
unfolding join
joined_or_none xs = let text = join ", " xs in if str_eq text "" then "none" else text

unfoldable pub enforcement_title : Target → String
unfolding concat
enforcement_title t = elim t.kind [
  | remove_user_roles ↦ concat ("User " ∷ shown t.target_label ∷ " restricted" ∷ [])
  | disable_auto_triage ↦ concat ("Project " ∷ shown t.target_label ∷ ": Auto Triage disabled" ∷ [])
  | disable_pr_remediation ↦
      concat ("Project " ∷ shown t.target_label ∷ ": PR triage and remediation disabled" ∷ [])
]

abbrev role_names : UndoSnapshot → List String
role_names s = map (λ (r : RoleRef). r.name) (or_empty s.removed_roles)

unfoldable pub enforcement_line : EnforcementKind → UndoSnapshot → String
unfolding concat join joined_or_none
enforcement_line remove_user_roles s = elim (role_names s) [
  | [] ↦ "The user did not hold the AI roles, so nothing was removed."
  | n ∷ names ↦ concat ("Removed roles: " ∷ join ", " (n ∷ names) ∷ [])
]
enforcement_line disable_auto_triage s =
    if or_else s.enabled_before false
    then "Auto Triage was turned off for this project."
    else "Auto Triage was already off for this project."
enforcement_line disable_pr_remediation s = concat (
    "PR remediation severities cleared (were: "
    ∷ joined_or_none (or_empty s.severities_before)
    ∷ ")."
    ∷ [])

unfoldable pub enforcement_body : CreditLimit → Target → String → UndoSnapshot → String
unfolding concat join enforcement_line entity_shown entity_text str_ℤ
enforcement_body limit target period_key s = join "\n" (
    concat (
      "The "
      ∷ entity_text limit.entity_type
      ∷ " limit on "
      ∷ entity_shown limit
      ∷ " was reached in "
      ∷ period_key
      ∷ " ("
      ∷ str_ℤ limit.credit_limit
      ∷ " credits)."
      ∷ [])
    ∷ enforcement_line target.kind s
    ∷ "Use Restore access to reverse this."
    ∷ [])

unfoldable pub restoration_title : EnforcementAction → String
unfolding concat
restoration_title a = elim a.kind [
  | remove_user_roles ↦ concat ("User " ∷ shown a.target_label ∷ " restored" ∷ [])
  | disable_auto_triage ↦
      concat ("Project " ∷ shown a.target_label ∷ ": Auto Triage re-enabled" ∷ [])
  | disable_pr_remediation ↦
      concat ("Project " ∷ shown a.target_label ∷ ": PR triage and remediation re-enabled" ∷ [])
]

-- The reasons of a restoration that the code writes.
abbrev pub exempted_reason : String
exempted_reason = "exempted"

unfoldable pub explanation : String → String
explanation reason =
    if str_eq reason "admin"
    then "An administrator restored access from the Notification Center."
    else if str_eq reason "period_rollover"
    then "A new budget period started, so the restriction was lifted."
    else if str_eq reason "limit_removed"
    then "The limit that caused this restriction was removed or disabled."
    else if str_eq reason "credit_increased"
    then "The credit limit was increased or consumption is within budget, so the restriction was lifted."
    else if str_eq reason exempted_reason
    then "An exemption was granted for this entity, so the restriction was lifted."
    else reason

unfoldable pub restoration_detail : EnforcementKind → UndoSnapshot → String
unfolding concat join joined_or_none
restoration_detail remove_user_roles s = elim (role_names s) [
  | [] ↦ "No roles needed re-adding."
  | n ∷ names ↦ concat ("Re-added roles: " ∷ join ", " (n ∷ names) ∷ [])
]
restoration_detail disable_auto_triage s =
    if or_else s.enabled_before false
    then "Auto Triage was restored to enabled with its previous configuration."
    else "Auto Triage was off before the restriction, so it was left off."
restoration_detail disable_pr_remediation s = concat (
    "PR remediation severities restored to: "
    ∷ joined_or_none (or_empty s.severities_before)
    ∷ "."
    ∷ [])

unfoldable pub restoration_body : EnforcementAction → UndoSnapshot → String → String
unfolding concat explanation restoration_detail
restoration_body a s reason = concat (explanation reason ∷ "\n" ∷ restoration_detail a.kind s ∷ [])

unfoldable pub reconciled_title : EnforcementAction → String
unfolding concat
reconciled_title a = elim a.kind [
  | remove_user_roles ↦ concat ("User " ∷ shown a.target_label ∷ ": AI roles re-removed" ∷ [])
  | disable_auto_triage ↦
      concat ("Project " ∷ shown a.target_label ∷ ": Auto Triage re-disabled" ∷ [])
  | disable_pr_remediation ↦
      concat ("Project " ∷ shown a.target_label ∷ ": PR triage and remediation re-disabled" ∷ [])
]

unfoldable pub reconciled_body : EnforcementAction → String
reconciled_body a = elim a.kind [
  | remove_user_roles ↦
      "The AI roles were found back on this user after they had been removed, so they were removed again."
  | disable_auto_triage ↦
      "Auto Triage was found enabled again after it had been disabled, so it was turned back off with its previous configuration preserved."
  | disable_pr_remediation ↦
      "PR triage and remediation severities were re-asserted to none, keeping the repository setting disabled."
]
