-- ===== src/Access.antt =====
-- src/server/auth/authorization.ts, errors.ts and result.ts: roles, capabilities, and what the
-- client is told of an error.
pub mod Policy
use concord_dev.Base.{
  ℕ, zero, suc, ◌+◌, ◌*◌, ◌-◌, ◌^◌, ◌≤◌, ◌<◌, ◌≡◌, ◌≢◌, ◌↔◌, ◌⊎◌, inl, inr, refl, sym, ap, ◌∙◌,
  Bool, true, false, not, ◌&&◌, ◌||◌, Option, none, some, List, [], ◌∷◌, ◌++◌, arith, ltb, leb,
  length, if◌then◌else◌, Bool-cases, Option-cases,
}
use concord_dev.Base.Text.{Text, text_eq}
use Prim.Native.String.{String}

pub data EffectiveRole : Type 0 where
  owner editor commenter viewer : EffectiveRole

-- DocumentRole, what the table of grants can hold: never OWNER.
pub data DocumentRole : Type 0 where
  grants_editor grants_commenter grants_viewer : DocumentRole

abbrev pub of_grant : DocumentRole → EffectiveRole
of_grant grants_editor = editor
of_grant grants_commenter = commenter
of_grant grants_viewer = viewer

pub data Capability : Type 0 where
  read edit_content rename delete manage_permissions comment : Capability

abbrev pub capabilities : Capability → List EffectiveRole
capabilities read = owner ∷ editor ∷ commenter ∷ viewer ∷ []
capabilities edit_content = owner ∷ editor ∷ []
capabilities rename = owner ∷ editor ∷ []
capabilities delete = owner ∷ []
capabilities manage_permissions = owner ∷ []
capabilities comment = owner ∷ editor ∷ commenter ∷ []

abbrev pub same_role : EffectiveRole → EffectiveRole → Bool
same_role owner owner = true
same_role editor editor = true
same_role commenter commenter = true
same_role viewer viewer = true
same_role _ _ = false

abbrev pub includes : EffectiveRole → List EffectiveRole → Bool
includes role [] = false
includes role (r ∷ rs) = same_role r role || includes role rs

-- The members of ActorContext that the policy reads; `organization` is the id of the verified one.
pub record Actor : Type 0 where
  pub user_id : Text
  pub organization : Option Text

abbrev pub same_organization : Option Text → Option Text → Bool
same_organization (some a) (some b) = text_eq a b
same_organization _ _ = false

unfoldable pub resolve_effective_role :
    Actor → Text → Option Text → Option DocumentRole → Option EffectiveRole
resolve_effective_role actor owner_user_id organization_id direct_role =
    if text_eq owner_user_id actor.user_id then some owner else elim direct_role [
      | some role ↦ some (of_grant role)
      | none ↦ if same_organization organization_id actor.organization then some editor else none
    ]

abbrev pub role_has_capability : Option EffectiveRole → Capability → Bool
role_has_capability none capability = false
role_has_capability (some role) capability = includes role (capabilities capability)

-- The classes of DomainError with their message, and any other error.
pub data ServerError : Type 0 where
  unauthenticated not_found forbidden conflict validation dependency : String → ServerError
  other_error : ServerError

pub data Outcome {ℓ} (A : Type ℓ) : Type ℓ where
  returns : A → Outcome A
  throws : ServerError → Outcome A

pub data ActionErrorType : Type 0 where
  type_unauthenticated type_not_found type_forbidden type_conflict : ActionErrorType
  type_validation type_dependency type_unknown : ActionErrorType

abbrev pub user_safe_message : ActionErrorType → String
user_safe_message type_unauthenticated = "You must be signed in."
user_safe_message type_not_found = "Document not found."
user_safe_message type_forbidden = "You do not have permission to do that."
user_safe_message type_conflict = "Document was modified in another tab. Reload to continue."
user_safe_message type_validation = "That input is not valid."
user_safe_message type_dependency = "The database is unavailable. Try again shortly."
user_safe_message type_unknown = "Something went wrong."

abbrev pub error_type : ServerError → ActionErrorType
error_type (unauthenticated message) = type_unauthenticated
error_type (not_found message) = type_not_found
error_type (forbidden message) = type_forbidden
error_type (conflict message) = type_conflict
error_type (validation message) = type_validation
error_type (dependency message) = type_dependency
error_type other_error = type_unknown

abbrev pub to_action_error : ServerError → ActionErrorType × String
to_action_error error = (error_type error, user_safe_message (error_type error))
