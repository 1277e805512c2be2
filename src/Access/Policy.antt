-- ===== src/Access/Policy.antt =====
-- src/server/auth/authorization.ts: roles against capabilities.
use concord_dev.Base.{ℕ, ◌≤◌, ◌≡◌, ◌↔◌, true, some, arith, Option, Bool, false, none}
use concord_dev.Access.{
  EffectiveRole, Capability, owner, editor, commenter, viewer, role_has_capability,
  resolve_effective_role, Actor,
}
use concord_dev.Access.{
  grants_editor, grants_commenter, grants_viewer, DocumentRole, read, edit_content, rename, delete,
  manage_permissions, comment,
}
use concord_dev.Base.Text.{Text, text_eq}

-- OWNER over EDITOR over COMMENTER over VIEWER.
abbrev pub rank : EffectiveRole → ℕ
rank owner = 3
rank editor = 2
rank commenter = 1
rank viewer = 0

abbrev pub least_role : Capability → EffectiveRole
least_role read = viewer
least_role edit_content = editor
least_role rename = editor
least_role delete = owner
least_role manage_permissions = owner
least_role comment = commenter

-- A role grants a capability exactly when it stands at least as high as the least role that does.
pub role_has_capability_iff :
    (role : EffectiveRole) (capability : Capability)
    → (role_has_capability (some role) capability ≡ true)
      ↔ (rank (least_role capability) ≤ rank role)
role_has_capability_iff owner read = ground arith
role_has_capability_iff owner edit_content = ground arith
role_has_capability_iff owner rename = ground arith
role_has_capability_iff owner delete = ground arith
role_has_capability_iff owner manage_permissions = ground arith
role_has_capability_iff owner comment = ground arith
role_has_capability_iff editor read = ground arith
role_has_capability_iff editor edit_content = ground arith
role_has_capability_iff editor rename = ground arith
role_has_capability_iff editor delete = ground arith
role_has_capability_iff editor manage_permissions = ground arith
role_has_capability_iff editor comment = ground arith
role_has_capability_iff commenter read = ground arith
role_has_capability_iff commenter edit_content = ground arith
role_has_capability_iff commenter rename = ground arith
role_has_capability_iff commenter delete = ground arith
role_has_capability_iff commenter manage_permissions = ground arith
role_has_capability_iff commenter comment = ground arith
role_has_capability_iff viewer read = ground arith
role_has_capability_iff viewer edit_content = ground arith
role_has_capability_iff viewer rename = ground arith
role_has_capability_iff viewer delete = ground arith
role_has_capability_iff viewer manage_permissions = ground arith
role_has_capability_iff viewer comment = ground arith

abbrev pub is_some : Option DocumentRole → Bool
is_some none = false
is_some (some role) = true

-- Only the owner may delete a document or manage its permissions, whatever grant or organization
-- the actor has.
pub resolve_effective_role-owner_iff :
    (actor : Actor) (owner_user_id : Text) (organization_id : Option Text)
    (direct_role : Option DocumentRole) (capability : Capability)
    → least_role capability ≡ owner
    → (role_has_capability
          (resolve_effective_role actor owner_user_id organization_id direct_role)
          capability
        ≡ true)
      ↔ (text_eq owner_user_id actor.user_id ≡ true)
unfolding resolve_effective_role
resolve_effective_role-owner_iff actor owner_user_id organization_id direct_role read h =
    absurd (ground (arith, h))
resolve_effective_role-owner_iff actor owner_user_id organization_id direct_role edit_content h =
    absurd (ground (arith, h))
resolve_effective_role-owner_iff actor owner_user_id organization_id direct_role rename h =
    absurd (ground (arith, h))
resolve_effective_role-owner_iff actor owner_user_id organization_id direct_role comment h =
    absurd (ground (arith, h))
resolve_effective_role-owner_iff actor owner_user_id organization_id none delete h = ground arith
resolve_effective_role-owner_iff actor owner_user_id organization_id (some grants_editor) delete h =
    ground arith
resolve_effective_role-owner_iff actor owner_user_id organization_id (some grants_commenter) delete
      h =
    ground arith
resolve_effective_role-owner_iff actor owner_user_id organization_id (some grants_viewer) delete h =
    ground arith
resolve_effective_role-owner_iff actor owner_user_id organization_id none manage_permissions h =
    ground arith
resolve_effective_role-owner_iff actor owner_user_id organization_id (some grants_editor)
      manage_permissions h =
    ground arith
resolve_effective_role-owner_iff actor owner_user_id organization_id (some grants_commenter)
      manage_permissions h =
    ground arith
resolve_effective_role-owner_iff actor owner_user_id organization_id (some grants_viewer)
      manage_permissions h =
    ground arith
