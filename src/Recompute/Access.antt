-- ===== src/Recompute/Access.antt =====
-- Who may do what in a workspace (packages/domain/src/workspace-policy.ts).
use byok_grid.Common.{Bool, true, false}

pub data WorkspaceRole : Type 0 where
  admin member owner : WorkspaceRole

pub data WorkspacePermission : Type 0 where
  connectors_manage credentials_manage data_read data_write : WorkspacePermission
  members_invite members_manage schema_manage workspace_manage : WorkspacePermission

-- `rolePermissions[role].has(permission)`
unfoldable pub has_workspace_permission : WorkspaceRole → WorkspacePermission → Bool
has_workspace_permission owner permission = true
has_workspace_permission admin workspace_manage = false
has_workspace_permission admin _ = true
has_workspace_permission member data_read = true
has_workspace_permission member data_write = true
has_workspace_permission member _ = false
