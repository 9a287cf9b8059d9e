-- ===== src/Access/Catalog.antt =====
-- services/api_keys.py: the catalog of permissions and the scopes of each role. A set of scopes is the
-- list of its members.
use decepti_forge.Base.{
  String, Bool, not, ◌||◌, List, [], ◌∷◌, ◌++◌, Option, none, some, if◌then◌else◌, str_eq, str_mem,
  select,
}

-- `PERMISSIONS`
abbrev pub permissions : List String
permissions =
    "repositories:read" ∷ "repositories:write" ∷ "placements:read" ∷ "placements:write"
    ∷ "decoys:read" ∷ "decoys:write" ∷ "validation:read" ∷ "validation:write" ∷ "monitoring:read"
    ∷ "monitoring:ingest" ∷ "alerts:read" ∷ "alerts:write" ∷ "incidents:read" ∷ "incidents:write"
    ∷ "narratives:read" ∷ "narratives:write" ∷ "demo:run" ∷ "decoy_deployments:read"
    ∷ "decoy_deployments:create" ∷ "decoy_deployments:approve" ∷ "decoy_deployments:execute"
    ∷ "decoy_deployments:retire" ∷ "decoy_deployments:rollback" ∷ "database_connectors:read"
    ∷ "database_connectors:manage" ∷ "database_schema:read" ∷ "database_honey:read"
    ∷ "database_honey:create" ∷ "database_honey:approve" ∷ "database_honey:deploy"
    ∷ "database_honey:retire" ∷ "database_honey:rollback" ∷ "ai_tripwire_connectors:read"
    ∷ "ai_tripwire_connectors:manage" ∷ "ai_tripwires:read" ∷ "ai_tripwires:create"
    ∷ "ai_tripwires:approve" ∷ "ai_tripwires:deploy" ∷ "ai_tripwires:retire" ∷ "ai_tripwires:ingest"
    ∷ "browser_sensors:read" ∷ "browser_sensors:manage" ∷ "browser_policy:read"
    ∷ "browser_policy:manage" ∷ "browser_events:ingest" ∷ "browser_events:read"
    ∷ "agent_sensors:read" ∷ "agent_sensors:manage" ∷ "agent_sessions:read"
    ∷ "agent_sessions:create" ∷ "agent_events:ingest" ∷ "agent_policies:read"
    ∷ "agent_policies:manage" ∷ "agent_violations:read" ∷ "coverage:read" ∷ "coverage:recalculate"
    ∷ "coverage:manage_policy" ∷ "coverage:export" ∷ "integrations:read" ∷ "integrations:manage"
    ∷ "integrations:test" ∷ "integrations:deliveries:read" ∷ "integrations:deliveries:retry"
    ∷ "incidents:export" ∷ "alerts:export" ∷ "usage:read" ∷ "limits:read" ∷ "onboarding:read"
    ∷ "onboarding:manage" ∷ "onboarding:run_detection_test" ∷ "onboarding:accept_recommendation"
    ∷ "onboarding:view_activation_metrics" ∷ "analysis:preview" ∷ "learning:read"
    ∷ "learning:feedback" ∷ "learning:calibrate" ∷ "learning:review" ∷ "learning:approve"
    ∷ "learning:activate" ∷ "learning:rollback" ∷ "admin:manage_keys" ∷ "admin:manage_monitors"
    ∷ "admin:read_audit" ∷ []

-- `PLATFORM_PERMISSIONS`
abbrev pub platform_permissions : List String
platform_permissions =
    "capacity:read" ∷ "capacity:manage" ∷ "performance_runs:read" ∷ "performance_runs:execute"
    ∷ "learning:manage_global" ∷ "platform:reliability" ∷ "platform:failover" ∷ "platform:failback"
    ∷ "platform:capacity" ∷ "platform:learning_global" ∷ "platform:organization_admin"
    ∷ "reliability:read" ∷ "backups:read" ∷ "restore_drills:run" ∷ "failover:request"
    ∷ "failover:approve" ∷ "failback:manage" ∷ "reliability_policy:manage"
    ∷ "organization_limits:manage" ∷ []

-- `JUDGE_PERMISSIONS`
abbrev pub judge_permissions : List String
judge_permissions =
    "judge:workspace" ∷ "judge:analyze" ∷ "judge:interact" ∷ "judge:export" ∷ "judge:reset" ∷ []

-- `_JUDGE_READS`
abbrev pub judge_reads : List String
judge_reads =
    "repositories:read" ∷ "placements:read" ∷ "decoys:read" ∷ "validation:read" ∷ "monitoring:read"
    ∷ "alerts:read" ∷ "incidents:read" ∷ "narratives:read" ∷ []

-- `TENANT_GRANTABLE_ROLES`
abbrev pub tenant_grantable_roles : List String
tenant_grantable_roles = "viewer" ∷ "analyst" ∷ "admin" ∷ "owner" ∷ "service" ∷ []

-- `PLATFORM_ROLES`
abbrev pub platform_roles : List String
platform_roles = "operator" ∷ []

-- `_LEARNING_APPROVAL`
abbrev pub learning_approval : List String
learning_approval = "learning:approve" ∷ "learning:activate" ∷ []

-- `text.endswith(suffix)`
abbrev pub ends_with : (text suffix : String) → Bool
ends_with String.[] suffix = str_eq "" suffix
ends_with (String.◌∷◌ c s) suffix = str_eq (String.◌∷◌ c s) suffix || ends_with s suffix

-- `_READS`
abbrev pub reads : List String
reads = select (λ (p : String). ends_with p ":read") permissions

-- `ROLE_SCOPES`
abbrev pub admin_scopes : List String
admin_scopes = select (λ (p : String). not (str_mem p learning_approval)) permissions

abbrev pub analyst_scopes : List String
analyst_scopes =
    reads
    ++ "narratives:write" ∷ "incidents:write" ∷ "alerts:write" ∷ "demo:run"
      ∷ "decoy_deployments:create" ∷ "database_honey:create" ∷ "ai_tripwires:create"
      ∷ "agent_sessions:create" ∷ "incidents:export" ∷ "alerts:export" ∷ "coverage:export"
      ∷ "analysis:preview" ∷ "learning:feedback" ∷ []

abbrev pub viewer_scopes : List String
viewer_scopes = reads ++ "analysis:preview" ∷ []

abbrev pub service_scopes : List String
service_scopes =
    "monitoring:read" ∷ "monitoring:ingest" ∷ "decoy_deployments:read" ∷ "decoy_deployments:execute"
    ∷ "database_honey:read" ∷ "database_honey:deploy" ∷ "ai_tripwires:read" ∷ "ai_tripwires:deploy"
    ∷ "ai_tripwires:ingest" ∷ "coverage:read" ∷ "coverage:recalculate" ∷ "integrations:read"
    ∷ "integrations:deliveries:read" ∷ "integrations:deliveries:retry" ∷ []

abbrev pub browser_sensor_scopes : List String
browser_sensor_scopes = "browser_policy:read" ∷ "browser_events:ingest" ∷ []

abbrev pub agent_sensor_scopes : List String
agent_sensor_scopes = "agent_sessions:create" ∷ "agent_policies:read" ∷ "agent_events:ingest" ∷ []

abbrev pub demo_scopes : List String
demo_scopes =
    "demo:run" ∷ "repositories:read" ∷ "placements:read" ∷ "decoys:read" ∷ "validation:read"
    ∷ "monitoring:read" ∷ "alerts:read" ∷ "incidents:read" ∷ "narratives:read" ∷ []

abbrev pub judge_scopes : List String
judge_scopes = judge_permissions ++ judge_reads

-- `ROLE_SCOPES.get(role)`
unfoldable pub role_scopes : (role : String) → Option (List String)
role_scopes role =
    if str_eq role "owner"
    then some permissions
    else if str_eq role "admin"
    then some admin_scopes
    else if str_eq role "analyst"
    then some analyst_scopes
    else if str_eq role "viewer"
    then some viewer_scopes
    else if str_eq role "service"
    then some service_scopes
    else if str_eq role "browser_sensor"
    then some browser_sensor_scopes
    else if str_eq role "agent_sensor"
    then some agent_sensor_scopes
    else if str_eq role "demo"
    then some demo_scopes
    else if str_eq role "judge"
    then some judge_scopes
    else if str_eq role "operator"
    then some platform_permissions
    else none
