-- ===== src/Sensor/Rules.antt =====
-- services/agent_sensor/rules.py: the scope decision for one event. The class of the path
-- (`classify_path`) and the pattern test (`path_matches`) are given; a confidence is in hundredths,
-- and the sets of paths and surfaces are lists without repetition.
use decepti_forge.Base.{
  ℕ, ◌+◌, ◌/◌, max, String, Bool, true, false, not, ◌&&◌, ◌||◌, List, [], ◌∷◌, ◌++◌, Option, none,
  some, if◌then◌else◌, ltb, leb, str_mem, is_text, any, length,
}
use decepti_forge.Alerting.Types.{Severity, info, low, medium, high}

pub data EventType : Type 0 where
  session_started session_completed file_listed file_read file_modified file_created : EventType
  file_deleted search_performed command_requested tool_invoked mcp_resource_listed : EventType
  mcp_resource_read database_query_requested network_request_requested decoy_touched : EventType
  sensitive_path_accessed denied_action_attempted : EventType

pub data PathClass : Type 0 where
  task_relevant adjacent shared_dependency sensitive decoy generated build_output : PathClass
  credential deployment billing authentication customer_data unrelated : PathClass

pub data Violation : Type 0 where
  out_of_scope_path_access sensitive_file_access decoy_asset_touch : Violation
  excessive_repository_breadth unexpected_database_access unexpected_network_access : Violation
  unexpected_mcp_resource_access dependency_change_outside_scope : Violation
  repeated_sensitive_exploration destructive_action_attempt cross_repository_access : Violation
  unapproved_tool_use : Violation

-- `SENSITIVE_CLASSES`
abbrev pub is_sensitive : PathClass → Bool
is_sensitive sensitive = true
is_sensitive credential = true
is_sensitive deployment = true
is_sensitive billing = true
is_sensitive authentication = true
is_sensitive customer_data = true
is_sensitive _ = false

abbrev pub is_decoy : PathClass → Bool
is_decoy decoy = true
is_decoy _ = false

abbrev pub is_task_relevant : PathClass → Bool
is_task_relevant task_relevant = true
is_task_relevant _ = false

abbrev pub is_shared_dependency : PathClass → Bool
is_shared_dependency shared_dependency = true
is_shared_dependency _ = false

abbrev pub is_unrelated : PathClass → Bool
is_unrelated unrelated = true
is_unrelated _ = false

abbrev pub is_denied_action : EventType → Bool
is_denied_action denied_action_attempted = true
is_denied_action _ = false

abbrev pub is_deletion : EventType → Bool
is_deletion file_deleted = true
is_deletion _ = false

-- `_DB_EVENTS`, `_NET_EVENTS`, `_MCP_EVENTS` and `_MODIFY_EVENTS`
abbrev pub is_db_event : EventType → Bool
is_db_event database_query_requested = true
is_db_event _ = false

abbrev pub is_net_event : EventType → Bool
is_net_event network_request_requested = true
is_net_event _ = false

abbrev pub is_mcp_event : EventType → Bool
is_mcp_event mcp_resource_listed = true
is_mcp_event mcp_resource_read = true
is_mcp_event _ = false

abbrev pub is_modify_event : EventType → Bool
is_modify_event file_modified = true
is_modify_event file_created = true
is_modify_event file_deleted = true
is_modify_event _ = false

abbrev pub is_read : EventType → Bool
is_read file_read = true
is_read _ = false

-- `AgentScopePolicyDoc`
pub record Policy : Type 0 where
  pub denied_paths : List String
  pub allowed_tools : List String
  pub denied_tools : List String
  pub allowed_resource_types : List String
  pub maximum_file_reads : ℕ
  pub maximum_sensitive_reads : ℕ
  pub allow_dependency_changes : Bool
  pub allow_secret_file_access : Bool
  pub allow_database_access : Bool
  pub allow_network_access : Bool

-- `SessionAggregate`
pub record Aggregate : Type 0 where
  pub file_reads : ℕ
  pub sensitive_reads : ℕ
  pub unrelated_paths : List String
  pub violation_count : ℕ
  pub surfaces : List String
  pub modifications : Bool

-- The arguments of `evaluate`: the path is empty where there is none, and so are the tool and the
-- resource type, both in lower case.
pub record Activity : Type 0 where
  pub event_type : EventType
  pub path : String
  pub path_class : PathClass
  pub tool : String
  pub resource_type : String
  pub decoy_id : Option String

-- `ScopeDecision`
pub record Decision : Type 0 where
  pub violation : Option Violation
  pub class : PathClass
  pub severity : Severity
  pub confidence : ℕ
  pub rule : String
  pub decoy_contact : Option String

-- `set.add`
abbrev pub add : String → List String → List String
add s set = if str_mem s set then set else set ++ s ∷ []

abbrev pub decide : Option Violation → PathClass → Severity → ℕ → String → Decision
decide v c sev confidence rule = record {
  violation = v;
  class = c;
  severity = sev;
  confidence = confidence;
  rule = rule;
  decoy_contact = none;
}

-- `agg.violation_count += 1` and a decision.
abbrev pub violate :
    Violation → PathClass → Severity → ℕ → String → Aggregate → Decision × Aggregate
violate v c sev confidence rule g =
    (decide (some v) c sev confidence rule, record g { violation_count = g.violation_count + 1 })

abbrev pub is_some : Option String → Bool
is_some none = false
is_some (some s) = true

-- Whether a list of the policy has entries.
abbrev pub is_given : List String → Bool
is_given [] = false
is_given (s ∷ ss) = true

module _ (path_matches : String → String → Bool) (p : Policy) (a : Activity) where
  -- Rule 8, and what is in scope.
  unfoldable pub breadth : Aggregate → Decision × Aggregate
  breadth g =
      let g₁ = if is_read a.event_type then record g { file_reads = g.file_reads + 1 } else g in
      let g₂ = record g₁ { unrelated_paths = add a.path g₁.unrelated_paths } in
      if is_unrelated a.path_class && is_text a.path
      then (if ltb (max 5 (p.maximum_file_reads / 4)) (length g₂.unrelated_paths)
          then violate excessive_repository_breadth a.path_class medium 75 "excessive_breadth" g₂
          else violate out_of_scope_path_access a.path_class low 60 "out_of_scope_path" g₂)
      else (if ltb p.maximum_file_reads g₁.file_reads
          then violate excessive_repository_breadth a.path_class medium 70 "max_file_reads" g₁
          else (
            decide none a.path_class info 100 "in_scope",
            if is_modify_event a.event_type then record g₁ { modifications = true } else g₁,
          ))

  -- Rule 7
  unfoldable pub dependency_change : Aggregate → Decision × Aggregate
  unfolding breadth
  dependency_change g =
      if is_modify_event a.event_type
        && is_shared_dependency a.path_class
        && not p.allow_dependency_changes
      then violate dependency_change_outside_scope a.path_class medium 80 "dependency_change"
          (record g { modifications = true })
      else breadth g

  -- Rule 6
  unfoldable pub sensitive_access : Aggregate → Decision × Aggregate
  unfolding dependency_change
  sensitive_access g =
      let g' = record g { sensitive_reads = g.sensitive_reads + 1 } in
      if is_sensitive a.path_class && not p.allow_secret_file_access
      then (if ltb p.maximum_sensitive_reads g'.sensitive_reads
          then (if leb 2 g'.sensitive_reads
              then violate repeated_sensitive_exploration a.path_class high 85 "sensitive_over_cap"
                  g'
              else violate sensitive_file_access a.path_class medium 85 "sensitive_over_cap" g')
          else dependency_change g')
      else dependency_change g

  -- Rule 5
  unfoldable pub cross_surface : Aggregate → Decision × Aggregate
  unfolding sensitive_access
  cross_surface g =
      if is_db_event a.event_type && not p.allow_database_access
      then violate unexpected_database_access a.path_class high 85 "database_not_allowed"
          (record g { surfaces = add "database" g.surfaces })
      else (if is_net_event a.event_type && not p.allow_network_access
          then violate unexpected_network_access a.path_class high 85 "network_not_allowed"
              (record g { surfaces = add "network" g.surfaces })
          else (if is_mcp_event a.event_type
                && is_given p.allowed_resource_types
                && not (str_mem a.resource_type p.allowed_resource_types)
              then violate unexpected_mcp_resource_access a.path_class medium 80
                  "mcp_resource_not_allowed" (record g { surfaces = add "mcp" g.surfaces })
              else sensitive_access g))

  -- Rules 3 and 4
  unfoldable pub tools_and_paths : Aggregate → Decision × Aggregate
  unfolding cross_surface
  tools_and_paths g =
      if is_text a.tool && is_given p.denied_tools && str_mem a.tool p.denied_tools
      then violate unapproved_tool_use a.path_class medium 90 "denied_tool" g
      else (if is_text a.tool && is_given p.allowed_tools && not (str_mem a.tool p.allowed_tools)
          then violate unapproved_tool_use a.path_class low 70 "tool_not_allowlisted" g
          else (if is_text a.path && any (λ d. path_matches d a.path) p.denied_paths
              then violate out_of_scope_path_access a.path_class high 90 "denied_path" g
              else cross_surface g))

  -- `evaluate`, from the class of the path on: rules 1 and 2 first.
  unfoldable pub evaluate : Aggregate → Decision × Aggregate
  unfolding tools_and_paths
  evaluate g =
      if is_some a.decoy_id || is_decoy a.path_class
      then (
        record (decide (some decoy_asset_touch) decoy high 95 "decoy_contact") {
          decoy_contact = a.decoy_id;
        },
        record g {
          violation_count = g.violation_count + 1;
          surfaces = add "repository" g.surfaces;
        },
      )
      else (if is_denied_action a.event_type
          then violate destructive_action_attempt a.path_class high 90 "denied_action" g
          else (if is_deletion a.event_type && not (is_task_relevant a.path_class)
              then violate destructive_action_attempt a.path_class high 85 "destructive_delete"
                  (record g { modifications = true })
              else tools_and_paths g))
