-- ===== src/Mcp/ToolAccess.antt =====
-- src/depthfusion/mcp/authz.py: the capability that each tool requires, and its enforcement.
pub mod Enforcement
use depthfusion.Authz.Principals.{Principal}
use depthfusion.Authz.Engine.{decide_cached, Reads, Resource}
use depthfusion.Authz.Roles.{
  manage_settings, view_audit_log, write_own_records, read_own_records, Capability,
}
use depthfusion.Common.{String_eq, not, if◌then◌else◌, none, [], ◌∷◌, some, Option, String}
use depthfusion.Common.Dict.{lookup, Dict}
use depthfusion.Authz.DecisionCache.{Reason, DecisionCache}

-- `TOOL_CAPABILITIES`
unfoldable pub tool_capabilities : Dict String Capability
tool_capabilities =
    ("depthfusion_status", read_own_records)
    ∷ ("depthfusion_list_providers", read_own_records)
    ∷ ("depthfusion_recall_relevant", read_own_records)
    ∷ ("depthfusion_retrieve_context", read_own_records)
    ∷ ("depthfusion_session_seed", read_own_records)
    ∷ ("depthfusion_graph_traverse", read_own_records)
    ∷ ("depthfusion_graph_status", read_own_records)
    ∷ ("depthfusion_tag_session", write_own_records)
    ∷ ("depthfusion_publish_context", write_own_records)
    ∷ ("depthfusion_auto_learn", write_own_records)
    ∷ ("depthfusion_compress_session", write_own_records)
    ∷ ("depthfusion_confirm_discovery", write_own_records)
    ∷ ("depthfusion_set_memory_score", write_own_records)
    ∷ ("depthfusion_recall_feedback", write_own_records)
    ∷ ("depthfusion_pin_discovery", write_own_records)
    ∷ ("depthfusion_ingest_conversation", write_own_records)
    ∷ ("depthfusion_session_checkpoint", write_own_records)
    ∷ ("depthfusion_record_decision", write_own_records)
    ∷ ("depthfusion_record_incident", write_own_records)
    ∷ ("depthfusion_mark_superseded", write_own_records)
    ∷ ("depthfusion_report_outcome", write_own_records)
    ∷ ("depthfusion_set_scope", write_own_records)
    ∷ ("depthfusion_record_telemetry", write_own_records)
    ∷ ("depthfusion_query_telemetry", view_audit_log)
    ∷ ("depthfusion_register_project", manage_settings)
    ∷ ("depthfusion_list_projects", read_own_records)
    ∷ ("depthfusion_sync_project", manage_settings)
    ∷ ("depthfusion_ingest_project", manage_settings)
    ∷ ("depthfusion_research_topic", write_own_records)
    ∷ ("depthfusion_bridge", write_own_records)
    ∷ ("depthfusion_recommend_model", read_own_records)
    ∷ ("depthfusion_describe_capabilities", read_own_records)
    ∷ []

-- `AuthorizationError` and `ValueError`
pub data AccessError : Type 0 where
  unauthenticated : AccessError
  unannotated : String → AccessError
  forbidden : String → Reason → AccessError

-- `{"acl_allow": _open_acl_for(principal.principal_id)}`
abbrev pub open_resource : String → Resource
open_resource principal_id = record { acl_allow = some (principal_id ∷ []); classification = none }

-- The engine's new cache, and `none` where `check_tool_access` returns.
unfoldable pub check_tool_access :
    DecisionCache → String → Option Principal → Reads → DecisionCache × Option AccessError
check_tool_access cache tool_name none reads = (cache, some unauthenticated)
check_tool_access cache tool_name (some principal) reads =
    elim (lookup tool_name tool_capabilities) [
      | none ↦ (cache, some (unannotated tool_name))
      | some required ↦
          let (cache', decision) =
            decide_cached cache principal required (open_resource principal.principal_id) reads in
          (
            cache',
            if not decision.allow
                then some (forbidden principal.principal_id decision.reason)
                else none,
          )
    ]
