-- ===== src/Tests/AccessCases.antt =====
-- Accesses, roles and tool calls.
use depthfusion.Common.Enum.{member_of}
use depthfusion.Authz.Principals.{capabilities_of_groups, capabilities_for_principal}
use depthfusion.Authz.Roles.{
  capability_value, capability_beq, role_capabilities, role_of, read_own_records,
}
use depthfusion.Mcp.ToolAccess.{check_tool_access}
use depthfusion.Tests.Samples.{unlabelled_note, reads_at, note, empty_cache, alice}
use depthfusion.Common.{
  any, refl, String_eq, arith, false, ◌↔◌, none, true, ◌≡◌, eq_iff, some, String, Option, ◌≢◌,
  contains,
}
use depthfusion.Authz.Engine.{
  overrides, has_role, check_classification, decide_cached, evaluate_with, evaluate,
}
use depthfusion.Common.Dict.{lookup}
use depthfusion.Authz.Classification.{
  level_value, level_of, get_handling_rules, allowed_role_values, role_value,
}
use depthfusion.Authz.Engine.Access.{IsPermitted, evaluate-allow_iff}
use depthfusion.Authz.Engine.Cached.{IsSound, decide_cached-evaluate}
use depthfusion.Mcp.ToolAccess.Enforcement.{MayCall, check_tool_access_iff}
use depthfusion.Authz.Engine.EmptyLabel.{empty_label, decide_cached-empty_label}

internal-nonempty : ◌≢◌ {A = Option String} (some "internal") (some "")
internal-nonempty e = absurd (cc ((eq_iff "internal" "").1 (cc e)))

evaluate-allow_iff_example :
    ((evaluate alice read_own_records note).allow ≡ true) ↔ IsPermitted alice read_own_records note
evaluate-allow_iff_example = evaluate-allow_iff alice read_own_records note

decide_cached-evaluate_example :
    ((decide_cached empty_cache alice read_own_records note (reads_at 10)).1
      ≡ evaluate alice read_own_records note)
    × IsSound (decide_cached empty_cache alice read_own_records note (reads_at 10)).0
unfolding lookup
decide_cached-evaluate_example =
    decide_cached-evaluate empty_cache alice read_own_records note (reads_at 10)
      (λ k v e. absurd (cc)) internal-nonempty

check_tool_access_iff_example :
    (((check_tool_access empty_cache "depthfusion_status" (some alice) (reads_at 10)).1 ≡ none)
      ↔ MayCall "depthfusion_status" (some alice))
    × IsSound (check_tool_access empty_cache "depthfusion_status" (some alice) (reads_at 10)).0
unfolding lookup
check_tool_access_iff_example =
    check_tool_access_iff empty_cache "depthfusion_status" (some alice) (reads_at 10)
      (λ k v e. absurd (cc))

decide_cached-empty_label_example :
    ((decide_cached
        (decide_cached empty_cache alice read_own_records unlabelled_note (reads_at 10)).0
        alice
        read_own_records
        (empty_label unlabelled_note)
        (reads_at 20)).1.allow
      ≡ true)
    × ((evaluate alice read_own_records (empty_label unlabelled_note)).allow ≡ false)
unfolding evaluate evaluate_with capabilities_for_principal capabilities_of_groups role_of member_of
    role_value role_capabilities contains capability_beq capability_value check_classification
    level_of level_value has_role allowed_role_values get_handling_rules any overrides lookup
    depthfusion.Authz.Roles.role_value
decide_cached-empty_label_example =
    decide_cached-empty_label empty_cache alice read_own_records unlabelled_note (reads_at 10)
      (reads_at 20) refl refl refl (omega arith)
