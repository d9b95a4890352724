-- ===== src/Mcp/ToolAccess/Enforcement.antt =====
-- The tools that a principal can call.
use depthfusion.Authz.Engine.Access.{evaluate-allow_iff}
use depthfusion.Authz.Principals.Grants.{IsGranted}
use depthfusion.Common.Dict.{lookup}
use depthfusion.Authz.Roles.{Capability}
use depthfusion.Authz.Engine.Cached.{decide_cached-evaluate, IsSound}
use depthfusion.Mcp.ToolAccess.{
  AccessError, unannotated, tool_capabilities, check_tool_access, open_resource,
}
use depthfusion.Authz.Engine.{decide_cached, evaluate, Reads, acl_of}
use depthfusion.Authz.Principals.{Principal}
use depthfusion.Common.{
  refl, subst₂, ◌∙◌, sym, subst, ap, inr, inl, Option-cases, some, String_eq, ◌↔◌, beq_refl, none,
  arith, true, ◌≡◌, Option, String, contains,
}
use depthfusion.Authz.DecisionCache.{PolicyDecision, DecisionCache}

open_resource-listed :
    (p : Principal) → contains p.principal_id (acl_of (open_resource p.principal_id)) ≡ true
unfolding contains
open_resource-listed p = ground (arith, beq_refl p.principal_id)

allowed_iff :
    (p : Principal) (c : Capability)
    → ((evaluate p c (open_resource p.principal_id)).allow ≡ true) ↔ IsGranted p c
allowed_iff p c = (
  λ h. ((evaluate-allow_iff p c (open_resource p.principal_id)).0 h).held,
  λ g.
      (evaluate-allow_iff p c (open_resource p.principal_id)).1
        (record { held = g; reachable = inl (open_resource-listed p); cleared = tt }),
)

annotated_call :
    (cache : DecisionCache) (tool : String) (p : Principal) (reads : Reads) (c : Capability)
    → lookup tool tool_capabilities ≡ some c
    → let decided = decide_cached cache p c (open_resource p.principal_id) reads in
      ((check_tool_access cache tool (some p) reads).0 ≡ decided.0)
      × (((check_tool_access cache tool (some p) reads).1 ≡ none) ↔ (decided.1.allow ≡ true))
unfolding check_tool_access
annotated_call cache tool p reads c found = (ground arith, (λ h. ground arith, λ h. ground arith))

unannotated_call :
    (cache : DecisionCache) (tool : String) (p : Principal) (reads : Reads)
    → lookup tool tool_capabilities ≡ none
    → check_tool_access cache tool (some p) reads ≡ (cache, some (unannotated tool))
unfolding check_tool_access
unannotated_call cache tool p reads absent = ground arith

-- The principal of a session may call the tool.
pub record MayCall (tool : String) (who : Option Principal) : Type 0 where
  pub principal : Principal
  pub bound : who ≡ some principal
  pub required : Capability
  pub annotated : lookup tool tool_capabilities ≡ some required
  pub granted : IsGranted principal required

-- A call passes exactly if a principal is bound to the session, the tool is annotated and one of
-- the principal's roles grants the annotated capability. The engine's cache is sound, and stays
-- so.
pub check_tool_access_iff :
    (cache : DecisionCache) (tool : String) (who : Option Principal) (reads : Reads)
    → IsSound cache
    → (((check_tool_access cache tool who reads).1 ≡ none) ↔ MayCall tool who)
      × IsSound (check_tool_access cache tool who reads).0
check_tool_access_iff cache tool none reads sound =
    unfold check_tool_access in ((λ h. absurd (cc), λ m. absurd (cc (m.bound))), sound)
check_tool_access_iff cache tool (some p) reads sound =
    elim (Option-cases (lookup tool tool_capabilities)) [
      | inl absent ↦
          let refused = unannotated_call cache tool p reads absent in
          (
            (
              λ h. absurd (cc (ap (λ (x : DecisionCache × Option AccessError). x.1) refused)),
              λ m. absurd (cc (m.annotated)),
            ),
            subst (λ (x : DecisionCache × Option AccessError). IsSound x.0) (sym refused) sound,
          )
      | inr (c, found) ↦
          let (same, kept) =
            decide_cached-evaluate cache p c (open_resource p.principal_id) reads sound (λ e. cc) in
          let (state, passes) = annotated_call cache tool p reads c found in
          (
            (
              λ h. record {
                principal = p;
                bound = refl;
                required = c;
                annotated = found;
                granted =
                    (allowed_iff p c).0
                      (ap (λ (d : PolicyDecision). d.allow) (sym same) ∙ passes.0 h);
              },
              λ m. passes.1 (
                  ap (λ (d : PolicyDecision). d.allow) same
                  ∙ (allowed_iff p c).1
                      (subst₂ IsGranted (cc (m.bound)) (cc (m.annotated, found)) m.granted)),
            ),
            subst IsSound (sym state) kept,
          )
    ]
