-- ===== src/Events/History/Served.antt =====
-- What `query_checkpoints` of src/depthfusion/api/query.py serves, and to whom.
use depthfusion.Common.Dict.{lookup-del, lookup}
use depthfusion.Events.Checkpoints.Listing.{list_checkpoints_page, IsStored}
use depthfusion.Common.Texts.{codes, Chars}
use depthfusion.Events.History.{
  is_outside, principal_project_scope, checkpoint_wire_dict, scope_permits, Reader,
  query_checkpoints,
}
use depthfusion.Events.Records.{CheckpointRecord}
use depthfusion.Events.Checkpoints.{list_checkpoints, CheckpointFiles}
use depthfusion.Common.{
  ◌∙◌, IsIn-select, list_beq_iff, length-select-le, select, Bool-cases, refl, none, [], inr, suc,
  true, ap, inl, ◌∷◌, arith, ◌≤◌, ◌≡◌, map, IsIn, length, Option, List, ℕ, String_eq, ℕ_eq, List_eq,
}

IsIn-map :
    (f : CheckpointRecord → CheckpointRecord) (r : CheckpointRecord)
    (records : List CheckpointRecord)
    → IsIn r (map f records)
    → (s : CheckpointRecord) × IsIn s records × (r ≡ f s)
IsIn-map f r [] m = absurd (ground (arith, m))
IsIn-map f r (s ∷ records) (inl eq) = (s, inl refl, eq)
IsIn-map f r (s ∷ records) (inr m) = let (t, at, eq) = IsIn-map f r records m in (t, inr at, eq)

-- A checkpoint that may be served: one that a readable file holds, of a project in the principal's
-- scope
pub record IsServed (files : CheckpointFiles) (project_slug : Option Chars)
    (principal : Option Reader) (r : CheckpointRecord) : Type 0 where
  pub stored : IsStored files project_slug r
  pub permitted : scope_permits (principal_project_scope principal) r.project_slug ≡ true

length-map :
    (f : CheckpointRecord → CheckpointRecord) (records : List CheckpointRecord)
    → length (map f records) ≡ length records
length-map f [] = refl
length-map f (r ∷ records) = ap suc (length-map f records)

wire_diffs :
    (r : CheckpointRecord) → lookup (codes "diffs") (checkpoint_wire_dict r).metadata ≡ none
unfolding checkpoint_wire_dict
wire_diffs r = ground (
  arith,
  lookup-del (codes "diffs") (codes "diffs") r.metadata,
  (list_beq_iff (codes "diffs") (codes "diffs")).1 refl,
)

-- Every item of a checkpoint listing is a stored checkpoint of a project in the principal's scope,
-- without its diffs, and there are at most as many as the limit.
pub query_checkpoints_sound :
    (files : CheckpointFiles) (project_slug : Option Chars) (limit : ℕ) (principal : Option Reader)
    → (length (query_checkpoints files project_slug limit principal) ≤ limit)
      × ((item : CheckpointRecord)
          → IsIn item (query_checkpoints files project_slug limit principal)
          → (r : CheckpointRecord) × IsServed files project_slug principal r
            × (item ≡ checkpoint_wire_dict r)
            × (lookup (codes "diffs") item.metadata ≡ none))
unfolding query_checkpoints
query_checkpoints_sound files project_slug limit principal =
    let scope = principal_project_scope principal in
    let listed = list_checkpoints files project_slug limit in
    let page = list_checkpoints_page files project_slug limit in
    elim (Bool-cases (is_outside scope project_slug)) [
      | inl outside ↦ rw outside (omega arith, λ item m. absurd (ground (arith, m)))
      | inr inside ↦ rw inside (
        omega (
          arith,
          length-map checkpoint_wire_dict (select (λ r. scope_permits scope r.project_slug) listed),
          length-select-le {0} (λ r. scope_permits scope r.project_slug) listed,
          page.0,
        ),
        λ item m.
            let (r, at, eq) =
              IsIn-map checkpoint_wire_dict item
                (select (λ s. scope_permits scope s.project_slug) listed) m in
            let (listed_at, allowed) =
              (IsIn-select (λ s. scope_permits scope s.project_slug) r listed).0 at in
            (
              r,
              record { stored = page.1 r listed_at; permitted = allowed },
              eq,
              ap (λ (s : CheckpointRecord). lookup (codes "diffs") s.metadata) eq ∙ wire_diffs r,
            ),
      )
    ]
