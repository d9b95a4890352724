-- ===== src/Tests/BusCases.antt =====
-- The context buses.
use depthfusion.Router.{hash_of, publish, publish_line}
use depthfusion.Common.{refl, ◌++◌, if◌then◌else◌, ◌≡◌, [], ◌∷◌}
use depthfusion.Tests.Samples.{item}
use depthfusion.Router.Dedup.{
  first_with, answered, published, published_lines, items_of, publish_line-published,
}

publish_line-published_example :
    (items_of (published_lines (item "a" "h" ∷ [])).lines ≡ (published (item "a" "h" ∷ [])).items)
    × ((publish_line (published_lines (item "a" "h" ∷ [])) (item "b" "h")).1
        ≡ (publish (published (item "a" "h" ∷ [])) (item "b" "h")).1)
    × ((publish (published (item "a" "h" ∷ [])) (item "b" "h")).0.items ≡ (
        if (publish (published (item "a" "h" ∷ [])) (item "b" "h")).1.deduped
        then (published (item "a" "h" ∷ [])).items
        else (published (item "a" "h" ∷ [])).items ++ (item "b" "h") ∷ []))
    × (answered
          (hash_of (item "b" "h"))
          (first_with (hash_of (item "b" "h")) (published (item "a" "h" ∷ [])).items)
          (item "b" "h").item_id
        ≡ (publish (published (item "a" "h" ∷ [])) (item "b" "h")).1)
publish_line-published_example =
    publish_line-published (item "a" "h" ∷ []) (item "b" "h") (refl, tt)
