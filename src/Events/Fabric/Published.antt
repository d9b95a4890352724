-- ===== src/Events/Fabric/Published.antt =====
-- What publishing a memory through src/depthfusion/core/event_store.py leaves in the graph.
use depthfusion.Events.Fabric.JsonGraph.{JsonGraph}
use depthfusion.Events.Fabric.{Fabric}
use depthfusion.Common.{String_eq, ℕ_eq, List_eq}
