-- ===== src/Nlu/Routable.antt =====
-- What `_normalize_classification` of jarvis/agents/nlu_agent/__init__.py makes of any reply of the
-- language model.
use jarvis_server.Prelude.{String, ◌≡◌, Bool, true, false, ◌&&◌, Option, some, List, all, is_empty}
use jarvis_server.Value.{Value, Fields, field_of}
use jarvis_server.Nlu.Graph.{Dag}
use jarvis_server.Nlu.Walks.{IsAcyclic}
use jarvis_server.Nlu.Classify.{Classification, protocol, graph, is_known, is_text_at}

module _ (capabilities : List String) where
  -- The capabilities of the graph and all that they wait for are known.
  abbrev is_listed : Dag → Bool
  is_listed = all (λ e. is_known capabilities e.0 && all (is_known capabilities) e.1)

  pub record IsRoutable (dag : Dag) : Type 0 where
    pub filled : is_empty dag ≡ false
    pub acyclic : IsAcyclic dag
    pub listed : is_listed dag ≡ true

  abbrev Routed : Option Dag → Type 0
  Routed o = (dag : Dag) × (o ≡ some dag) × IsRoutable dag

  abbrev pub IsUsable : Fields → Classification → Type 0
  IsUsable result (protocol fs) =
      (fs ≡ result) × (is_text_at (field_of "intent" result) "run_protocol" ≡ true)
  IsUsable result (graph dag) = IsRoutable dag
