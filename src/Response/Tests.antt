-- ===== src/Response/Tests.antt =====
-- Instances of the theorems on jarvis/agents/response.py and jarvis/agents/response_aggregator.py.
use jarvis_server.Prelude.{
  String, ◌≡◌, refl, true, false, Option, none, some, List, [], ◌∷◌, inr, arith,
}
use jarvis_server.Prelude.Dict.{get}
use jarvis_server.Value.{Value, null, flag, text, arr, obj, Items, nil, Fields, end, field, texts}
use jarvis_server.Network.{pending, resolved}
use jarvis_server.Network.Futures.{cell}
use jarvis_server.Response.{AgentResponse, to_dict, from_dict}
use jarvis_server.Response.Roundtrip.{from_dict-to_dict_response}
use jarvis_server.Response.Aggregator.{
  every, ResponseTracker, ResponseAggregator, received_values, get_result,
}
use jarvis_server.Response.Threshold.{Answer, add_all, add_all-early, add_all-settled}

abbrev done : AgentResponse
done = record {
  success = flag true;
  response = text "added the event";
  actions = arr nil;
  payload = obj (field "id" (text "e1") end);
  metadata = null;
  error = none;
}

from_dict-to_dict_response_example : from_dict (to_dict done) ≡ some done
from_dict-to_dict_response_example =
    from_dict-to_dict_response done (record { actions_kept = inr refl; error_kept = λ e h. cc })

abbrev no_items : Value → Option Items
no_items v = none

abbrev no_update : Fields → Value → Option Fields
no_update fs v = none

abbrev as_listed : List String → List String
as_listed ss = ss

abbrev started : ResponseAggregator
started = record { trackers = []; store = []; default_timeout = 30 }

abbrev tracker : ResponseTracker
tracker = record {
  request_id = "r1";
  capability = "search";
  expected_providers = "A" ∷ "B" ∷ [];
  strategy = every;
  timeout = 5;
  created_at = 0;
  responses = [];
  errors = [];
  received_from = "A" ∷ [];
  future = 0;
}

abbrev asked : ResponseAggregator
asked = record { trackers = ("r1", tracker) ∷ []; store = pending ∷ []; default_timeout = 30 }

abbrev of_a : Answer
of_a = record { sender = "A"; content = text "one"; is_error = false; time = 1 }

abbrev of_b : Answer
of_b = record { sender = "B"; content = text "two"; is_error = false; time = 2 }

-- Two answers of one agent do not complete a request to two.
add_all-early_example :
    (add_all no_items no_update as_listed "r1" (of_a ∷ of_a ∷ []) asked).store ≡ asked.store
unfolding get
add_all-early_example =
    add_all-early no_items no_update as_listed "r1" (of_a ∷ of_a ∷ []) 2 tracker asked refl refl
      (omega arith)

abbrev merged : Value
merged = obj (
    field "success" (flag true) (
      field "response" (text "Multiple responses received") (
        field "data"
          (obj (
            field "responses"
              (arr (
                received_values
                  (record { from_agent = "B"; content = text "two"; timestamp = 2 } ∷ [])))
              (field "received_from" (arr (texts ("A" ∷ "B" ∷ [])))
                (field "expected_from" (arr (texts ("A" ∷ "B" ∷ []))) end))))
          end)))

add_all-settled_example :
    cell 0 (add_all no_items no_update as_listed "r1" (of_b ∷ of_a ∷ []) asked).store
    ≡ some (resolved merged)
unfolding get get_result
add_all-settled_example =
    add_all-settled no_items no_update as_listed "r1" of_b (of_a ∷ []) 2 merged tracker asked refl
      refl (omega arith) refl refl
