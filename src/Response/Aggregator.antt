-- ===== src/Response/Aggregator.antt =====
-- jarvis/agents/response_aggregator.py: the trackers of requests and their futures, which are cells of
-- a store. Times are natural numbers. Parameters: those of `merge_responses`, and `listed` for the
-- order in which the set of senders is listed. A timeout task is the step `handle_timeout`.
use jarvis_server.Prelude.{
  ℕ, String, Bool, true, false, not, ◌&&◌, ◌||◌, Option, none, some, List, [], ◌∷◌, ◌++◌, ◌+◌, ◌-◌,
  ◌*◌, ◌/◌, if◌then◌else◌, length, contains, ltb, leb, ◌>>=◌, is_some, is_empty, get_or,
}
use jarvis_server.Prelude.Int.{pos}
use jarvis_server.Prelude.Dict.{Dict, get, put}
use jarvis_server.Value.{
  Value, null, flag, num, text, arr, obj, Items, nil, cons, Fields, end, field, field_of, set_field,
  texts,
}
use jarvis_server.Network.{Future, pending, resolved, is_done}
use jarvis_server.Network.Futures.{cell, settle}
use jarvis_server.Response.{AgentResponse, error_response, to_dict, from_dict, field_or}
use jarvis_server.Response.Merge.{merge_responses}

pub data AggregationStrategy : Type 0 where
  first every majority by_timeout : AggregationStrategy

-- One element of `responses` or `errors`.
pub record Received : Type 0 where
  pub from_agent : String
  pub content : Value
  pub timestamp : ℕ

pub record ResponseTracker : Type 0 where
  pub request_id : String
  pub capability : String
  pub expected_providers : List String
  pub strategy : AggregationStrategy
  pub timeout : ℕ
  pub created_at : ℕ
  pub responses : List Received
  pub errors : List Received
  pub received_from : List String
  pub future : ℕ

pub record ResponseAggregator : Type 0 where
  pub trackers : Dict ResponseTracker
  pub store : List Future
  pub default_timeout : ℕ

abbrev pub complete_by : AggregationStrategy → ℕ → ResponseTracker → Bool
complete_by first now t = not (is_empty t.responses) || not (is_empty t.errors)
complete_by every now t = leb (length t.expected_providers) (length t.received_from)
complete_by majority now t = leb (length t.expected_providers / 2 + 1) (length t.received_from)
complete_by by_timeout now t = leb t.timeout (now - t.created_at)

unfoldable pub is_complete : ℕ → ResponseTracker → Bool
is_complete now t = complete_by t.strategy now t

abbrev received_value : Received → Value
received_value r = obj (
    field "from_agent" (text r.from_agent)
      (field "content" r.content (field "timestamp" (num (pos r.timestamp)) end)))

abbrev pub received_values : List Received → Items
received_values [] = nil
received_values (r ∷ rs) = cons (received_value r) (received_values rs)

-- The contents in the standard format, read as responses; `none` is an exception of `from_dict`.
abbrev standard_of : Value → Option (Option AgentResponse)
standard_of (obj fs) =
    if is_some (field_of "success" fs) then (from_dict fs >>= λ r. some (some r)) else some none
standard_of v = some none

abbrev prepend : Option AgentResponse → List AgentResponse → List AgentResponse
prepend none rs = rs
prepend (some r) rs = r ∷ rs

abbrev standard_responses : List Received → Option (List AgentResponse)
standard_responses [] = some []
standard_responses (r ∷ rs) =
    standard_of r.content >>= λ o. standard_responses rs >>= λ qs. some (prepend o qs)

-- `self._trackers` entry: the tracker with a response or an error added
abbrev pub add_sender : String → List String → List String
add_sender s ss = if contains s ss then ss else ss ++ s ∷ []

abbrev pub receive : String → Value → Bool → ℕ → ResponseTracker → ResponseTracker
receive from_agent content is_error now t =
    let r : Received = record { from_agent = from_agent; content = content; timestamp = now } in
    if is_error
    then record t {
      received_from = add_sender from_agent t.received_from;
      errors = t.errors ++ r ∷ [];
    }
    else record t {
      received_from = add_sender from_agent t.received_from;
      responses = t.responses ++ r ∷ [];
    }

unfoldable register_request :
    String
    → String
    → List String
    → AggregationStrategy
    → Option ℕ
    → ℕ
    → ResponseAggregator
    → ℕ × ResponseAggregator
register_request id capability expected strategy timeout now a = (
  length a.store,
  record a {
    trackers =
        put id
          (record {
            request_id = id;
            capability = capability;
            expected_providers = expected;
            strategy = strategy;
            timeout = get_or a.default_timeout timeout;
            created_at = now;
            responses = [];
            errors = [];
            received_from = [];
            future = length a.store;
          })
          a.trackers;
    store = a.store ++ pending ∷ [];
  },
)

module _ (items_of : Value → Option Items) (update_with : Fields → Value → Option Fields)
    (listed : List String → List String) where
  abbrev senders : ResponseTracker → Fields → Fields
  senders t fs =
      set_field "expected_from" (arr (texts t.expected_providers))
        (set_field "received_from" (arr (texts (listed t.received_from))) fs)

  -- `result["metadata"].update(...)`, for metadata that is a dictionary
  abbrev with_senders : ResponseTracker → Fields → Value → Option Value
  with_senders t result (obj fs) = some (obj (set_field "metadata" (obj (senders t fs)) result))
  with_senders t result _ = none

  abbrev merged_result : ResponseTracker → List AgentResponse → Option Value
  merged_result t [] = some (
      obj (
        field "success" (flag true) (
          field "response" (text "Multiple responses received") (
            field "data"
              (obj (
                field "responses" (arr (received_values t.responses)) (
                  field "received_from" (arr (texts (listed t.received_from)))
                    (field "expected_from" (arr (texts t.expected_providers)) end))))
              end))))
  merged_result t (r ∷ rs) = merge_responses items_of update_with (r ∷ rs) >>= λ m.
      with_senders t (to_dict m) (field_or (obj end) "metadata" (to_dict m))

  abbrev result_of : AggregationStrategy → ResponseTracker → List Received → Option Value
  result_of s t [] =
      if is_empty t.errors
      then some (obj (to_dict (error_response "No responses received" "No responses" null)))
      else some (
          obj (
            to_dict (
              error_response "All providers failed to respond" "All providers failed"
                (obj (field "errors" (arr (received_values t.errors)) end)))))
  result_of first t (r ∷ rs) = some r.content
  result_of s t (r ∷ rs) = standard_responses (r ∷ rs) >>= merged_result t

  -- `none` is an exception.
  unfoldable pub get_result : ResponseTracker → Option Value
  get_result t = result_of t.strategy t t.responses

  -- `tracker.future.set_result(result)`, if the future is not done and there is a result. The first
  -- component tells whether no exception was raised.
  abbrev pub settle_with : Option Value → ℕ → ResponseAggregator → Bool × ResponseAggregator
  settle_with none f a = (false, a)
  settle_with (some v) f a = (true, record a { store = settle f (resolved v) a.store })

  abbrev pub is_pending : Option Future → Bool
  is_pending none = false
  is_pending (some f) = not (is_done f)

  unfoldable pub settle_if : Bool → ResponseTracker → ResponseAggregator → Bool × ResponseAggregator
  unfolding get_result
  settle_if b t a =
      if b && is_pending (cell t.future a.store)
      then settle_with (get_result t) t.future a
      else (true, a)

  -- How a call of `add_response` ends.
  pub data AddResult : Type 0 where
    not_found added add_raised : AddResult

  abbrev pub add_result : Bool × ResponseAggregator → AddResult × ResponseAggregator
  add_result (true, a) = (added, a)
  add_result (false, a) = (add_raised, a)

  unfoldable pub add_to :
      Option ResponseTracker
      → String
      → String
      → Value
      → Bool
      → ℕ
      → ResponseAggregator
      → AddResult × ResponseAggregator
  unfolding settle_if is_complete
  add_to none id from_agent content is_error now a = (not_found, a)
  add_to (some t) id from_agent content is_error now a =
      let t' = receive from_agent content is_error now t in
      add_result (settle_if (is_complete now t') t' (record a { trackers = put id t' a.trackers }))

  unfoldable pub add_response :
      String → String → Value → Bool → ℕ → ResponseAggregator → AddResult × ResponseAggregator
  unfolding add_to
  add_response id from_agent content is_error now a =
      add_to (get id a.trackers) id from_agent content is_error now a

  unfoldable time_out : Option ResponseTracker → ResponseAggregator → Bool × ResponseAggregator
  unfolding settle_if
  time_out none a = (true, a)
  time_out (some t) a = settle_if true t a

  unfoldable handle_timeout : String → ResponseAggregator → Bool × ResponseAggregator
  unfolding time_out
  handle_timeout id a = time_out (get id a.trackers) a

-- The trackers that `_cleanup_completed` removes.
abbrev is_settled : Option Future → Bool
is_settled none = false
is_settled (some f) = is_done f

abbrev is_over : ℕ → List Future → ResponseTracker → Bool
is_over now store t = is_settled (cell t.future store) || ltb (t.timeout * 2) (now - t.created_at)

abbrev open_trackers : ℕ → List Future → Dict ResponseTracker → Dict ResponseTracker
open_trackers now store [] = []
open_trackers now store ((id, t) ∷ ts) =
    let rest = open_trackers now store ts in if is_over now store t then rest else (id, t) ∷ rest

unfoldable cleanup_completed : ℕ → ResponseAggregator → ResponseAggregator
cleanup_completed now a = record a { trackers = open_trackers now a.store a.trackers }
