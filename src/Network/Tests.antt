-- ===== src/Network/Tests.antt =====
-- Instances of the theorems on the broker, and runs of it.
use jarvis_server.Prelude.{
  ◌≡◌, ◌≢◌, refl, ap, str_eq, String, true, false, Option, none, some, List, [], ◌∷◌, arith,
}
use jarvis_server.Prelude.Dict.{get, put}
use jarvis_server.Value.{Value, text, obj, end, field}
use jarvis_server.Network.{
  Network, Message, Agent, high, get_message_priority, capability_response, resolved, new_network,
}
use jarvis_server.Network.Registry.{register_agent, register_night_agent, providers_of}
use jarvis_server.Network.Futures.{
  cell, ensure_future, poll, result, fulfill_response_future, cleanup_expired_futures,
}
use jarvis_server.Network.Send.{enqueue, send_message}
use jarvis_server.Network.Process.{handle_capability_response, process_next}
use jarvis_server.Network.Accounting.{Accounts, send-Accounts}
use jarvis_server.Network.Bounds.{IsBounded}
use jarvis_server.Network.Order.{HighKept, enqueue-HighKept}
use jarvis_server.Network.Steps.{
  Reach, here, next, work, clean_up, Reach-Holds, poll-handle_capability_response,
}

abbrev shown : Value → String
shown v = "?"

abbrev search_agent : Agent
search_agent = record { name = "SearchAgent"; capabilities = "search" ∷ []; protocols = none }

abbrev night_agent : Agent
night_agent = record {
  name = "CleanupAgent";
  capabilities = "clean_logs" ∷ "search" ∷ [];
  protocols = none;
}

abbrev net : Network
net =
    register_night_agent night_agent false
      (register_agent search_agent true false (new_network 10 300 none))

abbrev answer : Message
answer = record {
  from_agent = "SearchAgent";
  to_agent = none;
  message_type = capability_response;
  content = obj (field "response" (text "found") end);
  request_id = "r1";
  reply_to = none;
  trace_id = none;
  parent_span_id = none;
}

not_provided : providers_of "search" net.capability_registry ≡ "SearchAgent" ∷ []
unfolding register_agent new_network get put
not_provided = refl

send-Accounts_example : Accounts high answer net (send_message shown none answer net)
unfolding get_message_priority
send-Accounts_example = send-Accounts shown none answer net

empty-IsBounded : IsBounded net
unfolding register_agent new_network
empty-IsBounded h = omega arith

enqueue-HighKept_example : HighKept answer net (enqueue high answer net)
enqueue-HighKept_example = enqueue-HighKept answer net

abbrev settled : Network
settled = fulfill_response_future answer (ensure_future "r1" 5 net)

settled-cell : settled.store ≡ resolved answer.content ∷ []
unfolding register_agent new_network get put ensure_future fulfill_response_future
settled-cell = refl

abbrev later : Network
later = cleanup_expired_futures 900 (process_next settled)

steps : Reach shown settled later
steps = next (next here (work settled)) (clean_up (process_next settled) 900)

Reach-Holds_example : cell 0 later.store ≡ some (resolved answer.content)
Reach-Holds_example =
    Reach-Holds shown 0 (resolved answer.content) refl (ap (cell 0) settled-cell) steps

poll-handle_capability_response_example :
    let r =
      poll 0 "r1" 99 (some 15) (handle_capability_response answer (ensure_future "r1" 5 net)) in
    (r.0 ≡ result answer.content)
    × (get "r1" r.1.response_futures ≡ none)
    × ((j : String)
        → str_eq "r1" j ≡ false
        → get j r.1.response_futures ≡ get j net.response_futures)
unfolding register_agent new_network get put
poll-handle_capability_response_example =
    poll-handle_capability_response "r1" 5 99 (some 15) answer net refl refl

set_given : ◌≢◌ {A = Option (List String)} (some ("SearchAgent" ∷ [])) (some [])
set_given e = cc
