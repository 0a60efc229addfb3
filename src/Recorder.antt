-- ===== src/Recorder.antt =====
-- jarvis/core/method_recorder.py: recording of capability calls into a protocol. Ids are arguments;
-- `saved` lists the protocols that `save` wrote, the newest first.
use jarvis_server.Prelude.{
  ℕ, zero, suc, String, ◌≡◌, refl, Bool, true, false, ◌&&◌, Option, none, some, List, [], ◌∷◌, ◌++◌,
  ◌∙◌, append-nil, append_assoc, is_some, length, ltb, if◌then◌else◌,
}
use jarvis_server.Prelude.Int.{ℤ, pos, negsuc}
use jarvis_server.Value.{end}
use jarvis_server.Protocols.{ProtocolStep, Protocol, add_step}
pub mod Tests

pub record MethodRecorder : Type 0 where
  pub recording : Bool
  pub protocol : Option Protocol
  pub saved : List Protocol

abbrev pub new_protocol : String → String → String → Protocol
new_protocol id name description = record {
  id = id;
  name = name;
  description = description;
  arguments = end;
  trigger_phrases = [];
  steps = [];
  argument_definitions = [];
  response = none;
}

unfoldable pub start : String → String → String → MethodRecorder → MethodRecorder
start id name description r = record r {
  protocol = some (new_protocol id name description);
  recording = true;
}

abbrev append_to : ProtocolStep → Option Protocol → Option Protocol
append_to s none = none
append_to s (some p) = some (add_step s p)

unfoldable pub record_step : ProtocolStep → MethodRecorder → MethodRecorder
unfolding add_step
record_step s r =
    if r.recording && is_some r.protocol then record r { protocol = append_to s r.protocol } else r

abbrev set_step : ℕ → ProtocolStep → List ProtocolStep → List ProtocolStep
set_step n s [] = []
set_step zero s (t ∷ ts) = s ∷ ts
set_step (suc n) s (t ∷ ts) = t ∷ set_step n s ts

-- `none` is the IndexError.
abbrev replace_in : ℤ → ProtocolStep → MethodRecorder → Option Protocol → Option MethodRecorder
replace_in idx s r none = some r
replace_in (negsuc n) s r (some p) = none
replace_in (pos n) s r (some p) =
    if ltb n (length p.steps)
    then some (record r { protocol = some (record p { steps = set_step n s p.steps }) })
    else none

unfoldable replace_step : ℤ → ProtocolStep → MethodRecorder → Option MethodRecorder
replace_step idx s r = replace_in idx s r r.protocol

unfoldable pub clear : MethodRecorder → MethodRecorder
clear r = record r { protocol = none; recording = false }

abbrev stop_with : Option Protocol → MethodRecorder → MethodRecorder × Option Protocol
stop_with none r = (r, none)
stop_with (some p) r = (clear (record r { saved = p ∷ r.saved }), some p)

-- `stop`, with the `save` that it calls
unfoldable pub stop : MethodRecorder → MethodRecorder × Option Protocol
unfolding clear
stop r = stop_with r.protocol r

abbrev pub record_all : List ProtocolStep → MethodRecorder → MethodRecorder
record_all [] r = r
record_all (s ∷ ss) r = record_all ss (record_step s r)

abbrev recorded : Option Protocol → List ProtocolStep
recorded none = []
recorded (some p) = p.steps

record_all_steps :
    (ss : List ProtocolStep) (saved : List Protocol) (p : Protocol)
    → record_all ss (record { recording = true; protocol = some p; saved = saved }) ≡ record {
      recording = true;
      protocol = some (record p { steps = p.steps ++ ss });
      saved = saved;
    }
unfolding record_step
record_all_steps [] saved p = simp append-nil
record_all_steps (s ∷ ss) saved p =
    record_all_steps ss saved (record p { steps = p.steps ++ s ∷ [] }) ∙ simp append_assoc

-- A session of the recorder, from `start` over any calls to `stop`: the protocol that is returned
-- and saved holds exactly the recorded calls in their order under the given name, and the recorder
-- is idle again, whatever it held before.
pub stop-record_all-start :
    (id name description : String) (ss : List ProtocolStep) (r : MethodRecorder)
    → stop (record_all ss (start id name description r)) ≡ (
      record {
        recording = false;
        protocol = none;
        saved = record (new_protocol id name description) { steps = ss } ∷ r.saved;
      },
      some (record (new_protocol id name description) { steps = ss }),
    )
unfolding start stop
stop-record_all-start id name description ss r =
    rw (record_all_steps ss r.saved (new_protocol id name description)) refl

-- Once stopped or cleared, the recorder ignores calls.
record_step-clear : (s : ProtocolStep) (r : MethodRecorder) → record_step s (clear r) ≡ clear r
unfolding record_step clear
record_step-clear s r = refl
