-- ===== src/Recorder/Tests.antt =====
-- A short session of the recorder of jarvis/core/method_recorder.py.
use jarvis_server.Prelude.{◌≡◌, true, false, none, some, [], ◌∷◌}
use jarvis_server.Value.{end}
use jarvis_server.Protocols.{ProtocolStep}
use jarvis_server.Recorder.{
  MethodRecorder, new_protocol, start, stop, record_all, stop-record_all-start,
}

abbrev lights_on : ProtocolStep
lights_on = record {
  agent = "Lights";
  function = "turn_on";
  parameters = end;
  parameter_mappings = [];
}

abbrev busy : MethodRecorder
busy = record { recording = true; protocol = some (new_protocol "p0" "old" ""); saved = [] }

stop-record_all-start_example :
    stop (record_all (lights_on ∷ lights_on ∷ []) (start "p1" "evening" "" busy)) ≡ (
      record {
        recording = false;
        protocol = none;
        saved = record (new_protocol "p1" "evening" "") { steps = lights_on ∷ lights_on ∷ [] } ∷ [];
      },
      some (record (new_protocol "p1" "evening" "") { steps = lights_on ∷ lights_on ∷ [] }),
    )
stop-record_all-start_example =
    stop-record_all-start "p1" "evening" "" (lights_on ∷ lights_on ∷ []) busy
