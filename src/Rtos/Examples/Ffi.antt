-- ===== src/Rtos/Examples/Ffi.antt =====
-- The queue of telemetry events of the C interface, set up over slots of 128 bytes.
use shawn_core_libraries.Base.{List, [], ◌∷◌, replicate}
use shawn_core_libraries.Rtos.Spsc
use shawn_core_libraries.Rtos.Ffi.{Layout, Host, default_event}
use shawn_core_libraries.Rtos.Ffi.Telemetry.{TelemetryCall, pushes_from, pops_to}

abbrev sizes : Layout
sizes = record { queue_size = 256; queue_align = 64; slot_size = 128; slot_align = 64 }

abbrev host : Host
host = record {
  queues = λ address. Spsc.new;
  events = λ address. record { event_id = address; timestamp = 1000; payload = replicate 48 1 };
  slots = λ address. replicate 64 (record { data_cell = default_event; sequence_counter = 5 });
}

-- An event at address 1024, another at 1088, an address that is misaligned, and the queue's own.
abbrev calls : List TelemetryCall
calls =
    pushes_from 1024
    ∷ pushes_from 1088
    ∷ pushes_from 1030
    ∷ pops_to 640
    ∷ pops_to 2048
    ∷ pops_to 2112
    ∷ pops_to 2176
    ∷ []
