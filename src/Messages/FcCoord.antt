-- ===== src/Messages/FcCoord.antt =====
-- The FC_COORD payloads of src/arc_messages_fc_coord.c, a module for each of the telemetry kinds.
pub mod Flight
pub mod Airbrake
pub mod Payload
