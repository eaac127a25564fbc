-- ===== src/Tests.antt =====
-- Runs of the model on concrete values, and the theorems at concrete arguments, for the code of
-- src/arc_protocol.c, src/arc_router.c, src/arc_reliable.c and src/arc_messages_*.c.
mod Link
mod Routes
mod Endpoint
mod Traffic
mod Frames
mod Reports
mod Vectors
mod Payloads
