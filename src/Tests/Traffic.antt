-- ===== src/Tests/Traffic.antt =====
-- Instances for two endpoints of src/arc_reliable.c on a network.
use arc_protocol.Network.{Step}
use arc_protocol.Protocol.{flag_ack, family_netmgmt, netmgmt_ack}
use arc_protocol.Reliable.{ack, receive_ack, clear_pending, pending_count}
use arc_protocol.Network.{answer}
use arc_protocol.Network.Ledger.{IsSettled}
use arc_protocol.Network.Settled.{accepted_accounted}
use arc_protocol.Prelude.{length}
use arc_protocol.Memory.{load}
use arc_protocol.Memory.{read}
use arc_protocol.Memory.{write}
use arc_protocol.Prelude.{replicate}
use arc_protocol.Prelude.{true}
use arc_protocol.Prelude.{◌≡◌, ◌≤◌, refl, arith, [], ◌∷◌, ◌++◌, some}
use arc_protocol.Memory.{Run, done, fault}
use arc_protocol.Protocol.{Frame}
use arc_protocol.Reliable.{
  delivered, duplicate, init, send, receive, take_seq, pending_to_frame, emit_frame, fill_slot,
  copy_payload, find_index, seen_contains, seen_add, seen_drop_source, source_session_changed,
  note_source, note_seen, receive_reliable, is_ack_frame, ack_frame,
}
use arc_protocol.Network.{
  Endpoint, Calls, System, Reach, here, later, originate, arrive, sent, handed, start, endpoint, In,
  All, IsDistinct,
}
use arc_protocol.Network.Once.{delivered_once}

abbrev alpha : Endpoint
alpha = endpoint 1 5 100 2 0

abbrev beta : Endpoint
beta = endpoint 2 6 100 2 0

abbrev result_of : {A : Type 0} → Run (A × (Endpoint × Calls)) → Endpoint → Endpoint × Calls
result_of (done (x, o)) d = o
result_of fault d = (d, [])

abbrev sending : Endpoint × Calls
sending = result_of (send alpha 2 3 1 0 true (some (7 ∷ [])) 1 40) alpha

abbrev told : Frame
told = record {
  src = 1;
  dst = 2;
  flags = 1;
  session = 5;
  seq = 0;
  family = 3;
  type = 1;
  payload = some (7 ∷ replicate 63 0);
  payload_len = 1;
}

abbrev first : Endpoint × Calls
first = result_of (receive beta told) beta

abbrev second : Endpoint × Calls
second = result_of (receive (first.0) told) beta

abbrev begun : System
begun = start alpha beta

abbrev sent_once : System
sent_once = record begun { sender = sending.0; network = sent sending.1; accepted = sent sending.1 }

abbrev came_once : System
came_once = record sent_once {
  receiver = first.0;
  network = sent first.1 ++ sent sending.1;
  delivered = handed first.1;
}

abbrev came_twice : System
came_twice = record came_once {
  receiver = second.0;
  network = sent second.1 ++ (sent first.1 ++ sent sending.1);
  delivered = handed second.1 ++ handed first.1;
}

-- One message is sent, and its frame arrives twice.
repeated : Reach begun came_twice
unfolding init send take_seq pending_to_frame emit_frame fill_slot copy_payload find_index
    seen_contains seen_add seen_drop_source source_session_changed note_source note_seen receive
    receive_reliable is_ack_frame ack_frame write read load
repeated =
    later
      (later (later here (originate 3 1 0 (some (7 ∷ [])) 1 40 0 sending.0 sending.1 refl refl))
        (arrive 0 told delivered first.0 first.1 refl refl))
      (arrive 1 told duplicate second.0 second.1 refl refl)

repeated-accepted : length came_twice.accepted ≤ 16
unfolding init send take_seq pending_to_frame emit_frame fill_slot copy_payload find_index write
    read
repeated-accepted = omega arith

delivered_once_example :
    IsDistinct came_twice.delivered × All (λ f. In f came_twice.accepted) came_twice.delivered
delivered_once_example =
    delivered_once 1 2 5 100 2 0 6 100 2 0 came_twice (omega arith) repeated repeated-accepted

-- It was handed over once.
repeated_once : came_twice.delivered ≡ told ∷ []
unfolding init send take_seq pending_to_frame emit_frame fill_slot copy_payload find_index
    seen_contains seen_add seen_drop_source source_session_changed note_source note_seen receive
    receive_reliable is_ack_frame ack_frame write read load
repeated_once = refl

-- The first acknowledgement gets back to the sender.
abbrev acked : Frame
acked = record {
  src = 2;
  dst = 1;
  flags = flag_ack;
  session = 6;
  seq = 0;
  family = family_netmgmt;
  type = netmgmt_ack;
  payload = some (0 ∷ 0 ∷ []);
  payload_len = 2;
}

abbrev cleared : Endpoint × Calls
cleared = result_of (receive sending.0 acked) sending.0

abbrev finished : System
finished = record came_twice { sender = cleared.0; network = sent cleared.1 ++ came_twice.network }

closing : Step came_twice finished
unfolding init send take_seq pending_to_frame emit_frame fill_slot copy_payload find_index
    seen_contains seen_add seen_drop_source source_session_changed note_source note_seen receive
    receive_reliable receive_ack clear_pending is_ack_frame ack_frame write read load
closing = answer 1 acked ack cleared.0 cleared.1 refl refl

-- Nothing waits then.
finished_pending : pending_count finished.sender.pending ≡ 0
unfolding init send take_seq pending_to_frame emit_frame fill_slot copy_payload find_index receive
    receive_ack clear_pending is_ack_frame write read load pending_count
finished_pending = refl

repeated-IsDistinct : IsDistinct came_twice.accepted
unfolding init send take_seq pending_to_frame emit_frame fill_slot copy_payload find_index write
    read
repeated-IsDistinct = (tt, tt)

accepted_accounted_example :
    All
      (IsSettled finished.sender.my_addr finished.delivered finished.failed finished.sender.pending)
      finished.accepted
accepted_accounted_example =
    accepted_accounted 1 2 5 100 2 0 6 100 2 0 finished (omega arith) (omega arith)
      (later repeated closing) repeated-accepted repeated-IsDistinct
