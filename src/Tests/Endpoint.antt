-- ===== src/Tests/Endpoint.antt =====
-- Instances for src/arc_reliable.c.
use arc_protocol.Prelude.{
  ℕ, ◌+◌, ◌<◌, ◌≡◌, ◌↔◌, refl, arith, [], ◌∷◌, ◌++◌, some, none, set, get_elem?, List, true, false,
  bit_or,
}
use arc_protocol.Memory.{Bytes, done, u32}
use arc_protocol.Protocol.{Frame, ok, err, err_buffer}
use arc_protocol.Frame.{be16}
use arc_protocol.Router.{Call, call_of}
use arc_protocol.Reliable.{
  Pending, Reliable, Rx, delivered, duplicate, ack, init, zero_pending, send, receive, tick, early,
  take_seq,
}
use arc_protocol.Reliable.{
  find_index, pending_count, seen_contains, seen_add, seen_drop_source, source_session_changed,
}
use arc_protocol.Reliable.{
  note_source, note_seen, receive_reliable, is_ack_frame, ack_frame, emit_frame, pending_to_frame,
}
use arc_protocol.Reliable.Invariant.{IsValid}
use arc_protocol.Reliable.Send.{IsSentFrame, send_parks, send_full, send_unreliable}
use arc_protocol.Reliable.Receive.{receive-IsValid, receive_twice}
use arc_protocol.Reliable.Receipt.{IsFor, NoneFor, receive_acknowledged}
use arc_protocol.Reliable.Outstanding.{outstanding, remaining, announced, tick-outstanding}
use arc_protocol.Prelude.{◌⊎◌, take}
use arc_protocol.Reliable.Timer.{early_iff, after, copies, IsLate, retries_then_fails}
use arc_protocol.Reliable.Exchange.{exchange}

-- Callbacks 1, 2 and 3 are for sending, delivering and failing.
abbrev alice : Reliable ℕ ℕ
alice = init 1 5 100 2 0 (some 1) (some 2) (some 3) none

abbrev bob : Reliable ℕ ℕ
bob = init 2 6 100 2 0 (some 1) (some 2) (some 3) none

init-IsValid :
    (my_addr : ℕ)
    → IsValid {Fn = ℕ} {User = ℕ} (init my_addr 5 100 2 0 (some 1) (some 2) (some 3) none)
unfolding init
init-IsValid my_addr = record {
  pending_length = refl;
  buffers = (refl, (refl, (refl, (refl, (refl, (refl, (refl, (refl, tt))))))));
  seen_length = refl;
  next_victim = omega arith;
  sources_length = refl;
  seq_bound = omega arith;
}

alice-IsValid : IsValid alice
alice-IsValid = init-IsValid 1

bob-IsValid : IsValid bob
unfolding init
bob-IsValid = record {
  pending_length = refl;
  buffers = (refl, (refl, (refl, (refl, (refl, (refl, (refl, (refl, tt))))))));
  seen_length = refl;
  next_victim = omega arith;
  sources_length = refl;
  seq_bound = omega arith;
}

abbrev body : Bytes
body = 7 ∷ 8 ∷ []

exchange_example :
    (a' : Reliable ℕ ℕ) × (a'' : Reliable ℕ ℕ) × (b' : Reliable ℕ ℕ) × (f : Frame) × (g : Frame)
    × (send alice bob.my_addr 1 2 0 true (some body) 2 50
        ≡ done (ok alice.next_seq, (a', call_of alice.send_fn alice.user f)))
    × IsSentFrame alice bob.my_addr 1 2 (bit_or 0 1) (some body) 2 f
    × (receive bob f
        ≡ done
            (delivered, (b', call_of bob.send_fn bob.user g ++ call_of bob.deliver_fn bob.user f)))
    × (pending_count a'.pending ≡ pending_count alice.pending + 1)
    × (receive a' g ≡ done (ack, (a'', [])))
    × (pending_count a''.pending ≡ pending_count alice.pending)
unfolding init pending_count find_index seen_contains
exchange_example =
    exchange alice bob 1 2 0 (some body) 2 50 alice-IsValid (omega arith) (omega arith)
      (omega arith) refl refl refl

send_parks_example :
    (r' : Reliable ℕ ℕ) × (f : Frame) × (send alice 2 1 2 0 true (some body) 2 50
      ≡ done (ok alice.next_seq, (r', call_of alice.send_fn alice.user f)))
    × IsSentFrame alice 2 1 2 (bit_or 0 1) (some body) 2 f
    × (pending_count r'.pending ≡ pending_count alice.pending + 1)
    × IsValid r'
unfolding init pending_count
send_parks_example =
    send_parks alice 2 1 2 0 (some body) 2 50 alice-IsValid (omega arith) (omega arith)
      (omega arith)

abbrev busy_slot : Pending
busy_slot = record zero_pending { in_use = true }

abbrev busy : Reliable ℕ ℕ
busy = record alice {
  pending =
      busy_slot ∷ busy_slot ∷ busy_slot ∷ busy_slot ∷ busy_slot ∷ busy_slot ∷ busy_slot ∷ busy_slot
      ∷ [];
}

busy-IsValid : IsValid busy
unfolding init
busy-IsValid = record {
  pending_length = refl;
  buffers = (refl, (refl, (refl, (refl, (refl, (refl, (refl, (refl, tt))))))));
  seen_length = refl;
  next_victim = omega arith;
  sources_length = refl;
  seq_bound = omega arith;
}

send_full_example :
    (send busy 2 1 2 0 true (some body) 2 50 ≡ done (err err_buffer, (take_seq busy, [])))
    × IsValid (take_seq busy)
unfolding pending_count
send_full_example =
    send_full busy 2 1 2 0 (some body) 2 50 busy-IsValid (omega arith) (omega arith) refl

send_unreliable_example :
    (f : Frame) × (send alice 2 1 2 0 false (some body) 2 50
      ≡ done (ok alice.next_seq, (take_seq alice, call_of alice.send_fn alice.user f)))
    × IsSentFrame alice 2 1 2 0 (some body) 2 f
    × IsValid (take_seq alice)
send_unreliable_example =
    send_unreliable alice 2 1 2 0 (some body) 2 50 alice-IsValid (omega arith) (omega arith)

abbrev command : Frame
command = record {
  src = 1;
  dst = 2;
  flags = 1;
  session = 5;
  seq = 0;
  family = 1;
  type = 2;
  payload = some body;
  payload_len = 2;
}

abbrev informed : Reliable ℕ ℕ
informed = note_seen (take_seq (note_source bob command)) command

command_taken :
    receive bob command
    ≡ done (
      delivered,
      (
        informed,
        call_of bob.send_fn bob.user (ack_frame bob command)
            ++ call_of bob.deliver_fn bob.user command,
      ),
    )
unfolding receive receive_reliable is_ack_frame init note_source note_seen take_seq
    source_session_changed seen_contains find_index ack_frame seen_add seen_drop_source
command_taken = refl

receive_twice_example :
    (r'' : Reliable ℕ ℕ) × (receive informed command
      ≡ done (duplicate, (r'', call_of bob.send_fn bob.user (ack_frame informed command))))
unfolding init is_ack_frame
receive_twice_example =
    receive_twice bob informed command command delivered
      (call_of bob.send_fn bob.user (ack_frame bob command)
        ++ call_of bob.deliver_fn bob.user command)
      bob-IsValid refl refl refl command_taken refl refl refl refl refl refl

receive-IsValid_example :
    (x : Rx) × (r' : Reliable ℕ ℕ) × (calls : List (Call ℕ ℕ)) × (receive bob command
      ≡ done (x, (r', calls)))
    × IsValid r'
receive-IsValid_example = receive-IsValid bob command bob-IsValid (omega arith)

abbrev waiting_slot : Pending
waiting_slot = record zero_pending {
  in_use = true;
  deadline_ms = 100;
  dst = 2;
  session = 5;
  seq = 3;
}

abbrev spent_slot : Pending
spent_slot = record busy_slot { retries = 2 }

-- One message is to be resent, one is not due yet, one is to be given up; five slots are free.
abbrev waiting : Reliable ℕ ℕ
waiting = record alice {
  pending =
      busy_slot ∷ waiting_slot ∷ spent_slot ∷ zero_pending ∷ zero_pending ∷ zero_pending
      ∷ zero_pending ∷ zero_pending ∷ [];
}

waiting-IsValid : IsValid waiting
unfolding init
waiting-IsValid = record {
  pending_length = refl;
  buffers = (refl, (refl, (refl, (refl, (refl, (refl, (refl, (refl, tt))))))));
  seen_length = refl;
  next_victim = omega arith;
  sources_length = refl;
  seq_bound = omega arith;
}

abbrev receipt : Frame
receipt = record {
  src = 2;
  dst = 1;
  flags = 4;
  session = 6;
  seq = 9;
  family = 0;
  type = 2;
  payload = some (be16 3);
  payload_len = 2;
}

receive_acknowledged_example :
    (NoneFor 2 waiting.session 3 waiting.pending
      × (receive waiting receipt ≡ done (ack, (waiting, []))))
    ⊎ ((i : ℕ) × (p : Pending) × (get_elem? waiting.pending i ≡ some p)
        × IsFor 2 waiting.session 3 p
        × NoneFor 2 waiting.session 3 (take i waiting.pending)
        × (receive waiting receipt
            ≡ done (
              ack,
              (
                record waiting { pending = set waiting.pending i (record p { in_use = false }) },
                [],
              ),
            ))
        × (pending_count (set waiting.pending i (record p { in_use = false })) + 1
            ≡ pending_count waiting.pending))
unfolding init is_ack_frame
receive_acknowledged_example =
    receive_acknowledged waiting receipt 3 refl refl refl refl (omega arith)

early_iff_example : (early (u32 (4294967290 + 20)) (u32 (4294967290 + 30)) ≡ true) ↔ (20 < 30)
early_iff_example = early_iff 4294967290 30 20 (omega arith) (omega arith) (omega arith)

all-IsLate : IsLate 100 (100 ∷ 150 ∷ 100 ∷ [])
all-IsLate =
    ((omega arith, omega arith), ((omega arith, omega arith), ((omega arith, omega arith), tt)))

retries_then_fails_example :
    ((after alice 0 (100 ∷ 150 ∷ 100 ∷ []) waiting_slot).0.in_use ≡ false)
    × ((after alice 0 (100 ∷ 150 ∷ 100 ∷ []) waiting_slot).1
        ≡ copies 2 (emit_frame alice waiting_slot)
          ++ call_of alice.fail_fn alice.user (pending_to_frame waiting_slot alice.my_addr))
unfolding init
retries_then_fails_example =
    retries_then_fails alice 2 0 100 (150 ∷ 100 ∷ []) waiting_slot (omega arith) (omega arith)
      (omega arith) refl refl refl refl all-IsLate

tick-outstanding_example :
    (ps : List Pending) × (tick waiting 60
      ≡ (record waiting { pending = ps }, announced waiting 60 (outstanding waiting.pending)))
    × IsValid (record waiting { pending = ps })
    × (outstanding ps
        ≡ remaining 60 waiting.timeout_ms waiting.max_retries (outstanding waiting.pending))
unfolding init
tick-outstanding_example = tick-outstanding waiting 60 waiting-IsValid (omega arith)
