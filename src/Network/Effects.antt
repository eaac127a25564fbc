-- ===== src/Network/Effects.antt =====
-- Each step of two endpoints of src/arc_reliable.c on the network, as what it does to the system: a
-- property of systems that the new system is to have is asked of that one.
use arc_protocol.Reliable.{is_ack_frame}
use arc_protocol.Prelude.{◌<◌, ◌+◌, ◌^◌, get_elem?, set, some}
use arc_protocol.Memory.{u16}
use arc_protocol.Frame.{be16}
use arc_protocol.Reliable.{Seen, Pending}
use arc_protocol.Reliable.{seen_entry}
use arc_protocol.Prelude.{set}
use arc_protocol.Prelude.{◌∙◌}
use mathlib.Core.Path.{subst}
use arc_protocol.Prelude.{
  ℕ, ◌≡◌, ◌≢◌, ◌<◌, ◌≤◌, ◌==◌, refl, sym, ap, inl, inr, arith, Bool-cases, ==_iff,
}
use arc_protocol.Prelude.{true, false, List, [], ◌∷◌, ◌++◌, length, bit_or}
use arc_protocol.Memory.{Bytes, Ptr, done}
use arc_protocol.Protocol.{Frame, ok, flag_reliable}
use arc_protocol.Router.{call_of}
use arc_protocol.Reliable.{
  Rx, ignored, delivered, duplicate, staged, take_seq, pending_to_frame, emit_frame, ack_frame,
  note_source, note_seen,
}
use arc_protocol.Reliable.{
  seen_contains, source_session_changed, send, receive, tick, tick_loop, clear_pending,
}
use arc_protocol.Reliable.Branches.{receive-again, receive-fresh, receive-foreign}
use arc_protocol.Network.{Endpoint, Calls, sent, handed, System, In}
use arc_protocol.Network.Traffic.{send-inv, sent-call_of}
use arc_protocol.Network.Arrival.{same_outcome, receive-IsCleared, note_source-same, note_seen-room}
use arc_protocol.Network.Invariant.{Inv, IsMessage, All-In}
use arc_protocol.Network.{reported}
use arc_protocol.Network.Traffic.{send-err}
use arc_protocol.Prelude.{Bool}
use arc_protocol.Protocol.{Error, err}
use arc_protocol.Network.History.{used, missing_positive}

unequal : (m n : ℕ) → m ≢ n → (m == n) ≡ false
unequal m n h = elim (Bool-cases (m == n)) [ inl e ↦ absurd (h ((==_iff m n).0 e)) | inr e ↦ e ]

module _ (P : System → Type 0) (s : System) where
  arrived-as :
      (b c : Endpoint) (calls : Calls) (fs ds : List Frame)
      → b ≡ c
      → sent calls ≡ fs
      → handed calls ≡ ds
      → P (record s { receiver = c; network = fs ++ s.network; delivered = ds ++ s.delivered })
      → P (record s {
        receiver = b;
        network = sent calls ++ s.network;
        delivered = handed calls ++ s.delivered;
      })
  arrived-as b c calls fs ds e p q v = rw (e, p, q) v

  -- A frame that was accepted, at the receiver: it is known or new.
  pub arrived-message :
      (f : Frame) (x : Rx) (b : Endpoint) (calls : Calls)
      → Inv s
      → length s.accepted ≤ 16
      → In f s.accepted
      → receive s.receiver f ≡ done (x, (b, calls))
      → (seen_contains s.receiver.seen s.sender.my_addr s.sender.session f.seq ≡ true
          → P (record s {
            receiver = record s.receiver {
              next_seq = (take_seq s.receiver).next_seq;
              sources = (source_session_changed s.receiver.sources f.src f.session).1;
            };
            network = ack_frame s.receiver f ∷ s.network;
          }))
      → ((i : ℕ) (e : Seen)
          → seen_contains s.receiver.seen s.sender.my_addr s.sender.session f.seq ≡ false
          → get_elem? s.receiver.seen i ≡ some e
          → e.in_use ≡ false
          → P (record s {
            receiver = record s.receiver {
              next_seq = (take_seq s.receiver).next_seq;
              sources = (source_session_changed s.receiver.sources f.src f.session).1;
              seen = set s.receiver.seen i (seen_entry f.src f.session f.seq);
            };
            network = ack_frame s.receiver f ∷ s.network;
            delivered = f ∷ s.delivered;
          }))
      → P (record s {
        receiver = b;
        network = sent calls ++ s.network;
        delivered = handed calls ++ s.delivered;
      })
  unfolding take_seq ack_frame
  arrived-message f x b calls v room m h repeat fresh =
      let r = s.receiver in
      let (from, to, session, not_ack, rel) =
        All-In (IsMessage s.sender.my_addr r.my_addr s.sender.session) f s.accepted v.messages m in
      let unchanged = note_source-same r f (rw (from, session) v.one_session) in
      let same_seen : (note_source r f).seen ≡ r.seen = ap (λ (t : Endpoint). t.seen) unchanged in
      let noted : Endpoint =
        take_seq (record r { sources = (source_session_changed r.sources f.src f.session).1 }) in
      elim (Bool-cases (seen_contains r.seen f.src f.session f.seq)) [
        | inl known ↦
            let (eb, ec) =
              same_outcome r b (take_seq (note_source r f)) f x duplicate calls
                (call_of r.send_fn r.user (ack_frame r f)) h
                (receive-again r f to not_ack rel (rw same_seen known)) in
            arrived-as b noted calls (ack_frame r f ∷ []) []
              (eb ∙ ap (λ (t : Endpoint). take_seq t) unchanged) (rw (ec, v.receiver_sends) refl)
              (rw (ec, v.receiver_sends) refl) (repeat (rw (sym from, sym session) known))
        | inr new ↦
            let new' : seen_contains r.seen s.sender.my_addr s.sender.session f.seq ≡ false =
              rw (sym from, sym session) new in
            let few : used r.seen < length r.seen = omega (
              arith,
              v.spare,
              v.seen_length,
              room,
              missing_positive s.sender.my_addr s.sender.session r.seen f s.accepted m new',
            ) in
            let (i, e, at, free, learnt) = note_seen-room noted f few in
            let (eb, ec) =
              same_outcome r b (note_seen (take_seq (note_source r f)) f) f x delivered calls
                (call_of r.send_fn r.user (ack_frame r f) ++ call_of r.deliver_fn r.user f) h
                (receive-fresh r f to not_ack rel (rw same_seen new)) in
            arrived-as b (record noted { seen = set r.seen i (seen_entry f.src f.session f.seq) })
              calls (ack_frame r f ∷ []) (f ∷ [])
              (eb ∙ ap (λ (t : Endpoint). note_seen (take_seq t) f) unchanged ∙ learnt)
              (rw (ec, v.receiver_sends, v.receiver_delivers) refl)
              (rw (ec, v.receiver_sends, v.receiver_delivers) refl) (fresh i e new' at free)
      ]

  -- A frame for the other end.
  pub arrived-foreign :
      (f : Frame) (x : Rx) (b : Endpoint) (calls : Calls)
      → Inv s
      → f.dst ≡ s.sender.my_addr
      → receive s.receiver f ≡ done (x, (b, calls))
      → P s
      → P (record s {
        receiver = b;
        network = sent calls ++ s.network;
        delivered = handed calls ++ s.delivered;
      })
  arrived-foreign f x b calls v back h k =
      let r = s.receiver in
      let other = unequal f.dst r.my_addr (λ e. v.apart (sym back ∙ e)) in
      let (eb, ec) = same_outcome r b r f x ignored calls [] h (receive-foreign r f other) in
      arrived-as b r calls [] [] eb (ap sent ec) (ap handed ec) k

  answered-as :
      (a c : Endpoint) (calls : Calls)
      → a ≡ c
      → calls ≡ []
      → P (record s { sender = c })
      → P (record s { sender = a; network = sent calls ++ s.network })
  answered-as a c calls e p v = rw (e, p) v

  pub answered-foreign :
      (f : Frame) (x : Rx) (a : Endpoint) (calls : Calls)
      → Inv s
      → In f s.accepted
      → receive s.sender f ≡ done (x, (a, calls))
      → P s
      → P (record s { sender = a; network = sent calls ++ s.network })
  answered-foreign f x a calls v m h k =
      let r = s.sender in
      let to =
        (All-In (IsMessage r.my_addr s.receiver.my_addr r.session) f s.accepted v.messages m).1 in
      let other = unequal f.dst r.my_addr (λ e. v.apart (sym e ∙ to)) in
      let (ea, ec) = same_outcome r a r f x ignored calls [] h (receive-foreign r f other) in
      answered-as a r calls ea ec k

  -- An acknowledgement at the sender changes nothing, or may clear an entry.
  pub answered-ack :
      (f : Frame) (x : Rx) (a : Endpoint) (calls : Calls)
      → f.dst ≡ s.sender.my_addr
      → is_ack_frame f ≡ true
      → receive s.sender f ≡ done (x, (a, calls))
      → P s
      → ((seq : ℕ)
          → ((n : ℕ) → n < 2 ^ 16 → f.payload ≡ some (be16 n) → seq ≡ n)
          → P (record s {
            sender = record s.sender {
              pending = clear_pending s.sender.pending f.src s.sender.session seq;
            };
          }))
      → P (record s { sender = a; network = sent calls ++ s.network })
  answered-ack f x a calls back is_ack h k clear =
      let r = s.sender in
      let (ec, outcome) = receive-IsCleared r a f x calls back is_ack h in
      elim outcome [
        | inl ea ↦ answered-as a r calls ea ec k
        | inr (seq, named, ea) ↦
            answered-as a (record r { pending = clear_pending r.pending f.src r.session seq }) calls
              ea ec (clear seq named)
      ]

  pub originated :
      (family type flags : ℕ) (payload : Ptr Bytes) (len now_ms n : ℕ) (a : Endpoint)
      (calls : Calls)
      → Inv s
      → send s.sender s.receiver.my_addr family type flags true payload len now_ms
        ≡ done (ok n, (a, calls))
      → ((i : ℕ) (old p : Pending)
          → get_elem? s.sender.pending i ≡ some old
          → old.in_use ≡ false
          → p.in_use ≡ true
          → p.seq ≡ s.sender.next_seq
          → p.family ≡ family
          → p.type ≡ type
          → p.dst ≡ s.receiver.my_addr
          → p.session ≡ s.sender.session
          → p.flags ≡ bit_or flags flag_reliable
          → P (record s {
            sender = record s.sender {
              next_seq = u16 (s.sender.next_seq + 1);
              pending = set s.sender.pending i p;
            };
            network = pending_to_frame p s.sender.my_addr ∷ s.network;
            accepted = pending_to_frame p s.sender.my_addr ∷ s.accepted;
          }))
      → P (record s {
        sender = a;
        network = sent calls ++ s.network;
        accepted = sent calls ++ s.accepted;
      })
  unfolding take_seq emit_frame
  originated family type flags payload len now_ms n a calls v h k =
      let r = s.sender in
      let filled = send-inv r s.receiver.my_addr family type flags payload len now_ms n a calls h in
      let p =
        staged (take_seq r) filled.out s.receiver.my_addr family type (bit_or flags flag_reliable)
          r.next_seq len now_ms in
      let f = pending_to_frame p r.my_addr in
      let put : sent calls ≡ f ∷ [] =
        ap sent filled.is_sent ∙ sent-call_of r.send_fn r.user f v.sender_sends in
      rw (filled.is_next, put)
        (k filled.i filled.old p filled.is_at filled.is_free refl refl refl refl refl refl refl)

  pub refused :
      (dst family type flags : ℕ) (reliable : Bool) (payload : Ptr Bytes) (len now_ms : ℕ)
      (x : Error) (a : Endpoint) (calls : Calls)
      → send s.sender dst family type flags reliable payload len now_ms ≡ done (err x, (a, calls))
      → P s
      → P (record s { sender = record s.sender { next_seq = u16 (s.sender.next_seq + 1) } })
      → P (record s { sender = a; network = sent calls ++ s.network })
  unfolding take_seq
  refused dst family type flags reliable payload len now_ms x a calls h k l =
      let r = s.sender in
      let (ec, outcome) =
        send-err r dst family type flags reliable payload len now_ms x a calls h in
      elim outcome [
        | inl ea ↦ answered-as a r calls ea ec k
        | inr ea ↦ answered-as a (take_seq r) calls ea ec l
      ]

  pub retried :
      (now_ms : ℕ) (a : Endpoint) (calls : Calls)
      → tick s.sender now_ms ≡ (a, calls)
      → (let o = tick_loop s.sender now_ms s.sender.pending in
          P (record s {
            sender = record s.sender { pending = o.0 };
            network = sent o.1 ++ s.network;
            failed = reported o.1 ++ s.failed;
          }))
      → P (record s {
        sender = a;
        network = sent calls ++ s.network;
        failed = reported calls ++ s.failed;
      })
  unfolding tick
  retried now_ms a calls h k =
      subst
        (λ (o : Endpoint × Calls). P (record s {
          sender = o.0;
          network = sent o.1 ++ s.network;
          failed = reported o.1 ++ s.failed;
        }))
        h k
