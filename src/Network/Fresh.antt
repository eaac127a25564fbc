-- ===== src/Network/Fresh.antt =====
-- A frame that is new to the receiver of src/arc_reliable.c on the network, and the duplicate
-- filter.
use arc_protocol.Prelude.{◌∙◌}
use arc_protocol.Prelude.{ℕ, ◌≡◌, ◌≢◌, refl, sym, ap, inr, arith}
use arc_protocol.Prelude.{true, false, some, List, ◌∷◌, get_elem?, set}
use arc_protocol.Protocol.{Frame}
use arc_protocol.Reliable.{Seen, is_ack_frame, source_session_changed, seen_contains, seen_entry}
use arc_protocol.Reliable.Slots.{length-set, seen_contains-set, get_elem?-lt}
use arc_protocol.Reliable.History.{noted-unchanged, seen_entry-matches}
use arc_protocol.Network.{System, In}
use arc_protocol.Network.History.{used-set, missing-lt, seen_contains-set_free}
use arc_protocol.Network.Invariant.{Inv, All-map}

-- What the filter knows and what it does not are different sequence numbers.
different_seq :
    (ss : List Seen) (src session m n : ℕ)
    → seen_contains ss src session m ≡ false
    → seen_contains ss src session n ≡ true
    → m ≢ n
different_seq ss src session m n new known e =
    let clash : false ≡ true = sym new ∙ ap (λ k. seen_contains ss src session k) e ∙ known in cc

pub Inv-fresh :
    (s : System) (f g : Frame) (n i : ℕ) (e : Seen)
    → Inv s
    → In f s.accepted
    → f.src ≡ s.sender.my_addr
    → f.session ≡ s.sender.session
    → seen_contains s.receiver.seen s.sender.my_addr s.sender.session f.seq ≡ false
    → g.dst ≡ s.sender.my_addr
    → is_ack_frame g ≡ true
    → get_elem? s.receiver.seen i ≡ some e
    → e.in_use ≡ false
    → Inv (record s {
      receiver = record s.receiver {
        next_seq = n;
        sources = (source_session_changed s.receiver.sources f.src f.session).1;
        seen = set s.receiver.seen i (seen_entry f.src f.session f.seq);
      };
      network = g ∷ s.network;
      delivered = f ∷ s.delivered;
    })
Inv-fresh s f g n i e v m from session new back is_ack at free =
    let addr = s.sender.my_addr in
    let ses = s.sender.session in
    let ss = s.receiver.seen in
    let entry = seen_entry f.src f.session f.seq in
    let now_known : seen_contains (set ss i entry) addr ses f.seq ≡ true =
      rw (from, session)
        (seen_contains-set ss i addr ses f.seq (seen_entry addr ses f.seq) (get_elem?-lt ss i e at)
          (seen_entry-matches addr ses f.seq)) in
    let keeps : (seq : ℕ)
        → seen_contains ss addr ses seq ≡ true
        → seen_contains (set ss i entry) addr ses seq ≡ true =
      (λ seq h. seen_contains-set_free ss i e entry addr ses seq at free h) in
    record {
      apart = v.apart;
      sender_sends = v.sender_sends;
      sender_fails = v.sender_fails;
      receiver_sends = v.receiver_sends;
      receiver_delivers = v.receiver_delivers;
      traffic = (inr (back, is_ack), v.traffic);
      messages = v.messages;
      queued = v.queued;
      one_session = rw (from, session) (noted-unchanged s.receiver.sources addr ses);
      seen_length = length-set ss i entry ∙ v.seen_length;
      spare = omega (
        arith,
        v.spare,
        used-set ss i e entry at free refl,
        missing-lt addr ses ss (set ss i entry) keeps f s.accepted m new now_known,
      );
      known = (now_known, All-map (λ h k. keeps h.seq k) s.delivered v.known);
      distinct = (
        All-map (λ h k. different_seq ss addr ses f.seq h.seq new k) s.delivered v.known,
        v.distinct,
      );
      genuine = (m, v.genuine);
    }
