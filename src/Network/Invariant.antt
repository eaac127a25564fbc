-- ===== src/Network/Invariant.antt =====
-- The invariant of two endpoints of src/arc_reliable.c on the network.
use arc_protocol.Prelude.{ℕ, zero, suc, ◌≡◌, ◌≢◌, ◌≤◌, ◌+◌, ◌==◌, refl, sym, ◌⊎◌, inl, inr, arith}
use arc_protocol.Prelude.{true, false, some, List, [], ◌∷◌, ◌++◌, get_elem?, set, bit_and, length}
use mathlib.Core.Path.{subst}
use arc_protocol.Protocol.{Frame, flag_reliable}
use arc_protocol.Reliable.{Pending, pending_to_frame, is_ack_frame}
use arc_protocol.Reliable.{source_session_changed, seen_contains}
use arc_protocol.Reliable.History.{noted-unchanged}
use arc_protocol.Network.{on_send, on_deliver, on_fail, System, In, All, IsDistinct}
use arc_protocol.Network.Traffic.{IsQueued, IsQueued-append, IsQueued-set, In-append, All-append}
use arc_protocol.Network.History.{used, missing, missing-append}

-- A frame on the network is one that the sender accepted, or an acknowledgement back to it.
abbrev pub IsTraffic : ℕ → List Frame → Frame → Type 0
IsTraffic addr fs f = In f fs ⊎ ((f.dst ≡ addr) × (is_ack_frame f ≡ true))

-- An accepted frame: a reliable message between the two.
abbrev pub IsMessage : (from to session : ℕ) → Frame → Type 0
IsMessage from to session f =
    (f.src ≡ from)
    × (f.dst ≡ to)
    × (f.session ≡ session)
    × (is_ack_frame f ≡ false)
    × ((bit_and f.flags flag_reliable == 0) ≡ false)

pub record Inv (s : System) : Type 0 where
  pub apart : s.sender.my_addr ≢ s.receiver.my_addr
  pub sender_sends : s.sender.send_fn ≡ some on_send
  pub sender_fails : s.sender.fail_fn ≡ some on_fail
  pub receiver_sends : s.receiver.send_fn ≡ some on_send
  pub receiver_delivers : s.receiver.deliver_fn ≡ some on_deliver
  pub traffic : All (IsTraffic s.sender.my_addr s.accepted) s.network
  pub messages : All (IsMessage s.sender.my_addr s.receiver.my_addr s.sender.session) s.accepted
  pub queued : IsQueued s.sender.my_addr s.accepted s.sender.pending
  pub one_session :
      (source_session_changed s.receiver.sources s.sender.my_addr s.sender.session).0 ≡ false
  pub seen_length : length s.receiver.seen ≡ 16
  pub spare :
      used s.receiver.seen + missing s.sender.my_addr s.sender.session s.receiver.seen s.accepted
      ≤ length s.accepted
  pub known :
      All
        (λ f. seen_contains s.receiver.seen s.sender.my_addr s.sender.session f.seq ≡ true)
        s.delivered
  pub distinct : IsDistinct s.delivered
  pub genuine : All (λ f. In f s.accepted) s.delivered

pub All-map :
    {P Q : Frame → Type 0} (h : (f : Frame) → P f → Q f) (fs : List Frame) → All P fs → All Q fs
All-map h [] a = tt
All-map h (f ∷ fs) (a, rest) = (h f a, All-map h fs rest)

pub All-In : (P : Frame → Type 0) (f : Frame) (fs : List Frame) → All P fs → In f fs → P f
All-In P f [] a m = absurd m
All-In P f (g ∷ gs) (a, rest) (inl e) = subst P (sym e) a
All-In P f (g ∷ gs) (a, rest) (inr m) = All-In P f gs rest m

pub All-get :
    (P : Frame → Type 0) (fs : List Frame) (i : ℕ) (f : Frame)
    → All P fs
    → get_elem? fs i ≡ some f
    → P f
All-get P [] i f a e = ground (arith, e)
All-get P (g ∷ gs) zero f (a, rest) e = let same : g ≡ f = ground (arith, e) in subst P same a
All-get P (g ∷ gs) (suc i) f (a, rest) e = All-get P gs i f rest e

IsTraffic-append :
    (addr : ℕ) (more fs : List Frame) (f : Frame)
    → IsTraffic addr fs f
    → IsTraffic addr (more ++ fs) f
IsTraffic-append addr more fs f (inl m) = inl (In-append f more fs m)
IsTraffic-append addr more fs f (inr a) = inr a

-- A send that is accepted.
pub Inv-originate :
    (s : System) (i : ℕ) (p : Pending) (n : ℕ)
    → Inv s
    → IsMessage s.sender.my_addr s.receiver.my_addr s.sender.session
        (pending_to_frame p s.sender.my_addr)
    → let f = pending_to_frame p s.sender.my_addr in
      Inv (record s {
        sender = record s.sender { next_seq = n; pending = set s.sender.pending i p };
        network = f ∷ s.network;
        accepted = f ∷ s.accepted;
      })
Inv-originate s i p n v m =
    let addr = s.sender.my_addr in
    let f = pending_to_frame p addr in
    record {
      apart = v.apart;
      sender_sends = v.sender_sends;
      sender_fails = v.sender_fails;
      receiver_sends = v.receiver_sends;
      receiver_delivers = v.receiver_delivers;
      traffic =
          (inl (inl refl), All-map (IsTraffic-append addr (f ∷ []) s.accepted) s.network v.traffic);
      messages = (m, v.messages);
      queued =
          IsQueued-set addr (f ∷ s.accepted) s.sender.pending i p
            (IsQueued-append addr (f ∷ []) s.accepted s.sender.pending v.queued) (λ u. inl refl);
      one_session = v.one_session;
      seen_length = v.seen_length;
      spare = omega (
        arith,
        v.spare,
        missing-append addr s.sender.session s.receiver.seen (f ∷ []) s.accepted,
      );
      known = v.known;
      distinct = v.distinct;
      genuine = All-map (λ g k. inr k) s.delivered v.genuine;
    }

-- A tick, or an acknowledgement: the sender's table changes, and frames are sent again.
pub Inv-sender :
    (s : System) (n : ℕ) (ps : List Pending) (more fails : List Frame)
    → Inv s
    → IsQueued s.sender.my_addr s.accepted ps
    → All (λ f. In f s.accepted) more
    → Inv (record s {
      sender = record s.sender { next_seq = n; pending = ps };
      network = more ++ s.network;
      failed = fails;
    })
Inv-sender s n ps more fails v q again = record {
  apart = v.apart;
  sender_sends = v.sender_sends;
  sender_fails = v.sender_fails;
  receiver_sends = v.receiver_sends;
  receiver_delivers = v.receiver_delivers;
  traffic =
      All-append (IsTraffic s.sender.my_addr s.accepted) more s.network
        (All-map (λ f m. inl m) more again) v.traffic;
  messages = v.messages;
  queued = q;
  one_session = v.one_session;
  seen_length = v.seen_length;
  spare = v.spare;
  known = v.known;
  distinct = v.distinct;
  genuine = v.genuine;
}

-- A frame that comes again: the receiver acknowledges it.
pub Inv-repeat :
    (s : System) (f g : Frame) (n : ℕ)
    → Inv s
    → f.src ≡ s.sender.my_addr
    → f.session ≡ s.sender.session
    → g.dst ≡ s.sender.my_addr
    → is_ack_frame g ≡ true
    → Inv (record s {
      receiver = record s.receiver {
        next_seq = n;
        sources = (source_session_changed s.receiver.sources f.src f.session).1;
      };
      network = g ∷ s.network;
    })
Inv-repeat s f g n v from session back is_ack = record {
  apart = v.apart;
  sender_sends = v.sender_sends;
  sender_fails = v.sender_fails;
  receiver_sends = v.receiver_sends;
  receiver_delivers = v.receiver_delivers;
  traffic = (inr (back, is_ack), v.traffic);
  messages = v.messages;
  queued = v.queued;
  one_session =
      rw (from, session) (noted-unchanged s.receiver.sources s.sender.my_addr s.sender.session);
  seen_length = v.seen_length;
  spare = v.spare;
  known = v.known;
  distinct = v.distinct;
  genuine = v.genuine;
}
