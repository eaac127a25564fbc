-- ===== src/Network/Once.antt =====
-- Deliveries between two endpoints of src/arc_reliable.c on a network that loses, repeats and
-- reorders frames: how often a run hands a message to the receiver's application.
use arc_protocol.Network.{refuse}
use arc_protocol.Network.{here, later, start, Reach, endpoint, IsDistinct, All}
use arc_protocol.Reliable.{init, find_index}
use arc_protocol.Prelude.{ℕ, ◌≢◌, ◌≤◌, refl, arith}
use arc_protocol.Prelude.{length, length-append}
use arc_protocol.Reliable.{source_session_changed}
use arc_protocol.Network.{sent, System, Step, originate, retry, arrive, answer, In}
use arc_protocol.Network.Invariant.{Inv, Inv}
use arc_protocol.Network.History.{used, missing}
use arc_protocol.Network.Steps.{Step-Inv}

pub Step-accepted : (s t : System) → Step s t → length s.accepted ≤ length t.accepted
Step-accepted s t (originate family type flags payload len now_ms n a calls not_ack h) =
    omega (arith, length-append (sent calls) s.accepted)
Step-accepted s t (refuse dst family type flags reliable payload len now_ms x a calls h) =
    omega arith
Step-accepted s t (retry now_ms a calls h) = omega arith
Step-accepted s t (arrive i f x b calls at h) = omega arith
Step-accepted s t (answer i f x a calls at h) = omega arith

Reach-Inv : (s t : System) → Inv s → Reach s t → length t.accepted ≤ 16 → Inv t
Reach-Inv s t v here room = v
Reach-Inv s t v (later {t = u} reach step) room =
    let before : length u.accepted ≤ 16 = omega (arith, room, Step-accepted u t step) in
    Step-Inv u t (Reach-Inv s u v reach before) before step

pub start-Inv :
    (x y : ℕ) (x_session x_timeout x_retries x_seq y_session y_timeout y_retries y_seq : ℕ)
    → x ≢ y
    → Inv (
        start
          (endpoint x x_session x_timeout x_retries x_seq)
          (endpoint y y_session y_timeout y_retries y_seq))
unfolding init source_session_changed find_index used missing
start-Inv x y x_session x_timeout x_retries x_seq y_session y_timeout y_retries y_seq apart =
    record {
      apart = apart;
      sender_sends = refl;
      sender_fails = refl;
      receiver_sends = refl;
      receiver_delivers = refl;
      traffic = tt;
      messages = tt;
      queued = (
        (λ u. cc),
        (
          (λ u. cc),
          ((λ u. cc), ((λ u. cc), ((λ u. cc), ((λ u. cc), ((λ u. cc), ((λ u. cc), tt)))))),
        ),
      );
      one_session = refl;
      seen_length = refl;
      spare = omega arith;
      known = tt;
      distinct = tt;
      genuine = tt;
    }

-- Two endpoints with different addresses start after `arc_reliable_init`, with all callbacks. The
-- one sends reliable messages to the other, no acknowledgements among them, some sends giving an
-- error, and runs its timer;
-- the network loses, repeats and reorders frames at will. In every state reached by such steps in
-- which at most 16 messages have been accepted for sending, the receiver's application has been
-- given no sequence number twice, and only frames that were accepted.
pub delivered_once :
    (x y : ℕ) (x_session x_timeout x_retries x_seq y_session y_timeout y_retries y_seq : ℕ)
    (t : System)
    → x ≢ y
    → Reach
        (start
          (endpoint x x_session x_timeout x_retries x_seq)
          (endpoint y y_session y_timeout y_retries y_seq))
        t
    → length t.accepted ≤ 16
    → IsDistinct t.delivered × All (λ f. In f t.accepted) t.delivered
delivered_once x y x_session x_timeout x_retries x_seq y_session y_timeout y_retries y_seq t apart
      reach room =
    let v =
      Reach-Inv _ t
        (start-Inv x y x_session x_timeout x_retries x_seq y_session y_timeout y_retries y_seq
          apart)
        reach room in
    (v.distinct, v.genuine)
