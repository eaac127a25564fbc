-- ===== src/Network.antt =====
-- Two endpoints of src/arc_reliable.c on a network that loses, repeats and reorders frames: what is
-- once on the network may arrive any number of times, at any time, at either end.
pub mod History
pub mod Traffic
pub mod Arrival
pub mod Invariant
pub mod Fresh
pub mod Effects
pub mod Steps
pub mod Ledger
pub mod Moves
pub mod Once
pub mod Settled
use arc_protocol.Prelude.{ℕ, ◌==◌, ◌&&◌, ◌≡◌, ◌⊎◌, ◌≢◌, if◌then◌else◌, Bool, true, false}
use arc_protocol.Prelude.{none, some, List, [], ◌∷◌, ◌++◌, get_elem?}
use arc_protocol.Memory.{Bytes, Ptr, done}
use arc_protocol.Protocol.{Frame, Error, ok, err, family_netmgmt, netmgmt_ack}
use arc_protocol.Router.{Call}
use arc_protocol.Reliable.{Reliable, Rx, init, send, receive, tick}

-- What the embedder hooks up to the endpoint.
pub data Callback : Type 0 where
  on_send on_deliver on_fail : Callback

abbrev pub Endpoint : Type 0
Endpoint = Reliable Callback (Unit {0})

abbrev pub Calls : Type 0
Calls = List (Call Callback (Unit {0}))

abbrev pub is_send : Callback → Bool
is_send on_send = true
is_send on_deliver = false
is_send on_fail = false

abbrev pub is_deliver : Callback → Bool
is_deliver on_send = false
is_deliver on_deliver = true
is_deliver on_fail = false

abbrev pub is_fail : Callback → Bool
is_fail on_send = false
is_fail on_deliver = false
is_fail on_fail = true

-- The frames that some calls put on the network, that they hand to the application, and that they
-- report to it as failed.
abbrev pub sent : Calls → List Frame
sent [] = []
sent (c ∷ cs) = if is_send c.fn then c.frame ∷ sent cs else sent cs

abbrev pub handed : Calls → List Frame
handed [] = []
handed (c ∷ cs) = if is_deliver c.fn then c.frame ∷ handed cs else handed cs

abbrev pub reported : Calls → List Frame
reported [] = []
reported (c ∷ cs) = if is_fail c.fn then c.frame ∷ reported cs else reported cs

-- `accepted` are the frames of the sends that returned `ARC_OK`, `delivered` what the receiver's
-- application was given, `failed` what the sender's application was told has failed, the last
-- first.
pub record System : Type 0 where
  pub sender : Endpoint
  pub receiver : Endpoint
  pub network : List Frame
  pub accepted : List Frame
  pub delivered : List Frame
  pub failed : List Frame

-- A reliable send, a send that gives an error, a tick, and an arrival at the receiver or back at the sender.
pub data Step (s : System) : System → Type 0 where
  originate :
      (family type flags : ℕ) (payload : Ptr Bytes) (len now_ms n : ℕ) (a : Endpoint)
      (calls : Calls)
      → (family == family_netmgmt && type == netmgmt_ack) ≡ false
      → send s.sender s.receiver.my_addr family type flags true payload len now_ms
        ≡ done (ok n, (a, calls))
      → Step s (record s {
        sender = a;
        network = sent calls ++ s.network;
        accepted = sent calls ++ s.accepted;
      })
  refuse :
      (dst family type flags : ℕ) (reliable : Bool) (payload : Ptr Bytes) (len now_ms : ℕ)
      (e : Error) (a : Endpoint) (calls : Calls)
      → send s.sender dst family type flags reliable payload len now_ms ≡ done (err e, (a, calls))
      → Step s (record s { sender = a; network = sent calls ++ s.network })
  retry :
      (now_ms : ℕ) (a : Endpoint) (calls : Calls)
      → tick s.sender now_ms ≡ (a, calls)
      → Step s (record s {
        sender = a;
        network = sent calls ++ s.network;
        failed = reported calls ++ s.failed;
      })
  arrive :
      (i : ℕ) (f : Frame) (x : Rx) (b : Endpoint) (calls : Calls)
      → get_elem? s.network i ≡ some f
      → receive s.receiver f ≡ done (x, (b, calls))
      → Step s (record s {
        receiver = b;
        network = sent calls ++ s.network;
        delivered = handed calls ++ s.delivered;
      })
  answer :
      (i : ℕ) (f : Frame) (x : Rx) (a : Endpoint) (calls : Calls)
      → get_elem? s.network i ≡ some f
      → receive s.sender f ≡ done (x, (a, calls))
      → Step s (record s { sender = a; network = sent calls ++ s.network })

-- Two endpoints after `arc_reliable_init`, with every callback hooked up, and nothing sent yet.
abbrev pub endpoint : (addr session timeout_ms max_retries first_seq : ℕ) → Endpoint
endpoint addr session timeout_ms max_retries first_seq =
    init addr session timeout_ms max_retries first_seq (some on_send) (some on_deliver)
      (some on_fail) none

abbrev pub start : Endpoint → Endpoint → System
start a b = record {
  sender = a;
  receiver = b;
  network = [];
  accepted = [];
  delivered = [];
  failed = [];
}

pub data Reach (s : System) : System → Type 0 where
  here : Reach s s
  later : {t u : System} → Reach s t → Step t u → Reach s u

-- Membership and quantification over lists of frames.
abbrev pub In : Frame → List Frame → Type 0
In f [] = ⊥
In f (g ∷ gs) = (f ≡ g) ⊎ In f gs

abbrev pub All : (Frame → Type 0) → List Frame → Type 0
All P [] = Unit
All P (f ∷ fs) = P f × All P fs

-- No two of the frames have the same sequence number.
abbrev pub IsDistinct : List Frame → Type 0
IsDistinct [] = Unit
IsDistinct (f ∷ fs) = All (λ g. f.seq ≢ g.seq) fs × IsDistinct fs
