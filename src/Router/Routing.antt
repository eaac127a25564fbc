-- ===== src/Router/Routing.antt =====
-- Where the router of src/arc_router.c sends a frame.
use arc_protocol.Prelude.{ℕ, zero, suc, ◌==◌, ◌≡◌, ◌≢◌, refl, arith, sym}
use arc_protocol.Prelude.{
  Option, none, some, List, [], ◌∷◌, true, Bool-cases, inl, inr, get_elem?, ◌⊎◌,
}
use arc_protocol.Prelude.{Option-cases}
use mathlib.Core.Path.{subst}
use arc_protocol.Memory.{Ptr, Run, done}
use arc_protocol.Protocol.{Frame, Result, ok, err, err_bad_arg}
use arc_protocol.Router.{Link, Router, Action, local, forwarded, Call, find_route, choose, call_of}
use arc_protocol.Router.{send_on, route}
use arc_protocol.Router.Invariant.{used_at, IsValid}

module _ {Fn User : Type 0} where
  -- A link in use is there to be read.
  pub used_link :
      (links : List (Link Fn User)) (i : ℕ)
      → used_at links i ≡ true
      → (l : Link Fn User) × (get_elem? links i ≡ some l) × (l.in_use ≡ true)
  used_link [] i h = absurd (cc)
  used_link (l ∷ ls) zero h = (l, refl, h)
  used_link (l ∷ ls) (suc i) h = used_link ls i h

  abbrev pub destination : Router Fn User → ℕ → Option ℕ
  destination r dst = choose (find_route r.routes dst) r.default_link_idx

  pub destination_used :
      (r : Router Fn User) (dst i : ℕ)
      → IsValid r
      → destination r dst ≡ some i
      → used_at r.links i ≡ true
  destination_used r dst i v e = elim (Option-cases (find_route r.routes dst)) [
    | inl f ↦ v.default_linked i (ground (arith, e, f))
    | inr (j, f) ↦ v.routes_linked dst i (ground (arith, e, f))
  ]

  -- The frame of another node, by the link that is chosen.
  pub route_by :
      (r : Router Fn User) (frame : Frame) (i : ℕ) (l : Link Fn User)
      → frame.dst ≢ r.my_addr
      → destination r frame.dst ≡ some i
      → get_elem? r.links i ≡ some l
      → route r frame ≡ done (send_on l frame)
  unfolding route
  route_by r frame i l ne e g = ground (arith, e, g)

  pub route-none :
      (r : Router Fn User) (frame : Frame)
      → frame.dst ≢ r.my_addr
      → destination r frame.dst ≡ none
      → route r frame ≡ done (err err_bad_arg, [])
  unfolding route
  route-none r frame ne e = ground (arith, e)

  -- What a link in use does with a frame.
  abbrev pub IsSent : Ptr Fn → Ptr User → Frame → Run (Result Action × List (Call Fn User)) → Type 0
  IsSent none user frame out = out ≡ done (err err_bad_arg, [])
  IsSent (some fn) user frame out =
      out ≡ done (ok forwarded, record { fn = fn; user = user; frame = frame } ∷ [])

  send_on-IsSent :
      (l : Link Fn User) (frame : Frame)
      → l.in_use ≡ true
      → IsSent l.send_fn l.user frame (done (send_on l frame))
  unfolding send_on
  send_on-IsSent l frame used = elim (Option-cases l.send_fn) [
    | inl e ↦ rw e (rw used)
    | inr (fn, e) ↦ rw e (rw used)
  ]

  -- The three things that can happen to a frame.
  abbrev pub RouteOutcome : Router Fn User → Frame → Type 0
  RouteOutcome r frame =
      ((frame.dst ≡ r.my_addr)
        × (route r frame ≡ done (ok local, call_of r.local_fn r.local_user frame)))
      ⊎ (((frame.dst ≢ r.my_addr)
            × (destination r frame.dst ≡ none)
            × (route r frame ≡ done (err err_bad_arg, [])))
          ⊎ ((frame.dst ≢ r.my_addr)
              × (i : ℕ) × (l : Link Fn User) × (destination r frame.dst ≡ some i)
              × (get_elem? r.links i ≡ some l)
              × IsSent l.send_fn l.user frame (route r frame)))

  -- On a valid router `arc_router_route` never leaves its tables: a frame for this node goes to the
  -- local handler, one with neither a route nor a default is refused, and any other goes to the
  -- chosen link, once, or is refused if that link has no callback.
  pub route-IsValid : (r : Router Fn User) (frame : Frame) → IsValid r → RouteOutcome r frame
  route-IsValid r frame v = elim (Bool-cases (frame.dst == r.my_addr)) [
    | inl e ↦ inl (ground (arith, e), unfold route in rw e)
    | inr e ↦ elim (Option-cases (destination r frame.dst)) [
      | inl f ↦ inr (inl (ground (arith, e), f, route-none r frame (ground (arith, e)) f))
      | inr (i, f) ↦
          let (l, g, used) = used_link r.links i (destination_used r frame.dst i v f) in
          inr (
            inr (
              ground (arith, e),
              i,
              l,
              f,
              g,
              subst
                  (λ (o : Run (Result Action × List (Call Fn User))).
                    IsSent l.send_fn l.user frame o)
                  (sym (route_by r frame i l (ground (arith, e)) f g))
                  (send_on-IsSent l frame used),
            ))
    ]
  ]
