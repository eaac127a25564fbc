-- ===== src/Tests/Routes.antt =====
-- Instances for src/arc_router.c.
use arc_protocol.Prelude.{
  ℕ, ◌≡◌, ◌≢◌, refl, arith, ◌∷◌, some, none, get_elem?, replicate, true, false, ◌⊎◌, [],
}
use arc_protocol.Prelude.Int.{pos, negsuc}
use arc_protocol.Memory.{done}
use arc_protocol.Protocol.{Frame, Result, ok, err, err_bad_arg}
use arc_protocol.Router.{
  Link, Router, free_link, free_route, init, add_link, alloc_link, add_route, set_default, send_on,
  route,
}
use arc_protocol.Router.{put_route, replace_route, alloc_route, link_in_use}
use arc_protocol.Router.Invariant.{IsValid, init-IsValid, add_route-IsValid, used_at}
use arc_protocol.Router.Default.{route-set_default}
use arc_protocol.Router.{find_route}
use arc_protocol.Router.Routing.{RouteOutcome, route-IsValid}
use arc_protocol.Router.Growth.{route-add_route, route-add_link}

abbrev empty : Router ℕ ℕ
empty = init 1 none none

abbrev uplink : Link ℕ ℕ
uplink = record { in_use = true; send_fn = some 7; user = none }

abbrev linked : Router ℕ ℕ
linked = record empty { links = uplink ∷ replicate 5 free_link }

abbrev routed : Router ℕ ℕ
routed = record linked {
  routes = record { in_use = true; dst = 9; link_idx = 0 } ∷ replicate 15 free_route;
}

abbrev message : Frame
message = record {
  src = 1;
  dst = 9;
  flags = 0;
  session = 0;
  seq = 0;
  family = 0;
  type = 0;
  payload = none;
  payload_len = 0;
}

link_added : add_link empty (some 7) none ≡ (ok 0, linked)
unfolding add_link alloc_link init
link_added = refl

nine_not_one : message.dst ≢ linked.my_addr
unfolding init
nine_not_one = λ e. ground (arith, e)

eight_not_nine : (record message { dst = 8 }).dst ≢ 9
eight_not_nine = λ e. ground (arith, e)

route_added : add_route linked 9 (pos 0) ≡ done (ok tt, routed)
unfolding add_route put_route replace_route alloc_route link_in_use init
route_added = refl

route-add_link_example :
    IsValid linked
    × (get_elem? linked.links 0 ≡ some uplink)
    × ((frame : Frame) → route linked frame ≡ route empty frame)
route-add_link_example =
    route-add_link empty linked (some 7) none 0 (init-IsValid 1 none none) link_added

linked-IsValid : IsValid linked
linked-IsValid =
    (route-add_link empty linked (some 7) none 0 (init-IsValid 1 none none) link_added).0

route-add_route_example :
    (i : ℕ) × (l : Link ℕ ℕ) × (pos 0 ≡ pos i)
    × (get_elem? linked.links i ≡ some l)
    × (l.in_use ≡ true)
    × (route routed message ≡ done (send_on l message))
route-add_route_example =
    route-add_route linked routed 9 (pos 0) message linked-IsValid route_added nine_not_one refl

route-IsValid_example : RouteOutcome linked message
route-IsValid_example = route-IsValid linked message linked-IsValid

add_route-IsValid_example :
    (a : Result (Unit {0})) × (r' : Router ℕ ℕ) × (add_route linked 9 (pos 3) ≡ done (a, r'))
    × IsValid r'
add_route-IsValid_example = add_route-IsValid linked 9 (pos 3) linked-IsValid

route-set_default_example :
    ((n : ℕ) × (pos 0 ≡ negsuc n)
      × (set_default linked (pos 0) ≡ done (ok tt, record linked { default_link_idx = none }))
      × IsValid (record linked { default_link_idx = none })
      × (route (record linked { default_link_idx = none }) message ≡ done (err err_bad_arg, [])))
    ⊎ (((i : ℕ) × (pos 0 ≡ pos i)
          × (used_at linked.links i ≡ false)
          × (set_default linked (pos 0) ≡ done (err err_bad_arg, linked)))
        ⊎ ((i : ℕ) × (l : Link ℕ ℕ) × (pos 0 ≡ pos i)
            × (get_elem? linked.links i ≡ some l)
            × (l.in_use ≡ true)
            × (set_default linked (pos 0)
                ≡ done (ok tt, record linked { default_link_idx = some i }))
            × IsValid (record linked { default_link_idx = some i })
            × (route (record linked { default_link_idx = some i }) message
                ≡ done (send_on l message))))
unfolding init find_route
route-set_default_example =
    route-set_default linked (pos 0) message linked-IsValid nine_not_one refl
