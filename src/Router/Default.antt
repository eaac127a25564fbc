-- ===== src/Router/Default.antt =====
-- The default link: `arc_router_set_default` of src/arc_router.c, with the routing of frames that
-- have no route of their own.
use arc_protocol.Prelude.{ℕ, zero, suc, ltb, ◌≡◌, ◌≢◌, refl, arith, length, get_elem?}
use arc_protocol.Prelude.{none, some, List, [], ◌∷◌, true, false, Bool-cases, inl, inr, ◌⊎◌, ◌≤◌}
use arc_protocol.Prelude.Int.{ℤ, pos, negsuc}
use arc_protocol.Memory.{done}
use arc_protocol.Protocol.{Frame, ok, err, err_bad_arg}
use arc_protocol.Router.{Link, Router, find_route, link_in_use, set_default, send_on, route}
use arc_protocol.Router.Invariant.{used_at, IsValid, link_in_use_lem}
use arc_protocol.Router.Routing.{used_link, route_by, route-none}

module _ {Fn User : Type 0} where
  -- Past the table no link is in use.
  used_at-past : (ls : List (Link Fn User)) (i : ℕ) → length ls ≤ i → used_at ls i ≡ false
  used_at-past [] i h = refl
  used_at-past (l ∷ ls) zero h = absurd (omega arith)
  used_at-past (l ∷ ls) (suc i) h = used_at-past ls i (omega arith)

  set_default-refuses :
      (r : Router Fn User) (i : ℕ)
      → IsValid r
      → used_at r.links i ≡ false
      → set_default r (pos i) ≡ done (err err_bad_arg, r)
  unfolding set_default link_in_use
  set_default-refuses r i v free = elim (Bool-cases (ltb i 6)) [
    | inr e ↦ rw e
    | inl e ↦ rw (e, link_in_use_lem r.links i (ground (arith, e, v.link_count)), free)
  ]

  set_default-sets :
      (r : Router Fn User) (i : ℕ)
      → IsValid r
      → used_at r.links i ≡ true
      → set_default r (pos i) ≡ done (ok tt, record r { default_link_idx = some i })
  unfolding set_default link_in_use
  set_default-sets r i v used = elim (Bool-cases (ltb i 6)) [
    | inr e ↦
        let past = used_at-past r.links i (ground (arith, e, v.link_count)) in
        absurd (cc (past, used))
    | inl e ↦ rw (e, link_in_use_lem r.links i (ground (arith, e, v.link_count)), used)
  ]

  cleared-IsValid :
      (r : Router Fn User) → IsValid r → IsValid (record r { default_link_idx = none })
  cleared-IsValid r v = record {
    link_count = v.link_count;
    route_count = v.route_count;
    one_route = v.one_route;
    routes_linked = v.routes_linked;
    default_linked = λ i e. cc;
  }

  set-IsValid :
      (r : Router Fn User) (i : ℕ)
      → IsValid r
      → used_at r.links i ≡ true
      → IsValid (record r { default_link_idx = some i })
  set-IsValid r i v used = record {
    link_count = v.link_count;
    route_count = v.route_count;
    one_route = v.one_route;
    routes_linked = v.routes_linked;
    default_linked = λ j f. ground (arith, used, f);
  }

  -- On a valid router, and for a frame for another node that has no route, `arc_router_set_default`
  -- does one of three things. A negative index clears the default, and the frame is then refused.
  -- An index that is no link in use is refused, and the router stays as it was. Any other index is
  -- made the default, and the frame then goes by that link, which is in use. The default is all
  -- that changes, and the router stays valid.
  pub route-set_default :
      (r : Router Fn User) (link_idx : ℤ) (frame : Frame)
      → IsValid r
      → frame.dst ≢ r.my_addr
      → find_route r.routes frame.dst ≡ none
      → ((n : ℕ) × (link_idx ≡ negsuc n)
          × (set_default r link_idx ≡ done (ok tt, record r { default_link_idx = none }))
          × IsValid (record r { default_link_idx = none })
          × (route (record r { default_link_idx = none }) frame ≡ done (err err_bad_arg, [])))
        ⊎ (((i : ℕ) × (link_idx ≡ pos i)
              × (used_at r.links i ≡ false)
              × (set_default r link_idx ≡ done (err err_bad_arg, r)))
            ⊎ ((i : ℕ) × (l : Link Fn User) × (link_idx ≡ pos i)
                × (get_elem? r.links i ≡ some l)
                × (l.in_use ≡ true)
                × (set_default r link_idx ≡ done (ok tt, record r { default_link_idx = some i }))
                × IsValid (record r { default_link_idx = some i })
                × (route (record r { default_link_idx = some i }) frame ≡ done (send_on l frame))))
  unfolding set_default
  route-set_default r (negsuc n) frame v other absent =
      let r' : Router Fn User = record r { default_link_idx = none } in
      inl (n, refl, refl, cleared-IsValid r v, route-none r' frame other (ground (arith, absent)))
  route-set_default r (pos i) frame v other absent = elim (Bool-cases (used_at r.links i)) [
    | inr free ↦ inr (inl (i, refl, free, set_default-refuses r i v free))
    | inl used ↦
        let (l, at, there) = used_link r.links i used in
        let r' : Router Fn User = record r { default_link_idx = some i } in
        inr (
          inr (
            i,
            l,
            refl,
            at,
            there,
            set_default-sets r i v used,
            set-IsValid r i v used,
            route_by r' frame i l other (ground (arith, absent)) at,
          ))
  ]
