-- ===== src/Router/Growth.antt =====
-- Routing in src/arc_router.c before and after a route or a link is added.
use arc_protocol.Prelude.{ℕ, zero, suc, ◌+◌, ◌≡◌, ◌≢◌, refl, arith, ap, sym, ◌∙◌}
use arc_protocol.Prelude.{some, List, [], ◌∷◌, true, false, Bool-cases, inl, inr, length, get_elem?}
use arc_protocol.Prelude.{Option-cases}
use mathlib.Core.Path.{subst}
use arc_protocol.Prelude.Int.{ℤ, pos}
use arc_protocol.Memory.{Ptr, done}
use arc_protocol.Protocol.{Frame, ok}
use arc_protocol.Router.{Link, Route, Router, find_route}
use arc_protocol.Router.{send_on, route, add_route, add_link, alloc_link}
use arc_protocol.Router.Invariant.{used_at, IsValid, IsPut, put_route-cases, add_route-cases}
use arc_protocol.Router.Routing.{destination, used_link, route_by, destination_used}

module _ {Fn User : Type 0} where
  -- Routing reads the tables only through the address, the local handler, the links and the
  -- destination's link.
  route_cong :
      (r : Router Fn User) (routes : List Route) (frame : Frame)
      → find_route routes frame.dst ≡ find_route r.routes frame.dst
      → route (record r { routes = routes }) frame ≡ route r frame
  unfolding route
  route_cong r routes frame e = rw e

  -- What a successful `arc_router_add_route` has done.
  added :
      (r r' : Router Fn User) (dst : ℕ) (link_idx : ℤ)
      → IsValid r
      → add_route r dst link_idx ≡ done (ok tt, r')
      → (i : ℕ) × (routes : List Route) × (link_idx ≡ pos i)
        × (used_at r.links i ≡ true)
        × IsPut r dst i routes
        × (r' ≡ record r { routes = routes })
  added r r' dst link_idx v h = elim (add_route-cases r dst link_idx v) [
    | inl e ↦ absurd (cc (e, h))
    | inr (i, p, used, e) ↦ elim (put_route-cases r dst i v.one_route) [
      | inl (routes, f, put) ↦ (i, routes, p, used, put, cc (e, h, f))
      | inr f ↦ absurd (cc (e, h, f))
    ]
  ]

  -- After a route has been added to a valid router, a frame for its destination, if that is not
  -- this node, goes by the link that was given, which is in use.
  pub route-add_route :
      (r r' : Router Fn User) (dst : ℕ) (link_idx : ℤ) (frame : Frame)
      → IsValid r
      → add_route r dst link_idx ≡ done (ok tt, r')
      → frame.dst ≢ r.my_addr
      → frame.dst ≡ dst
      → (i : ℕ) × (l : Link Fn User) × (link_idx ≡ pos i)
        × (get_elem? r.links i ≡ some l)
        × (l.in_use ≡ true)
        × (route r' frame ≡ done (send_on l frame))
  route-add_route r r' dst link_idx frame v h other same =
      let (i, routes, p, used, put, e) = added r r' dst link_idx v h in
      let (l, g, q) = used_link r.links i used in
      (
        i,
        l,
        p,
        g,
        q,
        ap (λ (t : Router Fn User). route t frame) e
            ∙ route_by (record r { routes = routes }) frame i l other
                (ground (arith, put.finds frame.dst, same)) g,
      )

  -- After a route has been added to a valid router, a frame for any other destination goes as
  -- before.
  pub route-add_route_other :
      (r r' : Router Fn User) (dst : ℕ) (link_idx : ℤ) (frame : Frame)
      → IsValid r
      → add_route r dst link_idx ≡ done (ok tt, r')
      → frame.dst ≢ dst
      → route r' frame ≡ route r frame
  route-add_route_other r r' dst link_idx frame v h differs =
      let (i, routes, p, used, put, e) = added r r' dst link_idx v h in
      ap (λ (t : Router Fn User). route t frame) e
      ∙ route_cong r routes frame (ground (arith, put.finds frame.dst, differs))

  alloc-cons :
      (l : Link Fn User) (ls out : List (Link Fn User)) (k j : ℕ) (fn : Ptr Fn) (user : Ptr User)
      → l.in_use ≡ true
      → alloc_link (l ∷ ls) k fn user ≡ some (j, out)
      → (rest : List (Link Fn User)) × (alloc_link ls (k + 1) fn user ≡ some (j, rest))
        × (out ≡ l ∷ rest)
  unfolding alloc_link
  alloc-cons l ls out k j fn user used h = ground arith

  -- A link in use stays where it is.
  alloc_link-keeps :
      (ls out : List (Link Fn User)) (k j i : ℕ) (fn : Ptr Fn) (user : Ptr User)
      → alloc_link ls k fn user ≡ some (j, out)
      → used_at ls i ≡ true
      → (get_elem? out i ≡ get_elem? ls i) × (used_at out i ≡ true)
  unfolding alloc_link
  alloc_link-keeps [] out k j i fn user h u = absurd (cc)
  alloc_link-keeps (l ∷ ls) out k j zero fn user h u =
      let (rest, p, q) = alloc-cons l ls out k j fn user u h in rw q (refl, u)
  alloc_link-keeps (l ∷ ls) out k j (suc i) fn user h u = elim (Bool-cases l.in_use) [
    | inr free ↦
        subst
          (λ (m : List (Link Fn User)).
            (get_elem? m (suc i) ≡ get_elem? ls i) × (used_at m (suc i) ≡ true))
          (taken free) (refl, u)
    | inl used ↦
        let (rest, p, q) = alloc-cons l ls out k j fn user used h in
        rw q (alloc_link-keeps ls rest (k + 1) j i fn user p u)
  ]
    where
      taken : l.in_use ≡ false → record { in_use = true; send_fn = fn; user = user } ∷ ls ≡ out
      taken free = ground (arith, h)

  -- The index is that of a free link, which now is the new one.
  alloc_link-new :
      (ls out : List (Link Fn User)) (k j : ℕ) (fn : Ptr Fn) (user : Ptr User)
      → alloc_link ls k fn user ≡ some (j, out)
      → (m : ℕ) × (j ≡ k + m)
        × (get_elem? out m ≡ some (record { in_use = true; send_fn = fn; user = user }))
  unfolding alloc_link
  alloc_link-new [] out k j fn user h = absurd (cc)
  alloc_link-new (l ∷ ls) out k j fn user h = elim (Bool-cases l.in_use) [
    | inr free ↦ (
      0,
      first free,
      subst
          (λ (m : List (Link Fn User)).
            get_elem? m 0 ≡ some (record { in_use = true; send_fn = fn; user = user }))
          (taken free) refl,
    )
    | inl used ↦
        let (rest, p, q) = alloc-cons l ls out k j fn user used h in
        let (m, e, g) = alloc_link-new ls rest (k + 1) j fn user p in (suc m, omega arith, rw q g)
  ]
    where
      first : l.in_use ≡ false → j ≡ k + 0
      first free = ground (arith, h)

      taken : l.in_use ≡ false → record { in_use = true; send_fn = fn; user = user } ∷ ls ≡ out
      taken free = ground (arith, h)

  length-alloc_link :
      (ls out : List (Link Fn User)) (k j : ℕ) (fn : Ptr Fn) (user : Ptr User)
      → alloc_link ls k fn user ≡ some (j, out)
      → length out ≡ length ls
  unfolding alloc_link
  length-alloc_link [] out k j fn user h = absurd (cc)
  length-alloc_link (l ∷ ls) out k j fn user h = elim (Bool-cases l.in_use) [
    | inr free ↦ ground arith
    | inl used ↦
        let (rest, p, q) = alloc-cons l ls out k j fn user used h in
        ground (arith, length-alloc_link ls rest (k + 1) j fn user p)
  ]

  add_link-inv :
      (r r' : Router Fn User) (fn : Ptr Fn) (user : Ptr User) (i : ℕ)
      → add_link r fn user ≡ (ok i, r')
      → (links : List (Link Fn User)) × (alloc_link r.links 0 fn user ≡ some (i, links))
        × (r' ≡ record r { links = links })
  unfolding add_link
  add_link-inv r r' fn user i h = elim (Option-cases (alloc_link r.links 0 fn user)) [
    | inl e ↦ ground (arith, e, h)
    | inr ((j, links), e) ↦ (links, ground (arith, e, h), ground (arith, e, h))
  ]

  grown-IsValid :
      (r : Router Fn User) (links : List (Link Fn User)) (i : ℕ) (fn : Ptr Fn) (user : Ptr User)
      → IsValid r
      → alloc_link r.links 0 fn user ≡ some (i, links)
      → IsValid (record r { links = links })
  grown-IsValid r links i fn user v e = record {
    link_count = length-alloc_link r.links links 0 i fn user e ∙ v.link_count;
    route_count = v.route_count;
    one_route = v.one_route;
    routes_linked =
        λ d k f. (alloc_link-keeps r.links links 0 i k fn user e (v.routes_linked d k f)).1;
    default_linked =
        λ k f. (alloc_link-keeps r.links links 0 i k fn user e (v.default_linked k f)).1;
  }

  route_links :
      (r : Router Fn User) (links : List (Link Fn User)) (frame : Frame)
      → ((k : ℕ) → destination r frame.dst ≡ some k → get_elem? links k ≡ get_elem? r.links k)
      → route (record r { links = links }) frame ≡ route r frame
  unfolding route
  route_links r links frame same = elim (Option-cases (destination r frame.dst)) [
    | inl e ↦ ground (arith, e)
    | inr (k, e) ↦ ground (arith, e, same k)
  ]

  -- On a valid router, an `arc_router_add_link` that succeeds puts the new link at the index that
  -- it returns, keeps the router valid, and changes the way of no frame.
  pub route-add_link :
      (r r' : Router Fn User) (fn : Ptr Fn) (user : Ptr User) (i : ℕ)
      → IsValid r
      → add_link r fn user ≡ (ok i, r')
      → IsValid r'
        × (get_elem? r'.links i ≡ some (record { in_use = true; send_fn = fn; user = user }))
        × ((frame : Frame) → route r' frame ≡ route r frame)
  route-add_link r r' fn user i v h =
      let (links, e, p) = add_link-inv r r' fn user i h in
      let (m, f, g) = alloc_link-new r.links links 0 i fn user e in
      (
        subst IsValid (sym p) (grown-IsValid r links i fn user v e),
        ap (λ (t : Router Fn User). get_elem? t.links i) p ∙ ap (get_elem? links) (omega arith) ∙ g,
        (λ frame.
            ap (λ (t : Router Fn User). route t frame) p
            ∙ route_links r links frame (λ k q.
              (alloc_link-keeps r.links links 0 i k fn user e
                (destination_used r frame.dst k v q)).0)),
      )
