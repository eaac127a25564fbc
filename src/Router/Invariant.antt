-- ===== src/Router/Invariant.antt =====
-- The invariant of the router of src/arc_router.c: tables of their fixed sizes, one route at most
-- for a destination, and every index that is stored names a link in use.
use arc_protocol.Prelude.{ℕ, zero, suc, ◌<◌, ◌==◌, ltb, if◌then◌else◌, ◌≡◌, refl, arith, sym, ◌∙◌}
use arc_protocol.Prelude.{
  some, List, [], ◌∷◌, Bool, true, false, Bool-cases, inl, inr, length, get_elem?, ◌⊎◌,
}
use mathlib.Core.Path.{subst}
use arc_protocol.Prelude.{Option-cases}
use arc_protocol.Prelude.Int.{ℤ, pos, negsuc}
use arc_protocol.Memory.{Ptr, done, ◌>>=◌, deref}
use arc_protocol.Protocol.{Result, ok, err, err_buffer, err_bad_arg}
use arc_protocol.Router.{Link, Route, Router, find_route, replace_route, alloc_route, init}
use arc_protocol.Router.{link_in_use, put_route, add_route}
use arc_protocol.Router.Table.{Unique, find-replace_route, find-none_of_replace, find-alloc_route}
use arc_protocol.Router.Table.{
  length-replace_route, length-alloc_route, replace-Unique, alloc-Unique,
}

module _ {Fn User : Type 0} where
  -- Link `i` is there and in use.
  abbrev pub used_at : List (Link Fn User) → ℕ → Bool
  used_at [] i = false
  used_at (l ∷ ls) zero = l.in_use
  used_at (l ∷ ls) (suc i) = used_at ls i

  pub record IsValid (r : Router Fn User) : Type 0 where
    pub link_count : length r.links ≡ 6
    pub route_count : length r.routes ≡ 16
    pub one_route : Unique r.routes
    pub routes_linked : (d i : ℕ) → find_route r.routes d ≡ some i → used_at r.links i ≡ true
    pub default_linked : (i : ℕ) → r.default_link_idx ≡ some i → used_at r.links i ≡ true

  pub init-IsValid : (my_addr : ℕ) (fn : Ptr Fn) (user : Ptr User) → IsValid (init my_addr fn user)
  unfolding init find_route
  init-IsValid my_addr fn user = record {
    link_count = refl;
    route_count = refl;
    one_route = ground arith;
    routes_linked = λ d i e. cc;
    default_linked = λ i e. cc;
  }

  -- `link_in_use` reads inside the table wherever its index is below the size.
  pub link_in_use_lem :
      (links : List (Link Fn User)) (i : ℕ)
      → i < length links
      → (deref (get_elem? links i) >>= λ l. done l.in_use) ≡ done (used_at links i)
  link_in_use_lem [] i h = absurd (omega arith)
  link_in_use_lem (l ∷ ls) zero h = refl
  link_in_use_lem (l ∷ ls) (suc i) h = link_in_use_lem ls i (omega arith)

  -- A router whose table for `dst` alone has changed, still with one entry for each destination.
  pub record IsPut (r : Router Fn User) (dst i : ℕ) (routes : List Route) : Type 0 where
    pub count : length routes ≡ length r.routes
    pub unique : Unique routes
    pub finds : (d : ℕ) → find_route routes d ≡ (if d == dst then some i else find_route r.routes d)

  -- Replacing or allocating succeeds, or the table is full and the router stays as it was.
  pub put_route-cases :
      (r : Router Fn User) (dst i : ℕ)
      → Unique r.routes
      → ((routes : List Route) × (put_route r dst i ≡ (ok tt, record r { routes = routes }))
          × IsPut r dst i routes)
        ⊎ (put_route r dst i ≡ (err err_buffer, r))
  unfolding put_route
  put_route-cases r dst i u = elim (Option-cases (replace_route r.routes dst i)) [
    | inr (routes, e) ↦ inl (
      routes,
      ground (arith, e),
      record {
        count = length-replace_route r.routes routes dst i e;
        unique = replace-Unique r.routes routes dst i u e;
        finds = λ d. find-replace_route r.routes routes dst i d e;
      },
    )
    | inl e ↦ elim (Option-cases (alloc_route r.routes dst i)) [
      | inl f ↦ inr (ground (arith, e, f))
      | inr (routes, f) ↦
          let absent = find-none_of_replace r.routes dst i e in
          inl (
            routes,
            ground (arith, e, f),
            record {
              count = length-alloc_route r.routes routes dst i f;
              unique = alloc-Unique r.routes routes dst i u absent f;
              finds = λ d. find-alloc_route r.routes routes dst i d absent f;
            },
          )
    ]
  ]

  IsPut-IsValid :
      (r : Router Fn User) (dst i : ℕ) (routes : List Route)
      → IsValid r
      → used_at r.links i ≡ true
      → IsPut r dst i routes
      → IsValid (record r { routes = routes })
  IsPut-IsValid r dst i routes v used p = record {
    link_count = v.link_count;
    route_count = p.count ∙ v.route_count;
    one_route = p.unique;
    routes_linked = λ d j e. ground (arith, p.finds d, v.routes_linked d j);
    default_linked = v.default_linked;
  }

  pub put_route-IsValid :
      (r : Router Fn User) (dst i : ℕ)
      → IsValid r
      → used_at r.links i ≡ true
      → IsValid (put_route r dst i).1
  put_route-IsValid r dst i v used = elim (put_route-cases r dst i v.one_route) [
    | inl (routes, e, p) ↦
        subst (λ (q : Result (Unit {0}) × Router Fn User). IsValid q.1) (sym e)
          (IsPut-IsValid r dst i routes v used p)
    | inr e ↦ subst (λ (q : Result (Unit {0}) × Router Fn User). IsValid q.1) (sym e) v
  ]

  -- `arc_router_add_route` on a valid router: a bad index is refused; else the table is changed.
  pub add_route-cases :
      (r : Router Fn User) (dst : ℕ) (link_idx : ℤ)
      → IsValid r
      → (add_route r dst link_idx ≡ done (err err_bad_arg, r))
        ⊎ ((i : ℕ) × (link_idx ≡ pos i)
            × (used_at r.links i ≡ true)
            × (add_route r dst link_idx ≡ done (put_route r dst i)))
  unfolding add_route link_in_use
  add_route-cases r dst (negsuc n) v = inl refl
  add_route-cases r dst (pos i) v = elim (Bool-cases (ltb i 6)) [
    | inr e ↦ inl (rw e)
    | inl e ↦
        let read = link_in_use_lem r.links i (ground (arith, e, v.link_count)) in
        elim (Bool-cases (used_at r.links i)) [
          | inl used ↦ inr (i, refl, used, rw (e, read, used))
          | inr free ↦ inl (rw (e, read, free))
        ]
  ]

  -- `arc_router_add_route` on a valid router returns, whatever its arguments, and the router stays
  -- valid.
  pub add_route-IsValid :
      (r : Router Fn User) (dst : ℕ) (link_idx : ℤ)
      → IsValid r
      → (a : Result (Unit {0})) × (r' : Router Fn User) × (add_route r dst link_idx ≡ done (a, r'))
        × IsValid r'
  add_route-IsValid r dst link_idx v = elim (add_route-cases r dst link_idx v) [
    | inl e ↦ (err err_bad_arg, r, e, v)
    | inr (i, p, used, e) ↦
        ((put_route r dst i).0, (put_route r dst i).1, e, put_route-IsValid r dst i v used)
  ]
