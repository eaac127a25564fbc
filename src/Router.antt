-- ===== src/Router.antt =====
-- The static router of src/arc_router.h and src/arc_router.c. The embedder's callbacks are values
-- of a type `Fn` that the router only stores and calls, and `User` is what their user pointers
-- lead to. A call is an output: the callback, its user pointer and the frame.
pub mod Table
pub mod Invariant
pub mod Routing
pub mod Growth
pub mod Default
use arc_protocol.Prelude.{
  ℕ, zero, suc, ◌+◌, ◌==◌, ◌&&◌, ◌||◌, not, ltb, if◌then◌else◌, Bool, true, false,
}
use arc_protocol.Prelude.{Option, none, some, List, [], ◌∷◌, length, get_elem?, replicate}
use arc_protocol.Prelude.Int.{ℤ, pos, negsuc}
use arc_protocol.Memory.{Ptr, Run, done, fault, ◌>>=◌, is_null, deref}
use arc_protocol.Protocol.{Frame, Result, ok, err, err_buffer, err_bad_arg}
use mathlib.Core.Option

abbrev pub max_links : ℕ
max_links = 6

abbrev pub max_routes : ℕ
max_routes = 16

pub record Link (Fn User : Type 0) : Type 0 where
  pub in_use : Bool
  pub send_fn : Ptr Fn
  pub user : Ptr User

pub record Route : Type 0 where
  pub in_use : Bool
  pub dst : ℕ
  pub link_idx : ℕ

-- `default_link_idx` is -1 or an index; `none` is -1.
pub record Router (Fn User : Type 0) : Type 0 where
  pub my_addr : ℕ
  pub default_link_idx : Option ℕ
  pub local_fn : Ptr Fn
  pub local_user : Ptr User
  pub links : List (Link Fn User)
  pub routes : List Route

-- `arc_route_action_t`
pub data Action : Type 0 where
  local forwarded : Action

pub record Call (Fn User : Type 0) : Type 0 where
  pub fn : Fn
  pub user : Ptr User
  pub frame : Frame

abbrev pub free_route : Route
free_route = record { in_use = false; dst = 0; link_idx = 0 }

-- The route of the first entry in use for `dst`.
unfoldable pub find_route : List Route → ℕ → Option ℕ
find_route [] dst = none
find_route (e ∷ es) dst = if e.in_use && e.dst == dst then some e.link_idx else find_route es dst

-- The first entry in use for `dst` is given another link; `none` if there is no such entry.
unfoldable pub replace_route : List Route → ℕ → ℕ → Option (List Route)
replace_route [] dst link_idx = none
replace_route (e ∷ es) dst link_idx =
    if e.in_use && e.dst == dst
    then some (record e { link_idx = link_idx } ∷ es)
    else Option.map (λ rest. e ∷ rest) (replace_route es dst link_idx)

-- The first free entry is taken; `none` if the table is full.
unfoldable pub alloc_route : List Route → ℕ → ℕ → Option (List Route)
alloc_route [] dst link_idx = none
alloc_route (e ∷ es) dst link_idx =
    if not e.in_use
    then some (record { in_use = true; dst = dst; link_idx = link_idx } ∷ es)
    else Option.map (λ rest. e ∷ rest) (alloc_route es dst link_idx)

-- The link index: the route's, or else the default.
abbrev pub choose : Option ℕ → Option ℕ → Option ℕ
choose none default = default
choose (some i) default = some i

module _ {Fn User : Type 0} where
  abbrev pub free_link : Link Fn User
  free_link = record { in_use = false; send_fn = none; user = none }

  unfoldable pub init : ℕ → Ptr Fn → Ptr User → Router Fn User
  init my_addr local_fn local_user = record {
    my_addr = my_addr;
    default_link_idx = none;
    local_fn = local_fn;
    local_user = local_user;
    links = replicate max_links free_link;
    routes = replicate max_routes free_route;
  }

  -- The loop over the links from index `i` on: the index that is assigned, and the links then.
  unfoldable pub alloc_link :
      List (Link Fn User) → ℕ → Ptr Fn → Ptr User → Option (ℕ × List (Link Fn User))
  alloc_link [] i send_fn user = none
  alloc_link (l ∷ ls) i send_fn user =
      if not l.in_use
      then some (i, record { in_use = true; send_fn = send_fn; user = user } ∷ ls)
      else Option.map (λ (j, rest). (j, l ∷ rest)) (alloc_link ls (i + 1) send_fn user)

  unfoldable pub add_link : Router Fn User → Ptr Fn → Ptr User → Result ℕ × Router Fn User
  add_link r send_fn user = elim (alloc_link r.links 0 send_fn user) [
    | none ↦ (err err_buffer, r)
    | some (i, links) ↦ (ok i, record r { links = links })
  ]

  -- `r->links[i].in_use`; out of range it is undefined.
  unfoldable pub link_in_use : Router Fn User → ℕ → Run Bool
  link_in_use r i = deref (get_elem? r.links i) >>= λ l. done l.in_use

  -- Replace, or else allocate.
  unfoldable pub put_route : Router Fn User → ℕ → ℕ → Result (Unit {0}) × Router Fn User
  put_route r dst link_idx = elim (replace_route r.routes dst link_idx) [
    | some routes ↦ (ok tt, record r { routes = routes })
    | none ↦ elim (alloc_route r.routes dst link_idx) [
      | some routes ↦ (ok tt, record r { routes = routes })
      | none ↦ (err err_buffer, r)
    ]
  ]

  unfoldable pub add_route : Router Fn User → ℕ → ℤ → Run (Result (Unit {0}) × Router Fn User)
  add_route r dst (negsuc n) = done (err err_bad_arg, r)
  add_route r dst (pos link_idx) =
      if not (ltb link_idx max_links) then done (err err_bad_arg, r) else (do
        used ← link_in_use r link_idx
        if not used then done (err err_bad_arg, r) else done (put_route r dst link_idx))

  unfoldable pub set_default : Router Fn User → ℤ → Run (Result (Unit {0}) × Router Fn User)
  set_default r (negsuc n) = done (ok tt, record r { default_link_idx = none })
  set_default r (pos link_idx) =
      if not (ltb link_idx max_links) then done (err err_bad_arg, r) else (do
        used ← link_in_use r link_idx
        if not used
            then done (err err_bad_arg, r)
            else done (ok tt, record r { default_link_idx = some link_idx }))

  -- The calls that a stored pointer leads to: none if it is NULL.
  abbrev pub call_of : Ptr Fn → Ptr User → Frame → List (Call Fn User)
  call_of none user frame = []
  call_of (some fn) user frame = record { fn = fn; user = user; frame = frame } ∷ []

  -- `link->send_fn(...)` behind the check of the link.
  unfoldable pub send_on : Link Fn User → Frame → Result Action × List (Call Fn User)
  send_on link frame =
      if not link.in_use || is_null link.send_fn
      then (err err_bad_arg, [])
      else (ok forwarded, call_of link.send_fn link.user frame)

  unfoldable pub route : Router Fn User → Frame → Run (Result Action × List (Call Fn User))
  unfolding send_on
  route r frame =
      if frame.dst == r.my_addr
      then done (ok local, call_of r.local_fn r.local_user frame)
      else elim (choose (find_route r.routes frame.dst) r.default_link_idx) [
        | none ↦ done (err err_bad_arg, [])
        | some i ↦ (do link ← deref (get_elem? r.links i); done (send_on link frame))
      ]
