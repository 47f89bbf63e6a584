-- ===== src/Hub/FrameRoutes/Destinations.antt =====
-- The destinations of an interface's frames: every live binding of every client.
use mathlib.Core.List.{Memᴰ}
use mathlib.Core.List.Memᴰ
use can_hub.Base.{
  ℕ, zero, suc, ◌+◌, ◌-◌, ◌*◌, ◌%◌, ◌^◌, ◌≤◌, ◌<◌, ◌≡◌, ◌⊎◌, refl, ap, ◌∙◌, inl, inr, Bool, true,
  false, ◌&&◌, List, [], ◌∷◌, ◌++◌, map, append-nil, append_assoc, Option, none, some, arith, ◌==◌,
  if◌then◌else◌, length, get_or, take, drop, length-append, length-map, live, find_from-live,
  get_or-drop, drop-drop, drop_all, Bool-cases, length-drop,
}
use can_hub.Hub.ClientSession
use can_hub.Hub.ClientSession.{bindings_max, live_on, next_binding_for_interface}
use can_hub.Hub.HubPeer
use can_hub.Hub.HubPeer.{HubPeer, role_client}
use can_hub.Hub.PeerDirectory.{PeerDirectory}
use can_hub.Hub.FrameRoutes.{FrameRoute, add_route, route_to, to_interface, to_peer, to_peers}

abbrev pub is_client : HubPeer → Bool
is_client p = p.in_use && p.role == role_client

-- One route for each live binding of a client to an interface.
abbrev routes_to : ℕ → HubPeer → List FrameRoute
routes_to interface_id p =
    if is_client p then map (route_to p) (live (live_on interface_id) p.session.bindings) else []

abbrev pub all_routes : ℕ → List HubPeer → List FrameRoute
all_routes interface_id [] = []
all_routes interface_id (p ∷ rest) = routes_to interface_id p ++ all_routes interface_id rest

-- The loop body over a list of routes.
add_all : ℕ → List FrameRoute × ℕ → List FrameRoute → List FrameRoute × ℕ
add_all routes_max acc [] = acc
add_all routes_max acc (x ∷ xs) = add_all routes_max (add_route routes_max acc x) xs

add_all-append :
    (routes_max : ℕ) (acc : List FrameRoute × ℕ) (xs ys : List FrameRoute)
    → add_all routes_max acc (xs ++ ys) ≡ add_all routes_max (add_all routes_max acc xs) ys
unfolding add_all
add_all-append n acc [] ys = refl
add_all-append n acc (x ∷ xs) ys = add_all-append n (add_route n acc x) xs ys

-- The binding that the iterator gives: none, or one more of the live ones left.
next_live :
    (p : HubPeer) (interface_id iterator : ℕ)
    → ((next_binding_for_interface p.session interface_id iterator ≡ (none, bindings_max))
        × (live (live_on interface_id) (drop iterator p.session.bindings) ≡ []))
      ⊎ ((i : ℕ) × (next_binding_for_interface p.session interface_id iterator ≡ (some i, i + 1))
          × (iterator ≤ i)
          × (i < length p.session.bindings)
          × (live (live_on interface_id) (drop iterator p.session.bindings)
              ≡ get_or p.session.bindings i ClientSession.blank
                ∷ live (live_on interface_id) (drop (i + 1) p.session.bindings)))
unfolding next_binding_for_interface
next_live p interface_id iterator =
    let bindings = p.session.bindings in
    elim (find_from-live (live_on interface_id) (drop iterator bindings) iterator
      ClientSession.blank) [
        | inl (none_left, empty) ↦ inl (rw (none_left, next_binding_for_interface) refl, empty)
        | inr (k, found, low, rest) ↦
            let behind : drop (suc k) (drop iterator bindings) ≡ drop (iterator + k + 1) bindings =
              drop-drop (suc k) iterator bindings ∙ ap (λ n. drop n bindings) (omega arith) in
            inr (
              iterator + k,
              rw (found, next_binding_for_interface) refl,
              omega arith,
              omega (arith, length-drop iterator bindings),
              rw (rest, behind, get_or-drop iterator bindings k ClientSession.blank) refl,
            )
      ]

to_peer_step :
    (fuel : ℕ) (p : HubPeer) (interface_id routes_max iterator : ℕ) (acc : List FrameRoute × ℕ)
    → (next : Option ℕ × ℕ) → next_binding_for_interface p.session interface_id iterator ≡ next
    → to_peer (suc fuel) p interface_id routes_max iterator acc ≡ (elim next.0 [
      | none ↦ acc
      | some i ↦
          to_peer fuel p interface_id routes_max next.1 (
            add_route routes_max acc (route_to p (get_or p.session.bindings i ClientSession.blank)))
    ])
unfolding to_peer
to_peer_step fuel p interface_id routes_max iterator acc next e =
    ap
      (λ n. elim n.0 [
        | none ↦ acc
        | some i ↦ to_peer fuel p interface_id routes_max n.1 (
            add_route routes_max acc (route_to p (get_or p.session.bindings i ClientSession.blank)))
      ])
      e

to_peer_lem :
    (fuel : ℕ) (p : HubPeer) (interface_id routes_max iterator : ℕ) (acc : List FrameRoute × ℕ)
    → length p.session.bindings < fuel + iterator
    → to_peer fuel p interface_id routes_max iterator acc
      ≡ add_all routes_max acc
          (map (route_to p) (live (live_on interface_id) (drop iterator p.session.bindings)))
unfolding to_peer add_all
to_peer_lem zero p interface_id routes_max iterator acc enough =
    rw (drop_all iterator p.session.bindings (omega arith)) refl
to_peer_lem (suc fuel) p interface_id routes_max iterator acc enough =
    elim (next_live p interface_id iterator) [
      | inl (next, empty) ↦
          to_peer_step fuel p interface_id routes_max iterator acc (none, bindings_max) next
          ∙ rw empty refl
      | inr (i, next, low, high, rest) ↦
          to_peer_step fuel p interface_id routes_max iterator acc (some i, i + 1) next
          ∙ to_peer_lem fuel p interface_id routes_max (i + 1)
              (add_route routes_max acc
                (route_to p (get_or p.session.bindings i ClientSession.blank)))
              (omega arith)
          ∙ rw rest refl
    ]

-- The sessions have the size of their arrays.
unfoldable pub IsSized : List HubPeer → Type 0
IsSized ps = (i : ℕ) → i < length ps → length (get_or ps i HubPeer.blank).session.bindings ≡ 32

to_peers_lem :
    (ps : List HubPeer) (interface_id routes_max : ℕ) (acc : List FrameRoute × ℕ)
    → IsSized ps
    → to_peers ps interface_id routes_max acc ≡ add_all routes_max acc (all_routes interface_id ps)
unfolding to_peers add_all IsSized
to_peers_lem [] interface_id routes_max acc sized = refl
to_peers_lem (p ∷ ps) interface_id routes_max acc sized =
    let others : IsSized ps = λ i h. sized (suc i) (omega arith) in
    elim (Bool-cases (is_client p)) [
      | inl client ↦
          let bindings = p.session.bindings in
          let own = map (route_to p) (live (live_on interface_id) bindings) in
          let mine : to_peer (bindings_max + 1) p interface_id routes_max 0 acc
              ≡ add_all routes_max acc own =
            to_peer_lem (bindings_max + 1) p interface_id routes_max 0 acc
              (omega (arith, sized 0 (omega arith))) in
          rw (client, mine, add_all-append routes_max acc own (all_routes interface_id ps))
            (to_peers_lem ps interface_id routes_max (add_all routes_max acc own) others)
      | inr other ↦ rw other (to_peers_lem ps interface_id routes_max acc others)
    ]

add_all_full :
    (routes_max : ℕ) (routes : List FrameRoute) (dropped : ℕ) (xs : List FrameRoute)
    → length routes ≡ routes_max
    → dropped < 2 ^ 16
    → add_all routes_max (routes, dropped) xs ≡ (routes, (dropped + length xs) % 2 ^ 16)
unfolding add_all add_route
add_all_full n routes dropped [] full low = ground arith
add_all_full n routes dropped (x ∷ xs) full low =
    let yes : (length routes == n) ≡ true = ground arith in
    rw (yes, add_all_full n routes ((dropped + 1) % 2 ^ 16) xs full (omega arith))
      (ap (λ k. (routes, k)) (omega arith))

add_all_lem :
    (room : ℕ) (routes_max : ℕ) (routes xs : List FrameRoute)
    → length routes + room ≡ routes_max
    → add_all routes_max (routes, 0) xs ≡ (routes ++ take room xs, (length xs - room) % 2 ^ 16)
unfolding add_all add_route
add_all_lem zero n routes xs e =
    rw append-nil
      (add_all_full n routes 0 xs (omega arith) (omega arith) ∙ ap (λ k. (routes, k)) (omega arith))
add_all_lem (suc room) n routes [] e = rw append-nil (ap (λ k. (routes, k)) (omega arith))
add_all_lem (suc room) n routes (x ∷ xs) e =
    let no : (length routes == n) ≡ false = ground arith in
    let ih =
      add_all_lem room n (routes ++ (x ∷ [])) xs (omega (arith, length-append routes (x ∷ []))) in
    rw (no, ih, append_assoc) (ap (λ k. (routes ++ (x ∷ take room xs), k)) (omega arith))

-- The routes are the first of those to all live bindings of all clients, as many as there is room
-- for; the dropped ones are the rest, as a 16-bit number; if each session has 32 bindings.
pub to_interface_lem :
    (d : PeerDirectory) (interface_id routes_max : ℕ)
    → IsSized d.peers
    → to_interface d interface_id routes_max ≡ (
      take routes_max (all_routes interface_id d.peers),
      (length (all_routes interface_id d.peers) - routes_max) % 2 ^ 16,
    )
unfolding to_interface
to_interface_lem d interface_id routes_max sized =
    to_peers_lem d.peers interface_id routes_max ([], 0) sized
    ∙ add_all_lem routes_max routes_max [] (all_routes interface_id d.peers) (omega arith)

-- A live binding of a client is among them.
live_found :
    (interface_id : ℕ) (bs : List ClientSession.ChannelBinding) (j : ℕ)
    → j < length bs
    → live_on interface_id (get_or bs j ClientSession.blank) ≡ true
    → (p : HubPeer)
    → Memᴰ
        (route_to p (get_or bs j ClientSession.blank))
        (map (route_to p) (live (live_on interface_id) bs))
live_found interface_id [] j h l p = absurd (omega arith)
live_found interface_id (b ∷ bs) zero h l p = rw l (Memᴰ.head refl)
live_found interface_id (b ∷ bs) (suc j) h l p = elim (Bool-cases (live_on interface_id b)) [
  | inl here ↦ rw here (Memᴰ.tail (live_found interface_id bs j (omega arith) l p))
  | inr gone ↦ rw gone (live_found interface_id bs j (omega arith) l p)
]

pub all_routes_complete :
    (interface_id : ℕ) (ps : List HubPeer) (i j : ℕ)
    → i < length ps
    → is_client (get_or ps i HubPeer.blank) ≡ true
    → j < length (get_or ps i HubPeer.blank).session.bindings
    → live_on interface_id
        (get_or (get_or ps i HubPeer.blank).session.bindings j ClientSession.blank)
      ≡ true
    → Memᴰ
        (route_to
          (get_or ps i HubPeer.blank)
          (get_or (get_or ps i HubPeer.blank).session.bindings j ClientSession.blank))
        (all_routes interface_id ps)
all_routes_complete interface_id [] i j h c l b = absurd (omega arith)
all_routes_complete interface_id (p ∷ ps) zero j h c l b = rw c (
    Memᴰ.append_left (all_routes interface_id ps)
      (live_found interface_id p.session.bindings j l b p))
all_routes_complete interface_id (p ∷ ps) (suc i) j h c l b =
    Memᴰ.append_right (routes_to interface_id p)
      (all_routes_complete interface_id ps i j (omega arith) c l b)

length-live : {A : Type 0} (p : A → Bool) (xs : List A) → length (live p xs) ≤ length xs
length-live p [] = omega arith
length-live p (x ∷ xs) = ground (arith, length-live p xs)

-- There are no more than 32 to a peer.
pub length-all_routes :
    (interface_id : ℕ) (ps : List HubPeer)
    → IsSized ps
    → length (all_routes interface_id ps) ≤ 32 * length ps
unfolding IsSized
length-all_routes interface_id [] sized = omega arith
length-all_routes interface_id (p ∷ ps) sized =
    let rest = length-all_routes interface_id ps (λ i h. sized (suc i) (omega arith)) in
    let all = length-live (live_on interface_id) p.session.bindings in
    elim (Bool-cases (is_client p)) [
      | inl client ↦ rw client (
          omega (
            arith,
            rest,
            all,
            sized 0 (omega arith),
            length-append (map (route_to p) (live (live_on interface_id) p.session.bindings))
                (all_routes interface_id ps),
            length-map (route_to p) (live (live_on interface_id) p.session.bindings),
          ))
      | inr other ↦ rw other (omega (arith, rest))
    ]
