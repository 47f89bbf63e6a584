-- ===== src/Hub/BridgeRoutes.antt =====
-- The routes from bus to bus (src/hub/domain/bridge_routes.c). The two names of an endpoint are
-- texts without their final NUL; a slot is named by its index, and `BridgeRoutes_Find`, whose
-- result is read only, gives the slot's content.
use can_hub.Protocol.Subscribe.{CanFilter}
use can_hub.Base.{
  ℕ, zero, suc, ◌+◌, ◌-◌, ◌%◌, ◌^◌, ◌≡◌, Bool, true, false, not, ◌&&◌, ◌||◌, List, [], ◌∷◌, Option,
  none, some, ltb, leb, ◌==◌, if◌then◌else◌, is_some, get_or, set, take, replicate, Text, str_eq,
  bit_and, find, find_index,
}
use can_hub.Hub.ClientSession.{matches_filter, can_id_flag_err}
pub mod Invariant
pub mod Lookup
pub mod Tests

-- BRIDGE_ROUTES_MAX
abbrev pub routes_max : ℕ
routes_max = 64

-- BRIDGE_FILTERS_MAX
abbrev pub filters_max : ℕ
filters_max = 16

pub record BridgeEndpoint : Type 0 where
  pub agent_name : Text
  pub interface_name : Text

pub record BridgeRoute : Type 0 where
  pub source : BridgeEndpoint
  pub destination : BridgeEndpoint
  pub filter_count : ℕ
  pub filters : List CanFilter

pub record BridgeRouteSlot : Type 0 where
  pub in_use : Bool
  pub route : BridgeRoute
  pub forwarded : ℕ
  pub dropped : ℕ

pub record BridgeRoutes : Type 0 where
  pub slots : List BridgeRouteSlot
  pub count : ℕ

abbrev pub no_endpoint : BridgeEndpoint
no_endpoint = record { agent_name = []; interface_name = [] }

-- A slot of zero bytes.
abbrev pub blank : BridgeRouteSlot
blank = record {
  in_use = false;
  route = record {
    source = no_endpoint;
    destination = no_endpoint;
    filter_count = 0;
    filters = replicate filters_max (record { can_id = 0; can_mask = 0 });
  };
  forwarded = 0;
  dropped = 0;
}

unfoldable pub filters_pass : List CanFilter → ℕ → ℕ → Bool
filters_pass filters filter_count can_id =
    if not (bit_and can_id can_id_flag_err == 0)
    then false
    else if filter_count == 0
    then true
    else is_some (find_index (matches_filter can_id) (take filter_count filters))

-- `text[0] != '\0'`
abbrev pub is_filled : Text → Bool
is_filled [] = false
is_filled (c ∷ t) = true

unfoldable pub is_named : BridgeEndpoint → Bool
is_named e = is_filled e.agent_name && is_filled e.interface_name

unfoldable pub names : BridgeEndpoint → Text → Text → Bool
names e agent_name interface_name =
    str_eq e.agent_name agent_name && str_eq e.interface_name interface_name

unfoldable pub equals : BridgeEndpoint → BridgeEndpoint → Bool
unfolding names
equals e other = names e other.agent_name other.interface_name

pub is_route_valid : BridgeRoute → Bool
is_route_valid r =
    if not (is_named r.source) || not (is_named r.destination)
    then false
    else if equals r.source r.destination
    then false
    else leb r.filter_count filters_max

pub route_passes : BridgeRoute → ℕ → Bool
route_passes r can_id = filters_pass r.filters r.filter_count can_id

pub reset : BridgeRoutes
reset = record { slots = replicate routes_max blank; count = 0 }

-- The tests of the loops over the slots.
abbrev pub in_use : BridgeRouteSlot → Bool
in_use s = s.in_use

abbrev pub is_route : BridgeEndpoint → BridgeEndpoint → BridgeRouteSlot → Bool
is_route source destination s =
    (s.in_use && equals s.route.source source) && equals s.route.destination destination

pub find_route_index : BridgeRoutes → BridgeEndpoint → BridgeEndpoint → Option ℕ
find_route_index t source destination = find_index (is_route source destination) t.slots

pub free_index : BridgeRoutes → Option ℕ
free_index t = find_index (λ s. not (in_use s)) t.slots

-- `!findIndex(...) && !freeIndex(...)`: the slot that the route gets, if there is one.
pub choose_index : BridgeRoutes → BridgeRoute → Option ℕ
choose_index t r = elim (find_route_index t r.source r.destination) [
  | none ↦ free_index t
  | some i ↦ some i
]

-- `slot->route = *route`, in a slot that is cleared and counted first if it is free.
pub store_route : BridgeRoutes → ℕ → BridgeRoute → BridgeRoutes
store_route t i r =
    if (get_or t.slots i blank).in_use
    then record t { slots = set t.slots i (record (get_or t.slots i blank) { route = r }) }
    else record {
      slots = set t.slots i (record blank { in_use = true; route = r });
      count = (t.count + 1) % 2 ^ 8;
    }

pub set_route : BridgeRoutes → BridgeRoute → Bool × BridgeRoutes
set_route t r =
    if not (is_route_valid r)
    then (false, t)
    else (elim (choose_index t r) [ none ↦ (false, t) | some i ↦ (true, store_route t i r) ])

pub remove : BridgeRoutes → BridgeEndpoint → BridgeEndpoint → Bool × BridgeRoutes
remove t source destination = elim (find_route_index t source destination) [
  | none ↦ (false, t)
  | some i ↦ (true, record { slots = set t.slots i blank; count = (t.count + 2 ^ 8 - 1) % 2 ^ 8 })
]

pub find_route : BridgeRoutes → BridgeEndpoint → BridgeEndpoint → Option BridgeRouteSlot
find_route t source destination = find (is_route source destination) t.slots

pub is_empty : BridgeRoutes → Bool
is_empty t = t.count == 0

pub has_room : BridgeRoutes → BridgeRoute → Bool
has_room t r = is_some (find_route_index t r.source r.destination) || is_some (free_index t)

pub slot : BridgeRoutes → ℕ → Option BridgeRouteSlot
slot t i =
    if leb routes_max i || not (get_or t.slots i blank).in_use
    then none
    else some (get_or t.slots i blank)

-- The loop of `BridgeRoutes_Nth` over the slots left, `position - seen` of which in use are passed.
pub nth_from : List BridgeRouteSlot → ℕ → Option BridgeRouteSlot
nth_from [] left = none
nth_from (s ∷ rest) zero = if s.in_use then some s else nth_from rest zero
nth_from (s ∷ rest) (suc left) = elim s.in_use [
  | true ↦ nth_from rest left
  | false ↦ nth_from rest (suc left)
]

pub nth : BridgeRoutes → ℕ → Option BridgeRouteSlot
nth t position = nth_from t.slots position
