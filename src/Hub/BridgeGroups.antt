-- ===== src/Hub/BridgeGroups.antt =====
-- The groups of buses that behave as one (src/hub/domain/bridge_groups.c). Names are texts without
-- their final NUL; a slot is named by its index; the array of members keeps its 16 entries, of
-- which the first `member_count` are the members.
use can_hub.Protocol.Subscribe.{CanFilter}
use can_hub.Base.{
  ℕ, zero, suc, ◌+◌, ◌-◌, ◌%◌, ◌^◌, ◌≡◌, Bool, true, false, not, ◌&&◌, ◌||◌, List, [], ◌∷◌, Option,
  none, some, ltb, leb, ◌==◌, if◌then◌else◌, is_some, get_or, set, take, overlay, replicate, Text,
  str_eq, find_index,
}
use can_hub.Hub.BridgeRoutes.{
  BridgeEndpoint, filters_max, no_endpoint, is_filled, is_named, equals, filters_pass,
}
pub mod Members
pub mod Invariant
pub mod Tests

-- BRIDGE_GROUPS_MAX
abbrev pub groups_max : ℕ
groups_max = 16

-- BRIDGE_GROUP_MEMBERS_MAX
abbrev members_max : ℕ
members_max = 16

-- BRIDGE_GROUP_NAME_SIZE
abbrev name_size : ℕ
name_size = 16

-- BRIDGE_MEMBER_FILTERS_MAX
abbrev member_filters_max : ℕ
member_filters_max = 8

-- kBRIDGE_MEMBER_SENDS, kBRIDGE_MEMBER_RECEIVES, kBRIDGE_MEMBER_MAX
abbrev member_sends : ℕ
member_sends = 1

abbrev member_receives : ℕ
member_receives = 2

abbrev member_direction_max : ℕ
member_direction_max = 3

pub data JoinResult : Type 0 where
  join_ok : JoinResult
  join_unknown : JoinResult
  join_full : JoinResult

pub record BridgeGroupMember : Type 0 where
  pub endpoint : BridgeEndpoint
  pub direction : ℕ
  pub filter_count : ℕ
  pub filters : List CanFilter

pub record BridgeGroup : Type 0 where
  pub name : Text
  pub filter_count : ℕ
  pub filters : List CanFilter
  pub member_count : ℕ
  pub members : List BridgeGroupMember

pub record BridgeGroupSlot : Type 0 where
  pub in_use : Bool
  pub group : BridgeGroup
  pub forwarded : ℕ
  pub dropped : ℕ

pub record BridgeGroups : Type 0 where
  pub slots : List BridgeGroupSlot
  pub count : ℕ

-- Zero bytes.
abbrev pub no_member : BridgeGroupMember
no_member = record {
  endpoint = no_endpoint;
  direction = 0;
  filter_count = 0;
  filters = replicate member_filters_max (record { can_id = 0; can_mask = 0 });
}

abbrev pub blank : BridgeGroupSlot
blank = record {
  in_use = false;
  group = record {
    name = [];
    filter_count = 0;
    filters = replicate filters_max (record { can_id = 0; can_mask = 0 });
    member_count = 0;
    members = replicate members_max no_member;
  };
  forwarded = 0;
  dropped = 0;
}

abbrev is_name_character : ℕ → Bool
is_name_character c =
    if (leb b'a' c && leb c b'z') || (leb b'A' c && leb c b'Z')
    then true
    else if leb b'0' c && leb c b'9'
    then true
    else c == b'.' || c == b'_' || c == b'-'

-- The loop of `BridgeGroup_IsNameValid`, by the turns left.
pub is_name_valid_from : ℕ → Text → Bool
is_name_valid_from zero name = false
is_name_valid_from (suc left) [] = true
is_name_valid_from (suc left) (c ∷ name) =
    if not (is_name_character c) then false else is_name_valid_from left name

pub is_name_valid : Text → Bool
is_name_valid name = if not (is_filled name) then false else is_name_valid_from name_size name

abbrev pub is_member : BridgeEndpoint → BridgeGroupMember → Bool
is_member endpoint m = equals m.endpoint endpoint

-- The members.
abbrev pub joined : BridgeGroup → List BridgeGroupMember
joined g = take g.member_count g.members

pub member_index : BridgeGroup → BridgeEndpoint → Option ℕ
member_index g endpoint = find_index (is_member endpoint) (joined g)

pub has_member : BridgeGroup → BridgeEndpoint → Bool
has_member g endpoint = is_some (member_index g endpoint)

pub carries : BridgeGroup → BridgeEndpoint → ℕ → Bool
carries g source can_id = elim (member_index g source) [
  | none ↦ false
  | some i ↦
      let member = get_or g.members i no_member in
      if member.direction == member_receives
      then false
      else if not (filters_pass member.filters member.filter_count can_id)
      then false
      else filters_pass g.filters g.filter_count can_id
]

pub is_member_valid : BridgeGroupMember → Bool
is_member_valid m =
    if not (is_named m.endpoint)
    then false
    else ltb m.direction member_direction_max && leb m.filter_count member_filters_max

pub receives : BridgeGroupMember → Bool
receives m = not (m.direction == member_sends)

pub reset : BridgeGroups
reset = record { slots = replicate groups_max blank; count = 0 }

abbrev pub in_use : BridgeGroupSlot → Bool
in_use s = s.in_use

abbrev pub is_group : Text → BridgeGroupSlot → Bool
is_group name s = s.in_use && str_eq s.group.name name

pub find_group_index : BridgeGroups → Text → Option ℕ
find_group_index t name = find_index (is_group name) t.slots

pub free_index : BridgeGroups → Option ℕ
free_index t = find_index (λ s. not (in_use s)) t.slots

pub is_empty : BridgeGroups → Bool
is_empty t = t.count == 0

pub has_room : BridgeGroups → Text → Bool
has_room t name = is_some (find_group_index t name) || is_some (free_index t)

pub choose_index : BridgeGroups → Text → Option ℕ
choose_index t name = elim (find_group_index t name) [ none ↦ free_index t | some i ↦ some i ]

-- The filters copied over the ones a group has.
pub with_filters : BridgeGroup → ℕ → List CanFilter → BridgeGroup
with_filters g filter_count filters = record g {
  filter_count = filter_count;
  filters = if ltb 0 filter_count then overlay g.filters (take filter_count filters) else g.filters;
}

-- The slot chosen, cleared, named and counted first if it is free.
pub store_group : BridgeGroups → ℕ → Text → ℕ → List CanFilter → BridgeGroups
store_group t i name filter_count filters =
    if (get_or t.slots i blank).in_use
    then record t {
      slots = set t.slots i (record (get_or t.slots i blank) {
        group = with_filters (get_or t.slots i blank).group filter_count filters;
      });
    }
    else record {
      slots = set t.slots i (record blank {
        in_use = true;
        group = with_filters (record blank.group { name = name }) filter_count filters;
      });
      count = (t.count + 1) % 2 ^ 8;
    }

pub set_group : BridgeGroups → Text → ℕ → List CanFilter → Bool × BridgeGroups
set_group t name filter_count filters =
    if not (is_name_valid name) || ltb filters_max filter_count
    then (false, t)
    else (elim (choose_index t name) [
      | none ↦ (false, t)
      | some i ↦ (true, store_group t i name filter_count filters)
    ])

pub remove : BridgeGroups → Text → Bool × BridgeGroups
remove t name = elim (find_group_index t name) [
  | none ↦ (false, t)
  | some i ↦ (true, record { slots = set t.slots i blank; count = (t.count + 2 ^ 8 - 1) % 2 ^ 8 })
]

-- `BridgeGroups_Join`, on the group found.
pub join_group : BridgeGroup → BridgeGroupMember → JoinResult × BridgeGroup
join_group g member = elim (member_index g member.endpoint) [
  | some i ↦ (join_ok, record g { members = set g.members i member })
  | none ↦ if g.member_count == members_max then (join_full, g) else (
    join_ok,
    record g {
      members = set g.members g.member_count member;
      member_count = (g.member_count + 1) % 2 ^ 8;
    },
  )
]

-- The group of a slot, changed.
abbrev pub write_group : BridgeGroups → ℕ → BridgeGroup → BridgeGroups
write_group t i g = record t {
  slots = set t.slots i (record (get_or t.slots i blank) { group = g });
}

pub join : BridgeGroups → Text → BridgeGroupMember → JoinResult × BridgeGroups
join t name member = elim (find_group_index t name) [
  | none ↦ (join_unknown, t)
  | some i ↦
      let done = join_group (get_or t.slots i blank).group member in
      if not (is_member_valid member) then (join_unknown, t) else (done.0, write_group t i done.1)
]

-- `BridgeGroups_Leave`, on the group found: the last member takes the place of the one that leaves.
pub leave_group : BridgeGroup → BridgeEndpoint → Bool × BridgeGroup
leave_group g member = elim (member_index g member) [
  | none ↦ (false, g)
  | some i ↦
      let last = (g.member_count + 2 ^ 8 - 1) % 2 ^ 8 in
      (
        true,
        record g {
          member_count = last;
          members = set (set g.members i (get_or g.members last no_member)) last no_member;
        },
      )
]

pub leave : BridgeGroups → Text → BridgeEndpoint → Bool × BridgeGroups
leave t name member = elim (find_group_index t name) [
  | none ↦ (false, t)
  | some i ↦
      let done = leave_group (get_or t.slots i blank).group member in
      if done.0 then (true, write_group t i done.1) else (false, t)
]

-- The loop of `BridgeGroups_Restore`.
pub join_all : BridgeGroups → Text → List BridgeGroupMember → BridgeGroups
join_all t name [] = t
join_all t name (member ∷ rest) = join_all (join t name member).1 name rest

pub restore : BridgeGroups → BridgeGroup → Bool × BridgeGroups
restore t g =
    let done = set_group t g.name g.filter_count g.filters in
    if not done.0 then (false, t) else (true, join_all done.1 g.name (take members_max (joined g)))

pub find_group : BridgeGroups → Text → Option BridgeGroupSlot
find_group t name = elim (find_group_index t name) [
  | none ↦ none
  | some i ↦ some (get_or t.slots i blank)
]

-- The loop of `BridgeGroups_Nth` over the slots left.
pub nth_from : List BridgeGroupSlot → ℕ → Option BridgeGroupSlot
nth_from [] left = none
nth_from (s ∷ rest) zero = if s.in_use then some s else nth_from rest zero
nth_from (s ∷ rest) (suc left) = elim s.in_use [
  | true ↦ nth_from rest left
  | false ↦ nth_from rest (suc left)
]

pub nth : BridgeGroups → ℕ → Option BridgeGroupSlot
nth t position = nth_from t.slots position

pub slot : BridgeGroups → ℕ → Option BridgeGroupSlot
slot t i =
    if leb groups_max i || not (get_or t.slots i blank).in_use
    then none
    else some (get_or t.slots i blank)
