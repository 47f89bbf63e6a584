-- ===== src/Hub/EgressQueue.antt =====
-- The pool of frames that wait for a peer's transport (src/hub/domain/egress_queue.c): 512 slots,
-- linked into one list for each of 256 channels and one of free slots. An access through the end
-- mark, which the callers exclude, reads the blank entry and writes nothing.
use can_hub.Base.{
  ℕ, zero, suc, ◌+◌, ◌-◌, ◌%◌, ◌^◌, ◌≡◌, Bool, true, false, not, List, [], ◌∷◌, Option, none, some,
  ltb, leb, ◌==◌, if◌then◌else◌, length, get_or, set, take, overlay, replicate, tabulate,
}
pub mod Scans
pub mod Tests

-- EGRESS_QUEUE_SLOTS_MAX
abbrev pub slots_max : ℕ
slots_max = 512

-- EGRESS_QUEUE_CHANNEL_CAP
abbrev channel_cap : ℕ
channel_cap = 64

-- EGRESS_QUEUE_CHANNELS_MAX
abbrev pub channels_max : ℕ
channels_max = 256

-- EGRESS_FRAME_BYTES_MAX: a header of 4, fixed fields of 16 and a payload of 64.
abbrev frame_bytes_max : ℕ
frame_bytes_max = 84

-- EGRESS_SLOT_NIL
abbrev slot_nil : ℕ
slot_nil = 0xFFFF

pub data PushResult : Type 0 where
  queued : PushResult
  evicted_self : PushResult
  evicted_other : PushResult

pub record EgressSlot : Type 0 where
  pub data_bytes : List ℕ
  pub enqueued_us : ℕ
  pub size : ℕ
  pub channel : ℕ
  pub next_slot : ℕ

pub record EgressChannelList : Type 0 where
  pub head : ℕ
  pub tail : ℕ
  pub count : ℕ

pub record EgressQueue : Type 0 where
  pub slots : List EgressSlot
  pub channels : List EgressChannelList
  pub free_head : ℕ
  pub used : ℕ
  pub cursor : ℕ

abbrev pub blank : EgressSlot
blank = record {
  data_bytes = replicate frame_bytes_max 0;
  enqueued_us = 0;
  size = 0;
  channel = 0;
  next_slot = 0;
}

abbrev pub no_list : EgressChannelList
no_list = record { head = slot_nil; tail = slot_nil; count = 0 }

-- The slots and lists at an index.
abbrev pub slot_at : EgressQueue → ℕ → EgressSlot
slot_at q i = get_or q.slots i blank

abbrev pub list_at : EgressQueue → ℕ → EgressChannelList
list_at q channel = get_or q.channels channel no_list

pub reset : EgressQueue
reset = record {
  slots =
      tabulate (λ i. record blank { next_slot = if i == slots_max - 1 then slot_nil else i + 1 }) 0
        slots_max;
  channels = replicate channels_max no_list;
  free_head = 0;
  used = 0;
  cursor = 0;
}

pub fill_slot : EgressSlot → ℕ → List ℕ → ℕ → ℕ → EgressSlot
fill_slot s channel bytes size now_us = record s {
  channel = channel;
  size = size;
  enqueued_us = now_us;
  data_bytes = overlay s.data_bytes (take size bytes);
}

-- The head's slot, and the queue without it.
pub pop_channel_head : EgressQueue → ℕ → ℕ × EgressQueue
pop_channel_head q channel =
    let l = list_at q channel in
    let head = (slot_at q l.head).next_slot in
    (
      l.head,
      record q {
        channels = set q.channels channel (record {
          head = head;
          tail = if head == slot_nil then slot_nil else l.tail;
          count = (l.count + 2 ^ 16 - 1) % 2 ^ 16;
        });
      },
    )

-- `self->slots[i].next = next`
abbrev pub link : List EgressSlot → ℕ → ℕ → List EgressSlot
link slots i next = set slots i (record (get_or slots i blank) { next_slot = next })

pub append_channel_tail : EgressQueue → ℕ → ℕ → EgressQueue
append_channel_tail q channel slot =
    let l = list_at q channel in
    let ended = link q.slots slot slot_nil in
    record q {
      slots = if l.tail == slot_nil then ended else link ended l.tail slot;
      channels = set q.channels channel (record {
        head = if l.tail == slot_nil then slot else l.head;
        tail = slot;
        count = (l.count + 1) % 2 ^ 16;
      });
    }

-- The loop of `fullestChannel` over the lists from channel `i` on.
pub fullest_from : List EgressChannelList → ℕ → ℕ → ℕ → ℕ
fullest_from [] i best best_count = best
fullest_from (l ∷ rest) i best best_count =
    fullest_from rest (i + 1) (if ltb best_count l.count then i else best)
      (if ltb best_count l.count then l.count else best_count)

pub fullest_channel : EgressQueue → ℕ
fullest_channel q = fullest_from q.channels 0 0 0 % 2 ^ 8

-- A frame put into a slot that is in no list, at the end of a channel's.
pub place : EgressQueue → ℕ → ℕ → List ℕ → ℕ → ℕ → EgressQueue
place q slot channel bytes size now_us =
    append_channel_tail
      (record q { slots = set q.slots slot (fill_slot (slot_at q slot) channel bytes size now_us) })
      channel slot

-- With the channel in `*evicted_channel`, where it is written.
pub push : EgressQueue → ℕ → List ℕ → ℕ → ℕ → (PushResult × Option ℕ) × EgressQueue
push q channel bytes size now_us =
    let own = pop_channel_head q channel in
    let bully = fullest_channel q in
    let other = pop_channel_head q bully in
    let free = q.free_head in
    if ltb frame_bytes_max size
    then ((queued, none), q)
    else if leb channel_cap (list_at q channel).count
    then ((evicted_self, some channel), place own.1 own.0 channel bytes size now_us)
    else if not (free == slot_nil)
    then (
      (queued, none),
      place (record q { free_head = (slot_at q free).next_slot; used = (q.used + 1) % 2 ^ 16 }) free
          channel bytes size now_us,
    )
    else ((evicted_other, some bully), place other.1 other.0 channel bytes size now_us)

pub has_pending : EgressQueue → Bool
has_pending q = ltb 0 q.used

pub channel_pending : EgressQueue → ℕ → Bool
channel_pending q channel = ltb 0 (list_at q channel).count

-- The first frame's bytes, of which `*size` are meant.
pub front_of_channel : EgressQueue → ℕ → Option (List ℕ × ℕ)
front_of_channel q channel =
    let head = (list_at q channel).head in
    if head == slot_nil then none else some ((slot_at q head).data_bytes, (slot_at q head).size)

pub front_enqueued_us : EgressQueue → ℕ → ℕ
front_enqueued_us q channel =
    let head = (list_at q channel).head in
    if head == slot_nil then 0 else (slot_at q head).enqueued_us

pub pop_channel : EgressQueue → ℕ → EgressQueue
pop_channel q channel =
    let popped = pop_channel_head q channel in
    if (list_at q channel).head == slot_nil then q else record popped.1 {
      slots = link q.slots popped.0 q.free_head;
      free_head = popped.0;
      used = (q.used + 2 ^ 16 - 1) % 2 ^ 16;
    }

-- The loop of `EgressQueue_NextPendingChannel` from turn `i` on, by the turns left.
pub next_pending_from : ℕ → ℕ → EgressQueue → Option ℕ × EgressQueue
next_pending_from zero i q = (none, q)
next_pending_from (suc left) i q =
    let candidate = (q.cursor + i) % channels_max in
    let rest = next_pending_from left (i + 1) q in
    if ltb 0 (list_at q candidate).count
    then (some candidate, record q { cursor = (candidate + 1) % channels_max })
    else rest

pub next_pending_channel : EgressQueue → Option ℕ × EgressQueue
next_pending_channel q = next_pending_from channels_max 0 q
