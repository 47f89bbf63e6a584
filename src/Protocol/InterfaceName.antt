-- ===== src/Protocol/InterfaceName.antt =====
-- Names of the form "agent/interface" (src/protocol/interface_name.{h,c}).
use mathlib.Core.Option
use can_hub.Base.{
  ℕ, zero, suc, ◌+◌, ◌<◌, ◌≡◌, ◌≢◌, ◌↔◌, refl, ap, ap₂, ◌∙◌, [], ◌∷◌, ◌++◌, Option, none, some,
  arith, Bool, true, false, not, ◌||◌, ◌==◌, leb, is_some, if◌then◌else◌, length, drop, take,
  get_or, Text, str_eq, str_eq_refl, str_eq_sound, find, find_index,
}
use can_hub.Protocol.Wire.{drop_past, take-append}
use can_hub.Protocol.ListReply.{ListReplyEntry, ListReplyMessage}

-- INTERFACE_NAME_SEPARATOR, a slash
abbrev separator : ℕ
separator = 47

-- `strchr(text, '/') - text`
abbrev separator_index : Text → Option ℕ
separator_index target = find_index (λ c. c == separator) target

unfoldable pub is_namespaced : Text → Bool
is_namespaced target = is_some (separator_index target)

-- The agent's name and the interface's.
unfoldable pub split : Text → Option (Text × Text)
split namespaced = elim (separator_index namespaced) [
  | none ↦ none
  | some i ↦
      let interface_length = length (drop (i + 1) namespaced) in
      if (i == 0) || leb 128 i
      then none
      else if (interface_length == 0) || leb 16 interface_length
      then none
      else some (take i namespaced, drop (i + 1) namespaced)
]

-- The `strncmp`, then the separator, then the rest.
unfoldable pub names_entry : Text → ListReplyEntry → Bool
names_entry namespaced entry =
    let agent_length = length entry.agent_name in
    if not (str_eq (take agent_length namespaced) entry.agent_name)
    then false
    else if not (get_or namespaced agent_length 0 == separator)
    then false
    else str_eq (drop (agent_length + 1) namespaced) entry.interface_name

unfoldable pub find_name : ListReplyMessage → Text → Option ℕ
find_name reply namespaced =
    Option.map (λ e. e.interface_id)
      (find (names_entry namespaced) (take reply.entry_count reply.entries))

-- The name of an interface of an agent.
abbrev pub namespaced_name : Text → Text → Text
namespaced_name agent interface = agent ++ (separator ∷ interface)

split_at :
    (agent interface : Text)
    → ((i : ℕ) → i < length agent → get_or agent i 0 ≢ separator)
    → separator_index (namespaced_name agent interface) ≡ some (length agent)
unfolding find_index
split_at [] interface plain = refl
split_at (c ∷ agent) interface plain =
    let other : (c == separator) ≡ false = ground (arith, plain 0 (omega arith)) in
    rw (other, split_at agent interface (λ i h. plain (suc i) (omega arith))) refl

-- An agent's name without a slash and an interface's name, neither empty nor too long for their
-- arrays, are what their namespaced name is split into.
split_lem :
    (agent interface : Text)
    → ((i : ℕ) → i < length agent → get_or agent i 0 ≢ separator)
    → 0 < length agent
    → length agent < 128
    → 0 < length interface
    → length interface < 16
    → split (namespaced_name agent interface) ≡ some (agent, interface)
unfolding split
split_lem agent interface plain some_agent short some_interface short_interface =
    let i = length agent in
    let behind : drop (i + 1) (namespaced_name agent interface) ≡ interface =
      drop_past agent (separator ∷ interface) i 1 refl in
    let head : take i (namespaced_name agent interface) ≡ agent =
      take-append agent (separator ∷ interface) i refl in
    let agent_fits : ((i == 0) || leb 128 i) ≡ false = ground arith in
    let interface_fits : ((length interface == 0) || leb 16 (length interface)) ≡ false =
      ground arith in
    rw (split_at agent interface plain, split, behind, agent_fits, interface_fits, head) refl

rebuilt :
    (t : Text) (n : ℕ) → get_or t n 0 ≡ separator → t ≡ take n t ++ (separator ∷ drop (n + 1) t)
rebuilt [] n h = absurd (omega arith)
rebuilt (c ∷ t) zero h = ap (λ x. x ∷ t) h
rebuilt (c ∷ t) (suc n) h =
    let next : suc n + 1 ≡ suc (n + 1) = omega arith in rw next (ap (◌∷◌ c) (rebuilt t n h))

separator_there :
    (agent interface : Text) → get_or (namespaced_name agent interface) (length agent) 0 ≡ separator
separator_there [] interface = refl
separator_there (c ∷ agent) interface = separator_there agent interface

-- An entry is named by a text exactly if the text is its namespaced name.
pub names_entry_lem :
    (namespaced : Text) (e : ListReplyEntry)
    → (names_entry namespaced e ≡ true)
      ↔ (namespaced ≡ namespaced_name e.agent_name e.interface_name)
unfolding names_entry
names_entry_lem namespaced e = (
  λ named.
      let n = length e.agent_name in
      let agent : take n namespaced ≡ e.agent_name =
        str_eq_sound (take n namespaced) e.agent_name (ground arith) in
      let slash : get_or namespaced n 0 ≡ separator = ground arith in
      let interface : drop (n + 1) namespaced ≡ e.interface_name =
        str_eq_sound (drop (n + 1) namespaced) e.interface_name (ground arith) in
      rebuilt namespaced n slash ∙ ap₂ namespaced_name agent interface,
  λ same.
      let n = length e.agent_name in
      let head = take-append e.agent_name (separator ∷ e.interface_name) n refl in
      let behind : drop (n + 1) (namespaced_name e.agent_name e.interface_name) ≡ e.interface_name =
        drop_past e.agent_name (separator ∷ e.interface_name) n 1 refl in
      rw
        (
          same,
          head,
          behind,
          separator_there e.agent_name e.interface_name,
          str_eq_refl e.agent_name,
          str_eq_refl e.interface_name,
        )
        refl,
)
