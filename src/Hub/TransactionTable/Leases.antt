-- ===== src/Hub/TransactionTable/Leases.antt =====
-- The lookups of the transaction table against a plain search of its entries.
use mathlib.Core.Option
use can_hub.Base.{
  ℕ, zero, suc, ◌+◌, ◌<◌, ◌≡◌, refl, ap, ◌∙◌, Bool, ◌&&◌, List, [], ◌∷◌, Option, none, some, arith,
  ltb, ◌==◌, length, get_or, drop, find_index, find_index-none_of_count, drop-cons, find_from,
  find_from-find_index, Bool-cases, inl, inr,
}
use can_hub.Hub.TransactionTable.{
  TransactionTable, RelayedTransaction, blank, is_in_use, holds_lease, next_from, next_for_client,
  try_found, for_client_channel_from, for_client_channel, lease_holder,
}
use can_hub.Hub.TransactionTable.Invariant.{IsValid}

-- In a valid table the holder of an interface's lease is the client of the first active exclusive
-- entry on the interface, and there is none if no entry is.
pub lease_holder_lem :
    (s : TransactionTable) (interface_id : ℕ)
    → IsValid s
    → lease_holder s interface_id
      ≡ Option.map
          (λ i. (get_or s.entries i blank).client_peer_id)
          (find_index (λ t. holds_lease t && t.interface_id == interface_id) s.entries)
unfolding lease_holder
lease_holder_lem s interface_id v = elim (Bool-cases (ltb 0 s.active_leases)) [
  | inl some_lease ↦
      rw (some_lease)
        (found (find_index (λ t. holds_lease t && t.interface_id == interface_id) s.entries))
  | inr no_lease ↦ rw (
    no_lease,
    find_index-none_of_count holds_lease (λ t. holds_lease t && t.interface_id == interface_id)
        s.entries (λ t h. ground arith) (ground (arith, v.leases)),
  )
]
  where
    found :
        (o : Option ℕ)
        → (elim o [ none ↦ none | some i ↦ some (get_or s.entries i blank).client_peer_id ])
          ≡ Option.map (λ i. (get_or s.entries i blank).client_peer_id) o
    found none = refl
    found (some i) = refl

abbrev pub on_channel : ℕ → ℕ → RelayedTransaction → Bool
on_channel client_peer_id client_channel t =
    (is_in_use t && t.client_peer_id == client_peer_id) && t.client_channel == client_channel

module _ (s : TransactionTable) (client_peer_id client_channel : ℕ) where
  -- The iterator over what is left of the table.
  iterated :
      (l : List RelayedTransaction) (i : ℕ)
      → drop i s.entries ≡ l
      → next_for_client s client_peer_id i ≡ next_from client_peer_id l i
  unfolding next_for_client
  iterated l i e = ap (λ r. next_from client_peer_id r i) e

  loop_lem :
      (l : List RelayedTransaction) (i fuel : ℕ)
      → drop i s.entries ≡ l
      → length l < fuel
      → for_client_channel_from fuel s client_peer_id client_channel i
        ≡ find_from (on_channel client_peer_id client_channel) l i
  unfolding for_client_channel_from next_from find_from
  loop_lem l i zero e h = absurd (omega arith)
  loop_lem [] i (suc fuel) e h = rw (for_client_channel_from, iterated [] i e)
  loop_lem (t ∷ rest) i (suc fuel) e h =
      let (tail, here) = drop-cons s.entries i blank t rest e in
      elim (Bool-cases (is_in_use t && t.client_peer_id == client_peer_id)) [
        | inl mine ↦ elim (Bool-cases (t.client_channel == client_channel)) [
          | inl hit ↦
              rw (for_client_channel_from, iterated (t ∷ rest) i e, mine, try_found, here, hit)
          | inr other ↦
              rw (for_client_channel_from, iterated (t ∷ rest) i e, mine, try_found, here, other)
                (loop_lem rest (i + 1) fuel tail (omega arith))
        ]
        | inr foreign ↦
            rw
              (
                for_client_channel_from,
                iterated (t ∷ rest) i e,
                foreign,
                ← iterated rest (i + 1) tail,
              )
              (loop_lem rest (i + 1) (suc fuel) tail (omega arith))
      ]

  -- The search by client and channel, which resumes at an iterator, ends, and finds the first entry
  -- in use of that client on that channel, if there is one.
  pub for_client_channel_lem :
      for_client_channel s client_peer_id client_channel
      ≡ find_index (on_channel client_peer_id client_channel) s.entries
  unfolding for_client_channel
  for_client_channel_lem =
      loop_lem s.entries 0 (length s.entries + 1) refl (omega arith)
      ∙ find_from-find_index (on_channel client_peer_id client_channel) s.entries 0
      ∙ from_start (find_index (on_channel client_peer_id client_channel) s.entries)
    where
      from_start : (o : Option ℕ) → Option.map (λ (j : ℕ). 0 + j) o ≡ o
      from_start none = refl
      from_start (some j) = ap some (omega arith)
