-- ===== src/Hub/RejectedPeers/Tests.antt =====
-- Runs of the table, and its theorems at a concrete table.
use can_hub.Base.{
  ℕ, ◌+◌, ◌%◌, ◌^◌, ◌≡◌, refl, List, [], ◌∷◌, true, false, arith, Text, length, get_or, inl,
  find_index, find, str_eq, page,
}
use can_hub.Hub.HubPeer
use can_hub.Hub.HubPeer.{HubPeer}
use can_hub.Hub.RejectedPeers.{
  RejectedPeers, Rejection, blank, reset, record_rejection, mark_entry, new_entry, claim_entry,
  claim_from, is_less_worth_keeping, find_entry, forget, list_from, fill_admin_entry,
}
use can_hub.Hub.RejectedPeers.Attempts.{
  IsValid, reset-IsValid, attempts_of, record_rejection_counted,
}
use can_hub.Hub.RejectedPeers.Flood.{HasWorse, AreOneShot, reject_all, flood_outlived}

abbrev knock : Text → ℕ → Rejection
knock fingerprint now = record {
  peer = record HubPeer.blank { in_use = true; role = 1; fingerprint_hex = fingerprint };
  name = 65 ∷ [];
  reason = 2;
  now_us = now;
}

-- A device that has knocked twice.
abbrev table : RejectedPeers
table = record_rejection (record_rejection reset (knock (97 ∷ []) 10)) (knock (97 ∷ []) 20)

runs :
    (attempts_of table (knock (97 ∷ []) 0).peer ≡ 2)
    × (claim_entry table ≡ 1)
    × (attempts_of (forget table (knock (97 ∷ []) 0).peer) (knock (97 ∷ []) 0).peer ≡ 0)
    × ((list_from table 0 3000020).1 ≡ false)
    × (length (list_from table 0 3000020).0 ≡ 1)
    × ((fill_admin_entry 3000020 (get_or table.entries 0 blank)).last_seen_seconds ≡ 3)
unfolding record_rejection mark_entry new_entry claim_entry claim_from is_less_worth_keeping
    find_entry forget list_from fill_admin_entry attempts_of reset find_index find str_eq page
runs = (refl, refl, refl, refl, refl, refl)

has_fingerprint : str_eq (97 ∷ []) [] ≡ false
unfolding str_eq
has_fingerprint = refl

record_rejection_counted_example :
    IsValid (record_rejection reset (knock (97 ∷ []) 10))
    × (attempts_of (record_rejection reset (knock (97 ∷ []) 10)) (knock (97 ∷ []) 10).peer
        ≡ (attempts_of reset (knock (97 ∷ []) 10).peer + 1) % 2 ^ 32)
record_rejection_counted_example =
    record_rejection_counted reset (knock (97 ∷ []) 10) reset-IsValid has_fingerprint

abbrev flood : List Rejection
flood = knock (98 ∷ []) 30 ∷ knock (99 ∷ []) 31 ∷ []

worse : HasWorse table 0
unfolding HasWorse record_rejection mark_entry new_entry claim_entry claim_from find_entry reset
    find_index str_eq
worse = (1, omega arith, omega arith, inl refl)

one_shots : AreOneShot table flood
unfolding AreOneShot record_rejection mark_entry new_entry claim_entry claim_from find_entry reset
    find_index str_eq
one_shots = (refl, (refl, tt))

entry :
    (length table.entries ≡ 16)
    × ((get_or table.entries 0 blank).in_use ≡ true)
    × ((get_or table.entries 0 blank).attempts ≡ 2)
unfolding record_rejection mark_entry new_entry claim_entry claim_from find_entry reset find_index
    str_eq
entry = (refl, refl, refl)

flood_outlived_example :
    get_or (reject_all table flood).entries 0 blank ≡ get_or table.entries 0 blank
flood_outlived_example =
    flood_outlived flood table 0 entry.0 (omega arith) entry.1 (omega (arith, entry.2)) worse
      one_shots
