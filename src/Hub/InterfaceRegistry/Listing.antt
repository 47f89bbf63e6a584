-- ===== src/Hub/InterfaceRegistry/Listing.antt =====
-- Listing the interfaces a page at a time.
use can_hub.Base.{
  ℕ, zero, suc, ◌+◌, ◌≤◌, ◌≡◌, refl, ap, ◌∙◌, List, [], ◌∷◌, ◌++◌, map, Bool, arith, if◌then◌else◌,
  length, live, pages, pages_lem,
}
use can_hub.Protocol.ListReply.{ListReplyEntry}
use can_hub.Hub.InterfaceRegistry.{InterfaceRegistry, in_use, list_entry, list_from}

-- What a client gets that asks for the next page, behind the entries it has, as long as a reply says
-- that there is more.
pub list_all : ℕ → InterfaceRegistry → ℕ → List ListReplyEntry
list_all zero r offset = []
list_all (suc fuel) r offset =
    let got = list_from r offset in
    let rest = list_all fuel r (offset + length got.0) in got.0 ++ (if got.1 then rest else [])

list_all-pages :
    (fuel : ℕ) (r : InterfaceRegistry) (offset : ℕ)
    → list_all fuel r offset ≡ pages in_use list_entry fuel r.entries offset 16
unfolding list_all pages list_from
list_all-pages zero r offset = refl
list_all-pages (suc fuel) r offset =
    ap (λ rest. (list_from r offset).0 ++ (if (list_from r offset).1 then rest else []))
      (list_all-pages fuel r (offset + length (list_from r offset).0))

length-live : {A : Type 0} (p : A → Bool) (xs : List A) → length (live p xs) ≤ length xs
length-live p [] = omega arith
length-live p (x ∷ xs) = ground (arith, length-live p xs)

-- The pages from the first on are all live interfaces of the registry, each once and in order, with
-- as much fuel as there are entries.
pub list_all_lem :
    (r : InterfaceRegistry) (fuel : ℕ)
    → length r.entries ≤ fuel
    → list_all fuel r 0 ≡ map list_entry (live in_use r.entries)
list_all_lem r fuel enough =
    list_all-pages fuel r 0
    ∙ pages_lem in_use list_entry fuel r.entries 0 16 (omega arith)
        (omega (arith, length-live in_use r.entries))
