-- ===== src/Agent/EchoCorrelator/Refine.antt =====
-- Each interface's ring as the queue of its pending injections, oldest first.
use can_hub.Base.{
  ℕ, suc, ◌+◌, ◌-◌, ◌%◌, ◌≤◌, ◌<◌, ◌≡◌, refl, sym, ap, ap₂, ◌∙◌, List, [], ◌∷◌, ◌++◌, arith, length,
  get_or, set, drop, tabulate, tabulate_ext, tabulate-snoc, drop-tabulate, length-set,
  get_or-set_self, get_or-set_ne,
}
use can_hub.Agent.EchoCorrelator.{EchoCorrelator, drop_oldest, store}

-- The token and the identifier at a position of a ring that begins at `h`.
abbrev pub ring : List ℕ → List ℕ → ℕ → ℕ → ℕ × ℕ
ring tokens can_ids h position =
    (get_or tokens ((h + position) % 32) 0, get_or can_ids ((h + position) % 32) 0)

abbrev pub pending : EchoCorrelator → ℕ → List (ℕ × ℕ)
pending c i =
    tabulate (ring (get_or c.tokens i []) (get_or c.can_ids i []) (get_or c.head i 0)) 0
      (get_or c.count i 0)

ring_shift :
    (t s : List ℕ) (h k n g : ℕ)
    → g ≡ (h + k) % 32
    → tabulate (ring t s g) 0 n ≡ tabulate (ring t s h) k n
ring_shift t s h k n g e = tabulate_ext (ring t s g) (ring t s h) 0 k n (λ j _. same j)
  where
    slot : (j : ℕ) → (g + (0 + j)) % 32 ≡ (h + (k + j)) % 32
    slot j = omega arith

    same : (j : ℕ) → ring t s g (0 + j) ≡ ring t s h (k + j)
    same j = ap (λ (m : ℕ). (get_or t m 0, get_or s m 0)) (slot j)

ring-drop :
    (t s : List ℕ) (h k n m g : ℕ)
    → n ≡ k + m
    → g ≡ (h + k) % 32
    → tabulate (ring t s g) 0 m ≡ drop k (tabulate (ring t s h) 0 n)
ring-drop t s h k n m g e e' =
    ring_shift t s h k m g e' ∙ sym (drop-tabulate (ring t s h) k 0 n k m e (omega arith))

ring_store :
    (t s : List ℕ) (h n a b slot : ℕ)
    → length t ≡ 32
    → length s ≡ 32
    → slot ≡ (h + n) % 32
    → n < 32
    → tabulate (ring (set t slot a) (set s slot b) h) 0 (suc n)
      ≡ tabulate (ring t s h) 0 n ++ ((a, b) ∷ [])
ring_store t s h n a b slot lt ls e l =
    tabulate-snoc (ring (set t slot a) (set s slot b) h) 0 n n (omega arith)
    ∙ ap₂ (λ (q : List (ℕ × ℕ)) (x : ℕ × ℕ). q ++ (x ∷ []))
        (tabulate_ext (ring (set t slot a) (set s slot b) h) (ring t s h) 0 0 n older)
        (rw
          (← e, get_or-set_self t slot a 0 (omega arith), get_or-set_self s slot b 0 (omega arith)))
  where
    older : (k : ℕ) → k < n → ring (set t slot a) (set s slot b) h (0 + k) ≡ ring t s h (0 + k)
    older k kn = ground (
      arith,
      get_or-set_ne t slot ((h + (0 + k)) % 32) a 0 (omega arith),
      get_or-set_ne s slot ((h + (0 + k)) % 32) b 0 (omega arith),
    )

pub record IsValid (c : EchoCorrelator) (i : ℕ) : Type 0 where
  pub interface : i < 16
  pub all_tokens : length c.tokens ≡ 16
  pub all_can_ids : length c.can_ids ≡ 16
  pub all_heads : length c.head ≡ 16
  pub all_counts : length c.count ≡ 16
  pub tokens_row : length (get_or c.tokens i []) ≡ 32
  pub can_ids_row : length (get_or c.can_ids i []) ≡ 32
  pub head_in : get_or c.head i 0 < 32
  pub count_in : get_or c.count i 0 ≤ 32

module _ {c : EchoCorrelator} {i : ℕ} (v : IsValid c i) where
  -- What a write of the interface's head or count leaves to read.
  head_set : (x : ℕ) → get_or (set c.head i x) i 0 ≡ x
  head_set x = get_or-set_self c.head i x 0 (omega (arith, v.all_heads, v.interface))

  pub count_set : (x : ℕ) → get_or (set c.count i x) i 0 ≡ x
  count_set x = get_or-set_self c.count i x 0 (omega (arith, v.all_counts, v.interface))

  tokens_set : (x : List ℕ) → get_or (set c.tokens i x) i [] ≡ x
  tokens_set x = get_or-set_self c.tokens i x [] (omega (arith, v.all_tokens, v.interface))

  can_ids_set : (x : List ℕ) → get_or (set c.can_ids i x) i [] ≡ x
  can_ids_set x = get_or-set_self c.can_ids i x [] (omega (arith, v.all_can_ids, v.interface))

  -- Moving the head past `k` entries.
  unfoldable pub skip : ℕ → EchoCorrelator
  skip k = record c {
    head = set c.head i ((get_or c.head i 0 + k) % 32);
    count = set c.count i (get_or c.count i 0 - k);
  }

  pub skip-pending : (k : ℕ) → k ≤ get_or c.count i 0 → pending (skip k) i ≡ drop k (pending c i)
  unfolding skip
  skip-pending k h =
      rw (head_set ((get_or c.head i 0 + k) % 32), count_set (get_or c.count i 0 - k))
        (ring-drop (get_or c.tokens i []) (get_or c.can_ids i []) (get_or c.head i 0) k
          (get_or c.count i 0) (get_or c.count i 0 - k) ((get_or c.head i 0 + k) % 32) (omega arith)
          refl)

  pub skip-IsValid : (k : ℕ) → k ≤ get_or c.count i 0 → IsValid (skip k) i
  unfolding skip
  skip-IsValid k h = record {
    interface = v.interface;
    all_tokens = v.all_tokens;
    all_can_ids = v.all_can_ids;
    all_heads = length-set c.head i _ ∙ v.all_heads;
    all_counts = length-set c.count i _ ∙ v.all_counts;
    tokens_row = v.tokens_row;
    can_ids_row = v.can_ids_row;
    head_in = rw (head_set ((get_or c.head i 0 + k) % 32)) (omega arith);
    count_in = rw (count_set (get_or c.count i 0 - k)) (omega (arith, v.count_in));
  }

  pub drop_oldest-skip : 0 < get_or c.count i 0 → drop_oldest c i ≡ skip 1
  unfolding drop_oldest skip
  drop_oldest-skip h = ground (arith, v.count_in)

  module _ (token can_id : ℕ) (room : get_or c.count i 0 < 32) where
    pub store-pending : pending (store c i token can_id) i ≡ pending c i ++ ((token, can_id) ∷ [])
    unfolding store
    store-pending =
        let n = get_or c.count i 0 in
        let more : (n + 1) % 256 ≡ suc n = omega arith in
        rw (tokens_set _, can_ids_set _, count_set _, more)
          (ring_store (get_or c.tokens i []) (get_or c.can_ids i []) (get_or c.head i 0) n token
            can_id _ v.tokens_row v.can_ids_row refl room)

    pub store-IsValid : IsValid (store c i token can_id) i
    unfolding store
    store-IsValid = record {
      interface = v.interface;
      all_tokens = length-set c.tokens i _ ∙ v.all_tokens;
      all_can_ids = length-set c.can_ids i _ ∙ v.all_can_ids;
      all_heads = v.all_heads;
      all_counts = length-set c.count i _ ∙ v.all_counts;
      tokens_row = rw (tokens_set _) (length-set (get_or c.tokens i []) _ token ∙ v.tokens_row);
      can_ids_row =
          rw (can_ids_set _) (length-set (get_or c.can_ids i []) _ can_id ∙ v.can_ids_row);
      head_in = v.head_in;
      count_in = rw (count_set _) (omega arith);
    }
