-- ===== src/Agent/TxPacer.antt =====
-- src/agent/domain/tx_pacer.{h,c}: the credit of each interface, up by a step and down by a factor.
use can_hub.Base.{
  ℕ, ◌+◌, ◌*◌, ◌/◌, ◌%◌, ◌^◌, ◌≤◌, ◌<◌, ◌≡◌, Bool, true, false, List, arith, ltb, leb, min,
  if◌then◌else◌, length, get_or, set, replicate, get_or-set_self,
}

-- REGISTER_INTERFACES_MAX
abbrev pub interfaces_max : ℕ
interfaces_max = 16

pub record TxPacer : Type 0 where
  pub credit : List ℕ
  pub last_tx_dropped : List ℕ
  pub seen : List Bool

pub reset : TxPacer
reset = record {
  credit = replicate interfaces_max 0;
  last_tx_dropped = replicate interfaces_max 0;
  seen = replicate interfaces_max false;
}

-- The back-off by DECREASE_NUMERATOR / DECREASE_DENOMINATOR, with a floor of advertised / 16.
decreased : ℕ → ℕ → ℕ
decreased credit advertised_rate =
    let floor_rate = advertised_rate / 16 in
    let lower = credit * 4 % 2 ^ 64 / 5 % 2 ^ 32 in
    if ltb lower floor_rate then floor_rate else lower

-- The ramp by advertised / INCREASE_DIVISOR, with the advertised rate for a ceiling.
increased : ℕ → ℕ → ℕ
increased credit advertised_rate =
    let higher = (credit + advertised_rate / 8) % 2 ^ 32 in
    if ltb advertised_rate higher then advertised_rate else higher

pub update : TxPacer → ℕ → ℕ → ℕ → ℕ × TxPacer
update p interface_index advertised_rate tx_dropped =
    let i = interface_index in
    let credit =
      if ltb (get_or p.last_tx_dropped i 0) tx_dropped
      then decreased (get_or p.credit i 0) advertised_rate
      else increased (get_or p.credit i 0) advertised_rate in
    if leb interfaces_max i
    then (advertised_rate, p)
    else if get_or p.seen i false
    then (
      credit,
      record p {
        credit = set p.credit i credit;
        last_tx_dropped = set p.last_tx_dropped i tx_dropped;
      },
    )
    else (
      advertised_rate,
      record p {
        credit = set p.credit i advertised_rate;
        last_tx_dropped = set p.last_tx_dropped i tx_dropped;
        seen = set p.seen i true;
      },
    )

pub record IsSized (p : TxPacer) : Type 0 where
  pub credits : length p.credit ≡ 16
  pub drops : length p.last_tx_dropped ≡ 16
  pub flags : length p.seen ≡ 16

module _ (p : TxPacer) (i advertised_rate tx_dropped : ℕ) (v : IsSized p) (inside : i < 16)
    (fits : advertised_rate < 2 ^ 31) (below : get_or p.credit i 0 ≤ advertised_rate) where
  -- For an interface of the 16, and an advertised rate under 2 ^ 31 that is not below the credit,
  -- an update returns the credit that it stores; that is at most the advertised rate, and at least
  -- the smaller of the credit before and a sixteenth of the advertised rate.
  pub update_bounds :
      (get_or (update p i advertised_rate tx_dropped).1.credit i 0
        ≡ (update p i advertised_rate tx_dropped).0)
      × ((update p i advertised_rate tx_dropped).0 ≤ advertised_rate)
      × (min (get_or p.credit i 0) (advertised_rate / 16)
          ≤ (update p i advertised_rate tx_dropped).0)
  unfolding update decreased increased
  update_bounds = ground (
    arith,
    get_or-set_self p.credit i advertised_rate 0,
    get_or-set_self p.credit i (decreased (get_or p.credit i 0) advertised_rate) 0,
    get_or-set_self p.credit i (increased (get_or p.credit i 0) advertised_rate) 0,
    v.credits,
  )

  -- For an interface of the 16 that has been updated before, and an advertised rate under 2 ^ 31
  -- that is not below the credit, new drops take off a fifth, down to a sixteenth of the advertised
  -- rate, and a window without drops adds an eighth of the advertised rate, up to that rate.
  update_direction :
      get_or p.seen i false ≡ true
      → (update p i advertised_rate tx_dropped).0 ≡ (
          if ltb (get_or p.last_tx_dropped i 0) tx_dropped
          then (if ltb (get_or p.credit i 0 * 4 / 5) (advertised_rate / 16)
              then advertised_rate / 16
              else get_or p.credit i 0 * 4 / 5)
          else min (get_or p.credit i 0 + advertised_rate / 8) advertised_rate)
  unfolding update decreased increased
  update_direction known = ground arith
