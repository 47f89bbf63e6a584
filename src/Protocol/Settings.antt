-- ===== src/Protocol/Settings.antt =====
-- The settings of an interface in the configuration messages (src/protocol/ifconfig_message.{h,c}).
use can_hub.Base.{
  ℕ, ◌^◌, ◌<◌, ◌≡◌, refl, List, [], ◌∷◌, ◌++◌, Option, none, some, arith, Bool, true, false, not,
  ◌&&◌, ◌||◌, ltb, leb, ◌==◌, if◌then◌else◌, length, drop, bit_and,
}
use can_hub.Protocol.Wire.{
  byte, write_u16, write_u32, read_u16, read_u32, read_u16-write_u16, read_u32-write_u32,
}

pub record InterfaceBitTiming : Type 0 where
  pub tq : ℕ
  pub prop_seg : ℕ
  pub phase_seg1 : ℕ
  pub phase_seg2 : ℕ
  pub sjw : ℕ
  pub brp : ℕ

pub record InterfaceSettings : Type 0 where
  pub fields : ℕ
  pub bitrate : ℕ
  pub data_bitrate : ℕ
  pub sample_point : ℕ
  pub data_sample_point : ℕ
  pub ctrlmode_mask : ℕ
  pub ctrlmode_flags : ℕ
  pub restart_ms : ℕ
  pub txqueuelen : ℕ
  pub link_up : Bool
  pub can_state : ℕ
  pub termination : ℕ
  pub bit_timing : InterfaceBitTiming
  pub data_bit_timing : InterfaceBitTiming

-- INTERFACE_SAMPLE_POINT_MAX
abbrev sample_point_max : ℕ
sample_point_max = 1000

unfoldable pub names_raw_timing : InterfaceBitTiming → Bool
names_raw_timing timing = not (timing.tq == 0) || not (timing.brp == 0)

-- The bits of the fields: 9 and 10 name the bit timings, 0 and 1 the nominal rate and its sample
-- point, 2 and 3 those of the data phase.
unfoldable pub has_timing_conflict : InterfaceSettings → Bool
has_timing_conflict s =
    let nominal_raw = not (bit_and s.fields 0x200 == 0) && names_raw_timing s.bit_timing in
    let data_raw = not (bit_and s.fields 0x400 == 0) && names_raw_timing s.data_bit_timing in
    if nominal_raw && not (bit_and s.fields 0x3 == 0)
    then true
    else data_raw && not (bit_and s.fields 0xC == 0)

write_bit_timing : InterfaceBitTiming → List ℕ
write_bit_timing t =
    write_u32 t.tq
    ++ (write_u32 t.prop_seg
        ++ (write_u32 t.phase_seg1
            ++ (write_u32 t.phase_seg2 ++ (write_u32 t.sjw ++ write_u32 t.brp))))

read_bit_timing : List ℕ → InterfaceBitTiming
read_bit_timing source = record {
  tq = read_u32 source;
  prop_seg = read_u32 (drop 4 source);
  phase_seg1 = read_u32 (drop 8 source);
  phase_seg2 = read_u32 (drop 12 source);
  sjw = read_u32 (drop 16 source);
  brp = read_u32 (drop 20 source);
}

pub write_settings : InterfaceSettings → List ℕ
write_settings s =
    write_u32 s.fields
    ++ (write_u32 s.bitrate
        ++ (write_u32 s.data_bitrate
            ++ (write_u16 s.sample_point
                ++ (write_u16 s.data_sample_point
                    ++ (write_u32 s.ctrlmode_mask
                        ++ (write_u32 s.ctrlmode_flags
                            ++ (write_u32 s.restart_ms
                                ++ (write_u32 s.txqueuelen
                                    ++ ((if s.link_up then 1 else 0)
                                        ∷ s.can_state
                                        ∷ (write_u16 s.termination
                                            ++ (write_bit_timing s.bit_timing
                                                ++ write_bit_timing s.data_bit_timing)))))))))))

-- What `readSettings` fills in.
settings_at : List ℕ → InterfaceSettings
settings_at source = record {
  fields = read_u32 source;
  bitrate = read_u32 (drop 4 source);
  data_bitrate = read_u32 (drop 8 source);
  sample_point = read_u16 (drop 12 source);
  data_sample_point = read_u16 (drop 14 source);
  ctrlmode_mask = read_u32 (drop 16 source);
  ctrlmode_flags = read_u32 (drop 20 source);
  restart_ms = read_u32 (drop 24 source);
  txqueuelen = read_u32 (drop 28 source);
  link_up = not (byte source 32 == 0);
  can_state = byte source 33;
  termination = read_u16 (drop 34 source);
  bit_timing = read_bit_timing (drop 36 source);
  data_bit_timing = read_bit_timing (drop 60 source);
}

pub read_settings : List ℕ → Option InterfaceSettings
read_settings source =
    let s = settings_at source in
    if ltb sample_point_max s.sample_point
    then none
    else if leb s.data_sample_point sample_point_max
    then some s
    else none

-- Six 32-bit numbers.
pub record IsTiming (t : InterfaceBitTiming) : Type 0 where
  pub tq : t.tq < 2 ^ 32
  pub prop_seg : t.prop_seg < 2 ^ 32
  pub phase_seg1 : t.phase_seg1 < 2 ^ 32
  pub phase_seg2 : t.phase_seg2 < 2 ^ 32
  pub sjw : t.sjw < 2 ^ 32
  pub brp : t.brp < 2 ^ 32

-- Numbers in the range of their types; the sample points may be any of 16 bits.
pub record IsSettings (s : InterfaceSettings) : Type 0 where
  pub fields : s.fields < 2 ^ 32
  pub bitrate : s.bitrate < 2 ^ 32
  pub data_bitrate : s.data_bitrate < 2 ^ 32
  pub sample_point : s.sample_point < 2 ^ 16
  pub data_sample_point : s.data_sample_point < 2 ^ 16
  pub ctrlmode_mask : s.ctrlmode_mask < 2 ^ 32
  pub ctrlmode_flags : s.ctrlmode_flags < 2 ^ 32
  pub restart_ms : s.restart_ms < 2 ^ 32
  pub txqueuelen : s.txqueuelen < 2 ^ 32
  pub termination : s.termination < 2 ^ 16
  pub bit_timing : IsTiming s.bit_timing
  pub data_bit_timing : IsTiming s.data_bit_timing

read_bit_timing-write_bit_timing :
    (t : InterfaceBitTiming) (rest : List ℕ)
    → IsTiming t
    → read_bit_timing (write_bit_timing t ++ rest) ≡ t
unfolding read_bit_timing write_bit_timing write_u32 write_u16
read_bit_timing-write_bit_timing t rest v =
    let r5 = write_u32 t.brp ++ rest in
    let r4 = write_u32 t.sjw ++ r5 in
    let r3 = write_u32 t.phase_seg2 ++ r4 in
    let r2 = write_u32 t.phase_seg1 ++ r3 in
    let r1 = write_u32 t.prop_seg ++ r2 in
    rw
      (
        read_u32-write_u32 t.tq r1 v.tq,
        read_u32-write_u32 t.prop_seg r2 v.prop_seg,
        read_u32-write_u32 t.phase_seg1 r3 v.phase_seg1,
        read_u32-write_u32 t.phase_seg2 r4 v.phase_seg2,
        read_u32-write_u32 t.sjw r5 v.sjw,
        read_u32-write_u32 t.brp rest v.brp,
      )
      refl

link_flag : (b : Bool) → not ((if b then 1 else 0) == 0) ≡ b
link_flag true = refl
link_flag false = refl

settings_at-write_settings :
    (s : InterfaceSettings) (rest : List ℕ)
    → IsSettings s
    → settings_at (write_settings s ++ rest) ≡ s
unfolding settings_at write_settings write_bit_timing write_u32 write_u16
settings_at-write_settings s rest v =
    let r13 = write_bit_timing s.data_bit_timing ++ rest in
    let r12 = write_bit_timing s.bit_timing ++ r13 in
    let r11 = write_u16 s.termination ++ r12 in
    let r9 = (if s.link_up then 1 else 0) ∷ s.can_state ∷ r11 in
    let r8 = write_u32 s.txqueuelen ++ r9 in
    let r7 = write_u32 s.restart_ms ++ r8 in
    let r6 = write_u32 s.ctrlmode_flags ++ r7 in
    let r5 = write_u32 s.ctrlmode_mask ++ r6 in
    let r4 = write_u16 s.data_sample_point ++ r5 in
    let r3 = write_u16 s.sample_point ++ r4 in
    let r2 = write_u32 s.data_bitrate ++ r3 in
    let r1 = write_u32 s.bitrate ++ r2 in
    let up : not ((if s.link_up then 1 else 0) == 0) ≡ s.link_up = link_flag s.link_up in
    rw
      (
        read_u32-write_u32 s.fields r1 v.fields,
        read_u32-write_u32 s.bitrate r2 v.bitrate,
        read_u32-write_u32 s.data_bitrate r3 v.data_bitrate,
        read_u16-write_u16 s.sample_point r4 v.sample_point,
        read_u16-write_u16 s.data_sample_point r5 v.data_sample_point,
        read_u32-write_u32 s.ctrlmode_mask r6 v.ctrlmode_mask,
        read_u32-write_u32 s.ctrlmode_flags r7 v.ctrlmode_flags,
        read_u32-write_u32 s.restart_ms r8 v.restart_ms,
        read_u32-write_u32 s.txqueuelen r9 v.txqueuelen,
        up,
        read_u16-write_u16 s.termination r12 v.termination,
        read_bit_timing-write_bit_timing s.bit_timing r13 v.bit_timing,
        read_bit_timing-write_bit_timing s.data_bit_timing rest v.data_bit_timing,
      )
      refl

-- Settings whose sample points are in range are read back as they were written; others are refused.
pub read_settings-write_settings :
    (s : InterfaceSettings) (rest : List ℕ)
    → IsSettings s
    → read_settings (write_settings s ++ rest)
      ≡ (if leb s.sample_point 1000 && leb s.data_sample_point 1000 then some s else none)
unfolding read_settings
read_settings-write_settings s rest v =
    rw (settings_at-write_settings s rest v) (tests s.sample_point s.data_sample_point s)
  where
    tests :
        (p q : ℕ) (x : InterfaceSettings)
        → (if ltb 1000 p then none else if leb q 1000 then some x else none)
          ≡ (if leb p 1000 && leb q 1000 then some x else none)
    tests p q x = ground arith

-- The 88 bytes of INTERFACE_SETTINGS_SIZE: the last four are not written.
abbrev pub settings_bytes : InterfaceSettings → List ℕ
settings_bytes s = write_settings s ++ (0 ∷ 0 ∷ 0 ∷ 0 ∷ [])

pub length-settings_bytes : (s : InterfaceSettings) → length (settings_bytes s) ≡ 88
unfolding write_settings write_bit_timing write_u32 write_u16
length-settings_bytes s = refl
