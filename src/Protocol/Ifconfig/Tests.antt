-- ===== src/Protocol/Ifconfig/Tests.antt =====
-- A configuration, and the theorem about it at a concrete one.
use can_hub.Base.{◌≡◌, refl, [], ◌∷◌, some, true, false, arith, drop}
use can_hub.Protocol.Wire.{IsText-cons, IsText-nil}
use can_hub.Protocol.Settings.{
  InterfaceBitTiming, InterfaceSettings, IsTiming, IsSettings, has_timing_conflict,
  names_raw_timing,
}
use can_hub.Protocol.Ifconfig.{
  IfconfigMessage, ConfigureMessage, encode_ifconfig, decode_ifconfig, encode_configure,
  decode_configure,
}
use can_hub.Protocol.Ifconfig.Forwarding.{configure_forwarded}

abbrev no_timing : InterfaceBitTiming
no_timing = record { tq = 0; prop_seg = 0; phase_seg1 = 0; phase_seg2 = 0; sjw = 0; brp = 0 }

-- 500 kbit/s at a sample point of 87.5 percent.
abbrev settings : InterfaceSettings
settings = record {
  fields = 3;
  bitrate = 500000;
  data_bitrate = 0;
  sample_point = 875;
  data_sample_point = 0;
  ctrlmode_mask = 0;
  ctrlmode_flags = 0;
  restart_ms = 100;
  txqueuelen = 0;
  link_up = true;
  can_state = 0;
  termination = 120;
  bit_timing = no_timing;
  data_bit_timing = no_timing;
}

no_timing-IsTiming : IsTiming no_timing
no_timing-IsTiming = record {
  tq = omega arith;
  prop_seg = omega arith;
  phase_seg1 = omega arith;
  phase_seg2 = omega arith;
  sjw = omega arith;
  brp = omega arith;
}

settings-IsSettings : IsSettings settings
settings-IsSettings = record {
  fields = omega arith;
  bitrate = omega arith;
  data_bitrate = omega arith;
  sample_point = omega arith;
  data_sample_point = omega arith;
  ctrlmode_mask = omega arith;
  ctrlmode_flags = omega arith;
  restart_ms = omega arith;
  txqueuelen = omega arith;
  termination = omega arith;
  bit_timing = no_timing-IsTiming;
  data_bit_timing = no_timing-IsTiming;
}

-- A bitrate and a raw bit timing in one request conflict.
conflicts :
    (has_timing_conflict settings ≡ false)
    × (has_timing_conflict
          (record settings { fields = 0x201; bit_timing = record no_timing { tq = 100 } })
        ≡ true)
unfolding has_timing_conflict names_raw_timing
conflicts = (refl, refl)

abbrev request : ConfigureMessage
request = record { agent_name = 65 ∷ []; interface_name = 99 ∷ []; op = 0; settings = settings }

abbrev forwarded : IfconfigMessage
forwarded = record { request_id = 5; interface_name = 99 ∷ []; op = 0; settings = settings }

configure_forwarded_example :
    (decode_configure (drop 4 (encode_configure request 240)) 236 ≡ some request)
    × (decode_ifconfig (drop 4 (encode_ifconfig forwarded 116)) 112 ≡ some forwarded)
configure_forwarded_example =
    configure_forwarded request 5 (IsText-cons 65 [] (omega arith) IsText-nil, omega arith)
      (IsText-cons 99 [] (omega arith) IsText-nil, omega arith)
      (settings-IsSettings, omega arith, omega arith) (omega arith)
