-- ===== src/Tests/Reports.antt =====
-- Instances for the payloads of variable length of src/arc_messages_*.c.
use arc_protocol.Prelude.{◌≡◌, refl, arith, [], ◌∷◌, ◌++◌, length, some, replicate, drop}
use arc_protocol.Prelude.Int.{negsuc}
use arc_protocol.Memory.{Bytes, done}
use arc_protocol.Protocol.{Result, ok}
use arc_protocol.Messages.Text.{text_of}
use arc_protocol.Messages.Power.Report.{
  ChannelStatus, PowerReport, power_report_encode, power_report_decode,
}
use arc_protocol.Messages.Power.Report.RoundTrip.{
  power_received, power_report_decode-power_report_encode,
}
use arc_protocol.Messages.Power.Report.Safety.{power_report_decode-returns}
use arc_protocol.Messages.FcVideo.Report.{VideoReport, video_report_encode, video_report_decode}
use arc_protocol.Messages.FcVideo.Report.RoundTrip.{
  video_received, video_report_decode-video_report_encode,
}
use arc_protocol.Messages.FcVideo.Report.Safety.{video_report_decode-returns}
use arc_protocol.Messages.Video.Info.{
  InfoReport, info_report_encode, info_report_decode, info_report_decode-info_report_encode,
  info_report_decode-returns,
}
use arc_protocol.Messages.FcVideo.Layouts.{
  LayoutsReport, layouts_report_encode, layouts_report_decode,
}
use arc_protocol.Messages.FcVideo.Layouts.RoundTrip.{
  names_received, layouts_report_decode-layouts_report_encode,
}
use arc_protocol.Messages.FcVideo.Layouts.Safety.{IsNames, layouts_report_decode-returns}

abbrev room : Bytes
room = replicate 64 0

abbrev no_channel : ChannelStatus
no_channel = record { state = 0; current_ma = 0 }

abbrev blank_power : PowerReport
blank_power = record {
  channel_count = 0;
  channels = replicate 8 no_channel;
  bus_voltage_mv = 0;
  temp_c = negsuc 0;
}

abbrev power : PowerReport
power = record {
  channel_count = 2;
  channels =
      record { state = 1; current_ma = 1500 }
      ∷ record { state = 65; current_ma = 51234 }
      ∷ replicate 6 no_channel;
  bus_voltage_mv = 12000;
  temp_c = negsuc 19;
}

power_report_decode-power_report_encode_example :
    (out : Bytes) × (power_report_encode (some power) (some room) 64 ≡ done (ok 10, some out))
    × (power_report_decode (some out) 10 (some blank_power)
        ≡ done (ok tt, some (power_received power blank_power)))
power_report_decode-power_report_encode_example =
    power_report_decode-power_report_encode power blank_power room 64
      (omega arith, refl, (omega arith, (omega arith, tt)), omega arith, omega arith) refl
      (omega arith) (omega arith)

power_report_decode-returns_example :
    (res : Result (Unit {0})) × (m : PowerReport) × (power_report_decode
        (some (9 ∷ 1 ∷ []))
        2
        (some blank_power)
      ≡ done (res, some m))
    × (length m.channels ≡ 8)
power_report_decode-returns_example =
    power_report_decode-returns blank_power (9 ∷ 1 ∷ []) 2 refl (omega arith)

abbrev blank_video : VideoReport
blank_video = record {
  slot_count = 0;
  slots = replicate 4 0;
  sender_count = 0;
  senders = replicate 8 (record { addr = 0; flags = 0 });
}

abbrev video : VideoReport
video = record {
  slot_count = 3;
  slots = 16 ∷ 0 ∷ 18 ∷ 0 ∷ [];
  sender_count = 1;
  senders = record { addr = 16; flags = 3 } ∷ replicate 7 (record { addr = 0; flags = 0 });
}

video_report_decode-video_report_encode_example :
    (out : Bytes) × (video_report_encode (some video) (some room) 64 ≡ done (ok 7, some out))
    × (video_report_decode (some out) 7 (some blank_video)
        ≡ done (ok tt, some (video_received video blank_video)))
video_report_decode-video_report_encode_example =
    video_report_decode-video_report_encode video blank_video room 64
      (omega arith, omega arith, refl, refl) refl refl (omega arith) (omega arith)

video_report_decode-returns_example :
    (res : Result (Unit {0})) × (m : VideoReport) × (video_report_decode
        (some (1 ∷ 7 ∷ 9 ∷ []))
        3
        (some blank_video)
      ≡ done (res, some m))
    × (length m.slots ≡ 4)
    × (length m.senders ≡ 8)
video_report_decode-returns_example =
    video_report_decode-returns blank_video (1 ∷ 7 ∷ 9 ∷ []) 3 refl refl (omega arith)

abbrev blank_info : InfoReport
blank_info = record { paired_fc = 0; name = replicate 32 0 }

abbrev info : InfoReport
info = record { paired_fc = 2; name = 80 ∷ 105 ∷ replicate 30 0 }

info_report_decode-info_report_encode_example :
    (out : Bytes) × (info_report_encode (some info) (some room) 64 ≡ done (ok 4, some out))
    × (info_report_decode (some out) 4 (some blank_info)
        ≡ done (
          ok tt,
          some (record { paired_fc = 2; name = text_of info.name ++ (0 ∷ drop 3 blank_info.name) }),
        ))
info_report_decode-info_report_encode_example =
    info_report_decode-info_report_encode info blank_info room 64 refl refl refl (omega arith)
      (omega arith)

info_report_decode-returns_example :
    (res : Result (Unit {0})) × (m : InfoReport) × (info_report_decode
        (some (2 ∷ 80 ∷ 7 ∷ []))
        3
        (some blank_info)
      ≡ done (res, some m))
    × (length m.name ≡ 32)
info_report_decode-returns_example =
    info_report_decode-returns blank_info (2 ∷ 80 ∷ 7 ∷ []) 3 refl (omega arith)

abbrev blank_layouts : LayoutsReport
blank_layouts = record { count = 0; names = replicate 16 (replicate 24 0) }

abbrev layouts : LayoutsReport
layouts = record {
  count = 2;
  names = (65 ∷ 66 ∷ replicate 22 0) ∷ (67 ∷ replicate 23 0) ∷ replicate 14 (replicate 24 0);
}

layouts_report_decode-layouts_report_encode_example :
    (out : Bytes) × (layouts_report_encode (some layouts) (some room) 64 ≡ done (ok 6, some out))
    × (layouts_report_decode (some out) 6 (some blank_layouts)
        ≡ done (
          ok tt,
          some (record { count = 2; names = names_received 2 layouts.names blank_layouts.names }),
        ))
layouts_report_decode-layouts_report_encode_example =
    layouts_report_decode-layouts_report_encode layouts blank_layouts room 64 (omega arith) refl
      ((refl, refl), ((refl, refl), tt)) refl (refl, (refl, tt)) (omega arith) (omega arith)
      (omega arith)

blank_names : IsNames blank_layouts.names
blank_names = (
  refl,
  (
    refl,
    (
      refl,
      (
        refl,
        (
          refl,
          (
            refl,
            (refl, (refl, (refl, (refl, (refl, (refl, (refl, (refl, (refl, (refl, tt)))))))))),
          ),
        ),
      ),
    ),
  ),
)

layouts_report_decode-returns_example :
    (res : Result (Unit {0})) × (m : LayoutsReport) × (layouts_report_decode
        (some (1 ∷ 65 ∷ 0 ∷ []))
        3
        (some blank_layouts)
      ≡ done (res, some m))
    × IsNames m.names
    × (length m.names ≡ 16)
layouts_report_decode-returns_example =
    layouts_report_decode-returns blank_layouts (1 ∷ 65 ∷ 0 ∷ []) 3 refl blank_names (omega arith)
