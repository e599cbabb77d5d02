-- ===== src/Tests/Capture.antt =====
-- HEP frames, sessions and a run of the workers.
use zaman.Base.{◌+◌, ◌≡◌, refl, some, List, [], ◌∷◌, ◌++◌, if◌then◌else◌, take, min, arith}
use zaman.Text.{Bytes, codes, equal}
use zaman.Text.Decimal.{pos}
use zaman.Core.Config.{Config, load_config}
use zaman.Core.Metrics.{bump, count_of, count_of-bump}
use zaman.Core.Ring.{recent}
use zaman.Core.Ring.History.{pushes, recent-pushes}
use zaman.Core.State.{State}
use zaman.Hep.{hep_decode}
use zaman.Hep.Format.{Chunk, encode}
use zaman.Hep.Packet.{Packet, chunks_of, info_of, hep_decode_fields}
use zaman.Hep.Drain.{drain}
use zaman.Hep.Drain.Frames.{encode_frames, handle_frames, drain-encode_frames}
use zaman.Hep.Session.{session, eof}
use zaman.Hep.Session.Whole.{reads, joined, session-drain}
use zaman.Sip.Worker.{sip_packet}
use zaman.Workers.{start, sip, Reach, here, next}
use zaman.Workers.Accounting.{IsAccounted}
use zaman.Workers.Runs.{denials, receipts, Reach-IsAccounted}

-- A handler that keeps the frames.
abbrev keep_frame : Bytes → List Bytes → List Bytes
keep_frame f log = f ∷ log

abbrev first_frame : List Chunk
first_frame =
    record { vendor = 0; kind = 11; body = 1 ∷ [] }
    ∷ record { vendor = 0; kind = 15; body = codes "OPTIONS" }
    ∷ []

abbrev second_frame : List Chunk
second_frame = record { vendor = 0; kind = 12; body = 0 ∷ 0 ∷ 0 ∷ 7 ∷ [] } ∷ []

abbrev noise : Bytes
noise = codes "xHEP"

drain-encode_frames_example :
    drain keep_frame (encode_frames (first_frame ∷ second_frame ∷ []) noise) []
    ≡ drain keep_frame noise (handle_frames keep_frame (first_frame ∷ second_frame ∷ []) [])
drain-encode_frames_example =
    drain-encode_frames keep_frame (first_frame ∷ second_frame ∷ []) noise [] (omega arith)

session-drain_example :
    session keep_frame
      (reads
        (encode first_frame ∷ codes "HEP3" ∷ [])
        (record { bytes = codes "tail"; error = eof } ∷ []))
      ([], [])
    ≡ (drain keep_frame (joined (encode first_frame ∷ codes "HEP3" ∷ []) ++ codes "tail") []).1
session-drain_example =
    session-drain keep_frame (encode first_frame ∷ codes "HEP3" ∷ []) (codes "tail") eof []
      (ground arith) (omega arith) (omega arith)

abbrev options_packet : Packet
options_packet = record {
  ip_proto = 17;
  src = record { a = 10; b = 0; c = 0; d = 1 };
  dst = record { a = 10; b = 0; c = 0; d = 2 };
  src_port = 5060;
  dst_port = 5070;
  t_sec = 1700000000;
  t_usec = 250000;
  proto_type = 1;
  node_id = 2001;
  node_pw = codes "secret";
  correlation_id = codes "abc@host";
  node_name = codes "edge";
  payload = codes "OPTIONS sip:a@b SIP/2.0";
}

hep_decode_fields_example :
    hep_decode (encode (chunks_of options_packet) ++ []) ≡ info_of options_packet
hep_decode_fields_example = hep_decode_fields options_packet (record {
  src_port = omega arith;
  dst_port = omega arith;
  t_sec = omega arith;
  t_usec = omega arith;
  node_id = omega arith;
  size = omega arith;
})

recent-pushes_example :
    recent (pos 2) (pushes (codes "c" ∷ codes "b" ∷ codes "a" ∷ []))
    ≡ some (take (min 2 512) (codes "c" ∷ codes "b" ∷ codes "a" ∷ []))
recent-pushes_example = recent-pushes (codes "c" ∷ codes "b" ∷ codes "a" ∷ []) 2

count_of-bump_example :
    count_of (codes "INVITE") (bump (codes "INVITE") ((codes "BYE", 2) ∷ (codes "INVITE", 4) ∷ []))
    ≡ (if equal (codes "INVITE") (codes "INVITE")
        then count_of (codes "INVITE") ((codes "BYE", 2) ∷ (codes "INVITE", 4) ∷ []) + 1
        else count_of (codes "INVITE") ((codes "BYE", 2) ∷ (codes "INVITE", 4) ∷ []))
count_of-bump_example =
    count_of-bump (codes "INVITE") (codes "INVITE") ((codes "BYE", 2) ∷ (codes "INVITE", 4) ∷ [])

abbrev no_variables : Bytes → Bytes
no_variables key = []

abbrev test_config : Config
test_config = load_config no_variables []

abbrev peer : Bytes
peer = codes "10.0.0.1:5060"

abbrev after_sip : State
after_sip =
    (sip_packet no_variables test_config 1000 peer (codes "OPTIONS sip:a@b SIP/2.0") start).1

abbrev one_step : Reach no_variables test_config start after_sip
one_step = next here (sip 1000 peer (codes "OPTIONS sip:a@b SIP/2.0") refl)

Reach-IsAccounted_example : IsAccounted (denials one_step) (receipts one_step) after_sip
Reach-IsAccounted_example = Reach-IsAccounted one_step
