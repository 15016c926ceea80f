-- ===== src/Agent/Tests.antt =====
-- Runs of internal/agent at concrete inputs.
use faketunnel.Base.{
  ◌+◌, ◌≤◌, ◌<◌, ◌≡◌, refl, ◌⊎◌, true, false, Option, none, some, List, [], ◌∷◌, arith,
  if◌then◌else◌, All, is_some, ok, Bytes, text, text_eq,
}
use faketunnel.Base.Spaces.{trim_space}
use faketunnel.Base.Ids.{lookup_id, erase_id, assign_id}
use faketunnel.Base.Integers.{pos}
use faketunnel.Base.Scan.{has_byte, cut, cut_last}
use faketunnel.Config.File.{File, Tunnel, is_blank, find_tunnel}
use faketunnel.Net.HostPort.{split_host_port}
use faketunnel.Config.File.{
  File, Tunnel, restrict_tunnels, tunnel_by_name, private_only, is_blank, find_tunnel,
}
use faketunnel.Net.{Ip, shortest, to4, is_unspecified, net_contains}
use faketunnel.Proxy.Local.{validate_local, addresses_of, check_all, check_ip, is_multicast}
use faketunnel.Tunnel.Messages.{OpenMeta}
use faketunnel.Agent.Client.{
  next_backoff, waits, waits_bounded, min_backoff, max_backoff, max_jitter, resolve_local,
  local_target, handle_stream, handle_stream_restricted,
}
use faketunnel.Agent.Udp.{
  Hub, new_hub, step, run_steps, opens, enters, shuts, leaves, open_assoc, enter_assoc, shut, leave,
  close_assoc, remove_conn,
}
use faketunnel.Agent.Udp.Invariant.{IsValid}
use faketunnel.Agent.Udp.Runs.{run_steps-IsValid, run_closes_all}
use faketunnel.Base.Ids.{lookup_id}
use faketunnel.Tunnel.Frame.{Frame, type_open_assoc}
use faketunnel.Tunnel.Wire.{put_string, put_u32}
use faketunnel.Tunnel.Messages.{OpenAssoc, marshal_open_assoc}
use faketunnel.Agent.Udp.{ack}
use faketunnel.Agent.Udp.Reader.{World, frame_steps, frame_steps_answer}

waits_bounded_example :
    All
      (λ w. (min_backoff ≤ w) × (w < max_backoff + max_jitter))
      (waits 0 ((false, 5) ∷ (false, 7) ∷ (true, 9) ∷ []))
waits_bounded_example =
    waits_bounded 0 ((false, 5) ∷ (false, 7) ∷ (true, 9) ∷ [])
      (omega arith, (omega arith, (omega arith, tt)))

doubled :
    waits 0 ((false, 5) ∷ (false, 7) ∷ (true, 9) ∷ []) ≡ 500000005 ∷ 1000000017 ∷ 500000009 ∷ []
unfolding waits next_backoff
doubled = refl

abbrev ssh : Tunnel
ssh = record {
  name = text "ssh";
  kind = text "tcp";
  public = [];
  tls = false;
  passthrough = false;
  http2 = false;
  local = text "127.0.0.1:22";
  host = [];
  cert = [];
  key = [];
}

abbrev agent_file : File
agent_file = record {
  path = [];
  listen = [];
  edge = text "e:8443";
  token = text "secret";
  token_file = [];
  agent_id = [];
  tls = record {
    cert = [];
    key = [];
    ca = [];
    server_name = [];
    insecure_skip_verify = none;
    auto_self_signed = false;
  };
  allowlist_file = [];
  allowlist = [];
  denylist_file = [];
  admin = record { enable = none; listen = []; token = []; token_file = []; metrics = none };
  tunnels = ssh ∷ [];
  idle_timeout = pos 0;
  dial_timeout = pos 0;
  max_sessions = pos 0;
  shutdown_timeout = pos 0;
  log_level = [];
  log_format = [];
  proxy_protocol = false;
  local_private_only = none;
  health_path = [];
}

abbrev meta : OpenMeta
meta = record { name = text "ssh"; local = text "10.0.0.9:22"; client_addr = []; proto = 1 }

-- the one address that the stand-in for net.ParseIP knows
abbrev parse_ip : Bytes → Option Ip
parse_ip s = if text_eq s (text "127.0.0.1") then some (127 ∷ 0 ∷ 0 ∷ 1 ∷ []) else none

abbrev resolve : Bytes → Option (List Ip)
resolve host = none

dials :
    (handle_stream parse_ip resolve agent_file meta (λ l. true) true).1 ≡ some (text "127.0.0.1:22")
unfolding handle_stream local_target resolve_local restrict_tunnels find_tunnel validate_local
    addresses_of check_all check_ip shortest to4 is_unspecified is_multicast net_contains text_eq
    trim_space split_host_port cut cut_last has_byte
dials = refl

restricted : restrict_tunnels agent_file ≡ true
unfolding restrict_tunnels
restricted = refl

handle_stream_restricted_example :
    (validate_local parse_ip resolve (text "127.0.0.1:22") (private_only agent_file) ≡ ok tt)
    × (t : Tunnel) × (tunnel_by_name (text "ssh") agent_file ≡ some t)
    × ((is_blank t.local ≡ true) ⊎ (t.local ≡ text "127.0.0.1:22"))
handle_stream_restricted_example =
    handle_stream_restricted parse_ip resolve agent_file meta (λ l. true) true (text "127.0.0.1:22")
      restricted dials

run_steps-IsValid_example :
    IsValid 2 (run_steps 2 (opens 7 true true ∷ enters 0 true ∷ opens 8 true true ∷ []) new_hub)
run_steps-IsValid_example =
    run_steps-IsValid 2 (opens 7 true true ∷ enters 0 true ∷ opens 8 true true ∷ [])

-- Edge opens association 7
abbrev request : OpenAssoc
request = record { id = 7; client_addr = text "a" }

abbrev open_frame : Frame
open_frame = record { kind = type_open_assoc; flags = 0; payload = 0 ∷ 0 ∷ 0 ∷ 7 ∷ 0 ∷ 1 ∷ 97 ∷ [] }

abbrev world : World
world = record { now = 5; dials = true; sends = true; writable = true }

on_wire : marshal_open_assoc request ≡ ok open_frame.payload
unfolding marshal_open_assoc put_string put_u32
on_wire = refl

frame_steps_answer_example :
    (run_steps 2 (frame_steps world open_frame) new_hub).sent
    ≡ ack 7 (is_some (lookup_id 7 (run_steps 2 (frame_steps world open_frame) new_hub).assocs)) ∷ []
frame_steps_answer_example =
    frame_steps_answer 2 world request open_frame new_hub (omega arith) refl on_wire refl refl refl

-- a hub that is shut while an association is being opened
abbrev closed_hub : Hub
closed_hub =
    run_steps 2
      (opens 7 true true ∷ enters 0 true ∷ opens 8 true true ∷ shuts ∷ leaves ∷ enters 1 true ∷ [])
      new_hub

is_shut : (closed_hub.closed ≡ true) × (closed_hub.leaving ≡ []) × (closed_hub.opening ≡ none)
unfolding step open_assoc enter_assoc shut leave close_assoc lookup_id assign_id erase_id
    remove_conn
is_shut = (refl, refl, refl)

run_closes_all_example : (closed_hub.assocs ≡ []) × (closed_hub.open_conns ≡ [])
run_closes_all_example =
    run_closes_all 2
      (opens 7 true true ∷ enters 0 true ∷ opens 8 true true ∷ shuts ∷ leaves ∷ enters 1 true ∷ [])
      is_shut.0 is_shut.1 is_shut.2
