-- ===== src/Connectivity/Frames.antt =====
-- internal/protocol/connectivity.go: the constructors of the frames.
use agent_tunnel.Base.{ℕ, none, some, List, []}
use agent_tunnel.Base.Text.{Text, codes}
use agent_tunnel.Connectivity.{
  DaemonInfo, TrustedAndroid, PairingResponse, ConnectivityFrame, Actor, client, daemon,
}

abbrev pub connectivity_protocol_version : ℕ
connectivity_protocol_version = 2

abbrev pub actor_text : Actor → Text
actor_text client = codes "client"
actor_text daemon = codes "daemon"

-- `ConnectivityFrame{Type: kind}`
abbrev frame_of : Text → ConnectivityFrame
frame_of kind = record {
  kind = kind;
  protocol_version = 0;
  request_id = [];
  reason = [];
  retry_after_seconds = 0;
  account_id = [];
  attempt_id = [];
  actor = [];
  daemon_id = [];
  tunnel_token = [];
  fallback_reason = [];
  direct_setup_latency_ms = 0;
  relay_setup_latency_ms = 0;
  public_udp_addr = [];
  private_udp_addrs = [];
  expires_at = 0;
  daemon = none;
  daemons = [];
  trusted_devices = [];
  direct_sessions = [];
  android_fingerprint = [];
  pairing_response = none;
}

-- A daemon of which only the id and the fingerprint are told.
abbrev bare_daemon : Text → Text → DaemonInfo
bare_daemon device_id fingerprint = record {
  device_id = device_id;
  display_name = [];
  platform_family = [];
  platform_id = [];
  daemon_public_key = [];
  daemon_fingerprint = fingerprint;
  tunnel_version = [];
}

unfoldable pub rendezvous_hint_frame :
    Text → Text → Actor → Text → Text → Text → List Text → ℕ → ConnectivityFrame
rendezvous_hint_frame request_id attempt_id actor daemon_id fingerprint public private expires_at =
    record (frame_of (codes "rendezvous_hint")) {
      request_id = request_id;
      attempt_id = attempt_id;
      actor = actor_text actor;
      daemon_id = daemon_id;
      android_fingerprint = fingerprint;
      public_udp_addr = public;
      private_udp_addrs = private;
      expires_at = expires_at;
    }

unfoldable pub rendezvous_close_frame : Text → Text → Actor → Text → Text → ConnectivityFrame
rendezvous_close_frame request_id attempt_id actor daemon_id fingerprint =
    record (frame_of (codes "rendezvous_close")) {
      request_id = request_id;
      attempt_id = attempt_id;
      actor = actor_text actor;
      daemon_id = daemon_id;
      android_fingerprint = fingerprint;
    }

unfoldable pub daemon_register_frame : DaemonInfo → List TrustedAndroid → ConnectivityFrame
daemon_register_frame info trusted = record (frame_of (codes "computer_register")) {
  protocol_version = connectivity_protocol_version;
  daemon = some info;
  trusted_devices = trusted;
}

unfoldable pub daemon_snapshot_frame : List DaemonInfo → ConnectivityFrame
daemon_snapshot_frame daemons = record (frame_of (codes "computer_snapshot")) { daemons = daemons }

unfoldable pub daemon_upsert_frame : DaemonInfo → ConnectivityFrame
daemon_upsert_frame info = record (frame_of (codes "computer_visible")) { daemon = some info }

unfoldable pub daemon_removed_frame : Text → Text → ConnectivityFrame
daemon_removed_frame device_id fingerprint = record (frame_of (codes "computer_removed")) {
  daemon = some (bare_daemon device_id fingerprint);
}

unfoldable pub paired_device_revoked_frame : Text → Text → ConnectivityFrame
paired_device_revoked_frame device_id fingerprint = record (frame_of (codes "client_revoked")) {
  daemon = some (bare_daemon device_id fingerprint);
}

unfoldable pub pair_response_forward_frame : PairingResponse → ConnectivityFrame
pair_response_forward_frame response = record (frame_of (codes "pair_response_forward")) {
  pairing_response = some response;
}

unfoldable pub direct_session_close_frame : Text → Text → Text → Text → ConnectivityFrame
direct_session_close_frame request_id attempt_id daemon_id fingerprint =
    record (frame_of (codes "direct_session_close")) {
      request_id = request_id;
      attempt_id = attempt_id;
      daemon_id = daemon_id;
      android_fingerprint = fingerprint;
    }

unfoldable pub relay_tunnel_ready_frame :
    Text → Text → Actor → Text → Text → Text → ConnectivityFrame
relay_tunnel_ready_frame request_id attempt_id actor daemon_id fingerprint token =
    record (frame_of (codes "relay_tunnel_ready")) {
      request_id = request_id;
      attempt_id = attempt_id;
      actor = actor_text actor;
      daemon_id = daemon_id;
      android_fingerprint = fingerprint;
      tunnel_token = token;
    }

unfoldable pub relay_tunnel_ready_frame_with_diagnostics :
    Text → Text → Actor → Text → Text → Text → Text → ℕ → ℕ → ConnectivityFrame
relay_tunnel_ready_frame_with_diagnostics request_id attempt_id actor daemon_id fingerprint token
      fallback_reason direct_ms relay_ms =
    record (relay_tunnel_ready_frame request_id attempt_id actor daemon_id fingerprint token) {
      fallback_reason = fallback_reason;
      direct_setup_latency_ms = direct_ms;
      relay_setup_latency_ms = relay_ms;
    }
