-- ===== src/Device/Frames.antt =====
-- internal/protocol/device.go: what the relay and a device tell each other.
use agent_tunnel.Base.{Option, none, some, []}
use agent_tunnel.Base.Text.{Text, codes}

pub record DeviceInfo : Type 0 where
  pub device_id : Text
  pub display_name : Text
  pub platform_family : Text
  pub platform_id : Text
  pub launch_health : Text

pub record DeviceFrame : Type 0 where
  pub type : Text
  pub device : Option DeviceInfo
  pub request_id : Text
  pub session_id : Text
  pub workspace_session : Text
  pub command : Text
  pub cwd : Text
  pub label : Text
  pub status : Text
  pub reason : Text

-- DeviceFrame{Type: type}
abbrev blank : Text → DeviceFrame
blank type = record {
  type = type;
  device = none;
  request_id = [];
  session_id = [];
  workspace_session = [];
  command = [];
  cwd = [];
  label = [];
  status = [];
  reason = [];
}

abbrev pub device_register_frame : DeviceInfo → DeviceFrame
device_register_frame info = record (blank (codes "register")) { device = some info }

abbrev pub device_update_frame : DeviceInfo → DeviceFrame
device_update_frame info = record (blank (codes "update")) { device = some info }

abbrev pub device_launch_request_frame : Text → Text → Text → Text → DeviceFrame
device_launch_request_frame request_id command cwd label = record (blank (codes "launch_request")) {
  request_id = request_id;
  command = command;
  cwd = cwd;
  label = label;
}

abbrev pub device_launch_result_frame_with_workspace : Text → Text → Text → Text → DeviceFrame
device_launch_result_frame_with_workspace request_id status reason workspace_session =
    record (blank (codes "launch_result")) {
      request_id = request_id;
      status = status;
      reason = reason;
      workspace_session = workspace_session;
    }

abbrev pub device_launch_result_frame : Text → Text → Text → DeviceFrame
device_launch_result_frame request_id status reason =
    device_launch_result_frame_with_workspace request_id status reason []

abbrev pub device_terminate_request_frame : Text → Text → Text → DeviceFrame
device_terminate_request_frame request_id session_id workspace_session =
    record (blank (codes "terminate_request")) {
      request_id = request_id;
      session_id = session_id;
      workspace_session = workspace_session;
    }

abbrev pub device_terminate_result_frame : Text → Text → Text → DeviceFrame
device_terminate_result_frame request_id status reason = record (blank (codes "terminate_result")) {
  request_id = request_id;
  status = status;
  reason = reason;
}
