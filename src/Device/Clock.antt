-- ===== src/Device/Clock.antt =====
-- The ids of the requests: the device and the time of day as time.Format writes it. A time is the
-- number of nanoseconds since 1970 in UTC.
use agent_tunnel.Base.{ℕ, ◌/◌, ◌%◌, ◌++◌}
use agent_tunnel.Base.Decimal.{digits}
use agent_tunnel.Base.Text.{Text, codes}

-- Format("150405.000000000")
unfoldable pub time_of_day : ℕ → Text
unfolding digits
time_of_day now =
    let seconds = now / 1000000000 in
    digits 2 ((seconds / 3600) % 24)
    ++ digits 2 ((seconds / 60) % 60)
    ++ digits 2 (seconds % 60)
    ++ codes "."
    ++ digits 9 (now % 1000000000)

unfoldable pub launch_request_id : Text → ℕ → Text
unfolding time_of_day
launch_request_id device_id now = device_id ++ codes "-" ++ time_of_day now

unfoldable pub terminate_request_id : Text → ℕ → Text
unfolding time_of_day
terminate_request_id device_id now = device_id ++ codes "-terminate-" ++ time_of_day now
