-- ===== src/Recorder/Client/Backoff.antt =====
-- The delays and timeouts of RealTime_Embedded_Systems/src/finnhub_client.cpp.
use university_collection.Prelude.{ℕ, ◌+◌, ◌-◌, ◌*◌, ◌%◌, ◌^◌, ◌<◌, ◌≡◌, refl}
use university_collection.Prelude.{ltb, if◌then◌else◌, arith}
use university_collection.Prelude.Int.{pos, negsuc}
use university_collection.Recorder.Client.{
  Client, reconnect_timeout_ms, set_ping_interval, set_pong_timeout,
}

-- The doubled delay, and the less of it and the maximum.
abbrev pub doubled : Client → ℕ
doubled c = c.initial_reconnection_delay * 2 ^ c.connection_attempts

abbrev pub capped : ℕ → ℕ → ℕ
capped most n = if ltb most n then most else n

-- As long as the delay, doubled for each failed attempt, fits an `int`, the client waits for that or for
-- the maximum, whichever is less. The next doubling makes it negative where it wraps: then `std::min`
-- keeps it, and there is no wait at all.
pub reconnect_timeout_ms_lem :
    (c : Client)
    → doubled c < 4294967296
    → reconnect_timeout_ms c ≡ (
        if ltb (doubled c) 2147483648
        then pos (capped c.max_reconnection_delay (doubled c))
        else negsuc (4294967295 - doubled c))
unfolding reconnect_timeout_ms
reconnect_timeout_ms_lem c h = ground (arith, h)

-- In the order of `main` the initial values of the retry policy, which are not set, do not matter.
set_pong_timeout-set_ping_interval :
    (interval timeout : ℕ) (c : Client)
    → ((set_pong_timeout timeout (set_ping_interval interval c)).secs_since_valid_ping
        ≡ interval % 65536)
      × ((set_pong_timeout timeout (set_ping_interval interval c)).secs_since_valid_hangup
          ≡ (interval + timeout) % 65536)
unfolding set_ping_interval set_pong_timeout
set_pong_timeout-set_ping_interval interval timeout c = (refl, omega arith)
