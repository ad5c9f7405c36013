-- ===== src/Handlers/Dispatch/Replies.antt =====
-- internal/daemon/daemon.go: the replies of `HandleMessage` that no handler gives.
use cognitiveosd.Prelude.{ℕ, ◌≡◌}
use cognitiveosd.Protocol.{error_payload, reply}
use cognitiveosd.Protocol.Env.{Env}
use cognitiveosd.Daemon.{Daemon, State, shutdown, returned}
use cognitiveosd.Daemon.Delivery.{replied, send_error_lem}
use cognitiveosd.Handlers.{Request}
use cognitiveosd.Handlers.Dispatch.{handle_in, handle_message}

handle_in-shutdown :
    (env : Env) (req : Request) (c : ℕ) (d : Daemon) (s : State)
    → s ≡ shutdown
    → handle_in s env req c d
      ≡ returned tt
          (replied env req c (reply (error_payload "E_SHUTDOWN" "daemon is shutting down")) d)
unfolding handle_in
handle_in-shutdown env req c d s is_down =
    rw is_down (send_error_lem env req c "E_SHUTDOWN" "daemon is shutting down" d)

-- A daemon that is shutting down answers every message, of whatever type and size, with the error
-- E_SHUTDOWN, and changes nothing else.
pub handle_message-shutdown :
    (env : Env) (req : Request) (c : ℕ) (d : Daemon)
    → d.state ≡ shutdown
    → handle_message env req c d
      ≡ returned tt
          (replied env req c (reply (error_payload "E_SHUTDOWN" "daemon is shutting down")) d)
unfolding handle_message
handle_message-shutdown env req c d is_down = handle_in-shutdown env req c d d.state is_down
