-- ===== src/Tests/Connected.antt =====
-- The theorems on the table of clients at work.
use cognitiveosd.Prelude.{String, false, sym, ◌∙◌, ◌++◌, ◌≡◌, refl, some, []}
use cognitiveosd.Prelude.Dict.{insert, lookup}
use cognitiveosd.Protocol.{Body, Envelope, no_data, ok_payload, reply}
use cognitiveosd.Protocol.Decoding.{decode_envelope}
use cognitiveosd.Daemon.{Daemon, left, returned, send, send_ok}
use cognitiveosd.Daemon.Clients.{add_client, identify, close, send_to_client, with_conn}
use cognitiveosd.Daemon.Closing.Stuck.{IsStuck}
use cognitiveosd.Daemon.Shutdown.{shutdown}
use cognitiveosd.Handlers.{handle_status_request}
use cognitiveosd.Handlers.Dispatch.{dispatch, handle_in, handle_message}
use cognitiveosd.Socket.{handle_line, new_client_conn, parse_line}
use cognitiveosd.Socket.Replies.{AnsweredLine, handle_line-AnsweredLine}
use cognitiveosd.Socket.Listed.{IsListed}
use cognitiveosd.Socket.Table.{Reach, Reach-IsListed, start, later, accepts, reads}
use cognitiveosd.Socket.Table.Names.{close-evicts}
use cognitiveosd.Socket.Table.Stuck.{Reach-IsStuck}
use cognitiveosd.Tests.{daemon_with, ready_raw, shell, willing, world}

-- One connection is accepted, and its first line asks for the status.
abbrev alone : Daemon
alone = daemon_with ready_raw []

abbrev accepted : Daemon
accepted = with_conn 7 (λ k. new_client_conn) alone

abbrev asked : Daemon
asked = left (
    handle_line (world willing) 7 "how are you" (parse_line (world willing) "how are you") accepted)

asked-Reach : Reach (world willing) asked
unfolding parse_line decode_envelope
asked-Reach = later (later (start alone refl) (accepts 7 tt)) (reads 7 "how are you" refl (λ e. cc))

Reach-IsListed_example : IsListed asked.conns asked.clients
Reach-IsListed_example = Reach-IsListed (world willing) asked-Reach

asked_lem :
    (asked.listener_closed ≡ false) × (asked.auditor_stopped ≡ false) × (asked.clients ≡ shell)
unfolding handle_line parse_line decode_envelope identify add_client insert handle_message handle_in
    dispatch handle_status_request send_ok send
asked_lem = (refl, refl, refl)

Reach-IsStuck_example : IsStuck asked.commands (shutdown (world willing) "security_code" asked)
Reach-IsStuck_example =
    Reach-IsStuck (world willing) "security_code" asked asked-Reach asked_lem.0 asked_lem.1
      (λ e. let none_there : shell ≡ [] = sym asked_lem.2 ∙ e in cc)

-- Two connections that both go by the name `shell`, of which the table has the first.
abbrev notice : Envelope Body
notice = record {
  type = "notice";
  id = "1";
  timestamp = "";
  from = "cognitiveosd";
  payload = reply (ok_payload no_data);
}

close-evicts_example :
    let d = daemon_with ready_raw shell in
    let d' = left (close 8 d) in
    (send_to_client "shell" notice d ≡ send 7 notice d)
    × (d'.conns 7 ≡ d.conns 7)
    × (send_to_client "shell" notice d'
        ≡ returned (some ("E_SERVER_NOT_FOUND: client " ++ "shell" ++ " not connected")) d')
unfolding lookup
close-evicts_example =
    close-evicts 8 7 "shell" notice (daemon_with ready_raw shell) refl refl (λ e. cc) refl (λ e. cc)

abbrev shown : String
shown = "how are you"

handle_line-AnsweredLine_example :
    let o = parse_line (world willing) shown in
    AnsweredLine (world willing) 7 shown o accepted (handle_line (world willing) 7 shown o accepted)
unfolding parse_line decode_envelope
handle_line-AnsweredLine_example =
    handle_line-AnsweredLine (world willing) 7 shown (parse_line (world willing) shown) accepted
      (record { closed = refl; broken = refl }) ((λ e. cc), (λ e. cc))
