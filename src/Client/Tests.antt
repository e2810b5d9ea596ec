-- ===== src/Client/Tests.antt =====
-- internal/client.go and kcp/client/dialer.go: the theorems on a KCP client with smux, as the default
-- configuration has it, of which the third stream is refused or none.
use fabrica_net.Base.{true, false, none, some, pos, ◌==◌, if◌then◌else◌, ◌≡◌, refl, [], arith}
use fabrica_net.Conf.{default_kcp}
use fabrica_net.Dialog.{Dialog, Answers, send, is_stopped, new_dialog}
use fabrica_net.Dialog
use fabrica_net.Net.{dialog_id}
use fabrica_net.Client.{
  Network, Dialer, BaseClient, new_base_client, start, stop, kcp_dial, dialog, tcp_dial,
  stop_dialogs,
}
use fabrica_net.Client.Dial.{DialLeaves, kcp_dial-DialLeaves}
use fabrica_net.Client.Dialogs.{HasDialogs, kcp_dial-HasDialogs}

abbrev dialer : Dialer
dialer = record { cli_id = pos 7; conf = default_kcp; smux = false }

abbrev network : Network
network = record {
  parses = true;
  connects = true;
  responds = true;
  makes_session = true;
  opens_stream = λ i. true;
}

abbrev refusing : Network
refusing = record network { opens_stream = λ i. if i == 3 then false else true }

kcp_dial-DialLeaves_example : DialLeaves dialer refusing true true true (kcp_dial dialer refusing).0
kcp_dial-DialLeaves_example = kcp_dial-DialLeaves dialer refusing

-- The default dialog is missing.
kcp_dial-HasDialogs_example : HasDialogs (pos 7) (pos 0) 0 false (kcp_dial dialer network).0
kcp_dial-HasDialogs_example =
    kcp_dial-HasDialogs dialer network (pos 0) 0 (omega arith) (omega arith)

abbrev running : BaseClient
running = (start (pos 0) (new_base_client (pos 7)) (tcp_dial (pos 7) network)).1

abbrev stopped_dialog : Dialog
stopped_dialog = record (new_dialog 700 (pos 7) (pos 0)) { stopping = true }

is_there : dialog (stop (λ id. true) true running).1 700 ≡ some stopped_dialog
unfolding dialog stop start tcp_dial new_base_client stop_dialogs new_dialog dialog_id Dialog.stop
is_there = refl

abbrev answers : Answers
answers = record {
  handshake_pack = λ id. some [];
  encoded = λ p. true;
  decoded = none;
  auth = λ p. (none, true);
}
