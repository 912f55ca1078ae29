-- ===== src/Tests/Exchanges.antt =====
-- The theorems on the client, applied to a host with one device.
use bluetooth_ots_rs.Base.{
  ℕ, ◌+◌, ◌≤◌, ◌≡◌, refl, arith, true, false, none, List, [], ◌∷◌, ◌⊎◌, inr, get_or, replicate,
}
use bluetooth_ots_rs.Base.Bytes.{from_le_bytes, to_le_bytes}
use bluetooth_ots_rs.Base.Outcome.{index, Outcome, ok, panic, Returns}
use bluetooth_ots_rs.Base.Monad.{Leaves}
use bluetooth_ots_rs.Client.Objects.{size, previous, next, go_to}
use bluetooth_ots_rs.Client.Operations.{
  action_operation, action_request, list_operation, create, delete, check_sum, execute, do_read,
  do_write, abort, first, last, order, number_of, clear_mark, action_none, list_none,
}
use bluetooth_ots_rs.Client.Operations.Gate.{
  IsRefused, list_operations-IsRefused, action_operations-IsRefused, operations-Return,
}
use bluetooth_ots_rs.Client.Setup.{ClientConfig, new}
use bluetooth_ots_rs.Client.Host.{Host, Event}
use bluetooth_ots_rs.Client.Setup.Features.{new-panic}
use bluetooth_ots_rs.Client.Setup.Made.{IsMade, new-IsMade}
use bluetooth_ots_rs.Client.State.{OtsClient, Error, request, first_value}
use bluetooth_ots_rs.Client.State.Notify.{NotifyState, request-NotifyState}
use bluetooth_ots_rs.Client.Transfer.{
  write_base, socket, window, read_to, read_stream, write, write_stream,
}
use bluetooth_ots_rs.Client.Transport.{connect}
use bluetooth_ots_rs.Core.Responses.{decode_action}
use bluetooth_ots_rs.Core.Opcode.{try_from}
use bluetooth_ots_rs.Client.Transfer.{read_base}
use bluetooth_ots_rs.Client.Transfer.Sent.{write-sent, read_to-received}
use bluetooth_ots_rs.Client.Transfer.Window.{window_within, transfers-within, transfers-panic}
use bluetooth_ots_rs.Core.Codes.{SortOrder}
use bluetooth_ots_rs.Core.Numbers.{sizes_try_from}
use bluetooth_ots_rs.Core.Requests.{ListReq, ActionReq, encode_action}
use bluetooth_ots_rs.Tests.Instances.{
  bits, uuids, Peer, quiet, host, notifies, client, plain_client,
}

-- The host after a list request.
abbrev asked : List ℕ → Peer
asked written = record { notifying = false; written = written }

request_next : request host client 2 (4 ∷ []) quiet ≡ (ok (0x70 ∷ 4 ∷ 1 ∷ []), asked (4 ∷ []))
unfolding request first_value
request_next = refl

request-NotifyState_example : NotifyState host notifies 2 (request host client 2 (4 ∷ []) quiet)
request-NotifyState_example = request-NotifyState host notifies client 2 (4 ∷ []) quiet

operations-Return_example :
    Returns (action_operation bits uuids host client 0x10 (ActionReq.read 0 1) action_none quiet).0
    × Returns (list_operation bits uuids host client none ListReq.first list_none quiet).0
operations-Return_example =
    operations-Return bits uuids host client 0x10 (ActionReq.read 0 1) action_none none
      ListReq.first list_none quiet

abbrev Refused : {A : Type 0} → (Peer → Outcome (Error host) A × Peer) → Type 0
Refused action = IsRefused bits uuids host plain_client quiet action

list_operations-IsRefused_example :
    Refused (first bits uuids host plain_client)
    × Refused (last bits uuids host plain_client)
    × Refused (previous bits uuids host plain_client)
    × Refused (next bits uuids host plain_client)
    × Refused (go_to bits uuids host plain_client 9)
    × Refused (order bits uuids host plain_client SortOrder.name_asc)
    × Refused (number_of bits uuids host plain_client)
    × Refused (clear_mark bits uuids host plain_client)
list_operations-IsRefused_example =
    list_operations-IsRefused bits uuids host plain_client quiet 9 SortOrder.name_asc refl

action_operations-IsRefused_example :
    Refused (create bits uuids host plain_client 1 0x2acb)
    × Refused (delete bits uuids host plain_client)
    × Refused (check_sum bits uuids host plain_client 2 3)
    × Refused (execute bits uuids host plain_client [])
    × Refused (do_read bits uuids host plain_client 2 3)
    × Refused (do_write bits uuids host plain_client 2 3 0)
    × Refused (abort bits uuids host plain_client)
action_operations-IsRefused_example =
    action_operations-IsRefused bits uuids host plain_client quiet 1 2 3 0 0x2acb [] refl

window_within_example :
    (n : ℕ) × (window true bits uuids host 100 10 4 quiet ≡ (ok n, quiet))
    × (n ≤ 100)
    × (4 + n ≤ 10)
    × ((n ≡ 100) ⊎ (4 + n ≡ 10))
window_within_example = window_within bits uuids host true 100 10 4 quiet (omega arith)

transfers-panic_example :
    (read_to true bits uuids host client 2 (0 ∷ []) quiet ≡ (panic, quiet))
    × (read_stream true bits uuids host client 2 none quiet ≡ (panic, quiet))
    × (write true bits uuids host client 2 (0 ∷ []) 0 quiet ≡ (panic, quiet))
    × (write_stream true bits uuids host client 2 none 0 quiet ≡ (panic, quiet))
unfolding size sizes_try_from from_le_bytes
transfers-panic_example =
    transfers-panic bits uuids host client 2 none (0 ∷ []) 0 (record { current = 1; allocated = 1 })
      quiet quiet refl (omega arith) (omega arith)

abbrev config : ClientConfig
config = record { privileged = false; security = none }

new-IsMade_example : Leaves (IsMade bits uuids host 5 config) (new bits uuids host 5 config quiet)
new-IsMade_example = new-IsMade bits uuids host 5 config quiet

transfers-within_example :
    Returns (write true bits uuids host client 1 (8 ∷ 9 ∷ []) 0 quiet).0
    × Leaves
        (λ n w. (n ≤ 2) × (1 + n ≤ 1))
        (write true bits uuids host client 1 (8 ∷ 9 ∷ []) 0 quiet)
    × Returns (read_to true bits uuids host client 1 (8 ∷ 9 ∷ []) quiet).0
    × Leaves
        (λ r w. (r.0 ≤ 2) × (1 + r.0 ≤ 1))
        (read_to true bits uuids host client 1 (8 ∷ 9 ∷ []) quiet)
unfolding size sizes_try_from from_le_bytes
transfers-within_example =
    transfers-within bits uuids host true client 1 (8 ∷ 9 ∷ []) 0
      (record { current = 1; allocated = 1 }) quiet quiet refl (omega arith) (omega arith)

-- The same device with a feature characteristic of two bytes.
abbrev short_host : Host ℕ
short_host = record host { read_characteristic_value = λ chr w. (inr (1 ∷ 0 ∷ []), w) }

new-panic_example : new bits uuids short_host 5 config quiet ≡ (panic, quiet)
new-panic_example =
    new-panic bits uuids short_host 5 config 0 [] 2 (1 ∷ 0 ∷ []) quiet quiet quiet quiet quiet refl
      refl refl refl (omega arith)

-- The same device, which grants each action and has sizes of 4 and 8 bytes.
abbrev granting : Host ℕ
granting = record host {
  read_characteristic_value = λ chr w. (inr (4 ∷ 0 ∷ 0 ∷ 0 ∷ 8 ∷ 0 ∷ 0 ∷ 0 ∷ []), w);
  events_until_deadline = λ s w. (Event.value 1 (0x60 ∷ get_or w.written 0 0 ∷ 1 ∷ []) ∷ [], w);
}

abbrev writer : OtsClient granting
writer = record {
  adapter_id = 7;
  device_id = 5;
  adapter_addr = client.adapter_addr;
  device_addr = client.device_addr;
  sock_security = none;
  action_features = 0x3ff;
  list_features = 0xf;
  oacp_chr = 1;
  olcp_chr = none;
  id_chr = none;
  name_chr = 2;
  type_chr = 2;
  size_chr = 2;
  prop_chr = 2;
  crt_chr = none;
  mod_chr = none;
}

abbrev asked_to_write : Peer
asked_to_write = asked (6 ∷ 6 ∷ 0 ∷ 0 ∷ 0 ∷ 2 ∷ 0 ∷ 0 ∷ 0 ∷ 0 ∷ [])

write-sent_example :
    write true bits uuids granting writer 6 (1 ∷ 2 ∷ 3 ∷ []) 0 quiet ≡ (ok 2, asked_to_write)
unfolding size sizes_try_from from_le_bytes to_le_bytes write_base socket connect action_operation
    action_request request first_value decode_action index try_from encode_action
write-sent_example =
    write-sent true bits uuids granting writer 6 (1 ∷ 2 ∷ 3 ∷ [])
      (record { current = 4; allocated = 8 }) quiet quiet asked_to_write asked_to_write tt 0 refl
      (omega arith) refl refl

-- The same device, on whose channel all bytes are 7.
abbrev sending : Host ℕ
sending = record granting { read_exact = λ c n w. (inr (replicate n 7), w) }

abbrev receiver : OtsClient sending
receiver = record {
  adapter_id = 7;
  device_id = 5;
  adapter_addr = client.adapter_addr;
  device_addr = client.device_addr;
  sock_security = none;
  action_features = 0x3ff;
  list_features = 0xf;
  oacp_chr = 1;
  olcp_chr = none;
  id_chr = none;
  name_chr = 2;
  type_chr = 2;
  size_chr = 2;
  prop_chr = 2;
  crt_chr = none;
  mod_chr = none;
}

abbrev asked_to_read : Peer
asked_to_read = asked (5 ∷ 1 ∷ 0 ∷ 0 ∷ 0 ∷ 3 ∷ 0 ∷ 0 ∷ 0 ∷ [])

read_to-received_example :
    read_to true bits uuids sending receiver 1 (1 ∷ 2 ∷ 3 ∷ 4 ∷ 5 ∷ []) quiet
    ≡ (ok (3, 7 ∷ 7 ∷ 7 ∷ 4 ∷ 5 ∷ []), asked_to_read)
unfolding size sizes_try_from from_le_bytes to_le_bytes read_base socket connect action_operation
    action_request request first_value decode_action index try_from encode_action
read_to-received_example =
    read_to-received true bits uuids sending receiver 1 (1 ∷ 2 ∷ 3 ∷ 4 ∷ 5 ∷ [])
      (record { current = 4; allocated = 8 }) quiet quiet asked_to_read asked_to_read tt
      (7 ∷ 7 ∷ 7 ∷ []) refl (omega arith) refl refl
